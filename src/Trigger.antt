-- ===== src/Trigger.antt =====
-- src/kernel/lsm/trigger.rs: the triggers that decide when the memory table is flushed. The trait
-- object is a data type with a constructor for each implementation.
mod Total
mod Tests
use kip_db.Base.{ℕ, Bool, leb}
use kip_db.Data.{KeyValue, key_value_bytes_len, add_usize}

pub record CountTrigger : Type 0 where
  pub item_count : ℕ
  pub threshold : ℕ

pub record SizeOfMemTrigger : Type 0 where
  pub size_of_mem : ℕ
  pub threshold : ℕ

pub data Trigger : Type 0 where
  count : CountTrigger → Trigger
  size_of_mem : SizeOfMemTrigger → Trigger

pub data TriggerType : Type 0 where
  count size_of_mem : TriggerType

unfoldable pub item_process : Trigger → KeyValue → Trigger
item_process (Trigger.count t) item =
    Trigger.count (record t { item_count = add_usize t.item_count 1 })
item_process (Trigger.size_of_mem t) item =
    Trigger.size_of_mem
      (record t { size_of_mem = add_usize t.size_of_mem (key_value_bytes_len item) })

unfoldable pub is_exceeded : Trigger → Bool
is_exceeded (Trigger.count t) = leb t.threshold t.item_count
is_exceeded (Trigger.size_of_mem t) = leb t.threshold t.size_of_mem

unfoldable pub reset : Trigger → Trigger
reset (Trigger.count t) = Trigger.count (record t { item_count = 0 })
reset (Trigger.size_of_mem t) = Trigger.size_of_mem (record t { size_of_mem = 0 })

-- `TriggerFactory::create`
unfoldable pub create : TriggerType → ℕ → Trigger
create TriggerType.count threshold =
    Trigger.count (record { item_count = 0; threshold = threshold })
create TriggerType.size_of_mem threshold =
    Trigger.size_of_mem (record { size_of_mem = 0; threshold = threshold })
