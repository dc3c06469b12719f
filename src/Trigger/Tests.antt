-- ===== src/Trigger/Tests.antt =====
-- The unit tests of trigger.rs, and the theorem at concrete items.
use mathlib.Core.List.{foldl}
use kip_db.Base.{◌≡◌, refl, true, false, some, [], ◌∷◌, arith}
use kip_db.Data.{KeyValue, key_value_bytes_len}
use kip_db.Trigger.{TriggerType, item_process, is_exceeded, reset, create}
use kip_db.Trigger.Total.{is_exceeded-foldl}

abbrev item : KeyValue
item = (b'0' ∷ [], some (b'1' ∷ b'2' ∷ []))

test_size_of_mem_trigger :
    (is_exceeded (item_process (create TriggerType.size_of_mem 4) item) ≡ false)
    × (is_exceeded (foldl item_process (create TriggerType.size_of_mem 4) (item ∷ item ∷ []))
        ≡ true)
unfolding item_process is_exceeded create key_value_bytes_len
test_size_of_mem_trigger = (refl, refl)

is_exceeded-foldl_example :
    is_exceeded (
      foldl item_process
        (reset (foldl item_process (create TriggerType.count 2) (item ∷ [])))
        (item ∷ item ∷ []))
    ≡ true
is_exceeded-foldl_example =
    is_exceeded-foldl TriggerType.count 2 (item ∷ []) (item ∷ item ∷ []) (omega arith)
