-- ===== src/MemTable/MapIter.antt =====
-- src/kernel/lsm/mem_table.rs: `MemMapIter`, which yields the last version of every key of a map.
pub mod Drain
mod Tests
use kip_db.Base.{true, false, Option, none, some, List, [], ◌∷◌}
use kip_db.Base.Int.{pos}
use kip_db.Base.Order.{Bytes, bytes_ord, is_eq, included, unbounded}
use kip_db.Data.{KeyValue}
use kip_db.Error.{KernelResult, ok}
use kip_db.MemTable.{MemMap}
use kip_db.MemTable.Key.{InternalKey}
use kip_db.Merging.{Seek}

module _ (sm : MemMap) where
  -- `iter` is the list of what the iterator of the map still yields.
  pub record MemMapIter : Type 0 where
    pub mem_map : sm.Map
    pub prev_item : Option KeyValue
    pub iter : Option (List (InternalKey × Option Bytes))

-- The `for` loop of `try_next` and the end of it: the answer, the item kept and what is left.
unfoldable pub next_loop :
    Option KeyValue
    → List (InternalKey × Option Bytes)
    → Option KeyValue × Option KeyValue × List (InternalKey × Option Bytes)
next_loop prev_item [] = (prev_item, none, [])
next_loop none ((k, value) ∷ es) = next_loop (some (k.key, value)) es
next_loop (some prev) ((k, value) ∷ es) = elim (is_eq k.key prev.0) [
  | false ↦ (some prev, some (k.key, value), es)
  | true ↦ next_loop (some (k.key, value)) es
]

module _ {sm : MemMap} where
  unfoldable pub create : sm.Map → MemMapIter sm
  create mem_map = record { mem_map = mem_map; prev_item = none; iter = some (sm.iter mem_map) }

  unfoldable pub try_next : MemMapIter sm → MemMapIter sm × KernelResult (Option KeyValue)
  unfolding next_loop
  try_next it = elim it.iter [
    | none ↦ (it, ok none)
    | some es ↦
        let (answer, prev_item, rest) = next_loop it.prev_item es in
        (record it { prev_item = prev_item; iter = some rest }, ok answer)
  ]

  -- `seek`, which never fails.
  unfoldable pub seek : Seek → MemMapIter sm → MemMapIter sm
  seek Seek.first it = record it { prev_item = none; iter = some (sm.iter it.mem_map) }
  seek Seek.last it = record it { prev_item = none; iter = none }
  seek (Seek.backward seek_key) it = record it {
    prev_item = none;
    iter =
        some (sm.range (included (record { key = seek_key; seq_id = pos 0 })) unbounded it.mem_map);
  }
