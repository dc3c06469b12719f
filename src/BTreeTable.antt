-- ===== src/BTreeTable.antt =====
-- src/kernel/lsm/table/btree_table: the table in memory, and its iterator. The `BTreeMap` is a
-- sorted association list.
pub mod Iterates
mod Tests
use kip_db.Base.{ℕ, Option, none, some, List, [], ◌∷◌}
use kip_db.Base.Int.{ℤ}
use kip_db.Base.Lists.{length}
use kip_db.Base.Order.{Bytes, bytes_ord, included, unbounded}
use kip_db.Base.SortedMap
use kip_db.Base.SortedMap.{between}
use kip_db.Data.{KeyValue}
use kip_db.Error.{KernelResult, ok}
use kip_db.Merging.{Seek, SeekIter}

-- An entry of the map, which holds the key twice.
abbrev pub Entries : Type 0
Entries = List (Bytes × KeyValue)

pub record BTreeTable : Type 0 where
  pub level : ℕ
  pub gen : ℤ
  pub len : ℕ
  pub inner : Entries

-- `BTreeMap::from_iter` over the data with their keys, onto a map.
unfoldable pub from_iter : Entries → List KeyValue → Entries
from_iter inner [] = inner
from_iter inner ((key, value) ∷ kvs) = from_iter (SortedMap.insert key (key, value) inner) kvs

unfoldable pub create : ℕ → ℤ → List KeyValue → BTreeTable
unfolding from_iter
create level gen kvs = record {
  level = level;
  gen = gen;
  len = length kvs;
  inner = from_iter [] kvs;
}

unfoldable pub query : BTreeTable → Bytes → KernelResult (Option KeyValue)
query table key = ok (SortedMap.get key table.inner)

-- The iterator, with what is left of the range.
pub record BTreeTableIter : Type 0 where
  pub inner : Option Entries
  pub table : BTreeTable

-- `_seek`, the whole of `seek`, which never fails.
unfoldable pub seek : Seek → BTreeTableIter → BTreeTableIter
seek Seek.first it = record it { inner = some (between unbounded unbounded it.table.inner) }
seek Seek.last it = record it { inner = none }
seek (Seek.backward key) it = record it {
  inner = some (between (included key) unbounded it.table.inner);
}

unfoldable pub iter : BTreeTable → BTreeTableIter
unfolding seek
iter table = seek Seek.first (record { inner = none; table = table })

-- The call of `next` on the range.
abbrev pub next_of : Option Entries → BTreeTable → BTreeTableIter × KernelResult (Option KeyValue)
next_of none table = (record { inner = none; table = table }, ok none)
next_of (some []) table = (record { inner = some []; table = table }, ok none)
next_of (some ((_, value) ∷ es)) table =
    (record { inner = some es; table = table }, ok (some value))

unfoldable pub try_next : BTreeTableIter → BTreeTableIter × KernelResult (Option KeyValue)
try_next it = next_of it.inner it.table
