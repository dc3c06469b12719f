-- ===== src/Store/Transaction/Iter/Tests.antt =====
-- The iterator of a transaction with its own writes, both maps and a table.
use kip_db.Base.{ℕ, ◌<◌, ◌≡◌, refl, none, some, List, [], ◌∷◌, if◌then◌else◌, arith}
use kip_db.Base.Int.{pos}
use kip_db.Base.Order.{Bytes, bytes_ord, excluded, unbounded}
use kip_db.Base.SortedMap.{IsSorted, get}
use kip_db.BTreeTable.{BTreeTableIter, create, from_iter}
use kip_db.BTreeTable.Iterates.{table_iter, table_yields, whole, table-SeeksBack}
use kip_db.Data.{KeyValue}
use kip_db.Error.{ok}
use kip_db.MemTable.Range.{no_repeat}
use kip_db.MemTable.Range.Tests.{both_maps, k3}
use kip_db.MemTable.Range.Visible.{in_bounds}
use kip_db.MemTable.Tests.{maps, records, k1, k2}
use kip_db.Store.Transaction.{Transaction, Shared, CheckType, DiskQuery}
use kip_db.Store.Transaction.Iter.{TransactionIter, iter}
use kip_db.Store.Transaction.Iter.Reads.{iter-read_at, read_at}
use kip_db.Store.Transaction.Iter.Steps.{drain_tx}

abbrev k4 : Bytes
k4 = b'd' ∷ []

abbrev rows : List KeyValue
rows = (k1, some (1 ∷ [])) ∷ (k4, some (4 ∷ [])) ∷ []

abbrev no_tables : DiskQuery
no_tables key = ok none

abbrev reader : Transaction
reader = record {
  disk = no_tables;
  seq_id = pos 7;
  check_type = CheckType.optimistic;
  write_buf = some ((k3, none) ∷ []);
}

abbrev store : Shared maps records
store = record { inner = both_maps; tx_count = 1; seq_count = pos 10 }

-- The iterator of a table in memory.
abbrev in_memory : BTreeTableIter
in_memory = record { inner = none; table = create 1 (pos 2) rows }

iter-read_at_example :
    (t : TransactionIter table_iter) × (items : List KeyValue) × (bound : ℕ) × (iter no_repeat store
        reader
        (ok (in_memory ∷ []))
        (excluded k1)
        unbounded
      ≡ some (ok t))
    × ((n rounds fuel : ℕ)
        → bound < n
        → bound < rounds
        → bound < fuel
        → drain_tx n rounds fuel t ≡ some items)
    × IsSorted items
    × ((key : Bytes)
        → get key items ≡ (
            if in_bounds (excluded k1) unbounded key
            then read_at table_yields whole store reader (excluded k1) key (in_memory ∷ [])
            else none))
iter-read_at_example =
    iter-read_at table_yields whole no_repeat store reader (in_memory ∷ []) (excluded k1) unbounded
      (λ es. refl)
      (
        (omega arith, (omega arith, (omega arith, tt))),
        (omega arith, (omega arith, (omega arith, tt))),
      )
      (tt, tt) refl (table-SeeksBack 1 (pos 2) rows none, tt)

-- It holds the tombstones of the table and of the transaction, and the row of the table.
read_items :
    (read_at table_yields whole store reader (excluded k1) k2 (in_memory ∷ []) ≡ some none)
    × (read_at table_yields whole store reader (excluded k1) k3 (in_memory ∷ []) ≡ some none)
    × (read_at table_yields whole store reader (excluded k1) k4 (in_memory ∷ [])
        ≡ some (some (4 ∷ [])))
unfolding create from_iter
read_items = (refl, refl, refl)
