-- ===== src/Store/Transaction/Tests.antt =====
-- Transactions at concrete contents.
use kip_db.Base.{◌≡◌, refl, none, some, false, [], ◌∷◌, arith}
use kip_db.Base.Int.{pos, int_ord}
use kip_db.Base.Order.{bytes_ord}
use kip_db.Codec.Little.{little_varint}
use kip_db.Data.{sub_usize}
use kip_db.Error.{KernelError, ok, err}
use kip_db.MemTable.{find_with_sequence_id}
use kip_db.MemTable.Tests.{maps, records, two_keys, k1, k2}
use kip_db.Store.Transaction.{
  Transaction, Shared, CheckType, DiskQuery, begin, get, set, remove, commit,
}
use kip_db.Store.Transaction.Isolation.{get-set}
use kip_db.Store.Transaction.Snapshot.{Event, run, begin-run}
use kip_db.Store.Transaction.Refused.{begun, overtaken, commit-refused_later}
use kip_db.Store.Transaction.Commit.{commit-atomic, commit-commit}

abbrev shared : Shared maps records
shared = record { inner = two_keys; tx_count = 1; seq_count = pos 4 }

abbrev no_tables : DiskQuery
no_tables key = ok none

-- A transaction that began at a number and writes `k1`.
abbrev writer : Transaction
writer = record {
  disk = no_tables;
  seq_id = pos 3;
  check_type = CheckType.optimistic;
  write_buf = some ((k1, some (7 ∷ [])) ∷ []);
}

abbrev late : Transaction
late = record writer { seq_id = pos 2 }

get-set_example :
    (get shared (set writer k2 (9 ∷ [])) k2 ≡ ok (some (9 ∷ [])))
    × (get shared (set writer k2 (9 ∷ [])) k1 ≡ get shared writer k1)
    × ((remove shared writer k2).1 ≡ ok tt → get shared (remove shared writer k2).0 k2 ≡ ok none)
    × (get shared (remove shared writer k2).0 k1 ≡ get shared writer k1)
get-set_example = get-set shared writer k2 (9 ∷ []) k1 (λ e. ground arith)

-- A removal that succeeds.
removed : (remove shared writer k1).1 ≡ ok tt
unfolding remove get
removed = refl

begin-run_example :
    let (s', tx) = begin shared CheckType.optimistic no_tables in
    get
      (run little_varint s' (
        Event.append false (k1, none)
        ∷ Event.finish false writer
        ∷ Event.start CheckType.optimistic no_tables
        ∷ []))
      tx
      k1
    ≡ get shared tx k1
begin-run_example =
    begin-run little_varint shared CheckType.optimistic no_tables
      (Event.append false (k1, none)
        ∷ Event.finish false writer
        ∷ Event.start CheckType.optimistic no_tables
        ∷ [])
      k1 (omega arith)

-- Others begin, write `k1` and commit it after this transaction began.
abbrev overtaking : Transaction
overtaking = record writer { seq_id = pos 5 }

abbrev slow : Transaction
slow = record writer { seq_id = pos 4 }

abbrev met : Shared maps records
met =
    overtaken {sm = maps} {wal = records} little_varint
      (begun little_varint shared CheckType.optimistic no_tables
        (Event.start CheckType.optimistic no_tables ∷ []))
      false overtaking (Event.append false (k1, none) ∷ [])

commit-refused_later_example :
    commit little_varint false met slow
    ≡ (record met { tx_count = sub_usize met.tx_count 1 }, err KernelError.repeated_write)
unfolding run
commit-refused_later_example =
    commit-refused_later little_varint shared CheckType.optimistic no_tables
      (Event.start CheckType.optimistic no_tables ∷ []) (Event.append false (k1, none) ∷ []) false
      false overtaking slow ((k1, some (7 ∷ [])) ∷ []) ((k1, some (7 ∷ [])) ∷ []) k1 (omega arith)
      refl refl refl refl refl refl

commit-atomic_example :
    find_with_sequence_id (commit little_varint false shared writer).0.inner k1 (pos 4)
    ≡ some (k1, some (7 ∷ []))
commit-atomic_example =
    commit-atomic little_varint false shared writer ((k1, some (7 ∷ [])) ∷ []) k1 (pos 4) refl refl
      (refl, (refl, (refl, tt)))

commit-commit_example :
    (commit little_varint false (commit little_varint false shared writer).0 writer).1
    ≡ err KernelError.repeated_write
commit-commit_example =
    commit-commit little_varint false false shared writer writer ((k1, some (7 ∷ [])) ∷ [])
      ((k1, some (7 ∷ [])) ∷ []) k1 refl refl refl refl refl refl
