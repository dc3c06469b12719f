-- ===== src/MemTable/Tests.antt =====
-- The memory table at concrete contents, over a sorted list and a log that keeps its records.
use kip_db.Base.{ℕ, ◌≡◌, refl, Option, none, some, true, false, List, [], ◌∷◌, ◌++◌}
use kip_db.Base.Int.{pos, int_ord}
use kip_db.Base.Order.{Bytes, bytes_ord}
use kip_db.Base.SortedMap.{IsSorted, get}
use kip_db.Codec.Little.{little_varint}
use kip_db.Error.{ok}
use kip_db.SkipMap.{sorted_list}
use kip_db.Trigger.{Trigger, item_process, is_exceeded}
use kip_db.MemTable.{
  MemMap, TableInner, check_key_conflict, insert_data, insert_batch_data, find,
  find_with_sequence_id, swap_data, swap_locked, swap, first_of_each,
}
use kip_db.MemTable.Conflict.{check_key_conflict-any_newer}
use kip_db.MemTable.Find.{find_with_sequence_id-seen_at}
use kip_db.MemTable.Insert.{insert_data-find, insert_data-hidden, insert_batch_data-atomic}
use kip_db.MemTable.Key.{InternalKey, key_ord}
use kip_db.MemTable.LogIo.{Wal}
use kip_db.MemTable.Swap.{swap_data-latest, swap_locked-reads}

abbrev pub maps : MemMap
maps = sorted_list InternalKey (Option Bytes)

-- A log that never fails.
abbrev pub records : Wal
records = record {
  Writer = List Bytes;
  writer = λ gen. ok [];
  add_record = λ r w. (w ++ r ∷ [], ok tt);
  flush = λ w. (w, ok tt);
}

abbrev pub k1 : Bytes
k1 = b'a' ∷ []

abbrev pub k2 : Bytes
k2 = b'b' ∷ []

abbrev at : Bytes → ℕ → InternalKey
at key n = record { key = key; seq_id = pos n }

-- Two versions of one key and a removed key.
abbrev pub two_keys : TableInner maps records
two_keys = record {
  mem =
      maps.from_iter ((at k1 1, some (10 ∷ [])) ∷ (at k2 2, none) ∷ (at k1 3, some (30 ∷ [])) ∷ []);
  immut = none;
  log_writer = [];
  log_gen = pos 7;
  trigger = Trigger.count (record { item_count = 3; threshold = 9 });
}

find_with_sequence_id-seen_at_example :
    find_with_sequence_id two_keys k1 (pos 2) ≡ some (k1, some (10 ∷ []))
find_with_sequence_id-seen_at_example = find_with_sequence_id-seen_at two_keys k1 (pos 2)

write_succeeds : (insert_data little_varint two_keys (pos 4) (k2, some (5 ∷ []))).2 ≡ ok false
unfolding insert_data item_process is_exceeded
write_succeeds = refl

insert_data-find_example :
    find (insert_data little_varint two_keys (pos 4) (k2, some (5 ∷ []))).0 k2
    ≡ some (k2, some (5 ∷ []))
insert_data-find_example =
    insert_data-find little_varint two_keys (pos 4) k2 (some (5 ∷ [])) (refl, (refl, (refl, tt)))
      refl write_succeeds

earlier_reads_stay :
    find_with_sequence_id (insert_data little_varint two_keys (pos 4) (k1, none)).0 k1 (pos 3)
    ≡ find_with_sequence_id two_keys k1 (pos 3)
earlier_reads_stay = insert_data-hidden little_varint two_keys (pos 4) k1 none k1 (pos 3) refl

insert_batch_data-atomic_example :
    find_with_sequence_id
      (insert_batch_data little_varint two_keys ((k1, none) ∷ (k2, some []) ∷ []) (pos 4)).0
      k1
      (pos 5)
    ≡ some (k1, none)
insert_batch_data-atomic_example =
    insert_batch_data-atomic little_varint two_keys ((k1, none) ∷ (k2, some []) ∷ []) (pos 4) k1
      (pos 5) (refl, (refl, (refl, tt)))

check_key_conflict-any_newer_example :
    check_key_conflict two_keys ((k2, none) ∷ (k1, none) ∷ []) (pos 2) ≡ true
check_key_conflict-any_newer_example =
    check_key_conflict-any_newer two_keys ((k2, none) ∷ (k1, none) ∷ []) (pos 2)

swap_data-latest_example :
    IsSorted (swap_data maps (first_of_each []) two_keys.mem)
    × (get k1 (swap_data maps (first_of_each []) two_keys.mem) ≡ some (some (30 ∷ [])))
swap_data-latest_example =
    swap_data-latest maps (first_of_each []) two_keys.mem k1 (λ es. refl) (refl, (refl, (refl, tt)))

swap_locked-reads_example :
    (maps.iter (swap_locked (first_of_each []) two_keys (pos 8)).0.mem ≡ [])
    × (find_with_sequence_id (swap_locked (first_of_each []) two_keys (pos 8)).0 k1 (pos 9)
        ≡ some (k1, some (30 ∷ [])))
swap_locked-reads_example = swap_locked-reads (first_of_each []) two_keys (pos 8) k1 (pos 9) refl

-- In the third round no transaction is left, and the table is that of this round.
swapped :
    swap (first_of_each []) (
      record { before = 1; locked = 0; inner = two_keys; gen_buf = pos 8 }
      ∷ record { before = 0; locked = 1; inner = two_keys; gen_buf = pos 8 }
      ∷ record { before = 0; locked = 0; inner = two_keys; gen_buf = pos 9 }
      ∷ record { before = 0; locked = 0; inner = two_keys; gen_buf = pos 10 }
      ∷ [])
    ≡ some (swap_locked (first_of_each []) two_keys (pos 9))
unfolding swap
swapped = refl
