-- ===== src/Store/Transaction/Commit.antt =====
-- When a transaction may commit, and what its commit makes visible.
use kip_db.Base.{
  ◌≡◌, refl, ap, ◌∙◌, Bool-cases, inl, inr, Bool, true, false, ◌&&◌, ◌||◌, Option, none, some, List,
  [], ◌∷◌, if◌then◌else◌, arith,
}
use kip_db.Base.Int.{ℤ, int_ord}
use kip_db.Base.Order.{Bytes, bytes_ord, bytes_eq_of_cmp, is_le, is_lt, is_eq, Ordering, lt, eq, gt}
use kip_db.Base.SortedMap.{insert, insert_lt, insert_eq, insert_gt}
use kip_db.Codec.{VarInt}
use kip_db.Data.{KeyValue, sub_usize}
use kip_db.Error.{KernelError, err}
use kip_db.MemTable.{MemMap, TableInner, insert_items, insert_batch_data, find_with_sequence_id}
use kip_db.MemTable.Conflict.{newer, any_newer, check_key_conflict-any_newer}
use kip_db.MemTable.Insert.{NotAbove, batch_value, batch_maps, insert_batch_data-atomic}
use kip_db.MemTable.Key.{InternalKey, key_ord, key_cmp, key_eq_of_cmp}
use kip_db.MemTable.LogIo.{Wal}
use kip_db.MemTable.Versions.{Versions}
use kip_db.Store.Transaction.{Transaction, Shared, commit, commit_body, drop}

-- Some item of the batch has the key.
abbrev pub writes : Bytes → List KeyValue → Bool
writes key [] = false
writes key ((k, v) ∷ items) = is_eq k key || writes key items

pub newer-insert :
    (key : Bytes) (seq : ℤ) (new : InternalKey) (value : Option Bytes) (m : Versions)
    → newer key seq (insert new value m)
      ≡ (is_eq new.key key && is_lt seq new.seq_id || newer key seq m)
newer-insert key seq new value [] = refl
newer-insert key seq new value ((k, v) ∷ m) =
    at (key_cmp new k) refl (newer-insert key seq new value m)
  where
    at :
        (c : Ordering)
        → key_cmp new k ≡ c
        → newer key seq (insert new value m)
          ≡ (is_eq new.key key && is_lt seq new.seq_id || newer key seq m)
        → newer key seq (insert new value ((k, v) ∷ m))
          ≡ (is_eq new.key key && is_lt seq new.seq_id || newer key seq ((k, v) ∷ m))
    at lt e _ = rw (insert_lt new k value v m e) refl
    at eq e _ = rw (insert_eq new k value v m e, ← key_eq_of_cmp new k e) (ground arith)
    at gt e ih = rw (insert_gt new k value v m e, ih) (ground arith)

pub any_newer_of_writes :
    (key : Bytes) (seq : ℤ) (items : List KeyValue) (m : Versions)
    → writes key items ≡ true
    → newer key seq m ≡ true
    → any_newer items seq m ≡ true
any_newer_of_writes key seq [] m w n = ground arith
any_newer_of_writes key seq ((k, v) ∷ items) m w n = elim (Bool-cases (is_eq k key)) [
  | inl same ↦ let e : k ≡ key = bytes_eq_of_cmp k key (ground arith) in rw (e, n) refl
  | inr other ↦ ground (arith, any_newer_of_writes key seq items m)
]

module _ {sm : MemMap} {wal : Wal} where
  pub insert_items-newer :
      (varint : VarInt) (items : List KeyValue) (inner : TableInner sm wal) (buf : Bytes) (top : ℤ)
      (key : Bytes) (seq : ℤ)
      → newer key seq (sm.iter (insert_items varint inner buf items top).0.mem)
        ≡ (writes key items && is_lt seq top || newer key seq (sm.iter inner.mem))
  unfolding insert_items
  insert_items-newer varint [] inner buf top key seq = refl
  insert_items-newer varint ((k, v) ∷ items) inner buf top key seq =
      let new : InternalKey = record { key = k; seq_id = top } in
      insert_items-newer varint items _ _ top key seq
      ∙ ap (λ (b : Bool). writes key items && is_lt seq top || b)
          (ap (newer key seq) (sm.iter-insert new v inner.mem)
            ∙ newer-insert key seq new v (sm.iter inner.mem))
      ∙ ground arith

  -- A commit whose check finds a later version of one of its keys only gives up its count.
  pub commit-refused :
      (varint : VarInt) (closed : Bool) (s : Shared sm wal) (tx : Transaction)
      (items : List KeyValue)
      → tx.write_buf ≡ some items
      → any_newer items tx.seq_id (sm.iter s.inner.mem) ≡ true
      → commit varint closed s tx
        ≡ (record s { tx_count = sub_usize s.tx_count 1 }, err KernelError.repeated_write)
  unfolding commit drop
  commit-refused varint closed s tx items w found =
      rw (w, commit, commit_body, check_key_conflict-any_newer s.inner items tx.seq_id, found)

  pub commit_free :
      (varint : VarInt) (closed : Bool) (s : Shared sm wal) (tx : Transaction)
      (items : List KeyValue)
      → tx.write_buf ≡ some items
      → any_newer items tx.seq_id (sm.iter s.inner.mem) ≡ false
      → (commit varint closed s tx).0.inner ≡ (insert_batch_data varint s.inner items s.seq_count).0
  unfolding commit commit_body drop
  commit_free varint closed s tx items w free =
      rw (w, commit, commit_body, check_key_conflict-any_newer s.inner items tx.seq_id, free, drop)

  -- A commit that is not refused makes its writes visible together: a read at the number it takes
  -- or later finds the value of its last write to the key, or else what it found before, and an
  -- earlier read finds what it found before, if no version has a number above the counter.
  pub commit-atomic :
      (varint : VarInt) (closed : Bool) (s : Shared sm wal) (tx : Transaction)
      (items : List KeyValue) (key : Bytes) (seq : ℤ)
      → tx.write_buf ≡ some items
      → any_newer items tx.seq_id (sm.iter s.inner.mem) ≡ false
      → NotAbove s.seq_count s.inner
      → find_with_sequence_id (commit varint closed s tx).0.inner key seq ≡ (
          if is_le s.seq_count seq
          then elim (batch_value key items) [
            | some v ↦ some (key, v)
            | none ↦ find_with_sequence_id s.inner key seq
          ]
          else find_with_sequence_id s.inner key seq)
  commit-atomic varint closed s tx items key seq w free below =
      rw (commit_free varint closed s tx items w free)
        (insert_batch_data-atomic varint s.inner items s.seq_count key seq below)

  -- The first of two transactions that write the same key wins: if one commits without a conflict,
  -- the other, which began before, is refused when it commits next.
  pub commit-commit :
      (varint : VarInt) (closed closed' : Bool) (s : Shared sm wal) (first second : Transaction)
      (items items' : List KeyValue) (key : Bytes)
      → first.write_buf ≡ some items
      → second.write_buf ≡ some items'
      → any_newer items first.seq_id (sm.iter s.inner.mem) ≡ false
      → is_lt second.seq_id s.seq_count ≡ true
      → writes key items ≡ true
      → writes key items' ≡ true
      → (commit varint closed' (commit varint closed s first).0 second).1
        ≡ err KernelError.repeated_write
  commit-commit varint closed closed' s first second items items' key w w' free began k k' =
      let s' = (commit varint closed s first).0 in
      let found : newer key second.seq_id (sm.iter s'.inner.mem) ≡ true = rw (
        commit_free varint closed s first items w free,
        (batch_maps varint s.inner items s.seq_count).0,
        insert_items-newer varint items s.inner [] s.seq_count key second.seq_id,
        k,
        began,
      ) in
      ap (λ r. r.1)
        (commit-refused varint closed' s' second items' w'
          (any_newer_of_writes key second.seq_id items' (sm.iter s'.inner.mem) k' found))
