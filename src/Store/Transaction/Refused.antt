-- ===== src/Store/Transaction/Refused.antt =====
-- A transaction is refused once another has written one of its keys, whatever else goes on.
use kip_db.Base.{
  suc, ◌≡◌, refl, Bool-cases, Option-cases, inl, inr, Bool, true, false, Option, some, List, [],
  ◌∷◌, arith,
}
use kip_db.Base.Int.{ℤ, int_ord, int_cmp}
use kip_db.Base.Lists.{length}
use kip_db.Base.Order.{Bytes, bytes_ord, is_lt, lt}
use kip_db.Codec.{VarInt}
use kip_db.Data.{KeyValue, sub_usize}
use kip_db.Error.{KernelError, err, split_result, is_ok, is_err, is_panic}
use kip_db.MemTable.{MemMap, TableInner, insert_data, data_to_bytes, check_key_conflict}
use kip_db.MemTable.Conflict.{newer, any_newer}
use kip_db.MemTable.Insert.{batch_maps}
use kip_db.MemTable.Key.{InternalKey}
use kip_db.MemTable.LogIo.{Wal}
use kip_db.Store.Transaction.{Transaction, Shared, CheckType, DiskQuery, begin, commit, commit_body}
use kip_db.Store.Transaction.Commit.{
  writes, any_newer_of_writes, insert_items-newer, newer-insert, commit-refused, commit_free,
}
use kip_db.Store.Transaction.Snapshot.{
  Event, append, start, finish, HasRoom, step, run, step_hidden, room_begin,
}

less : (a b : ℤ) → int_cmp a b ≡ lt → is_lt a b ≡ true
less a b h = ground arith

module _ {sm : MemMap} {wal : Wal} (varint : VarInt) where
  insert_data-newer :
      (inner : TableInner sm wal) (count : ℤ) (k : Bytes) (value : Option Bytes) (key : Bytes)
      (seq : ℤ)
      → newer key seq (sm.iter inner.mem) ≡ true
      → newer key seq (sm.iter (insert_data varint inner count (k, value)).0.mem) ≡ true
  unfolding insert_data
  insert_data-newer inner count k value key seq n =
      elim (split_result (wal.add_record (data_to_bytes varint (k, value)) inner.log_writer).1) [
        | is_ok _ e ↦
            let new : InternalKey = record { key = k; seq_id = count } in
            rw
              (
                e,
                insert_data,
                sm.iter-insert new value inner.mem,
                newer-insert key seq new value (sm.iter inner.mem),
                n,
              )
              (ground arith)
        | is_err _ e ↦ rw (e, insert_data) n
        | is_panic e ↦ rw (e, insert_data) n
      ]

  -- A later version of a key stays in the active map.
  step-newer :
      (s : Shared sm wal) (e : Event) (key : Bytes) (seq : ℤ)
      → newer key seq (sm.iter s.inner.mem) ≡ true
      → newer key seq (sm.iter (step varint s e).inner.mem) ≡ true
  unfolding step commit commit_body
  step-newer s (append closed (k, value)) key seq n =
      insert_data-newer s.inner s.seq_count k value key seq n
  step-newer s (start check_type disk) key seq n = n
  step-newer s (finish closed tx) key seq n = elim (Option-cases tx.write_buf) [
    | inl w ↦ rw (w, commit, commit_body) n
    | inr (items, w) ↦ elim (Bool-cases (check_key_conflict s.inner items tx.seq_id)) [
      | inl c ↦ rw (w, c, commit, commit_body) n
      | inr c ↦
          rw
            (
              w,
              c,
              commit,
              commit_body,
              (batch_maps varint s.inner items s.seq_count).0,
              insert_items-newer varint items s.inner [] s.seq_count key seq,
              n,
            )
            (ground arith)
    ]
  ]

  run-newer :
      (es : List Event) (s : Shared sm wal) (key : Bytes) (seq : ℤ)
      → newer key seq (sm.iter s.inner.mem) ≡ true
      → newer key seq (sm.iter (run varint s es).inner.mem) ≡ true
  unfolding run
  run-newer [] s key seq n = n
  run-newer (e ∷ es) s key seq n = run-newer es (step varint s e) key seq (step-newer s e key seq n)

  run-later :
      (es : List Event) (s : Shared sm wal) (seq : ℤ)
      → HasRoom (length es) s.seq_count
      → int_cmp seq s.seq_count ≡ lt
      → int_cmp seq (run varint s es).seq_count ≡ lt
  unfolding run
  run-later [] s seq room before = before
  run-later (e ∷ es) s seq room before =
      let (_, ahead) = step_hidden varint s e [] seq (length es) room before in
      run-later es (step varint s e) seq ahead.0 ahead.1

  -- After a transaction has begun and some events; and after another has committed and some more.
  abbrev pub begun : Shared sm wal → CheckType → DiskQuery → List Event → Shared sm wal
  begun s check_type disk es = run varint (begin s check_type disk).0 es

  abbrev pub overtaken : Shared sm wal → Bool → Transaction → List Event → Shared sm wal
  overtaken s1 closed other es' = run varint (step varint s1 (finish closed other)) es'

  -- The first to commit wins, whatever goes on: a transaction begins, and after any events another
  -- one that writes `key` commits without a conflict. After any further events the commit of the
  -- first, if it writes `key` as well, is refused: it writes nothing and takes no number, and the
  -- transaction is counted no longer. The counter of sequence numbers is assumed not to wrap between
  -- the beginning and the other's commit.
  pub commit-refused_later :
      (s : Shared sm wal) (check_type : CheckType) (disk : DiskQuery) (es es' : List Event)
      (closed closed' : Bool) (other tx : Transaction) (items items' : List KeyValue) (key : Bytes)
      → HasRoom (suc (length es)) s.seq_count
      → other.write_buf ≡ some items
      → any_newer items other.seq_id (sm.iter (begun s check_type disk es).inner.mem) ≡ false
      → writes key items ≡ true
      → tx.seq_id ≡ (begin s check_type disk).1.seq_id
      → tx.write_buf ≡ some items'
      → writes key items' ≡ true
      → commit varint closed' (overtaken (begun s check_type disk es) closed other es') tx ≡ (
        record (overtaken (begun s check_type disk es) closed other es') {
          tx_count = sub_usize (overtaken (begun s check_type disk es) closed other es').tx_count 1;
        },
        err KernelError.repeated_write,
      )
  unfolding begin step
  commit-refused_later s check_type disk es es' closed closed' other tx items items' key room w free
        k number w' k' =
      let s0 = (begin s check_type disk).0 in
      let s1 = run varint s0 es in
      let s2 = run varint (step varint s1 (finish closed other)) es' in
      let (room', before) = room_begin s.seq_count (length es) room in
      let later = run-later es s0 s.seq_count room' before in
      let began : is_lt s.seq_count s1.seq_count ≡ true = less s.seq_count s1.seq_count later in
      let committed : newer key s.seq_count
            (sm.iter (step varint s1 (finish closed other)).inner.mem)
          ≡ true =
        rw
          (
            commit_free varint closed s1 other items w free,
            (batch_maps varint s1.inner items s1.seq_count).0,
            insert_items-newer varint items s1.inner [] s1.seq_count key s.seq_count,
            k,
            began,
          )
          refl in
      let found = run-newer es' (step varint s1 (finish closed other)) key s.seq_count committed in
      let conflict : any_newer items' tx.seq_id (sm.iter s2.inner.mem) ≡ true =
        rw number (any_newer_of_writes key s.seq_count items' (sm.iter s2.inner.mem) k' found) in
      commit-refused varint closed' s2 tx items' w' conflict
