-- ===== src/Store/Transaction/Snapshot.antt =====
-- Snapshot isolation: what others do while a transaction runs leaves its reads as they are.
use kip_db.Base.{
  ℕ, zero, suc, ◌+◌, ◌^◌, ◌<◌, ◌≡◌, refl, ap, ◌∙◌, Bool, false, Option, List, [], ◌∷◌, arith,
  Bool-cases, Option-cases, inl, inr,
}
use kip_db.Base.Int.{ℤ, pos, negsuc, int_ord, i64_inc, int_cmp, int_cmp_flip}
use kip_db.Base.Lists.{length}
use kip_db.Base.Order.{Bytes, bytes_ord, is_le, lt}
use kip_db.Codec.{VarInt}
use kip_db.Data.{KeyValue}
use kip_db.Error.{split_result, is_ok, is_err, is_panic}
use kip_db.MemTable.{
  MemMap, TableInner, insert_data, insert_items, insert_batch_data, check_key_conflict,
  find_with_sequence_id, data_to_bytes,
}
use kip_db.MemTable.Insert.{same_reads, insert_data-hidden, batch_maps}
use kip_db.MemTable.LogIo.{Wal}
use kip_db.MemTable.Versions.{latest, sees, latest-insert_hidden}
use kip_db.Store
use kip_db.Store.Transaction.{
  Transaction, Shared, CheckType, DiskQuery, begin, get, commit, commit_body,
}
use kip_db.Store.Transaction.Isolation.{get_of_same}

-- What the store does next: a write of its own, the start of a transaction or a commit. The
-- Boolean tells whether the compactor's channel is closed.
pub data Event : Type 0 where
  append : Bool → KeyValue → Event
  start : CheckType → DiskQuery → Event
  finish : Bool → Transaction → Event

-- The counter can count `r` more numbers before it wraps.
abbrev pub HasRoom : ℕ → ℤ → Type 0
HasRoom r (pos n) = n + r < 2 ^ 63
HasRoom r (negsuc n) = r < 2 ^ 63

-- There is room, and the counter is above the number.
abbrev pub Ahead : ℕ → ℤ → ℤ → Type 0
Ahead r seq c = HasRoom r c × (int_cmp seq c ≡ lt)

room_inc : (seq c : ℤ) (r : ℕ) → HasRoom (suc r) c → int_cmp seq c ≡ lt → Ahead r seq (i64_inc c)
room_inc seq (pos n) r room h = (ground arith, ground arith)
room_inc seq (negsuc zero) r room h = (ground arith, ground arith)
room_inc seq (negsuc (suc n)) r room h = (ground arith, ground arith)

pub room_begin : (c : ℤ) (r : ℕ) → HasRoom (suc r) c → Ahead r c (i64_inc c)
room_begin (pos n) r room = (ground arith, ground arith)
room_begin (negsuc zero) r room = (ground arith, ground arith)
room_begin (negsuc (suc n)) r room = (ground arith, ground arith)

room_keep : (c : ℤ) (r : ℕ) → HasRoom (suc r) c → HasRoom r c
room_keep (pos n) r room = omega arith
room_keep (negsuc n) r room = omega arith

is_le_of_lt : (c seq : ℤ) → int_cmp seq c ≡ lt → is_le c seq ≡ false
is_le_of_lt c seq h = ground (arith, int_cmp_flip c seq)

not_seen :
    (k key : Bytes) (c seq : ℤ)
    → int_cmp seq c ≡ lt
    → sees key seq (record { key = k; seq_id = c }) ≡ false
not_seen k key c seq h = ground (arith, is_le_of_lt c seq h)

module _ {sm : MemMap} {wal : Wal} where
  unfoldable pub step : VarInt → Shared sm wal → Event → Shared sm wal
  unfolding begin commit Store.append_cmd_data
  step varint s (append closed kv) =
      let (inner, count, _) = Store.append_cmd_data varint s.inner s.seq_count closed kv in
      record s { inner = inner; seq_count = count }
  step varint s (start check_type disk) = (begin s check_type disk).0
  step varint s (finish closed tx) = (commit varint closed s tx).0

  unfoldable pub run : VarInt → Shared sm wal → List Event → Shared sm wal
  unfolding step
  run varint s [] = s
  run varint s (e ∷ es) = run varint (step varint s e) es

  insert_items-hidden :
      (varint : VarInt) (items : List KeyValue) (inner : TableInner sm wal) (buf : Bytes) (top : ℤ)
      (key : Bytes) (seq : ℤ)
      → is_le top seq ≡ false
      → latest key seq (sm.iter (insert_items varint inner buf items top).0.mem)
        ≡ latest key seq (sm.iter inner.mem)
  unfolding insert_items
  insert_items-hidden varint [] inner buf top key seq later = refl
  insert_items-hidden varint ((k, v) ∷ items) inner buf top key seq later =
      insert_items-hidden varint items _ _ top key seq later
      ∙ ap (latest key seq) (sm.iter-insert (record { key = k; seq_id = top }) v inner.mem)
      ∙ latest-insert_hidden key seq (record { key = k; seq_id = top }) v (sm.iter inner.mem)
          (ground arith)

  insert_batch_data-hidden :
      (varint : VarInt) (inner : TableInner sm wal) (items : List KeyValue) (top : ℤ) (key : Bytes)
      (seq : ℤ)
      → is_le top seq ≡ false
      → find_with_sequence_id (insert_batch_data varint inner items top).0 key seq
        ≡ find_with_sequence_id inner key seq
  insert_batch_data-hidden varint inner items top key seq later =
      let (mem_lem, immut_lem) = batch_maps varint inner items top in
      same_reads _ inner key seq
        (rw (mem_lem, immut_lem, insert_items-hidden varint items inner [] top key seq later))

  insert_data-count :
      (varint : VarInt) (inner : TableInner sm wal) (count : ℤ) (key : Bytes) (value : Option Bytes)
      (seq : ℤ) (r : ℕ)
      → HasRoom (suc r) count
      → int_cmp seq count ≡ lt
      → Ahead r seq (insert_data varint inner count (key, value)).1
  unfolding insert_data
  insert_data-count varint inner count key value seq r room before =
      elim (split_result (wal.add_record (data_to_bytes varint (key, value)) inner.log_writer).1) [
        | is_ok _ e ↦ rw (e, insert_data) (room_inc seq count r room before)
        | is_err _ e ↦ rw (e, insert_data) (room_keep count r room, before)
        | is_panic e ↦ rw (e, insert_data) (room_keep count r room, before)
      ]

  -- A step changes no read at an earlier number than the counter, and the counter stays later.
  pub step_hidden :
      (varint : VarInt) (s : Shared sm wal) (e : Event) (key : Bytes) (seq : ℤ) (r : ℕ)
      → HasRoom (suc r) s.seq_count
      → int_cmp seq s.seq_count ≡ lt
      → (find_with_sequence_id (step varint s e).inner key seq
          ≡ find_with_sequence_id s.inner key seq)
        × Ahead r seq (step varint s e).seq_count
  unfolding step commit commit_body
  step_hidden varint s (append closed (k, value)) key seq r room before = (
    insert_data-hidden varint s.inner s.seq_count k value key seq
        (not_seen k key s.seq_count seq before),
    insert_data-count varint s.inner s.seq_count k value seq r room before,
  )
  step_hidden varint s (start check_type disk) key seq r room before =
      (refl, room_inc seq s.seq_count r room before)
  step_hidden varint s (finish closed tx) key seq r room before = elim (Option-cases tx.write_buf) [
    | inl w ↦ rw (w, commit, commit_body) (refl, (room_keep s.seq_count r room, before))
    | inr (items, w) ↦ elim (Bool-cases (check_key_conflict s.inner items tx.seq_id)) [
      | inl c ↦ rw (w, c, commit, commit_body) (refl, (room_keep s.seq_count r room, before))
      | inr c ↦
          rw (w, c, commit, commit_body)
            (
              insert_batch_data-hidden varint s.inner items s.seq_count key seq
                  (is_le_of_lt s.seq_count seq before),
              room_inc seq s.seq_count r room before,
            )
    ]
  ]

  run_hidden :
      (varint : VarInt) (es : List Event) (s : Shared sm wal) (key : Bytes) (seq : ℤ)
      → HasRoom (length es) s.seq_count
      → int_cmp seq s.seq_count ≡ lt
      → find_with_sequence_id (run varint s es).inner key seq
        ≡ find_with_sequence_id s.inner key seq
  unfolding run
  run_hidden varint [] s key seq room before = refl
  run_hidden varint (e ∷ es) s key seq room before =
      let (same, ahead) = step_hidden varint s e key seq (length es) room before in
      run_hidden varint es (step varint s e) key seq ahead.0 ahead.1 ∙ same

  -- Snapshot isolation: a transaction reads a key as it would have when it began, whatever writes,
  -- starts of transactions and commits come in between, as long as the counter of sequence numbers
  -- does not wrap.
  pub begin-run :
      (varint : VarInt) (s : Shared sm wal) (check_type : CheckType) (disk : DiskQuery)
      (es : List Event) (key : Bytes)
      → HasRoom (suc (length es)) s.seq_count
      → let (s', tx) = begin s check_type disk in get (run varint s' es) tx key ≡ get s tx key
  unfolding begin
  begin-run varint s check_type disk es key room =
      let (s', tx) = begin s check_type disk in
      let (room', before) = room_begin s.seq_count (length es) room in
      get_of_same s (run varint s' es) tx key (run_hidden varint es s' key s.seq_count room' before)
