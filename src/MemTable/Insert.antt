-- ===== src/MemTable/Insert.antt =====
-- What reads find after a single write and after the writes of a transaction.
use kip_db.Base.{
  ◌≡◌, ap, sym, ◌∙◌, refl, Bool-cases, inl, inr, Bool, true, false, ◌&&◌, Option, none, some, List,
  [], ◌∷◌, ◌++◌, if◌then◌else◌,
}
use kip_db.Base.Int.{ℤ, i64_max, int_ord}
use kip_db.Base.Order.{Bytes, bytes_ord, is_eq, is_le, le_refl}
use kip_db.Codec.{VarInt}
use kip_db.Data.{KeyValue}
use kip_db.Error.{split_result, is_ok, is_err, is_panic, ok}
use kip_db.MemTable.{
  MemMap, TableInner, find, find_with_sequence_id, insert_data, insert_items, insert_batch_data,
  data_to_bytes,
}
use kip_db.Trigger.{item_process}
use kip_db.MemTable.Find.{
  entry, first_some, seen_at, find_with_sequence_id-seen_at, find-find_with_sequence_id,
}
use kip_db.MemTable.Key.{InternalKey, key_ord}
use kip_db.MemTable.LogIo.{Wal}
use kip_db.MemTable.Versions.{
  latest, sees, UpTo, latest-insert, latest-insert_self, latest-insert_hidden, UpTo-insert,
}

-- The value that the last item of a batch has for a key.
abbrev pub batch_value : Bytes → List KeyValue → Option (Option Bytes)
batch_value key [] = none
batch_value key ((k, v) ∷ items) = elim (batch_value key items) [
  | some w ↦ some w
  | none ↦ if is_eq k key then some v else none
]

combine :
    (b : Option (Option Bytes)) (is_key seen : Bool) (v : Option Bytes)
    (old : Option (Option Bytes))
    → (if seen
        then first_some b (if is_key && seen then some v else old)
        else (if is_key && seen then some v else old))
      ≡ (if seen
          then first_some (elim b [ some w ↦ some w | none ↦ if is_key then some v else none ]) old
          else old)
combine none true true v old = refl
combine none true false v old = refl
combine none false true v old = refl
combine none false false v old = refl
combine (some w) is_key true v old = refl
combine (some w) true false v old = refl
combine (some w) false false v old = refl

shown :
    (key : Bytes) (at : Bool) (b mem immut : Option (Option Bytes)) {found : Option KeyValue}
    → found ≡ entry key (first_some mem immut)
    → entry key (first_some (if at then first_some b mem else mem) immut)
      ≡ (if at then elim b [ some v ↦ some (key, v) | none ↦ found ] else found)
shown key true none mem immut e = sym e
shown key true (some v) mem immut e = refl
shown key false b mem immut e = sym e

module _ {sm : MemMap} {wal : Wal} where
  -- No version in the active map has a sequence number above `top`.
  abbrev pub NotAbove : ℤ → TableInner sm wal → Type 0
  NotAbove top inner = UpTo top (sm.iter inner.mem)

  pub same_reads :
      (a b : TableInner sm wal) (key : Bytes) (seq : ℤ)
      → seen_at a key seq ≡ seen_at b key seq
      → find_with_sequence_id a key seq ≡ find_with_sequence_id b key seq
  same_reads a b key seq e =
      find_with_sequence_id-seen_at a key seq
      ∙ ap (entry key) e
      ∙ sym (find_with_sequence_id-seen_at b key seq)

  module _ (varint : VarInt) (inner : TableInner sm wal) (count : ℤ) (key : Bytes)
      (value : Option Bytes) where
    -- A write that succeeds is what every read of its key finds from its number on, and so `find`,
    -- if no version in the table has a number above the counter.
    pub insert_data-find :
        {b : Bool}
        → NotAbove count inner
        → is_le count i64_max ≡ true
        → (insert_data varint inner count (key, value)).2 ≡ ok b
        → find (insert_data varint inner count (key, value)).0 key ≡ some (key, value)
    unfolding insert_data
    insert_data-find below fits done =
        let new : InternalKey = record { key = key; seq_id = count } in
        elim (split_result
          (wal.add_record (data_to_bytes varint (key, value)) inner.log_writer).1) [
            | is_ok _ e ↦ rw (
              e,
              insert_data,
              find-find_with_sequence_id,
              find_with_sequence_id-seen_at,
              sm.iter-insert new value inner.mem,
              latest-insert_self key i64_max count value (sm.iter inner.mem)
                  (sm.iter-IsSorted inner.mem) below fits,
            )
            | is_err _ e ↦ let bad = rw (e, insert_data) at done in cc
            | is_panic e ↦ let bad = rw (e, insert_data) at done in cc
          ]

    -- A write, successful or not, is hidden from reads of other keys and from those at an earlier
    -- number: they find what they found before.
    pub insert_data-hidden :
        (k : Bytes) (seq : ℤ)
        → sees k seq (record { key = key; seq_id = count }) ≡ false
        → find_with_sequence_id (insert_data varint inner count (key, value)).0 k seq
          ≡ find_with_sequence_id inner k seq
    unfolding insert_data
    insert_data-hidden k seq hidden =
        let new : InternalKey = record { key = key; seq_id = count } in
        elim (split_result
          (wal.add_record (data_to_bytes varint (key, value)) inner.log_writer).1) [
            | is_ok _ e ↦
                rw (e, insert_data)
                  (same_reads _ inner k seq (
                    rw (
                      sm.iter-insert new value inner.mem,
                      latest-insert_hidden k seq new value (sm.iter inner.mem) hidden,
                    )))
            | is_err _ e ↦ rw (e, insert_data) (same_reads _ inner k seq refl)
            | is_panic e ↦ rw (e, insert_data) (same_reads _ inner k seq refl)
          ]

  -- The reads of a table after the items of a batch went in under one number.
  insert_items-latest :
      (varint : VarInt) (items : List KeyValue) (inner : TableInner sm wal) (buf : Bytes) (top : ℤ)
      (key : Bytes) (seq : ℤ)
      → NotAbove top inner
      → latest key seq (sm.iter (insert_items varint inner buf items top).0.mem) ≡ (
          if is_le top seq
          then first_some (batch_value key items) (latest key seq (sm.iter inner.mem))
          else latest key seq (sm.iter inner.mem))
  unfolding insert_items
  insert_items-latest varint [] inner buf top key seq below = elim (Bool-cases (is_le top seq)) [
    | inl e ↦ rw e
    | inr e ↦ rw e
  ]
  insert_items-latest varint ((k, v) ∷ items) inner buf top key seq below =
      let new : InternalKey = record { key = k; seq_id = top } in
      let next : TableInner sm wal = record inner {
        mem = sm.insert new v inner.mem;
        trigger = item_process inner.trigger (k, v);
      } in
      let below' : NotAbove top next =
        rw (sm.iter-insert new v inner.mem)
          (UpTo-insert new top v (sm.iter inner.mem) (le_refl top) below) in
      let ih =
        insert_items-latest varint items next (buf ++ data_to_bytes varint (k, v)) top key seq
          below' in
      ih
      ∙ ap
          (λ (o : Option (Option Bytes)).
            if is_le top seq then first_some (batch_value key items) o else o)
          (ap (latest key seq) (sm.iter-insert new v inner.mem)
            ∙ latest-insert key seq top k v (sm.iter inner.mem) (sm.iter-IsSorted inner.mem) below)
      ∙ combine (batch_value key items) (is_eq k key) (is_le top seq) v
          (latest key seq (sm.iter inner.mem))

  insert_items-immut :
      (varint : VarInt) (items : List KeyValue) (inner : TableInner sm wal) (buf : Bytes) (top : ℤ)
      → (insert_items varint inner buf items top).0.immut ≡ inner.immut
  unfolding insert_items
  insert_items-immut varint [] inner buf top = refl
  insert_items-immut varint ((k, v) ∷ items) inner buf top = insert_items-immut varint items _ _ top

  -- Whatever the log answers, the maps after a batch are those with its items.
  pub batch_maps :
      (varint : VarInt) (inner : TableInner sm wal) (items : List KeyValue) (top : ℤ)
      → ((insert_batch_data varint inner items top).0.mem
          ≡ (insert_items varint inner [] items top).0.mem)
        × ((insert_batch_data varint inner items top).0.immut ≡ inner.immut)
  unfolding insert_batch_data
  batch_maps varint inner items top =
      let (inner', buf) = insert_items varint inner [] items top in
      elim (split_result
        (wal.add_record (insert_items varint inner [] items top).1
          (insert_items varint inner [] items top).0.log_writer).1) [
            | is_ok _ e ↦ (
              rw (e, insert_batch_data),
              rw (e, insert_batch_data) (insert_items-immut varint items inner [] top),
            )
            | is_err _ e ↦ (
              rw (e, insert_batch_data),
              rw (e, insert_batch_data) (insert_items-immut varint items inner [] top),
            )
            | is_panic e ↦ (
              rw (e, insert_batch_data),
              rw (e, insert_batch_data) (insert_items-immut varint items inner [] top),
            )
          ]

  -- A transaction's writes become visible together: a read at its number or later finds the value
  -- of the last write to the key, and what it found before where the transaction wrote no such key;
  -- an earlier read finds what it found before. The number is assumed to be the highest. This holds
  -- whether or not the log took the batch.
  pub insert_batch_data-atomic :
      (varint : VarInt) (inner : TableInner sm wal) (items : List KeyValue) (top : ℤ) (key : Bytes)
      (seq : ℤ)
      → NotAbove top inner
      → find_with_sequence_id (insert_batch_data varint inner items top).0 key seq ≡ (
          if is_le top seq
          then elim (batch_value key items) [
            | some v ↦ some (key, v)
            | none ↦ find_with_sequence_id inner key seq
          ]
          else find_with_sequence_id inner key seq)
  unfolding insert_batch_data
  insert_batch_data-atomic varint inner items top key seq below =
      let (mem_lem, immut_lem) = batch_maps varint inner items top in
      find_with_sequence_id-seen_at (insert_batch_data varint inner items top).0 key seq
      ∙ rw (mem_lem, immut_lem, insert_items-latest varint items inner [] top key seq below)
          (shown key (is_le top seq) (batch_value key items) (latest key seq (sm.iter inner.mem))
            (elim inner.immut [ none ↦ none | some m ↦ latest key seq (sm.iter m) ])
            (find_with_sequence_id-seen_at inner key seq))
