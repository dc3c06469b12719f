-- ===== src/MemTable.antt =====
-- src/kernel/lsm/mem_table.rs: the memory table over its write-ahead log. The ordered map and the
-- log writer are parameters. A method takes the state that the mutex guards and returns the new
-- one; `Seqs` carries the two global counters.
pub mod Key
pub mod LogIo
pub mod Tests
pub mod Swap
pub mod Conflict
pub mod Insert
pub mod Find
pub mod Versions
pub mod Range
pub mod MapIter
use mathlib.Core.List as L
use kip_db.Base.{
  ◌≡◌, ℕ, suc, Bool, true, false, ◌||◌, not, Option, none, some, List, [], ◌∷◌, ◌++◌, map, ◌==◌,
  if◌then◌else◌,
}
use kip_db.Base.Int.{ℤ, pos, i64_max, int_ord}
use kip_db.Base.Lists.{length}
use kip_db.Base.Order.{Bytes, bytes_ord, is_eq, is_le, included, excluded, unbounded}
use kip_db.Block.Entry.{Entry, Value, value_from, encode, value_item}
use kip_db.Codec.{VarInt}
use kip_db.Data.{KeyValue}
use kip_db.Error.{KernelResult, ok, err, panic, ◌>>=◌}
use kip_db.Sequence.{sequence_create, gen_create}
use kip_db.SkipMap.{SkipMap}
use kip_db.Trigger.{Trigger, item_process, is_exceeded, reset}
use Key.{InternalKey, key_ord}
use LogIo.{Wal}

abbrev pub MemMap : Type 1
MemMap = SkipMap InternalKey (Option Bytes)

-- `data_to_bytes`
unfoldable pub data_to_bytes : VarInt → KeyValue → Bytes
data_to_bytes varint (key, value) =
    encode varint (value_item varint)
      (record { unshared_len = length key; shared_len = 0; key = key; item = value_from value })

-- `unique_by(|(k, _)| k)` of itertools is a parameter of `swap`; this is what it is documented to
-- do: of the items with one key only the first is kept.
abbrev pub seen : Bytes → List Bytes → Bool
seen key [] = false
seen key (k ∷ ks) = is_eq key k || seen key ks

abbrev pub first_of_each : List Bytes → List KeyValue → List KeyValue
first_of_each ks [] = []
first_of_each ks ((key, v) ∷ es) =
    if seen key ks then first_of_each ks es else (key, v) ∷ first_of_each (key ∷ ks) es

abbrev pub IsUniqueBy : (List KeyValue → List KeyValue) → Type 0
IsUniqueBy unique_by = (es : List KeyValue) → unique_by es ≡ first_of_each [] es

module _ (sm : MemMap) (wal : Wal) where
  pub record TableInner : Type 0 where
    pub mem : sm.Map
    pub immut : Option sm.Map
    pub log_writer : wal.Writer
    pub log_gen : ℤ
    pub trigger : Trigger

  -- What one round of the loop of `swap` meets: the two values of `tx_count` that it reads, and the
  -- table and the counter of generations once it has the lock, which others may have changed since
  -- the round before.
  pub record Round : Type 0 where
    pub before : ℕ
    pub locked : ℕ
    pub inner : TableInner
    pub gen_buf : ℤ

module _ (sm : MemMap) where
  unfoldable pub find_ : InternalKey → sm.Map → Option KeyValue
  find_ internal_key mem_map = elim (sm.upper_bound (included internal_key) mem_map) [
    | none ↦ none
    | some (upper_key, value) ↦
        if is_eq internal_key.key upper_key.key then some (internal_key.key, value) else none
  ]

  -- The data that `swap` hands to the compactor: the last version of every key, in order.
  unfoldable pub swap_data : (List KeyValue → List KeyValue) → sm.Map → List KeyValue
  swap_data unique_by m =
      L.reverse (
        unique_by
          (L.reverse (map (λ (e : InternalKey × Option Bytes). (e.0.key, e.1)) (sm.iter m))))

module _ {sm : MemMap} {wal : Wal} where
  -- The loop of `check_key_conflict`.
  unfoldable pub check_key_conflict : TableInner sm wal → List KeyValue → ℤ → Bool
  check_key_conflict inner [] seq_id = false
  check_key_conflict inner ((key, _) ∷ kvs) seq_id =
      let rest = check_key_conflict inner kvs seq_id in
      elim (sm.lower_bound (excluded (record { key = key; seq_id = seq_id })) inner.mem) [
        | none ↦ rest
        | some (lower_key, _) ↦ if is_eq lower_key.key key then true else rest
      ]

  -- An error of the log leaves the table and its trigger as they were.
  unfoldable pub insert_data :
      VarInt → TableInner sm wal → ℤ → KeyValue → TableInner sm wal × ℤ × KernelResult Bool
  unfolding sequence_create
  insert_data varint inner count (key, value) =
      let (writer, logged) = wal.add_record (data_to_bytes varint (key, value)) inner.log_writer in
      elim logged [
        | ok _ ↦
            let trigger = item_process inner.trigger (key, value) in
            let (seq_id, count') = sequence_create count in
            (
              record inner {
                mem = sm.insert (record { key = key; seq_id = seq_id }) value inner.mem;
                log_writer = writer;
                trigger = trigger;
              },
              count',
              ok (is_exceeded trigger),
            )
        | err e ↦ (record inner { log_writer = writer }, count, err e)
        | panic ↦ (record inner { log_writer = writer }, count, panic)
      ]

  -- The loop of `insert_batch_data`: the table with the items, and the bytes for the log.
  unfoldable pub insert_items :
      VarInt → TableInner sm wal → Bytes → List KeyValue → ℤ → TableInner sm wal × Bytes
  insert_items varint inner buf [] seq_id = (inner, buf)
  insert_items varint inner buf ((key, value) ∷ items) seq_id =
      insert_items varint
        (record inner {
          mem = sm.insert (record { key = key; seq_id = seq_id }) value inner.mem;
          trigger = item_process inner.trigger (key, value);
        })
        (buf ++ data_to_bytes varint (key, value)) items seq_id

  -- The log is written after the table: an error of the log leaves the items in the table.
  unfoldable pub insert_batch_data :
      VarInt → TableInner sm wal → List KeyValue → ℤ → TableInner sm wal × KernelResult Bool
  unfolding insert_items
  insert_batch_data varint inner vec_data seq_id =
      let (inner', buf) = insert_items varint inner [] vec_data seq_id in
      let (writer, logged) = wal.add_record buf inner'.log_writer in
      let inner'' : TableInner sm wal = record inner' { log_writer = writer } in
      elim logged [
        | ok _ ↦ (inner'', ok (is_exceeded inner''.trigger))
        | err e ↦ (inner'', err e)
        | panic ↦ (inner'', panic)
      ]

  unfoldable pub is_empty : TableInner sm wal → Bool
  is_empty inner = sm.is_empty inner.mem

  unfoldable pub len : TableInner sm wal → ℕ
  len inner = sm.len inner.mem

  unfoldable pub find_with_sequence_id : TableInner sm wal → Bytes → ℤ → Option KeyValue
  find_with_sequence_id inner key seq_id =
      let internal_key : InternalKey = record { key = key; seq_id = seq_id } in
      elim (find_ sm internal_key inner.mem) [
        | some key_value ↦ some key_value
        | none ↦ elim inner.immut [ some mem_map ↦ find_ sm internal_key mem_map | none ↦ none ]
      ]

  -- `find` looks the key up at `SEQ_MAX`.
  unfoldable pub find : TableInner sm wal → Bytes → Option KeyValue
  find inner key =
      let internal_key : InternalKey = record { key = key; seq_id = i64_max } in
      elim (find_ sm internal_key inner.mem) [
        | some key_value ↦ some key_value
        | none ↦ elim inner.immut [ none ↦ none | some mem_map ↦ find_ sm internal_key mem_map ]
      ]

  -- One round of the loop of `swap`, once both checks have found no transaction.
  unfoldable pub swap_locked :
      (List KeyValue → List KeyValue)
      → TableInner sm wal
      → ℤ
      → TableInner sm wal × ℤ × KernelResult (Option (ℤ × List KeyValue))
  unfolding swap_data gen_create
  swap_locked unique_by inner gen_buf =
      if not (sm.is_empty inner.mem)
      then (let vec_data = swap_data sm unique_by inner.mem in
          let moved : TableInner sm wal = record inner {
            mem = sm.new;
            immut = some inner.mem;
            trigger = reset inner.trigger;
          } in
          let (new_gen, gen_buf') = gen_create gen_buf in
          elim (wal.writer new_gen) [
            | err e ↦ (moved, gen_buf', err e)
            | panic ↦ (moved, gen_buf', panic)
            | ok new_writer ↦
                let (_, flushed) = wal.flush moved.log_writer in
                let swapped : TableInner sm wal = record moved {
                  log_writer = new_writer;
                  log_gen = new_gen;
                } in
                elim flushed [
                  | err e ↦ (swapped, gen_buf', err e)
                  | panic ↦ (swapped, gen_buf', panic)
                  | ok _ ↦ (swapped, gen_buf', ok (some (moved.log_gen, vec_data)))
                ]
          ])
      else (inner, gen_buf, ok none)

  -- `swap` waits while there are transactions; `none` if the rounds end before it has passed both
  -- checks.
  unfoldable pub swap :
      (List KeyValue → List KeyValue)
      → List (Round sm wal)
      → Option (TableInner sm wal × ℤ × KernelResult (Option (ℤ × List KeyValue)))
  unfolding swap_locked
  swap unique_by [] = none
  swap unique_by (r ∷ rounds) =
      let later = swap unique_by rounds in
      if r.before == 0
      then (if r.locked == 0 then some (swap_locked unique_by r.inner r.gen_buf) else later)
      else later
