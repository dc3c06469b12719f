-- ===== src/Store/Transaction/Iter.antt =====
-- src/kernel/lsm/mvcc.rs: the iterator of a transaction, which merges its write buffer, a scan of
-- the memory table and the iterators over the tables. The latter are an interface. The loops run on
-- fuel: `fuel` for the merging iterator and `rounds` for the skipping of items below the minimum.
pub mod Limits
pub mod Steps
pub mod Skips
pub mod Sources
pub mod Reads
mod Tests
use kip_db.Base.{
  ℕ, zero, suc, ◌+◌, Bool, true, false, ◌&&◌, ◌||◌, not, Option, none, some, List, [], ◌∷◌, ◌++◌,
  map, ltb, if◌then◌else◌,
}
use kip_db.Base.Lists.{length}
use kip_db.Base.Order.{
  Bytes, bytes_ord, bytes_cmp, is_eq, is_lt, is_le, Bound, included, excluded, unbounded, over,
  under,
}
use kip_db.Base.Search.{get_elem?}
use kip_db.Base.SortedMap.{between}
use kip_db.Data.{KeyValue}
use kip_db.Error.{KernelResult, ok, err, panic}
use kip_db.MemTable.{MemMap}
use kip_db.MemTable.LogIo.{Wal}
use kip_db.MemTable.Range.{range_scan}
use kip_db.Merging.{SeekIter, Seek, MergingIter}
use kip_db.Merging
use kip_db.Store.Transaction.{Transaction, Shared}

pub record BufIter : Type 0 where
  pub inner : List KeyValue
  pub pos : ℕ

unfoldable pub buf_is_valid : BufIter → Bool
buf_is_valid b = ltb b.pos (length b.inner)

-- `BufIter::try_next`
unfoldable pub buf_next : BufIter → BufIter × KernelResult (Option KeyValue)
unfolding buf_is_valid
buf_next b =
    if buf_is_valid b
    then (elim (get_elem? b.inner b.pos) [
      | some item ↦ (record b { pos = suc b.pos }, ok (some item))
      | none ↦ (b, panic)
    ])
    else (b, ok none)

-- `InnerIter::try_next`, over what is left of the range of the write buffer.
unfoldable pub inner_next : List KeyValue → List KeyValue × KernelResult (Option KeyValue)
inner_next [] = ([], ok none)
inner_next (item ∷ items) = (items, ok (some item))

module _ (it : SeekIter) where
  -- The boxed iterators of `iter`.
  pub data BoxedIter : Type 0 where
    write_iter : List KeyValue → BoxedIter
    buf_iter : BufIter → BoxedIter
    table_iter : it.State → BoxedIter

module _ {it : SeekIter} where
  unfoldable pub boxed_next : BoxedIter it → BoxedIter it × KernelResult (Option KeyValue)
  unfolding inner_next buf_next
  boxed_next (write_iter items) = let (items', item) = inner_next items in (write_iter items', item)
  boxed_next (buf_iter b) = let (b', item) = buf_next b in (buf_iter b', item)
  boxed_next (table_iter s) = let (s', item) = it.try_next s in (table_iter s', item)

  unfoldable pub boxed_is_valid : BoxedIter it → Bool
  unfolding buf_is_valid
  boxed_is_valid (write_iter items) = true
  boxed_is_valid (buf_iter b) = buf_is_valid b
  boxed_is_valid (table_iter s) = it.is_valid s

-- The boxed iterators as one interface. A plain iterator has no `seek`, and nothing calls it.
abbrev pub boxed : SeekIter → SeekIter
boxed it = record {
  State = BoxedIter it;
  try_next = boxed_next;
  seek = λ seek s. (s, panic);
  is_valid = boxed_is_valid;
}

module _ (it : SeekIter) where
  pub record TransactionIter : Type 0 where
    pub inner : MergingIter (boxed it)
    pub min : Bound Bytes
    pub max : Bound Bytes
    pub is_overed : Bool
    pub is_inited : Bool

-- The conditions of `try_next` on the bounds.
unfoldable pub is_below : Bound Bytes → Option KeyValue → Bool
is_below min none = false
is_below (included key) (some kv) = is_lt kv.0 key
is_below (excluded key) (some kv) = is_le kv.0 key
is_below unbounded (some kv) = false

unfoldable pub cut : Bound Bytes → Option KeyValue → Option KeyValue
cut max none = none
cut (included key) (some kv) = if is_le kv.0 key then some kv else none
cut (excluded key) (some kv) = if is_lt kv.0 key then some kv else none
cut unbounded (some kv) = some kv

abbrev pub is_none : Option KeyValue → Bool
is_none none = true
is_none (some kv) = false

module _ {it : SeekIter} where
  -- The loop that skips items below the minimum.
  unfoldable pub skip_loop :
      ℕ
      → ℕ
      → Bound Bytes
      → Option KeyValue
      → MergingIter (boxed it)
      → Option (MergingIter (boxed it) × KernelResult (Option KeyValue))
  unfolding is_below
  skip_loop zero fuel min item m = none
  skip_loop (suc rounds) fuel min item m = elim (is_below min item) [
    | false ↦ some (m, ok item)
    | true ↦ elim (Merging.try_next fuel m) [
      | none ↦ none
      | some (m', ok item') ↦ skip_loop rounds fuel min item' m'
      | some (m', err e) ↦ some (m', err e)
      | some (m', panic) ↦ some (m', panic)
    ]
  ]

  -- The end of `try_next`.
  unfoldable pub finish :
      TransactionIter it → Option KeyValue → TransactionIter it × KernelResult (Option KeyValue)
  unfolding cut
  finish t item =
      let option = cut t.max item in (record t { is_overed = is_none option }, ok option)

  unfoldable pub try_next :
      ℕ → ℕ → TransactionIter it → Option (TransactionIter it × KernelResult (Option KeyValue))
  unfolding skip_loop finish
  try_next rounds fuel t = elim t.is_overed [
    | true ↦ some (t, ok none)
    | false ↦ elim (Merging.try_next fuel t.inner) [
      | none ↦ none
      | some (m, err e) ↦ some (record t { inner = m }, err e)
      | some (m, panic) ↦ some (record t { inner = m }, panic)
      | some (m, ok item) ↦ elim t.is_inited [
        | true ↦ some (finish (record t { inner = m }) item)
        | false ↦ elim (skip_loop rounds fuel t.min item m) [
          | none ↦ none
          | some (m', err e) ↦ some (record t { inner = m' }, err e)
          | some (m', panic) ↦ some (record t { inner = m' }, panic)
          | some (m', ok item') ↦ some (finish (record t { inner = m'; is_inited = true }) item')
        ]
      ]
    ]
  ]

  unfoldable pub is_valid : TransactionIter it → Bool
  is_valid t = Merging.is_valid t.inner

-- `BTreeMap::range` panics on a range whose start is after its end, and on one between two equal
-- excluded bounds.
abbrev pub is_empty_range : Bound Bytes → Bound Bytes → Bool
is_empty_range unbounded max = false
is_empty_range (included a) unbounded = false
is_empty_range (excluded a) unbounded = false
is_empty_range (included a) (included b) = is_lt b a
is_empty_range (included a) (excluded b) = is_lt b a
is_empty_range (excluded a) (included b) = is_lt b a
is_empty_range (excluded a) (excluded b) = is_le b a

module _ {it : SeekIter} where
  -- The iterator over the write buffer, if there is one.
  unfoldable pub write_iters :
      Bound Bytes → Bound Bytes → Option (List KeyValue) → KernelResult (List (BoxedIter it))
  write_iters min max none = ok []
  write_iters min max (some write_buf) =
      if is_empty_range min max then panic else ok (write_iter (between min max write_buf) ∷ [])

  -- The iterators over the tables, each moved to the minimum; without one they are dropped.
  unfoldable pub seek_each : Bytes → List it.State → KernelResult (List (BoxedIter it))
  seek_each key [] = ok []
  seek_each key (s ∷ iters) =
      let (s', sought) = it.seek (Seek.backward key) s in
      elim sought [
        | err e ↦ err e
        | panic ↦ panic
        | ok _ ↦ elim (seek_each key iters) [
          | err e ↦ err e
          | panic ↦ panic
          | ok rest ↦ ok (table_iter s' ∷ rest)
        ]
      ]

  unfoldable pub table_iters : Bound Bytes → List it.State → KernelResult (List (BoxedIter it))
  unfolding seek_each
  table_iters (included key) iters = seek_each key iters
  table_iters (excluded key) iters = seek_each key iters
  table_iters unbounded iters = ok []

  -- The merging iterator over all of them.
  unfoldable pub start :
      Bound Bytes → Bound Bytes → List (BoxedIter it) → KernelResult (TransactionIter it)
  start min max vec_iter =
      let (m, created) = Merging.create {it = boxed it} vec_iter in
      elim created [
        | ok _ ↦
            ok (record { inner = m; min = min; max = max; is_overed = false; is_inited = false })
        | err e ↦ err e
        | panic ↦ panic
      ]

  -- `iter`; `vec_seek_iter` is what `VersionIter::merging_with_version` collects. `none` if the scan
  -- has not ended.
  unfoldable pub iter :
      {sm : MemMap} {wal : Wal}
      → (List KeyValue → Bool)
      → Shared sm wal
      → Transaction
      → KernelResult (List it.State)
      → Bound Bytes
      → Bound Bytes
      → Option (KernelResult (TransactionIter it))
  unfolding write_iters table_iters start
  iter all_unique s tx vec_seek_iter min max = elim (write_iters min max tx.write_buf) [
    | err e ↦ some (err e)
    | panic ↦ some panic
    | ok written ↦ elim (range_scan all_unique s.inner min max (some tx.seq_id)) [
      | none ↦ none
      | some (err e) ↦ some (err e)
      | some panic ↦ some panic
      | some (ok mem_buf) ↦ elim vec_seek_iter [
        | err e ↦ some (err e)
        | panic ↦ some panic
        | ok iters ↦ elim (table_iters min iters) [
          | err e ↦ some (err e)
          | panic ↦ some panic
          | ok tables ↦
              some
                (start min max (written ++ buf_iter (record { inner = mem_buf; pos = 0 }) ∷ tables))
        ]
      ]
    ]
  ]
