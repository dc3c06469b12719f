-- ===== src/Store/Transaction/Iter/Reads.antt =====
-- The iterator of a transaction yields what its reads find.
use mathlib.Core.Path.{subst}
use kip_db.Base.{
  ℕ, suc, ◌<◌, ◌≡◌, refl, sym, ◌∙◌, ap, Bool, true, false, Bool-cases, inl, inr, Option, none, some,
  List, [], ◌∷◌, ◌++◌, map, if◌then◌else◌, arith,
}
use kip_db.Base.Order.{Bytes, bytes_ord, Bound}
use kip_db.Base.SortedMap.{IsSorted, get, between}
use kip_db.Data.{KeyValue}
use kip_db.Error.{ok}
use kip_db.MemTable.{MemMap}
use kip_db.MemTable.Find.{first_some, seen_at}
use kip_db.MemTable.LogIo.{Wal}
use kip_db.MemTable.Range.{IsAllUnique}
use kip_db.MemTable.Range.Scan.{InRange, range_scan-seen_at}
use kip_db.MemTable.Range.Visible.{in_bounds}
use kip_db.Merging
use kip_db.Merging.{SeekIter, MergingIter}
use kip_db.Merging.Drain.{merged}
use kip_db.Merging.Lookup.{first_of, merged-first_of, length-merged}
use kip_db.Merging.Merged.{total, drain-merged}
use kip_db.Merging.Pull.{Yields, AllSorted}
use kip_db.Store.Transaction.{Transaction, Shared, written}
use kip_db.Store.Transaction.Iter.{
  BoxedIter, write_iter, buf_iter, boxed, TransactionIter, is_empty_range, write_iters, start, iter,
}
use kip_db.Store.Transaction.Iter.Sources.{
  boxed_items, boxed_yields, between-IsSorted, get-between, AllSeekBack, table_iters-ok, in_tables,
}
use kip_db.Store.Transaction.Iter.Skips.{drain_tx-between}
use kip_db.Store.Transaction.Iter.Steps.{drain_tx, running, drain-Steps}

-- The write buffer, where there is one, is sorted.
abbrev pub SortedBuffer : Option (List KeyValue) → Type 0
SortedBuffer none = Unit
SortedBuffer (some buf) = IsSorted buf

module _ {it : SeekIter} (y : Yields it) where
  abbrev write_lists : Bound Bytes → Bound Bytes → Option (List KeyValue) → List (List KeyValue)
  write_lists min max none = []
  write_lists min max (some buf) = between min max buf ∷ []

  write_iters-ok :
      (min max : Bound Bytes) (write_buf : Option (List KeyValue))
      → is_empty_range min max ≡ false
      → SortedBuffer write_buf
      → (boxes : List (BoxedIter it)) × (write_iters min max write_buf ≡ ok boxes)
        × ((rest : List (BoxedIter it))
            → map (boxed_items y) (boxes ++ rest)
              ≡ write_lists min max write_buf ++ map (boxed_items y) rest)
        × ((lists : List (List KeyValue))
            → AllSorted lists
            → AllSorted (write_lists min max write_buf ++ lists))
        × ((key : Bytes) (lists : List (List KeyValue))
            → in_bounds min max key ≡ true
            → first_of key (write_lists min max write_buf ++ lists)
              ≡ first_some
                  (elim write_buf [ none ↦ none | some buf ↦ get key buf ])
                  (first_of key lists))
  unfolding write_iters
  write_iters-ok min max none range s = ([], refl, λ rest. refl, λ lists a. a, λ key lists h. refl)
  write_iters-ok min max (some buf) range s = (
    write_iter (between min max buf) ∷ [],
    rw (write_iters, range) refl,
    λ rest. refl,
    λ lists a. (between-IsSorted min max buf s, a),
    λ key lists h.
        ap (λ f. first_some f (first_of key lists)) (get-between min max key buf ∙ rw h refl),
  )

  -- A new iterator over sorted sources yields what they hold between the bounds.
  start-drain :
      (min max : Bound Bytes) (boxes : List (BoxedIter it))
      → AllSorted (map (boxed_items y) boxes)
      → (t : TransactionIter it) × (start min max boxes ≡ ok t)
        × ((n rounds fuel : ℕ)
            → suc (total (map (boxed_items y) boxes)) < n
            → total (map (boxed_items y) boxes) < rounds
            → total (map (boxed_items y) boxes) < fuel
            → drain_tx n rounds fuel t
              ≡ some (between min max (merged (map (boxed_items y) boxes))))
  unfolding start
  start-drain min max boxes sorted =
      let lists = map (boxed_items y) boxes in
      let m = (Merging.create {it = boxed it} boxes).0 in
      let enough = suc (suc (total lists)) in
      let (created, _) =
        drain-merged (boxed_yields y) boxes enough enough sorted (omega arith) (omega arith) in
      let short = length-merged lists in
      (
        running false min max m,
        rw (start, created) refl,
        λ n rounds fuel steps skips rest.
            let drained = (drain-merged (boxed_yields y) boxes n fuel sorted rest steps).1 in
            drain_tx-between n rounds fuel min max m (merged lists) (omega arith) (omega arith)
              (merged-first_of lists sorted).0 (drain-Steps n fuel m (merged lists) drained),
      )

module _ {it : SeekIter} (y : Yields it) (whole : it.State → List KeyValue) {sm : MemMap}
    {wal : Wal} where
  -- What a transaction's iterator holds for a key: its own write, or else what the memory table has
  -- at its number, or else the first table that has the key.
  abbrev pub read_at :
      Shared sm wal → Transaction → Bound Bytes → Bytes → List it.State → Option (Option Bytes)
  read_at s tx min key iters =
      first_some (written tx key)
        (first_some (seen_at s.inner key tx.seq_id) (in_tables y whole min key iters))

  -- The iterator of a transaction is made without an error. From some numbers of calls and rounds on
  -- it yields, and ends: strictly sorted items which hold, for every key between the bounds, the
  -- transaction's own write, or else what the memory table has at its number, or else what the first
  -- table that has the key holds, and nothing for other keys. Without a minimum the tables are left
  -- out. The range is assumed not to be empty; the iterators over tables never fail, and a seek to a
  -- key leaves sorted items with all from that key on, perhaps also items below it; the write buffer
  -- is sorted, the numbers of the memory table are values of `i64`, and `all_unique` answers as
  -- documented.
  pub iter-read_at :
      (all_unique : List KeyValue → Bool) (s : Shared sm wal) (tx : Transaction)
      (iters : List it.State) (min max : Bound Bytes)
      → IsAllUnique all_unique
      → InRange s.inner
      → SortedBuffer tx.write_buf
      → is_empty_range min max ≡ false
      → AllSeekBack y whole iters
      → (t : TransactionIter it) × (items : List KeyValue) × (bound : ℕ) × (iter all_unique s tx
            (ok iters)
            min
            max
          ≡ some (ok t))
        × ((n rounds fuel : ℕ)
            → bound < n
            → bound < rounds
            → bound < fuel
            → drain_tx n rounds fuel t ≡ some items)
        × IsSorted items
        × ((key : Bytes)
            → get key items ≡ (if in_bounds min max key then read_at s tx min key iters else none))
  unfolding iter
  iter-read_at all_unique s tx iters min max unique fits buffer range seeks =
      let (scan, scanned, scan_sorted, seen) =
        range_scan-seen_at s.inner min max (some tx.seq_id) all_unique unique fits in
      let (writes, write, as_lists, write_sorted, wrote) =
        write_iters-ok y min max tx.write_buf range buffer in
      let (tables, sought, tables_sorted, in_table) = table_iters-ok y whole min iters seeks in
      let buf : BoxedIter it = buf_iter (record { inner = scan; pos = 0 }) in
      let rest : List (List KeyValue) = scan ∷ map (boxed_items y) tables in
      let lists : List (List KeyValue) = map (boxed_items y) (writes ++ buf ∷ tables) in
      let are : lists ≡ write_lists y min max tx.write_buf ++ rest = as_lists (buf ∷ tables) in
      let all_sorted : AllSorted lists =
        subst AllSorted (sym are) (write_sorted rest (scan_sorted, tables_sorted)) in
      let (t, started, drained) = start-drain y min max (writes ++ buf ∷ tables) all_sorted in
      let (m_sorted, found) = merged-first_of lists all_sorted in
      (
        t,
        between min max (merged lists),
        suc (total lists),
        rw (iter, write, scanned, sought, started) refl,
        λ n rounds fuel a b c. drained n rounds fuel a (omega arith) (omega arith),
        between-IsSorted min max (merged lists) m_sorted,
        λ key. get-between min max key (merged lists) ∙ elim (Bool-cases (in_bounds min max key)) [
          | inr out ↦ rw out refl
          | inl within ↦ rw within (
              found key
              ∙ ap (first_of key) are
              ∙ wrote key rest within
              ∙ ap (first_some (written tx key)) (
                  ap (λ f. first_some f (first_of key (map (boxed_items y) tables)))
                    (seen key ∙ rw within refl)
                  ∙ ap (first_some (seen_at s.inner key tx.seq_id)) (in_table key (ground arith))))
        ],
      )
