-- ===== src/MemTable/Range/Scan.antt =====
-- A scan of the memory table answers with its latest versions.
use mathlib.Core.List.{reverse}
use kip_db.Base.{
  suc, ◌+◌, ◌≡◌, refl, sym, ◌∙◌, ap, Bool, true, false, Option, none, some, List, [], if◌then◌else◌,
  arith,
}
use kip_db.Base.Int.{ℤ}
use kip_db.Base.Lists.{length}
use kip_db.Base.Order.{Bytes, bytes_ord, Bound}
use kip_db.Base.SortedMap.{IsSorted, get}
use kip_db.Data.{KeyValue}
use kip_db.Error.{ok}
use kip_db.MemTable.{MemMap, TableInner}
use kip_db.MemTable.Find.{some_or_none, first_some, seen_at}
use kip_db.MemTable.LogIo.{Wal}
use kip_db.MemTable.Range.{merge_maps, range_iter, range_scan, IsAllUnique}
use kip_db.MemTable.Range.Descending.{
  IsDescending, push_each-distinct, distinct, distinct-Falls, get-distinct, reverse-IsSorted,
  get-reverse, no_repeat-IsSorted, is_sorted_by_key-IsSorted,
}
use kip_db.MemTable.Range.Merge.{merged, merge_loop-merged, merged-IsDescending, get-merged}
use kip_db.MemTable.Range.Visible.{
  AllI64, limit, in_bounds, min_key, max_key, range_iter-IsDescending, get-range_iter,
}
use kip_db.MemTable.Versions.{latest}

module _ (sm : MemMap) where
  abbrev pub ImmutI64 : Option sm.Map → Type 0
  ImmutI64 none = Unit
  ImmutI64 (some m) = AllI64 (sm.iter m)

both_or_none :
    (b : Bool) (p q : Option (Option Bytes))
    → first_some (if b then p else none) (if b then q else none)
      ≡ (if b then first_some p q else none)
both_or_none true p q = refl
both_or_none false p q = refl

module _ {sm : MemMap} {wal : Wal} where
  -- All sequence numbers of the table are values of their type.
  abbrev pub InRange : TableInner sm wal → Type 0
  InRange inner = AllI64 (sm.iter inner.mem) × ImmutI64 sm inner.immut

  module _ (inner : TableInner sm wal) (min max : Bound Bytes) (option_seq : Option ℤ) where
    -- The items that the loop pushes.
    merge_maps-distinct :
        (immut : Option sm.Map)
        → AllI64 (sm.iter inner.mem)
        → ImmutI64 sm immut
        → (es : List KeyValue) × (merge_maps
              (record inner { immut = immut })
              (min_key min)
              (max_key max)
              option_seq
            ≡ some (distinct es))
          × IsDescending es
          × ((key : Bytes)
              → get key es ≡ (
                  if in_bounds min max key
                  then first_some (latest key (limit option_seq) (sm.iter inner.mem)) (elim immut [
                    | none ↦ none
                    | some m ↦ latest key (limit option_seq) (sm.iter m)
                  ])
                  else none))
    unfolding merge_maps
    merge_maps-distinct none fits h =
        let ms = range_iter sm inner.mem (min_key min) (max_key max) option_seq in
        (
          ms,
          ap some (push_each-distinct ms),
          range_iter-IsDescending sm inner.mem min max option_seq,
          λ key.
              get-range_iter sm inner.mem min max option_seq key fits
              ∙ ap (λ o. if in_bounds min max key then o else none)
                  (sym (some_or_none (latest key (limit option_seq) (sm.iter inner.mem)))),
        )
    merge_maps-distinct (some m) fits h =
        let ms = range_iter sm inner.mem (min_key min) (max_key max) option_seq in
        let is = range_iter sm m (min_key min) (max_key max) option_seq in
        let fuel = suc (length ms + length is) in
        let dm = range_iter-IsDescending sm inner.mem min max option_seq in
        let di = range_iter-IsDescending sm m min max option_seq in
        (
          merged fuel ms is,
          merge_loop-merged fuel [] ms is (omega arith)
              ∙ ap some (push_each-distinct (merged fuel ms is)),
          merged-IsDescending fuel ms is dm di,
          λ key.
              get-merged fuel key ms is (omega arith) dm di
              ∙ rw
                  (
                    get-range_iter sm inner.mem min max option_seq key fits,
                    get-range_iter sm m min max option_seq key h,
                  )
                  (both_or_none (in_bounds min max key)
                    (latest key (limit option_seq) (sm.iter inner.mem))
                    (latest key (limit option_seq) (sm.iter m))),
        )

    -- A scan ends and fails none of its assertions. Its items are strictly sorted by key and hold,
    -- for every key between the bounds, what a read at the number finds, or at the greatest number
    -- where none is given, and nothing for other keys. The sequence numbers of the table are assumed
    -- to be values of `i64`, and `all_unique` to answer as documented.
    pub range_scan-seen_at :
        (all_unique : List KeyValue → Bool)
        → IsAllUnique all_unique
        → InRange inner
        → (es : List KeyValue) × (range_scan all_unique inner min max option_seq ≡ some (ok es))
          × IsSorted es
          × ((key : Bytes)
              → get key es
                ≡ (if in_bounds min max key then seen_at inner key (limit option_seq) else none))
    unfolding range_scan
    range_scan-seen_at all_unique unique (fits, h) =
        let (es, done, d, found) = merge_maps-distinct inner.immut fits h in
        let out = reverse (distinct es) in
        let falls = distinct-Falls es d in
        let sorted = reverse-IsSorted (distinct es) falls in
        (
          out,
          rw
              (
                range_scan,
                done,
                is_sorted_by_key-IsSorted out sorted,
                unique,
                no_repeat-IsSorted out sorted,
              )
              refl,
          sorted,
          λ key. get-reverse key (distinct es) falls ∙ get-distinct key es d ∙ found key,
        )
