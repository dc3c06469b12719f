-- ===== src/MemTable/Range.antt =====
-- src/kernel/lsm/mem_table.rs: `_range_scan`, which merges the active and the immutable map from
-- their last entries to their first, and `range_scan`, which calls it under the lock.
pub mod Descending
pub mod Merge
pub mod Visible
pub mod Scan
pub mod Tests
use mathlib.Core.List as L
use kip_db.Base.{
  ℕ, zero, suc, ◌+◌, ◌≡◌, Bool, true, false, ◌&&◌, ◌||◌, not, Option, none, some, List, [], ◌∷◌,
  ◌++◌, map, if◌then◌else◌,
}
use kip_db.Base.Int.{ℤ, i64_max, i64_min, int_ord}
use kip_db.Base.Lists.{length}
use kip_db.Base.Order.{
  Bytes, bytes_ord, bytes_cmp, lt, eq, gt, is_eq, is_le, Bound, included, excluded, unbounded,
}
use kip_db.Data.{KeyValue}
use kip_db.Error.{KernelResult, ok, panic}
use kip_db.MemTable.{MemMap, TableInner}
use kip_db.MemTable.Key.{InternalKey}
use kip_db.MemTable.LogIo.{Wal}

-- `to_internal_key`
unfoldable pub to_internal_key : Bound Bytes → ℤ → ℤ → Bound InternalKey
to_internal_key (included key) inc exc = included (record { key = key; seq_id = inc })
to_internal_key (excluded key) inc exc = excluded (record { key = key; seq_id = exc })
to_internal_key unbounded inc exc = unbounded

-- `option_seq.map_or(true, |current_seq| &current_seq >= seq_id)`
abbrev pub is_visible : Option ℤ → ℤ → Bool
is_visible none seq_id = true
is_visible (some current_seq) seq_id = is_le seq_id current_seq

abbrev pub filter_visible :
    Option ℤ → List (InternalKey × Option Bytes) → List (InternalKey × Option Bytes)
filter_visible option_seq [] = []
filter_visible option_seq ((k, v) ∷ es) =
    if is_visible option_seq k.seq_id
    then (k, v) ∷ filter_visible option_seq es
    else filter_visible option_seq es

abbrev pub plain : List (InternalKey × Option Bytes) → List KeyValue
plain = map (λ (e : InternalKey × Option Bytes). (e.0.key, e.1))

module _ (sm : MemMap) where
  -- `range_iter!`, as the list of what the iterator yields.
  unfoldable pub range_iter :
      sm.Map → Bound InternalKey → Bound InternalKey → Option ℤ → List KeyValue
  range_iter map min_key max_key option_seq =
      plain (filter_visible option_seq (L.reverse (sm.range min_key max_key map)))

-- `results.last().map(|(last_key, _)| last_key == key)`
abbrev pub last_is : Bytes → List KeyValue → Bool
last_is key [] = false
last_is key ((k, v) ∷ []) = is_eq k key
last_is key (_ ∷ r ∷ results) = last_is key (r ∷ results)

unfoldable pub duplicates_push : List KeyValue → KeyValue → List KeyValue
duplicates_push results (key, value) =
    if last_is key results then results else results ++ (key, value) ∷ []

-- `if let Some(..) = current`, and the `for_each` over an iterator.
unfoldable pub push_some : List KeyValue → Option KeyValue → List KeyValue
unfolding duplicates_push
push_some results none = results
push_some results (some e) = duplicates_push results e

unfoldable pub push_each : List KeyValue → List KeyValue → List KeyValue
unfolding duplicates_push
push_each results [] = results
push_each results (e ∷ es) = push_each (duplicates_push results e) es

-- `Iterator::next`: its answer, and what is left.
abbrev pub next : List KeyValue → Option KeyValue
next [] = none
next (e ∷ es) = some e

abbrev pub rest : List KeyValue → List KeyValue
rest [] = []
rest (e ∷ es) = es

-- The `while` loop and what follows it, on fuel.
unfoldable pub merge_loop :
    ℕ
    → List KeyValue
    → Option KeyValue
    → List KeyValue
    → Option KeyValue
    → List KeyValue
    → Option (List KeyValue)
unfolding duplicates_push push_some push_each
merge_loop zero merged mem_current mem_iter immut_current immut_iter = none
merge_loop (suc fuel) merged (some m) mem_iter (some i) immut_iter = elim (bytes_cmp m.0 i.0) [
  | gt ↦
      merge_loop fuel (duplicates_push merged m) (next mem_iter) (rest mem_iter) (some i) immut_iter
  | lt ↦
      merge_loop fuel (duplicates_push merged i) (some m) mem_iter (next immut_iter)
        (rest immut_iter)
  | eq ↦
      merge_loop fuel (duplicates_push merged m) (next mem_iter) (rest mem_iter) (next immut_iter)
        (rest immut_iter)
]
merge_loop (suc fuel) merged none mem_iter immut_current immut_iter =
    some (push_each (push_some merged immut_current) (mem_iter ++ immut_iter))
merge_loop (suc fuel) merged (some m) mem_iter none immut_iter =
    some (push_each (duplicates_push merged m) (mem_iter ++ immut_iter))

-- `is_sorted_by_key(|(k, _)| k)`
abbrev pub is_sorted_by_key : List KeyValue → Bool
is_sorted_by_key [] = true
is_sorted_by_key (e ∷ []) = true
is_sorted_by_key (e ∷ f ∷ es) = is_le e.0 f.0 && is_sorted_by_key (f ∷ es)

-- `all_unique` of itertools is a parameter; this is what it is documented to answer.
abbrev pub same_value : Option Bytes → Option Bytes → Bool
same_value none none = true
same_value none (some b) = false
same_value (some a) none = false
same_value (some a) (some b) = is_eq a b

abbrev pub has_item : KeyValue → List KeyValue → Bool
has_item e [] = false
has_item e (f ∷ es) = is_eq e.0 f.0 && same_value e.1 f.1 || has_item e es

abbrev pub no_repeat : List KeyValue → Bool
no_repeat [] = true
no_repeat (e ∷ es) = not (has_item e es) && no_repeat es

abbrev pub IsAllUnique : (List KeyValue → Bool) → Type 0
IsAllUnique all_unique = (es : List KeyValue) → all_unique es ≡ no_repeat es

module _ {sm : MemMap} {wal : Wal} where
  -- The items of the two maps, without the last steps of `_range_scan`.
  unfoldable pub merge_maps :
      TableInner sm wal → Bound InternalKey → Bound InternalKey → Option ℤ → Option (List KeyValue)
  unfolding range_iter merge_loop push_each
  merge_maps inner min_key max_key option_seq =
      let mem_iter = range_iter sm inner.mem min_key max_key option_seq in
      elim inner.immut [
        | none ↦ some (push_each [] mem_iter)
        | some immut ↦
            let immut_iter = range_iter sm immut min_key max_key option_seq in
            merge_loop (suc (length mem_iter + length immut_iter)) [] (next mem_iter)
              (rest mem_iter) (next immut_iter) (rest immut_iter)
      ]

  -- `_range_scan`; its assertions panic. `none` if the loop has not ended.
  unfoldable pub range_scan :
      (List KeyValue → Bool)
      → TableInner sm wal
      → Bound Bytes
      → Bound Bytes
      → Option ℤ
      → Option (KernelResult (List KeyValue))
  unfolding to_internal_key merge_maps
  range_scan all_unique inner min max option_seq =
      elim (merge_maps inner (to_internal_key min i64_min i64_max)
        (to_internal_key max i64_max i64_min) option_seq) [
          | none ↦ none
          | some merged ↦
              let reversed = L.reverse merged in
              some (if is_sorted_by_key reversed && all_unique reversed then ok reversed else panic)
        ]
