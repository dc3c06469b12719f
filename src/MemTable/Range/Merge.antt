-- ===== src/MemTable/Range/Merge.antt =====
-- The loop of `_range_scan` pushes the merged items.
use mathlib.Core.List.{append-nil}
use kip_db.Base.{
  ℕ, zero, suc, ◌+◌, ◌<◌, ◌≡◌, refl, sym, ap, inl, inr, true, none, some, List, [], ◌∷◌, arith,
}
use kip_db.Base.Lists.{length}
use kip_db.Base.Order.{
  Ordering-cases, Bytes, bytes_ord, bytes_cmp, bytes_cmp_flip, bytes_eq_of_cmp, is_le, lt, eq, gt,
}
use kip_db.Base.SortedMap.{get}
use kip_db.Data.{KeyValue}
use kip_db.MemTable.Find.{some_or_none, first_some}
use kip_db.MemTable.Range.{duplicates_push, push_some, push_each, next, rest, merge_loop}
use kip_db.MemTable.Range.Descending.{UpToKey, UpToKey-trans, IsDescending}

-- The merged items of two lists, of which the first goes before the second; of an equal key the
-- second loses one.
abbrev pub merged : ℕ → List KeyValue → List KeyValue → List KeyValue
merged zero ms is = []
merged (suc fuel) [] is = is
merged (suc fuel) (m ∷ ms) [] = m ∷ ms
merged (suc fuel) (m ∷ ms) (i ∷ is) = elim (bytes_cmp m.0 i.0) [
  | gt ↦ m ∷ merged fuel ms (i ∷ is)
  | lt ↦ i ∷ merged fuel (m ∷ ms) is
  | eq ↦ m ∷ merged fuel ms is
]

-- One step of `merged` for each outcome of the comparison.
module _ (fuel : ℕ) (m i : KeyValue) (ms is : List KeyValue) where
  one_lt :
      bytes_cmp m.0 i.0 ≡ lt → merged (suc fuel) (m ∷ ms) (i ∷ is) ≡ i ∷ merged fuel (m ∷ ms) is
  one_lt e = rw (e, merged)

  one_eq : bytes_cmp m.0 i.0 ≡ eq → merged (suc fuel) (m ∷ ms) (i ∷ is) ≡ m ∷ merged fuel ms is
  one_eq e = rw (e, merged)

  one_gt :
      bytes_cmp m.0 i.0 ≡ gt → merged (suc fuel) (m ∷ ms) (i ∷ is) ≡ m ∷ merged fuel ms (i ∷ is)
  one_gt e = rw (e, merged)

pub merge_loop-merged :
    (fuel : ℕ) (results ms is : List KeyValue)
    → length ms + length is < fuel
    → merge_loop fuel results (next ms) (rest ms) (next is) (rest is)
      ≡ some (push_each results (merged fuel ms is))
unfolding merge_loop push_some push_each duplicates_push
merge_loop-merged zero results ms is enough = absurd (omega arith)
merge_loop-merged (suc fuel) results [] [] enough = refl
merge_loop-merged (suc fuel) results [] (i ∷ is) enough = refl
merge_loop-merged (suc fuel) results (m ∷ ms) [] enough =
    ap (λ l. some (push_each (duplicates_push results m) l)) (append-nil ms)
merge_loop-merged (suc fuel) results (m ∷ ms) (i ∷ is) enough =
    elim (Ordering-cases (bytes_cmp m.0 i.0)) [
      | inl e ↦
          rw (one_lt fuel m i ms is e, merge_loop, e)
            (merge_loop-merged fuel (duplicates_push results i) (m ∷ ms) is (omega arith))
      | inr (inl e) ↦
          rw (one_eq fuel m i ms is e, merge_loop, e)
            (merge_loop-merged fuel (duplicates_push results m) ms is (omega arith))
      | inr (inr e) ↦
          rw (one_gt fuel m i ms is e, merge_loop, e)
            (merge_loop-merged fuel (duplicates_push results m) ms (i ∷ is) (omega arith))
    ]

UpToKey-merged :
    (fuel : ℕ) (k : Bytes) (ms is : List KeyValue)
    → UpToKey k ms
    → UpToKey k is
    → UpToKey k (merged fuel ms is)
UpToKey-merged zero k ms is u w = tt
UpToKey-merged (suc fuel) k [] is u w = w
UpToKey-merged (suc fuel) k (m ∷ ms) [] u w = u
UpToKey-merged (suc fuel) k (m ∷ ms) (i ∷ is) (le, u) (le', w) = ground (
  arith,
  UpToKey-merged fuel k ms (i ∷ is) u (le', w),
  UpToKey-merged fuel k (m ∷ ms) is (le, u) w,
  UpToKey-merged fuel k ms is u w,
)

le_of_ge : (a b : Bytes) → bytes_cmp a b ≡ gt → is_le b a ≡ true
le_of_ge a b h = ground (arith, bytes_cmp_flip a b)

pub merged-IsDescending :
    (fuel : ℕ) (ms is : List KeyValue)
    → IsDescending ms
    → IsDescending is
    → IsDescending (merged fuel ms is)
merged-IsDescending zero ms is d e = tt
merged-IsDescending (suc fuel) [] is d e = e
merged-IsDescending (suc fuel) (m ∷ ms) [] d e = d
merged-IsDescending (suc fuel) (m ∷ ms) (i ∷ is) (u, d) (w, e) =
    elim (Ordering-cases (bytes_cmp m.0 i.0)) [
      | inl h ↦
          let le : is_le m.0 i.0 ≡ true = ground arith in
          rw (one_lt fuel m i ms is h) (
            UpToKey-merged fuel i.0 (m ∷ ms) is (le, UpToKey-trans m.0 i.0 ms le u) w,
            merged-IsDescending fuel (m ∷ ms) is (u, d) e,
          )
      | inr (inl h) ↦
          let le : is_le i.0 m.0 ≡ true = ground (arith, bytes_cmp_flip m.0 i.0) in
          rw (one_eq fuel m i ms is h) (
            UpToKey-merged fuel m.0 ms is u (UpToKey-trans i.0 m.0 is le w),
            merged-IsDescending fuel ms is d e,
          )
      | inr (inr h) ↦
          let le : is_le i.0 m.0 ≡ true = le_of_ge m.0 i.0 h in
          rw (one_gt fuel m i ms is h) (
            UpToKey-merged fuel m.0 ms (i ∷ is) u (le, UpToKey-trans i.0 m.0 is le w),
            merged-IsDescending fuel ms (i ∷ is) d (w, e),
          )
    ]

-- A key above all keys of a list is not there.
get-over :
    (key k : Bytes) (es : List KeyValue) → UpToKey k es → bytes_cmp k key ≡ lt → get key es ≡ none
get-over key k [] u h = refl
get-over key k ((j, v) ∷ es) (le, u) h = ground (
  arith,
  get-over key k es u h,
  bytes_cmp_flip key j,
  bytes_eq_of_cmp key j,
  bytes_cmp_flip key k,
)

pub get-merged :
    (fuel : ℕ) (key : Bytes) (ms is : List KeyValue)
    → length ms + length is < fuel
    → IsDescending ms
    → IsDescending is
    → get key (merged fuel ms is) ≡ first_some (get key ms) (get key is)
get-merged zero key ms is enough d e = absurd (omega arith)
get-merged (suc fuel) key [] is enough d e = refl
get-merged (suc fuel) key (m ∷ ms) [] enough d e = sym (some_or_none (get key (m ∷ ms)))
get-merged (suc fuel) key (m ∷ ms) (i ∷ is) enough (u, d) (w, e) =
    elim (Ordering-cases (bytes_cmp m.0 i.0)) [
      | inl h ↦ rw (one_lt fuel m i ms is h) (
          ground (
            arith,
            get-merged fuel key (m ∷ ms) is (omega arith) (u, d) e,
            get-over key m.0 ms u,
            bytes_eq_of_cmp key i.0,
            bytes_cmp_flip key m.0,
          ))
      | inr (inl h) ↦
          rw (one_eq fuel m i ms is h)
            (ground (arith, get-merged fuel key ms is (omega arith) d e, bytes_eq_of_cmp m.0 i.0))
      | inr (inr h) ↦
          rw (one_gt fuel m i ms is h)
            (ground (arith, get-merged fuel key ms (i ∷ is) (omega arith) d (w, e)))
    ]
