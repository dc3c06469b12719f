-- ===== src/Base/Search.antt =====
-- `slice::binary_search_by` of the standard library, on the list of the comparator's answers.
use Prim.Native.Nat.{ℕ, zero, suc, ◌+◌, ◌-◌, ◌/◌, ◌≤◌, ◌<◌}
use mathlib.Core.Path.{◌≡◌, refl}
use mathlib.Core.List.{List, [], ◌∷◌}
use mathlib.Core.Option.{Option, none, some}
use native.Mathlib.Omega.{arith}
use kip_db.Base.Lists.{length}
use kip_db.Base.Order.{Ordering, lt, eq, gt}
use mathlib.Core.Logic.{inl, inr}
use kip_db.Base.Tests.{ltb, if◌then◌else◌, Bool-cases}

-- `Ok(index)` or `Err(index)`
pub data Position : Type 0 where
  found : ℕ → Position
  insert_at : ℕ → Position

abbrev pub get_elem? {ℓ} : {A : Type ℓ} → List A → ℕ → Option A
get_elem? [] i = none
get_elem? (x ∷ xs) zero = some x
get_elem? (x ∷ xs) (suc i) = get_elem? xs i

-- The loop, on fuel: `left` and `right` bound what is left to search.
unfoldable pub search : ℕ → List Ordering → ℕ → ℕ → Position
search zero answers left right = insert_at left
search (suc fuel) answers left right =
    let mid = left + (right - left) / 2 in
    let upper = search fuel answers (mid + 1) right in
    let lower = search fuel answers left mid in
    if ltb left right
    then elim (get_elem? answers mid) [
      | some lt ↦ upper
      | some gt ↦ lower
      | some eq ↦ found mid
      | none ↦ insert_at left
    ]
    else insert_at left

unfoldable pub binary_search : List Ordering → Position
unfolding search
binary_search answers = search (suc (length answers)) answers 0 (length answers)

-- The answers of a comparator on a sorted list: `less` times less, then `same` times equal, then
-- greater.
abbrev pub IsSplit : ℕ → ℕ → List Ordering → Type 0
IsSplit zero zero [] = Unit
IsSplit zero zero (c ∷ cs) = (c ≡ gt) × IsSplit zero zero cs
IsSplit zero (suc same) [] = ⊥
IsSplit zero (suc same) (c ∷ cs) = (c ≡ eq) × IsSplit zero same cs
IsSplit (suc less) same [] = ⊥
IsSplit (suc less) same (c ∷ cs) = (c ≡ lt) × IsSplit less same cs

-- What the search may answer: a position of an equal, or where one would stand if there is none.
abbrev pub IsOutcome : ℕ → ℕ → Position → Type 0
IsOutcome less same (found i) = (less ≤ i) × (i < less + same)
IsOutcome less same (insert_at i) = (i ≡ less) × (same ≡ 0)

split_length : (less same : ℕ) (cs : List Ordering) → IsSplit less same cs → less + same ≤ length cs
split_length zero zero cs s = omega arith
split_length zero (suc same) [] s = elim s [ ]
split_length (suc less) same [] s = elim s [ ]
split_length zero (suc same) (c ∷ cs) (_, s) = omega (arith, split_length zero same cs s)
split_length (suc less) same (c ∷ cs) (_, s) = omega (arith, split_length less same cs s)

-- The answer at a position of the list.
abbrev answer : ℕ → ℕ → ℕ → Ordering
answer less same i = if ltb i less then lt else (if ltb i (less + same) then eq else gt)

split_get :
    (less same : ℕ) (cs : List Ordering) (i : ℕ)
    → IsSplit less same cs
    → i < length cs
    → get_elem? cs i ≡ some (answer less same i)
split_get less same [] i s h = ground arith
split_get zero zero (c ∷ cs) zero (e, s) h = rw e refl
split_get zero zero (c ∷ cs) (suc i) (e, s) h = ground (arith, split_get zero zero cs i s)
split_get zero (suc same) (c ∷ cs) zero (e, s) h = rw e (ground arith)
split_get zero (suc same) (c ∷ cs) (suc i) (e, s) h = ground (arith, split_get zero same cs i s)
split_get (suc less) same (c ∷ cs) zero (e, s) h = rw e (ground arith)
split_get (suc less) same (c ∷ cs) (suc i) (e, s) h = ground (arith, split_get less same cs i s)

search-IsOutcome :
    (fuel : ℕ) (less same : ℕ) (cs : List Ordering) (left right : ℕ)
    → IsSplit less same cs
    → left ≤ less
    → less + same ≤ right
    → right ≤ length cs
    → right - left < fuel
    → IsOutcome less same (search fuel cs left right)
unfolding search
search-IsOutcome zero less same cs left right s l r n f = ground arith
search-IsOutcome (suc fuel) less same cs left right s l r n f =
    let mid = left + (right - left) / 2 in
    let upper = search-IsOutcome fuel less same cs (mid + 1) right s in
    let lower = search-IsOutcome fuel less same cs left mid s l in
    elim (Bool-cases (ltb left right)) [
      | inl b ↦
          let in_range : mid < right = ground arith in
          let seen = split_get less same cs mid s (omega arith) in
          elim (Bool-cases (ltb mid less)) [
            | inl c ↦ rw (search, b, seen, c) (upper (ground arith) r n (omega arith))
            | inr c ↦ elim (Bool-cases (ltb mid (less + same))) [
              | inl d ↦ rw (search, b, seen, c, d) (ground arith, ground arith)
              | inr d ↦
                  rw (search, b, seen, c, d) (lower (ground arith) (omega arith) (omega arith))
            ]
          ]
      | inr b ↦ rw (search, b) (ground arith, ground arith)
    ]

pub binary_search-IsOutcome :
    (less same : ℕ) (cs : List Ordering)
    → IsSplit less same cs
    → IsOutcome less same (binary_search cs)
unfolding binary_search
binary_search-IsOutcome less same cs s =
    search-IsOutcome (suc (length cs)) less same cs 0 (length cs) s (omega arith)
      (split_length less same cs s) (omega arith) (omega arith)
