-- ===== src/Version/Levels.antt =====
-- On a level of sorted disjoint tables the binary search finds the only table that may hold a key.
use kip_db.Base.{
  ℕ, zero, suc, ◌+◌, ◌-◌, ◌≤◌, ◌≡◌, refl, ap, ◌∙◌, inl, inr, ◌⊎◌, true, false, Option, none, some,
  List, [], ◌∷◌, map, arith,
}
use kip_db.Base.Order.{
  Bytes, bytes_ord, bytes_cmp, bytes_cmp_flip, bytes_eq_of_cmp, bytes_lt_trans, cmp, Ordering, lt,
  eq, gt, is_le, le_trans,
}
use kip_db.Base.Search.{
  Position, found, insert_at, binary_search, get_elem?, IsSplit, IsOutcome, binary_search-IsOutcome,
}
use kip_db.Data.{KeyValue}
use kip_db.Error.{KernelResult, ok, err, panic}
use kip_db.Scope.{Scope, meet_by_key}
use kip_db.Version.{query_meet_index}

-- Every scope starts after the key.
abbrev pub StartAfter : Bytes → List Scope → Type 0
StartAfter key [] = Unit
StartAfter key (s ∷ scopes) = (bytes_cmp key s.start ≡ lt) × StartAfter key scopes

-- No scope is empty, and each ends before the later ones start.
abbrev pub IsLevel : List Scope → Type 0
IsLevel [] = Unit
IsLevel (s ∷ scopes) = (is_le s.start s.end ≡ true) × (StartAfter s.end scopes × IsLevel scopes)

StartAfter-trans :
    (a b : Bytes) (scopes : List Scope)
    → is_le a b ≡ true
    → StartAfter b scopes
    → StartAfter a scopes
StartAfter-trans a b [] h s = tt
StartAfter-trans a b (t ∷ scopes) h (e, s) = (
  ground (arith, bytes_lt_trans a b t.start, bytes_eq_of_cmp a b),
  StartAfter-trans a b scopes h s,
)

after_start :
    (key : Bytes) (t : Scope) (scopes : List Scope)
    → is_le t.start t.end ≡ true
    → StartAfter t.end scopes
    → is_le key t.start ≡ true
    → StartAfter key scopes
after_start key t scopes fits after h =
    StartAfter-trans key t.end scopes (le_trans key t.start t.end h fits) after

-- How many scopes start before the key, and how many at it.
less : Bytes → List Scope → ℕ
less key [] = 0
less key (s ∷ scopes) = elim (bytes_cmp s.start key) [
  | lt ↦ suc (less key scopes)
  | eq ↦ 0
  | gt ↦ 0
]

same : Bytes → List Scope → ℕ
same key [] = 0
same key (s ∷ scopes) = elim (bytes_cmp s.start key) [ lt ↦ same key scopes | eq ↦ 1 | gt ↦ 0 ]

abbrev starts : Bytes → List Scope → List Ordering
starts key scopes = map (λ (s : Scope). cmp s.start key) scopes

after-IsSplit :
    (key : Bytes) (scopes : List Scope) → StartAfter key scopes → IsSplit 0 0 (starts key scopes)
after-IsSplit key [] s = tt
after-IsSplit key (t ∷ scopes) (e, s) =
    (ground (arith, bytes_cmp_flip key t.start), after-IsSplit key scopes s)

starts-IsSplit :
    (key : Bytes) (scopes : List Scope)
    → IsLevel scopes
    → IsSplit (less key scopes) (same key scopes) (starts key scopes)
unfolding less same
starts-IsSplit key [] s = tt
starts-IsSplit key (t ∷ scopes) (fits, (after, s)) =
    at (bytes_cmp t.start key) refl (starts-IsSplit key scopes s)
  where
    at :
        (c : Ordering)
        → bytes_cmp t.start key ≡ c
        → IsSplit (less key scopes) (same key scopes) (starts key scopes)
        → IsSplit (less key (t ∷ scopes)) (same key (t ∷ scopes)) (starts key (t ∷ scopes))
    at lt e ih = rw (less, same, e) (refl, ih)
    at eq e ih =
        let later =
          after_start key t scopes fits after (ground (arith, bytes_cmp_flip t.start key)) in
        rw (less, same, e) (refl, after-IsSplit key scopes later)
    at gt e ih =
        let later =
          after_start key t scopes fits after (ground (arith, bytes_cmp_flip t.start key)) in
        rw (less, same, e) (refl, after-IsSplit key scopes later)

same_le_1 : (key : Bytes) (scopes : List Scope) → same key scopes ≤ 1
unfolding same
same_le_1 key [] = omega arith
same_le_1 key (t ∷ scopes) = ground (arith, same_le_1 key scopes)

position :
    (l n : ℕ) (p : Position)
    → n ≤ 1
    → IsOutcome l n p
    → (elim p [ found index ↦ index | insert_at index ↦ index - 1 ]) ≡ l + n - 1
position l n (found i) h (a, b) = omega arith
position l n (insert_at i) h (a, b) = omega arith

query_meet_index-less :
    (key : Bytes) (scopes : List Scope)
    → IsLevel scopes
    → query_meet_index key scopes ≡ less key scopes + same key scopes - 1
unfolding query_meet_index
query_meet_index-less key scopes s =
    position (less key scopes) (same key scopes) (binary_search (starts key scopes))
      (same_le_1 key scopes)
      (binary_search-IsOutcome (less key scopes) (same key scopes) (starts key scopes)
        (starts-IsSplit key scopes s))

abbrev pub or_next :
    KernelResult (Option KeyValue) → KernelResult (Option KeyValue) → KernelResult (Option KeyValue)
or_next (ok (some key_value)) next = ok (some key_value)
or_next (ok none) next = next
or_next (err e) next = err e
or_next panic next = panic

-- The first answer of the tables in turn.
abbrev pub first_hit :
    (Scope → KernelResult (Option KeyValue)) → List Scope → KernelResult (Option KeyValue)
first_hit read [] = ok none
first_hit read (s ∷ scopes) = or_next (read s) (first_hit read scopes)

abbrev pub read_at :
    (Scope → KernelResult (Option KeyValue)) → List Scope → ℕ → KernelResult (Option KeyValue)
read_at read scopes i = elim (get_elem? scopes i) [ none ↦ ok none | some s ↦ read s ]

zero_or_more : (n : ℕ) → (n ≡ 0) ⊎ (1 ≤ n)
zero_or_more zero = inl refl
zero_or_more (suc n) = inr (omega arith)

alone : (r : KernelResult (Option KeyValue)) → or_next r (ok none) ≡ r
alone (ok (some kv)) = refl
alone (ok none) = refl
alone (err e) = refl
alone panic = refl

none_start :
    (key : Bytes) (scopes : List Scope)
    → IsLevel scopes
    → less key scopes + same key scopes ≡ 0
    → StartAfter key scopes
unfolding less same
none_start key [] s h = tt
none_start key (t ∷ scopes) (fits, (after, s)) h =
    let first : bytes_cmp key t.start ≡ lt = ground (arith, bytes_cmp_flip t.start key) in
    (first, after_start key t scopes fits after (ground arith))

some_start :
    (a key : Bytes) (scopes : List Scope)
    → StartAfter a scopes
    → 1 ≤ less key scopes + same key scopes
    → bytes_cmp a key ≡ lt
unfolding less same
some_start a key [] s h = ground arith
some_start a key (t ∷ scopes) (e, s) h =
    ground (arith, bytes_lt_trans a t.start key, bytes_eq_of_cmp t.start key)

module _ (key : Bytes) (read : Scope → KernelResult (Option KeyValue))
    (outside : (s : Scope) → meet_by_key s key ≡ false → read s ≡ ok none) where
  none_after : (scopes : List Scope) → StartAfter key scopes → first_hit read scopes ≡ ok none
  unfolding meet_by_key
  none_after [] s = refl
  none_after (t ∷ scopes) (e, s) =
      let no : read t ≡ ok none = outside t (ground (arith, bytes_cmp_flip key t.start)) in
      rw (first_hit, no) (none_after scopes s)

  one_hit :
      (t : Scope) (scopes : List Scope)
      → StartAfter key scopes
      → first_hit read (t ∷ scopes) ≡ read t
  one_hit t scopes s = ap (or_next (read t)) (none_after scopes s) ∙ alone (read t)

  at_index :
      (scopes : List Scope)
      → IsLevel scopes
      → first_hit read scopes ≡ read_at read scopes (less key scopes + same key scopes - 1)
  unfolding less same meet_by_key
  at_index [] s = refl
  at_index (t ∷ scopes) (fits, (after, s)) = at (bytes_cmp t.start key) refl (at_index scopes s)
    where
      at :
          (c : Ordering)
          → bytes_cmp t.start key ≡ c
          → first_hit read scopes ≡ read_at read scopes (less key scopes + same key scopes - 1)
          → first_hit read (t ∷ scopes)
            ≡ read_at read (t ∷ scopes) (less key (t ∷ scopes) + same key (t ∷ scopes) - 1)
      at lt e ih = elim (zero_or_more (less key scopes + same key scopes)) [
        | inl z ↦
            let i : suc (less key scopes) + same key scopes - 1 ≡ 0 = omega arith in
            rw (less, same, e, i) (one_hit t scopes (none_start key scopes s z))
        | inr h ↦
            let i : suc (less key scopes) + same key scopes - 1
                ≡ suc (less key scopes + same key scopes - 1) =
              omega arith in
            let before = some_start t.end key scopes after h in
            let no : read t ≡ ok none = outside t (ground (arith, bytes_cmp_flip t.end key)) in
            rw (less, same, e, i, first_hit, no) ih
      ]
      at eq e ih =
          let later =
            after_start key t scopes fits after (ground (arith, bytes_cmp_flip t.start key)) in
          rw (less, same, e) (one_hit t scopes later)
      at gt e ih =
          let later =
            after_start key t scopes fits after (ground (arith, bytes_cmp_flip t.start key)) in
          rw (less, same, e) (one_hit t scopes later)

  -- On a sorted level, the answer of all tables in turn is that of the one at the index.
  pub first_hit-read_at :
      (scopes : List Scope)
      → IsLevel scopes
      → first_hit read scopes ≡ read_at read scopes (query_meet_index key scopes)
  first_hit-read_at scopes s = rw (query_meet_index-less key scopes s) (at_index scopes s)
