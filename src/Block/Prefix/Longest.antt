-- ===== src/Block/Prefix/Longest.antt =====
-- The binary search finds a common prefix that cannot be made longer.
use mathlib.Core.Path.{subst}
use kip_db.Base.{
  ℕ, zero, suc, ◌+◌, ◌-◌, ◌/◌, ◌^◌, ◌≤◌, ◌<◌, ◌≡◌, ◌⊎◌, inl, inr, refl, sym, true, false,
  Bool-cases, List, [], ◌∷◌, ltb, leb, ◌==◌, arith,
}
use kip_db.Base.Lists.{length, take}
use kip_db.Base.Order.{Bytes}
use kip_db.Block.Prefix.{
  agree, agree_all, is_common_prefix, shortest, search_len, longest_shared_len,
}
use kip_db.Error.{ok}

-- Within the lengths, the comparison answers.
agree-answers :
    (n : ℕ) (a b : Bytes)
    → n ≤ length a
    → n ≤ length b
    → ((agree n a b ≡ ok true) × (take n a ≡ take n b)) ⊎ (agree n a b ≡ ok false)
unfolding agree
agree-answers zero a b p q = inl (refl, refl)
agree-answers (suc n) [] b p q = absurd (omega arith)
agree-answers (suc n) (x ∷ a) [] p q = absurd (omega arith)
agree-answers (suc n) (x ∷ a) (y ∷ b) p q = elim (Bool-cases (x == y)) [
  | inr ne ↦ inr (rw ne refl)
  | inl e ↦
      let same : x ≡ y = ground arith in
      elim (agree-answers n a b (omega arith) (omega arith)) [
        | inl (yes_agree, t) ↦ inl (rw (agree, e, yes_agree) refl, rw (same, t) refl)
        | inr no_agree ↦ inr (rw (agree, e, no_agree) refl)
      ]
]

module _ {T : Type 0} where
  abbrev pub AllAtLeast : ℕ → List (Bytes × T) → Type 0
  AllAtLeast n [] = Unit
  AllAtLeast n (kv ∷ sharding) = (n ≤ length kv.0) × AllAtLeast n sharding

  -- All keys start like a given one.
  abbrev pub AllStart : ℕ → Bytes → List (Bytes × T) → Type 0
  AllStart n first [] = Unit
  AllStart n first (kv ∷ sharding) = (take n first ≡ take n kv.0) × AllStart n first sharding

  pub AllAtLeast-le :
      (n m : ℕ) (kvs : List (Bytes × T)) → m ≤ n → AllAtLeast n kvs → AllAtLeast m kvs
  AllAtLeast-le n m [] le a = tt
  AllAtLeast-le n m (kv ∷ kvs) le (h, a) = (omega arith, AllAtLeast-le n m kvs le a)

  agree_all-answers :
      (n : ℕ) (first : Bytes) (kvs : List (Bytes × T))
      → n ≤ length first
      → AllAtLeast n kvs
      → ((agree_all n first kvs ≡ ok true) × AllStart n first kvs)
        ⊎ (agree_all n first kvs ≡ ok false)
  unfolding agree_all
  agree_all-answers n first [] le a = inl (refl, tt)
  agree_all-answers n first (kv ∷ kvs) le (h, a) = elim (agree-answers n first kv.0 le h) [
    | inr no_agree ↦ inr (rw (agree_all, no_agree) refl)
    | inl (yes_agree, t) ↦ elim (agree_all-answers n first kvs le a) [
      | inl (all, s) ↦ inl (rw (agree_all, yes_agree, all) refl, (t, s))
      | inr not_all ↦ inr (rw (agree_all, yes_agree, not_all) refl)
    ]
  ]

  pub shortest-AllAtLeast :
      (m : ℕ) (kvs : List (Bytes × T)) → (shortest m kvs ≤ m) × AllAtLeast (shortest m kvs) kvs
  unfolding shortest
  shortest-AllAtLeast m [] = (omega arith, tt)
  shortest-AllAtLeast m (kv ∷ kvs) = elim (Bool-cases (leb m (length kv.0))) [
    | inl le ↦
        let e : shortest m (kv ∷ kvs) ≡ shortest m kvs = rw (shortest, le) refl in
        let (small, all) = shortest-AllAtLeast m kvs in
        subst (λ n. (n ≤ m) × AllAtLeast n (kv ∷ kvs)) (sym e) (small, (ground arith, all))
    | inr gt ↦
        let e : shortest m (kv ∷ kvs) ≡ shortest (length kv.0) kvs = rw (shortest, gt) refl in
        let (small, all) = shortest-AllAtLeast (length kv.0) kvs in
        subst (λ n. (n ≤ m) × AllAtLeast n (kv ∷ kvs)) (sym e) (ground arith, (small, all))
  ]

  -- What the search answers of the keys `(first, item) ∷ kvs`, none of which is shorter than `min_len`.
  pub record IsLongest (first : Bytes) (kvs : List (Bytes × T)) (min_len len : ℕ) : Type 0 where
    pub small : len ≤ min_len
    pub common : AllStart len first kvs
    pub maximal : (len ≡ min_len) ⊎ (agree_all (suc len) first kvs ≡ ok false)

  search_len-IsLongest :
      (fuel min_len : ℕ) (first : Bytes) (item : T) (kvs : List (Bytes × T)) (low high : ℕ)
      → low ≤ high
      → high ≤ min_len
      → high - low < fuel
      → min_len ≤ length first
      → AllAtLeast min_len kvs
      → AllStart low first kvs
      → (high ≡ min_len) ⊎ (agree_all (suc high) first kvs ≡ ok false)
      → (len : ℕ) × (search_len fuel ((first, item) ∷ kvs) low high ≡ ok len)
        × IsLongest first kvs min_len len
  unfolding search_len is_common_prefix
  search_len-IsLongest zero min_len first item kvs low high le top enough f a c m =
      absurd (omega arith)
  search_len-IsLongest (suc fuel) min_len first item kvs low high le top enough f a c m =
      elim (Bool-cases (ltb low high)) [
        | inr done ↦
            let same : high ≡ low = ground arith in
            (
              low,
              rw (search_len, done) refl,
              record { small = omega arith; common = c; maximal = rw same at m },
            )
        | inl more ↦
            let mid : ℕ = (high - low + 1) / 2 + low in
            let above : low < mid = ground arith in
            let below : mid ≤ high = ground arith in
            elim (agree_all-answers mid first kvs (omega arith)
              (AllAtLeast-le min_len mid kvs (omega arith) a)) [
                | inl (yes_common, s) ↦
                    let (len, found, l) =
                      search_len-IsLongest fuel min_len first item kvs mid high below top
                        (omega arith) f a s m in
                    (len, rw (search_len, more, is_common_prefix, yes_common) found, l)
                | inr no_common ↦
                    let up : suc (mid - 1) ≡ mid = omega arith in
                    let (len, found, l) =
                      search_len-IsLongest fuel min_len first item kvs low (mid - 1) (omega arith)
                        (omega arith) (omega arith) f a c (inr (rw up no_common)) in
                    (len, rw (search_len, more, is_common_prefix, no_common) found, l)
              ]
      ]

  pub longest_shared_len-IsLongest :
      (first : Bytes) (item : T) (kvs : List (Bytes × T))
      → (len : ℕ) × (longest_shared_len ((first, item) ∷ kvs) ≡ ok len)
        × IsLongest first kvs (shortest (2 ^ 64 - 1) ((first, item) ∷ kvs)) len
  unfolding longest_shared_len
  longest_shared_len-IsLongest first item kvs =
      let m : ℕ = shortest (2 ^ 64 - 1) ((first, item) ∷ kvs) in
      let (_, (below, all)) = shortest-AllAtLeast (2 ^ 64 - 1) ((first, item) ∷ kvs) in
      search_len-IsLongest (suc m) m first item kvs 0 m (omega arith) (omega arith) (omega arith)
        below all (none_shared first kvs) (inl refl)
    where
      none_shared : (first : Bytes) (kvs : List (Bytes × T)) → AllStart 0 first kvs
      none_shared first [] = tt
      none_shared first (kv ∷ kvs) = (refl, none_shared first kvs)
