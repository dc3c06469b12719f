-- ===== src/Block/Compressed/Compare.antt =====
-- A key is compared with an entry as with the whole key that the entry stands for.
use kip_db.Base.{
  ℕ, zero, suc, ◌*◌, ◌/◌, ◌%◌, ◌≤◌, ◌<◌, ◌≡◌, ◌≢◌, inl, inr, refl, ap, sym, ◌∙◌, Bool-cases, some,
  List, [], ◌∷◌, ltb, leb, ◌==◌, arith,
}
use kip_db.Base.Lists.{length, take, drop}
use kip_db.Base.Order.{Bytes, bytes_cmp, bytes_ord, lt, then_with}
use kip_db.Base.Search.{get_elem?}
use kip_db.Base.Slices.{div_mod}
use kip_db.Base.SortedMap.{Above, IsSorted}
use kip_db.Block.Entry.{Entry}
use kip_db.Block.Compressed.{Block, create, compare_entry}
use kip_db.Block.Compressed.Restore.{Placed, create-Placed}
use kip_db.Error.{ok}

cmp_split :
    (n : ℕ) (a b : Bytes)
    → n ≤ length a
    → n ≤ length b
    → then_with (bytes_cmp (take n a) (take n b)) (bytes_cmp (drop n a) (drop n b)) ≡ bytes_cmp a b
cmp_split zero a b p q = refl
cmp_split (suc n) [] b p q = absurd (omega arith)
cmp_split (suc n) (x ∷ a) [] p q = absurd (omega arith)
cmp_split (suc n) (x ∷ a) (y ∷ b) p q = ground (arith, cmp_split n a b)

-- A key that is shorter than the prefix.
cmp_short :
    (n : ℕ) (a b : Bytes)
    → length a < n
    → n < length b
    → then_with
        (bytes_cmp (take (length a) a) (take (length a) b))
        (bytes_cmp (drop (length a) a) (drop n b))
      ≡ bytes_cmp a b
cmp_short zero a b p q = absurd (omega arith)
cmp_short (suc n) [] [] p q = absurd (omega arith)
cmp_short (suc n) [] (y ∷ b) p q = some_left n b (omega arith)
  where
    some_left : (n : ℕ) (b : Bytes) → n < length b → bytes_cmp [] (drop n b) ≡ lt
    some_left n [] h = absurd (omega arith)
    some_left zero (y ∷ b) h = refl
    some_left (suc n) (y ∷ b) h = some_left n b (omega arith)
cmp_short (suc n) (x ∷ a) [] p q = absurd (omega arith)
cmp_short (suc n) (x ∷ a) (y ∷ b) p q = ground (arith, cmp_short n a b)

take_all : (b : Bytes) → take (length b) b ≡ b
take_all [] = refl
take_all (x ∷ b) = ap (λ t. x ∷ t) (take_all b)

take-take : (n m : ℕ) (b : Bytes) → n ≤ m → take n (take m b) ≡ take n b
take-take zero m b h = refl
take-take (suc n) zero b h = absurd (omega arith)
take-take (suc n) (suc m) [] h = refl
take-take (suc n) (suc m) (x ∷ b) h = ap (λ t. x ∷ t) (take-take n m b (omega arith))

not_below_prefix : (n : ℕ) (a : Bytes) → bytes_cmp a (take n a) ≢ lt
not_below_prefix zero [] h = ground arith
not_below_prefix zero (x ∷ a) h = ground arith
not_below_prefix (suc n) [] h = ground arith
not_below_prefix (suc n) (x ∷ a) h = ground (arith, not_below_prefix n a)

module _ {T : Type 0} where
  Above-get :
      (k : Bytes) (kvs : List (Bytes × T)) (i : ℕ) (kv : Bytes × T)
      → Above k kvs
      → get_elem? kvs i ≡ some kv
      → bytes_cmp k kv.0 ≡ lt
  Above-get k [] i kv a h = absurd (cc)
  Above-get k (x ∷ kvs) zero kv (b, a) h = let e : x ≡ kv = cc in rw (← e) b
  Above-get k (x ∷ kvs) (suc i) kv (b, a) h = Above-get k kvs i kv a h

  IsSorted-get :
      (kvs : List (Bytes × T)) (i j : ℕ) (a b : Bytes × T)
      → IsSorted kvs
      → get_elem? kvs i ≡ some a
      → get_elem? kvs j ≡ some b
      → i < j
      → bytes_cmp a.0 b.0 ≡ lt
  IsSorted-get [] i j a b s p q h = absurd (cc)
  IsSorted-get (x ∷ kvs) i zero a b s p q h = absurd (omega arith)
  IsSorted-get (x ∷ kvs) zero (suc j) a b (above, s) p q h =
      let e : x ≡ a = cc in rw (← e) (Above-get x.0 kvs j b above q)
  IsSorted-get (x ∷ kvs) (suc i) (suc j) a b (above, s) p q h =
      IsSorted-get kvs i j a b s p q (omega arith)

  -- Among sorted keys, none is the prefix that its group shares, but where nothing is shared.
  more_than_prefix :
      (r : ℕ) (kvs : List (Bytes × T)) (b : Block T) (i : ℕ) (kv : Bytes × T)
      → 0 < r
      → IsSorted kvs
      → get_elem? kvs i ≡ some kv
      → (p : Placed r kvs b i kv) → 0 < p.entry.shared_len
      → p.entry.shared_len < length kv.0
  more_than_prefix r kvs b i kv some_r sorted h p shares =
      elim (Bool-cases (p.entry.shared_len == length kv.0)) [
        | inr ne ↦ let le = p.shape.long in ground arith
        | inl e ↦
            let whole : p.entry.shared_len ≡ length kv.0 = ground arith in
            let inside : i % r ≢ 0 = λ z. let none_shared = p.restart z in omega arith in
            let d = div_mod i r some_r in
            let below : i / r * r < i = omega arith in
            let less = IsSorted-get kvs (i / r * r) i p.first kv sorted p.at_first h below in
            let key : kv.0 ≡ take p.entry.shared_len p.first.0 =
              sym (take_all kv.0) ∙ ap (λ n. take n kv.0) (sym whole) ∙ sym p.shape.common in
            absurd (not_below_prefix p.entry.shared_len p.first.0 (rw (← key) less))
      ]

  -- For strictly sorted items, at a positive interval, every entry of a new block is compared with
  -- a key as the whole key of its item is.
  pub compare_entry-bytes_cmp :
      (kvs : List (Bytes × T)) (r : ℕ) (key : Bytes)
      → 0 < r
      → IsSorted kvs
      → (b : Block T) × (create kvs r ≡ ok b)
        × ((i : ℕ) (kv : Bytes × T)
            → get_elem? kvs i ≡ some kv
            → (e : ℕ × Entry T) × (get_elem? b.vec_entry i ≡ some e)
              × (compare_entry key b e ≡ ok (bytes_cmp key kv.0)))
  unfolding compare_entry
  compare_entry-bytes_cmp kvs r key some_r sorted =
      let (b, made, placed) = create-Placed kvs r some_r in
      (b, made, λ i kv h. let p = placed i kv h in ((i, p.entry), p.at_entry, compared b i kv h p))
    where
      compared :
          (b : Block T) (i : ℕ) (kv : Bytes × T)
          → get_elem? kvs i ≡ some kv
          → (p : Placed r kvs b i kv) → compare_entry key b (i, p.entry) ≡ ok (bytes_cmp key kv.0)
      compared b i kv h p = elim (Bool-cases (ltb 0 p.entry.shared_len)) [
        | inr none_shared ↦
            let zero_len : p.entry.shared_len ≡ 0 = ground arith in
            let whole : p.entry.key ≡ kv.0 = p.shape.key ∙ ap (λ n. drop n kv.0) zero_len in
            rw (compare_entry, none_shared, whole) refl
        | inl shares ↦ elim (Bool-cases (leb p.entry.shared_len (length key))) [
          | inl long ↦
              rw
                (
                  compare_entry,
                  shares,
                  long,
                  p.prefix p.entry.shared_len p.shape.first_long,
                  p.shape.key,
                  p.shape.common,
                )
                (ap ok (cmp_split p.entry.shared_len key kv.0 (ground arith) p.shape.long))
          | inr short ↦
              let less : length key < p.entry.shared_len = ground arith in
              let more = more_than_prefix r kvs b i kv some_r sorted h p (ground arith) in
              let f = p.shape.first_long in
              let common : take (length key) p.first.0 ≡ take (length key) kv.0 =
                sym (take-take (length key) p.entry.shared_len p.first.0 (omega arith))
                ∙ ap (take (length key)) p.shape.common
                ∙ take-take (length key) p.entry.shared_len kv.0 (omega arith) in
              rw
                (
                  compare_entry,
                  shares,
                  short,
                  p.prefix (length key) (omega arith),
                  p.shape.key,
                  common,
                )
                (ap ok (cmp_short p.entry.shared_len key kv.0 less more))
        ]
      ]
