-- ===== src/Bloom/Contains.antt =====
-- What a filter contains.
use kip_db.Base.{
  ℕ, zero, suc, ◌+◌, ◌<◌, ◌≤◌, ◌≡◌, inl, inr, refl, ap, ◌∙◌, Bool, true, false, Bool-cases, ◌||◌,
  List, [], ◌∷◌, ◌==◌, if◌then◌else◌, arith,
}
use kip_db.Base.Lists.{In}
use kip_db.BitVector
use kip_db.BitVector.{BitVector, set_bit, get_bit}
use kip_db.BitVector.Bits.{get_bit-create, create-IsBits}
use kip_db.Bloom.{BloomFilter, create, Hashing, make_hash, contains_loop, contains}
use kip_db.Error.{ok, ◌>>=◌}
use kip_db.Bloom.Members.{
  slot, selects, all_on, contains_loop-all, make_hash-Filled, insert_all-Filled, insert_all,
  selected,
}

ok-or : (a : Bool) → (if a then ok true else ok false) ≡ ok a
ok-or true = refl
ok-or false = refl

or-left : (a b : Bool) → a ≡ true → (a || b) ≡ true
or-left a b h = rw h refl

or-right : (a b : Bool) → b ≡ true → (a || b) ≡ true
or-right true b h = refl
or-right false b h = h

selects_self :
    (len n : ℕ) (hashes : ℕ × ℕ) (fn_i i : ℕ)
    → fn_i ≤ i
    → i < fn_i + n
    → selects len n hashes (slot len hashes i) fn_i ≡ true
selects_self len zero hashes fn_i i from below = absurd (omega arith)
selects_self len (suc n) hashes fn_i i from below = elim (Bool-cases (fn_i == i)) [
  | inl e ↦
      let same : fn_i ≡ i = ground arith in
      or-left (slot len hashes fn_i == slot len hashes i)
        (selects len n hashes (slot len hashes i) (suc fn_i)) (rw same (equal (slot len hashes i)))
  | inr ne ↦ or-right _ _ (selects_self len n hashes (suc fn_i) i (ground arith) (omega arith))
]
  where
    equal : (a : ℕ) → (a == a) ≡ true
    equal a = ground arith

all_on-true :
    (len n : ℕ) (hashes : ℕ × ℕ) (on : ℕ → Bool) (fn_i : ℕ)
    → ((i : ℕ) → fn_i ≤ i → i < fn_i + n → on (slot len hashes i) ≡ true)
    → all_on len n hashes on fn_i ≡ true
all_on-true len zero hashes on fn_i h = refl
all_on-true len (suc n) hashes on fn_i h =
    rw
      (
        h fn_i (omega arith) (omega arith),
        all_on-true len n hashes on (suc fn_i) (λ i from below. h i (omega arith) (omega arith)),
      )
      refl

module _ {T : Type 0} (h : Hashing T) where
  -- After any elements have been inserted into a new filter of at least one bit, without a panic,
  -- the filter contains an element exactly if all of its hash functions select bits that were
  -- selected for inserted ones.
  pub contains-insert_all :
      (elems : List T) (elem : T) (bits_count hash_fn_count seed1 seed2 : ℕ)
      → 0 < bits_count
      → let f : BloomFilter = create bits_count hash_fn_count seed1 seed2 in
        (f' : BloomFilter) × (insert_all h elems f ≡ ok f')
        × (contains h elem f'
            ≡ ok (all_on bits_count hash_fn_count (make_hash h f elem) (selected h f elems) 0))
  unfolding create BitVector.create contains
  contains-insert_all elems elem bits_count hash_fn_count seed1 seed2 some_bits =
      let f : BloomFilter = create bits_count hash_fn_count seed1 seed2 in
      let (f', all, filled) = insert_all-Filled h elems f some_bits (create-IsBits bits_count) in
      let reads : (j : ℕ) → j < f'.bits.len → get_bit j f'.bits ≡ ok (selected h f elems j) =
        λ j below.
          filled.reads j (omega (arith, filled.len))
          ∙ rw (get_bit-create bits_count j (omega (arith, filled.len)))
              (ok-or (selected h f elems j)) in
      let found : contains h elem f' ≡ contains_loop h f'.hash_fn_count 0 (make_hash h f' elem) f' =
        refl in
      (
        f',
        all,
        found
            ∙ contains_loop-all h f'.hash_fn_count 0 (make_hash h f' elem) f' (selected h f elems)
                (omega (arith, filled.len)) reads
            ∙ rw
                (filled.count, filled.len, make_hash-Filled h f f' (selected h f elems) elem filled)
                refl,
      )

  selected-In :
      (f : BloomFilter) (elems : List T) (elem : T) (i : ℕ)
      → In elem elems
      → i < f.hash_fn_count
      → selected h f elems (slot f.bits.len (make_hash h f elem) i) ≡ true
  selected-In f (first ∷ elems) elem i (inl e) below = rw (← e) (
      or-left _ _ (
        selects_self f.bits.len f.hash_fn_count (make_hash h f elem) 0 i (omega arith)
          (omega arith)))
  selected-In f (first ∷ elems) elem i (inr later) below =
      or-right _ _ (selected-In f elems elem i later below)
  selected-In f [] elem i none below = absurd none

  -- An inserted element is contained.
  pub contains-inserted :
      (elems : List T) (elem : T) (bits_count hash_fn_count seed1 seed2 : ℕ)
      → 0 < bits_count
      → In elem elems
      → (insert_all h elems (create bits_count hash_fn_count seed1 seed2) >>= contains h elem)
        ≡ ok true
  unfolding create BitVector.create
  contains-inserted elems elem bits_count hash_fn_count seed1 seed2 some_bits inside =
      let f : BloomFilter = create bits_count hash_fn_count seed1 seed2 in
      let (f', all, found) =
        contains-insert_all elems elem bits_count hash_fn_count seed1 seed2 some_bits in
      rw (all, found)
        (ap ok (
          all_on-true bits_count hash_fn_count (make_hash h f elem) (selected h f elems) 0
            (λ i from below. selected-In f elems elem i inside (omega arith))))
