-- ===== src/Bloom/Members.antt =====
-- The bits that insertions set.
use kip_db.Base.{
  ℕ, zero, suc, ◌+◌, ◌*◌, ◌%◌, ◌^◌, ◌<◌, ◌≡◌, refl, ◌∙◌, Bool, true, false, ◌||◌, ◌&&◌, List, [],
  ◌∷◌, ◌==◌, if◌then◌else◌, arith,
}
use kip_db.BitVector.{get_bit}
use kip_db.BitVector.Bits.{IsBits, get_bit-set_bit}
use kip_db.Bloom.{BloomFilter, get_index, Hashing, make_hash, insert_loop, insert, contains_loop}
use kip_db.Error.{KernelResult, ok, ◌>>=◌}

-- The bit that a hash function selects.
abbrev pub slot : ℕ → ℕ × ℕ → ℕ → ℕ
slot len (h1, h2) fn_i = (h1 + fn_i * h2 % 2 ^ 64) % 2 ^ 64 % len

-- Whether one of `count` hash functions, from `fn_i` on, selects a bit.
abbrev pub selects : ℕ → ℕ → ℕ × ℕ → ℕ → ℕ → Bool
selects len zero hashes j fn_i = false
selects len (suc n) hashes j fn_i = slot len hashes fn_i == j || selects len n hashes j (suc fn_i)

abbrev pub all_on : ℕ → ℕ → ℕ × ℕ → (ℕ → Bool) → ℕ → Bool
all_on len zero hashes on fn_i = true
all_on len (suc n) hashes on fn_i = on (slot len hashes fn_i) && all_on len n hashes on (suc fn_i)

ok-and : (a b : Bool) → (if a then ok b else ok false) ≡ ok (a && b)
ok-and true b = refl
ok-and false b = refl

-- The same filter with other bits, all of which were there before.
pub record Filled (f f' : BloomFilter) (added : ℕ → Bool) : Type 0 where
  pub count : f'.hash_fn_count ≡ f.hash_fn_count
  pub first : f'.hasher1 ≡ f.hasher1
  pub second : f'.hasher2 ≡ f.hasher2
  pub len : f'.bits.len ≡ f.bits.len
  pub whole : IsBits f'.bits
  pub reads :
      (j : ℕ) → j < f.bits.len → get_bit j f'.bits ≡ (if added j then ok true else get_bit j f.bits)

pub slot-lt : (len : ℕ) (hashes : ℕ × ℕ) (fn_i : ℕ) → 0 < len → slot len hashes fn_i < len
slot-lt len (h1, h2) fn_i h = omega arith

either :
    (a b : Bool) (r : KernelResult Bool)
    → (if b then ok true else (if a then ok true else r)) ≡ (if a || b then ok true else r)
either true true r = refl
either true false r = refl
either false true r = refl
either false false r = refl

module _ {T : Type 0} (h : Hashing T) where
  pub get_index-slot :
      (f : BloomFilter) (hashes : ℕ × ℕ) (fn_i : ℕ)
      → 0 < f.bits.len
      → get_index f hashes fn_i ≡ ok (slot f.bits.len hashes fn_i)
  unfolding get_index
  get_index-slot f (h1, h2) fn_i some_bits = ground arith

  insert_loop-Filled :
      (count fn_i : ℕ) (hashes : ℕ × ℕ) (f : BloomFilter)
      → 0 < f.bits.len
      → IsBits f.bits
      → (f' : BloomFilter) × (insert_loop h count fn_i hashes f ≡ ok f')
        × Filled f f' (λ j. selects f.bits.len count hashes j fn_i)
  unfolding insert_loop
  insert_loop-Filled zero fn_i hashes f some_bits whole = (
    f,
    refl,
    record {
      count = refl;
      first = refl;
      second = refl;
      len = refl;
      whole = whole;
      reads = λ j below. refl;
    },
  )
  insert_loop-Filled (suc count) fn_i hashes f some_bits whole =
      let i : ℕ = slot f.bits.len hashes fn_i in
      let (bits, set, reads, whole', len) =
        get_bit-set_bit f.bits i true whole (slot-lt f.bits.len hashes fn_i some_bits) in
      let f1 : BloomFilter = record f { bits = bits } in
      let (f', done, rest) = insert_loop-Filled count (suc fn_i) hashes f1 (omega arith) whole' in
      (
        f',
        rw (insert_loop, get_index-slot f hashes fn_i some_bits, set) done,
        record {
          count = rest.count;
          first = rest.first;
          second = rest.second;
          len = rest.len ∙ len;
          whole = rest.whole;
          reads = λ j below.
              rest.reads j (omega arith)
              ∙ rw (reads j below, len)
                  (either (i == j) (selects f.bits.len count hashes j (suc fn_i))
                    (get_bit j f.bits));
        },
      )

  pub contains_loop-all :
      (count fn_i : ℕ) (hashes : ℕ × ℕ) (f : BloomFilter) (on : ℕ → Bool)
      → 0 < f.bits.len
      → ((j : ℕ) → j < f.bits.len → get_bit j f.bits ≡ ok (on j))
      → contains_loop h count fn_i hashes f ≡ ok (all_on f.bits.len count hashes on fn_i)
  unfolding contains_loop
  contains_loop-all zero fn_i hashes f on some_bits reads = refl
  contains_loop-all (suc count) fn_i hashes f on some_bits reads =
      rw
        (
          contains_loop,
          get_index-slot f hashes fn_i some_bits,
          reads (slot f.bits.len hashes fn_i) (slot-lt f.bits.len hashes fn_i some_bits),
          contains_loop-all count (suc fn_i) hashes f on some_bits reads,
        )
        (ok-and (on (slot f.bits.len hashes fn_i)) (all_on f.bits.len count hashes on (suc fn_i)))

  abbrev pub insert_all : List T → BloomFilter → KernelResult BloomFilter
  insert_all [] f = ok f
  insert_all (elem ∷ elems) f = insert h elem f >>= insert_all elems

  -- Whether a hash function selects a bit for one of the elements.
  abbrev pub selected : BloomFilter → List T → ℕ → Bool
  selected f [] j = false
  selected f (elem ∷ elems) j =
      selects f.bits.len f.hash_fn_count (make_hash h f elem) j 0 || selected f elems j

  pub make_hash-Filled :
      (f f' : BloomFilter) (added : ℕ → Bool) (elem : T)
      → Filled f f' added
      → make_hash h f' elem ≡ make_hash h f elem
  unfolding make_hash
  make_hash-Filled f f' added elem filled = rw (make_hash, filled.first, filled.second) refl

  selected-Filled :
      (f f' : BloomFilter) (added : ℕ → Bool) (elems : List T) (j : ℕ)
      → Filled f f' added
      → selected f' elems j ≡ selected f elems j
  selected-Filled f f' added [] j filled = refl
  selected-Filled f f' added (elem ∷ elems) j filled =
      rw
        (
          make_hash-Filled f f' added elem filled,
          filled.len,
          filled.count,
          selected-Filled f f' added elems j filled,
        )
        refl

  pub insert_all-Filled :
      (elems : List T) (f : BloomFilter)
      → 0 < f.bits.len
      → IsBits f.bits
      → (f' : BloomFilter) × (insert_all elems f ≡ ok f') × Filled f f' (selected f elems)
  unfolding insert
  insert_all-Filled [] f some_bits whole = (
    f,
    refl,
    record {
      count = refl;
      first = refl;
      second = refl;
      len = refl;
      whole = whole;
      reads = λ j below. refl;
    },
  )
  insert_all-Filled (elem ∷ elems) f some_bits whole =
      let (f1, one, filled) =
        insert_loop-Filled f.hash_fn_count 0 (make_hash h f elem) f some_bits whole in
      let (f', all, rest) = insert_all-Filled elems f1 (omega (arith, filled.len)) filled.whole in
      let inserted : insert h elem f ≡ ok f1 = one in
      (
        f',
        rw inserted all,
        record {
          count = rest.count ∙ filled.count;
          first = rest.first ∙ filled.first;
          second = rest.second ∙ filled.second;
          len = rest.len ∙ filled.len;
          whole = rest.whole;
          reads = λ j below.
              rest.reads j (omega (arith, filled.len))
              ∙ rw
                  (
                    selected-Filled f f1
                        (λ i. selects f.bits.len f.hash_fn_count (make_hash h f elem) i 0) elems j
                        filled,
                    filled.reads j below,
                  )
                  (either (selects f.bits.len f.hash_fn_count (make_hash h f elem) j 0)
                    (selected f elems j) (get_bit j f.bits));
        },
      )
