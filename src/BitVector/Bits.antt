-- ===== src/BitVector/Bits.antt =====
-- Setting and reading single bits.
use mathlib.Core.Path.{subst}
use kip_db.Base.{
  ℕ, zero, suc, ◌+◌, ◌*◌, ◌/◌, ◌%◌, ◌<◌, ◌≤◌, ◌≡◌, ◌≢◌, inl, inr, refl, ap, ◌∙◌, Bool, true, false,
  Bool-cases, some, List, ◌==◌, if◌then◌else◌, arith,
}
use kip_db.Base.Lists.{length, replicate, length-replicate}
use kip_db.Base.Search.{get_elem?}
use kip_db.Base.Update.{set, get_some, length-set, get_elem?-set_self, get_elem?-set_ne}
use kip_db.BitVector.{bit, or_bit, and_not_bit, BitVector, create, set_bit, get_bit}
use kip_db.Error.{ok}

half : (a b : ℕ) → (a % 2 + 2 * b) / 2 ≡ b
half a b = omega arith

bit-or_bit : (i j x : ℕ) → bit j (or_bit i x) ≡ (if i == j then true else bit j x)
bit-or_bit zero zero x = let e : (x / 2 * 2 + 1) % 2 ≡ 1 = omega arith in rw e refl
bit-or_bit zero (suc j) x = let e : (x / 2 * 2 + 1) / 2 ≡ x / 2 = omega arith in rw e (ground arith)
bit-or_bit (suc i) zero x =
    let e : (x % 2 + 2 * or_bit i (x / 2)) % 2 ≡ x % 2 = omega arith in rw e (ground arith)
bit-or_bit (suc i) (suc j) x =
    rw (half x (or_bit i (x / 2))) (bit-or_bit i j (x / 2) ∙ ground arith)

bit-and_not_bit : (i j x : ℕ) → bit j (and_not_bit i x) ≡ (if i == j then false else bit j x)
bit-and_not_bit zero zero x = let e : x / 2 * 2 % 2 ≡ 0 = omega arith in rw e refl
bit-and_not_bit zero (suc j) x = let e : x / 2 * 2 / 2 ≡ x / 2 = omega arith in rw e (ground arith)
bit-and_not_bit (suc i) zero x =
    let e : (x % 2 + 2 * and_not_bit i (x / 2)) % 2 ≡ x % 2 = omega arith in rw e (ground arith)
bit-and_not_bit (suc i) (suc j) x =
    rw (half x (and_not_bit i (x / 2))) (bit-and_not_bit i j (x / 2) ∙ ground arith)

-- There is a group for every bit.
abbrev pub IsBits : BitVector → Type 0
IsBits v = v.len ≤ 8 * length v.bit_groups

split_index : (i j : ℕ) → i / 8 ≡ j / 8 → (i == j) ≡ (i % 8 == j % 8)
split_index i j h = ground arith

split_ne : (i j : ℕ) → i / 8 ≢ j / 8 → (i == j) ≡ false
split_ne i j h = ground arith

get_bit-in :
    (j : ℕ) (v : BitVector) (group : ℕ)
    → get_elem? v.bit_groups (j / 8) ≡ some group
    → get_bit j v ≡ ok (bit (j % 8) group)
unfolding get_bit
get_bit-in j v group h = rw (get_bit, h) refl

bit-group :
    (i j x : ℕ) (value : Bool)
    → bit j (if value then or_bit i x else and_not_bit i x) ≡ (if i == j then value else bit j x)
bit-group i j x true = bit-or_bit i j x
bit-group i j x false = bit-and_not_bit i j x

ok-if :
    (b value other : Bool) → ok (if b then value else other) ≡ (if b then ok value else ok other)
ok-if true value other = refl
ok-if false value other = refl

set-same :
    (v : BitVector) (i j : ℕ) (value : Bool) (x : ℕ)
    → (i / 8 == j / 8) ≡ true
    → i / 8 < length v.bit_groups
    → get_elem? v.bit_groups (i / 8) ≡ some x
    → get_bit j (record v {
      bit_groups =
          set v.bit_groups (i / 8) (if value then or_bit (i % 8) x else and_not_bit (i % 8) x);
    })
      ≡ (if i == j then ok value else get_bit j v)
set-same v i j value x e below at_i =
    let same : i / 8 ≡ j / 8 = ground arith in
    let x' : ℕ = if value then or_bit (i % 8) x else and_not_bit (i % 8) x in
    let groups : List ℕ = set v.bit_groups (i / 8) x' in
    let new : get_elem? groups (j / 8) ≡ some x' =
      subst (λ b. get_elem? groups b ≡ some x') same
        (get_elem?-set_self v.bit_groups (i / 8) x' below) in
    let old : get_elem? v.bit_groups (j / 8) ≡ some x =
      subst (λ b. get_elem? v.bit_groups b ≡ some x) same at_i in
    get_bit-in j (record v { bit_groups = groups }) x' new
    ∙ ap ok (bit-group (i % 8) (j % 8) x value)
    ∙ rw (get_bit-in j v x old, split_index i j same) (ok-if (i % 8 == j % 8) value (bit (j % 8) x))

-- A bit within the vector is set without a panic: it then reads as the value, every other bit as
-- before, and the length stays.
pub get_bit-set_bit :
    (v : BitVector) (i : ℕ) (value : Bool)
    → IsBits v
    → i < v.len
    → (v' : BitVector) × (set_bit i value v ≡ ok v')
      × ((j : ℕ) → j < v.len → get_bit j v' ≡ (if i == j then ok value else get_bit j v))
      × IsBits v'
      × (v'.len ≡ v.len)
unfolding set_bit
get_bit-set_bit v i value b hi =
    let (x, at_i) = get_some (i / 8) v.bit_groups (omega arith) in
    let x' : ℕ = if value then or_bit (i % 8) x else and_not_bit (i % 8) x in
    let groups : List ℕ = set v.bit_groups (i / 8) x' in
    let v' : BitVector = record v { bit_groups = groups } in
    (
      v',
      rw (set_bit, at_i) refl,
      λ j hj. elim (Bool-cases (i / 8 == j / 8)) [
        | inl e ↦ set-same v i j value x e (omega arith) at_i
        | inr ne ↦
            let (y, at_j) = get_some (j / 8) v.bit_groups (omega arith) in
            let other : i / 8 ≢ j / 8 = λ e. ground arith in
            let same : get_elem? groups (j / 8) ≡ some y =
              get_elem?-set_ne v.bit_groups (i / 8) (j / 8) x' other ∙ at_j in
            rw (get_bit-in j v' y same, get_bit-in j v y at_j, split_ne i j other) refl
      ],
      omega (arith, length-set v.bit_groups (i / 8) x'),
      refl,
    )

pub create-IsBits : (len : ℕ) → IsBits (create len)
unfolding create
create-IsBits len = omega (arith, length-replicate {A = ℕ} ((len + 7) / 8) 0)

pub get_bit-create : (len i : ℕ) → i < len → get_bit i (create len) ≡ ok false
unfolding create
get_bit-create len i h =
    get_bit-in i (create len) 0 (zeros ((len + 7) / 8) (i / 8) (omega arith))
    ∙ ap ok (bit-zero (i % 8))
  where
    zeros : (n i : ℕ) → i < n → get_elem? {A = ℕ} (replicate n 0) i ≡ some 0
    zeros zero i h = absurd (omega arith)
    zeros (suc n) zero h = refl
    zeros (suc n) (suc i) h = zeros n i (omega arith)

    bit-zero : (i : ℕ) → bit i 0 ≡ false
    bit-zero zero = refl
    bit-zero (suc i) = bit-zero i
