-- ===== src/Base/Order.antt =====
-- Rust's `Ord`: `cmp` into `Ordering`, with the laws that the trait documents, and its instances
-- for integers and byte strings.
use Prim.Native.Nat.{ℕ, compare}
use mathlib.Core.Path.{◌≡◌, refl}
use mathlib.Core.Logic.{◌≢◌, ◌↔◌, ◌⊎◌, inl, inr}
use mathlib.Core.Bool.{Bool, true, false}
use mathlib.Core.List.{List, [], ◌∷◌}
use native.Mathlib.Omega.{arith}
pub use Prim.Native.Nat.{Ordering}
pub use Prim.Native.Nat.Ordering.{lt, eq, gt}

pub Ordering-cases : (c : Ordering) → (c ≡ lt) ⊎ (c ≡ eq) ⊎ (c ≡ gt)
Ordering-cases lt = inl refl
Ordering-cases eq = inr (inl refl)
Ordering-cases gt = inr (inr refl)

-- `Ordering::then_with`
abbrev pub then_with : Ordering → Ordering → Ordering
then_with eq o = o
then_with lt o = lt
then_with gt o = gt

-- `Ordering::reverse`
abbrev pub reverse : Ordering → Ordering
reverse lt = gt
reverse eq = eq
reverse gt = lt

pub record Ord {ℓ} (A : Type ℓ) : Type ℓ where
  pub cmp : A → A → Ordering
  pub cmp_refl : (a : A) → cmp a a ≡ eq
  pub eq_of_cmp : (a b : A) → cmp a b ≡ eq → a ≡ b
  pub cmp_flip : (a b : A) → cmp b a ≡ reverse (cmp a b)
  pub lt_trans : (a b c : A) → cmp a b ≡ lt → cmp b c ≡ lt → cmp a c ≡ lt

module _ {ℓ} {A : Type ℓ} ⦃o : Ord A⦄ where
  abbrev pub cmp : A → A → Ordering
  cmp = o.cmp

  abbrev pub is_lt : A → A → Bool
  is_lt a b = elim (o.cmp a b) [ lt ↦ true | _ ↦ false ]

  abbrev pub is_le : A → A → Bool
  is_le a b = elim (o.cmp a b) [ gt ↦ false | _ ↦ true ]

  abbrev pub is_eq : A → A → Bool
  is_eq a b = elim (o.cmp a b) [ eq ↦ true | _ ↦ false ]

pub nat_cmp_refl : (a : ℕ) → compare a a ≡ eq
nat_cmp_refl a = ground arith

pub nat_eq_of_cmp : (a b : ℕ) → compare a b ≡ eq → a ≡ b
nat_eq_of_cmp a b h = ground arith

pub nat_cmp_flip : (a b : ℕ) → compare b a ≡ reverse (compare a b)
nat_cmp_flip a b = ground arith

pub nat_lt_trans : (a b c : ℕ) → compare a b ≡ lt → compare b c ≡ lt → compare a c ≡ lt
nat_lt_trans a b c p q = ground arith

instance abbrev pub nat_ord : Ord ℕ
nat_ord = record {
  cmp = compare;
  cmp_refl = nat_cmp_refl;
  eq_of_cmp = nat_eq_of_cmp;
  cmp_flip = nat_cmp_flip;
  lt_trans = nat_lt_trans;
}

-- Byte strings, `Bytes` and `[u8]`, in lexicographic order.
abbrev pub Bytes : Type 0
Bytes = List ℕ

abbrev pub bytes_cmp : Bytes → Bytes → Ordering
bytes_cmp [] [] = eq
bytes_cmp [] (y ∷ ys) = lt
bytes_cmp (x ∷ xs) [] = gt
bytes_cmp (x ∷ xs) (y ∷ ys) = then_with (compare x y) (bytes_cmp xs ys)

pub bytes_cmp_refl : (a : Bytes) → bytes_cmp a a ≡ eq
bytes_cmp_refl [] = refl
bytes_cmp_refl (x ∷ xs) = ground (arith, bytes_cmp_refl xs)

pub bytes_eq_of_cmp : (a b : Bytes) → bytes_cmp a b ≡ eq → a ≡ b
bytes_eq_of_cmp [] [] h = refl
bytes_eq_of_cmp [] (y ∷ ys) h = ground arith
bytes_eq_of_cmp (x ∷ xs) [] h = ground arith
bytes_eq_of_cmp (x ∷ xs) (y ∷ ys) h = ground (arith, bytes_eq_of_cmp xs ys)

pub bytes_cmp_flip : (a b : Bytes) → bytes_cmp b a ≡ reverse (bytes_cmp a b)
bytes_cmp_flip [] [] = refl
bytes_cmp_flip [] (y ∷ ys) = refl
bytes_cmp_flip (x ∷ xs) [] = refl
bytes_cmp_flip (x ∷ xs) (y ∷ ys) = ground (arith, bytes_cmp_flip xs ys)

pub bytes_lt_trans : (a b c : Bytes) → bytes_cmp a b ≡ lt → bytes_cmp b c ≡ lt → bytes_cmp a c ≡ lt
bytes_lt_trans [] [] c p q = ground arith
bytes_lt_trans [] (y ∷ ys) [] p q = ground arith
bytes_lt_trans [] (y ∷ ys) (z ∷ zs) p q = refl
bytes_lt_trans (x ∷ xs) [] c p q = ground arith
bytes_lt_trans (x ∷ xs) (y ∷ ys) [] p q = ground arith
bytes_lt_trans (x ∷ xs) (y ∷ ys) (z ∷ zs) p q = ground (arith, bytes_lt_trans xs ys zs)

instance abbrev pub bytes_ord : Ord Bytes
bytes_ord = record {
  cmp = bytes_cmp;
  cmp_refl = bytes_cmp_refl;
  eq_of_cmp = bytes_eq_of_cmp;
  cmp_flip = bytes_cmp_flip;
  lt_trans = bytes_lt_trans;
}

-- Derived facts that the sorted containers use.
module _ {ℓ} {A : Type ℓ} ⦃o : Ord A⦄ where
  pub is_eq_iff : (a b : A) → (is_eq a b ≡ true) ↔ (a ≡ b)
  is_eq_iff a b = (λ h. o.eq_of_cmp a b (ground arith), λ e. ground (arith, o.cmp_refl a))

  pub lt_irrefl : (a : A) → o.cmp a a ≢ lt
  lt_irrefl a h = ground (arith, o.cmp_refl a)

  pub lt_of_gt : (a b : A) → o.cmp a b ≡ gt → o.cmp b a ≡ lt
  lt_of_gt a b h = rw (o.cmp_flip a b, h)

  pub gt_of_lt : (a b : A) → o.cmp a b ≡ lt → o.cmp b a ≡ gt
  gt_of_lt a b h = rw (o.cmp_flip a b, h)

  pub gt_trans : (a b c : A) → o.cmp a b ≡ gt → o.cmp b c ≡ gt → o.cmp a c ≡ gt
  gt_trans a b c p q = gt_of_lt c a (o.lt_trans c b a (lt_of_gt b c q) (lt_of_gt a b p))

  pub le_refl : (a : A) → is_le a a ≡ true
  le_refl a = ground (arith, o.cmp_refl a)

  pub le_of_lt : (a b : A) → o.cmp a b ≡ lt → is_le a b ≡ true
  le_of_lt a b h = ground arith

  pub le_trans : (a b c : A) → is_le a b ≡ true → is_le b c ≡ true → is_le a c ≡ true
  le_trans a b c p q = ground (arith, o.eq_of_cmp a b, o.eq_of_cmp b c, o.lt_trans a b c)

  pub le_antisymm : (a b : A) → is_le a b ≡ true → is_le b a ≡ true → a ≡ b
  le_antisymm a b p q = ground (arith, o.cmp_flip a b, o.eq_of_cmp a b)

  pub le_total : (a b : A) → is_le a b ≡ false → is_le b a ≡ true
  le_total a b h = ground (arith, o.cmp_flip a b)

  pub lt-le : (a b : A) → is_lt a b ≡ true → is_le a b ≡ true
  lt-le a b h = ground arith

  pub not_lt-le : (a b : A) → is_lt a b ≡ false → is_le b a ≡ true
  not_lt-le a b h = ground (arith, o.cmp_flip a b)

  -- `a >= b`
  abbrev pub is_ge : A → A → Bool
  is_ge a b = elim (o.cmp a b) [ lt ↦ false | _ ↦ true ]

  pub is_ge-is_le : (a b : A) → is_ge a b ≡ is_le b a
  is_ge-is_le a b = ground (arith, o.cmp_flip a b)

-- `std::collections::Bound`
pub data Bound {ℓ} (A : Type ℓ) : Type ℓ where
  included : A → Bound A
  excluded : A → Bound A
  unbounded : Bound A

module _ {ℓ} {K : Type ℓ} ⦃o : Ord K⦄ where
  -- An element within a bound from below, and from above.
  abbrev pub over : Bound K → K → Bool
  over (included a) k = is_le a k
  over (excluded a) k = is_lt a k
  over unbounded k = true

  abbrev pub under : Bound K → K → Bool
  under (included a) k = is_le k a
  under (excluded a) k = is_lt k a
  under unbounded k = true
