-- ===== src/Base/Int.antt =====
-- `i64` as a signed integer, with its order and its wrapping increment.
use Prim.Native.Nat.{ℕ, zero, suc, ◌-◌, ◌^◌, ◌<◌, compare}
use mathlib.Core.Path.{◌≡◌, refl}
use native.Mathlib.Omega.{arith}
use kip_db.Base.Order.{Ord, Ordering, lt, eq, gt, reverse}
use kip_db.Base.Tests.{ltb, if◌then◌else◌}

-- `negsuc n` is -(n + 1).
pub data ℤ : Type 0 where
  pos : ℕ → ℤ
  negsuc : ℕ → ℤ

abbrev pub i64_max : ℤ
i64_max = pos (2 ^ 63 - 1)

abbrev pub i64_min : ℤ
i64_min = negsuc (2 ^ 63 - 1)

-- The values that an `i64` holds.
abbrev pub IsI64 : ℤ → Type 0
IsI64 (pos n) = n < 2 ^ 63
IsI64 (negsuc n) = n < 2 ^ 63

-- `x.wrapping_add(1)`, what `fetch_add(1)` stores.
abbrev pub i64_inc : ℤ → ℤ
i64_inc (pos n) = if ltb n (2 ^ 63 - 1) then pos (suc n) else i64_min
i64_inc (negsuc zero) = pos 0
i64_inc (negsuc (suc n)) = negsuc n

abbrev pub int_cmp : ℤ → ℤ → Ordering
int_cmp (pos a) (pos b) = compare a b
int_cmp (pos a) (negsuc b) = gt
int_cmp (negsuc a) (pos b) = lt
int_cmp (negsuc a) (negsuc b) = compare b a

pub int_cmp_refl : (a : ℤ) → int_cmp a a ≡ eq
int_cmp_refl (pos a) = ground arith
int_cmp_refl (negsuc a) = ground arith

pub int_eq_of_cmp : (a b : ℤ) → int_cmp a b ≡ eq → a ≡ b
int_eq_of_cmp a b h = ground arith

pub int_cmp_flip : (a b : ℤ) → int_cmp b a ≡ reverse (int_cmp a b)
int_cmp_flip a b = ground arith

pub int_lt_trans : (a b c : ℤ) → int_cmp a b ≡ lt → int_cmp b c ≡ lt → int_cmp a c ≡ lt
int_lt_trans a b c p q = ground arith

instance abbrev pub int_ord : Ord ℤ
int_ord = record {
  cmp = int_cmp;
  cmp_refl = int_cmp_refl;
  eq_of_cmp = int_eq_of_cmp;
  cmp_flip = int_cmp_flip;
  lt_trans = int_lt_trans;
}

-- Below the top of the range the increment is the next greater value.
pub i64_inc-lt : (a : ℤ) → int_cmp a i64_max ≡ lt → int_cmp a (i64_inc a) ≡ lt
i64_inc-lt (pos n) h = ground arith
i64_inc-lt (negsuc zero) h = refl
i64_inc-lt (negsuc (suc n)) h = ground arith
