-- ===== src/BitVector.antt =====
-- src/kernel/utils/bloom_filter.rs: the vector of bits. A group of eight bits, an `i8` in the
-- source, is the number below 256 with these bits.
pub mod Bits
use kip_db.Base.{
  ℕ, zero, suc, ◌+◌, ◌*◌, ◌/◌, ◌%◌, Bool, Option, none, some, List, ◌∷◌, [], ◌++◌, map, ltb, ◌==◌,
  if◌then◌else◌,
}
use kip_db.Base.Lists.{length, take, drop, replicate}
use kip_db.Base.Order.{Bytes}
use kip_db.Base.Search.{get_elem?}
use kip_db.Base.Update.{set}
use kip_db.Codec.{FixedInt}
use kip_db.Error.{KernelResult, ok, panic}

-- `x >> n & 1 != 0`
abbrev pub bit : ℕ → ℕ → Bool
bit zero x = x % 2 == 1
bit (suc n) x = bit n (x / 2)

-- `x | 1 << n`
abbrev pub or_bit : ℕ → ℕ → ℕ
or_bit zero x = x / 2 * 2 + 1
or_bit (suc n) x = x % 2 + 2 * or_bit n (x / 2)

-- `x & !(1 << n)`
abbrev pub and_not_bit : ℕ → ℕ → ℕ
and_not_bit zero x = x / 2 * 2
and_not_bit (suc n) x = x % 2 + 2 * and_not_bit n (x / 2)

pub record BitVector : Type 0 where
  pub len : ℕ
  pub bit_groups : List ℕ

-- `BitVector::new`
unfoldable pub create : ℕ → BitVector
create len = record { len = len; bit_groups = replicate ((len + 7) / 8) 0 }

unfoldable pub set_bit : ℕ → Bool → BitVector → KernelResult BitVector
set_bit index value v =
    let byte_index = index / 8 in
    let bit_index = index % 8 in
    elim (get_elem? v.bit_groups byte_index) [
      | none ↦ panic
      | some group ↦ ok (record v {
        bit_groups =
            set v.bit_groups byte_index
              (if value then or_bit bit_index group else and_not_bit bit_index group);
      })
    ]

unfoldable pub get_bit : ℕ → BitVector → KernelResult Bool
get_bit index v = elim (get_elem? v.bit_groups (index / 8)) [
  | none ↦ panic
  | some group ↦ ok (bit (index % 8) group)
]

unfoldable pub is_empty : BitVector → Bool
is_empty v = v.len == 0

module _ (u64 : FixedInt 8) (i8 : FixedInt 1) where
  abbrev pub encode_groups : List ℕ → Bytes
  encode_groups [] = []
  encode_groups (bits ∷ groups) = i8.encode_fixed bits ++ encode_groups groups

  unfoldable pub to_raw : BitVector → Bytes → Bytes
  to_raw v bytes = (bytes ++ u64.encode_fixed v.len) ++ encode_groups v.bit_groups

  unfoldable pub from_raw : Bytes → KernelResult BitVector
  from_raw bytes =
      if ltb (length bytes) 8
      then panic
      else ok (record {
        len = u64.decode_fixed (take 8 bytes);
        bit_groups = map (λ b. i8.decode_fixed (b ∷ [])) (drop 8 bytes);
      })
