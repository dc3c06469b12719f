-- ===== src/Codec.antt =====
-- The functions of the crates integer-encoding and crc32fast that the code calls, as interfaces:
-- operations with the laws that the crates document. `Codec.Little` has functions that meet
-- them.
pub mod Little
use kip_db.Base.{ℕ, ◌^◌, ◌<◌, ◌≡◌, Option, some, ◌++◌, List, ◌%◌}
use kip_db.Base.Lists.{length}
use kip_db.Base.Order.{Bytes}

-- `write_varint` and `read_varint` at `u32`. A reader that holds no whole number is an error.
pub record VarInt : Type 0 where
  pub encode : ℕ → Bytes
  pub decode : Bytes → Option (ℕ × Bytes)
  pub decode-encode :
      (n : ℕ) (rest : Bytes) → n < 2 ^ 32 → decode (encode n ++ rest) ≡ some (n, rest)
  pub decode-shrinks :
      (b : Bytes) (n : ℕ) (rest : Bytes) → decode b ≡ some (n, rest) → length rest < length b

-- `encode_fixed_vec` and `decode_fixed` at `u32`, and `crc32fast::hash`.
pub record Fixed32 : Type 0 where
  pub encode_fixed : ℕ → Bytes
  pub decode_fixed : Bytes → ℕ
  pub length-encode_fixed : (n : ℕ) → length (encode_fixed n) ≡ 4
  pub decode-encode_fixed : (n : ℕ) → n < 2 ^ 32 → decode_fixed (encode_fixed n) ≡ n

pub record Crc32 : Type 0 where
  pub hash : Bytes → ℕ
  pub hash-lt : (b : Bytes) → hash b < 2 ^ 32

-- `encode_fixed_vec` and `decode_fixed` at a type of the given number of bytes; a signed number
-- stands as the unsigned one with the same bits.
pub record FixedInt (w : ℕ) : Type 0 where
  pub encode_fixed : ℕ → Bytes
  pub decode_fixed : Bytes → ℕ
  pub length-encode_fixed : (n : ℕ) → length (encode_fixed n) ≡ w
  pub decode-encode_fixed : (n : ℕ) → n < 256 ^ w → decode_fixed (encode_fixed n) ≡ n
