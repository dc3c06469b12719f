-- ===== src/Codec/Little.antt =====
-- The least significant byte first: encodings that meet the interfaces.
use kip_db.Base.{
  ℕ, zero, suc, ◌+◌, ◌*◌, ◌/◌, ◌%◌, ◌^◌, ◌<◌, ◌≡◌, Option, none, some, [], ◌∷◌, ◌++◌, refl, ap,
  arith,
}
use kip_db.Base.Lists.{length}
use kip_db.Codec.{VarInt, Fixed32, FixedInt}
use kip_db.Base.Order.{Bytes}

abbrev pub encode : ℕ → Bytes
encode n = n % 256 ∷ n / 256 % 256 ∷ n / 65536 % 256 ∷ n / 16777216 % 256 ∷ []

abbrev number : ℕ → ℕ → ℕ → ℕ → ℕ
number a b c d = a + 256 * b + 65536 * c + 16777216 * d

abbrev pub decode : Bytes → Option (ℕ × Bytes)
decode (a ∷ b ∷ c ∷ d ∷ rest) = some (number a b c d, rest)
decode _ = none

abbrev pub decode_fixed : Bytes → ℕ
decode_fixed (a ∷ b ∷ c ∷ d ∷ rest) = number a b c d
decode_fixed _ = 0

pub number-encode :
    (n : ℕ)
    → n < 2 ^ 32
    → number (n % 256) (n / 256 % 256) (n / 65536 % 256) (n / 16777216 % 256) ≡ n
number-encode n h = omega arith

pub decode-encode : (n : ℕ) (rest : Bytes) → n < 2 ^ 32 → decode (encode n ++ rest) ≡ some (n, rest)
decode-encode n rest h = ap (λ (k : ℕ). some (k, rest)) (number-encode n h)

pub decode-shrinks :
    (b : Bytes) (n : ℕ) (rest : Bytes) → decode b ≡ some (n, rest) → length rest < length b
decode-shrinks (a ∷ b ∷ c ∷ d ∷ r) n rest h = ground arith
decode-shrinks [] n rest h = ground arith
decode-shrinks (a ∷ []) n rest h = ground arith
decode-shrinks (a ∷ b ∷ []) n rest h = ground arith
decode-shrinks (a ∷ b ∷ c ∷ []) n rest h = ground arith

abbrev pub little_varint : VarInt
little_varint = record {
  encode = encode;
  decode = decode;
  decode-encode = decode-encode;
  decode-shrinks = decode-shrinks;
}

abbrev pub little_fixed : Fixed32
little_fixed = record {
  encode_fixed = encode;
  decode_fixed = decode_fixed;
  length-encode_fixed = λ n. refl;
  decode-encode_fixed = number-encode;
}

-- Any number of bytes.
abbrev pub digits : ℕ → ℕ → Bytes
digits zero n = []
digits (suc w) n = n % 256 ∷ digits w (n / 256)

abbrev pub from_digits : Bytes → ℕ
from_digits [] = 0
from_digits (b ∷ bytes) = b + 256 * from_digits bytes

pub length-digits : (w n : ℕ) → length (digits w n) ≡ w
length-digits zero n = refl
length-digits (suc w) n = omega (arith, length-digits w (n / 256))

power_suc : (w : ℕ) → 256 ^ suc w ≡ 256 * 256 ^ w
power_suc w = grind arith

pub from_digits-digits : (w n : ℕ) → n < 256 ^ w → from_digits (digits w n) ≡ n
from_digits-digits zero n h = omega arith
from_digits-digits (suc w) n h =
    let e : 256 ^ suc w ≡ 256 * 256 ^ w = power_suc w in
    let rest = from_digits-digits w (n / 256) (omega arith) in omega arith

abbrev pub little : (w : ℕ) → FixedInt w
little w = record {
  encode_fixed = digits w;
  decode_fixed = from_digits;
  length-encode_fixed = length-digits w;
  decode-encode_fixed = from_digits-digits w;
}
