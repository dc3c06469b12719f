-- ===== src/Bloom/Raw.antt =====
-- Filters and their bytes.
use mathlib.Core.List.{append_assoc}
use kip_db.Base.{ℕ, ◌^◌, ◌<◌, ◌≡◌, refl, ap, sym, ◌∙◌, false, List, [], ◌∷◌, ◌++◌, map, ltb, arith}
use kip_db.Base.Lists.{length, length-append, take_exact, drop_exact, drop_past}
use kip_db.Base.Order.{Bytes}
use kip_db.BitVector
use kip_db.BitVector.{BitVector, encode_groups}
use kip_db.Bloom.{BloomFilter, to_raw, from_raw}
use kip_db.Codec.{FixedInt}
use kip_db.Error.{ok}

single : (b : Bytes) → length b ≡ 1 → (x : ℕ) × (b ≡ x ∷ [])
single [] h = absurd (omega arith)
single (x ∷ []) h = (x, refl)
single (x ∷ y ∷ b) h = absurd (omega arith)

-- Every number of a list fits a byte.
abbrev pub AreBytes : List ℕ → Type 0
AreBytes [] = Unit
AreBytes (x ∷ xs) = (x < 256) × AreBytes xs

-- The numbers of a filter fit their types.
pub record IsRepresentable (f : BloomFilter) : Type 0 where
  pub count : f.hash_fn_count < 2 ^ 64
  pub first : f.hasher1.seed < 2 ^ 64
  pub second : f.hasher2.seed < 2 ^ 64
  pub len : f.bits.len < 2 ^ 64
  pub groups : AreBytes f.bits.bit_groups

module _ (u64 : FixedInt 8) (i8 : FixedInt 1) where
  decode-encode_groups :
      (groups : List ℕ)
      → AreBytes groups
      → map (λ b. i8.decode_fixed (b ∷ [])) (encode_groups u64 i8 groups) ≡ groups
  decode-encode_groups [] h = refl
  decode-encode_groups (x ∷ groups) (h, hs) =
      let (b, one) = single (i8.encode_fixed x) (i8.length-encode_fixed x) in
      let back : i8.decode_fixed (b ∷ []) ≡ x =
        ap i8.decode_fixed (sym one) ∙ i8.decode-encode_fixed x h in
      rw (one, back, decode-encode_groups groups hs) refl

  vector-back :
      (v : BitVector)
      → v.len < 2 ^ 64
      → AreBytes v.bit_groups
      → BitVector.from_raw u64 i8 (u64.encode_fixed v.len ++ encode_groups u64 i8 v.bit_groups)
        ≡ ok v
  unfolding BitVector.from_raw
  vector-back v h hs =
      let e : Bytes = u64.encode_fixed v.len in
      let groups : Bytes = encode_groups u64 i8 v.bit_groups in
      let size = u64.length-encode_fixed v.len in
      let long : ltb (length (e ++ groups)) 8 ≡ false = ground (arith, length-append e groups) in
      rw
        (
          BitVector.from_raw,
          long,
          take_exact 8 e groups size,
          drop_exact 8 e groups size,
          u64.decode-encode_fixed v.len h,
          decode-encode_groups v.bit_groups hs,
        )
        refl

  -- A filter whose numbers fit their types is read again from its bytes.
  pub from_raw-to_raw :
      (f : BloomFilter) → IsRepresentable f → from_raw u64 i8 (to_raw u64 i8 f []) ≡ ok f
  unfolding to_raw from_raw BitVector.to_raw
  from_raw-to_raw f r =
      let a : Bytes = u64.encode_fixed f.hash_fn_count in
      let b : Bytes = u64.encode_fixed f.hasher1.seed in
      let c : Bytes = u64.encode_fixed f.hasher2.seed in
      let v : Bytes = u64.encode_fixed f.bits.len ++ encode_groups u64 i8 f.bits.bit_groups in
      let a_size = u64.length-encode_fixed f.hash_fn_count in
      let b_size = u64.length-encode_fixed f.hasher1.seed in
      let c_size = u64.length-encode_fixed f.hasher2.seed in
      let whole : to_raw u64 i8 f [] ≡ a ++ (b ++ (c ++ v)) =
        append_assoc ((a ++ b) ++ c) (u64.encode_fixed f.bits.len)
          (encode_groups u64 i8 f.bits.bit_groups)
        ∙ append_assoc (a ++ b) c v
        ∙ append_assoc a b (c ++ v) in
      let long : ltb (length (a ++ (b ++ (c ++ v)))) 24 ≡ false =
        ground
          (arith, length-append a (b ++ (c ++ v)), length-append b (c ++ v), length-append c v) in
      rw
        (
          whole,
          from_raw,
          long,
          drop_past 8 16 a (b ++ (c ++ v)) a_size,
          drop_past 8 8 b (c ++ v) b_size,
          drop_exact 8 c v c_size,
          vector-back f.bits r.len r.groups,
          take_exact 8 a (b ++ (c ++ v)) a_size,
          drop_exact 8 a (b ++ (c ++ v)) a_size,
          take_exact 8 b (c ++ v) b_size,
          drop_past 8 8 a (b ++ (c ++ v)) a_size,
          drop_exact 8 b (c ++ v) b_size,
          take_exact 8 c v c_size,
          u64.decode-encode_fixed f.hash_fn_count r.count,
          u64.decode-encode_fixed f.hasher1.seed r.first,
          u64.decode-encode_fixed f.hasher2.seed r.second,
        )
        refl
