-- ===== src/Log/Torn.antt =====
-- A log that ends inside a header.
use mathlib.Core.List.{append-nil}
use kip_db.Base.{ℕ, zero, suc, ◌+◌, ◌-◌, ◌≤◌, ◌<◌, ◌≡◌, refl, ap, none, [], ◌∷◌, ◌++◌, arith}
use kip_db.Base.Lists.{length, take, drop}
use kip_db.Base.Order.{Bytes}
use kip_db.Codec.{Fixed32, Crc32}
use kip_db.Log.{header_size, more, read_loop, round, skip}
use kip_db.Log.RoundTrip.{at}

drop_nil : (n : ℕ) → ◌≡◌ {A = Bytes} (drop n []) []
drop_nil zero = refl
drop_nil (suc n) = refl

take_nil : (n : ℕ) → ◌≡◌ {A = Bytes} (take n []) []
take_nil zero = refl
take_nil (suc n) = refl

take_short : (n : ℕ) (b : Bytes) → length b ≤ n → take n b ≡ b
take_short n [] h = take_nil n
take_short zero (x ∷ b) h = absurd (omega arith)
take_short (suc n) (x ∷ b) h = ap (λ t. x ∷ t) (take_short n b (omega arith))

drop_short : (n : ℕ) (b : Bytes) → length b ≤ n → drop n b ≡ []
drop_short n [] h = drop_nil n
drop_short zero (x ∷ b) h = absurd (omega arith)
drop_short (suc n) (x ∷ b) h = drop_short n b (omega arith)

module _ (crc : Crc32) (fixed : Fixed32) (B o : ℕ) (free : o + header_size ≤ B) where
  -- A round that still has no whole header.
  round_more :
      (src dst head : Bytes) (n : ℕ)
      → 0 < length (head ++ take (header_size - length head) src)
      → length (head ++ take (header_size - length head) src) < header_size
      → round crc fixed (at B o src) dst n head
        ≡ more
            (at B o (drop (header_size - length head) src))
            dst
            n
            (head ++ take (header_size - length head) src)
  unfolding round skip
  round_more src dst head n pos part = ground arith

  waiting :
      (fuel n : ℕ) (dst head : Bytes)
      → 0 < length head
      → length head < header_size
      → read_loop crc fixed fuel (at B o []) dst n head ≡ none
  unfolding read_loop
  waiting zero n dst head pos part = refl
  waiting (suc fuel) n dst head pos part =
      let k = header_size - length head in
      let same : head ++ take k [] ≡ head = rw (take_nil k) (append-nil head) in
      rw (read_loop, round_more [] dst head n (rw same pos) (rw same part), same, drop_nil k)
        (waiting fuel n dst head pos part)

  -- A log that ends inside a header is read for ever: no number of rounds is enough.
  pub read_loop-torn :
      (fuel n : ℕ) (dst torn : Bytes)
      → 0 < length torn
      → length torn < header_size
      → read_loop crc fixed fuel (at B o torn) dst n [] ≡ none
  unfolding read_loop
  read_loop-torn zero n dst torn pos part = refl
  read_loop-torn (suc fuel) n dst torn pos part =
      let whole = take_short 9 torn (omega arith) in
      rw
        (
          read_loop,
          round_more torn dst [] n (rw whole pos) (rw whole part),
          whole,
          drop_short 9 torn (omega arith),
        )
        (waiting fuel n dst torn pos part)
