-- ===== src/Log/RoundTrip.antt =====
-- Reading a log back: every record, in order, and then the end of the file.
use mathlib.Core.List.{append_assoc, append-nil}
use kip_db.Base.{
  ℕ, zero, suc, ◌+◌, ◌-◌, ◌*◌, ◌^◌, ◌≤◌, ◌<◌, ◌≡◌, refl, ap, ◌∙◌, Bool-cases, inl, inr, true, false,
  Option, none, some, [], ◌∷◌, ◌++◌, ◌==◌, if◌then◌else◌, arith,
}
use kip_db.Base.Lists.{length, length-append, take, drop}
use kip_db.Base.Order.{Bytes}
use kip_db.Codec.{Fixed32, Crc32}
use kip_db.Error.{ok}
use kip_db.Log.{header_size, header, LogReader, done, more, round, read_loop}
use kip_db.Log.Frames.{start, gap, room, kind, frames, prepend, length-header, length-take}
use kip_db.Log.Reads.{ends-record_type, round_lem}

take-drop : (n : ℕ) (b : Bytes) → take n b ++ drop n b ≡ b
take-drop zero b = refl
take-drop (suc n) [] = refl
take-drop (suc n) (x ∷ b) = ap (λ t. x ∷ t) (take-drop n b)

length-drop : (n : ℕ) (b : Bytes) → length (drop n b) ≡ length b - n
length-drop zero b = omega arith
length-drop (suc n) [] = omega arith
length-drop (suc n) (x ∷ b) = omega (arith, length-drop n b)

take_all : (b : Bytes) → take (length b) b ≡ b
take_all [] = refl
take_all (x ∷ b) = ap (λ t. x ∷ t) (take_all b)

empty_of_length : (b : Bytes) → length b ≡ 0 → b ≡ []
empty_of_length [] h = refl
empty_of_length (x ∷ b) h = absurd (omega arith)

abbrev pub at : ℕ → ℕ → Bytes → LogReader
at B o src = record { src = src; offset = o; block_size = B }

module _ (crc : Crc32) (fixed : Fixed32) (B : ℕ) (big : header_size < B) (small : B < 2 ^ 32) where
  -- Bytes from which the rest `r` of a record is read, whatever follows them.
  abbrev pub Reads : ℕ → Bytes → Option (Bytes × ℕ × ℕ) → Type 0
  Reads o r none = ⊥
  Reads o r (some (out, o', len)) =
      (o' ≤ B)
      × (0 < length out)
      × ((tail dst : Bytes) (n fuel : ℕ)
          → length (out ++ tail) < fuel
          → read_loop crc fixed fuel (at B o (out ++ tail)) dst n []
            ≡ some (at B o' tail, dst ++ r, ok (n + length r)))

  module _ (o len : ℕ) (r : Bytes) (fits : o ≤ B) where
    pub piece : Bytes
    piece =
        gap B o ++ (header crc fixed (kind B o len r) (take (room B o r) r) ++ take (room B o r) r)

    pub after : ℕ
    after = start B o + (header_size + room B o r)

    piece_pos : 0 < length piece
    unfolding piece
    piece_pos =
        let frag = take (room B o r) r in
        let h = header crc fixed (kind B o len r) frag in
        omega (
          arith,
          length-append (gap B o) (h ++ frag),
          length-append h frag,
          length-header crc fixed (kind B o len r) frag,
        )

    room_fits : room B o r ≤ length r
    room_fits = ground arith

    -- The round that reads one fragment.
    fragment_round :
        (rest dst : Bytes) (n : ℕ)
        → round crc fixed (at B o (piece ++ rest)) dst n [] ≡ (
            if room B o r == length r
            then done (at B after rest) (dst ++ take (room B o r) r) (ok (n + room B o r))
            else more (at B after rest) (dst ++ take (room B o r) r) (n + room B o r) [])
    unfolding piece after
    fragment_round rest dst n =
        let k = kind B o len r in
        let m = room B o r in
        let frag = take m r in
        let h = header crc fixed k frag in
        let l : length frag ≡ m = length-take m r (ground arith) in
        let e : piece ++ rest ≡ gap B o ++ (h ++ (frag ++ rest)) =
          append_assoc (gap B o) (h ++ frag) rest
          ∙ ap (λ t. gap B o ++ t) (append_assoc h frag rest) in
        let sum : start B o + header_size + m ≡ start B o + (header_size + m) = omega arith in
        let final =
          round_lem crc fixed (at B o (piece ++ rest)) k frag rest dst n big fits (ground arith)
            e in
        rw (ends-record_type (len == 0) (m == length r), l, sum) at final

    pub last_fragment :
        room B o r ≡ length r
        → Reads o r (prepend piece (some ([], after, header_size + room B o r)))
    unfolding piece after read_loop
    last_fragment h = (
      ground arith,
      omega (arith, length-append piece [], piece_pos),
      λ tail dst n fuel enough. last_lem tail dst n fuel enough,
    )
      where
        last_lem :
            (tail dst : Bytes) (n fuel : ℕ)
            → length ((piece ++ []) ++ tail) < fuel
            → read_loop crc fixed fuel (at B o ((piece ++ []) ++ tail)) dst n []
              ≡ some (at B after tail, dst ++ r, ok (n + length r))
        last_lem tail dst n zero enough = absurd (omega arith)
        last_lem tail dst n (suc fuel) enough =
            let whole : take (room B o r) r ≡ r = rw h (take_all r) in
            let test : (room B o r == length r) ≡ true = ground arith in
            rw (append-nil piece, read_loop, fragment_round tail dst n, test, whole, h)

    pub next_fragment :
        (f : Option (Bytes × ℕ × ℕ))
        → (room B o r == length r) ≡ false
        → Reads after (drop (room B o r) r) f
        → Reads o r (prepend piece f)
    unfolding read_loop
    next_fragment none h i = i
    next_fragment (some (out, o', len')) h (within, pos, i) =
        (within, omega (arith, length-append piece out, piece_pos), next_lem)
      where
        next_lem :
            (tail dst : Bytes) (n fuel : ℕ)
            → length ((piece ++ out) ++ tail) < fuel
            → read_loop crc fixed fuel (at B o ((piece ++ out) ++ tail)) dst n []
              ≡ some (at B o' tail, dst ++ r, ok (n + length r))
        next_lem tail dst n zero enough = absurd (omega arith)
        next_lem tail dst n (suc fuel) enough =
            let m = room B o r in
            let rest = i tail (dst ++ take m r) (n + m) fuel (
              omega (
                arith,
                length-append (piece ++ out) tail,
                length-append piece out,
                length-append out tail,
                piece_pos,
              )) in
            let text : (dst ++ take m r) ++ drop m r ≡ dst ++ r =
              append_assoc dst (take m r) (drop m r) ∙ ap (λ t. dst ++ t) (take-drop m r) in
            let count : n + m + length (drop m r) ≡ n + length r =
              omega (arith, length-drop m r, room_fits) in
            rw (
              append_assoc piece out tail,
              read_loop,
              fragment_round (out ++ tail) dst n,
              h,
              rest,
              text,
              count,
            )

  abbrev measure : ℕ → Bytes → ℕ
  measure o r = 2 * length r + (if room B o r == 0 then 1 else 0)

  pub frames-Reads :
      (fuel o len : ℕ) (r : Bytes)
      → o ≤ B
      → 0 < length r
      → measure o r < fuel
      → Reads o r (frames crc fixed fuel B o len r)
  unfolding frames piece after
  frames-Reads fuel o len [] fits pos enough = absurd (omega arith)
  frames-Reads zero o len (x ∷ r) fits pos enough = absurd (omega arith)
  frames-Reads (suc fuel) o len (x ∷ r) fits pos enough =
      let m = room B o (x ∷ r) in
      let left = length-drop m (x ∷ r) in
      elim (Bool-cases (m == length (x ∷ r))) [
        | inl whole ↦
            let none_left : drop m (x ∷ r) ≡ [] =
              empty_of_length (drop m (x ∷ r)) (ground (arith, left)) in
            rw none_left (last_fragment o len (x ∷ r) fits (ground arith))
        | inr part ↦ next_fragment o len (x ∷ r) fits _ part (
            frames-Reads fuel (start B o + (header_size + m)) (header_size + m) (drop m (x ∷ r))
              (ground arith) (ground (arith, left)) (ground (arith, left)))
      ]
