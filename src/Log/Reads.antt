-- ===== src/Log/Reads.antt =====
-- Records that were written to a log are read again.
use mathlib.Core.List.{append_assoc}
use kip_db.Base.{
  ℕ, ◌+◌, ◌-◌, ◌%◌, ◌^◌, ◌≤◌, ◌<◌, ◌≡◌, refl, Bool, true, false, [], ◌∷◌, ◌++◌, ltb, if◌then◌else◌,
  arith,
}
use kip_db.Base.Lists.{
  length, length-append, take, drop, replicate, take-append, drop-append, take_exact, drop_exact,
  length-replicate,
}
use kip_db.Base.Order.{Bytes}
use kip_db.Codec.{Fixed32, Crc32}
use kip_db.Error.{ok}
use kip_db.Log.{
  RecordType, header_size, record_type, header, LogReader, done, more, skip, read_fragment, round,
  as_u8, from_u8,
}
use kip_db.Log.Frames.{start, gap, length-header}

from_u8-as_u8 : (t : RecordType) → from_u8 (as_u8 t) ≡ ok t
unfolding from_u8 as_u8
from_u8-as_u8 RecordType.full = refl
from_u8-as_u8 RecordType.first = refl
from_u8-as_u8 RecordType.middle = refl
from_u8-as_u8 RecordType.last = refl

-- Whether a fragment ends its record.
abbrev pub ends : RecordType → Bool
ends RecordType.full = true
ends RecordType.first = false
ends RecordType.middle = false
ends RecordType.last = true

pub ends-record_type : (a b : Bool) → ends (record_type a b) ≡ b
unfolding record_type
ends-record_type true true = refl
ends-record_type true false = refl
ends-record_type false true = refl
ends-record_type false false = refl

module _ (crc : Crc32) (fixed : Fixed32) where
  header_fields :
      (t : RecordType) (frag : Bytes)
      → length frag < 2 ^ 32
      → let h = header crc fixed t frag in
        (fixed.decode_fixed (take 4 h) ≡ crc.hash frag)
        × (fixed.decode_fixed (take 4 (drop 4 h)) ≡ length frag)
        × (drop 8 h ≡ as_u8 t ∷ [])
  unfolding header
  header_fields t frag small =
      let e1 = fixed.encode_fixed (crc.hash frag) in
      let n = length frag % 2 ^ 32 in
      let e2 = fixed.encode_fixed n in
      let l1 = fixed.length-encode_fixed (crc.hash frag) in
      let l2 = fixed.length-encode_fixed n in
      (
        rw (take_exact 4 e1 (e2 ++ as_u8 t ∷ []) l1)
            (fixed.decode-encode_fixed (crc.hash frag) (crc.hash-lt frag)),
        rw
            (
              drop_exact 4 e1 (e2 ++ as_u8 t ∷ []) l1,
              take_exact 4 e2 (as_u8 t ∷ []) l2,
              fixed.decode-encode_fixed n (omega arith),
            )
            (omega arith),
        rw (← append_assoc e1 e2 (as_u8 t ∷ []))
            (drop_exact 8 (e1 ++ e2) (as_u8 t ∷ []) (omega (arith, length-append e1 e2))),
      )

  -- A header `h` with the fields of a fragment.
  fragment_lem :
      (r : LogReader) (t : RecordType) (frag rest dst h : Bytes) (n : ℕ)
      → r.src ≡ frag ++ rest
      → fixed.decode_fixed (take 4 h) ≡ crc.hash frag
      → fixed.decode_fixed (take 4 (drop 4 h)) ≡ length frag
      → drop 8 h ≡ as_u8 t ∷ []
      → let next : LogReader = record r {
        src = rest;
        offset = r.offset + header_size + length frag;
      } in
        read_fragment crc fixed r dst n h ≡ (
          if ends t
          then done next (dst ++ frag) (ok (n + length frag))
          else more next (dst ++ frag) (n + length frag) [])
  unfolding read_fragment
  fragment_lem r t frag rest dst h n e sum size type = ground (
    arith,
    take-append frag rest,
    drop-append frag rest,
    length-append frag rest,
    from_u8-as_u8 t,
  )

  skip-gap :
      (r : LogReader) (rest : Bytes)
      → r.src ≡ gap r.block_size r.offset ++ rest
      → skip r ≡ record r { src = rest; offset = start r.block_size r.offset }
  unfolding skip
  skip-gap r rest e =
      let left = r.block_size - r.offset in
      ground (arith, drop_exact left (replicate left 0) rest (length-replicate left 0))

  pub round_lem :
      (r : LogReader) (t : RecordType) (frag rest dst : Bytes) (n : ℕ)
      → header_size < r.block_size
      → r.offset ≤ r.block_size
      → length frag < 2 ^ 32
      → r.src ≡ gap r.block_size r.offset ++ (header crc fixed t frag ++ (frag ++ rest))
      → let next : LogReader = record r {
        src = rest;
        offset = start r.block_size r.offset + header_size + length frag;
      } in
        round crc fixed r dst n [] ≡ (
          if ends t
          then done next (dst ++ frag) (ok (n + length frag))
          else more next (dst ++ frag) (n + length frag) [])
  unfolding round
  round_lem r t frag rest dst n big fits small e =
      let B = r.block_size in
      let h = header crc fixed t frag in
      let (sum, size, type) = header_fields t frag small in
      let r' : LogReader = record r { src = frag ++ rest; offset = start B r.offset } in
      let length_h = length-header crc fixed t frag in
      let within : ltb B r.offset ≡ false = ground arith in
      let head = take_exact 9 h (frag ++ rest) length_h in
      let tail = drop_exact 9 h (frag ++ rest) length_h in
      rw (round, skip-gap r (h ++ (frag ++ rest)) e, within, head, tail, length_h)
        (fragment_lem r' t frag rest dst h n refl sum size type)
