-- ===== src/Log/Frames.antt =====
-- The bytes that the log writer writes.
use kip_db.Base.{
  ℕ, zero, suc, ◌+◌, ◌-◌, ◌≤◌, ◌<◌, ◌≡◌, refl, ap, true, false, ◌&&◌, not, Option, none, some, [],
  ◌∷◌, ◌++◌, ltb, ◌==◌, if◌then◌else◌, arith,
}
use kip_db.Base.Lists.{length, length-append, take, drop, replicate}
use kip_db.Base.Order.{Bytes}
use kip_db.Codec.{Fixed32, Crc32}
use kip_db.Error.{KernelResult, ok}
use kip_db.Log.{
  Io, LogWriter, RecordType, header_size, min, bind, record_type, header, fill_up, emit_record,
  add_loop, write_round,
}

-- A destination that takes every write: `append` is what a write does to it, and `contents` what a
-- reader finds.
pub record Takes (io : Io) : Type 0 where
  pub append : Bytes → io.Dst → io.Dst
  pub append-nil : (d : io.Dst) → append [] d ≡ d
  pub append-append : (b c : Bytes) (d : io.Dst) → append c (append b d) ≡ append (b ++ c) d
  pub contents : io.Dst → Bytes
  pub contents-append : (b : Bytes) (d : io.Dst) → contents (append b d) ≡ contents d ++ b
  pub write-append : (b : Bytes) (d : io.Dst) → io.write b d ≡ (append b d, ok (length b))
  pub write_all-append : (b : Bytes) (d : io.Dst) → io.write_all b d ≡ (append b d, ok tt)

-- Where a fragment starts in a block of size `B` after the offset `o`, and what fills the gap.
abbrev pub start : ℕ → ℕ → ℕ
start B o = if ltb (B - o) header_size then 0 else o

abbrev pub gap : ℕ → ℕ → Bytes
gap B o = if ltb (B - o) header_size then replicate (B - o) 0 else []

-- How much of a record goes into the next fragment.
abbrev pub room : ℕ → ℕ → Bytes → ℕ
room B o r = min (length r) (B - start B o - header_size)

abbrev pub kind : ℕ → ℕ → ℕ → Bytes → RecordType
kind B o len r = record_type (len == 0) (room B o r == length r)

abbrev pub prepend : Bytes → Option (Bytes × ℕ × ℕ) → Option (Bytes × ℕ × ℕ)
prepend before none = none
prepend before (some (out, o, len)) = some (before ++ out, o, len)

module _ (crc : Crc32) (fixed : Fixed32) where
  -- The bytes for a record, the offset after it and the length of the last fragment.
  unfoldable pub frames : ℕ → ℕ → ℕ → ℕ → Bytes → Option (Bytes × ℕ × ℕ)
  frames fuel B o len [] = some ([], o, len)
  frames zero B o len (x ∷ r) = none
  frames (suc fuel) B o len (x ∷ r) =
      let n = room B o (x ∷ r) in
      let frag = take n (x ∷ r) in
      prepend (gap B o ++ (header crc fixed (kind B o len (x ∷ r)) frag ++ frag))
        (frames fuel B (start B o + (header_size + n)) (header_size + n) (drop n (x ∷ r)))

  pub length-header :
      (t : RecordType) (frag : Bytes) → length (header crc fixed t frag) ≡ header_size
  unfolding header
  length-header t frag = omega (arith, length-append {0}, fixed.length-encode_fixed)

pub length-take : (n : ℕ) (b : Bytes) → n ≤ length b → length (take n b) ≡ n
length-take zero b h = refl
length-take (suc n) [] h = omega arith
length-take (suc n) (x ∷ b) h = omega (arith, length-take n b)

replicate_none : (n : ℕ) → ltb 0 n ≡ false → ◌≡◌ {A = Bytes} (replicate n 0) []
replicate_none zero h = refl
replicate_none (suc n) h = ground arith

module _ {io : Io} (t : Takes io) (w : LogWriter io)
    (fits : w.current_block_offset ≤ w.block_size) where
  fill_up-gap : fill_up w ≡ (
    record w {
      dst = t.append (gap w.block_size w.current_block_offset) w.dst;
      current_block_offset = start w.block_size w.current_block_offset;
    },
    ok tt,
  )
  unfolding fill_up
  fill_up-gap =
      let space_left = w.block_size - w.current_block_offset in
      ground (
        arith,
        t.write_all-append (replicate space_left 0) w.dst,
        t.append-nil w.dst,
        replicate_none space_left,
      )

  emit_record-append :
      (crc : Crc32) (fixed : Fixed32) (k : RecordType) (b : Bytes) (n : ℕ)
      → n ≤ length b
      → emit_record crc fixed w k b n ≡ (
        record w {
          dst = t.append (header crc fixed k (take n b) ++ take n b) w.dst;
          current_block_offset = w.current_block_offset + (header_size + n);
        },
        ok (header_size + n),
      )
  unfolding emit_record
  emit_record-append crc fixed k b n h =
      let frag = take n b in
      let head = header crc fixed k frag in
      ground (
        arith,
        t.write-append head w.dst,
        t.write-append frag (t.append head w.dst),
        t.append-append head frag w.dst,
        length-header crc fixed k frag,
        length-take n b,
      )

module _ {io : Io} (t : Takes io) where
  write_round-append :
      (crc : Crc32) (fixed : Fixed32) (w : LogWriter io) (r : Bytes) (len : ℕ)
      → w.current_block_offset ≤ w.block_size
      → let B = w.block_size in
        let o = w.current_block_offset in
        let n = room B o r in
        let frag = take n r in
        write_round crc fixed w r len ≡ (
          record w {
            dst = t.append (gap B o ++ (header crc fixed (kind B o len r) frag ++ frag)) w.dst;
            current_block_offset = start B o + (header_size + n);
          },
          ok (n, header_size + n),
        )
  unfolding write_round
  write_round-append crc fixed w r len fits =
      let B = w.block_size in
      let o = w.current_block_offset in
      let n = room B o r in
      let k = kind B o len r in
      let w' : LogWriter io = record w {
        dst = t.append (gap B o) w.dst;
        current_block_offset = start B o;
      } in
      let emitted = emit_record-append t w' (ground arith) crc fixed k r n (ground arith) in
      rw
        (
          fill_up-gap t w fits,
          ← t.append-append (gap B o) (header crc fixed k (take n r) ++ take n r) w.dst,
        )
        (ap (λ (e : LogWriter io × KernelResult ℕ). bind e (λ w'' len'. (w'', ok (n, len'))))
          emitted)

  -- What `add_loop` returns, from the bytes of the fragments.
  abbrev pub written :
      LogWriter io → Option (Bytes × ℕ × ℕ) → Option (LogWriter io × KernelResult ℕ)
  written w none = none
  written w (some (out, o, len)) =
      some (record w { dst = t.append out w.dst; current_block_offset = o }, ok len)

  -- The bytes of two writes.
  written-written :
      (w : LogWriter io) (before : Bytes) (o : ℕ) (f : Option (Bytes × ℕ × ℕ))
      → written (record w { dst = t.append before w.dst; current_block_offset = o }) f
        ≡ written w (prepend before f)
  written-written w before o none = refl
  written-written w before o (some (out, o', len')) = rw (t.append-append before out w.dst) refl

  pub add_loop-frames :
      (crc : Crc32) (fixed : Fixed32) (fuel : ℕ) (w : LogWriter io) (r : Bytes) (len : ℕ)
      → header_size < w.block_size
      → w.current_block_offset ≤ w.block_size
      → add_loop crc fixed fuel w r len
        ≡ written w (frames crc fixed fuel w.block_size w.current_block_offset len r)
  unfolding add_loop frames
  add_loop-frames crc fixed fuel w [] len big fits = rw (t.append-nil w.dst) refl
  add_loop-frames crc fixed zero w (x ∷ r) len big fits = refl
  add_loop-frames crc fixed (suc fuel) w (x ∷ r) len big fits =
      let B = w.block_size in
      let o = w.current_block_offset in
      let n = room B o (x ∷ r) in
      let frag = take n (x ∷ r) in
      let bytes = header crc fixed (kind B o len (x ∷ r)) frag ++ frag in
      let w' : LogWriter io = record w {
        dst = t.append (gap B o ++ bytes) w.dst;
        current_block_offset = start B o + (header_size + n);
      } in
      let ih =
        add_loop-frames crc fixed fuel w' (drop n (x ∷ r)) (header_size + n) big (ground arith) in
      let guard : (ltb header_size B && not (ltb B o)) ≡ true = ground arith in
      rw (add_loop, guard, write_round-append crc fixed w (x ∷ r) len fits, ih)
        (written-written w (gap B o ++ bytes) (start B o + (header_size + n)) (
          frames crc fixed fuel B (start B o + (header_size + n)) (header_size + n)
            (drop n (x ∷ r))))
