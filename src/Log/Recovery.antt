-- ===== src/Log/Recovery.antt =====
-- A log that was written is loaded again.
use kip_db.Base.{
  ℕ, zero, suc, ◌+◌, ◌-◌, ◌^◌, ◌≤◌, ◌<◌, ◌≡◌, refl, ◌∙◌, true, Option, none, some, List, [], ◌∷◌,
  ◌++◌, ltb, arith,
}
use kip_db.Base.Lists.{length, length-append, drop}
use kip_db.Base.Order.{Bytes}
use kip_db.Codec.{Fixed32, Crc32}
use kip_db.Error.{KernelResult, ok, err, panic, ◌>>=◌}
use kip_db.Log.{
  Io, LogWriter, header_size, done, create, add_record, read, read_loop, round, skip, load,
  load_loop, open_reader,
}
use kip_db.Log.Frames.{Takes, written, add_loop-frames, start}
use kip_db.Log.RoundTrip.{Reads, frames-Reads, at}

-- Writes the records one after another; `none` if one of them fails.
abbrev pub add_all : {io : Io} → Crc32 → Fixed32 → LogWriter io → List Bytes → Option (LogWriter io)
add_all crc fixed w [] = some w
add_all crc fixed w (r ∷ records) = elim (add_record crc fixed w r) [
  | some (w', ok _) ↦ add_all crc fixed w' records
  | _ ↦ none
]

-- Decodes them one after another.
abbrev pub decode_all :
    {R : Type 0}
    → (Bytes → List R → KernelResult (List R))
    → List Bytes
    → List R
    → KernelResult (List R)
decode_all fn_decode [] done_records = ok done_records
decode_all fn_decode (b ∷ records) done_records =
    fn_decode b done_records >>= decode_all fn_decode records

abbrev pub AllNonEmpty : List Bytes → Type 0
AllNonEmpty [] = Unit
AllNonEmpty (r ∷ records) = (0 < length r) × AllNonEmpty records

drop_nil : (n : ℕ) → ◌≡◌ {A = Bytes} (drop n []) []
drop_nil zero = refl
drop_nil (suc n) = refl

module _ (crc : Crc32) (fixed : Fixed32) (B : ℕ) (big : header_size < B) (small : B < 2 ^ 32) where
  -- The end of the file.
  round_end :
      (o : ℕ) → o ≤ B → round crc fixed (at B o []) [] 0 [] ≡ done (at B (start B o) []) [] (ok 0)
  unfolding round skip
  round_end o fits = ground (arith, drop_nil (B - o))

  module _ {R : Type 0} (fn_decode : Bytes → List R → KernelResult (List R)) where
    load_end :
        (o fuel : ℕ) (loaded : List R)
        → o ≤ B
        → load_loop crc fixed fn_decode (suc fuel) (at B o []) loaded ≡ some (ok loaded)
    unfolding load_loop read read_loop
    load_end o fuel loaded fits = rw (load_loop, read, read_loop, round_end o fits)

    -- A record that is read is decoded, and loading goes on.
    load_next :
        (out tail r : Bytes) (o o' fuel : ℕ) (loaded : List R)
        → 0 < length r
        → read_loop crc fixed (suc (length (out ++ tail))) (at B o (out ++ tail)) [] 0 []
          ≡ some (at B o' tail, r, ok (0 + length r))
        → load_loop crc fixed fn_decode (suc fuel) (at B o (out ++ tail)) loaded
          ≡ (elim (fn_decode r loaded) [
            | ok loaded' ↦ load_loop crc fixed fn_decode fuel (at B o' tail) loaded'
            | err e ↦ some (err e)
            | panic ↦ some panic
          ])
    unfolding load_loop read
    load_next out tail r o o' fuel loaded pos e =
        let test : ltb 0 (0 + length r) ≡ true = ground arith in rw (load_loop, read, e, test)

module _ (crc : Crc32) (fixed : Fixed32) {io : Io} (t : Takes io) {R : Type 0}
    (fn_decode : Bytes → List R → KernelResult (List R)) where
  -- What records leave in a log: bytes that load as the records.
  abbrev Logged : LogWriter io → List Bytes → Type 0
  Logged w records =
      (out : Bytes) × (o : ℕ) × (o ≤ w.block_size)
      × (add_all crc fixed w records
          ≡ some (record w { dst = t.append out w.dst; current_block_offset = o }))
      × ((fuel : ℕ) (loaded : List R)
          → length out < fuel
          → load_loop crc fixed fn_decode fuel (at w.block_size w.current_block_offset out) loaded
            ≡ some (decode_all fn_decode records loaded))

  decoded :
      (r : KernelResult (List R)) (f : List R → Option (KernelResult (List R)))
      (records : List Bytes)
      → ((loaded : List R) → f loaded ≡ some (decode_all fn_decode records loaded))
      → (elim r [ ok loaded ↦ f loaded | err e ↦ some (err e) | panic ↦ some panic ])
        ≡ some (r >>= decode_all fn_decode records)
  decoded (ok loaded) f records h = h loaded
  decoded (err e) f records h = refl
  decoded panic f records h = refl

  module _ (w : LogWriter io) (big : header_size < w.block_size) (small : w.block_size < 2 ^ 32)
      (fits : w.current_block_offset ≤ w.block_size) (r : Bytes) (records : List Bytes)
      (pos : 0 < length r) where
    first_of :
        (f : Option (Bytes × ℕ × ℕ))
        → add_record crc fixed w r ≡ written t w f
        → Reads crc fixed w.block_size big small w.current_block_offset r f
        → ((o' : ℕ) (dst : io.Dst)
            → o' ≤ w.block_size
            → Logged (record w { dst = dst; current_block_offset = o' }) records)
        → Logged w (r ∷ records)
    first_of none e reads rest = elim reads [ ]
    first_of (some (out, o', len)) e (within, pos_out, reads) rest =
        let (out', o'', within', added, loads) = rest o' (t.append out w.dst) within in
        (
          out ++ out',
          o'',
          within',
          rw (add_all, e, added, t.append-append out out' w.dst),
          load_lem out' loads,
        )
      where
        load_lem :
            (out' : Bytes)
            → ((fuel : ℕ) (loaded : List R)
                → length out' < fuel
                → load_loop crc fixed fn_decode fuel (at w.block_size o' out') loaded
                  ≡ some (decode_all fn_decode records loaded))
            → (fuel : ℕ) (loaded : List R) → length (out ++ out') < fuel
            → load_loop crc fixed fn_decode fuel
                (at w.block_size w.current_block_offset (out ++ out'))
                loaded
              ≡ some (fn_decode r loaded >>= decode_all fn_decode records)
        load_lem out' loads zero loaded enough = absurd (omega arith)
        load_lem out' loads (suc fuel) loaded enough =
            load_next crc fixed w.block_size big small fn_decode out out' r w.current_block_offset
              o' fuel loaded pos (reads out' [] 0 (suc (length (out ++ out'))) (omega arith))
            ∙ decoded (fn_decode r loaded)
                (λ l. load_loop crc fixed fn_decode fuel (at w.block_size o' out') l) records
                (λ l. loads fuel l (omega (arith, length-append out out')))

  logged :
      (w : LogWriter io) (records : List Bytes)
      → header_size < w.block_size
      → w.block_size < 2 ^ 32
      → w.current_block_offset ≤ w.block_size
      → AllNonEmpty records
      → Logged w records
  unfolding add_record
  logged w [] big small fits all =
      ([], w.current_block_offset, fits, rw (t.append-nil w.dst), load_lem)
    where
      load_lem :
          (fuel : ℕ) (loaded : List R)
          → 0 < fuel
          → load_loop crc fixed fn_decode fuel (at w.block_size w.current_block_offset []) loaded
            ≡ some (ok loaded)
      load_lem zero loaded h = absurd (omega arith)
      load_lem (suc fuel) loaded h =
          load_end crc fixed w.block_size big small fn_decode w.current_block_offset fuel loaded
            fits
  logged w (r ∷ records) big small fits (pos, all) =
      first_of w big small fits r records pos _ (add_loop-frames t crc fixed _ w r 0 big fits)
        (frames-Reads crc fixed w.block_size big small _ w.current_block_offset 0 r fits pos
          (ground arith))
        (λ o' dst within.
          logged (record w { dst = dst; current_block_offset = o' }) records big small within all)

  -- Records that are not empty, written to a new log one after another, are all written, and loading
  -- the file decodes them in order and ends, if the destination takes every write and is empty at
  -- first.
  pub load-add_all :
      (d : io.Dst) (records : List Bytes) (loaded : List R)
      → t.contents d ≡ []
      → AllNonEmpty records
      → (w : LogWriter io) × (add_all crc fixed (create d) records ≡ some w)
        × (load crc fixed fn_decode (t.contents w.dst) loaded
            ≡ some (decode_all fn_decode records loaded))
  unfolding create load open_reader
  load-add_all d records loaded empty all =
      let (out, o, within, added, loads) =
        logged (create d) records (omega arith) (omega arith) (omega arith) all in
      let file : t.contents (t.append out d) ≡ out = t.contents-append out d ∙ rw empty refl in
      (
        record (create d) { dst = t.append out d; current_block_offset = o },
        added,
        rw file (loads (suc (length out)) loaded (omega arith)),
      )
