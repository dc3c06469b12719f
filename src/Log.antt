-- ===== src/Log.antt =====
-- src/kernel/lsm/log.rs: records in a log of blocks. A writer writes to a destination, whose
-- operations may fail; a reader reads the bytes of a file that are left. Loops run on fuel: `none`
-- if it ran out.
pub mod Frames
pub mod Reads
pub mod RoundTrip
pub mod Recovery
pub mod Torn
mod Tests
use kip_db.Base.{
  ℕ, zero, suc, ◌+◌, ◌-◌, ◌*◌, ◌%◌, ◌^◌, Bool, true, false, ◌&&◌, not, Option, none, some, List, [],
  ◌∷◌, ◌++◌, ltb, ◌==◌, if◌then◌else◌,
}
use kip_db.Base.Lists.{length, take, drop, replicate}
use kip_db.Base.Order.{Bytes}
use kip_db.Codec.{Fixed32, Crc32}
use kip_db.Error.{KernelError, KernelResult, ok, err, panic, ◌>>=◌}

abbrev pub default_block_size : ℕ
default_block_size = 32768

abbrev pub header_size : ℕ
header_size = 9

pub data RecordType : Type 0 where
  full : RecordType
  first : RecordType
  middle : RecordType
  last : RecordType

-- `t as u8`
unfoldable pub as_u8 : RecordType → ℕ
as_u8 RecordType.full = 1
as_u8 RecordType.first = 2
as_u8 RecordType.middle = 3
as_u8 RecordType.last = 4

-- `RecordType::from`
unfoldable pub from_u8 : ℕ → KernelResult RecordType
from_u8 value =
    if value == 1
    then ok RecordType.full
    else (if value == 2
        then ok RecordType.first
        else (if value == 3
            then ok RecordType.middle
            else (if value == 4 then ok RecordType.last else panic)))

-- What the writer calls of its destination, a `Write` and `Seek` of the standard library.
pub record Io : Type 1 where
  pub Dst : Type 0
  pub write : Bytes → Dst → Dst × KernelResult ℕ
  pub write_all : Bytes → Dst → Dst × KernelResult (Unit {0})
  pub flush : Dst → Dst × KernelResult (Unit {0})

module _ (io : Io) where
  pub record LogWriter : Type 0 where
    pub dst : io.Dst
    pub current_block_offset : ℕ
    pub block_size : ℕ

-- A step on a state that may fail.
abbrev pub bind :
    {A B S : Type 0} → S × KernelResult A → (S → A → S × KernelResult B) → S × KernelResult B
bind (s, ok a) f = f s a
bind (s, err e) f = (s, err e)
bind (s, panic) f = (s, panic)

abbrev pub and_then :
    {A B S : Type 0}
    → S × KernelResult A
    → (S → A → Option (S × KernelResult B))
    → Option (S × KernelResult B)
and_then (s, ok a) f = f s a
and_then (s, err e) f = some (s, err e)
and_then (s, panic) f = some (s, panic)

abbrev pub min : ℕ → ℕ → ℕ
min a b = if ltb b a then b else a

unfoldable pub record_type : Bool → Bool → RecordType
record_type first_frag is_whole =
    if first_frag && is_whole
    then RecordType.full
    else (if first_frag
        then RecordType.first
        else (if is_whole then RecordType.last else RecordType.middle))

unfoldable pub header : Crc32 → Fixed32 → RecordType → Bytes → Bytes
unfolding as_u8
header crc fixed t frag =
    fixed.encode_fixed (crc.hash frag)
    ++ (fixed.encode_fixed (length frag % 2 ^ 32) ++ as_u8 t ∷ [])

module _ {io : Io} where
  unfoldable pub create : io.Dst → LogWriter io
  create writer = record { dst = writer; current_block_offset = 0; block_size = default_block_size }

  unfoldable pub new_with_off : io.Dst → ℕ → LogWriter io
  unfolding create
  new_with_off writer off = record (create writer) {
    current_block_offset = off % default_block_size;
  }

  abbrev pub on_dst :
      {A : Type 0} → LogWriter io → io.Dst × KernelResult A → LogWriter io × KernelResult A
  on_dst w (dst, r) = (record w { dst = dst }, r)

  -- Fills up the block, if it has no room for a header, and goes to the next one.
  unfoldable pub fill_up : LogWriter io → LogWriter io × KernelResult (Unit {0})
  fill_up w =
      let space_left = w.block_size - w.current_block_offset in
      if ltb space_left header_size
      then bind
          (if ltb 0 space_left
            then on_dst w (io.write_all (replicate space_left 0) w.dst)
            else (w, ok tt))
          (λ w' _. (record w' { current_block_offset = 0 }, ok tt))
      else (w, ok tt)

  module _ (crc : Crc32) (fixed : Fixed32) where
    unfoldable pub emit_record :
        LogWriter io → RecordType → Bytes → ℕ → LogWriter io × KernelResult ℕ
    unfolding header
    emit_record w t record_bytes len =
        let frag = take len record_bytes in
        bind (on_dst w (io.write (header crc fixed t frag) w.dst)) λ w' n.
          bind (on_dst w' (io.write frag w'.dst)) λ w'' m.
            (record w'' { current_block_offset = w''.current_block_offset + (n + m) }, ok (n + m))

    -- A round of the loop, with the bytes of the record that are left and the length of the last
    -- fragment written. The length of the new fragment in the record, and in the log.
    unfoldable pub write_round : LogWriter io → Bytes → ℕ → LogWriter io × KernelResult (ℕ × ℕ)
    unfolding fill_up emit_record record_type
    write_round w r len = bind (fill_up w) λ w' _.
        let avail_for_data = w'.block_size - w'.current_block_offset - header_size in
        let data_frag_len = min (length r) avail_for_data in
        let t = record_type (len == 0) (data_frag_len == length r) in
        bind (emit_record w' t r data_frag_len) λ w'' len'. (w'', ok (data_frag_len, len'))

    -- An offset past the block underflows.
    unfoldable pub add_loop : ℕ → LogWriter io → Bytes → ℕ → Option (LogWriter io × KernelResult ℕ)
    unfolding write_round
    add_loop fuel w [] len = some (w, ok len)
    add_loop zero w (x ∷ r) len = none
    add_loop (suc fuel) w (x ∷ r) len =
        if ltb header_size w.block_size && not (ltb w.block_size w.current_block_offset)
        then and_then (write_round w (x ∷ r) len)
            (λ w' lens. add_loop fuel w' (drop lens.0 (x ∷ r)) lens.1)
        else some (w, panic)

    -- A round writes a byte of the record, or ends a block that had room for a header only.
    unfoldable pub add_record : LogWriter io → Bytes → Option (LogWriter io × KernelResult ℕ)
    unfolding add_loop
    add_record w r = add_loop (2 * length r + 2) w r 0

-- The bytes that are left of the source.
pub record LogReader : Type 0 where
  pub src : Bytes
  pub offset : ℕ
  pub block_size : ℕ

unfoldable pub open_reader : Bytes → LogReader
open_reader src = record { src = src; offset = 0; block_size = default_block_size }

-- Skips the end of a block that has no room for a header.
unfoldable pub skip : LogReader → LogReader
skip r =
    let leftover = r.block_size - r.offset in
    if ltb leftover header_size then record r { src = drop leftover r.src; offset = 0 } else r

-- The end of `read`, or the next round with its reader, the record so far with its length, and the
-- part of a header that was read.
pub data Round : Type 0 where
  done : LogReader → Bytes → KernelResult ℕ → Round
  more : LogReader → Bytes → ℕ → Bytes → Round

module _ (crc : Crc32) (fixed : Fixed32) where
  -- A round after a whole header.
  unfoldable pub read_fragment : LogReader → Bytes → ℕ → Bytes → Round
  unfolding from_u8
  read_fragment r dst dst_offset head =
      let size = fixed.decode_fixed (take 4 (drop 4 head)) in
      let buf = take size r.src in
      let next : LogReader = record r {
        src = drop size r.src;
        offset = r.offset + header_size + size;
      } in
      if ltb (length r.src) size
      then done (record r { src = []; offset = r.offset + header_size }) dst (err KernelError.io)
      else (if crc.hash buf == fixed.decode_fixed (take 4 head)
          then elim (drop 8 head) [
            | [] ↦ done next (dst ++ buf) panic
            | b ∷ _ ↦ elim (from_u8 b) [
              | ok RecordType.full ↦ done next (dst ++ buf) (ok (dst_offset + size))
              | ok RecordType.last ↦ done next (dst ++ buf) (ok (dst_offset + size))
              | ok _ ↦ more next (dst ++ buf) (dst_offset + size) []
              | err e ↦ done next (dst ++ buf) (err e)
              | panic ↦ done next (dst ++ buf) panic
            ]
          ]
          else done next dst (err KernelError.crc_mis_match))

  -- A header that the source ends in is waited for.
  unfoldable pub round : LogReader → Bytes → ℕ → Bytes → Round
  round r dst dst_offset head =
      let r' = skip r in
      let head' = head ++ take (header_size - length head) r'.src in
      let r'' : LogReader = record r' { src = drop (header_size - length head) r'.src } in
      if ltb r.block_size r.offset
      then done r dst panic
      else (if length head' == 0
          then done r'' dst (ok dst_offset)
          else (if length head' == header_size
              then read_fragment r'' dst dst_offset head'
              else more r'' dst dst_offset head'))

  unfoldable pub read_loop :
      ℕ → LogReader → Bytes → ℕ → Bytes → Option (LogReader × Bytes × KernelResult ℕ)
  read_loop zero r dst dst_offset head = none
  read_loop (suc fuel) r dst dst_offset head = elim (round r dst dst_offset head) [
    | done r' dst' result ↦ some (r', dst', result)
    | more r' dst' dst_offset' head' ↦ read_loop fuel r' dst' dst_offset' head'
  ]

  -- Every round that goes on reads nine bytes, or waits.
  unfoldable pub read : LogReader → Option (LogReader × Bytes × KernelResult ℕ)
  unfolding read_loop
  read r = read_loop (suc (length r.src)) r [] 0 []

  -- `LogLoader::load`: the records until the end of the file or the first error. `fn_decode` puts
  -- what it decodes after the records.
  unfoldable pub load_loop :
      {R : Type 0}
      → (Bytes → List R → KernelResult (List R))
      → ℕ
      → LogReader
      → List R
      → Option (KernelResult (List R))
  unfolding read
  load_loop fn_decode zero r records = none
  load_loop fn_decode (suc fuel) r records = elim (read r) [
    | none ↦ none
    | some (r', buf, result) ↦ elim (ltb 0 (elim result [ ok n ↦ n | err _ ↦ 0 | panic ↦ 0 ])) [
      | false ↦ some (elim result [ panic ↦ panic | ok _ ↦ ok records | err _ ↦ ok records ])
      | true ↦ elim (fn_decode buf records) [
        | ok records' ↦ load_loop fn_decode fuel r' records'
        | err e ↦ some (err e)
        | panic ↦ some panic
      ]
    ]
  ]

  unfoldable pub load :
      {R : Type 0}
      → (Bytes → List R → KernelResult (List R))
      → Bytes
      → List R
      → Option (KernelResult (List R))
  unfolding load_loop open_reader
  load fn_decode file records = load_loop fn_decode (suc (length file)) (open_reader file) records
