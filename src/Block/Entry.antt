-- ===== src/Block/Entry.antt =====
-- src/kernel/lsm/table/ss_table/block.rs: the entries of a block and of the write-ahead log, and
-- their byte encoding.
pub mod RoundTrip
use kip_db.Base.{
  ℕ, zero, suc, ◌+◌, ◌%◌, ◌^◌, Option, none, some, Bool, List, [], ◌∷◌, ◌++◌, ltb, if◌then◌else◌,
}
use kip_db.Base.Lists.{length, take, drop, replicate}
use kip_db.Base.Order.{Bytes}
use kip_db.Codec.{VarInt}
use kip_db.Error.{KernelError, KernelResult, ok, err, panic, ◌>>=◌}

pub record Entry (T : Type 0) : Type 0 where
  pub unshared_len : ℕ
  pub shared_len : ℕ
  pub key : Bytes
  pub item : T

pub record Value : Type 0 where
  pub value_len : ℕ
  pub bytes : Option Bytes

-- `Value::from(Option<Bytes>)`
unfoldable pub value_from : Option Bytes → Value
value_from none = record { value_len = 0; bytes = none }
value_from (some b) = record { value_len = length b; bytes = some b }

pub record Index : Type 0 where
  pub offset : ℕ
  pub len : ℕ

-- `x as u32`
abbrev pub as_u32 : ℕ → ℕ
as_u32 n = n % 2 ^ 32

-- `reader.read(&mut buf)` into a buffer of `n` zero bytes: what is missing stays zero.
unfoldable pub read_into : ℕ → Bytes → Bytes × Bytes
read_into zero src = ([], src)
read_into (suc n) [] = (replicate (suc n) 0, [])
read_into (suc n) (b ∷ src) = let (buf, rest) = read_into n src in (b ∷ buf, rest)

-- The trait `BlockItem`.
pub record BlockItem (T : Type 0) : Type 0 where
  pub encode : T → Bytes
  pub decode : Bytes → KernelResult (T × Bytes)

module _ (varint : VarInt) where
  abbrev read_varint : Bytes → KernelResult (ℕ × Bytes)
  read_varint src = elim (varint.decode src) [ none ↦ err KernelError.io | some r ↦ ok r ]

  unfoldable pub value_encode : Value → Bytes
  value_encode v = varint.encode (as_u32 v.value_len) ++ elim v.bytes [ none ↦ [] | some b ↦ b ]

  unfoldable pub value_decode : Bytes → KernelResult (Value × Bytes)
  unfolding read_into
  value_decode src = do
    (value_len, src) ← read_varint src
    if ltb 0 value_len
        then (let (b, rest) = read_into value_len src in
            ok (record { value_len = value_len; bytes = some b }, rest))
        else ok (record { value_len = value_len; bytes = none }, src)

  unfoldable pub index_encode : Index → Bytes
  index_encode i = varint.encode i.offset ++ varint.encode (as_u32 i.len)

  unfoldable pub index_decode : Bytes → KernelResult (Index × Bytes)
  index_decode src = do
    (offset, src) ← read_varint src
    (len, src) ← read_varint src
    ok (record { offset = offset; len = len }, src)

  abbrev pub value_item : BlockItem Value
  value_item = record { encode = value_encode; decode = value_decode }

  abbrev pub index_item : BlockItem Index
  index_item = record { encode = index_encode; decode = index_decode }

  module _ {T : Type 0} (item : BlockItem T) where
    unfoldable pub encode : Entry T → Bytes
    encode e =
        varint.encode (as_u32 e.unshared_len)
        ++ (varint.encode (as_u32 e.shared_len) ++ (e.key ++ item.encode e.item))

    unfoldable pub decode : Bytes → KernelResult (Entry T × Bytes)
    unfolding read_into
    decode src = do
      (unshared_len, src) ← read_varint src
      (shared_len, src) ← read_varint src
      let (key, src') = read_into unshared_len src
      (i, rest) ← item.decode src'
      ok (
        record { unshared_len = unshared_len; shared_len = shared_len; key = key; item = i },
        rest,
      )

    -- The loop of `batch_decode`: `while !cursor.is_empty()`. Every entry takes a byte at least, so
    -- that the length of the input is fuel enough.
    unfoldable pub batch_decode_loop : ℕ → ℕ → Bytes → KernelResult (List (ℕ × Entry T))
    batch_decode_loop fuel index [] = ok []
    batch_decode_loop zero index (b ∷ src) = panic
    batch_decode_loop (suc fuel) index (b ∷ src) = do
      (e, rest) ← decode (b ∷ src)
      es ← batch_decode_loop fuel (suc index) rest
      ok ((index, e) ∷ es)

    unfoldable pub batch_decode : Bytes → KernelResult (List (ℕ × Entry T))
    unfolding batch_decode_loop
    batch_decode src = batch_decode_loop (length src) 0 src
