-- ===== src/Block/Entry/RoundTrip.antt =====
-- Entries survive their encoding.
use kip_db.Base.{
  ℕ, zero, suc, ◌^◌, ◌<◌, ◌≤◌, ◌≡◌, refl, Option, none, some, List, [], ◌∷◌, ◌++◌, arith,
}
use kip_db.Base.Lists.{length, length-append}
use kip_db.Base.Order.{Bytes}
use mathlib.Core.List.{append_assoc}
use kip_db.Codec.{VarInt}
use kip_db.Error.{ok}
use kip_db.Data.{value_len}
use kip_db.Block.Entry.{
  Entry, Index, BlockItem, read_into, value_from, value_encode, value_decode, index_encode,
  index_decode, encode, decode, batch_decode_loop, batch_decode, as_u32,
}

read_into-append : (b rest : Bytes) → read_into (length b) (b ++ rest) ≡ (b, rest)
unfolding read_into
read_into-append [] rest = refl
read_into-append (x ∷ b) rest = rw (read_into-append b rest)

-- What is left of a value: an empty one comes back as the tombstone.
abbrev pub kept : Option Bytes → Option Bytes
kept none = none
kept (some []) = none
kept (some (x ∷ b)) = some (x ∷ b)

as_u32_small : (n : ℕ) → n < 2 ^ 32 → as_u32 n ≡ n
as_u32_small n h = omega arith

-- An entry whose key is as long as it says, of lengths that fit a `u32`.
pub record IsEntry {T : Type 0} (e : Entry T) : Type 0 where
  pub unshared : e.unshared_len ≡ length e.key
  pub unshared_fits : e.unshared_len < 2 ^ 32
  pub shared_fits : e.shared_len < 2 ^ 32

-- The bytes of entries one after another, and what is read back.
abbrev pub encode_all : VarInt → {T : Type 0} → BlockItem T → List (Entry T) → Bytes
encode_all varint item [] = []
encode_all varint item (e ∷ es) = encode varint item e ++ encode_all varint item es

abbrev pub enumerate : {T : Type 0} → ℕ → List (Entry T) → List (ℕ × Entry T)
enumerate index [] = []
enumerate index (e ∷ es) = (index, e) ∷ enumerate (suc index) es

abbrev pub AllFit : {T : Type 0} → (T → Type 0) → List (Entry T) → Type 0
AllFit Fits [] = Unit
AllFit Fits (e ∷ es) = (IsEntry e × Fits e.item) × AllFit Fits es

module _ (varint : VarInt) where
  -- A value that was encoded is decoded again, and what follows it is left, except that a value of
  -- no bytes comes back as none at all. Its length is assumed to fit a `u32`.
  pub value_decode-encode :
      (o : Option Bytes) (rest : Bytes)
      → value_len o < 2 ^ 32
      → value_decode varint (value_encode varint (value_from o) ++ rest)
        ≡ ok (value_from (kept o), rest)
  unfolding value_decode value_encode value_from
  value_decode-encode none rest h =
      ground (arith, append_assoc (varint.encode 0) [] rest, varint.decode-encode 0 rest)
  value_decode-encode (some []) rest h =
      ground (arith, append_assoc (varint.encode 0) [] rest, varint.decode-encode 0 rest)
  value_decode-encode (some (x ∷ b)) rest h =
      let n = length (x ∷ b) in
      ground (
        arith,
        append_assoc (varint.encode n) (x ∷ b) rest,
        varint.decode-encode n ((x ∷ b) ++ rest),
        read_into-append (x ∷ b) rest,
        as_u32_small n,
      )

  length-encode_pos : (n : ℕ) → n < 2 ^ 32 → 0 < length (varint.encode n)
  length-encode_pos n h = omega (
    arith,
    varint.decode-shrinks (varint.encode n ++ []) n [] (varint.decode-encode n [] h),
    length-append (varint.encode n) [],
  )

  pub index_decode-encode :
      (i : Index) (rest : Bytes)
      → i.offset < 2 ^ 32
      → i.len < 2 ^ 32
      → index_decode varint (index_encode varint i ++ rest) ≡ ok (i, rest)
  unfolding index_decode index_encode
  index_decode-encode i rest h k = ground (
    arith,
    append_assoc (varint.encode i.offset) (varint.encode i.len) rest,
    varint.decode-encode i.offset (varint.encode i.len ++ rest),
    varint.decode-encode i.len rest,
    as_u32_small i.len,
  )

  module _ {T : Type 0} (item : BlockItem T) (Fits : T → Type 0)
      (item_trip : (t : T) (rest : Bytes)
        → Fits t
        → item.decode (item.encode t ++ rest) ≡ ok (t, rest)) where
    decode-encode :
        (e : Entry T) (rest : Bytes)
        → IsEntry e
        → Fits e.item
        → decode varint item (encode varint item e ++ rest) ≡ ok (e, rest)
    unfolding decode encode
    decode-encode e rest w f =
        let tail = e.key ++ item.encode e.item in
        let shared = varint.encode e.shared_len ++ tail in
        ground (
          arith,
          append_assoc (varint.encode e.unshared_len) shared rest,
          append_assoc (varint.encode e.shared_len) tail rest,
          append_assoc e.key (item.encode e.item) rest,
          varint.decode-encode e.unshared_len (shared ++ rest),
          varint.decode-encode e.shared_len (tail ++ rest),
          read_into-append e.key (item.encode e.item ++ rest),
          item_trip e.item rest f,
          as_u32_small e.unshared_len,
          as_u32_small e.shared_len,
        )

    batch_step :
        (fuel index : ℕ) (src rest : Bytes) (e : Entry T) (es : List (ℕ × Entry T))
        → 0 < length src
        → decode varint item src ≡ ok (e, rest)
        → batch_decode_loop varint item fuel (suc index) rest ≡ ok es
        → batch_decode_loop varint item (suc fuel) index src ≡ ok ((index, e) ∷ es)
    unfolding batch_decode_loop
    batch_step fuel index [] rest e es pos one more = absurd (omega arith)
    batch_step fuel index (b ∷ src) rest e es pos one more = rw (one, more)

    length-encode :
        (e : Entry T) (rest : Bytes)
        → IsEntry e
        → length rest < length (encode varint item e ++ rest)
    unfolding encode
    length-encode e rest w =
        let tail = varint.encode (as_u32 e.shared_len) ++ (e.key ++ item.encode e.item) in
        let head = varint.encode (as_u32 e.unshared_len) in
        omega (
          arith,
          length-encode_pos (as_u32 e.unshared_len),
          length-append head tail,
          length-append (head ++ tail) rest,
        )

    batch_decode_loop-encode :
        (fuel index : ℕ) (es : List (Entry T))
        → length (encode_all varint item es) ≤ fuel
        → AllFit Fits es
        → batch_decode_loop varint item fuel index (encode_all varint item es)
          ≡ ok (enumerate index es)
    unfolding batch_decode_loop
    batch_decode_loop-encode fuel index [] h all = refl
    batch_decode_loop-encode zero index (e ∷ es) h all =
        absurd (omega (arith, length-encode e (encode_all varint item es) all.0.0))
    batch_decode_loop-encode (suc fuel) index (e ∷ es) h all =
        let shorter = length-encode e (encode_all varint item es) all.0.0 in
        batch_step fuel index (encode varint item e ++ encode_all varint item es)
          (encode_all varint item es) e (enumerate (suc index) es) (omega arith)
          (decode-encode e (encode_all varint item es) all.0.0 all.0.1)
          (batch_decode_loop-encode fuel (suc index) es (omega arith) all.1)

    -- Entries written one after another are all read again, each with its position, and the loop
    -- ends. Every item is assumed to survive its own encoding, and every entry to be well formed.
    pub batch_decode-encode :
        (es : List (Entry T))
        → AllFit Fits es
        → batch_decode varint item (encode_all varint item es) ≡ ok (enumerate 0 es)
    unfolding batch_decode
    batch_decode-encode es all =
        batch_decode_loop-encode (length (encode_all varint item es)) 0 es (omega arith) all
