-- ===== src/Block/Tests.antt =====
-- Entries at concrete bytes.
use kip_db.Base.{◌≡◌, none, some, [], ◌∷◌, ◌++◌, ◌<◌, ◌^◌, arith}
use kip_db.Codec.Little.{little_varint}
use kip_db.Error.{ok}
use kip_db.Block.Entry.{
  Entry, Index, value_from, index_item, value_decode, value_encode, batch_decode,
}
use kip_db.Block.Entry.RoundTrip.{
  value_decode-encode, index_decode-encode, encode_all, batch_decode-encode,
}

-- An empty value comes back as a tombstone.
value_decode-encode_example :
    value_decode little_varint (value_encode little_varint (value_from (some [])) ++ 9 ∷ [])
    ≡ ok (value_from none, 9 ∷ [])
value_decode-encode_example = value_decode-encode little_varint (some []) (9 ∷ []) (omega arith)

abbrev index_entry : Entry Index
index_entry = record {
  unshared_len = 2;
  shared_len = 0;
  key = 1 ∷ 2 ∷ [];
  item = record { offset = 300; len = 70000 };
}

abbrev FitsIndex : Index → Type 0
FitsIndex i = (i.offset < 2 ^ 32) × (i.len < 2 ^ 32)

batch_decode-encode_example :
    batch_decode little_varint
      (index_item little_varint)
      (encode_all little_varint (index_item little_varint) (index_entry ∷ index_entry ∷ []))
    ≡ ok ((0, index_entry) ∷ (1, index_entry) ∷ [])
batch_decode-encode_example =
    batch_decode-encode little_varint (index_item little_varint) FitsIndex
      (λ i rest h. index_decode-encode little_varint i rest h.0 h.1)
      (index_entry ∷ index_entry ∷ []) (omega arith)
