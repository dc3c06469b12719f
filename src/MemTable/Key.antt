-- ===== src/MemTable/Key.antt =====
-- src/kernel/lsm/mem_table.rs: `InternalKey`, a user key with a sequence number.
use kip_db.Base.{◌≡◌, arith}
use kip_db.Base.Int.{ℤ, int_cmp, int_cmp_refl, int_eq_of_cmp, int_cmp_flip, int_lt_trans}
use kip_db.Base.Order.{
  Ord, Ordering, lt, eq, reverse, then_with, Bytes, bytes_cmp, bytes_cmp_refl, bytes_eq_of_cmp,
  bytes_cmp_flip, bytes_lt_trans,
}

pub record InternalKey : Type 0 where
  pub key : Bytes
  pub seq_id : ℤ

-- `InternalKey::cmp`: by the user key, then by the sequence number.
abbrev pub key_cmp : InternalKey → InternalKey → Ordering
key_cmp a b = then_with (bytes_cmp a.key b.key) (int_cmp a.seq_id b.seq_id)

pub key_cmp_refl : (a : InternalKey) → key_cmp a a ≡ eq
key_cmp_refl a = ground (arith, bytes_cmp_refl a.key, int_cmp_refl a.seq_id)

pub key_eq_of_cmp : (a b : InternalKey) → key_cmp a b ≡ eq → a ≡ b
key_eq_of_cmp a b h = ground (arith, bytes_eq_of_cmp a.key b.key, int_eq_of_cmp a.seq_id b.seq_id)

pub key_cmp_flip : (a b : InternalKey) → key_cmp b a ≡ reverse (key_cmp a b)
key_cmp_flip a b = ground (arith, bytes_cmp_flip a.key b.key, int_cmp_flip a.seq_id b.seq_id)

pub key_lt_trans : (a b c : InternalKey) → key_cmp a b ≡ lt → key_cmp b c ≡ lt → key_cmp a c ≡ lt
key_lt_trans a b c p q = ground (
  arith,
  bytes_lt_trans a.key b.key c.key,
  bytes_eq_of_cmp a.key b.key,
  bytes_eq_of_cmp b.key c.key,
  bytes_cmp_refl a.key,
  int_lt_trans a.seq_id b.seq_id c.seq_id,
)

instance abbrev pub key_ord : Ord InternalKey
key_ord = record {
  cmp = key_cmp;
  cmp_refl = key_cmp_refl;
  eq_of_cmp = key_eq_of_cmp;
  cmp_flip = key_cmp_flip;
  lt_trans = key_lt_trans;
}
