-- ===== src/Bloom.antt =====
-- src/kernel/utils/bloom_filter.rs: the filter, with its hasher. The sizes that are computed with
-- floating-point numbers, and the random seeds, are arguments.
pub mod Members
pub mod Contains
pub mod Raw
mod Tests
use kip_db.Base.{
  ℕ, zero, suc, ◌+◌, ◌*◌, ◌%◌, ◌^◌, Bool, true, false, List, [], ◌∷◌, ◌++◌, ltb, ◌==◌,
  if◌then◌else◌,
}
use kip_db.Base.Lists.{length, take, drop}
use kip_db.Base.Order.{Bytes}
use kip_db.BitVector
use kip_db.BitVector.{BitVector, set_bit, get_bit}
use kip_db.Codec.{FixedInt}
use kip_db.Error.{KernelResult, ok, err, panic, ◌>>=◌}

pub record FixedHasher : Type 0 where
  pub seed : ℕ

pub record BloomFilter : Type 0 where
  pub bits : BitVector
  pub hash_fn_count : ℕ
  pub hasher1 : FixedHasher
  pub hasher2 : FixedHasher

unfoldable pub create : (bits_count hash_fn_count seed1 seed2 : ℕ) → BloomFilter
create bits_count hash_fn_count seed1 seed2 = record {
  bits = BitVector.create bits_count;
  hash_fn_count = hash_fn_count;
  hasher1 = record { seed = seed1 };
  hasher2 = record { seed = seed2 };
}

-- `get_index`: the remainder by 0 panics.
unfoldable pub get_index : BloomFilter → ℕ × ℕ → ℕ → KernelResult ℕ
get_index f (h1, h2) fn_i =
    if f.bits.len == 0 then panic else ok ((h1 + fn_i * h2 % 2 ^ 64) % 2 ^ 64 % f.bits.len)

-- The elements: what `Hash` writes of one. `default_hash` is what a `DefaultHasher` gives for a
-- seed and then bytes.
pub record Hashing (T : Type 0) : Type 0 where
  pub writes : T → List Bytes
  pub default_hash : ℕ → Bytes → ℕ

module _ {T : Type 0} (h : Hashing T) where
  unfoldable pub write : Bytes → FixedHasher → FixedHasher
  write bytes hasher = record { seed = h.default_hash hasher.seed bytes }

  unfoldable pub hash : List Bytes → FixedHasher → FixedHasher
  unfolding write
  hash [] hasher = hasher
  hash (bytes ∷ rest) hasher = hash rest (write bytes hasher)

  unfoldable pub make_hash : BloomFilter → T → ℕ × ℕ
  unfolding hash
  make_hash f elem =
      let written = h.writes elem in ((hash written f.hasher1).seed, (hash written f.hasher2).seed)

  -- `count` rounds of the loop of `insert`, from the round `fn_i`.
  unfoldable pub insert_loop : ℕ → ℕ → ℕ × ℕ → BloomFilter → KernelResult BloomFilter
  unfolding get_index
  insert_loop zero fn_i hashes f = ok f
  insert_loop (suc count) fn_i hashes f = do
    index ← get_index f hashes fn_i
    bits ← set_bit index true f.bits
    insert_loop count (suc fn_i) hashes (record f { bits = bits })

  unfoldable pub insert : T → BloomFilter → KernelResult BloomFilter
  unfolding insert_loop make_hash
  insert elem f = insert_loop f.hash_fn_count 0 (make_hash f elem) f

  -- `all` stops at the first clear bit.
  unfoldable pub contains_loop : ℕ → ℕ → ℕ × ℕ → BloomFilter → KernelResult Bool
  unfolding get_index
  contains_loop zero fn_i hashes f = ok true
  contains_loop (suc count) fn_i hashes f =
      let rest = contains_loop count (suc fn_i) hashes f in
      get_index f hashes fn_i >>= λ index.
      get_bit index f.bits >>= λ b. if b then rest else ok false

  unfoldable pub contains : T → BloomFilter → KernelResult Bool
  unfolding contains_loop make_hash
  contains elem f = contains_loop f.hash_fn_count 0 (make_hash f elem) f

module _ (u64 : FixedInt 8) (i8 : FixedInt 1) where
  unfoldable pub to_raw : BloomFilter → Bytes → Bytes
  to_raw f bytes = BitVector.to_raw u64 i8 f.bits (
      ((bytes ++ u64.encode_fixed f.hash_fn_count) ++ u64.encode_fixed f.hasher1.seed)
      ++ u64.encode_fixed f.hasher2.seed)

  unfoldable pub from_raw : Bytes → KernelResult BloomFilter
  from_raw bytes =
      if ltb (length bytes) 24
      then panic
      else (BitVector.from_raw u64 i8 (drop 24 bytes) >>= λ bits. ok (record {
        bits = bits;
        hash_fn_count = u64.decode_fixed (take 8 bytes);
        hasher1 = record { seed = u64.decode_fixed (take 8 (drop 8 bytes)) };
        hasher2 = record { seed = u64.decode_fixed (take 8 (drop 16 bytes)) };
      }))
