-- ===== src/Bloom/Tests.antt =====
-- Filters over byte strings.
use kip_db.Base.{
  ℕ, ◌+◌, ◌*◌, ◌-◌, ◌%◌, ◌^◌, ◌≡◌, ◌<◌, refl, true, false, inl, inr, List, [], ◌∷◌, arith, ◌==◌,
  if◌then◌else◌,
}
use kip_db.Base.Order.{Bytes}
use kip_db.BitVector
use kip_db.BitVector.{BitVector, set_bit, get_bit}
use kip_db.BitVector.Bits.{get_bit-set_bit, IsBits}
use kip_db.Bloom.{
  BloomFilter, create, get_index, Hashing, hash, write, make_hash, insert, insert_loop, contains,
  contains_loop, to_raw, from_raw,
}
use kip_db.Bloom.Members.{all_on, selected, insert_all}
use kip_db.Bloom.Contains.{contains-insert_all, contains-inserted}
use kip_db.Bloom.Raw.{from_raw-to_raw}
use kip_db.Codec.Little.{little}
use kip_db.Error.{ok, ◌>>=◌}

abbrev polynomial : ℕ → Bytes → ℕ
polynomial seed [] = seed
polynomial seed (b ∷ bytes) = polynomial ((seed * 31 + b) % 2 ^ 64) bytes

abbrev hashing : Hashing Bytes
hashing = record { writes = λ b. b ∷ []; default_hash = polynomial }

abbrev cat : Bytes
cat = 99 ∷ 97 ∷ 116 ∷ []

abbrev dog : Bytes
dog = 100 ∷ 111 ∷ 103 ∷ []

abbrev cow : Bytes
cow = 99 ∷ 111 ∷ 119 ∷ []

abbrev animals : List Bytes
animals = cat ∷ dog ∷ []

abbrev filter : BloomFilter
filter = create 40 3 5 8

contains-cat : (insert_all hashing animals filter >>= contains hashing cat) ≡ ok true
unfolding create insert insert_loop contains contains_loop make_hash get_index hash write
    BitVector.create set_bit get_bit
contains-cat = refl

lacks_cow : (insert_all hashing animals filter >>= contains hashing cow) ≡ ok false
unfolding create insert insert_loop contains contains_loop make_hash get_index hash write
    BitVector.create set_bit get_bit
lacks_cow = refl

get_bit-set_bit_example :
    (v' : BitVector) × (set_bit 9 true (BitVector.create 12) ≡ ok v')
    × ((j : ℕ)
        → j < (BitVector.create 12).len
        → get_bit j v' ≡ (if 9 == j then ok true else get_bit j (BitVector.create 12)))
    × IsBits v'
    × (v'.len ≡ (BitVector.create 12).len)
unfolding BitVector.create
get_bit-set_bit_example = get_bit-set_bit (BitVector.create 12) 9 true (omega arith) (omega arith)

contains-insert_all_example :
    (f' : BloomFilter) × (insert_all hashing animals filter ≡ ok f')
    × (contains hashing cow f'
        ≡ ok (all_on 40 3 (make_hash hashing filter cow) (selected hashing filter animals) 0))
contains-insert_all_example = contains-insert_all hashing animals cow 40 3 5 8 (omega arith)

dog_is_in : (insert_all hashing animals filter >>= contains hashing dog) ≡ ok true
dog_is_in = contains-inserted hashing animals dog 40 3 5 8 (omega arith) (inr (inl refl))

abbrev filled : BloomFilter
filled = record {
  bits = record { len = 16; bit_groups = 5 ∷ 255 ∷ [] };
  hash_fn_count = 3;
  hasher1 = record { seed = 5 };
  hasher2 = record { seed = 2 ^ 64 - 1 };
}

from_raw-to_raw_example :
    from_raw (little 8) (little 1) (to_raw (little 8) (little 1) filled []) ≡ ok filled
from_raw-to_raw_example = from_raw-to_raw (little 8) (little 1) filled (record {
  count = omega arith;
  first = omega arith;
  second = omega arith;
  len = omega arith;
  groups = (omega arith, (omega arith, tt));
})
