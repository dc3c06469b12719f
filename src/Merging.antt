-- ===== src/Merging.antt =====
-- src/kernel/lsm/iterator/merging_iter.rs and iterator/mod.rs: one iterator over several. The
-- macros define the same functions for plain and for seekable iterators.
pub mod Entries
pub mod Heads
pub mod Pull
pub mod Drain
pub mod Merged
pub mod Lookup
mod Tests
use kip_db.Base.{
  ℕ, zero, suc, ◌≡◌, Bool, true, false, ◌&&◌, Option, none, some, List, [], ◌∷◌, arith,
}
use kip_db.Base.Order.{
  Ord, Ordering, lt, eq, reverse, then_with, Bytes, bytes_ord, is_eq, bytes_cmp, bytes_cmp_refl,
  bytes_eq_of_cmp, bytes_cmp_flip, bytes_lt_trans,
}
use kip_db.Base.Search.{get_elem?}
use kip_db.Base.SortedMap
use kip_db.Base.Update.{set}
use kip_db.Data.{KeyValue}
use kip_db.Error.{KernelResult, ok, err, panic}
use Prim.Native.Nat.{compare}

pub data Seek : Type 0 where
  first : Seek
  last : Seek
  backward : Bytes → Seek

-- The iterators behind the boxes of the source, with one type for their states.
pub record SeekIter : Type 1 where
  pub State : Type 0
  pub try_next : State → State × KernelResult (Option KeyValue)
  pub seek : Seek → State → State × KernelResult (Unit {0})
  pub is_valid : State → Bool

pub record IterKey : Type 0 where
  pub num : ℕ
  pub key : Bytes

-- `IterKey::cmp`: by the key, then by the number of the iterator.
abbrev pub iter_cmp : IterKey → IterKey → Ordering
iter_cmp a b = then_with (bytes_cmp a.key b.key) (compare a.num b.num)

pub iter_cmp_refl : (a : IterKey) → iter_cmp a a ≡ eq
iter_cmp_refl a = ground (arith, bytes_cmp_refl a.key)

pub iter_eq_of_cmp : (a b : IterKey) → iter_cmp a b ≡ eq → a ≡ b
iter_eq_of_cmp a b h = ground (arith, bytes_eq_of_cmp a.key b.key)

pub iter_cmp_flip : (a b : IterKey) → iter_cmp b a ≡ reverse (iter_cmp a b)
iter_cmp_flip a b = ground (arith, bytes_cmp_flip a.key b.key)

pub iter_lt_trans : (a b c : IterKey) → iter_cmp a b ≡ lt → iter_cmp b c ≡ lt → iter_cmp a c ≡ lt
iter_lt_trans a b c p q = ground (
  arith,
  bytes_lt_trans a.key b.key c.key,
  bytes_eq_of_cmp a.key b.key,
  bytes_eq_of_cmp b.key c.key,
  bytes_cmp_refl a.key,
)

instance abbrev pub iter_ord : Ord IterKey
iter_ord = record {
  cmp = iter_cmp;
  cmp_refl = iter_cmp_refl;
  eq_of_cmp = iter_eq_of_cmp;
  cmp_flip = iter_cmp_flip;
  lt_trans = iter_lt_trans;
}

-- The `BTreeMap` of the buffered items.
abbrev pub MapBuf : Type 0
MapBuf = List (IterKey × Option Bytes)

module _ (it : SeekIter) where
  -- `InnerIter` with the iterators.
  pub record MergingIter : Type 0 where
    pub vec_iter : List it.State
    pub map_buf : MapBuf
    pub next_buf : Option KeyValue

unfoldable pub buf_map_insert : MapBuf → ℕ → KeyValue → MapBuf
buf_map_insert seek_map num (key, value) =
    SortedMap.insert (record { num = num; key = key }) value seek_map

module _ (it : SeekIter) where
  abbrev all_valid : List it.State → Bool
  all_valid [] = true
  all_valid (iter ∷ iters) = it.is_valid iter && all_valid iters

  -- The loop of `seek`, with the new map.
  unfoldable pub seek_all : Seek → ℕ → List it.State → MapBuf → List it.State × KernelResult MapBuf
  unfolding buf_map_insert
  seek_all seek num [] seek_map = ([], ok seek_map)
  seek_all seek num (iter ∷ iters) seek_map =
      let (iter', sought) = it.seek seek iter in
      let (iter'', item) = it.try_next iter' in
      elim sought [
        | err e ↦ (iter' ∷ iters, err e)
        | panic ↦ (iter' ∷ iters, panic)
        | ok _ ↦ elim item [
          | err e ↦ (iter'' ∷ iters, err e)
          | panic ↦ (iter'' ∷ iters, panic)
          | ok none ↦
              let (iters', result) = seek_all seek (suc num) iters seek_map in
              (iter'' ∷ iters', result)
          | ok (some pulled) ↦
              let (iters', result) =
                seek_all seek (suc num) iters (buf_map_insert seek_map num pulled) in
              (iter'' ∷ iters', result)
        ]
      ]

module _ {it : SeekIter} where
  -- Puts the next item of an iterator into the map.
  unfoldable pub pull : ℕ → MergingIter it → MergingIter it × KernelResult (Unit {0})
  unfolding buf_map_insert
  pull num m = elim (get_elem? m.vec_iter num) [
    | none ↦ (m, panic)
    | some iter ↦
        let (iter', pulled) = it.try_next iter in
        let m' : MergingIter it = record m { vec_iter = set m.vec_iter num iter' } in
        elim pulled [
          | ok (some item) ↦ (record m' { map_buf = buf_map_insert m'.map_buf num item }, ok tt)
          | ok none ↦ (m', ok tt)
          | err e ↦ (m', err e)
          | panic ↦ (m', panic)
        ]
  ]

  unfoldable pub init_next_buf : MergingIter it → MergingIter it
  init_next_buf m = record m {
    next_buf = elim m.map_buf [ [] ↦ none | (k, value) ∷ _ ↦ some (k.key, value) ];
  }

  unfoldable pub pull_all :
      ℕ → List it.State → MergingIter it → MergingIter it × KernelResult (Unit {0})
  pull_all num [] m = (m, ok tt)
  pull_all num (_ ∷ iters) m =
      let (m', pulled) = pull num m in
      elim pulled [ ok _ ↦ pull_all (suc num) iters m' | err e ↦ (m', err e) | panic ↦ (m', panic) ]

  -- `MergingIter::new`
  unfoldable pub create : List it.State → MergingIter it × KernelResult (Unit {0})
  unfolding pull_all init_next_buf
  create vec_iter =
      let (m, pulled) =
        pull_all 0 vec_iter (record { vec_iter = vec_iter; map_buf = []; next_buf = none }) in
      elim pulled [ ok _ ↦ (init_next_buf m, ok tt) | err e ↦ (m, err e) | panic ↦ (m, panic) ]

  -- The loop of `try_next`, on fuel: takes the items with the key of the current one from the map,
  -- and the next one.
  unfoldable pub next_loop :
      ℕ → Bytes → MergingIter it → Option (MergingIter it × KernelResult (Unit {0}))
  next_loop zero item_key m = none
  next_loop (suc fuel) item_key m = elim m.map_buf [
    | [] ↦ some (m, ok tt)
    | (k, value) ∷ rest ↦
        let (m', pulled) = pull k.num (record m { map_buf = rest }) in
        elim pulled [
          | err e ↦ some (m', err e)
          | panic ↦ some (m', panic)
          | ok _ ↦ elim (is_eq item_key k.key) [
            | true ↦ next_loop fuel item_key m'
            | false ↦ some (record m' { next_buf = some (k.key, value) }, ok tt)
          ]
        ]
  ]

  -- `try_next`
  unfoldable pub try_next :
      ℕ → MergingIter it → Option (MergingIter it × KernelResult (Option KeyValue))
  unfolding next_loop
  try_next fuel m = elim m.next_buf [
    | none ↦ some (m, ok none)
    | some item_buf ↦ elim (next_loop fuel item_buf.0 (record m { next_buf = none })) [
      | none ↦ none
      | some (m', ok _) ↦ some (m', ok (some item_buf))
      | some (m', err e) ↦ some (m', err e)
      | some (m', panic) ↦ some (m', panic)
    ]
  ]

  unfoldable pub is_valid : MergingIter it → Bool
  is_valid m = all_valid it m.vec_iter

  -- `seek`: the iterators stay where they are at `Seek::Last`, and an error leaves the map.
  unfoldable pub seek_to : Seek → MergingIter it → MergingIter it × KernelResult (Unit {0})
  unfolding seek_all init_next_buf
  seek_to Seek.last m = (init_next_buf (record m { map_buf = [] }), ok tt)
  seek_to seek m =
      let (vec_iter, result) = seek_all it seek 0 m.vec_iter [] in
      elim result [
        | ok seek_map ↦
            (init_next_buf (record m { vec_iter = vec_iter; map_buf = seek_map }), ok tt)
        | err e ↦ (record m { vec_iter = vec_iter }, err e)
        | panic ↦ (record m { vec_iter = vec_iter }, panic)
      ]
