-- ===== src/Store/Transaction/Iter/Sources.antt =====
-- What the merged iterators of a transaction yield.
use kip_db.Base.{
  ℕ, zero, suc, ◌≡◌, refl, sym, ◌∙◌, ap, Bool, true, false, Bool-cases, inl, inr, Option, none,
  some, List, [], ◌∷◌, map, ltb, if◌then◌else◌, arith,
}
use kip_db.Base.Lists.{length, drop}
use kip_db.Base.Order.{
  Bytes, bytes_ord, bytes_cmp, bytes_eq_of_cmp, eq, Bound, included, excluded, unbounded, over,
}
use kip_db.Base.Search.{get_elem?}
use kip_db.Base.SortedMap.{IsSorted, Above, get, between}
use kip_db.Data.{KeyValue}
use kip_db.Error.{ok}
use kip_db.MemTable.Find.{first_some}
use kip_db.MemTable.Range.Visible.{in_bounds}
use kip_db.Merging.{SeekIter, Seek}
use kip_db.Merging.Lookup.{first_of}
use kip_db.Merging.Pull.{Yields, AllSorted}
use kip_db.Store.Transaction.Iter.{
  BoxedIter, write_iter, buf_iter, table_iter, boxed, boxed_next, buf_next, buf_is_valid,
  inner_next, seek_each, table_iters,
}

drop-nil : (items : List KeyValue) (i : ℕ) → drop i items ≡ [] → ltb i (length items) ≡ false
drop-nil [] i h = ground arith
drop-nil (x ∷ items) zero h = cc
drop-nil (x ∷ items) (suc i) h = ground (arith, drop-nil items i h)

drop-cons :
    (items : List KeyValue) (i : ℕ) (e : KeyValue) (es : List KeyValue)
    → drop i items ≡ e ∷ es
    → (ltb i (length items) ≡ true) × (get_elem? items i ≡ some e) × (drop (suc i) items ≡ es)
drop-cons [] zero e es h = absurd (cc)
drop-cons [] (suc i) e es h = absurd (cc)
drop-cons (x ∷ items) zero e es h = (ground arith, cc, cc)
drop-cons (x ∷ items) (suc i) e es h =
    let (below, at, rest) = drop-cons items i e es h in (ground arith, at, rest)

module _ {it : SeekIter} (y : Yields it) where
  abbrev pub boxed_items : BoxedIter it → List KeyValue
  boxed_items (write_iter items) = items
  boxed_items (buf_iter b) = drop b.pos b.inner
  boxed_items (table_iter s) = y.items s

  pub boxed_nil :
      (s : BoxedIter it)
      → boxed_items s ≡ []
      → ((boxed_next s).1 ≡ ok none) × (boxed_items (boxed_next s).0 ≡ [])
  unfolding boxed_next inner_next buf_next buf_is_valid
  boxed_nil (write_iter []) h = (refl, refl)
  boxed_nil (write_iter (x ∷ items)) h = absurd (cc)
  boxed_nil (buf_iter b) h = let past = drop-nil b.inner b.pos h in rw past (refl, h)
  boxed_nil (table_iter s) h = y.next-nil s h

  pub boxed_cons :
      (s : BoxedIter it) (e : KeyValue) (es : List KeyValue)
      → boxed_items s ≡ e ∷ es
      → ((boxed_next s).1 ≡ ok (some e)) × (boxed_items (boxed_next s).0 ≡ es)
  unfolding boxed_next inner_next buf_next buf_is_valid
  boxed_cons (write_iter []) e es h = absurd (cc)
  boxed_cons (write_iter (x ∷ items)) e es h = (cc, cc)
  boxed_cons (buf_iter b) e es h =
      let (below, at, rest) = drop-cons b.inner b.pos e es h in rw (below, at) (refl, rest)
  boxed_cons (table_iter s) e es h = y.next-cons s e es h

  abbrev pub boxed_yields : Yields (boxed it)
  boxed_yields = record { items = boxed_items; next-nil = boxed_nil; next-cons = boxed_cons }

-- The range of sorted items.
Above-between :
    (min max : Bound Bytes) (k : Bytes) (items : List KeyValue)
    → Above k items
    → Above k (between min max items)
Above-between min max k [] a = tt
Above-between min max k ((j, v) ∷ items) (less, a) = ground (arith, Above-between min max k items a)

pub between-IsSorted :
    (min max : Bound Bytes) (items : List KeyValue)
    → IsSorted items
    → IsSorted (between min max items)
between-IsSorted min max [] s = tt
between-IsSorted min max ((k, v) ∷ items) (a, s) =
    ground (arith, between-IsSorted min max items s, Above-between min max k items a)

combine :
    (within bound : Bool) (key k : Bytes) (v : Option Bytes) (items rest : List KeyValue)
    → (bytes_cmp key k ≡ eq → within ≡ bound)
    → get key rest ≡ (if bound then get key items else none)
    → get key (if within then (k, v) ∷ rest else rest)
      ≡ (if bound then get key ((k, v) ∷ items) else none)
combine true true key k v items rest h ih = ground (arith, ih)
combine true false key k v items rest h ih = ground (arith, h, ih)
combine false true key k v items rest h ih = ground (arith, h, ih)
combine false false key k v items rest h ih = ih

pub get-between :
    (min max : Bound Bytes) (key : Bytes) (items : List KeyValue)
    → get key (between min max items) ≡ (if in_bounds min max key then get key items else none)
get-between min max key [] = elim (Bool-cases (in_bounds min max key)) [
  | inl e ↦ rw e refl
  | inr e ↦ rw e refl
]
get-between min max key ((k, v) ∷ items) =
    combine (in_bounds min max k) (in_bounds min max key) key k v items (between min max items)
      (λ e. ap (in_bounds min max) (sym (bytes_eq_of_cmp key k e))) (get-between min max key items)

-- The iterators over tables: `whole` are all items of an iterator's tables. A seek leaves sorted
-- items, among which are those from the key on; items below the key may be among them as well.
module _ {it : SeekIter} (y : Yields it) (whole : it.State → List KeyValue) where
  abbrev pub SeeksBack : it.State → Type 0
  SeeksBack s =
      (key : Bytes)
      → ((it.seek (Seek.backward key) s).1 ≡ ok tt)
        × IsSorted (y.items (it.seek (Seek.backward key) s).0)
        × ((k : Bytes)
            → over (included key) k ≡ true
            → get k (y.items (it.seek (Seek.backward key) s).0) ≡ get k (whole s))

  abbrev pub AllSeekBack : List it.State → Type 0
  AllSeekBack [] = Unit
  AllSeekBack (s ∷ iters) = SeeksBack s × AllSeekBack iters

  -- What the tables have for a key, where the iterator looks at them.
  abbrev pub in_tables : Bound Bytes → Bytes → List it.State → Option (Option Bytes)
  in_tables (included min) key iters = first_of key (map whole iters)
  in_tables (excluded min) key iters = first_of key (map whole iters)
  in_tables unbounded key iters = none

  seek_each-ok :
      (min : Bytes) (iters : List it.State)
      → AllSeekBack iters
      → (boxes : List (BoxedIter it)) × (seek_each min iters ≡ ok boxes)
        × AllSorted (map (boxed_items y) boxes)
        × ((key : Bytes)
            → over (included min) key ≡ true
            → first_of key (map (boxed_items y) boxes) ≡ first_of key (map whole iters))
  unfolding seek_each
  seek_each-ok min [] seeks = ([], refl, tt, λ key o. refl)
  seek_each-ok min (s ∷ iters) (seek, seeks) =
      let (fine, sorted, holds) = seek min in
      let (boxes, rest, all_sorted, found) = seek_each-ok min iters seeks in
      (
        table_iter (it.seek (Seek.backward min) s).0 ∷ boxes,
        rw (seek_each, fine, rest) refl,
        (sorted, all_sorted),
        λ key o.
            ap (λ f. first_some f (first_of key (map (boxed_items y) boxes))) (holds key o)
            ∙ ap (first_some (get key (whole s))) (found key o),
      )

  pub table_iters-ok :
      (min : Bound Bytes) (iters : List it.State)
      → AllSeekBack iters
      → (boxes : List (BoxedIter it)) × (table_iters min iters ≡ ok boxes)
        × AllSorted (map (boxed_items y) boxes)
        × ((key : Bytes)
            → over min key ≡ true
            → first_of key (map (boxed_items y) boxes) ≡ in_tables min key iters)
  unfolding table_iters
  table_iters-ok (included min) iters seeks = seek_each-ok min iters seeks
  table_iters-ok (excluded min) iters seeks =
      let (boxes, sought, sorted, found) = seek_each-ok min iters seeks in
      (boxes, sought, sorted, λ key o. found key (ground arith))
  table_iters-ok unbounded iters seeks = ([], refl, tt, λ key o. refl)
