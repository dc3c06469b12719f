-- ===== src/Merging/Pull.antt =====
-- Pulling the next item of an iterator into the map keeps the entries that are to come.
use kip_db.Base.{
  ℕ, zero, suc, ◌<◌, ◌≡◌, ap, ◌∙◌, refl, Bool, Option, none, some, List, [], ◌∷◌, map, arith,
}
use kip_db.Base.Lists.{length}
use kip_db.Base.Order.{Bytes, bytes_ord}
use kip_db.Base.Search.{get_elem?}
use kip_db.Base.Update.{set, get_some, length-set}
use kip_db.Base.SortedMap.{insert, IsSorted, insert-IsSorted}
use kip_db.Data.{KeyValue}
use kip_db.Error.{KernelResult, ok}
use kip_db.Merging.{SeekIter, MergingIter, IterKey, iter_ord, MapBuf, pull, buf_map_insert}
use kip_db.Merging.Entries.{put_all, put_all-set, put_all-nil}
use kip_db.Merging.Heads.{Heads, Covers, Heads-set, Heads-nil, at}

-- An iterator that never fails: the items that a state still yields, in order.
pub record Yields (it : SeekIter) : Type 0 where
  pub items : it.State → List KeyValue
  pub next-nil :
      (s : it.State) → items s ≡ [] → ((it.try_next s).1 ≡ ok none) × (items (it.try_next s).0 ≡ [])
  pub next-cons :
      (s : it.State) (e : KeyValue) (es : List KeyValue)
      → items s ≡ e ∷ es
      → ((it.try_next s).1 ≡ ok (some e)) × (items (it.try_next s).0 ≡ es)

abbrev pub AllSorted : List (List KeyValue) → Type 0
AllSorted [] = Unit
AllSorted (items ∷ lists) = IsSorted items × AllSorted lists

-- The entries belong to iterators.
abbrev pub Below : ℕ → MapBuf → Type 0
Below n [] = Unit
Below n ((k, v) ∷ m) = (k.num < n) × Below n m

pub Below-insert :
    (n : ℕ) (k : IterKey) (v : Option Bytes) (m : MapBuf)
    → k.num < n
    → Below n m
    → Below n (insert k v m)
Below-insert n k v [] h b = (h, tt)
Below-insert n k v ((j, w) ∷ m) h (c, b) = ground (arith, Below-insert n k v m h b)

map-set :
    {A B : Type 0} (f : A → B) (xs : List A) (i : ℕ) (a : A)
    → map f (set xs i a) ≡ set (map f xs) i (f a)
map-set f [] i a = refl
map-set f (x ∷ xs) zero a = refl
map-set f (x ∷ xs) (suc i) a = ap (λ t. f x ∷ t) (map-set f xs i a)

get_elem?-map :
    {A B : Type 0} (f : A → B) (xs : List A) (i : ℕ) (a : A)
    → get_elem? xs i ≡ some a
    → get_elem? (map f xs) i ≡ some (f a)
get_elem?-map f [] i a h = cc
get_elem?-map f (x ∷ xs) zero a h = let e : x ≡ a = cc in rw e refl
get_elem?-map f (x ∷ xs) (suc i) a h = get_elem?-map f xs i a h

AllSorted-set :
    (lists : List (List KeyValue)) (i : ℕ) (items : List KeyValue)
    → AllSorted lists
    → IsSorted items
    → AllSorted (set lists i items)
AllSorted-set [] i items a s = tt
AllSorted-set (l ∷ lists) zero items (b, a) s = (s, a)
AllSorted-set (l ∷ lists) (suc i) items (b, a) s = (b, AllSorted-set lists i items a s)

AllSorted-get :
    (lists : List (List KeyValue)) (i : ℕ) (items : List KeyValue)
    → AllSorted lists
    → get_elem? lists i ≡ some items
    → IsSorted items
AllSorted-get [] i items a h = absurd (cc)
AllSorted-get (l ∷ lists) zero items (b, a) h = let e : l ≡ items = cc in rw (← e) b
AllSorted-get (l ∷ lists) (suc i) items (b, a) h = AllSorted-get lists i items a h

module _ {it : SeekIter} (y : Yields it) where
  abbrev pub lists_of : MergingIter it → List (List KeyValue)
  lists_of m = map y.items m.vec_iter

  -- All entries that are still to come.
  abbrev pub entries : MergingIter it → MapBuf
  entries m = put_all 0 (lists_of m) m.map_buf

  pub record IsMerging (q : ℕ → Bool) (m : MergingIter it) : Type 0 where
    pub sorted : IsSorted m.map_buf
    pub nums : Below (length m.vec_iter) m.map_buf
    pub heads : Heads q m.map_buf 0 (lists_of m)
    pub all_sorted : AllSorted (lists_of m)

  -- What pulling the next item of an iterator keeps.
  pub record Pulled (q' : ℕ → Bool) (m : MergingIter it)
      (p : MergingIter it × KernelResult (Unit {0})) : Type 0 where
    pub fine : p.1 ≡ ok tt
    pub same : entries p.0 ≡ entries m
    pub merging : IsMerging q' p.0
    pub next : p.0.next_buf ≡ m.next_buf
    pub count : length p.0.vec_iter ≡ length m.vec_iter

  pub pull_lem :
      (q q' : ℕ → Bool) (num : ℕ) (m : MergingIter it)
      → num < length m.vec_iter
      → Covers q q' num
      → IsMerging q m
      → Pulled q' m (pull num m)
  unfolding pull buf_map_insert
  pull_lem q q' num m below covers i =
      let (s, found) = get_some num m.vec_iter below in by_items s found (y.items s) refl
    where
      by_items :
          (s : it.State)
          → get_elem? m.vec_iter num ≡ some s
          → (items : List KeyValue) → y.items s ≡ items
          → Pulled q' m (pull num m)
      by_items s found [] e =
          let (answer, none_left) = y.next-nil s e in
          let s' = (it.try_next s).0 in
          let m' : MergingIter it = record m { vec_iter = set m.vec_iter num s' } in
          let l : lists_of m' ≡ set (lists_of m) num [] =
            map-set y.items m.vec_iter num s' ∙ ap (set (lists_of m) num) none_left in
          let g : get_elem? (lists_of m) num ≡ some [] =
            get_elem?-map y.items m.vec_iter num s found ∙ ap some e in
          let e' : pull num m ≡ (m', ok tt) = rw (pull, found, answer) in
          rw e' (record {
            fine = refl;
            same = rw l (put_all-nil 0 num (lists_of m) m.map_buf g);
            merging = record {
              sorted = i.sorted;
              nums = rw (length-set m.vec_iter num s') i.nums;
              heads =
                  rw l (
                    Heads-nil q q' num covers m.map_buf 0 num (lists_of m) (omega arith) g i.heads);
              all_sorted = rw l (AllSorted-set (lists_of m) num [] i.all_sorted tt);
            };
            next = refl;
            count = length-set m.vec_iter num s';
          })
      by_items s found ((x, v) ∷ items) e =
          let (answer, rest) = y.next-cons s (x, v) items e in
          let s' = (it.try_next s).0 in
          let m' : MergingIter it = record m {
            vec_iter = set m.vec_iter num s';
            map_buf = insert (at num x) v m.map_buf;
          } in
          let l : lists_of m' ≡ set (lists_of m) num items =
            map-set y.items m.vec_iter num s' ∙ ap (set (lists_of m) num) rest in
          let g : get_elem? (lists_of m) num ≡ some ((x, v) ∷ items) =
            get_elem?-map y.items m.vec_iter num s found ∙ ap some e in
          let (above, tail_sorted) =
            AllSorted-get (lists_of m) num ((x, v) ∷ items) i.all_sorted g in
          let e' : pull num m ≡ (m', ok tt) = rw (pull, found, answer, buf_map_insert) in
          rw e' (record {
            fine = refl;
            same = rw l (put_all-set 0 num num (lists_of m) x v items m.map_buf (omega arith) g);
            merging = record {
              sorted = insert-IsSorted (at num x) v m.map_buf i.sorted;
              nums =
                  rw (length-set m.vec_iter num s')
                    (Below-insert (length m.vec_iter) (at num x) v m.map_buf below i.nums);
              heads = rw l (
                  Heads-set q q' num covers m.map_buf 0 num (lists_of m) x v items (omega arith) g
                    above i.heads);
              all_sorted = rw l (AllSorted-set (lists_of m) num items i.all_sorted tail_sorted);
            };
            next = refl;
            count = length-set m.vec_iter num s';
          })
