-- ===== src/Merging/Drain.antt =====
-- A merging iterator yields the items of all its iterators.
use mathlib.Core.Path.{subst}
use kip_db.Base.{
  ℕ, zero, suc, ◌≤◌, ◌<◌, ◌≡◌, ap, sym, ◌∙◌, refl, Bool-cases, inl, inr, Bool, not, Option, none,
  some, List, [], ◌∷◌, ◌==◌, if◌then◌else◌, arith,
}
use kip_db.Base.Lists.{length}
use kip_db.Base.Order.{Bytes, bytes_ord, is_eq}
use kip_db.Base.SortedMap.{IsSorted}
use kip_db.Data.{KeyValue}
use kip_db.Error.{KernelResult, ok}
use kip_db.Merging.{SeekIter, MergingIter, IterKey, iter_ord, MapBuf, pull, next_loop, try_next}
use kip_db.Merging.Entries.{put, put_all, put_all-cons}
use kip_db.Merging.Heads.{Heads, everyone, Heads-AllAfter, Heads-tail}
use kip_db.Merging.Pull.{Yields, Below, IsMerging, pull_lem, lists_of, entries}

-- The first entry of each run of entries with one key, after a key.
abbrev pub runs_from : Bytes → MapBuf → List KeyValue
runs_from key [] = []
runs_from key ((k, v) ∷ m) =
    if is_eq key k.key then runs_from key m else (k.key, v) ∷ runs_from k.key m

abbrev pub runs : MapBuf → List KeyValue
runs [] = []
runs ((k, v) ∷ m) = (k.key, v) ∷ runs_from k.key m

-- The items of all iterators, sorted by their keys and then by the number of the iterator, and of
-- those with one key the first.
abbrev pub merged : List (List KeyValue) → List KeyValue
merged lists = runs (put_all 0 lists [])

-- All items, by `try_next` with the fuel `fuel` until there is none.
abbrev pub drain : {it : SeekIter} → ℕ → ℕ → MergingIter it → Option (List KeyValue)
drain zero fuel m = none
drain (suc n) fuel m = elim (try_next fuel m) [
  | some (m', ok (some item)) ↦ elim (drain n fuel m') [
    | none ↦ none
    | some items ↦ some (item ∷ items)
  ]
  | some (m', ok none) ↦ some []
  | _ ↦ none
]

pub no_entries :
    (n : ℕ) (lists : List (List KeyValue)) → Heads everyone [] n lists → put_all n lists [] ≡ []
unfolding put_all put
no_entries n [] h = refl
no_entries n ([] ∷ lists) (_, h) = no_entries (suc n) lists h
no_entries n ((x ∷ items) ∷ lists) (h, _) = let (k, v, found, _) = h refl in absurd (cc)

module _ {it : SeekIter} (y : Yields it) where
  pub with_next :
      (q : ℕ → Bool) (m : MergingIter it) (next : Option KeyValue)
      → IsMerging y q m
      → IsMerging y q (record m { next_buf = next })
  with_next q m next i = record {
    sorted = i.sorted;
    nums = i.nums;
    heads = i.heads;
    all_sorted = i.all_sorted;
  }

  pub popped :
      (m : MergingIter it) (e : IterKey) (u : Option Bytes) (rest : MapBuf)
      → m.map_buf ≡ (e, u) ∷ rest
      → IsMerging y everyone m
      → let m' : MergingIter it = record m { map_buf = rest } in
        (entries y m ≡ (e, u) ∷ entries y m')
        × IsMerging y (λ j. not (j == e.num)) m'
        × (e.num < length m.vec_iter)
  popped m e u rest h i =
      let sorted : IsSorted ((e, u) ∷ rest) = subst (λ b. IsSorted b) h i.sorted in
      let nums : Below (length m.vec_iter) ((e, u) ∷ rest) =
        subst (λ b. Below (length m.vec_iter) b) h i.nums in
      let heads : Heads everyone ((e, u) ∷ rest) 0 (lists_of y m) =
        subst (λ b. Heads everyone b 0 (lists_of y m)) h i.heads in
      (
        rw h (
            put_all-cons e u 0 (lists_of y m) rest
              (Heads-AllAfter e u rest 0 (lists_of y m) sorted.0 heads)),
        record {
          sorted = sorted.1;
          nums = nums.1;
          heads = Heads-tail e u rest 0 (lists_of y m) heads;
          all_sorted = i.all_sorted;
        },
        nums.0,
      )

  -- What the loop of `try_next` leaves of the entries.
  abbrev Left : Bytes → MapBuf → Option KeyValue → MapBuf → Type 0
  Left key before none after = runs_from key before ≡ []
  Left key before (some item) after =
      (runs_from key before ≡ item ∷ runs_from item.0 after) × (length after < length before)

  Left-skip :
      (key : Bytes) (b b' : MapBuf) (next : Option KeyValue) (after : MapBuf)
      → runs_from key b ≡ runs_from key b'
      → length b' ≤ length b
      → Left key b' next after
      → Left key b next after
  Left-skip key b b' none after e le l = e ∙ l
  Left-skip key b b' (some item) after e le (l, short) = (e ∙ l, omega arith)

  -- Where the loop ends.
  abbrev Next : Bytes → MergingIter it → Option (MergingIter it × KernelResult (Unit {0})) → Type 0
  Next key m none = ⊥
  Next key m (some (m', r)) =
      (r ≡ ok tt) × IsMerging y everyone m' × Left key (entries y m) m'.next_buf (entries y m')

  Next-skip :
      (key : Bytes) (m m' : MergingIter it) (r : Option (MergingIter it × KernelResult (Unit {0})))
      → runs_from key (entries y m) ≡ runs_from key (entries y m')
      → length (entries y m') ≤ length (entries y m)
      → Next key m' r
      → Next key m r
  Next-skip key m m' none e le n = absurd n
  Next-skip key m m' (some (w, r)) e le (fine, i, l) =
      (fine, i, Left-skip key (entries y m) (entries y m') w.next_buf (entries y w) e le l)

  next_loop_lem :
      (fuel : ℕ) (key : Bytes) (m : MergingIter it)
      → length (entries y m) < fuel
      → m.next_buf ≡ none
      → IsMerging y everyone m
      → Next key m (next_loop fuel key m)
  unfolding next_loop
  next_loop_lem zero key m enough none_next i = absurd (omega arith)
  next_loop_lem (suc fuel) key m enough none_next i = by_map m.map_buf refl (next_loop_lem fuel key)
    where
      by_map :
          (b : MapBuf)
          → m.map_buf ≡ b
          → ((m' : MergingIter it)
              → length (entries y m') < fuel
              → m'.next_buf ≡ none
              → IsMerging y everyone m'
              → Next key m' (next_loop fuel key m'))
          → Next key m (next_loop (suc fuel) key m)
      by_map [] h later =
          let e : entries y m ≡ [] = rw h (
            no_entries 0 (lists_of y m)
              (subst (λ b. Heads everyone b 0 (lists_of y m)) h i.heads)) in
          let ends : next_loop (suc fuel) key m ≡ some (m, ok tt) =
            rw (next_loop, h) (ap (λ (b : MapBuf). some (record m { map_buf = b }, ok tt)) h) in
          rw ends (refl, i, rw none_next (ap (runs_from key) e))
      by_map ((e, u) ∷ rest) h later =
          let m0 : MergingIter it = record m { map_buf = rest } in
          let (all, i0, below) = popped m e u rest h i in
          let p =
            pull_lem y (λ j. not (j == e.num)) everyone e.num m0 below (λ j ne t. ground arith)
              i0 in
          let step : entries y m ≡ (e, u) ∷ entries y (pull e.num m0).0 =
            all ∙ ap (λ t. (e, u) ∷ t) (sym p.same) in
          let shorter : length (entries y m) ≡ suc (length (entries y (pull e.num m0).0)) =
            ap length step in
          elim (Bool-cases (is_eq key e.key)) [
            | inl same ↦
                let again : next_loop (suc fuel) key m ≡ next_loop fuel key (pull e.num m0).0 =
                  rw (next_loop, h, p.fine, same) refl in
                let skipped : runs_from key (entries y m)
                    ≡ runs_from key (entries y (pull e.num m0).0) =
                  ap (runs_from key) step ∙ rw same refl in
                rw again (
                  Next-skip key m (pull e.num m0).0 (next_loop fuel key (pull e.num m0).0) skipped
                    (omega arith)
                    (later (pull e.num m0).0 (omega arith) (p.next ∙ none_next) p.merging))
            | inr other ↦
                let m' : MergingIter it = record (pull e.num m0).0 { next_buf = some (e.key, u) } in
                let ends : next_loop (suc fuel) key m ≡ some (m', ok tt) =
                  rw (next_loop, h, p.fine, other) refl in
                rw ends (
                  refl,
                  with_next everyone (pull e.num m0).0 (some (e.key, u)) p.merging,
                  (ap (runs_from key) step ∙ rw other refl, omega arith),
                )
          ]

  pub drain-end :
      (n fuel : ℕ) (m : MergingIter it) → zero < n → m.next_buf ≡ none → drain n fuel m ≡ some []
  unfolding try_next
  drain-end zero fuel m h e = absurd (omega arith)
  drain-end (suc n) fuel m h e = rw (try_next, e) refl

  drain-item :
      (n fuel : ℕ) (m m' : MergingIter it) (item : KeyValue) (items : List KeyValue)
      → try_next fuel m ≡ some (m', ok (some item))
      → drain n fuel m' ≡ some items
      → drain (suc n) fuel m ≡ some (item ∷ items)
  drain-item n fuel m m' item items e rest = rw (drain, e, rest) refl

  pub drain-entries :
      (n fuel : ℕ) (item : KeyValue) (m : MergingIter it)
      → m.next_buf ≡ some item
      → length (entries y m) < fuel
      → suc (length (entries y m)) < n
      → IsMerging y everyone m
      → drain n fuel m ≡ some (item ∷ runs_from item.0 (entries y m))
  unfolding try_next
  drain-entries zero fuel item m next enough steps i = absurd (omega arith)
  drain-entries (suc n) fuel item m next enough steps i =
      let m0 : MergingIter it = record m { next_buf = none } in
      by_loop (next_loop fuel item.0 m0) refl
        (next_loop_lem fuel item.0 m0 enough refl (with_next everyone m none i))
        (drain-entries n fuel)
    where
      Later : Type 0
      Later =
          (item' : KeyValue) (m' : MergingIter it)
          → m'.next_buf ≡ some item'
          → length (entries y m') < fuel
          → suc (length (entries y m')) < n
          → IsMerging y everyone m'
          → drain n fuel m' ≡ some (item' ∷ runs_from item'.0 (entries y m'))

      by_next :
          (m' : MergingIter it) (next' : Option KeyValue)
          → m'.next_buf ≡ next'
          → try_next fuel m ≡ some (m', ok (some item))
          → IsMerging y everyone m'
          → Left item.0 (entries y m) next' (entries y m')
          → Later
          → drain (suc n) fuel m ≡ some (item ∷ runs_from item.0 (entries y m))
      by_next m' none e tried i' l later =
          drain-item n fuel m m' item [] tried (drain-end n fuel m' (omega arith) e)
          ∙ ap (λ t. some (item ∷ t)) (sym l)
      by_next m' (some item') e tried i' (l, short) later =
          drain-item n fuel m m' item (item' ∷ runs_from item'.0 (entries y m')) tried
            (later item' m' e (omega arith) (omega arith) i')
          ∙ ap (λ t. some (item ∷ t)) (sym l)

      by_loop :
          (r : Option (MergingIter it × KernelResult (Unit {0})))
          → next_loop fuel item.0 (record m { next_buf = none }) ≡ r
          → Next item.0 (record m { next_buf = none }) r
          → Later
          → drain (suc n) fuel m ≡ some (item ∷ runs_from item.0 (entries y m))
      by_loop none e l later = absurd l
      by_loop (some (m', r)) e (fine, i', l) later =
          by_next m' m'.next_buf refl (rw (try_next, next, e, fine) refl) i' l later
