-- ===== src/Merging/Merged.antt =====
-- A new merging iterator yields the merged items of its iterators.
use mathlib.Core.Path.{subst}
use kip_db.Base.{
  ℕ, zero, suc, ◌+◌, ◌≤◌, ◌<◌, ◌≡◌, ap, sym, ◌∙◌, refl, Option, none, some, List, [], ◌∷◌, map, ltb,
  arith,
}
use kip_db.Base.Lists.{length}
use kip_db.Base.Order.{Bytes, bytes_cmp_refl}
use kip_db.Base.SortedMap.{insert}
use kip_db.Data.{KeyValue}
use kip_db.Error.{ok}
use kip_db.Merging.{
  SeekIter, MergingIter, IterKey, MapBuf, pull, pull_all, create, init_next_buf, iter_ord,
}
use kip_db.Merging.Entries.{put, put_all}
use kip_db.Merging.Heads.{Heads, everyone, at}
use kip_db.Merging.Pull.{Yields, AllSorted, IsMerging, Pulled, pull_lem, lists_of, entries}
use kip_db.Merging.Drain.{
  runs_from, runs, merged, drain, no_entries, popped, with_next, drain-end, drain-entries,
}

-- The number of items.
abbrev pub total : List (List KeyValue) → ℕ
total [] = zero
total (items ∷ lists) = length items + total lists

length-insert :
    (k : IterKey) (v : Option Bytes) (m : MapBuf) → length (insert k v m) ≤ suc (length m)
length-insert k v [] = omega arith
length-insert k v ((j, w) ∷ m) = ground (arith, length-insert k v m)

length-put :
    (num : ℕ) (items : List KeyValue) (m : MapBuf)
    → length (put num items m) ≤ length items + length m
unfolding put
length-put num [] m = omega arith
length-put num ((k, v) ∷ items) m =
    omega (arith, length-put num items (insert (at num k) v m), length-insert (at num k) v m)

pub length-put_all :
    (num : ℕ) (lists : List (List KeyValue)) (m : MapBuf)
    → length (put_all num lists m) ≤ total lists + length m
unfolding put_all
length-put_all num [] m = omega arith
length-put_all num (items ∷ lists) m =
    omega (arith, length-put_all (suc num) lists (put num items m), length-put num items m)

Heads-no_one :
    (m : MapBuf) (n : ℕ) (lists : List (List KeyValue)) → Heads (λ j. ltb j zero) m n lists
Heads-no_one m n [] = tt
Heads-no_one m n (items ∷ lists) = (λ h. absurd (ground arith), Heads-no_one m (suc n) lists)

Heads-everyone :
    (top : ℕ) (m : MapBuf) (n : ℕ) (lists : List (List KeyValue))
    → n + length lists ≤ top
    → Heads (λ j. ltb j top) m n lists
    → Heads everyone m n lists
Heads-everyone top m n [] le h = tt
Heads-everyone top m n (items ∷ lists) le (h, hs) =
    (λ t. h (ground arith), Heads-everyone top m (suc n) lists (omega arith) hs)

length-map : {A B : Type 0} (f : A → B) (xs : List A) → length (map f xs) ≡ length xs
length-map f [] = refl
length-map f (x ∷ xs) = omega (arith, length-map f xs)

runs-again :
    (e : IterKey) (u : Option Bytes) (m : MapBuf)
    → (e.key, u) ∷ runs_from e.key ((e, u) ∷ m) ≡ runs ((e, u) ∷ m)
runs-again e u m = ground (arith, bytes_cmp_refl e.key)

module _ {it : SeekIter} (y : Yields it) where
  pull_all_lem :
      (num : ℕ) (iters : List it.State) (m : MergingIter it)
      → num + length iters ≡ length m.vec_iter
      → IsMerging y (λ j. ltb j num) m
      → Pulled y (λ j. ltb j (num + length iters)) m (pull_all num iters m)
  unfolding pull_all
  pull_all_lem num [] m count i =
      let top : num ≡ num + zero = omega arith in
      record {
        fine = refl;
        same = refl;
        merging = subst (λ t. IsMerging y (λ j. ltb j t) m) top i;
        next = refl;
        count = refl;
      }
  pull_all_lem num (iter ∷ iters) m count i =
      let p =
        pull_lem y (λ j. ltb j num) (λ j. ltb j (suc num)) num m (omega arith)
          (λ j ne t. ground arith) i in
      let m' : MergingIter it = (pull num m).0 in
      let again : pull_all num (iter ∷ iters) m ≡ pull_all (suc num) iters m' =
        rw (pull_all, p.fine) refl in
      let rest = pull_all_lem (suc num) iters m' (omega (arith, p.count)) p.merging in
      let top : suc num + length iters ≡ num + suc (length iters) = omega arith in
      rw again (record {
        fine = rest.fine;
        same = rest.same ∙ p.same;
        merging =
            subst (λ t. IsMerging y (λ j. ltb j t) (pull_all (suc num) iters m').0) top
              rest.merging;
        next = rest.next ∙ p.next;
        count = rest.count ∙ p.count;
      })

  drain-init :
      (n fuel : ℕ) (m : MergingIter it)
      → IsMerging y everyone m
      → length (entries y m) < fuel
      → suc (length (entries y m)) < n
      → drain n fuel (init_next_buf m) ≡ some (runs (entries y m))
  unfolding init_next_buf
  drain-init n fuel m i enough steps = by_map m.map_buf refl
    where
      by_map :
          (b : MapBuf) → m.map_buf ≡ b → drain n fuel (init_next_buf m) ≡ some (runs (entries y m))
      by_map [] h =
          let e : entries y m ≡ [] =
            subst (λ b. put_all 0 (lists_of y m) b ≡ []) (sym h)
              (no_entries 0 (lists_of y m)
                (subst (λ b. Heads everyone b 0 (lists_of y m)) h i.heads)) in
          drain-end y n fuel (init_next_buf m) (omega arith) (rw (init_next_buf, h) refl)
          ∙ ap (λ t. some (runs t)) (sym e)
      by_map ((e, u) ∷ rest) h =
          let all = (popped y m e u rest h i).0 in
          drain-entries y n fuel (e.key, u) (init_next_buf m) (rw (init_next_buf, h) refl) enough
            steps (with_next y everyone m (init_next_buf m).next_buf i)
          ∙ ap some (
              ap (λ b. (e.key, u) ∷ runs_from e.key b) all
              ∙ runs-again e u (entries y (record m { map_buf = rest }))
              ∙ ap runs (sym all))

  -- Over iterators that never fail and yield sorted items, `new` succeeds, and repeated `try_next`
  -- then yields the merged items, once each: sorted by key, of equal keys that of the first
  -- iterator. It is enough to give the loop more rounds than there are items, and to ask one time
  -- more.
  pub drain-merged :
      (vec_iter : List it.State) (n fuel : ℕ)
      → AllSorted (map y.items vec_iter)
      → total (map y.items vec_iter) < fuel
      → suc (total (map y.items vec_iter)) < n
      → ((create {it = it} vec_iter).1 ≡ ok tt)
        × (drain n fuel (create {it = it} vec_iter).0 ≡ some (merged (map y.items vec_iter)))
  unfolding create
  drain-merged vec_iter n fuel sorted enough steps =
      let m0 : MergingIter it = record { vec_iter = vec_iter; map_buf = []; next_buf = none } in
      let lists : List (List KeyValue) = map y.items vec_iter in
      let p =
        pull_all_lem 0 vec_iter m0 (omega arith) (record {
          sorted = tt;
          nums = tt;
          heads = Heads-no_one [] 0 lists;
          all_sorted = sorted;
        }) in
      let created : create vec_iter ≡ (init_next_buf (pull_all 0 vec_iter m0).0, ok tt) =
        rw (create, p.fine) refl in
      let i : IsMerging y everyone (pull_all 0 vec_iter m0).0 = record {
        sorted = p.merging.sorted;
        nums = p.merging.nums;
        heads =
            Heads-everyone (0 + length vec_iter) (pull_all 0 vec_iter m0).0.map_buf 0
              (lists_of y (pull_all 0 vec_iter m0).0)
              (omega (arith, p.count, length-map y.items (pull_all 0 vec_iter m0).0.vec_iter))
              p.merging.heads;
        all_sorted = p.merging.all_sorted;
      } in
      let short = length-put_all 0 lists [] in
      rw created (
        refl,
        drain-init n fuel (pull_all 0 vec_iter m0).0 i (rw p.same (omega arith))
              (rw p.same (omega arith))
            ∙ ap (λ t. some (runs t)) p.same,
      )
