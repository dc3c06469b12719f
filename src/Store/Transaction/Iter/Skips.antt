-- ===== src/Store/Transaction/Iter/Skips.antt =====
-- The first call skips the items below the minimum; the iterator yields what is between its bounds.
use mathlib.Core.Path.{subst}
use kip_db.Base.{
  ℕ, zero, suc, ◌<◌, ◌≡◌, refl, sym, ◌∙◌, ap, true, false, Bool-cases, inl, inr, Option, none, some,
  List, [], ◌∷◌, if◌then◌else◌, arith,
}
use kip_db.Base.Lists.{length}
use kip_db.Base.Order.{Bytes, bytes_ord, Bound, unbounded, over, under}
use kip_db.Base.SortedMap.{IsSorted, between}
use kip_db.Data.{KeyValue}
use kip_db.Error.{KernelResult, ok, err, panic}
use kip_db.Merging
use kip_db.Merging.{SeekIter, MergingIter}
use kip_db.Store.Transaction.Iter.{boxed, is_below, cut, skip_loop, finish, try_next}
use kip_db.Store.Transaction.Iter.Limits.{is_below-over, between-over}
use kip_db.Store.Transaction.Iter.Steps.{
  drain_tx, Steps, running, answered, drain-last, drain-answered, drain-inited,
}

module _ {it : SeekIter} where
  -- Where the skipping of items ends.
  Landed :
      ℕ
      → Bound Bytes
      → List KeyValue
      → Option (MergingIter (boxed it) × KernelResult (Option KeyValue))
      → Type 0
  Landed fuel min items none = ⊥
  Landed fuel min items (some (m', err e)) = ⊥
  Landed fuel min items (some (m', panic)) = ⊥
  Landed fuel min items (some (m', ok none)) = (max : Bound Bytes) → between min max items ≡ []
  Landed fuel min items (some (m', ok (some y))) =
      (ys : List KeyValue) × (length ys < length items)
      × IsSorted (y ∷ ys)
      × Steps fuel m' ys
      × ((max : Bound Bytes) → between min max items ≡ between unbounded max (y ∷ ys))

  -- An item below the minimum does not count.
  Landed-skip :
      (fuel : ℕ) (min : Bound Bytes) (x : KeyValue) (items : List KeyValue)
      (r : Option (MergingIter (boxed it) × KernelResult (Option KeyValue)))
      → over min x.0 ≡ false
      → Landed fuel min items r
      → Landed fuel min (x ∷ items) r
  unfolding Landed
  Landed-skip fuel min x items none o l = absurd l
  Landed-skip fuel min x items (some (m', err e)) o l = absurd l
  Landed-skip fuel min x items (some (m', panic)) o l = absurd l
  Landed-skip fuel min x items (some (m', ok none)) o l = λ max. rw o (l max)
  Landed-skip fuel min x items (some (m', ok (some y))) o (ys, fewer, s, steps, same) =
      (ys, omega arith, s, steps, λ max. rw o (same max))

  skip_here :
      (rounds fuel : ℕ) (min : Bound Bytes) (m : MergingIter (boxed it)) (item : Option KeyValue)
      → is_below min item ≡ false
      → skip_loop (suc rounds) fuel min item m ≡ some (m, ok item)
  unfolding skip_loop
  skip_here rounds fuel min m item e = rw (skip_loop, e) refl

  skip_none :
      (rounds fuel : ℕ) (min : Bound Bytes) (m : MergingIter (boxed it))
      → 0 < rounds
      → skip_loop rounds fuel min none m ≡ some (m, ok none)
  unfolding is_below
  skip_none zero fuel min m h = absurd (omega arith)
  skip_none (suc rounds) fuel min m h = skip_here rounds fuel min m none refl

  skip_next :
      (rounds fuel : ℕ) (min : Bound Bytes) (m m' : MergingIter (boxed it))
      (item item' : Option KeyValue)
      → is_below min item ≡ true
      → Merging.try_next fuel m ≡ some (m', ok item')
      → skip_loop (suc rounds) fuel min item m ≡ skip_loop rounds fuel min item' m'
  unfolding skip_loop
  skip_next rounds fuel min m m' item item' e next = rw (skip_loop, e, next) refl

  Landed-here :
      (rounds fuel : ℕ) (min : Bound Bytes) (m : MergingIter (boxed it)) (x : KeyValue)
      (xs : List KeyValue)
      → IsSorted (x ∷ xs)
      → Steps fuel m xs
      → over min x.0 ≡ true
      → Landed fuel min (x ∷ xs) (skip_loop (suc rounds) fuel min (some x) m)
  unfolding Landed
  Landed-here rounds fuel min m x xs (a, s) steps o =
      let landed = skip_here rounds fuel min m (some x) (is_below-over min x ∙ rw o refl) in
      subst (λ r. Landed fuel min (x ∷ xs) r) (sym landed)
        (
          xs,
          omega arith,
          (a, s),
          steps,
          λ max.
              rw o (ap (λ l. if under max x.0 then x ∷ l else l) (between-over min max x.0 xs a o)),
        )

  skip_loop-Landed :
      (rounds fuel : ℕ) (min : Bound Bytes) (m : MergingIter (boxed it)) (x : KeyValue)
      (xs : List KeyValue)
      → suc (length xs) < rounds
      → IsSorted (x ∷ xs)
      → Steps fuel m xs
      → Landed fuel min (x ∷ xs) (skip_loop rounds fuel min (some x) m)
  unfolding Landed
  skip_loop-Landed zero fuel min m x xs enough s steps = absurd (omega arith)
  skip_loop-Landed (suc rounds) fuel min m x [] enough s (m', done) =
      elim (Bool-cases (over min x.0)) [
        | inl o ↦ Landed-here rounds fuel min m x [] s (m', done) o
        | inr o ↦
            let again =
              skip_next rounds fuel min m m' (some x) none (is_below-over min x ∙ rw o refl) done
              ∙ skip_none rounds fuel min m' (omega arith) in
            subst (λ r. Landed fuel min (x ∷ []) r) (sym again) (λ max. rw o refl)
      ]
  skip_loop-Landed (suc rounds) fuel min m x (y ∷ ys) enough (a, s) (m', done, steps) =
      elim (Bool-cases (over min x.0)) [
        | inl o ↦ Landed-here rounds fuel min m x (y ∷ ys) (a, s) (m', done, steps) o
        | inr o ↦
            let again =
              skip_next rounds fuel min m m' (some x) (some y) (is_below-over min x ∙ rw o refl)
                done in
            subst (λ r. Landed fuel min (x ∷ y ∷ ys) r) (sym again)
              (Landed-skip fuel min x (y ∷ ys) (skip_loop rounds fuel min (some y) m') o
                (skip_loop-Landed rounds fuel min m' y ys (omega arith) s steps))
      ]

  -- The first call, from where the skipping ends.
  drain-Landed :
      (n rounds fuel : ℕ) (min max : Bound Bytes) (m m1 : MergingIter (boxed it))
      (items : List KeyValue) (item : Option KeyValue)
      (r : Option (MergingIter (boxed it) × KernelResult (Option KeyValue)))
      → length items < suc n
      → Merging.try_next fuel m ≡ some (m1, ok item)
      → skip_loop rounds fuel min item m1 ≡ r
      → Landed fuel min items r
      → drain_tx (suc n) rounds fuel (running false min max m) ≡ some (between min max items)
  unfolding Landed try_next finish cut
  drain-Landed n rounds fuel min max m m1 items item none enough done e l = absurd l
  drain-Landed n rounds fuel min max m m1 items item (some (m', err x)) enough done e l = absurd l
  drain-Landed n rounds fuel min max m m1 items item (some (m', panic)) enough done e l = absurd l
  drain-Landed n rounds fuel min max m m1 items item (some (m', ok none)) enough done e l =
      drain-last n rounds fuel (running false min max m) (answered min max m' none)
        (rw (try_next, done, e) refl)
      ∙ ap some (sym (l max))
  drain-Landed n rounds fuel min max m m1 items item (some (m', ok (some y))) enough done e
        (ys, fewer, (a, s), steps, same) =
      drain-answered n rounds fuel min max (running false min max m) m' y ys
        (rw (try_next, done, e) refl) a
        (drain-inited n rounds fuel min max m' ys (omega arith) s steps)
      ∙ ap some (sym (same max))

  -- The iterator yields what is between its bounds, and ends.
  pub drain_tx-between :
      (n rounds fuel : ℕ) (min max : Bound Bytes) (m : MergingIter (boxed it))
      (items : List KeyValue)
      → length items < n
      → length items < rounds
      → IsSorted items
      → Steps fuel m items
      → drain_tx n rounds fuel (running false min max m) ≡ some (between min max items)
  unfolding Landed
  drain_tx-between zero rounds fuel min max m items enough again s steps = absurd (omega arith)
  drain_tx-between (suc n) rounds fuel min max m [] enough again s (m', done) =
      drain-Landed n rounds fuel min max m m' [] none (some (m', ok none)) enough done
        (skip_none rounds fuel min m' again) (λ max'. refl)
  drain_tx-between (suc n) rounds fuel min max m (x ∷ xs) enough again s (m', done, steps) =
      drain-Landed n rounds fuel min max m m' (x ∷ xs) (some x)
        (skip_loop rounds fuel min (some x) m') enough done refl
        (skip_loop-Landed rounds fuel min m' x xs again s steps)
