-- ===== src/Store/Transaction/Iter/Steps.antt =====
-- What the merging iterator yields, step by step, and what the transaction's iterator makes of it.
use mathlib.Core.Path.{subst}
use kip_db.Base.{
  ℕ, zero, suc, ◌<◌, ◌≡◌, refl, sym, ◌∙◌, ap, Bool, true, false, Bool-cases, Option-cases, inl, inr,
  Option, none, some, List, [], ◌∷◌, arith,
}
use kip_db.Base.Lists.{length}
use kip_db.Base.Order.{Bytes, bytes_ord, Bound, unbounded, under}
use kip_db.Base.SortedMap.{IsSorted, Above, between}
use kip_db.Data.{KeyValue}
use kip_db.Error.{KernelResult, ok, err, panic}
use kip_db.Merging
use kip_db.Merging.{SeekIter, MergingIter}
use kip_db.Merging.Drain.{drain}
use kip_db.Store.Transaction.Iter.{boxed, TransactionIter, cut, finish, is_none, try_next}
use kip_db.Store.Transaction.Iter.Limits.{cut-under, between-past}

-- All items, by `try_next` until there is none.
abbrev pub drain_tx : {it : SeekIter} → ℕ → ℕ → ℕ → TransactionIter it → Option (List KeyValue)
drain_tx zero rounds fuel t = none
drain_tx (suc n) rounds fuel t = elim (try_next rounds fuel t) [
  | some (t', ok (some item)) ↦ elim (drain_tx n rounds fuel t') [
    | none ↦ none
    | some items ↦ some (item ∷ items)
  ]
  | some (t', ok none) ↦ some []
  | _ ↦ none
]

module _ {it : SeekIter} where
  -- What the merging iterator yields, step by step.
  abbrev pub Steps : ℕ → MergingIter (boxed it) → List KeyValue → Type 0
  Steps fuel m [] = (m' : MergingIter (boxed it)) × (Merging.try_next fuel m ≡ some (m', ok none))
  Steps fuel m (e ∷ items) =
      (m' : MergingIter (boxed it)) × (Merging.try_next fuel m ≡ some (m', ok (some e)))
      × Steps fuel m' items

  of_next :
      ℕ
      → ℕ
      → Option (MergingIter (boxed it) × KernelResult (Option KeyValue))
      → Option (List KeyValue)
  of_next n fuel none = none
  of_next n fuel (some (m', err e)) = none
  of_next n fuel (some (m', panic)) = none
  of_next n fuel (some (m', ok none)) = some []
  of_next n fuel (some (m', ok (some item))) = elim (drain n fuel m') [
    | none ↦ none
    | some items ↦ some (item ∷ items)
  ]

  by_next :
      (n fuel : ℕ) (m : MergingIter (boxed it))
      (r : Option (MergingIter (boxed it) × KernelResult (Option KeyValue))) (items : List KeyValue)
      → Merging.try_next fuel m ≡ r
      → of_next n fuel r ≡ some items
      → ((m' : MergingIter (boxed it)) (items' : List KeyValue)
          → drain n fuel m' ≡ some items'
          → Steps fuel m' items')
      → Steps fuel m items
  unfolding of_next
  by_next n fuel m none items e h ih = absurd (cc)
  by_next n fuel m (some (m', err x)) items e h ih = absurd (cc)
  by_next n fuel m (some (m', panic)) items e h ih = absurd (cc)
  by_next n fuel m (some (m', ok none)) [] e h ih = (m', e)
  by_next n fuel m (some (m', ok none)) (x ∷ items) e h ih = absurd (cc)
  by_next n fuel m (some (m', ok (some x))) items e h ih = elim (Option-cases (drain n fuel m')) [
    | inl stuck ↦ absurd (ground (arith, h, stuck))
    | inr (xs, done) ↦
        let same : x ∷ xs ≡ items = ground (arith, h, done) in
        subst (λ l. Steps fuel m l) same (m', e, ih m' xs done)
  ]

  pub drain-Steps :
      (n fuel : ℕ) (m : MergingIter (boxed it)) (items : List KeyValue)
      → drain n fuel m ≡ some items
      → Steps fuel m items
  unfolding of_next
  drain-Steps zero fuel m items h = cc
  drain-Steps (suc n) fuel m items h =
      by_next n fuel m (Merging.try_next fuel m) items refl
        (split (Merging.try_next fuel m) refl ∙ h) (drain-Steps n fuel)
    where
      split :
          (r : Option (MergingIter (boxed it) × KernelResult (Option KeyValue)))
          → Merging.try_next fuel m ≡ r
          → of_next n fuel r ≡ drain (suc n) fuel m
      split none e = rw (drain, e) refl
      split (some (m', err x)) e = rw (drain, e) refl
      split (some (m', panic)) e = rw (drain, e) refl
      split (some (m', ok none)) e = rw (drain, e) refl
      split (some (m', ok (some x))) e = rw (drain, e) refl

  -- An iterator that has not ended.
  abbrev pub running :
      Bool → Bound Bytes → Bound Bytes → MergingIter (boxed it) → TransactionIter it
  running inited min max m = record {
    inner = m;
    min = min;
    max = max;
    is_overed = false;
    is_inited = inited;
  }

  -- It has answered with an item of the merging iterator.
  abbrev pub answered :
      Bound Bytes → Bound Bytes → MergingIter (boxed it) → Option KeyValue → TransactionIter it
  answered min max m option = record {
    inner = m;
    min = min;
    max = max;
    is_overed = is_none option;
    is_inited = true;
  }

  pub drain-last :
      (n rounds fuel : ℕ) (t t' : TransactionIter it)
      → try_next rounds fuel t ≡ some (t', ok none)
      → drain_tx (suc n) rounds fuel t ≡ some []
  drain-last n rounds fuel t t' e = rw (drain_tx, e) refl

  drain-item :
      (n rounds fuel : ℕ) (t t' : TransactionIter it) (item : KeyValue) (items : List KeyValue)
      → try_next rounds fuel t ≡ some (t', ok (some item))
      → drain_tx n rounds fuel t' ≡ some items
      → drain_tx (suc n) rounds fuel t ≡ some (item ∷ items)
  drain-item n rounds fuel t t' item items e rest = rw (drain_tx, e, rest) refl

  -- What an answer gives, if the iterator then goes on.
  pub drain-answered :
      (n rounds fuel : ℕ) (min max : Bound Bytes) (t : TransactionIter it)
      (m : MergingIter (boxed it)) (e : KeyValue) (items : List KeyValue)
      → try_next rounds fuel t ≡ some (answered min max m (cut max (some e)), ok (cut max (some e)))
      → Above e.0 items
      → drain_tx n rounds fuel (running true min max m) ≡ some (between unbounded max items)
      → drain_tx (suc n) rounds fuel t ≡ some (between unbounded max (e ∷ items))
  drain-answered n rounds fuel min max t m e items next a later =
      elim (Bool-cases (under max e.0)) [
        | inr past ↦
            let c : cut max (some e) ≡ none = cut-under max e ∙ rw past refl in
            let next' = next ∙ ap (λ option. some (answered min max m option, ok option)) c in
            drain-last n rounds fuel t (answered min max m none) next'
            ∙ ap some (sym (rw past (between-past unbounded max e.0 items a past)))
        | inl within ↦
            let c : cut max (some e) ≡ some e = cut-under max e ∙ rw within refl in
            let next' = next ∙ ap (λ option. some (answered min max m option, ok option)) c in
            drain-item n rounds fuel t (running true min max m) e (between unbounded max items)
              next' later
            ∙ rw within refl
      ]

  -- Once the minimum is passed.
  pub drain-inited :
      (n rounds fuel : ℕ) (min max : Bound Bytes) (m : MergingIter (boxed it))
      (items : List KeyValue)
      → length items < n
      → IsSorted items
      → Steps fuel m items
      → drain_tx n rounds fuel (running true min max m) ≡ some (between unbounded max items)
  unfolding try_next finish cut
  drain-inited zero rounds fuel min max m items enough s steps = absurd (omega arith)
  drain-inited (suc n) rounds fuel min max m [] enough s (m', done) =
      drain-last n rounds fuel (running true min max m) (answered min max m' none)
        (rw (try_next, done) refl)
  drain-inited (suc n) rounds fuel min max m (e ∷ items) enough (a, s) (m', done, steps) =
      drain-answered n rounds fuel min max (running true min max m) m' e items
        (rw (try_next, done) refl) a
        (drain-inited n rounds fuel min max m' items (omega arith) s steps)
