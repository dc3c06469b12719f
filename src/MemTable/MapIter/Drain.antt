-- ===== src/MemTable/MapIter/Drain.antt =====
-- The iterator yields the latest version of every key, in order.
use kip_db.Base.{
  ℕ, zero, suc, ◌<◌, ◌≡◌, refl, sym, ◌∙◌, ap, true, false, Bool-cases, inl, inr, Option, none, some,
  List, [], ◌∷◌, arith,
}
use kip_db.Base.Int.{i64_max, int_ord}
use kip_db.Base.Lists.{length}
use kip_db.Base.Order.{
  Bytes, bytes_ord, bytes_cmp, bytes_cmp_flip, bytes_eq_of_cmp, bytes_lt_trans, is_eq, lt,
}
use kip_db.Base.SortedMap.{IsSorted, Above, get}
use kip_db.Data.{KeyValue}
use kip_db.Error.{ok}
use kip_db.MemTable.{MemMap, seen}
use kip_db.MemTable.Key.{InternalKey, key_ord}
use kip_db.MemTable.MapIter.{MemMapIter, next_loop, create, try_next}
use kip_db.MemTable.Range.{plain}
use kip_db.MemTable.Swap.{keys, keep_last, get-keep_last, batch_value-latest, keep_last-IsSorted}
use kip_db.MemTable.Versions.{Versions, latest, UpTo}

-- All items, by `try_next` until there is none.
abbrev pub drain : {sm : MemMap} → ℕ → MemMapIter sm → Option (List KeyValue)
drain zero it = none
drain (suc n) it =
    let (it', result) = try_next it in
    elim result [
      | ok (some item) ↦ elim (drain n it') [ none ↦ none | some items ↦ some (item ∷ items) ]
      | ok none ↦ some []
      | _ ↦ none
    ]

-- Past another key, a key does not come again.
not_seen :
    (k j : InternalKey) (es : Versions)
    → bytes_cmp k.key j.key ≡ lt
    → Above j es
    → seen k.key (keys (plain es)) ≡ false
not_seen k j [] h a = refl
not_seen k j ((i, w) ∷ es) h (less, a) =
    ground
      (arith, not_seen k j es h a, bytes_lt_trans k.key j.key i.key, bytes_eq_of_cmp j.key i.key)

-- An iterator with an item kept, and entries that are left.
module _ (sm : MemMap) where
  abbrev holding : sm.Map → Option KeyValue → Versions → MemMapIter sm
  holding m prev es = record { mem_map = m; prev_item = prev; iter = some es }

  -- What follows a round of the loop.
  abbrev of_round :
      ℕ → sm.Map → Option KeyValue × Option KeyValue × Versions → Option (List KeyValue)
  of_round n m r = elim r.0 [
    | some item ↦ elim (drain n (holding m r.1 r.2)) [
      | none ↦ none
      | some items ↦ some (item ∷ items)
    ]
    | none ↦ some []
  ]

  drain_round :
      (n : ℕ) (m : sm.Map) (prev : Option KeyValue) (es : Versions)
      → drain (suc n) (holding m prev es) ≡ of_round n m (next_loop prev es)
  unfolding try_next
  drain_round n m prev es = refl

  drain-next :
      (n : ℕ) (m : sm.Map) (prev prev' : Option KeyValue) (es es' : Versions) (item : KeyValue)
      (items : List KeyValue)
      → next_loop prev es ≡ (some item, prev', es')
      → drain n (holding m prev' es') ≡ some items
      → drain (suc n) (holding m prev es) ≡ some (item ∷ items)
  drain-next n m prev prev' es es' item items e rest =
      drain_round n m prev es ∙ ap (of_round n m) e ∙ rw (of_round, rest) refl

  drain-same :
      (n : ℕ) (m : sm.Map) (prev prev' : Option KeyValue) (es es' : Versions)
      → next_loop prev es ≡ next_loop prev' es'
      → drain (suc n) (holding m prev es) ≡ drain (suc n) (holding m prev' es')
  drain-same n m prev prev' es es' e =
      drain_round n m prev es ∙ ap (of_round n m) e ∙ sym (drain_round n m prev' es')

  drain-kept :
      (n : ℕ) (m : sm.Map) (k : InternalKey) (v : Option Bytes) (es : Versions)
      → suc (length es) < n
      → IsSorted ((k, v) ∷ es)
      → drain n (holding m (some (k.key, v)) es) ≡ some (keep_last (plain ((k, v) ∷ es)))
  unfolding next_loop try_next
  drain-kept zero m k v es enough s = absurd (omega arith)
  drain-kept (suc zero) m k v es enough s = absurd (omega arith)
  drain-kept (suc (suc n)) m k v [] enough s = refl
  drain-kept (suc (suc n)) m k v ((j, w) ∷ es) enough ((less, a), (b, s)) =
      elim (Bool-cases (is_eq j.key k.key)) [
        | inl same ↦
            let e : next_loop (some (k.key, v)) ((j, w) ∷ es) ≡ next_loop (some (j.key, w)) es =
              rw (next_loop, same) refl in
            let again : is_eq k.key j.key ≡ true = ground (arith, bytes_cmp_flip j.key k.key) in
            drain-same (suc n) m (some (k.key, v)) (some (j.key, w)) ((j, w) ∷ es) es e
            ∙ drain-kept (suc (suc n)) m j w es (omega arith) (b, s)
            ∙ rw again refl
        | inr other ↦
            let e : next_loop (some (k.key, v)) ((j, w) ∷ es)
                ≡ (some (k.key, v), some (j.key, w), es) =
              rw (next_loop, other) refl in
            let below : bytes_cmp k.key j.key ≡ lt = ground (arith, bytes_cmp_flip j.key k.key) in
            let apart : is_eq k.key j.key ≡ false = ground arith in
            let new = not_seen k j es below b in
            drain-next (suc n) m (some (k.key, v)) (some (j.key, w)) ((j, w) ∷ es) es (k.key, v)
              (keep_last (plain ((j, w) ∷ es))) e (drain-kept (suc n) m j w es (omega arith) (b, s))
            ∙ rw (apart, new) refl
      ]

  drain-entries :
      (n : ℕ) (m : sm.Map) (es : Versions)
      → length es < n
      → IsSorted es
      → drain n (holding m none es) ≡ some (keep_last (plain es))
  unfolding next_loop try_next
  drain-entries zero m es enough s = absurd (omega arith)
  drain-entries (suc n) m [] enough s = refl
  drain-entries (suc n) m ((k, v) ∷ es) enough s =
      drain-same n m none (some (k.key, v)) ((k, v) ∷ es) es refl
      ∙ drain-kept (suc n) m k v es (omega arith) s

module _ {sm : MemMap} where
  -- A new iterator yields, and ends after, strictly sorted items, which hold for every key its
  -- latest version and nothing for other keys. No sequence number is assumed to exceed the range of
  -- `i64`.
  pub drain-latest :
      (m : sm.Map)
      → UpTo i64_max (sm.iter m)
      → (items : List KeyValue) × ((n : ℕ)
          → length (sm.iter m) < n
          → drain n (create {sm = sm} m) ≡ some items)
        × IsSorted items
        × ((key : Bytes) → get key items ≡ latest key i64_max (sm.iter m))
  unfolding create
  drain-latest m fits =
      let es = sm.iter m in
      (
        keep_last (plain es),
        λ n enough. drain-entries sm n m es enough (sm.iter-IsSorted m),
        keep_last-IsSorted es (sm.iter-IsSorted m),
        λ key. get-keep_last key (plain es) ∙ batch_value-latest key i64_max es fits,
      )
