-- ===== src/LruCache/Uses.antt =====
-- Reading, removing, and reading or inserting.
use mathlib.Core.Path.{subst}
use kip_db.Base.{ℕ, ◌-◌, ◌≡◌, refl, sym, ◌∙◌, ap, Option, none, some, List, ◌∷◌}
use kip_db.Base.Lists.{take}
use kip_db.Base.Order.{Ord}
use kip_db.Base.SortedMap
use kip_db.Base.SortedMap.Remove.{remove}
use kip_db.Error.{KernelResult, ok, err, panic}
use kip_db.LruCache.{LruCache, get_node, get, remove_key, get_or_insert}
use kip_db.LruCache.Nodes.{Ptr}
use kip_db.LruCache.Cells.{first_or}
use kip_db.LruCache.Keys.{ptrs, items, get-absent}
use kip_db.LruCache.Steps.{Taken, IsTaken, take_node-Taken, touch-Represents}
use kip_db.LruCache.Holds.{Holds, replace, touched, free-Represents, free_none}

module _ {K V : Type 0} ⦃o : Ord K⦄ where
  -- `get` answers the value of the key, and makes it the one used last.
  pub get-Holds :
      (k : K) (entries : List (K × V)) (c : LruCache K V)
      → Holds entries c
      → (c' : LruCache K V) × (get k c ≡ some (c', SortedMap.get k entries))
        × Holds (touched k entries) c'
        × (c'.cap ≡ c.cap)
  unfolding get get_node
  get-Holds k entries c h = by_key (SortedMap.get k (ptrs h.cells)) refl
    where
      by_key :
          (found : Option Ptr)
          → SortedMap.get k (ptrs h.cells) ≡ found
          → (c' : LruCache K V) × (get k c ≡ some (c', SortedMap.get k entries))
            × Holds (touched k entries) c'
            × (c'.cap ≡ c.cap)
      by_key none e =
          let (absent, _) = get-absent k h.cells e in
          let absent' : SortedMap.get k entries ≡ none =
            ap (SortedMap.get k) (sym h.are) ∙ absent in
          let same : entries ≡ touched k entries = rw (touched, absent') refl in
          (
            c,
            rw (get, get_node, h.rep.finds k, e, absent') refl,
            subst (λ t. Holds t c) same h,
            refl,
          )
      by_key (some p) e =
          let (c1, c2, x, rest, detached, attached, cap, rep, ptr, value, are) =
            touch-Represents k p h.cells c h.rep e in
          let value' : SortedMap.get k entries ≡ some x.value =
            ap (SortedMap.get k) (sym h.are) ∙ value in
          let (at, _, _) = rep.linked.seg in
          let at_p =
            subst
              (λ t.
                c2.heap t
                ≡ some (record {
                  key = x.key;
                  value = x.value;
                  prev = none;
                  next = first_or rest none;
                }))
              ptr at in
          let now : items (x ∷ rest) ≡ touched k entries = are ∙ rw (touched, value', h.are) refl in
          (
            c2,
            rw (get, get_node, h.rep.finds k, e, detached, attached, at_p, value') refl,
            record { cells = x ∷ rest; rep = rep; are = now },
            cap,
          )

  -- `remove` answers the value that the key had.
  pub remove_key-Holds :
      (k : K) (entries : List (K × V)) (c : LruCache K V)
      → Holds entries c
      → (c' : LruCache K V) × (remove_key k c ≡ some (c', SortedMap.get k entries))
        × Holds (remove k entries) c'
        × (c'.cap ≡ c.cap)
  unfolding remove_key
  remove_key-Holds k entries c h =
      let t = take_node-Taken k h.cells c h.rep in by_found t t.found refl t.value
    where
      by_found :
          (t : Taken k h.cells c) (found : Option Ptr)
          → t.found ≡ found
          → IsTaken k h.cells t.rest t.after found
          → (c' : LruCache K V) × (remove_key k c ≡ some (c', SortedMap.get k entries))
            × Holds (remove k entries) c'
            × (c'.cap ≡ c.cap)
      by_found t none e absent =
          let absent' : SortedMap.get k entries ≡ none =
            ap (SortedMap.get k) (sym h.are) ∙ absent in
          (
            t.after,
            rw (remove_key, t.done, e, absent') (free_none t.after),
            record { cells = t.rest; rep = t.step.rep; are = t.entries ∙ ap (remove k) h.are },
            t.step.cap,
          )
      by_found t (some p) e (n, at, value, out, was) =
          let value' : SortedMap.get k entries ≡ some n.value =
            ap (SortedMap.get k) (sym h.are) ∙ value in
          let (c', freed, rep, cap) = free-Represents t.rest t.after p n t.step.rep out at in
          (
            c',
            rw (remove_key, t.done, e, value') freed,
            record { cells = t.rest; rep = rep; are = t.entries ∙ ap (remove k) h.are },
            cap ∙ t.step.cap,
          )

  -- What `get_or_insert` makes of the entries, and its answer, for the result of the closure.
  abbrev pub got_or_inserted : ℕ → K → KernelResult V → List (K × V) → List (K × V) × KernelResult V
  got_or_inserted cap k computed entries = elim (SortedMap.get k entries) [
    | some v ↦ ((k, v) ∷ remove k entries, ok v)
    | none ↦ elim computed [
      | ok v ↦ ((k, v) ∷ take (cap - 1) (remove k entries), ok v)
      | err e ↦ (entries, err e)
      | panic ↦ (entries, panic)
    ]
  ]

  pub get_or_insert-Holds :
      (k : K) (fn_once : K → KernelResult V) (entries : List (K × V)) (c : LruCache K V)
      → Holds entries c
      → (c' : LruCache K V) × (get_or_insert k fn_once c
          ≡ some (c', (got_or_inserted c.cap k (fn_once k) entries).1))
        × Holds (got_or_inserted c.cap k (fn_once k) entries).0 c'
        × (c'.cap ≡ c.cap)
  unfolding get_or_insert
  get_or_insert-Holds k fn_once entries c h = by_key (SortedMap.get k (ptrs h.cells)) refl
    where
      Answer : List (K × V) × KernelResult V → Type 0
      Answer spec =
          (c' : LruCache K V) × (get_or_insert k fn_once c ≡ some (c', spec.1))
          × Holds spec.0 c'
          × (c'.cap ≡ c.cap)

      by_value :
          SortedMap.get k entries ≡ none
          → SortedMap.get k c.inner ≡ none
          → (computed : KernelResult V) → fn_once k ≡ computed
          → Answer (got_or_inserted c.cap k computed entries)
      by_value absent unknown (err e) f =
          let spec : got_or_inserted c.cap k (err e) entries ≡ (entries, err e) =
            rw (got_or_inserted, absent) refl in
          subst Answer (sym spec) (c, rw (get_or_insert, unknown, f) refl, h, refl)
      by_value absent unknown panic f =
          let spec : got_or_inserted c.cap k panic entries ≡ (entries, panic) =
            rw (got_or_inserted, absent) refl in
          subst Answer (sym spec) (c, rw (get_or_insert, unknown, f) refl, h, refl)
      by_value absent unknown (ok v) f =
          let r = replace k v entries c h in
          let (at, _, _) = r.rep.linked.seg in
          let spec : got_or_inserted c.cap k (ok v) entries
              ≡ ((k, v) ∷ take (c.cap - 1) (remove k entries), ok v) =
            rw (got_or_inserted, absent) refl in
          subst Answer (sym spec) (
            r.after,
            rw (get_or_insert, unknown, f, r.take_done, r.insert_done, at) refl,
            record {
              cells = record { ptr = c.unused; key = k; value = v } ∷ r.rest;
              rep = r.rep;
              are = ap (λ t. (k, v) ∷ t) r.are;
            },
            r.cap,
          )

      by_key :
          (found : Option Ptr)
          → SortedMap.get k (ptrs h.cells) ≡ found
          → Answer (got_or_inserted c.cap k (fn_once k) entries)
      by_key none e =
          let (absent, _) = get-absent k h.cells e in
          by_value (ap (SortedMap.get k) (sym h.are) ∙ absent) (h.rep.finds k ∙ e) (fn_once k) refl
      by_key (some p) e =
          let (c1, c2, x, rest, detached, attached, cap, rep, ptr, value, are) =
            touch-Represents k p h.cells c h.rep e in
          let value' : SortedMap.get k entries ≡ some x.value =
            ap (SortedMap.get k) (sym h.are) ∙ value in
          let (at, _, _) = rep.linked.seg in
          let at_p =
            subst
              (λ t.
                c2.heap t
                ≡ some (record {
                  key = x.key;
                  value = x.value;
                  prev = none;
                  next = first_or rest none;
                }))
              ptr at in
          let spec : got_or_inserted c.cap k (fn_once k) entries
              ≡ ((k, x.value) ∷ remove k entries, ok x.value) =
            rw (got_or_inserted, value') refl in
          subst Answer (sym spec) (
            c2,
            rw (get_or_insert, h.rep.finds k, e, detached, attached, at_p) refl,
            record {
              cells = x ∷ rest;
              rep = rep;
              are = are ∙ ap (λ t. (k, x.value) ∷ remove k t) h.are;
            },
            cap,
          )
