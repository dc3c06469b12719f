-- ===== src/Base/SortedMap.antt =====
-- `std::collections::BTreeMap`: entries in strictly ascending order of their keys.
pub mod Remove
use kip_db.Base.Order.{Ord, lt, eq, gt, lt_of_gt, Bound, over, under}
use kip_db.Base.Tests.{if◌then◌else◌}
use mathlib.Core.Bool.{true, ◌&&◌}
use mathlib.Core.Path.{◌≡◌, refl}
use mathlib.Core.Logic.{◌≢◌}
use mathlib.Core.Option.{Option, none, some}
use mathlib.Core.List.{List, [], ◌∷◌}
use native.Mathlib.Omega.{arith}

module _ {ℓ} {K V : Type ℓ} ⦃o : Ord K⦄ where
  -- Inserts an entry, or replaces the value of an equal key.
  abbrev pub insert : K → V → List (K × V) → List (K × V)
  insert k v [] = (k, v) ∷ []
  insert k v ((j, w) ∷ m) = elim (o.cmp k j) [
    | lt ↦ (k, v) ∷ (j, w) ∷ m
    | eq ↦ (k, v) ∷ m
    | gt ↦ (j, w) ∷ insert k v m
  ]

  -- One step of `insert` for each outcome of the comparison.
  module _ (k j : K) (v w : V) (m : List (K × V)) where
    pub insert_lt : o.cmp k j ≡ lt → insert k v ((j, w) ∷ m) ≡ (k, v) ∷ (j, w) ∷ m
    insert_lt e = rw (e, insert)

    pub insert_eq : o.cmp k j ≡ eq → insert k v ((j, w) ∷ m) ≡ (k, v) ∷ m
    insert_eq e = rw (e, insert)

    pub insert_gt : o.cmp k j ≡ gt → insert k v ((j, w) ∷ m) ≡ (j, w) ∷ insert k v m
    insert_gt e = rw (e, insert)

  abbrev pub get : K → List (K × V) → Option V
  get k [] = none
  get k ((j, w) ∷ m) = elim (o.cmp k j) [ eq ↦ some w | _ ↦ get k m ]

  -- Every key of the map is greater than `k`.
  abbrev pub Above : K → List (K × V) → Type ℓ
  Above k [] = Unit
  Above k ((j, w) ∷ m) = (o.cmp k j ≡ lt) × Above k m

  abbrev pub IsSorted : List (K × V) → Type ℓ
  IsSorted [] = Unit
  IsSorted ((j, w) ∷ m) = Above j m × IsSorted m

  pub Above-trans : (k j : K) (m : List (K × V)) → o.cmp k j ≡ lt → Above j m → Above k m
  Above-trans k j [] h a = tt
  Above-trans k j ((i, w) ∷ m) h a = (o.lt_trans k j i h a.0, Above-trans k j m h a.1)

  pub Above-insert :
      (k j : K) (v : V) (m : List (K × V)) → o.cmp k j ≡ lt → Above k m → Above k (insert j v m)
  Above-insert k j v [] h a = (h, tt)
  Above-insert k j v ((i, w) ∷ m) h a = ground (arith, Above-insert k j v m)

  pub insert-IsSorted : (k : K) (v : V) (m : List (K × V)) → IsSorted m → IsSorted (insert k v m)
  insert-IsSorted k v [] s = (tt, tt)
  insert-IsSorted k v ((j, w) ∷ m) s = ground (
    arith,
    Above-trans k j m,
    o.eq_of_cmp k j,
    Above-insert j k v m,
    lt_of_gt k j,
    insert-IsSorted k v m,
  )

  pub get-Above : (k : K) (m : List (K × V)) → Above k m → get k m ≡ none
  get-Above k [] a = refl
  get-Above k ((j, w) ∷ m) a = ground (arith, get-Above k m)

  -- What a lookup finds after an insertion.
  pub get-insert_self : (k : K) (v : V) (m : List (K × V)) → get k (insert k v m) ≡ some v
  get-insert_self k v [] = ground (arith, o.cmp_refl k)
  get-insert_self k v ((j, w) ∷ m) = ground (arith, o.cmp_refl k, get-insert_self k v m)

  pub get-insert_ne :
      (k j : K) (v : V) (m : List (K × V)) → o.cmp k j ≢ eq → get k (insert j v m) ≡ get k m
  get-insert_ne k j v [] h = ground arith
  get-insert_ne k j v ((i, w) ∷ m) h = ground (arith, o.eq_of_cmp j i, get-insert_ne k j v m)

  -- The first entry over a bound, the last entry under one, and all entries between two.
  abbrev pub first_over : Bound K → List (K × V) → Option (K × V)
  first_over b [] = none
  first_over b ((k, v) ∷ m) = if over b k then some (k, v) else first_over b m

  abbrev pub last_under : Bound K → List (K × V) → Option (K × V)
  last_under b [] = none
  last_under b ((k, v) ∷ m) = elim (last_under b m) [
    | some e ↦ some e
    | none ↦ if under b k then some (k, v) else none
  ]

  abbrev pub between : Bound K → Bound K → List (K × V) → List (K × V)
  between lo hi [] = []
  between lo hi ((k, v) ∷ m) =
      if over lo k && under hi k then (k, v) ∷ between lo hi m else between lo hi m

  pub last_under-under :
      (b : Bound K) (m : List (K × V)) (e : K × V) → last_under b m ≡ some e → under b e.0 ≡ true
  last_under-under b [] e h = ground arith
  last_under-under b ((k, v) ∷ m) e h = ground (arith, last_under-under b m e)

  pub last_under-Above :
      (b : Bound K) (j : K) (m : List (K × V)) (e : K × V)
      → Above j m
      → last_under b m ≡ some e
      → o.cmp j e.0 ≡ lt
  last_under-Above b j [] e a h = ground arith
  last_under-Above b j ((k, v) ∷ m) e a h = ground (arith, last_under-Above b j m e)
