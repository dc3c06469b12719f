-- ===== src/Base/SortedMap/Remove.antt =====
-- `BTreeMap::remove`, with the number of entries.
use kip_db.Base.{suc, arith, refl, ◌≡◌, ◌≢◌, none, some, List, [], ◌∷◌}
use kip_db.Base.Lists.{length}
use kip_db.Base.Order.{Ord, eq}
use kip_db.Base.SortedMap.{insert, get, Above, IsSorted, get-Above}

module _ {K V : Type 0} ⦃o : Ord K⦄ where
  abbrev pub remove : K → List (K × V) → List (K × V)
  remove k [] = []
  remove k ((j, w) ∷ m) = elim (o.cmp k j) [ eq ↦ m | _ ↦ (j, w) ∷ remove k m ]

  Above-remove : (k j : K) (m : List (K × V)) → Above k m → Above k (remove j m)
  Above-remove k j [] a = tt
  Above-remove k j ((i, w) ∷ m) a = ground (arith, Above-remove k j m)

  pub remove-IsSorted : (k : K) (m : List (K × V)) → IsSorted m → IsSorted (remove k m)
  remove-IsSorted k [] s = tt
  remove-IsSorted k ((j, w) ∷ m) s = ground (arith, Above-remove j k m, remove-IsSorted k m)

  pub get-remove_self : (k : K) (m : List (K × V)) → IsSorted m → get k (remove k m) ≡ none
  get-remove_self k [] s = refl
  get-remove_self k ((j, w) ∷ m) s =
      ground (arith, o.eq_of_cmp k j, get-Above k m, get-remove_self k m)

  pub get-remove_ne : (k j : K) (m : List (K × V)) → o.cmp k j ≢ eq → get k (remove j m) ≡ get k m
  get-remove_ne k j [] h = refl
  get-remove_ne k j ((i, w) ∷ m) h = ground (arith, o.eq_of_cmp j i, get-remove_ne k j m h)

  pub length-remove :
      (k : K) (m : List (K × V)) (v : V) → get k m ≡ some v → length m ≡ suc (length (remove k m))
  length-remove k [] v h = ground arith
  length-remove k ((j, w) ∷ m) v h = ground (arith, length-remove k m v)

  pub length-insert_new :
      (k : K) (v : V) (m : List (K × V)) → get k m ≡ none → length (insert k v m) ≡ suc (length m)
  length-insert_new k v [] h = refl
  length-insert_new k v ((j, w) ∷ m) h = ground (arith, length-insert_new k v m)
