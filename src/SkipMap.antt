-- ===== src/SkipMap.antt =====
-- The ordered map of the crate skiplist, as an interface: its operations, with the laws that the
-- crate documents, stated of the entries that `iter` yields. `sorted_list` is a map that meets them.
use mathlib.Core.List.{foldl}
use kip_db.Base.{ℕ, ◌≡◌, refl, Bool, true, false, Option, List, [], ◌∷◌}
use kip_db.Base.Lists.{length}
use kip_db.Base.Order.{Ord, Bound}
use kip_db.Base.SortedMap
use kip_db.Base.SortedMap.{IsSorted, first_over, last_under, between, insert-IsSorted}

abbrev pub insert_entry : {K V : Type 0} ⦃o : Ord K⦄ → List (K × V) → K × V → List (K × V)
insert_entry m e = SortedMap.insert e.0 e.1 m

abbrev pub is_nil : {A : Type 0} → List A → Bool
is_nil [] = true
is_nil (x ∷ xs) = false

pub record SkipMap (K V : Type 0) ⦃o : Ord K⦄ : Type 1 where
  pub Map : Type 0
  pub new : Map
  pub from_iter : List (K × V) → Map
  pub insert : K → V → Map → Map
  pub iter : Map → List (K × V)
  pub len : Map → ℕ
  pub is_empty : Map → Bool
  pub lower_bound : Bound K → Map → Option (K × V)
  pub upper_bound : Bound K → Map → Option (K × V)
  pub range : Bound K → Bound K → Map → List (K × V)
  pub iter-IsSorted : (m : Map) → IsSorted (iter m)
  pub iter-new : iter new ≡ []
  pub iter-from_iter : (es : List (K × V)) → iter (from_iter es) ≡ foldl insert_entry [] es
  pub iter-insert : (k : K) (v : V) (m : Map) → iter (insert k v m) ≡ SortedMap.insert k v (iter m)
  pub len-iter : (m : Map) → len m ≡ length (iter m)
  pub is_empty-iter : (m : Map) → is_empty m ≡ is_nil (iter m)
  pub lower_bound-iter : (b : Bound K) (m : Map) → lower_bound b m ≡ first_over b (iter m)
  pub upper_bound-iter : (b : Bound K) (m : Map) → upper_bound b m ≡ last_under b (iter m)
  pub range-iter : (lo hi : Bound K) (m : Map) → range lo hi m ≡ between lo hi (iter m)

module _ {K V : Type 0} ⦃o : Ord K⦄ where
  pub foldl-IsSorted : (es m : List (K × V)) → IsSorted m → IsSorted (foldl insert_entry m es)
  foldl-IsSorted [] m s = s
  foldl-IsSorted (e ∷ es) m s = foldl-IsSorted es (insert_entry m e) (insert-IsSorted e.0 e.1 m s)

-- A sorted list with the proof that it is sorted.
abbrev pub sorted_list : (K V : Type 0) ⦃o : Ord K⦄ → SkipMap K V
sorted_list K V = record {
  Map = (m : List (K × V)) × IsSorted m;
  new = ([], tt);
  from_iter = λ es. (foldl insert_entry [] es, foldl-IsSorted es [] tt);
  insert = λ k v m. (SortedMap.insert k v m.0, insert-IsSorted k v m.0 m.1);
  iter = λ m. m.0;
  len = λ m. length m.0;
  is_empty = λ m. is_nil m.0;
  lower_bound = λ b m. first_over b m.0;
  upper_bound = λ b m. last_under b m.0;
  range = λ lo hi m. between lo hi m.0;
  iter-IsSorted = λ m. m.1;
  iter-new = refl;
  iter-from_iter = λ es. refl;
  iter-insert = λ k v m. refl;
  len-iter = λ m. refl;
  is_empty-iter = λ m. refl;
  lower_bound-iter = λ b m. refl;
  upper_bound-iter = λ b m. refl;
  range-iter = λ lo hi m. refl;
}
