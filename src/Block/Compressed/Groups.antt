-- ===== src/Block/Compressed/Groups.antt =====
-- The groups of a block and the prefixes they share.
use mathlib.Core.Path.{subst}
use kip_db.Base.{ℕ, zero, suc, ◌-◌, ◌*◌, ◌^◌, ◌≤◌, ◌<◌, ◌≡◌, refl, ◌∙◌, some, List, [], ◌∷◌, arith}
use kip_db.Base.Lists.{length, take, drop}
use kip_db.Base.Order.{Bytes}
use kip_db.Base.Search.{get_elem?}
use kip_db.Block.Prefix.{groups, longest_shared_len, longest_all, shortest}
use kip_db.Block.Prefix.Longest.{
  AllAtLeast, AllAtLeast-le, AllStart, shortest-AllAtLeast, longest_shared_len-IsLongest,
}
use kip_db.Error.{ok}
use kip_db.Base.Slices.{suc_times, drop-drop, length-drop}

module _ {T : Type 0} where
  pub groups-get :
      (fuel r g : ℕ) (kvs : List (Bytes × T))
      → 0 < r
      → length kvs ≤ fuel
      → g * r < length kvs
      → get_elem? (groups fuel r kvs) g ≡ some (take r (drop (g * r) kvs))
  unfolding groups
  groups-get fuel r g [] h enough below = absurd (omega arith)
  groups-get zero r g (kv ∷ kvs) h enough below = absurd (omega arith)
  groups-get (suc fuel) r zero (kv ∷ kvs) h enough below =
      let e : zero * r ≡ 0 = omega arith in rw e refl
  groups-get (suc fuel) r (suc g) (kv ∷ kvs) h enough below =
      let rest : List (Bytes × T) = drop r (kv ∷ kvs) in
      let e = suc_times g r in
      let size = length-drop r (kv ∷ kvs) in
      groups-get fuel r g rest h (omega arith) (omega arith)
      ∙ rw (e, drop-drop r (g * r) (kv ∷ kvs)) refl

  longest-ok : (group : List (Bytes × T)) → (len : ℕ) × (longest_shared_len group ≡ ok len)
  unfolding longest_shared_len
  longest-ok [] = (0, refl)
  longest-ok ((k, v) ∷ kvs) =
      let (len, found, _) = longest_shared_len-IsLongest k v kvs in (len, found)

  pub longest_all-get :
      (gs : List (List (Bytes × T)))
      → (lens : List ℕ) × (longest_all gs ≡ ok lens)
        × ((g : ℕ) (group : List (Bytes × T))
            → get_elem? gs g ≡ some group
            → (len : ℕ) × (get_elem? lens g ≡ some len) × (longest_shared_len group ≡ ok len))
  unfolding longest_all
  longest_all-get [] = ([], refl, λ g group h. absurd (cc))
  longest_all-get (first ∷ gs) =
      let (len, one) = longest-ok first in
      let (lens, all, each) = longest_all-get gs in
      (len ∷ lens, rw (longest_all, one, all) refl, by_index len one lens each)
    where
      by_index :
          (len : ℕ)
          → longest_shared_len first ≡ ok len
          → (lens : List ℕ)
          → ((g : ℕ) (group : List (Bytes × T))
              → get_elem? gs g ≡ some group
              → (l : ℕ) × (get_elem? lens g ≡ some l) × (longest_shared_len group ≡ ok l))
          → (g : ℕ) (group : List (Bytes × T)) → get_elem? (first ∷ gs) g ≡ some group
          → (l : ℕ) × (get_elem? (len ∷ lens) g ≡ some l) × (longest_shared_len group ≡ ok l)
      by_index len one lens each zero group h =
          let e : first ≡ group = cc in (len, refl, rw (← e) one)
      by_index len one lens each (suc g) group h = each g group h

  AllAtLeast-get :
      (n : ℕ) (kvs : List (Bytes × T)) (j : ℕ) (kv : Bytes × T)
      → AllAtLeast n kvs
      → get_elem? kvs j ≡ some kv
      → n ≤ length kv.0
  AllAtLeast-get n [] j kv a h = absurd (cc)
  AllAtLeast-get n (x ∷ kvs) zero kv (b, a) h = let e : x ≡ kv = cc in rw (← e) b
  AllAtLeast-get n (x ∷ kvs) (suc j) kv (b, a) h = AllAtLeast-get n kvs j kv a h

  AllStart-get :
      (n : ℕ) (first : Bytes) (kvs : List (Bytes × T)) (j : ℕ) (kv : Bytes × T)
      → AllStart n first kvs
      → get_elem? kvs j ≡ some kv
      → take n first ≡ take n kv.0
  AllStart-get n first [] j kv a h = absurd (cc)
  AllStart-get n first (x ∷ kvs) zero kv (b, a) h = let e : x ≡ kv = cc in rw (← e) b
  AllStart-get n first (x ∷ kvs) (suc j) kv (b, a) h = AllStart-get n first kvs j kv a h

  -- The prefix of a group is one of each of its keys.
  pub longest-get :
      (group : List (Bytes × T)) (len j : ℕ) (first kv : Bytes × T)
      → longest_shared_len group ≡ ok len
      → get_elem? group 0 ≡ some first
      → get_elem? group j ≡ some kv
      → (len ≤ length first.0) × (len ≤ length kv.0) × (take len first.0 ≡ take len kv.0)
  longest-get [] len j first kv found at_0 at_j = absurd (cc)
  longest-get ((k, v) ∷ kvs) len j first kv found at_0 at_j =
      let (len', found', l) = longest_shared_len-IsLongest k v kvs in
      let e : len' ≡ len = cc in
      let e0 : (k, v) ≡ first = cc in
      let m : ℕ = shortest (2 ^ 64 - 1) ((k, v) ∷ kvs) in
      let (_, all) = shortest-AllAtLeast (2 ^ 64 - 1) ((k, v) ∷ kvs) in
      let short : len ≤ m = rw (← e) l.small in
      let starts : AllStart len k ((k, v) ∷ kvs) =
        (refl, subst (λ n. AllStart n k kvs) e l.common) in
      let all_len = AllAtLeast-le m len ((k, v) ∷ kvs) short all in
      (
        AllAtLeast-get len ((k, v) ∷ kvs) 0 first all_len at_0,
        AllAtLeast-get len ((k, v) ∷ kvs) j kv all_len at_j,
        rw (← e0) (AllStart-get len k ((k, v) ∷ kvs) j kv starts at_j),
      )
