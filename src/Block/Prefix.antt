-- ===== src/Block/Prefix.antt =====
-- src/kernel/lsm/table/ss_table/block.rs: the length of the longest common prefix of the keys of a
-- restart group, by a binary search.
pub mod Longest
use kip_db.Base.{
  ℕ, zero, suc, ◌+◌, ◌-◌, ◌/◌, ◌^◌, Bool, true, false, List, [], ◌∷◌, ltb, leb, ◌==◌, if◌then◌else◌,
}
use kip_db.Base.Lists.{length, take, drop}
use kip_db.Base.Order.{Bytes}
use kip_db.Error.{KernelResult, ok, panic, ◌>>=◌}

-- The inner loop of `is_common_prefix`: an index that is out of range panics.
unfoldable pub agree : ℕ → Bytes → Bytes → KernelResult Bool
agree zero first key = ok true
agree (suc n) (x ∷ first) (y ∷ key) =
    let rest = agree n first key in if x == y then rest else ok false
agree (suc n) first key = panic

module _ {T : Type 0} where
  unfoldable pub agree_all : ℕ → Bytes → List (Bytes × T) → KernelResult Bool
  unfolding agree
  agree_all len first [] = ok true
  agree_all len first (kv ∷ sharding) =
      let rest = agree_all len first sharding in
      agree len first kv.0 >>= λ same. if same then rest else ok false

  unfoldable pub is_common_prefix : List (Bytes × T) → ℕ → KernelResult Bool
  unfolding agree_all
  is_common_prefix [] len = panic
  is_common_prefix (first ∷ sharding) len = agree_all len first.0 sharding

  unfoldable pub shortest : ℕ → List (Bytes × T) → ℕ
  shortest min_len [] = min_len
  shortest min_len (kv ∷ sharding) =
      shortest (if leb min_len (length kv.0) then min_len else length kv.0) sharding

  -- The loop, on fuel: without fuel, which does not happen, it panics.
  unfoldable pub search_len : ℕ → List (Bytes × T) → ℕ → ℕ → KernelResult ℕ
  unfolding is_common_prefix
  search_len zero sharding low high = panic
  search_len (suc fuel) sharding low high =
      let mid = (high - low + 1) / 2 + low in
      let upper = search_len fuel sharding mid high in
      let lower = search_len fuel sharding low (mid - 1) in
      if ltb low high
      then (is_common_prefix sharding mid >>= λ common. if common then upper else lower)
      else ok low

  unfoldable pub longest_shared_len : List (Bytes × T) → KernelResult ℕ
  unfolding shortest search_len
  longest_shared_len [] = ok 0
  longest_shared_len (kv ∷ sharding) =
      let min_len = shortest (2 ^ 64 - 1) (kv ∷ sharding) in
      search_len (suc min_len) (kv ∷ sharding) 0 min_len

  -- The groups of the items with one `i / restart_interval`; an item takes one unit of fuel.
  unfoldable pub groups : ℕ → ℕ → List (Bytes × T) → List (List (Bytes × T))
  groups zero restart_interval vec_kv = []
  groups (suc fuel) restart_interval [] = []
  groups (suc fuel) restart_interval (kv ∷ vec_kv) =
      take restart_interval (kv ∷ vec_kv)
      ∷ groups fuel restart_interval (drop restart_interval (kv ∷ vec_kv))

  unfoldable pub longest_all : List (List (Bytes × T)) → KernelResult (List ℕ)
  unfolding longest_shared_len
  longest_all [] = ok []
  longest_all (group ∷ rest) = do
    len ← longest_shared_len group
    lens ← longest_all rest
    ok (len ∷ lens)

  unfoldable pub sharding_shared_len : List (Bytes × T) → ℕ → KernelResult (List ℕ)
  unfolding longest_all groups
  sharding_shared_len vec_kv restart_interval =
      if restart_interval == 0
      then panic
      else longest_all (groups (length vec_kv) restart_interval vec_kv)
