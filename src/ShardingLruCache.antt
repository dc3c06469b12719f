-- ===== src/ShardingLruCache.antt =====
-- src/kernel/utils/lru_cache.rs: the cache in shards, one of which has all entries of a key. Each
-- method holds the lock of its shard throughout, and is one step.
pub mod Shards
mod Tests
use kip_db.Base.{
  ℕ, zero, suc, ◌/◌, ◌%◌, ◌^◌, Bool, true, false, Option, none, some, List, [], ◌∷◌, ◌==◌,
  if◌then◌else◌,
}
use kip_db.Base.Lists.{length}
use kip_db.Base.Order.{Ord}
use kip_db.Base.Search.{get_elem?}
use kip_db.Base.Update.{set}
use kip_db.Error.{KernelError, KernelResult, ok, err, panic, ◌>>=◌}
use kip_db.LruCache
use kip_db.LruCache.{LruCache}
use kip_db.LruCache.Nodes.{◌>>=◌ as ◌>>=?◌}

pub record ShardingLruCache (K V : Type 0) : Type 0 where
  pub sharding_vec : List (LruCache K V)

module _ {K V : Type 0} ⦃o : Ord K⦄ where
  -- The loop of `new`.
  unfoldable pub new_shards : ℕ → ℕ → KernelResult (List (LruCache K V))
  new_shards zero sharding_cap = ok []
  new_shards (suc n) sharding_cap = do
    c ← LruCache.create sharding_cap
    rest ← new_shards n sharding_cap
    ok (c ∷ rest)

  unfoldable pub create : ℕ → ℕ → KernelResult (ShardingLruCache K V)
  unfolding new_shards
  create cap sharding_size =
      if sharding_size == 0
      then panic
      else (if cap % sharding_size == 0
          then (new_shards sharding_size (cap / sharding_size) >>= λ shards.
              ok (record { sharding_vec = shards }))
          else err KernelError.sharding_not_align)

  -- `is_empty`
  unfoldable pub is_empty : List (LruCache K V) → Bool
  is_empty [] = true
  is_empty (lru ∷ shards) =
      let rest = is_empty shards in if LruCache.is_empty lru then rest else false

  module _ (hash : K → ℕ) where
    -- The index of `shard`: what the hasher finishes with, as a `usize`, by the number of shards.
    unfoldable pub shard : K → ShardingLruCache K V → ℕ
    shard key s = hash key % 2 ^ 64 % length s.sharding_vec

    -- A call of a method of the shard of a key.
    unfoldable pub on_shard :
        {B : Type 0}
        → K
        → (LruCache K V → Option (LruCache K V × B))
        → ShardingLruCache K V
        → Option (ShardingLruCache K V × B)
    unfolding shard
    on_shard key method s =
        let i = shard key s in
        get_elem? s.sharding_vec i >>=? λ lru.
        method lru >>=? λ r. some (record s { sharding_vec = set s.sharding_vec i r.0 }, r.1)

    unfoldable pub get : K → ShardingLruCache K V → Option (ShardingLruCache K V × Option V)
    unfolding on_shard
    get key s = on_shard key (LruCache.get key) s

    unfoldable pub put : K → V → ShardingLruCache K V → Option (ShardingLruCache K V × Option V)
    unfolding on_shard
    put key value s = on_shard key (LruCache.put key value) s

    unfoldable pub remove : K → ShardingLruCache K V → Option (ShardingLruCache K V × Option V)
    unfolding on_shard
    remove key s = on_shard key (LruCache.remove_key key) s

    unfoldable pub get_or_insert :
        K
        → (K → KernelResult V)
        → ShardingLruCache K V
        → Option (ShardingLruCache K V × KernelResult V)
    unfolding on_shard
    get_or_insert key fn_once s = on_shard key (LruCache.get_or_insert key fn_once) s
