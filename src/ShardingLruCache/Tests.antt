-- ===== src/ShardingLruCache/Tests.antt =====
-- A cache of two shards, as in the repository's own test, with entries evicted from one of them.
use kip_db.Base.{ℕ, ◌/◌, ◌≡◌, refl, none, some, List, [], ◌∷◌, arith}
use kip_db.Base.Lists.{replicate}
use kip_db.Base.Order.{nat_ord}
use kip_db.Error.{ok, err, KernelError}
use kip_db.LruCache.Run.{Call, get_call, put_call, remove_call, insert_call, Answer, value, result}
use kip_db.ShardingLruCache.{ShardingLruCache, create}
use kip_db.ShardingLruCache.Shards.{run_shards, expected_shards, AllHold, run_shards-expected}

abbrev hash : ℕ → ℕ
hash key = key

abbrev calls : List (Call ℕ ℕ)
calls =
    put_call 1 10
    ∷ get_call 1
    ∷ insert_call 9 (ok 9)
    ∷ put_call 3 30
    ∷ get_call 1
    ∷ get_call 9
    ∷ put_call 2 20
    ∷ remove_call 3
    ∷ insert_call 4 (err KernelError.cache_size_over_flow)
    ∷ []

run_shards-expected_example :
    (s s' : ShardingLruCache ℕ ℕ) × (lists : List (List (ℕ × ℕ))) × (answers : List (Answer ℕ))
    × (create 4 2 ≡ ok s)
    × (run_shards hash calls s ≡ some (s', answers))
    × (expected_shards hash (4 / 2) 2 calls (replicate 2 []) ≡ some (lists, answers))
    × AllHold (4 / 2) lists s'.sharding_vec
run_shards-expected_example = run_shards-expected hash 4 2 calls (omega arith) refl (omega arith)

answers :
    expected_shards hash 2 2 calls (replicate 2 [])
    ≡ some (
      ((2, 20) ∷ []) ∷ ((9, 9) ∷ []) ∷ [],
      value none
          ∷ value (some 10)
          ∷ result (ok 9)
          ∷ value none
          ∷ value none
          ∷ value (some 9)
          ∷ value none
          ∷ value (some 30)
          ∷ result (err KernelError.cache_size_over_flow)
          ∷ [],
    )
answers = refl
