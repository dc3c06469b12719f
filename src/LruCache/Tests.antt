-- ===== src/LruCache/Tests.antt =====
-- The cache of the repository's own test, with three entries.
use kip_db.Base.{ℕ, ◌≡◌, ◌≤◌, refl, none, some, List, [], ◌∷◌, arith}
use kip_db.Base.Lists.{length}
use kip_db.Base.Order.{nat_ord}
use kip_db.Error.{ok}
use kip_db.LruCache.{LruCache, create, len}
use kip_db.LruCache.Holds.{Holds}
use kip_db.LruCache.Run.{
  Call, get_call, put_call, remove_call, insert_call, value, result, run, expected_all,
  run-expected,
}

abbrev calls : List (Call ℕ ℕ)
calls =
    put_call 1 10
    ∷ put_call 2 20
    ∷ put_call 3 30
    ∷ get_call 1
    ∷ put_call 2 200
    ∷ put_call 4 40
    ∷ get_call 2
    ∷ get_call 3
    ∷ insert_call 9 (ok 9)
    ∷ remove_call 4
    ∷ []

run-expected_example :
    (c : LruCache ℕ ℕ) × (c' : LruCache ℕ ℕ) × (create 3 ≡ ok c)
    × (run calls c ≡ some (c', (expected_all 3 calls []).1))
    × Holds (expected_all 3 calls []).0 c'
    × (len c' ≡ length (expected_all 3 calls []).0)
    × (len c' ≤ 3)
run-expected_example = run-expected 3 calls (omega arith)

answers :
    (expected_all 3 calls []).1
    ≡ value none
      ∷ value none
      ∷ value none
      ∷ value (some 10)
      ∷ value (some 20)
      ∷ value none
      ∷ value (some 200)
      ∷ value none
      ∷ result (ok 9)
      ∷ value (some 40)
      ∷ []
answers = refl
