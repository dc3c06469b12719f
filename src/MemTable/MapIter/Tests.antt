-- ===== src/MemTable/MapIter/Tests.antt =====
-- The iterator over a map with two versions of a key and a removed key.
use kip_db.Base.{ℕ, ◌<◌, ◌≡◌, refl, none, some, List, [], ◌∷◌}
use kip_db.Base.Int.{i64_max, int_ord}
use kip_db.Base.Lists.{length}
use kip_db.Base.Order.{Bytes, bytes_ord}
use kip_db.Base.SortedMap.{IsSorted, get}
use kip_db.Data.{KeyValue}
use kip_db.MemTable.MapIter.{create, seek, try_next, next_loop}
use kip_db.MemTable.MapIter.Drain.{drain, drain-latest}
use kip_db.MemTable.Tests.{maps, k1, k2, two_keys}
use kip_db.MemTable.Versions.{latest}
use kip_db.Merging.{Seek}

drain-latest_example :
    (items : List KeyValue) × ((n : ℕ)
      → length (maps.iter two_keys.mem) < n
      → drain n (create {sm = maps} two_keys.mem) ≡ some items)
    × IsSorted items
    × ((key : Bytes) → get key items ≡ latest key i64_max (maps.iter two_keys.mem))
drain-latest_example = drain-latest two_keys.mem (refl, (refl, (refl, tt)))

drained : drain 5 (create {sm = maps} two_keys.mem) ≡ some ((k1, some (30 ∷ [])) ∷ (k2, none) ∷ [])
unfolding create try_next next_loop
drained = refl

sought :
    drain 5 (seek (Seek.backward k2) (create {sm = maps} two_keys.mem)) ≡ some ((k2, none) ∷ [])
unfolding create seek try_next next_loop
sought = refl

past_the_end : drain 5 (seek Seek.last (create {sm = maps} two_keys.mem)) ≡ some []
unfolding create seek try_next
past_the_end = refl
