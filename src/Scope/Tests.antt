-- ===== src/Scope/Tests.antt =====
-- The theorems on scopes at concrete scopes and data.
use kip_db.Base.{◌≡◌, ◌↔◌, ◌⊎◌, refl, true, false, none, some, List, [], ◌∷◌, arith}
use kip_db.Base.Int.{pos}
use kip_db.Base.Lists.{In}
use kip_db.Base.Order.{Bytes}
use kip_db.Data.{KeyValue}
use kip_db.Error.{KernelError, ok, err}
use kip_db.Scope.{Scope, meet, meet_by_key, fusion, from_sorted_vec_data}
use kip_db.Scope.Meet.{meet-iff_share}
use kip_db.Scope.Seeks.{misses, misses_fire}
use kip_db.Scope.Cover.{starts, ends, keys_of, fusion-covers, from_sorted_vec_data-covers}

abbrev left : Scope
left = record { start = 1 ∷ []; end = 5 ∷ []; gen = pos 1; allowed_seeks = some 0 }

abbrev right : Scope
right = record { start = 4 ∷ 2 ∷ []; end = 9 ∷ []; gen = pos 2; allowed_seeks = some 0 }

meet-iff_share_example :
    (meet left right ≡ true)
    ↔ ((key : Bytes) × (meet_by_key left key ≡ true) × (meet_by_key right key ≡ true))
meet-iff_share_example = meet-iff_share left right refl refl

fires_at_102 : ((misses 101 left).1 ≡ false) × (misses 102 left ≡ (left, true))
fires_at_102 = misses_fire 101 left refl (omega arith)

fusion-covers_example :
    (f : Scope) × (fusion (left ∷ right ∷ []) ≡ some f)
    × In f.start (starts (left ∷ right ∷ []))
    × In f.end (ends (left ∷ right ∷ []))
    × ((t : Scope) (key : Bytes)
        → In t (left ∷ right ∷ [])
        → meet_by_key t key ≡ true
        → meet_by_key f key ≡ true)
fusion-covers_example = fusion-covers left (right ∷ [])

abbrev sorted_data : List KeyValue
sorted_data = (1 ∷ [], none) ∷ (1 ∷ 2 ∷ [], some (7 ∷ [])) ∷ (3 ∷ [], none) ∷ []

from_sorted_vec_data-covers_example :
    ((sorted_data ≡ []) × (from_sorted_vec_data (pos 4) sorted_data ≡ err KernelError.data_empty))
    ⊎ ((s : Scope) × (from_sorted_vec_data (pos 4) sorted_data ≡ ok s)
        × (s.gen ≡ pos 4)
        × ((entry : KeyValue) → In entry sorted_data → meet_by_key s entry.0 ≡ true)
        × In s.start (keys_of sorted_data)
        × In s.end (keys_of sorted_data))
from_sorted_vec_data-covers_example =
    from_sorted_vec_data-covers (pos 4) sorted_data ((refl, (refl, tt)), ((refl, tt), (tt, tt)))
