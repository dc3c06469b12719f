-- ===== src/Trigger/Total.antt =====
-- A trigger measures the whole run of items since it was created or reset.
use mathlib.Core.List.{foldl}
use kip_db.Base.{ℕ, ◌+◌, ◌^◌, ◌<◌, ◌≡◌, refl, ap, List, [], ◌∷◌, arith, leb}
use kip_db.Data.{KeyValue, key_value_bytes_len, add_usize}
use kip_db.Trigger.{Trigger, TriggerType, item_process, is_exceeded, reset, create}

-- What one item adds to the measure of a trigger of the given type.
abbrev pub weight : TriggerType → KeyValue → ℕ
weight TriggerType.count item = 1
weight TriggerType.size_of_mem item = key_value_bytes_len item

abbrev pub total : TriggerType → List KeyValue → ℕ
total type [] = 0
total type (item ∷ items) = weight type item + total type items

-- The trigger of a type that has measured `n`.
abbrev measured : TriggerType → ℕ → ℕ → Trigger
measured TriggerType.count threshold n =
    Trigger.count (record { item_count = n; threshold = threshold })
measured TriggerType.size_of_mem threshold n =
    Trigger.size_of_mem (record { size_of_mem = n; threshold = threshold })

item_process-measured :
    (type : TriggerType) (threshold n : ℕ) (item : KeyValue)
    → item_process (measured type threshold n) item
      ≡ measured type threshold (add_usize n (weight type item))
unfolding item_process
item_process-measured TriggerType.count threshold n item = refl
item_process-measured TriggerType.size_of_mem threshold n item = refl

foldl-measured :
    (type : TriggerType) (threshold n : ℕ) (items : List KeyValue)
    → n + total type items < 2 ^ 64
    → foldl item_process (measured type threshold n) items
      ≡ measured type threshold (n + total type items)
foldl-measured type threshold n [] h = ap (measured type threshold) (omega arith)
foldl-measured type threshold n (item ∷ items) h =
    let fits : add_usize n (weight type item) ≡ n + weight type item = omega arith in
    rw
      (
        item_process-measured,
        fits,
        foldl-measured type threshold (n + weight type item) items (omega arith),
      )
      (ap (measured type threshold) (omega arith))

-- However the measure has wrapped, the type and the threshold stay.
foldl-measured_some :
    (type : TriggerType) (threshold n : ℕ) (items : List KeyValue)
    → (m : ℕ) × (foldl item_process (measured type threshold n) items ≡ measured type threshold m)
foldl-measured_some type threshold n [] = (n, refl)
foldl-measured_some type threshold n (item ∷ items) =
    rw item_process-measured
      (foldl-measured_some type threshold (add_usize n (weight type item)) items)

reset-measured :
    (type : TriggerType) (threshold n : ℕ)
    → reset (measured type threshold n) ≡ measured type threshold 0
unfolding reset
reset-measured TriggerType.count threshold n = refl
reset-measured TriggerType.size_of_mem threshold n = refl

create-measured :
    (type : TriggerType) (threshold : ℕ) → create type threshold ≡ measured type threshold 0
unfolding create
create-measured TriggerType.count threshold = refl
create-measured TriggerType.size_of_mem threshold = refl

is_exceeded-measured :
    (type : TriggerType) (threshold n : ℕ)
    → is_exceeded (measured type threshold n) ≡ leb threshold n
unfolding is_exceeded
is_exceeded-measured TriggerType.count threshold n = refl
is_exceeded-measured TriggerType.size_of_mem threshold n = refl

-- A trigger that was created, has processed some items, was reset and has then processed `items`
-- reports an overflow exactly when `items` weigh the threshold or more: their number for a count
-- trigger, the bytes of their keys and values for a size trigger. The weight of `items` is assumed
-- to fit a `usize`; that of the items before the reset may have wrapped.
pub is_exceeded-foldl :
    (type : TriggerType) (threshold : ℕ) (before items : List KeyValue)
    → total type items < 2 ^ 64
    → is_exceeded
        (foldl item_process (reset (foldl item_process (create type threshold) before)) items)
      ≡ leb threshold (total type items)
is_exceeded-foldl type threshold before items h =
    let (m, e) = foldl-measured_some type threshold 0 before in
    rw
      (
        create-measured,
        e,
        reset-measured,
        foldl-measured type threshold 0 items (omega arith),
        is_exceeded-measured,
      )
      (ap (leb threshold) (omega arith))
