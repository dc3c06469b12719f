-- ===== src/Block/Builder/Sorted.antt =====
-- The last key of sorted items.
use kip_db.Base.{◌≡◌, refl, some, List, [], ◌∷◌, ◌++◌}
use kip_db.Base.Order.{Bytes, bytes_cmp, bytes_ord, lt}
use kip_db.Base.SortedMap.{Above, IsSorted}
use kip_db.Block.Builder.{Item, last_of}

pub last_of-append : (xs : List Item) (kv : Item) → last_of (xs ++ kv ∷ []) ≡ some kv.0
last_of-append [] kv = refl
last_of-append (x ∷ []) kv = refl
last_of-append (x ∷ y ∷ xs) kv = last_of-append (y ∷ xs) kv

Above-last :
    (k : Bytes) (xs : List Item) (kv : Item) → Above k (xs ++ kv ∷ []) → bytes_cmp k kv.0 ≡ lt
Above-last k [] kv (h, _) = h
Above-last k (x ∷ xs) kv (_, a) = Above-last k xs kv a

pub last_lt :
    (xs : List Item) (kv : Item) (last : Bytes)
    → IsSorted (xs ++ kv ∷ [])
    → last_of xs ≡ some last
    → bytes_cmp last kv.0 ≡ lt
last_lt [] kv last s h = absurd (cc)
last_lt (x ∷ []) kv last (a, _) h = let e : x.0 ≡ last = cc in rw (← e) (Above-last x.0 [] kv a)
last_lt (x ∷ y ∷ xs) kv last (_, s) h = last_lt (y ∷ xs) kv last s h

pub IsSorted-after : (xs ys : List Item) → IsSorted (xs ++ ys) → IsSorted ys
IsSorted-after [] ys s = s
IsSorted-after (x ∷ xs) ys (_, s) = IsSorted-after xs ys s

Above-before : (k : Bytes) (xs ys : List Item) → Above k (xs ++ ys) → Above k xs
Above-before k [] ys a = tt
Above-before k (x ∷ xs) ys (h, a) = (h, Above-before k xs ys a)

pub IsSorted-before : (xs ys : List Item) → IsSorted (xs ++ ys) → IsSorted xs
IsSorted-before [] ys s = tt
IsSorted-before (x ∷ xs) ys (a, s) = (Above-before x.0 xs ys a, IsSorted-before xs ys s)
