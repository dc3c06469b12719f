-- ===== src/Merging/Heads.antt =====
-- Every iterator that has items left has an entry in the map, before its items.
use kip_db.Base.{
  ℕ, zero, suc, ◌+◌, ◌<◌, ◌≡◌, ◌≢◌, ap, ◌∙◌, refl, Bool, true, not, Option, some, List, [], ◌∷◌,
  ◌==◌, arith,
}
use kip_db.Base.Order.{Bytes, bytes_ord, lt, eq, gt}
use kip_db.Base.Search.{get_elem?}
use kip_db.Base.SortedMap
use kip_db.Base.Update.{set}
use kip_db.Base.SortedMap.{insert, Above, IsSorted, get, get-Above, get-insert_self, get-insert_ne}
use kip_db.Data.{KeyValue}
use kip_db.Merging.{
  IterKey, iter_cmp, iter_ord, iter_cmp_flip, iter_lt_trans, iter_eq_of_cmp, MapBuf,
}
use kip_db.Merging.Entries.{After, AllAfter}

abbrev pub at : ℕ → Bytes → IterKey
at num key = record { num = num; key = key }

abbrev pub Head : MapBuf → ℕ → List KeyValue → Type 0
Head m num [] = Unit
Head m num (x ∷ items) =
    (k : Bytes) × (v : Option Bytes) × (get (at num k) m ≡ some v)
    × After (at num k) num (x ∷ items)

-- This holds of the iterators whose numbers pass a test.
abbrev pub Heads : (ℕ → Bool) → MapBuf → ℕ → List (List KeyValue) → Type 0
Heads q m n [] = Unit
Heads q m n (items ∷ lists) = (q n ≡ true → Head m n items) × Heads q m (suc n) lists

abbrev pub everyone : ℕ → Bool
everyone n = true

get-le :
    (e b : IterKey) (u v : Option Bytes) (m : MapBuf)
    → Above e m
    → get b ((e, u) ∷ m) ≡ some v
    → iter_cmp e b ≢ gt
get-le e b u v m a h = λ (g : iter_cmp e b ≡ gt).
    ground
      (arith, iter_cmp_flip e b, get-Above b m (above b m a (ground (arith, iter_cmp_flip e b))))
  where
    above : (b : IterKey) (m : MapBuf) → Above e m → iter_cmp b e ≡ lt → Above b m
    above b m a h = SortedMap.Above-trans b e m h a

After-le :
    (e b : IterKey) (n : ℕ) (items : List KeyValue)
    → iter_cmp e b ≢ gt
    → After b n items
    → After e n items
After-le e b n [] h a = tt
After-le e b n ((k, v) ∷ items) h (c, a) =
    (ground (arith, iter_lt_trans e b (at n k), iter_eq_of_cmp e b), After-le e b n items h a)

-- The first entry comes before all items.
pub Heads-AllAfter :
    (e : IterKey) (u : Option Bytes) (m : MapBuf) (n : ℕ) (lists : List (List KeyValue))
    → Above e m
    → Heads everyone ((e, u) ∷ m) n lists
    → AllAfter e n lists
Heads-AllAfter e u m n [] a h = tt
Heads-AllAfter e u m n ([] ∷ lists) a (_, h) = (tt, Heads-AllAfter e u m (suc n) lists a h)
Heads-AllAfter e u m n ((x ∷ items) ∷ lists) a (h, hs) =
    let (k, v, found, after) = h refl in
    (
      After-le e (at n k) n (x ∷ items) (get-le e (at n k) u v m a found) after,
      Heads-AllAfter e u m (suc n) lists a hs,
    )

-- Without the first entry, all iterators but its own still have theirs.
pub Heads-tail :
    (e : IterKey) (u : Option Bytes) (m : MapBuf) (n : ℕ) (lists : List (List KeyValue))
    → Heads everyone ((e, u) ∷ m) n lists
    → Heads (λ j. not (j == e.num)) m n lists
Heads-tail e u m n [] h = tt
Heads-tail e u m n ([] ∷ lists) (_, h) = (λ q. tt, Heads-tail e u m (suc n) lists h)
Heads-tail e u m n ((x ∷ items) ∷ lists) (h, hs) =
    let (k, v, found, after) = h refl in
    (λ q. (k, v, get_tail (at n k) q found, after), Heads-tail e u m (suc n) lists hs)
  where
    get_tail :
        (b : IterKey) {v : Option Bytes}
        → not (b.num == e.num) ≡ true
        → get b ((e, u) ∷ m) ≡ some v
        → get b m ≡ some v
    get_tail b q found = ground (arith, iter_eq_of_cmp b e)

After-Above : (n : ℕ) (k : Bytes) (items : List KeyValue) → Above k items → After (at n k) n items
After-Above n k [] a = tt
After-Above n k ((j, w) ∷ items) (c, a) = (ground arith, After-Above n k items a)

-- A test that asks for no more iterators than another, but for the one with the number.
abbrev pub Covers : (ℕ → Bool) → (ℕ → Bool) → ℕ → Type 0
Covers q q' num = (j : ℕ) → j ≢ num → q' j ≡ true → q j ≡ true

module _ (q q' : ℕ → Bool) (num : ℕ) (covers : Covers q q' num) (m : MapBuf) where
  Head-insert :
      (x : Bytes) (v : Option Bytes) (n : ℕ) (items : List KeyValue)
      → n ≢ num
      → Head m n items
      → Head (insert (at num x) v m) n items
  Head-insert x v n [] ne h = tt
  Head-insert x v n (y ∷ items) ne (k, w, found, after) =
      let other : iter_cmp (at n k) (at num x) ≢ eq =
        λ e. ne (ap (λ (b : IterKey). b.num) (iter_eq_of_cmp (at n k) (at num x) e)) in
      (k, w, get-insert_ne (at n k) (at num x) v m other ∙ found, after)

  Heads-others :
      (x : Bytes) (v : Option Bytes) (n : ℕ) (lists : List (List KeyValue))
      → num < n
      → Heads q m n lists
      → Heads q' (insert (at num x) v m) n lists
  Heads-others x v n [] lt_n h = tt
  Heads-others x v n (items ∷ lists) lt_n (h, hs) = (
    λ t. Head-insert x v n items (λ e. omega arith) (h (covers n (λ e. omega arith) t)),
    Heads-others x v (suc n) lists (omega arith) hs,
  )

  first-Head :
      (x : Bytes) (v : Option Bytes) (items : List KeyValue)
      → Above x items
      → Head (insert (at num x) v m) num items
  first-Head x v [] a = tt
  first-Head x v (y ∷ items) a =
      (x, v, get-insert_self (at num x) v m, After-Above num x (y ∷ items) a)

  -- The first item of an iterator goes into the map.
  pub Heads-set :
      (n i : ℕ) (lists : List (List KeyValue)) (x : Bytes) (v : Option Bytes)
      (items : List KeyValue)
      → num ≡ n + i
      → get_elem? lists i ≡ some ((x, v) ∷ items)
      → Above x items
      → Heads q m n lists
      → Heads q' (insert (at num x) v m) n (set lists i items)
  Heads-set n i [] x v items e g a h = tt
  Heads-set n zero (l ∷ lists) x v items e g a (h, hs) =
      let num_lem : n ≡ num = omega arith in
      (λ t. rw num_lem (first-Head x v items a), Heads-others x v (suc n) lists (omega arith) hs)
  Heads-set n (suc i) (l ∷ lists) x v items e g a (h, hs) = (
    λ t. Head-insert x v n l (λ d. omega arith) (h (covers n (λ d. omega arith) t)),
    Heads-set (suc n) i lists x v items (omega arith) g a hs,
  )

  Heads-weaken :
      (n : ℕ) (lists : List (List KeyValue)) → num < n → Heads q m n lists → Heads q' m n lists
  Heads-weaken n [] lt_n h = tt
  Heads-weaken n (items ∷ lists) lt_n (h, hs) =
      (λ t. h (covers n (λ e. omega arith) t), Heads-weaken (suc n) lists (omega arith) hs)

  -- An iterator has no items left.
  pub Heads-nil :
      (n i : ℕ) (lists : List (List KeyValue))
      → num ≡ n + i
      → get_elem? lists i ≡ some []
      → Heads q m n lists
      → Heads q' m n (set lists i [])
  Heads-nil n i [] e g h = tt
  Heads-nil n zero (l ∷ lists) e g (h, hs) = (λ t. tt, Heads-weaken (suc n) lists (omega arith) hs)
  Heads-nil n (suc i) (l ∷ lists) e g (h, hs) =
      (λ t. h (covers n (λ d. omega arith) t), Heads-nil (suc n) i lists (omega arith) g hs)
