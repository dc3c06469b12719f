-- ===== src/LruCache/Cells.antt =====
-- Doubly linked segments of the heap.
use kip_db.Base.{
  ◌≡◌, refl, sym, ◌∙◌, ap, Bool, true, false, ◌||◌, Option, some, List, [], ◌∷◌, ◌++◌, ◌==◌, arith,
}
use kip_db.LruCache.Nodes.{Ptr, Heap}

module _ (K V : Type 0) where
  -- A node of a list: its address, its key and its value.
  pub record Cell : Type 0 where
    pub ptr : Ptr
    pub key : K
    pub value : V

module _ {K V : Type 0} where
  abbrev pub has : Ptr → List (Cell K V) → Bool
  has p [] = false
  has p (c ∷ cells) = (c.ptr == p) || has p cells

  -- The first address of a list or else the one behind it, and the last or else the one before it.
  abbrev pub first_or : List (Cell K V) → Option Ptr → Option Ptr
  first_or [] q = q
  first_or (c ∷ cells) q = some c.ptr

  abbrev pub last_or : Option Ptr → List (Cell K V) → Option Ptr
  last_or p [] = p
  last_or p (c ∷ cells) = last_or (some c.ptr) cells

  -- The cells stand in the heap at distinct addresses, linked in both directions, between `p` and
  -- `q`.
  abbrev pub Seg : Heap K V → Option Ptr → List (Cell K V) → Option Ptr → Type 0
  Seg h p [] q = Unit
  Seg h p (c ∷ cells) q =
      (h c.ptr ≡ some (record { key = c.key; value = c.value; prev = p; next = first_or cells q }))
      × (has c.ptr cells ≡ false)
      × Seg h (some c.ptr) cells q

  abbrev pub SameOn : List (Cell K V) → Heap K V → Heap K V → Type 0
  SameOn cells h g = (p : Ptr) → has p cells ≡ true → g p ≡ h p

  abbrev pub SameOff : List (Cell K V) → Heap K V → Heap K V → Type 0
  SameOff cells h g = (p : Ptr) → has p cells ≡ false → g p ≡ h p

  abbrev pub Apart : List (Cell K V) → List (Cell K V) → Type 0
  Apart xs ys = (p : Ptr) → has p xs ≡ true → has p ys ≡ false

  pub has-append : (p : Ptr) (xs ys : List (Cell K V)) → has p (xs ++ ys) ≡ (has p xs || has p ys)
  has-append p [] ys = refl
  has-append p (x ∷ xs) ys = ground (arith, has-append p xs ys)

  pub first_or-append :
      (xs ys : List (Cell K V)) (q : Option Ptr)
      → first_or (xs ++ ys) q ≡ first_or xs (first_or ys q)
  first_or-append [] ys q = refl
  first_or-append (x ∷ xs) ys q = refl

  pub last_or-append :
      (p : Option Ptr) (xs ys : List (Cell K V)) → last_or p (xs ++ ys) ≡ last_or (last_or p xs) ys
  last_or-append p [] ys = refl
  last_or-append p (x ∷ xs) ys = last_or-append (some x.ptr) xs ys

  pub Seg-frame :
      (h g : Heap K V) (p : Option Ptr) (xs : List (Cell K V)) (q : Option Ptr)
      → SameOn xs h g
      → Seg h p xs q
      → Seg g p xs q
  Seg-frame h g p [] q same s = tt
  Seg-frame h g p (x ∷ xs) q same (at, out, s) = (
    same x.ptr (ground arith) ∙ at,
    out,
    Seg-frame h g (some x.ptr) xs q (λ r i. same r (ground arith)) s,
  )

  pub Seg-append :
      (h : Heap K V) (p : Option Ptr) (xs ys : List (Cell K V)) (q : Option Ptr)
      → Seg h p xs (first_or ys q)
      → Seg h (last_or p xs) ys q
      → Apart xs ys
      → Seg h p (xs ++ ys) q
  Seg-append h p [] ys q s t apart = t
  Seg-append h p (x ∷ xs) ys q (at, out, s) t apart = (
    at
        ∙ ap (λ n. some (record { key = x.key; value = x.value; prev = p; next = n }))
            (sym (first_or-append xs ys q)),
    has-append x.ptr xs ys ∙ ground (arith, apart x.ptr),
    Seg-append h (some x.ptr) xs ys q s t (λ r i. apart r (ground arith)),
  )

  pub Seg-left :
      (h : Heap K V) (p : Option Ptr) (xs ys : List (Cell K V)) (q : Option Ptr)
      → Seg h p (xs ++ ys) q
      → Seg h p xs (first_or ys q)
  Seg-left h p [] ys q s = tt
  Seg-left h p (x ∷ xs) ys q (at, out, s) = (
    at
        ∙ ap (λ n. some (record { key = x.key; value = x.value; prev = p; next = n }))
            (first_or-append xs ys q),
    ground (arith, has-append x.ptr xs ys),
    Seg-left h (some x.ptr) xs ys q s,
  )

  pub Seg-right :
      (h : Heap K V) (p : Option Ptr) (xs ys : List (Cell K V)) (q : Option Ptr)
      → Seg h p (xs ++ ys) q
      → Seg h (last_or p xs) ys q
  Seg-right h p [] ys q s = s
  Seg-right h p (x ∷ xs) ys q (at, out, s) = Seg-right h (some x.ptr) xs ys q s

  pub Seg-Apart :
      (h : Heap K V) (p : Option Ptr) (xs ys : List (Cell K V)) (q : Option Ptr)
      → Seg h p (xs ++ ys) q
      → Apart xs ys
  Seg-Apart h p [] ys q s = λ r i. absurd (ground arith)
  Seg-Apart h p (x ∷ xs) ys q (at, out, s) =
      λ r i. ground (arith, has-append x.ptr xs ys, Seg-Apart h (some x.ptr) xs ys q s r)
