-- ===== src/LruCache/Keys.antt =====
-- The keys of cells.
use kip_db.Base.{
  ℕ, zero, suc, ◌≡◌, ◌≢◌, refl, sym, ap, true, none, some, List, [], ◌∷◌, ◌++◌, arith,
}
use kip_db.Base.Lists.{length, take}
use kip_db.Base.Order.{Ord, Ordering, lt, eq, gt}
use kip_db.Base.SortedMap.{get}
use kip_db.Base.SortedMap.Remove.{remove}
use kip_db.LruCache.Nodes.{Ptr}
use kip_db.LruCache.Cells.{Cell, has}

module _ {K V : Type 0} where
  abbrev pub ptrs : List (Cell K V) → List (K × Ptr)
  ptrs [] = []
  ptrs (c ∷ cells) = (c.key, c.ptr) ∷ ptrs cells

  -- The entries of the cache, the last used one first.
  abbrev pub items : List (Cell K V) → List (K × V)
  items [] = []
  items (c ∷ cells) = (c.key, c.value) ∷ items cells

  pub length-items : (cells : List (Cell K V)) → length (items cells) ≡ length cells
  length-items [] = refl
  length-items (c ∷ cells) = omega (arith, length-items cells)

  pub items-take : (n : ℕ) (cells : List (Cell K V)) → items (take n cells) ≡ take n (items cells)
  items-take zero cells = refl
  items-take (suc n) [] = refl
  items-take (suc n) (c ∷ cells) = ap (λ t. (c.key, c.value) ∷ t) (items-take n cells)

module _ {K V : Type 0} ⦃o : Ord K⦄ where
  abbrev pub AreDistinct : List (Cell K V) → Type 0
  AreDistinct [] = Unit
  AreDistinct (c ∷ cells) = (get c.key (ptrs cells) ≡ none) × AreDistinct cells

  -- The cell of a key.
  pub record Found (k : K) (p : Ptr) (cells : List (Cell K V)) : Type 0 where
    pub before : List (Cell K V)
    pub cell : Cell K V
    pub after : List (Cell K V)
    pub whole : cells ≡ before ++ cell ∷ after
    pub ptr : cell.ptr ≡ p
    pub key : cell.key ≡ k
    pub value : get k (items cells) ≡ some cell.value
    pub rest : remove k (items cells) ≡ items (before ++ after)

  pub get-Found :
      (k : K) (p : Ptr) (cells : List (Cell K V)) → get k (ptrs cells) ≡ some p → Found k p cells
  get-Found k p [] h = absurd (ground arith)
  get-Found k p (c ∷ cells) h = by_cmp (o.cmp k c.key) refl (get-Found k p cells)
    where
      by_cmp :
          (r : Ordering)
          → o.cmp k c.key ≡ r
          → (get k (ptrs cells) ≡ some p → Found k p cells)
          → Found k p (c ∷ cells)
      by_cmp eq e later = record {
        before = [];
        cell = c;
        after = cells;
        whole = refl;
        ptr = ground arith;
        key = sym (o.eq_of_cmp k c.key e);
        value = rw e refl;
        rest = rw e refl;
      }
      by_cmp lt e later =
          let f = later (ground arith) in
          record {
            before = c ∷ f.before;
            cell = f.cell;
            after = f.after;
            whole = ap (λ t. c ∷ t) f.whole;
            ptr = f.ptr;
            key = f.key;
            value = rw e f.value;
            rest = rw e (ap (λ t. (c.key, c.value) ∷ t) f.rest);
          }
      by_cmp gt e later =
          let f = later (ground arith) in
          record {
            before = c ∷ f.before;
            cell = f.cell;
            after = f.after;
            whole = ap (λ t. c ∷ t) f.whole;
            ptr = f.ptr;
            key = f.key;
            value = rw e f.value;
            rest = rw e (ap (λ t. (c.key, c.value) ∷ t) f.rest);
          }

  pub get-absent :
      (k : K) (cells : List (Cell K V))
      → get k (ptrs cells) ≡ none
      → (get k (items cells) ≡ none) × (remove k (items cells) ≡ items cells)
  get-absent k [] h = (refl, refl)
  get-absent k (c ∷ cells) h = ground (arith, get-absent k cells)

  -- Taking out the cell of a key takes out all that has the key.
  pub get-without :
      (j : K) (xs : List (Cell K V)) (x : Cell K V) (ys : List (Cell K V))
      → o.cmp j x.key ≢ eq
      → get j (ptrs (xs ++ ys)) ≡ get j (ptrs (xs ++ x ∷ ys))
  get-without j [] x ys h = ground arith
  get-without j (c ∷ xs) x ys h = ground (arith, get-without j xs x ys)

  pub absent-without :
      (k : K) (xs : List (Cell K V)) (x : Cell K V) (ys : List (Cell K V))
      → get k (ptrs (xs ++ x ∷ ys)) ≡ none
      → get k (ptrs (xs ++ ys)) ≡ none
  absent-without k [] x ys h = ground arith
  absent-without k (c ∷ xs) x ys h = ground (arith, absent-without k xs x ys)

  not_before :
      (k : K) (xs : List (Cell K V)) (x : Cell K V) (ys : List (Cell K V))
      → get k (ptrs (xs ++ x ∷ ys)) ≡ none
      → o.cmp k x.key ≢ eq
  not_before k [] x ys h = λ e. ground arith
  not_before k (c ∷ xs) x ys h = ground (arith, not_before k xs x ys)

  pub get-without_self :
      (xs : List (Cell K V)) (x : Cell K V) (ys : List (Cell K V))
      → AreDistinct (xs ++ x ∷ ys)
      → get x.key (ptrs (xs ++ ys)) ≡ none
  get-without_self [] x ys (out, d) = out
  get-without_self (c ∷ xs) x ys (out, d) =
      ground (arith, o.cmp_flip x.key c.key, not_before c.key xs x ys, get-without_self xs x ys d)

  pub get-here :
      (xs : List (Cell K V)) (x : Cell K V) (ys : List (Cell K V))
      → AreDistinct (xs ++ x ∷ ys)
      → get x.key (ptrs (xs ++ x ∷ ys)) ≡ some x.ptr
  get-here [] x ys (out, d) = ground (arith, o.cmp_refl x.key)
  get-here (c ∷ xs) x ys (out, d) =
      ground (arith, o.cmp_flip x.key c.key, not_before c.key xs x ys, get-here xs x ys d)

  pub without-AreDistinct :
      (xs : List (Cell K V)) (x : Cell K V) (ys : List (Cell K V))
      → AreDistinct (xs ++ x ∷ ys)
      → AreDistinct (xs ++ ys)
  without-AreDistinct [] x ys (out, d) = d
  without-AreDistinct (c ∷ xs) x ys (out, d) =
      (absent-without c.key xs x ys out, without-AreDistinct xs x ys d)

  pub length-without :
      (xs : List (Cell K V)) (x : Cell K V) (ys : List (Cell K V))
      → length (xs ++ x ∷ ys) ≡ suc (length (xs ++ ys))
  length-without [] x ys = refl
  length-without (c ∷ xs) x ys = omega (arith, length-without xs x ys)

  pub has-without :
      (p : Ptr) (xs : List (Cell K V)) (x : Cell K V) (ys : List (Cell K V))
      → has p (xs ++ ys) ≡ true
      → has p (xs ++ x ∷ ys) ≡ true
  has-without p [] x ys h = ground arith
  has-without p (c ∷ xs) x ys h = ground (arith, has-without p xs x ys)
