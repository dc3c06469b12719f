-- ===== src/LruCache/Represents.antt =====
-- The invariant of the cache, and how the steps of its operations keep it.
use kip_db.Base.{
  suc, ◌≤◌, ◌<◌, ◌≡◌, inl, inr, refl, sym, ◌∙◌, true, false, Bool-cases, Option, none, some, List,
  ◌∷◌, ◌++◌, ◌==◌, arith,
}
use kip_db.Base.Lists.{length}
use kip_db.Base.Order.{Ord, Ordering, lt, eq, gt}
use kip_db.Base.SortedMap.{get, insert, IsSorted, insert-IsSorted, get-insert_self, get-insert_ne}
use kip_db.Base.SortedMap.Remove.{
  remove, remove-IsSorted, get-remove_self, get-remove_ne, length-remove, length-insert_new,
}
use kip_db.LruCache.{LruCache}
use kip_db.LruCache.Nodes.{Ptr, Node, write}
use kip_db.LruCache.Cells.{Cell, has}
use kip_db.LruCache.Links.{write-Seg}
use kip_db.LruCache.Detach.{Linked}
use kip_db.LruCache.Keys.{
  ptrs, AreDistinct, get-without, get-without_self, get-here, without-AreDistinct, length-without,
  has-without,
}

module _ {K V : Type 0} ⦃o : Ord K⦄ where
  -- The cache holds the cells: they are linked, the map leads to each of them, and there are no
  -- more than its capacity.
  pub record Represents (cells : List (Cell K V)) (c : LruCache K V) : Type 0 where
    pub linked : Linked cells c
    pub sorted : IsSorted c.inner
    pub finds : (k : K) → get k c.inner ≡ get k (ptrs cells)
    pub count : length c.inner ≡ length cells
    pub distinct : AreDistinct cells
    pub bound : length cells ≤ c.cap
    pub some_cap : 0 < c.cap
    pub old : (p : Ptr) → has p cells ≡ true → p < c.unused

  -- A cell is out of the list and its key out of the map.
  pub without-Represents :
      (c c' : LruCache K V) (xs : List (Cell K V)) (x : Cell K V) (ys : List (Cell K V))
      → Represents (xs ++ x ∷ ys) c
      → Linked (xs ++ ys) c'
      → c'.inner ≡ remove x.key c.inner
      → c'.cap ≡ c.cap
      → c'.unused ≡ c.unused
      → Represents (xs ++ ys) c'
  without-Represents c c' xs x ys r l inner cap unused =
      let fewer = length-without xs x ys in
      let found : get x.key c.inner ≡ some x.ptr = r.finds x.key ∙ get-here xs x ys r.distinct in
      let shorter : length c.inner ≡ suc (length (remove x.key c.inner)) =
        length-remove x.key c.inner x.ptr found in
      record {
        linked = l;
        sorted = rw inner (remove-IsSorted x.key c.inner r.sorted);
        finds = λ k. rw inner (by_cmp k (o.cmp k x.key) refl);
        count = rw inner (omega (arith, r.count));
        distinct = without-AreDistinct xs x ys r.distinct;
        bound = rw cap (omega (arith, r.bound));
        some_cap = rw cap r.some_cap;
        old = λ p i. rw unused (r.old p (has-without p xs x ys i));
      }
    where
      by_cmp :
          (k : K) (a : Ordering)
          → o.cmp k x.key ≡ a
          → get k (remove x.key c.inner) ≡ get k (ptrs (xs ++ ys))
      by_cmp k eq e =
          let same : k ≡ x.key = o.eq_of_cmp k x.key e in
          rw same
            (get-remove_self x.key c.inner r.sorted ∙ sym (get-without_self xs x ys r.distinct))
      by_cmp k lt e =
          get-remove_ne k x.key c.inner (λ h. ground arith)
          ∙ r.finds k
          ∙ sym (get-without k xs x ys (λ h. ground arith))
      by_cmp k gt e =
          get-remove_ne k x.key c.inner (λ h. ground arith)
          ∙ r.finds k
          ∙ sym (get-without k xs x ys (λ h. ground arith))

  -- A cell is at the front of the list, and its key, which is new, in the map.
  pub with-Represents :
      (c c' : LruCache K V) (x : Cell K V) (cells : List (Cell K V))
      → Represents cells c
      → Linked (x ∷ cells) c'
      → get x.key (ptrs cells) ≡ none
      → c'.inner ≡ insert x.key x.ptr c.inner
      → c'.cap ≡ c.cap
      → c'.unused ≡ c.unused
      → length cells < c.cap
      → x.ptr < c.unused
      → Represents (x ∷ cells) c'
  with-Represents c c' x cells r l out inner cap unused room new =
      let longer : length (insert x.key x.ptr c.inner) ≡ suc (length c.inner) =
        length-insert_new x.key x.ptr c.inner (r.finds x.key ∙ out) in
      record {
        linked = l;
        sorted = rw inner (insert-IsSorted x.key x.ptr c.inner r.sorted);
        finds = λ k. rw inner (by_cmp k (o.cmp k x.key) refl);
        count = rw inner (omega (arith, r.count));
        distinct = (out, r.distinct);
        bound = rw cap (omega arith);
        some_cap = rw cap r.some_cap;
        old = λ p i. rw unused (elim (Bool-cases (x.ptr == p)) [
          | inl e ↦ ground arith
          | inr ne ↦ r.old p (ground arith)
        ]);
      }
    where
      by_cmp :
          (k : K) (a : Ordering)
          → o.cmp k x.key ≡ a
          → get k (insert x.key x.ptr c.inner) ≡ get k (ptrs (x ∷ cells))
      by_cmp k eq e =
          let same : k ≡ x.key = o.eq_of_cmp k x.key e in
          rw same (get-insert_self x.key x.ptr c.inner ∙ ground (arith, o.cmp_refl x.key))
      by_cmp k lt e =
          get-insert_ne k x.key x.ptr c.inner (λ h. ground arith) ∙ r.finds k ∙ ground arith
      by_cmp k gt e =
          get-insert_ne k x.key x.ptr c.inner (λ h. ground arith) ∙ r.finds k ∙ ground arith

  -- Nothing that the cells need is different.
  pub same-Represents :
      (c c' : LruCache K V) (cells : List (Cell K V))
      → Represents cells c
      → Linked cells c'
      → c'.inner ≡ c.inner
      → c'.cap ≡ c.cap
      → c.unused ≤ c'.unused
      → Represents cells c'
  same-Represents c c' cells r l inner cap unused = record {
    linked = l;
    sorted = rw inner r.sorted;
    finds = λ k. rw inner (r.finds k);
    count = rw inner r.count;
    distinct = r.distinct;
    bound = rw cap r.bound;
    some_cap = rw cap r.some_cap;
    old = λ p i. let below = r.old p i in omega arith;
  }

  -- Writing to a node that is not in the list keeps the list linked.
  pub write-Linked :
      (c : LruCache K V) (cells : List (Cell K V)) (p : Ptr) (n : Option (Node K V))
      → has p cells ≡ false
      → Linked cells c
      → Linked cells (record c { heap = write c.heap p n })
  write-Linked c cells p n out l = record {
    seg = write-Seg c.heap p n none cells none out l.seg;
    head = l.head;
    tail = l.tail;
  }

  pub unused-out :
      (c : LruCache K V) (cells : List (Cell K V)) → Represents cells c → has c.unused cells ≡ false
  unused-out c cells r = elim (Bool-cases (has c.unused cells)) [
    | inl i ↦ let below = r.old c.unused i in absurd (omega arith)
    | inr out ↦ out
  ]
