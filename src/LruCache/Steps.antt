-- ===== src/LruCache/Steps.antt =====
-- The steps of the operations: taking out the node of a key, evicting the last node, and putting
-- a new node to the front.
use mathlib.Core.Path.{subst}
use kip_db.Base.{
  suc, ◌≡◌, ◌≢◌, inl, inr, refl, sym, ◌∙◌, ap, true, false, Bool-cases, Option, none, some, List,
  [], ◌∷◌, ◌++◌, ◌==◌, arith,
}
use kip_db.Base.Lists.{length}
use kip_db.Base.Order.{Ord, Ordering, lt, eq, gt}
use kip_db.Base.SortedMap.{get}
use kip_db.Base.SortedMap.Remove.{remove}
use kip_db.LruCache.{LruCache, detach, attach, take_node}
use kip_db.LruCache.Nodes.{Ptr, Node}
use kip_db.LruCache.Cells.{Cell, has, has-append, SameOff, Seg-right, Seg-Apart}
use kip_db.LruCache.Detach.{Kept, Linked, detach-Linked, attach-Linked}
use kip_db.LruCache.Keys.{
  ptrs, items, AreDistinct, get-Found, get-absent, get-without, get-without_self, length-without,
  has-without,
}
use kip_db.LruCache.Represents.{Represents, without-Represents}

module _ {K V : Type 0} ⦃o : Ord K⦄ where
  -- What a step leaves alone: the nodes off the list, the capacity and the next address, and the
  -- list has no new nodes.
  pub record Step (cells rest : List (Cell K V)) (c c' : LruCache K V) : Type 0 where
    pub rep : Represents rest c'
    pub off : SameOff cells c.heap c'.heap
    pub fewer : (p : Ptr) → has p cells ≡ false → has p rest ≡ false
    pub unused : c'.unused ≡ c.unused
    pub cap : c'.cap ≡ c.cap

  pub Step_none :
      (cells : List (Cell K V)) (c : LruCache K V) → Represents cells c → Step cells cells c c
  Step_none cells c r = record {
    rep = r;
    off = λ p i. refl;
    fewer = λ p i. i;
    unused = refl;
    cap = refl;
  }

  -- A cell that is taken out of the list.
  split_out :
      (c : LruCache K V) (xs : List (Cell K V)) (x : Cell K V) (ys : List (Cell K V))
      → Linked (xs ++ x ∷ ys) c
      → has x.ptr (xs ++ ys) ≡ false
  split_out c xs x ys l =
      let apart = Seg-Apart c.heap none xs (x ∷ ys) none l.seg in
      let (_, out, _) = Seg-right c.heap none xs (x ∷ ys) none l.seg in
      ground (arith, has-append x.ptr xs ys, apart x.ptr)

  pub fewer_without :
      (xs : List (Cell K V)) (x : Cell K V) (ys : List (Cell K V)) (p : Ptr)
      → has p (xs ++ x ∷ ys) ≡ false
      → has p (xs ++ ys) ≡ false
  fewer_without xs x ys p h = ground (arith, has-without p xs x ys)

  -- The node of a key, out of the list.
  pub record Detached (k : K) (cells : List (Cell K V)) (c : LruCache K V) (p : Ptr) : Type 0 where
    pub rest : List (Cell K V)
    pub after : LruCache K V
    pub cell : Cell K V
    pub ptr : cell.ptr ≡ p
    pub key : cell.key ≡ k
    pub value : get k (items cells) ≡ some cell.value
    pub out : has p rest ≡ false
    pub at :
        after.heap p
        ≡ some (record { key = cell.key; value = cell.value; prev = none; next = none })
    pub entries : items rest ≡ remove k (items cells)
    pub absent : get k (ptrs rest) ≡ none
    pub shorter : length cells ≡ suc (length rest)
    pub linked : Linked rest after
    pub kept : Kept cells c after
    pub fewer : (q : Ptr) → has q cells ≡ false → has q rest ≡ false
    pub done : detach p c ≡ some after
    pub same_others : (j : K) → o.cmp j k ≢ eq → get j (ptrs rest) ≡ get j (ptrs cells)
    pub without :
        (c0 c' : LruCache K V)
        → Represents cells c0
        → Linked rest c'
        → c'.inner ≡ remove k c0.inner
        → c'.cap ≡ c0.cap
        → c'.unused ≡ c0.unused
        → Represents rest c'

  pub detach-Detached :
      (k : K) (p : Ptr) (cells : List (Cell K V)) (c : LruCache K V)
      → Linked cells c
      → AreDistinct cells
      → get k (ptrs cells) ≡ some p
      → Detached k cells c p
  detach-Detached k p cells c l d h =
      let f = get-Found k p cells h in
      let xs : List (Cell K V) = f.before in
      let ys : List (Cell K V) = f.after in
      let x : Cell K V = f.cell in
      let linked' : Linked (xs ++ x ∷ ys) c = subst (λ t. Linked t c) f.whole l in
      let d' : AreDistinct (xs ++ x ∷ ys) = subst (λ t. AreDistinct t) f.whole d in
      let (c', done, linked, at, kept) = detach-Linked c xs ys x linked' in
      record {
        rest = xs ++ ys;
        after = c';
        cell = x;
        ptr = f.ptr;
        key = f.key;
        value = f.value;
        out = rw (← f.ptr) (split_out c xs x ys linked');
        at = rw (← f.ptr) at;
        entries = sym f.rest;
        absent = rw (← f.key) (get-without_self xs x ys d');
        shorter = ap length f.whole ∙ length-without xs x ys;
        linked = linked;
        kept = subst (λ t. Kept t c c') (sym f.whole) kept;
        fewer = λ q i. fewer_without xs x ys q (subst (λ t. has q t ≡ false) f.whole i);
        done = rw (← f.ptr) done;
        same_others = λ j ne.
            get-without j xs x ys (λ e. ne (ap (λ t. o.cmp j t) (sym f.key) ∙ e))
            ∙ ap (λ t. get j (ptrs t)) (sym f.whole);
        without = λ c0 c1 r l1 inner cap unused.
            without-Represents c0 c1 xs x ys (subst (λ t. Represents t c0) f.whole r) l1
              (inner ∙ ap (λ t. remove t c0.inner) (sym f.key)) cap unused;
      }

  -- The node that was found holds the value of the key.
  abbrev pub IsTaken : K → List (Cell K V) → List (Cell K V) → LruCache K V → Option Ptr → Type 0
  IsTaken k cells rest c none = get k (items cells) ≡ none
  IsTaken k cells rest c (some p) =
      (n : Node K V) × (c.heap p ≡ some n)
      × (get k (items cells) ≡ some n.value)
      × (has p rest ≡ false)
      × (has p cells ≡ true)

  -- `take_node`: the key is gone, and its node, if there is one, is free of the list.
  pub record Taken (k : K) (cells : List (Cell K V)) (c : LruCache K V) : Type 0 where
    pub rest : List (Cell K V)
    pub after : LruCache K V
    pub found : Option Ptr
    pub done : take_node k c ≡ some (after, found)
    pub step : Step cells rest c after
    pub entries : items rest ≡ remove k (items cells)
    pub absent : get k (ptrs rest) ≡ none
    pub what : found ≡ get k (ptrs cells)
    pub value : IsTaken k cells rest after found

  has-ptr :
      (k : K) (p : Ptr) (cells : List (Cell K V)) → get k (ptrs cells) ≡ some p → has p cells ≡ true
  has-ptr k p [] h = ground arith
  has-ptr k p (c ∷ cells) h = ground (arith, has-ptr k p cells)

  pub take_node-Taken :
      (k : K) (cells : List (Cell K V)) (c : LruCache K V) → Represents cells c → Taken k cells c
  unfolding take_node
  take_node-Taken k cells c r = by_key (get k (ptrs cells)) refl
    where
      by_key : (found : Option Ptr) → get k (ptrs cells) ≡ found → Taken k cells c
      by_key none h =
          let (none_value, same) = get-absent k cells h in
          record {
            rest = cells;
            after = c;
            found = none;
            done = rw (take_node, r.finds k, h) refl;
            step = Step_none cells c r;
            entries = sym same;
            absent = h;
            what = sym h;
            value = none_value;
          }
      by_key (some p) h =
          let c0 : LruCache K V = record c { inner = remove k c.inner } in
          let l : Linked cells c0 = record {
            seg = r.linked.seg;
            head = r.linked.head;
            tail = r.linked.tail;
          } in
          let d = detach-Detached k p cells c0 l r.distinct h in
          record {
            rest = d.rest;
            after = d.after;
            found = some p;
            done = rw (take_node, r.finds k, h, d.done) refl;
            step = record {
              rep = d.without c d.after r d.linked d.kept.inner d.kept.cap d.kept.unused;
              off = d.kept.off;
              fewer = d.fewer;
              unused = d.kept.unused;
              cap = d.kept.cap;
            };
            entries = d.entries;
            absent = d.absent;
            what = sym h;
            value = (
              record { key = d.cell.key; value = d.cell.value; prev = none; next = none },
              d.at,
              d.value,
              d.out,
              has-ptr k p cells h,
            );
          }

  -- `detach` and `attach`: the node of a key goes to the front.
  pub touch-Represents :
      (k : K) (p : Ptr) (cells : List (Cell K V)) (c : LruCache K V)
      → Represents cells c
      → get k (ptrs cells) ≡ some p
      → (c1 : LruCache K V) × (c' : LruCache K V) × (x : Cell K V) × (rest : List (Cell K V))
        × (detach p c ≡ some c1)
        × (attach p c1 ≡ some c')
        × (c'.cap ≡ c.cap)
        × Represents (x ∷ rest) c'
        × (x.ptr ≡ p)
        × (get k (items cells) ≡ some x.value)
        × (items (x ∷ rest) ≡ (k, x.value) ∷ remove k (items cells))
  touch-Represents k p cells c r h =
      let d = detach-Detached k p cells c r.linked r.distinct h in
      let c1 : LruCache K V = record d.after { inner = remove k c.inner } in
      let l1 : Linked d.rest c1 = record {
        seg = d.linked.seg;
        head = d.linked.head;
        tail = d.linked.tail;
      } in
      let r1 : Represents d.rest c1 = d.without c c1 r l1 refl d.kept.cap d.kept.unused in
      let x : Cell K V = d.cell in
      let at_x : d.after.heap x.ptr
          ≡ some (record { key = x.key; value = x.value; prev = none; next = none }) =
        subst
          (λ t.
            d.after.heap t
            ≡ some (record { key = x.key; value = x.value; prev = none; next = none }))
          (sym d.ptr) d.at in
      let out_x : has x.ptr d.rest ≡ false = subst (λ t. has t d.rest ≡ false) (sym d.ptr) d.out in
      let (c2, attached, linked, kept) =
        attach-Linked d.after d.rest x none none d.linked out_x at_x in
      let attached' : attach p d.after ≡ some c2 =
        subst (λ t. attach t d.after ≡ some c2) d.ptr attached in
      let inner : c2.inner ≡ c.inner = kept.inner ∙ d.kept.inner in
      (
        d.after,
        c2,
        x,
        d.rest,
        d.done,
        attached',
        kept.cap ∙ d.kept.cap,
        record {
          linked = linked;
          sorted = rw inner r.sorted;
          finds = λ j. rw inner (r.finds j ∙ same_find d j);
          count = rw inner (r.count ∙ d.shorter);
          distinct = (subst (λ t. get t (ptrs d.rest) ≡ none) (sym d.key) d.absent, r1.distinct);
          bound = let b = r.bound in let s = d.shorter in rw (kept.cap, d.kept.cap) (omega arith);
          some_cap = rw (kept.cap, d.kept.cap) r.some_cap;
          old = λ q i. rw (kept.unused, d.kept.unused) (r.old q (still d q i));
        },
        d.ptr,
        d.value,
        ap (λ t. (t, x.value) ∷ items d.rest) d.key ∙ ap (λ t. (k, x.value) ∷ t) d.entries,
      )
    where
      still :
          (d : Detached k cells c p) (q : Ptr) → has q (d.cell ∷ d.rest) ≡ true → has q cells ≡ true
      still d q i = elim (Bool-cases (d.cell.ptr == q)) [
        | inl e ↦
            let same : p ≡ q = sym d.ptr ∙ ground arith in
            subst (λ t. has t cells ≡ true) same (has-ptr k p cells h)
        | inr ne ↦ ground (arith, d.fewer q)
      ]

      same_find :
          (d : Detached k cells c p) (j : K) → get j (ptrs cells) ≡ get j (ptrs (d.cell ∷ d.rest))
      same_find d j = by_cmp (o.cmp j k) refl
        where
          at_key : o.cmp j d.cell.key ≡ o.cmp j k
          at_key = ap (λ t. o.cmp j t) d.key

          by_cmp :
              (a : Ordering) → o.cmp j k ≡ a → get j (ptrs cells) ≡ get j (ptrs (d.cell ∷ d.rest))
          by_cmp eq e =
              let same : j ≡ k = o.eq_of_cmp j k e in
              let hit : get j (ptrs (d.cell ∷ d.rest)) ≡ some d.cell.ptr = rw (at_key, e) refl in
              ap (λ t. get t (ptrs cells)) same ∙ h ∙ ap some (sym d.ptr) ∙ sym hit
          by_cmp lt e =
              let past : get j (ptrs (d.cell ∷ d.rest)) ≡ get j (ptrs d.rest) =
                rw (at_key, e) refl in
              sym (past ∙ d.same_others j (λ q. ground arith))
          by_cmp gt e =
              let past : get j (ptrs (d.cell ∷ d.rest)) ≡ get j (ptrs d.rest) =
                rw (at_key, e) refl in
              sym (past ∙ d.same_others j (λ q. ground arith))
