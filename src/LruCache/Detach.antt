-- ===== src/LruCache/Detach.antt =====
-- Taking a node out of the list, and putting one at its front.
use kip_db.Base.{
  ◌≡◌, ◌≢◌, refl, sym, ◌∙◌, ap, false, Option, none, some, List, [], ◌∷◌, ◌++◌, arith,
}
use kip_db.Base.Order.{Ord}
use kip_db.LruCache.{LruCache, detach_prev, detach_next, set_links, detach, attach, attach_at}
use kip_db.LruCache.Nodes.{Ptr, Node, Heap, write, set_prev, set_next}
use kip_db.LruCache.Cells.{
  Cell, has, has-append, first_or, last_or, first_or-append, last_or-append, Seg, SameOff, Apart,
  Seg-frame, Seg-append, Seg-left, Seg-right, Seg-Apart,
}
use kip_db.LruCache.Links.{write-SameOff, write_self, set_next-Seg, set_prev-Seg}

module _ {K V : Type 0} ⦃o : Ord K⦄ where
  -- What a change of the links of some cells leaves alone.
  pub record Kept (cells : List (Cell K V)) (c c' : LruCache K V) : Type 0 where
    pub off : SameOff cells c.heap c'.heap
    pub unused : c'.unused ≡ c.unused
    pub inner : c'.inner ≡ c.inner
    pub cap : c'.cap ≡ c.cap

  pub record Linked (cells : List (Cell K V)) (c : LruCache K V) : Type 0 where
    pub seg : Seg c.heap none cells none
    pub head : c.head ≡ first_or cells none
    pub tail : c.tail ≡ last_or none cells

  last_some : (p : Ptr) (xs : List (Cell K V)) → (last : Ptr) × (last_or (some p) xs ≡ some last)
  last_some p [] = (p, refl)
  last_some p (x ∷ xs) = last_some x.ptr xs

  detach_prev-Seg :
      (c : LruCache K V) (xs : List (Cell K V)) (q q' : Option Ptr)
      → Seg c.heap none xs q
      → c.head ≡ first_or xs q
      → (c' : LruCache K V) × (detach_prev (last_or none xs) q' c ≡ some c')
        × Seg c'.heap none xs q'
        × (c'.head ≡ first_or xs q')
        × (c'.tail ≡ c.tail)
        × Kept xs c c'
  unfolding detach_prev
  detach_prev-Seg c [] q q' s h = (
    record c { head = q' },
    refl,
    tt,
    refl,
    refl,
    record { off = λ p i. refl; unused = refl; inner = refl; cap = refl },
  )
  detach_prev-Seg c (x ∷ xs) q q' s h =
      let (last, is_last) = last_some x.ptr xs in
      let (g, set, s', off) = set_next-Seg c.heap none x xs q q' last s is_last in
      (
        record c { heap = g },
        rw (detach_prev, is_last, set) refl,
        s',
        h,
        refl,
        record { off = off; unused = refl; inner = refl; cap = refl },
      )

  detach_next-Seg :
      (c : LruCache K V) (p p' : Option Ptr) (ys : List (Cell K V))
      → Seg c.heap p ys none
      → c.tail ≡ last_or p ys
      → (c' : LruCache K V) × (detach_next (first_or ys none) p' c ≡ some c')
        × Seg c'.heap p' ys none
        × (c'.tail ≡ last_or p' ys)
        × (c'.head ≡ c.head)
        × Kept ys c c'
  unfolding detach_next
  detach_next-Seg c p p' [] s h = (
    record c { tail = p' },
    refl,
    tt,
    refl,
    refl,
    record { off = λ r i. refl; unused = refl; inner = refl; cap = refl },
  )
  detach_next-Seg c p p' (y ∷ ys) s h =
      let (g, set, s', off) = set_prev-Seg c.heap p p' y ys none s in
      (
        record c { heap = g },
        rw (detach_next, set) refl,
        s',
        h,
        refl,
        record { off = off; unused = refl; inner = refl; cap = refl },
      )

  -- The links of a node that is in the heap.
  set_links-ok :
      (c : LruCache K V) (x : Cell K V) (n : Node K V) (p q : Option Ptr)
      → c.heap x.ptr ≡ some n
      → (c' : LruCache K V) × (set_links x.ptr p q c ≡ some c')
        × (c'.heap x.ptr ≡ some (record n { prev = p; next = q }))
        × (c'.head ≡ c.head)
        × (c'.tail ≡ c.tail)
        × Kept (x ∷ []) c c'
  unfolding set_links set_prev set_next
  set_links-ok c x n p q at =
      let n1 : Node K V = record n { prev = p } in
      let h1 : Heap K V = write c.heap x.ptr (some n1) in
      let n2 : Node K V = record n { prev = p; next = q } in
      let at_1 = write_self c.heap x.ptr (some n1) in
      (
        record c { heap = write h1 x.ptr (some n2) },
        rw (set_links, at, at_1) refl,
        write_self h1 x.ptr (some n2),
        refl,
        refl,
        record {
          off = λ r i. write-SameOff h1 x (some n2) r i ∙ write-SameOff c.heap x (some n1) r i;
          unused = refl;
          inner = refl;
          cap = refl;
        },
      )

  pub Kept-Seg :
      (cells : List (Cell K V)) (c c' : LruCache K V) (p : Option Ptr) (xs : List (Cell K V))
      (q : Option Ptr)
      → Kept cells c c'
      → Apart xs cells
      → Seg c.heap p xs q
      → Seg c'.heap p xs q
  Kept-Seg cells c c' p xs q kept apart s =
      Seg-frame c.heap c'.heap p xs q (λ r i. kept.off r (apart r i)) s

  Apart-sym : (xs ys : List (Cell K V)) → Apart xs ys → Apart ys xs
  Apart-sym xs ys apart r i = ground (arith, apart r)

  pub Apart-single :
      (x : Cell K V) (xs : List (Cell K V)) → has x.ptr xs ≡ false → Apart xs (x ∷ [])
  Apart-single x xs out r i =
      let ne : x.ptr ≢ r = λ e. ground (arith, ap (λ (t : Ptr). has t xs) e) in ground arith

  pub detach-Linked :
      (c : LruCache K V) (xs ys : List (Cell K V)) (x : Cell K V)
      → Linked (xs ++ x ∷ ys) c
      → (c' : LruCache K V) × (detach x.ptr c ≡ some c')
        × Linked (xs ++ ys) c'
        × (c'.heap x.ptr ≡ some (record { key = x.key; value = x.value; prev = none; next = none }))
        × Kept (xs ++ x ∷ ys) c c'
  unfolding detach
  detach-Linked c xs ys x l =
      let left = Seg-left c.heap none xs (x ∷ ys) none l.seg in
      let right = Seg-right c.heap none xs (x ∷ ys) none l.seg in
      let apart = Seg-Apart c.heap none xs (x ∷ ys) none l.seg in
      let (at, out, right') = right in
      let (c1, one, left1, head1, tail1, kept1) =
        detach_prev-Seg c xs (some x.ptr) (first_or ys none) left
          (l.head ∙ first_or-append xs (x ∷ ys) none) in
      let not_left : has x.ptr xs ≡ false = ground (arith, apart x.ptr) in
      let apart' : Apart xs ys = λ r i. ground (arith, apart r) in
      let right1 = Kept-Seg xs c c1 (some x.ptr) ys none kept1 (Apart-sym xs ys apart') right' in
      let (c2, two, right2, tail2, head2, kept2) =
        detach_next-Seg c1 (some x.ptr) (last_or none xs) ys right1
          (tail1 ∙ l.tail ∙ last_or-append none xs (x ∷ ys)) in
      let left2 = Kept-Seg ys c1 c2 none xs (first_or ys none) kept2 apart' left1 in
      let node : Node K V = record {
        key = x.key;
        value = x.value;
        prev = last_or none xs;
        next = first_or ys none;
      } in
      let at1 : c1.heap x.ptr ≡ some node = kept1.off x.ptr not_left ∙ at in
      let at2 : c2.heap x.ptr ≡ some node = kept2.off x.ptr out ∙ at1 in
      let (c3, three, at3, head3, tail3, kept3) = set_links-ok c2 x node none none at2 in
      let left3 =
        Kept-Seg (x ∷ []) c2 c3 none xs (first_or ys none) kept3 (Apart-single x xs not_left)
          left2 in
      let right3 =
        Kept-Seg (x ∷ []) c2 c3 (last_or none xs) ys none kept3 (Apart-single x ys out) right2 in
      (
        c3,
        rw (detach, at, one, at1, two) three,
        record {
          seg = Seg-append c3.heap none xs ys none left3 right3 apart';
          head = head3 ∙ head2 ∙ head1 ∙ sym (first_or-append xs ys none);
          tail = tail3 ∙ tail2 ∙ sym (last_or-append none xs ys);
        },
        at3,
        record {
          off = λ r i.
              let parts = has-append r xs (x ∷ ys) in
              kept3.off r (ground arith) ∙ kept2.off r (ground arith) ∙ kept1.off r (ground arith);
          unused = kept3.unused ∙ kept2.unused ∙ kept1.unused;
          inner = kept3.inner ∙ kept2.inner ∙ kept1.inner;
          cap = kept3.cap ∙ kept2.cap ∙ kept1.cap;
        },
      )

  -- A node that is in the heap, but not in the list, goes to its front.
  pub attach-Linked :
      (c : LruCache K V) (cells : List (Cell K V)) (x : Cell K V) (p q : Option Ptr)
      → Linked cells c
      → has x.ptr cells ≡ false
      → c.heap x.ptr ≡ some (record { key = x.key; value = x.value; prev = p; next = q })
      → (c' : LruCache K V) × (attach x.ptr c ≡ some c')
        × Linked (x ∷ cells) c'
        × Kept (x ∷ cells) c c'
  unfolding attach attach_at
  attach-Linked c [] x p q l out at =
      let node : Node K V = record { key = x.key; value = x.value; prev = p; next = q } in
      let (c1, one, at1, head1, tail1, kept) = set_links-ok c x node none none at in
      (
        record c1 { head = some x.ptr; tail = some x.ptr },
        ap (λ h. attach_at h x.ptr c) l.head ∙ rw (attach_at, one) refl,
        record { seg = (at1, refl, tt); head = refl; tail = refl },
        record { off = kept.off; unused = kept.unused; inner = kept.inner; cap = kept.cap },
      )
  attach-Linked c (y ∷ cells) x p q l out at =
      let node : Node K V = record { key = x.key; value = x.value; prev = p; next = q } in
      let (g, set, seg1, off) = set_prev-Seg c.heap none (some x.ptr) y cells none l.seg in
      let c1 : LruCache K V = record c { heap = g } in
      let at1 : g x.ptr ≡ some node = off x.ptr out ∙ at in
      let (c2, two, at2, head2, tail2, kept) = set_links-ok c1 x node none (some y.ptr) at1 in
      let seg2 =
        Kept-Seg (x ∷ []) c1 c2 (some x.ptr) (y ∷ cells) none kept (Apart-single x (y ∷ cells) out)
          seg1 in
      (
        record c2 { head = some x.ptr },
        ap (λ h. attach_at h x.ptr c) l.head ∙ rw (attach_at, set, two) refl,
        record { seg = (at2, out, seg2); head = refl; tail = tail2 ∙ l.tail },
        record {
          off = λ r i. kept.off r (ground arith) ∙ off r (ground arith);
          unused = kept.unused;
          inner = kept.inner;
          cap = kept.cap;
        },
      )
