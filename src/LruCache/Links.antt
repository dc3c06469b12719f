-- ===== src/LruCache/Links.antt =====
-- Changing the links at the ends of a segment.
use kip_db.Base.{◌≡◌, ◌≢◌, refl, ◌∙◌, ap, true, false, Option, some, List, [], ◌∷◌, arith}
use kip_db.LruCache.Nodes.{Ptr, Node, Heap, write, set_prev, set_next}
use kip_db.LruCache.Cells.{Cell, has, first_or, last_or, Seg, SameOff, Seg-frame}

module _ {K V : Type 0} where
  pub write_self : (h : Heap K V) (p : Ptr) (n : Option (Node K V)) → write h p n p ≡ n
  write_self h p n = ground arith

  pub write-SameOff :
      (h : Heap K V) (c : Cell K V) (n : Option (Node K V)) → SameOff (c ∷ []) h (write h c.ptr n)
  write-SameOff h c n p out = ground arith

  pub write-Seg :
      (h : Heap K V) (ptr : Ptr) (n : Option (Node K V)) (p : Option Ptr) (xs : List (Cell K V))
      (q : Option Ptr)
      → has ptr xs ≡ false
      → Seg h p xs q
      → Seg (write h ptr n) p xs q
  write-Seg h ptr n p xs q out s = Seg-frame h (write h ptr n) p xs q (λ r i. other r i) s
    where
      ne : (r : Ptr) → has r xs ≡ true → ptr ≢ r
      ne r i e = ground (arith, ap (λ (t : Ptr). has t xs) e)

      other : (r : Ptr) → has r xs ≡ true → write h ptr n r ≡ h r
      other r i = ground (arith, ne r i)

  -- The node before an address gets another one behind it.
  pub set_next-Seg :
      (h : Heap K V) (p : Option Ptr) (x : Cell K V) (xs : List (Cell K V)) (q q' : Option Ptr)
      (last : Ptr)
      → Seg h p (x ∷ xs) q
      → last_or (some x.ptr) xs ≡ some last
      → (g : Heap K V) × (set_next last q' h ≡ some g) × Seg g p (x ∷ xs) q' × SameOff (x ∷ xs) h g
  unfolding set_next
  set_next-Seg h p x [] q q' last (at, out, s) e =
      let same : x.ptr ≡ last = ground arith in
      (
        write h x.ptr (some (record { key = x.key; value = x.value; prev = p; next = q' })),
        rw (← same, at) refl,
        (
          write_self h x.ptr (some (record { key = x.key; value = x.value; prev = p; next = q' })),
          refl,
          tt,
        ),
        write-SameOff h x (some (record { key = x.key; value = x.value; prev = p; next = q' })),
      )
  set_next-Seg h p x (y ∷ xs) q q' last (at, out, s) e =
      let (g, set, s', same) = set_next-Seg h (some x.ptr) y xs q q' last s e in
      (g, set, (same x.ptr out ∙ at, out, s'), λ r o. same r (ground arith))

  pub set_prev-Seg :
      (h : Heap K V) (p p' : Option Ptr) (x : Cell K V) (xs : List (Cell K V)) (q : Option Ptr)
      → Seg h p (x ∷ xs) q
      → (g : Heap K V) × (set_prev x.ptr p' h ≡ some g) × Seg g p' (x ∷ xs) q × SameOff (x ∷ xs) h g
  unfolding set_prev
  set_prev-Seg h p p' x xs q (at, out, s) =
      let n : Node K V = record { key = x.key; value = x.value; prev = p'; next = first_or xs q } in
      (
        write h x.ptr (some n),
        rw at refl,
        (write_self h x.ptr (some n), out, write-Seg h x.ptr (some n) (some x.ptr) xs q out s),
        λ r o. ground arith,
      )
