-- ===== src/LruCache/Drop.antt =====
-- Dropping a cache gives back the nodes of its list.
use kip_db.Base.{
  ℕ, zero, suc, ◌<◌, ◌≡◌, refl, ◌∙◌, ap, Option, none, some, List, [], ◌∷◌, if◌then◌else◌, arith,
}
use kip_db.Base.Lists.{length}
use kip_db.Base.Order.{Ord}
use kip_db.LruCache.{LruCache, drop, drop_loop}
use kip_db.LruCache.Nodes.{Ptr, write, free}
use kip_db.LruCache.Cells.{Cell, has, first_or, Seg}
use kip_db.LruCache.Links.{write-Seg}
use kip_db.LruCache.Represents.{Represents}

module _ {K V : Type 0} ⦃o : Ord K⦄ where
  drop_loop-frees :
      (fuel : ℕ) (cells : List (Cell K V)) (p : Option Ptr) (c : LruCache K V)
      → length cells < fuel
      → Seg c.heap p cells none
      → (c' : LruCache K V) × (drop_loop fuel (first_or cells none) c ≡ some c')
        × (c'.head ≡ none)
        × ((q : Ptr) → c'.heap q ≡ (if has q cells then none else c.heap q))
  unfolding drop_loop free
  drop_loop-frees zero cells p c enough s = absurd (omega arith)
  drop_loop-frees (suc fuel) [] p c enough s = (record c { head = none }, refl, refl, λ q. refl)
  drop_loop-frees (suc fuel) (x ∷ cells) p c enough (at, out, s) =
      let c1 : LruCache K V = record c { heap = write c.heap x.ptr none } in
      let s1 = write-Seg c.heap x.ptr none (some x.ptr) cells none out s in
      let (c', done, no_head, freed) =
        drop_loop-frees fuel cells (some x.ptr) c1 (omega arith) s1 in
      (c', rw (drop_loop, at) done, no_head, λ q. freed q ∙ ground arith)

  -- `drop` ends after as many rounds as there are nodes, and one. It gives back each node of the list
  -- once, and no other.
  pub drop-frees :
      (cells : List (Cell K V)) (c : LruCache K V)
      → Represents cells c
      → (c' : LruCache K V) × (drop (suc (length cells)) c ≡ some c')
        × (c'.head ≡ none)
        × ((q : Ptr) → c'.heap q ≡ (if has q cells then none else c.heap q))
  unfolding drop
  drop-frees cells c r =
      let (c', done, no_head, freed) =
        drop_loop-frees (suc (length cells)) cells none c (omega arith) r.linked.seg in
      (c', ap (λ h. drop_loop (suc (length cells)) h c) r.linked.head ∙ done, no_head, freed)
