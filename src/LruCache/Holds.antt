-- ===== src/LruCache/Holds.antt =====
-- What the operations do to the entries of the cache, the last used one first.
use kip_db.Base.{
  ◌-◌, ◌<◌, ◌≡◌, ◌≢◌, refl, sym, ◌∙◌, ap, false, Option, none, some, List, ◌∷◌, arith,
}
use kip_db.Base.Lists.{take}
use kip_db.Base.Order.{Ord}
use kip_db.Base.SortedMap
use kip_db.Base.SortedMap.Remove.{remove}
use kip_db.LruCache.{LruCache, alloc, take_node, free_value, insert_new, put}
use kip_db.LruCache.Nodes.{Ptr, Node, write, new_node, free}
use kip_db.LruCache.Cells.{Cell, has}
use kip_db.LruCache.Links.{write_self}
use kip_db.LruCache.Keys.{items}
use kip_db.LruCache.Represents.{Represents, same-Represents, write-Linked, unused-out}
use kip_db.LruCache.Steps.{IsTaken, take_node-Taken}
use kip_db.LruCache.Evict.{insert_new-Represents}

module _ {K V : Type 0} ⦃o : Ord K⦄ where
  -- The cache, in order, holds the entries of a list.
  pub record Holds (entries : List (K × V)) (c : LruCache K V) : Type 0 where
    pub cells : List (Cell K V)
    pub rep : Represents cells c
    pub are : items cells ≡ entries

  -- The entries when one of them was used.
  abbrev pub touched : K → List (K × V) → List (K × V)
  touched k entries = elim (SortedMap.get k entries) [
    | none ↦ entries
    | some v ↦ (k, v) ∷ remove k entries
  ]

  pub free_none : (c : LruCache K V) → free_value none c ≡ some (c, none)
  unfolding free_value
  free_none c = refl

  alloc-Represents :
      (k : K) (v : V) (cells : List (Cell K V)) (c : LruCache K V)
      → Represents cells c
      → Represents cells (alloc k v c)
  unfolding alloc
  alloc-Represents k v cells c r =
      let l = write-Linked c cells c.unused (some (new_node k v)) (unused-out c cells r) r.linked in
      same-Represents c (alloc k v c) cells r (record { seg = l.seg; head = l.head; tail = l.tail })
        refl refl (omega arith)

  -- A node that is not in the list is given back.
  pub free-Represents :
      (cells : List (Cell K V)) (c : LruCache K V) (p : Ptr) (n : Node K V)
      → Represents cells c
      → has p cells ≡ false
      → c.heap p ≡ some n
      → (c' : LruCache K V) × (free_value (some p) c ≡ some (c', some n.value))
        × Represents cells c'
        × (c'.cap ≡ c.cap)
  unfolding free_value free
  free-Represents cells c p n r out at =
      let c' : LruCache K V = record c { heap = write c.heap p none } in
      (
        c',
        rw (free_value, at) refl,
        same-Represents c c' cells r (write-Linked c cells p none out r.linked) refl refl
            (omega arith),
        refl,
      )

  -- The node that the key had, outside of the list.
  abbrev pub Old : K → List (K × V) → List (Cell K V) → Ptr → LruCache K V → Option Ptr → Type 0
  Old k entries rest unused c none = SortedMap.get k entries ≡ none
  Old k entries rest unused c (some p) =
      (n : Node K V) × (c.heap p ≡ some n)
      × (SortedMap.get k entries ≡ some n.value)
      × (has p rest ≡ false)
      × (unused ≢ p)

  -- A new node is at the front, in place of what the key had, which is not given back yet.
  pub record Replaced (k : K) (v : V) (entries : List (K × V)) (c : LruCache K V) : Type 0 where
    pub taken : LruCache K V
    pub found : Option Ptr
    pub after : LruCache K V
    pub rest : List (Cell K V)
    pub take_done : take_node k (alloc k v c) ≡ some (taken, found)
    pub insert_done : insert_new c.unused k taken ≡ some after
    pub rep : Represents (record { ptr = c.unused; key = k; value = v } ∷ rest) after
    pub are : items rest ≡ take (c.cap - 1) (remove k entries)
    pub cap : after.cap ≡ c.cap
    pub old : Old k entries rest c.unused after found

  pub replace :
      (k : K) (v : V) (entries : List (K × V)) (c : LruCache K V)
      → Holds entries c
      → Replaced k v entries c
  unfolding alloc
  replace k v entries c h =
      let cells : List (Cell K V) = h.cells in
      let p : Ptr = c.unused in
      let out = unused-out c cells h.rep in
      let c0 : LruCache K V = alloc k v c in
      let t = take_node-Taken k cells c0 (alloc-Represents k v cells c h.rep) in
      let at = t.step.off p out ∙ write_self c.heap p (some (new_node k v)) in
      let below : p < t.after.unused = let u = t.step.unused in omega arith in
      let (c1, rest, inserted, rep, front, off, cap) =
        insert_new-Represents p k v t.rest t.after t.step.rep t.absent (t.step.fewer p out) below
          at in
      record {
        taken = t.after;
        found = t.found;
        after = c1;
        rest = rest;
        take_done = t.done;
        insert_done = inserted;
        rep = rep;
        are =
            front
            ∙ ap (λ n. take (n - 1) (items t.rest)) t.step.cap
            ∙ ap (take (c.cap - 1)) (t.entries ∙ ap (remove k) h.are);
        cap = cap ∙ t.step.cap;
        old = old cells t.rest rest t.after c1 t.found h.are out off t.value;
      }
    where
      old :
          (cells kept rest : List (Cell K V)) (ct c1 : LruCache K V) (found : Option Ptr)
          → items cells ≡ entries
          → has c.unused cells ≡ false
          → ((q : Ptr)
              → has q kept ≡ false
              → c.unused ≢ q
              → (c1.heap q ≡ ct.heap q) × (has q rest ≡ false))
          → IsTaken k cells kept ct found
          → Old k entries rest c.unused c1 found
      old cells kept rest ct c1 none are out off t = ap (SortedMap.get k) (sym are) ∙ t
      old cells kept rest ct c1 (some q) are out off (n, at, value, gone, was) =
          let ne : c.unused ≢ q = λ e. ground (arith, ap (λ (t : Ptr). has t cells) e) in
          let (same, out_rest) = off q gone ne in
          (n, same ∙ at, ap (SortedMap.get k) (sym are) ∙ value, out_rest, ne)

  -- `put` answers the value that the key had, and of the others keeps those used last.
  pub put-Holds :
      (k : K) (v : V) (entries : List (K × V)) (c : LruCache K V)
      → Holds entries c
      → (c' : LruCache K V) × (put k v c ≡ some (c', SortedMap.get k entries))
        × Holds ((k, v) ∷ take (c.cap - 1) (remove k entries)) c'
        × (c'.cap ≡ c.cap)
  unfolding put
  put-Holds k v entries c h = let r = replace k v entries c h in by_found r r.found refl r.old
    where
      by_found :
          (r : Replaced k v entries c) (found : Option Ptr)
          → r.found ≡ found
          → Old k entries r.rest c.unused r.after found
          → (c' : LruCache K V) × (put k v c ≡ some (c', SortedMap.get k entries))
            × Holds ((k, v) ∷ take (c.cap - 1) (remove k entries)) c'
            × (c'.cap ≡ c.cap)
      by_found r none e absent = (
        r.after,
        rw (put, r.take_done, r.insert_done, e, absent) (free_none r.after),
        record {
          cells = record { ptr = c.unused; key = k; value = v } ∷ r.rest;
          rep = r.rep;
          are = ap (λ t. (k, v) ∷ t) r.are;
        },
        r.cap,
      )
      by_found r (some q) e (n, at, value, out, ne) =
          let (c', freed, rep, cap) =
            free-Represents (record { ptr = c.unused; key = k; value = v } ∷ r.rest) r.after q n
              r.rep (ground arith) at in
          (
            c',
            rw (put, r.take_done, r.insert_done, e, value) freed,
            record {
              cells = record { ptr = c.unused; key = k; value = v } ∷ r.rest;
              rep = rep;
              are = ap (λ t. (k, v) ∷ t) r.are;
            },
            cap ∙ r.cap,
          )
