-- ===== src/LruCache/Evict.antt =====
-- Making room, and putting a new node to the front.
use mathlib.Core.Path.{subst}
use mathlib.Core.List.{append-nil}
use kip_db.Base.{
  ℕ, zero, suc, ◌-◌, ◌≤◌, ◌<◌, ◌≡◌, ◌≢◌, ◌⊎◌, inl, inr, refl, sym, ◌∙◌, ap, false, Bool-cases, none,
  some, List, [], ◌∷◌, ◌++◌, leb, arith,
}
use kip_db.Base.Lists.{length, take}
use kip_db.Base.Order.{Ord}
use kip_db.Base.SortedMap.{get, insert}
use kip_db.Base.SortedMap.Remove.{remove}
use kip_db.LruCache.{LruCache, expulsion, expulsion_at, insert_new}
use kip_db.LruCache.Nodes.{Ptr, new_node}
use kip_db.LruCache.Cells.{Cell, has, last_or, last_or-append}
use kip_db.LruCache.Detach.{Linked, detach-Linked, attach-Linked}
use kip_db.LruCache.Keys.{ptrs, items, length-items, length-without, absent-without}
use kip_db.LruCache.Represents.{Represents, without-Represents, with-Represents}
use kip_db.LruCache.Steps.{Step, Step_none, fewer_without}

module _ {K V : Type 0} where
  pub take_all : (n : ℕ) (m : List (K × V)) → length m ≤ n → take n m ≡ m
  take_all zero [] h = refl
  take_all zero (x ∷ m) h = absurd (omega arith)
  take_all (suc n) [] h = refl
  take_all (suc n) (x ∷ m) h = ap (λ t. x ∷ t) (take_all n m (omega arith))

  -- A list without its last cell.
  take_front :
      (xs : List (Cell K V)) (x : Cell K V)
      → take (length xs) (items (xs ++ x ∷ [])) ≡ items (xs ++ [])
  take_front [] x = refl
  take_front (c ∷ xs) x = ap (λ t. (c.key, c.value) ∷ t) (take_front xs x)

  snoc_view :
      (cells : List (Cell K V))
      → (cells ≡ []) ⊎ ((xs : List (Cell K V)) × (x : Cell K V) × (cells ≡ xs ++ x ∷ []))
  snoc_view [] = inl refl
  snoc_view (c ∷ cells) = elim (snoc_view cells) [
    | inl e ↦ inr ([], c, ap (λ t. c ∷ t) e)
    | inr (xs, x, e) ↦ inr (c ∷ xs, x, ap (λ t. c ∷ t) e)
  ]

module _ {K V : Type 0} ⦃o : Ord K⦄ where
  pub record Evicted (cells : List (Cell K V)) (c : LruCache K V) : Type 0 where
    pub rest : List (Cell K V)
    pub after : LruCache K V
    pub done : expulsion c ≡ some after
    pub step : Step cells rest c after
    pub entries : items rest ≡ take (c.cap - 1) (items cells)
    pub room : length rest < c.cap
    pub absent : (k : K) → get k (ptrs cells) ≡ none → get k (ptrs rest) ≡ none

  unchanged :
      (cells : List (Cell K V)) (c : LruCache K V)
      → Represents cells c
      → length cells < c.cap
      → expulsion c ≡ some c
      → Evicted cells c
  unchanged cells c r room done = record {
    rest = cells;
    after = c;
    done = done;
    step = Step_none cells c r;
    entries = sym (take_all (c.cap - 1) (items cells) (omega (arith, length-items cells)));
    room = room;
    absent = λ k h. h;
  }

  pub expulsion-Evicted :
      (cells : List (Cell K V)) (c : LruCache K V) → Represents cells c → Evicted cells c
  unfolding expulsion expulsion_at
  expulsion-Evicted cells c r = elim (snoc_view cells) [
    | inl e ↦
        let empty : c.tail ≡ none = r.linked.tail ∙ ap (last_or none) e in
        let short : length cells ≡ 0 = ap length e in
        unchanged cells c r (let s = r.some_cap in omega arith) (ap (λ t. expulsion_at t c) empty)
    | inr (xs, x, e) ↦ full_or_not xs x e
  ]
    where
      full_or_not : (xs : List (Cell K V)) (x : Cell K V) → cells ≡ xs ++ x ∷ [] → Evicted cells c
      full_or_not xs x e =
          let last : c.tail ≡ some x.ptr =
            r.linked.tail ∙ ap (last_or none) e ∙ last_or-append none xs (x ∷ []) in
          let count = r.count in
          let bound = r.bound in
          elim (Bool-cases (leb c.cap (length c.inner))) [
            | inr room ↦
                unchanged cells c r (ground arith)
                  (ap (λ t. expulsion_at t c) last ∙ rw (expulsion_at, room) refl)
            | inl full ↦
                let l : Linked (xs ++ x ∷ []) c = subst (λ t. Linked t c) e r.linked in
                let (c1, detached, linked, at, kept) = detach-Linked c xs [] x l in
                let after : LruCache K V = record c1 { inner = remove x.key c1.inner } in
                let fewer : length cells ≡ suc (length (xs ++ [])) =
                  ap length e ∙ length-without xs x [] in
                let front : length (xs ++ []) ≡ length xs = ap length (append-nil xs) in
                let size : c.cap - 1 ≡ length xs = ground (arith, fewer, front) in
                record {
                  rest = xs ++ [];
                  after = after;
                  done =
                      ap (λ t. expulsion_at t c) last ∙ rw (expulsion_at, full, detached, at) refl;
                  step = record {
                    rep =
                        without-Represents c after xs x [] (subst (λ t. Represents t c) e r)
                          (record { seg = linked.seg; head = linked.head; tail = linked.tail })
                          (ap (remove x.key) kept.inner) kept.cap kept.unused;
                    off = λ p i. kept.off p (subst (λ t. has p t ≡ false) e i);
                    fewer = λ p i. fewer_without xs x [] p (subst (λ t. has p t ≡ false) e i);
                    unused = kept.unused;
                    cap = kept.cap;
                  };
                  entries = sym (
                      ap (λ t. take t (items cells)) size
                      ∙ ap (λ t. take (length xs) (items t)) e
                      ∙ take_front xs x);
                  room = omega arith;
                  absent = λ k h. absent-without k xs x [] (subst (λ t. get k (ptrs t) ≡ none) e h);
                }
          ]

  -- A new node goes to the front, after room was made for it.
  pub insert_new-Represents :
      (p : Ptr) (k : K) (v : V) (cells : List (Cell K V)) (c : LruCache K V)
      → Represents cells c
      → get k (ptrs cells) ≡ none
      → has p cells ≡ false
      → p < c.unused
      → c.heap p ≡ some (new_node k v)
      → (c' : LruCache K V) × (rest : List (Cell K V)) × (insert_new p k c ≡ some c')
        × Represents (record { ptr = p; key = k; value = v } ∷ rest) c'
        × (items rest ≡ take (c.cap - 1) (items cells))
        × ((q : Ptr) → has q cells ≡ false → p ≢ q → (c'.heap q ≡ c.heap q) × (has q rest ≡ false))
        × (c'.cap ≡ c.cap)
  unfolding insert_new new_node
  insert_new-Represents p k v cells c r absent out below at =
      let x : Cell K V = record { ptr = p; key = k; value = v } in
      let e = expulsion-Evicted cells c r in
      let c1 : LruCache K V = e.after in
      let s = e.step in
      let at1 : c1.heap p ≡ some (record { key = k; value = v; prev = none; next = none }) =
        s.off p out ∙ at in
      let (c2, attached, linked, kept) =
        attach-Linked c1 e.rest x none none s.rep.linked (s.fewer p out) at1 in
      let after : LruCache K V = record c2 { inner = insert k p c2.inner } in
      (
        after,
        e.rest,
        rw (insert_new, e.done, attached) refl,
        with-Represents c1 after x e.rest s.rep
            (record { seg = linked.seg; head = linked.head; tail = linked.tail })
            (e.absent k absent) (ap (insert k p) kept.inner) kept.cap kept.unused
            (let room = e.room in rw s.cap room) (rw s.unused below),
        e.entries,
        λ q i ne. let out_rest = s.fewer q i in (kept.off q (ground arith) ∙ s.off q i, out_rest),
        kept.cap ∙ s.cap,
      )
