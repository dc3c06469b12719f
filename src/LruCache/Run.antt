-- ===== src/LruCache/Run.antt =====
-- Any run of a cache answers as a list of the entries used last does.
use mathlib.Core.Path.{subst}
use kip_db.Base.{
  ℕ, ◌-◌, ◌≤◌, ◌<◌, ◌≡◌, refl, sym, ◌∙◌, ap, false, Option, none, some, List, [], ◌∷◌, ltb, arith,
}
use kip_db.Base.Lists.{length, take}
use kip_db.Base.Order.{Ord}
use kip_db.Base.SortedMap
use kip_db.Base.SortedMap.Remove.{remove}
use kip_db.Error.{KernelResult, ok}
use kip_db.LruCache.{LruCache, create, put, get, remove_key, get_or_insert, len}
use kip_db.LruCache.Nodes.{◌>>=◌}
use kip_db.LruCache.Keys.{length-items}
use kip_db.LruCache.Holds.{Holds, put-Holds, touched}
use kip_db.LruCache.Uses.{get-Holds, remove_key-Holds, get_or_insert-Holds, got_or_inserted}

-- The calls of a cache, with the value that a closure computes, and their answers.
pub data Call (K V : Type 0) : Type 0 where
  get_call : K → Call K V
  put_call : K → V → Call K V
  remove_call : K → Call K V
  insert_call : K → KernelResult V → Call K V

pub data Answer (V : Type 0) : Type 0 where
  value : Option V → Answer V
  result : KernelResult V → Answer V

module _ {K V : Type 0} ⦃o : Ord K⦄ where
  abbrev pub answer : Call K V → LruCache K V → Option (LruCache K V × Answer V)
  answer (get_call k) c = get k c >>= λ r. some (r.0, value r.1)
  answer (put_call k v) c = put k v c >>= λ r. some (r.0, value r.1)
  answer (remove_call k) c = remove_key k c >>= λ r. some (r.0, value r.1)
  answer (insert_call k computed) c =
      get_or_insert k (λ _. computed) c >>= λ r. some (r.0, result r.1)

  abbrev pub run : List (Call K V) → LruCache K V → Option (LruCache K V × List (Answer V))
  run [] c = some (c, [])
  run (call ∷ calls) c =
      answer call c >>= λ one. run calls one.0 >>= λ rest. some (rest.0, one.1 ∷ rest.1)

  -- The same calls on the list of the entries, the last used one first, of which `cap` are kept.
  abbrev pub expected : ℕ → Call K V → List (K × V) → List (K × V) × Answer V
  expected cap (get_call k) entries = (touched k entries, value (SortedMap.get k entries))
  expected cap (put_call k v) entries =
      ((k, v) ∷ take (cap - 1) (remove k entries), value (SortedMap.get k entries))
  expected cap (remove_call k) entries = (remove k entries, value (SortedMap.get k entries))
  expected cap (insert_call k computed) entries =
      let (entries', r) = got_or_inserted cap k computed entries in (entries', result r)

  abbrev pub expected_all : ℕ → List (Call K V) → List (K × V) → List (K × V) × List (Answer V)
  expected_all cap [] entries = (entries, [])
  expected_all cap (call ∷ calls) entries =
      let (entries', one) = expected cap call entries in
      let (entries'', rest) = expected_all cap calls entries' in (entries'', one ∷ rest)

  answer-expected :
      (call : Call K V) (entries : List (K × V)) (c : LruCache K V)
      → Holds entries c
      → (c' : LruCache K V) × (answer call c ≡ some (c', (expected c.cap call entries).1))
        × Holds (expected c.cap call entries).0 c'
        × (c'.cap ≡ c.cap)
  answer-expected (get_call k) entries c h =
      let (c', done, holds, cap) = get-Holds k entries c h in (c', rw done refl, holds, cap)
  answer-expected (put_call k v) entries c h =
      let (c', done, holds, cap) = put-Holds k v entries c h in (c', rw done refl, holds, cap)
  answer-expected (remove_call k) entries c h =
      let (c', done, holds, cap) = remove_key-Holds k entries c h in (c', rw done refl, holds, cap)
  answer-expected (insert_call k computed) entries c h =
      let (c', done, holds, cap) = get_or_insert-Holds k (λ _. computed) entries c h in
      (c', rw done refl, holds, cap)

  pub answer-capacity :
      (cap : ℕ) (call : Call K V) (entries : List (K × V)) (c : LruCache K V)
      → c.cap ≡ cap
      → Holds entries c
      → (c' : LruCache K V) × (answer call c ≡ some (c', (expected cap call entries).1))
        × Holds (expected cap call entries).0 c'
        × (c'.cap ≡ cap)
  answer-capacity cap call entries c same h =
      subst
        (λ n.
          (c' : LruCache K V) × (answer call c ≡ some (c', (expected n call entries).1))
          × Holds (expected n call entries).0 c'
          × (c'.cap ≡ n))
        same (answer-expected call entries c h)

  run-Holds :
      (cap : ℕ) (calls : List (Call K V)) (entries : List (K × V)) (c : LruCache K V)
      → c.cap ≡ cap
      → Holds entries c
      → (c' : LruCache K V) × (run calls c ≡ some (c', (expected_all cap calls entries).1))
        × Holds (expected_all cap calls entries).0 c'
        × (c'.cap ≡ cap)
  run-Holds cap [] entries c same h = (c, refl, h, same)
  run-Holds cap (call ∷ calls) entries c same h =
      let (c1, one, h1, cap1) = answer-capacity cap call entries c same h in
      let (c2, all, h2, cap2) = run-Holds cap calls (expected cap call entries).0 c1 cap1 h1 in
      (c2, rw (one, all) refl, h2, cap2)

  pub create-Holds :
      (cap : ℕ) → 0 < cap → (c : LruCache K V) × (create cap ≡ ok c) × Holds [] c × (c.cap ≡ cap)
  unfolding create
  create-Holds cap h =
      let some_cap : ltb cap 1 ≡ false = ground arith in
      let c : LruCache K V = record {
        heap = λ p. none;
        unused = 0;
        head = none;
        tail = none;
        inner = [];
        cap = cap;
      } in
      (
        c,
        rw (create, some_cap) refl,
        record {
          cells = [];
          rep = record {
            linked = record { seg = tt; head = refl; tail = refl };
            sorted = tt;
            finds = λ k. refl;
            count = refl;
            distinct = tt;
            bound = omega arith;
            some_cap = h;
            old = λ p i. absurd (ground arith);
          };
          are = refl;
        },
        refl,
      )

  -- A cache of a positive capacity can be made, and any calls of it run without an access to a node
  -- that was given back. They answer as on the list of its entries, which has the last used ones
  -- first and keeps as many as the capacity; the linked list and the map of the cache hold these
  -- entries, in this order, and `len` is their number, at most the capacity.
  pub run-expected :
      (cap : ℕ) (calls : List (Call K V))
      → 0 < cap
      → (c : LruCache K V) × (c' : LruCache K V) × (create cap ≡ ok c)
        × (run calls c ≡ some (c', (expected_all cap calls []).1))
        × Holds (expected_all cap calls []).0 c'
        × (len c' ≡ length (expected_all cap calls []).0)
        × (len c' ≤ cap)
  unfolding len
  run-expected cap calls some_cap =
      let (c, made, h, same) = create-Holds cap some_cap in
      let (c', done, h', same') = run-Holds cap calls [] c same h in
      let size : length h'.cells ≡ length (expected_all cap calls []).0 =
        sym (length-items h'.cells) ∙ ap length h'.are in
      let count = h'.rep.count in
      let bound = h'.rep.bound in (c, c', made, done, h', count ∙ size, omega arith)
