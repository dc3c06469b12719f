-- ===== src/ShardingLruCache/Shards.antt =====
-- Any run of a cache in shards answers as a list of entries for each shard does.
use mathlib.Core.Path.{subst}
use kip_db.Base.{
  ℕ, zero, suc, ◌/◌, ◌%◌, ◌^◌, ◌<◌, ◌≡◌, refl, sym, ◌∙◌, ap, false, Option-cases, inl, inr, Option,
  some, List, [], ◌∷◌, ◌==◌, arith,
}
use kip_db.Base.Lists.{length, replicate, length-replicate}
use kip_db.Base.Order.{Ord}
use kip_db.Base.Search.{get_elem?}
use kip_db.Base.Slices.{mod_lt}
use kip_db.Base.Update.{set, length-set}
use kip_db.Error.{ok}
use kip_db.LruCache
use kip_db.LruCache.{LruCache}
use kip_db.LruCache.Nodes.{◌>>=◌}
use kip_db.LruCache.Holds.{Holds}
use kip_db.LruCache.Run.{
  Call, get_call, put_call, remove_call, insert_call, Answer, value, result, answer, expected,
  answer-capacity, create-Holds,
}
use kip_db.ShardingLruCache.{
  ShardingLruCache, new_shards, create, shard, on_shard, get, put, remove, get_or_insert,
}

module _ {K V : Type 0} where
  abbrev pub key_of : Call K V → K
  key_of (get_call k) = k
  key_of (put_call k v) = k
  key_of (remove_call k) = k
  key_of (insert_call k computed) = k

module _ {K V : Type 0} ⦃o : Ord K⦄ (hash : K → ℕ) where
  abbrev pub answer_shard :
      Call K V → ShardingLruCache K V → Option (ShardingLruCache K V × Answer V)
  answer_shard (get_call k) s = get hash k s >>= λ r. some (r.0, value r.1)
  answer_shard (put_call k v) s = put hash k v s >>= λ r. some (r.0, value r.1)
  answer_shard (remove_call k) s = remove hash k s >>= λ r. some (r.0, value r.1)
  answer_shard (insert_call k computed) s =
      get_or_insert hash k (λ _. computed) s >>= λ r. some (r.0, result r.1)

  abbrev pub run_shards :
      List (Call K V) → ShardingLruCache K V → Option (ShardingLruCache K V × List (Answer V))
  run_shards [] s = some (s, [])
  run_shards (call ∷ calls) s = answer_shard call s >>= λ one.
      run_shards calls one.0 >>= λ rest. some (rest.0, one.1 ∷ rest.1)

  -- The same calls on lists of entries: the hash of its key selects the list of a call.
  abbrev pub expected_shard :
      ℕ → ℕ → Call K V → List (List (K × V)) → Option (List (List (K × V)) × Answer V)
  expected_shard cap n call lists =
      let i = hash (key_of call) % 2 ^ 64 % n in
      get_elem? lists i >>= λ entries.
      some (set lists i (expected cap call entries).0, (expected cap call entries).1)

  abbrev pub expected_shards :
      ℕ → ℕ → List (Call K V) → List (List (K × V)) → Option (List (List (K × V)) × List (Answer V))
  expected_shards cap n [] lists = some (lists, [])
  expected_shards cap n (call ∷ calls) lists = expected_shard cap n call lists >>= λ one.
      expected_shards cap n calls one.0 >>= λ rest. some (rest.0, one.1 ∷ rest.1)

module _ {K V : Type 0} ⦃o : Ord K⦄ where
  -- Each shard holds its list, and has the capacity.
  abbrev pub AllHold : ℕ → List (List (K × V)) → List (LruCache K V) → Type 0
  AllHold cap [] [] = Unit
  AllHold cap [] (c ∷ shards) = ⊥
  AllHold cap (entries ∷ lists) [] = ⊥
  AllHold cap (entries ∷ lists) (c ∷ shards) =
      Holds entries c × (c.cap ≡ cap) × AllHold cap lists shards

  AllHold-length :
      (cap : ℕ) (lists : List (List (K × V))) (shards : List (LruCache K V))
      → AllHold cap lists shards
      → length lists ≡ length shards
  AllHold-length cap [] [] h = refl
  AllHold-length cap [] (c ∷ shards) h = absurd h
  AllHold-length cap (e ∷ lists) [] h = absurd h
  AllHold-length cap (e ∷ lists) (c ∷ shards) (_, _, h) = ap suc (AllHold-length cap lists shards h)

  AllHold-get :
      (cap : ℕ) (lists : List (List (K × V))) (shards : List (LruCache K V)) (i : ℕ)
      → AllHold cap lists shards
      → i < length shards
      → (entries : List (K × V)) × (c : LruCache K V) × (get_elem? lists i ≡ some entries)
        × (get_elem? shards i ≡ some c)
        × Holds entries c
        × (c.cap ≡ cap)
  AllHold-get cap [] [] i h below = absurd (omega arith)
  AllHold-get cap [] (c ∷ shards) i h below = absurd h
  AllHold-get cap (e ∷ lists) [] i h below = absurd h
  AllHold-get cap (e ∷ lists) (c ∷ shards) zero (one, same, h) below = (e, c, refl, refl, one, same)
  AllHold-get cap (e ∷ lists) (c ∷ shards) (suc i) (_, _, h) below =
      AllHold-get cap lists shards i h (omega arith)

  AllHold-set :
      (cap : ℕ) (lists : List (List (K × V))) (shards : List (LruCache K V)) (i : ℕ)
      (entries : List (K × V)) (c : LruCache K V)
      → AllHold cap lists shards
      → Holds entries c
      → c.cap ≡ cap
      → AllHold cap (set lists i entries) (set shards i c)
  AllHold-set cap [] [] i entries c h one same = tt
  AllHold-set cap [] (d ∷ shards) i entries c h one same = absurd h
  AllHold-set cap (e ∷ lists) [] i entries c h one same = absurd h
  AllHold-set cap (e ∷ lists) (d ∷ shards) zero entries c (_, _, h) one same = (one, same, h)
  AllHold-set cap (e ∷ lists) (d ∷ shards) (suc i) entries c (first, cap_d, h) one same =
      (first, cap_d, AllHold-set cap lists shards i entries c h one same)

  new_shards-AllHold :
      (n cap : ℕ)
      → 0 < cap
      → (shards : List (LruCache K V)) × (new_shards n cap ≡ ok shards)
        × AllHold cap (replicate n []) shards
  unfolding new_shards
  new_shards-AllHold zero cap some_cap = ([], refl, tt)
  new_shards-AllHold (suc n) cap some_cap =
      let (c, made, h, same) = create-Holds {K = K} {V = V} cap some_cap in
      let (shards, all, rest) = new_shards-AllHold n cap some_cap in
      (c ∷ shards, rw (new_shards, made, all) refl, (h, same, rest))

  module _ (hash : K → ℕ) where
    -- A method and then a function of its value is one method.
    on_shard-map :
        {B C : Type 0} (k : K) (method : LruCache K V → Option (LruCache K V × B)) (f : B → C)
        (s : ShardingLruCache K V)
        → (on_shard hash k method s >>= λ r. some (r.0, f r.1))
          ≡ on_shard hash k (λ c. method c >>= λ r. some (r.0, f r.1)) s
    unfolding on_shard
    on_shard-map k method f s = elim (Option-cases (get_elem? s.sharding_vec (shard hash k s))) [
      | inl none_here ↦ rw (on_shard, none_here) refl
      | inr (c, here) ↦ elim (Option-cases (method c)) [
        | inl stuck ↦ rw (on_shard, here, stuck) refl
        | inr (r, done) ↦ rw (on_shard, here, done) refl
      ]
    ]

    on_shard-answer :
        (call : Call K V) (s : ShardingLruCache K V)
        → answer_shard hash call s ≡ on_shard hash (key_of call) (answer call) s
    unfolding get put remove get_or_insert
    on_shard-answer (get_call k) s = on_shard-map k (LruCache.get k) value s
    on_shard-answer (put_call k v) s = on_shard-map k (LruCache.put k v) value s
    on_shard-answer (remove_call k) s = on_shard-map k (LruCache.remove_key k) value s
    on_shard-answer (insert_call k computed) s =
        on_shard-map k (LruCache.get_or_insert k (λ _. computed)) result s

    -- One call of a shard at an index that there is.
    answer_shard-expected :
        (cap n : ℕ) (call : Call K V) (lists : List (List (K × V))) (s : ShardingLruCache K V)
        → 0 < n
        → length s.sharding_vec ≡ n
        → AllHold cap lists s.sharding_vec
        → (s' : ShardingLruCache K V) × (lists' : List (List (K × V))) × (one : Answer V)
          × (answer_shard hash call s ≡ some (s', one))
          × (expected_shard hash cap n call lists ≡ some (lists', one))
          × (length s'.sharding_vec ≡ n)
          × AllHold cap lists' s'.sharding_vec
    unfolding on_shard shard
    answer_shard-expected cap n call lists s some_n size h =
        let i = hash (key_of call) % 2 ^ 64 % n in
        let below : i < length s.sharding_vec =
          subst (λ m. i < m) (sym size) (mod_lt (hash (key_of call) % 2 ^ 64) n some_n) in
        let (entries, c, at_list, at_shard, holds, same) =
          AllHold-get cap lists s.sharding_vec i h below in
        let (c', done, holds', same') = answer-capacity cap call entries c same holds in
        let new = expected cap call entries in
        (
          record s { sharding_vec = set s.sharding_vec i c' },
          set lists i new.0,
          new.1,
          on_shard-answer call s ∙ rw (on_shard, shard, size, at_shard, done) refl,
          rw at_list refl,
          length-set s.sharding_vec i c' ∙ size,
          AllHold-set cap lists s.sharding_vec i new.0 c' h holds' same',
        )

    run_shards-AllHold :
        (cap n : ℕ) (calls : List (Call K V)) (lists : List (List (K × V)))
        (s : ShardingLruCache K V)
        → 0 < n
        → length s.sharding_vec ≡ n
        → AllHold cap lists s.sharding_vec
        → (s' : ShardingLruCache K V) × (lists' : List (List (K × V))) × (answers : List (Answer V))
          × (run_shards hash calls s ≡ some (s', answers))
          × (expected_shards hash cap n calls lists ≡ some (lists', answers))
          × AllHold cap lists' s'.sharding_vec
    run_shards-AllHold cap n [] lists s some_n size h = (s, lists, [], refl, refl, h)
    run_shards-AllHold cap n (call ∷ calls) lists s some_n size h =
        let (s1, lists1, one, done, is, size1, h1) =
          answer_shard-expected cap n call lists s some_n size h in
        let (s2, lists2, rest, all, are, h2) =
          run_shards-AllHold cap n calls lists1 s1 some_n size1 h1 in
        (s2, lists2, one ∷ rest, rw (done, all) refl, rw (is, are) refl, h2)

    -- A cache in shards can be made when their number divides the capacity and leaves each a positive
    -- one. Any calls of it then run without an access to a node that was given back. They answer as a
    -- list of entries for each shard does, the last used first and as many as the shard's capacity;
    -- the hash of a call's key selects its list. The shards hold these lists.
    pub run_shards-expected :
        (cap n : ℕ) (calls : List (Call K V))
        → 0 < n
        → cap % n ≡ 0
        → 0 < cap / n
        → (s s' : ShardingLruCache K V) × (lists : List (List (K × V))) × (answers : List
            (Answer V))
          × (create cap n ≡ ok s)
          × (run_shards hash calls s ≡ some (s', answers))
          × (expected_shards hash (cap / n) n calls (replicate n []) ≡ some (lists, answers))
          × AllHold (cap / n) lists s'.sharding_vec
    unfolding create
    run_shards-expected cap n calls some_n aligned some_cap =
        let (shards, made, h) = new_shards-AllHold n (cap / n) some_cap in
        let s : ShardingLruCache K V = record { sharding_vec = shards } in
        let size : length shards ≡ n =
          sym (AllHold-length (cap / n) (replicate n []) shards h) ∙ length-replicate n [] in
        let (s', lists, answers, done, are, h') =
          run_shards-AllHold (cap / n) n calls (replicate n []) s some_n size h in
        let nonzero : (n == 0) ≡ false = ground arith in
        (s, s', lists, answers, rw (create, nonzero, aligned, made) refl, done, are, h')
