-- ===== src/Merging/Lookup.antt =====
-- Merged lists hold for every key what the first list with the key holds.
use kip_db.Base.{
  ℕ, suc, ◌≤◌, ◌<◌, ◌≡◌, refl, sym, ◌∙◌, ap, false, Bool-cases, inl, inr, Option, none, some, List,
  [], ◌∷◌, if◌then◌else◌, arith,
}
use kip_db.Base.Lists.{length}
use kip_db.Base.Order.{
  Ordering-cases, Bytes, bytes_ord, bytes_cmp, bytes_cmp_refl, bytes_eq_of_cmp, is_eq, lt,
}
use kip_db.Base.SortedMap.{
  IsSorted, Above, Above-trans, get, insert, insert-IsSorted, insert_lt, insert_eq, insert_gt,
}
use kip_db.Data.{KeyValue}
use kip_db.MemTable.Find.{first_some, some_or_none}
use kip_db.Merging.{IterKey, MapBuf, iter_cmp, iter_ord, iter_eq_of_cmp}
use kip_db.Merging.Drain.{runs_from, runs, merged}
use kip_db.Merging.Entries.{put, put_all}
use kip_db.Merging.Heads.{at}
use kip_db.Merging.Merged.{total, length-put_all}
use kip_db.Merging.Pull.{AllSorted, Below, Below-insert}

-- What the first list that has the key holds.
abbrev pub first_of : Bytes → List (List KeyValue) → Option (Option Bytes)
first_of key [] = none
first_of key (items ∷ lists) = first_some (get key items) (first_of key lists)

first_entry : Bytes → MapBuf → Option (Option Bytes)
first_entry key [] = none
first_entry key ((k, v) ∷ m) = if is_eq key k.key then some v else first_entry key m

get-runs_from :
    (key k : Bytes) (m : MapBuf) → is_eq key k ≡ false → get key (runs_from k m) ≡ first_entry key m
unfolding first_entry
get-runs_from key k [] h = refl
get-runs_from key k ((j, v) ∷ m) h =
    ground (arith, get-runs_from key k m h, get-runs_from key j.key m, bytes_eq_of_cmp k j.key)

get-runs : (key : Bytes) (m : MapBuf) → get key (runs m) ≡ first_entry key m
unfolding first_entry
get-runs key [] = refl
get-runs key ((k, v) ∷ m) = ground (arith, get-runs_from key k.key m)

-- The entries with a key belong to iterators before `num`.
Older : ℕ → Bytes → MapBuf → Type 0
Older num k [] = Unit
Older num k ((j, v) ∷ m) = (j.key ≡ k → j.num < num) × Older num k m

Below-Older : (num : ℕ) (k : Bytes) (m : MapBuf) → Below num m → Older num k m
unfolding Older
Below-Older num k [] b = tt
Below-Older num k ((j, v) ∷ m) (less, b) = (λ e. less, Below-Older num k m b)

no_entry :
    (num : ℕ) (k : Bytes) (m : MapBuf) → Above (at num k) m → Older num k m → first_entry k m ≡ none
unfolding first_entry Older
no_entry num k [] a o = refl
no_entry num k ((j, v) ∷ m) (less, a) (older, o) = elim (Bool-cases (is_eq k j.key)) [
  | inl same ↦
      let e : k ≡ j.key = bytes_eq_of_cmp k j.key (ground arith) in
      let before = older (sym e) in absurd (ground arith)
  | inr other ↦ rw other (no_entry num k m a o)
]

first_entry_skip :
    (key : Bytes) (j : IterKey) (w : Option Bytes) (m m' : MapBuf) (o : Option (Option Bytes))
    → first_entry key m' ≡ first_some (first_entry key m) o
    → first_entry key ((j, w) ∷ m') ≡ first_some (first_entry key ((j, w) ∷ m)) o
unfolding first_entry
first_entry_skip key j w m m' o h = elim (Bool-cases (is_eq key j.key)) [
  | inl e ↦ rw e refl
  | inr e ↦ rw e h
]

prepended :
    (key k : Bytes) (v : Option Bytes) (found : Option (Option Bytes))
    → (key ≡ k → found ≡ none)
    → (if is_eq key k then some v else found)
      ≡ first_some found (if is_eq key k then some v else none)
prepended key k v found gone = elim (Bool-cases (is_eq key k)) [
  | inl e ↦ rw (e, gone (bytes_eq_of_cmp key k (ground arith))) refl
  | inr e ↦ rw e (sym (some_or_none found))
]

first_entry-insert :
    (key : Bytes) (num : ℕ) (k : Bytes) (v : Option Bytes) (m : MapBuf)
    → IsSorted m
    → Older num k m
    → first_entry key (insert (at num k) v m)
      ≡ first_some (first_entry key m) (if is_eq key k then some v else none)
unfolding first_entry Older
first_entry-insert key num k v [] s o = refl
first_entry-insert key num k v ((j, w) ∷ m) (a, s) (older, o) =
    elim (Ordering-cases (iter_cmp (at num k) j)) [
      | inl less ↦
          let gone =
            no_entry num k ((j, w) ∷ m) (less, Above-trans (at num k) j m less a) (older, o) in
          rw (insert_lt (at num k) j v w m less) (
            prepended key k v (first_entry key ((j, w) ∷ m))
              (λ e. ap (λ c. first_entry c ((j, w) ∷ m)) e ∙ gone))
      | inr (inl same) ↦
          let e = iter_eq_of_cmp (at num k) j same in
          let before = older (ap (λ (i : IterKey). i.key) (sym e)) in
          absurd (omega (arith, ap (λ (i : IterKey). i.num) e))
      | inr (inr more) ↦ rw (insert_gt (at num k) j v w m more) (
          first_entry_skip key j w m (insert (at num k) v m) (if is_eq key k then some v else none)
            (first_entry-insert key num k v m s o))
    ]

Older-insert :
    (num : ℕ) (k j : Bytes) (v : Option Bytes) (m : MapBuf)
    → bytes_cmp j k ≡ lt
    → Older num k m
    → Older num k (insert (at num j) v m)
unfolding Older
Older-insert num k j v [] h o = (λ e. absurd (ground (arith, bytes_cmp_refl j)), tt)
Older-insert num k j v ((i, w) ∷ m) h (older, o) =
    let apart : j ≡ k → num < num = λ e. absurd (ground (arith, bytes_cmp_refl j)) in
    elim (Ordering-cases (iter_cmp (at num j) i)) [
      | inl less ↦ rw (insert_lt (at num j) i v w m less) (apart, (older, o))
      | inr (inl same) ↦ rw (insert_eq (at num j) i v w m same) (apart, o)
      | inr (inr more) ↦
          rw (insert_gt (at num j) i v w m more) (older, Older-insert num k j v m h o)
    ]

AllOlder : ℕ → List KeyValue → MapBuf → Type 0
AllOlder num [] m = Unit
AllOlder num ((k, v) ∷ items) m = Older num k m × AllOlder num items m

AllOlder-insert :
    (num : ℕ) (j : Bytes) (v : Option Bytes) (items : List KeyValue) (m : MapBuf)
    → Above j items
    → AllOlder num items m
    → AllOlder num items (insert (at num j) v m)
unfolding AllOlder
AllOlder-insert num j v [] m a o = tt
AllOlder-insert num j v ((k, w) ∷ items) m (less, a) (older, o) =
    (Older-insert num k j v m less older, AllOlder-insert num j v items m a o)

Below-AllOlder : (num : ℕ) (items : List KeyValue) (m : MapBuf) → Below num m → AllOlder num items m
unfolding AllOlder
Below-AllOlder num [] m b = tt
Below-AllOlder num ((k, v) ∷ items) m b = (Below-Older num k m b, Below-AllOlder num items m b)

first_some_assoc :
    (a b c : Option (Option Bytes)) → first_some (first_some a b) c ≡ first_some a (first_some b c)
first_some_assoc none b c = refl
first_some_assoc (some v) b c = refl

put-first_entry :
    (key : Bytes) (num : ℕ) (items : List KeyValue) (m : MapBuf)
    → IsSorted m
    → IsSorted items
    → AllOlder num items m
    → first_entry key (put num items m) ≡ first_some (first_entry key m) (get key items)
unfolding put AllOlder
put-first_entry key num [] m s t o = sym (some_or_none (first_entry key m))
put-first_entry key num ((k, v) ∷ items) m s (a, t) (older, o) =
    put-first_entry key num items (insert (at num k) v m) (insert-IsSorted (at num k) v m s) t
      (AllOlder-insert num k v items m a o)
    ∙ ap (λ f. first_some f (get key items)) (first_entry-insert key num k v m s older)
    ∙ first_some_assoc (first_entry key m) (if is_eq key k then some v else none) (get key items)
    ∙ ap (first_some (first_entry key m)) (ground arith)

put-IsSorted :
    (num : ℕ) (items : List KeyValue) (m : MapBuf) → IsSorted m → IsSorted (put num items m)
unfolding put
put-IsSorted num [] m s = s
put-IsSorted num ((k, v) ∷ items) m s =
    put-IsSorted num items (insert (at num k) v m) (insert-IsSorted (at num k) v m s)

put-Below :
    (num : ℕ) (items : List KeyValue) (m : MapBuf)
    → Below (suc num) m
    → Below (suc num) (put num items m)
unfolding put
put-Below num [] m b = b
put-Below num ((k, v) ∷ items) m b =
    put-Below num items (insert (at num k) v m)
      (Below-insert (suc num) (at num k) v m (omega arith) b)

Below-suc : (num : ℕ) (m : MapBuf) → Below num m → Below (suc num) m
Below-suc num [] b = tt
Below-suc num ((k, v) ∷ m) (less, b) = (omega arith, Below-suc num m b)

put_all-first_entry :
    (key : Bytes) (num : ℕ) (lists : List (List KeyValue)) (m : MapBuf)
    → IsSorted m
    → Below num m
    → AllSorted lists
    → IsSorted (put_all num lists m)
      × (first_entry key (put_all num lists m)
          ≡ first_some (first_entry key m) (first_of key lists))
unfolding put_all
put_all-first_entry key num [] m s b a = (s, sym (some_or_none (first_entry key m)))
put_all-first_entry key num (items ∷ lists) m s b (t, a) =
    let (sorted, found) =
      put_all-first_entry key (suc num) lists (put num items m) (put-IsSorted num items m s)
        (put-Below num items m (Below-suc num m b)) a in
    (
      sorted,
      found
          ∙ ap (λ f. first_some f (first_of key lists))
              (put-first_entry key num items m s t (Below-AllOlder num items m b))
          ∙ first_some_assoc (first_entry key m) (get key items) (first_of key lists),
    )

runs_from-Above :
    (k : IterKey) (m : MapBuf)
    → Above k m
    → IsSorted m
    → Above k.key (runs_from k.key m) × IsSorted (runs_from k.key m)
runs_from-Above k [] a s = (tt, tt)
runs_from-Above k ((j, v) ∷ m) (less, a) (b, s) = elim (Bool-cases (is_eq k.key j.key)) [
  | inl same ↦ rw same (runs_from-Above k m a s)
  | inr other ↦
      let below : bytes_cmp k.key j.key ≡ lt = ground arith in
      let (above, sorted) = runs_from-Above j m b s in
      rw other ((below, Above-trans k.key j.key (runs_from j.key m) below above), (above, sorted))
]

runs-IsSorted : (m : MapBuf) → IsSorted m → IsSorted (runs m)
runs-IsSorted [] s = tt
runs-IsSorted ((k, v) ∷ m) (a, s) = runs_from-Above k m a s

-- Merged lists are sorted and hold for every key what the first list with the key holds.
pub merged-first_of :
    (lists : List (List KeyValue))
    → AllSorted lists
    → IsSorted (merged lists) × ((key : Bytes) → get key (merged lists) ≡ first_of key lists)
unfolding first_entry
merged-first_of lists a = (
  runs-IsSorted (put_all 0 lists []) (put_all-first_entry [] 0 lists [] tt tt a).0,
  λ key. get-runs key (put_all 0 lists []) ∙ (put_all-first_entry key 0 lists [] tt tt a).1,
)

length-runs_from : (k : Bytes) (m : MapBuf) → length (runs_from k m) ≤ length m
length-runs_from k [] = omega arith
length-runs_from k ((j, v) ∷ m) = ground (arith, length-runs_from k m, length-runs_from j.key m)

length-runs : (m : MapBuf) → length (runs m) ≤ length m
length-runs [] = omega arith
length-runs ((k, v) ∷ m) = omega (arith, length-runs_from k.key m)

pub length-merged : (lists : List (List KeyValue)) → length (merged lists) ≤ total lists
length-merged lists = omega (arith, length-runs (put_all 0 lists []), length-put_all 0 lists [])
