-- ===== src/MemTable/Range/Descending.antt =====
-- Lists in descending order of their keys, their reverse, and their items without repeated keys.
use mathlib.Core.List.{reverse_aux, reverse, append-nil, append_assoc}
use kip_db.Base.{
  ◌≡◌, refl, sym, ◌∙◌, true, false, Bool-cases, inl, inr, Option, none, List, [], ◌∷◌, ◌++◌,
  if◌then◌else◌, arith,
}
use kip_db.Base.Order.{
  Bytes, bytes_ord, bytes_cmp, bytes_cmp_flip, bytes_eq_of_cmp, bytes_lt_trans, is_eq, is_le, lt,
  le_trans,
}
use kip_db.Base.SortedMap.{IsSorted, Above, get}
use kip_db.Data.{KeyValue}
use kip_db.MemTable.Find.{first_some, some_or_none}
use kip_db.MemTable.Range.{
  duplicates_push, push_each, last_is, is_sorted_by_key, has_item, no_repeat,
}

-- No key is above `k`, and the keys do not ascend; strictly, all are below, and descend.
abbrev pub UpToKey : Bytes → List KeyValue → Type 0
UpToKey k [] = Unit
UpToKey k ((j, _) ∷ es) = (is_le j k ≡ true) × UpToKey k es

abbrev pub IsDescending : List KeyValue → Type 0
IsDescending [] = Unit
IsDescending ((k, _) ∷ es) = UpToKey k es × IsDescending es

abbrev pub Below : Bytes → List KeyValue → Type 0
Below k [] = Unit
Below k ((j, _) ∷ es) = (bytes_cmp j k ≡ lt) × Below k es

abbrev pub Falls : List KeyValue → Type 0
Falls [] = Unit
Falls ((k, _) ∷ es) = Below k es × Falls es

pub UpToKey-trans :
    (j k : Bytes) (es : List KeyValue) → is_le j k ≡ true → UpToKey j es → UpToKey k es
UpToKey-trans j k [] h u = tt
UpToKey-trans j k ((i, v) ∷ es) h (le, u) = (le_trans i j k le h, UpToKey-trans j k es h u)

pub Below-trans : (j k : Bytes) (es : List KeyValue) → bytes_cmp j k ≡ lt → Below j es → Below k es
Below-trans j k [] h u = tt
Below-trans j k ((i, v) ∷ es) h (le, u) = (bytes_lt_trans i j k le h, Below-trans j k es h u)

pub get-Below : (key : Bytes) (es : List KeyValue) → Below key es → get key es ≡ none
get-Below key [] b = refl
get-Below key ((k, v) ∷ es) (h, b) = ground (arith, get-Below key es b, bytes_cmp_flip k key)

-- The items whose keys are not those of the item before, nor `k` at first.
abbrev pub distinct_after : Bytes → List KeyValue → List KeyValue
distinct_after k [] = []
distinct_after k ((j, v) ∷ es) =
    if is_eq k j then distinct_after k es else (j, v) ∷ distinct_after j es

abbrev pub distinct : List KeyValue → List KeyValue
distinct [] = []
distinct ((k, v) ∷ es) = (k, v) ∷ distinct_after k es

last_is-append :
    (key k : Bytes) (v : Option Bytes) (es : List KeyValue)
    → last_is key (es ++ (k, v) ∷ []) ≡ is_eq k key
last_is-append key k v [] = refl
last_is-append key k v (e ∷ []) = refl
last_is-append key k v (e ∷ f ∷ es) = last_is-append key k v (f ∷ es)

push_each-after :
    (k : Bytes) (results es : List KeyValue)
    → ((key : Bytes) → last_is key results ≡ is_eq k key)
    → push_each results es ≡ results ++ distinct_after k es
unfolding push_each duplicates_push
push_each-after k results [] last = sym (append-nil results)
push_each-after k results ((j, v) ∷ es) last = elim (Bool-cases (is_eq k j)) [
  | inl same ↦ rw (push_each, duplicates_push, last j, same) (push_each-after k results es last)
  | inr other ↦
      rw (push_each, duplicates_push, last j, other)
        (push_each-after j (results ++ (j, v) ∷ []) es (λ key. last_is-append key j v results)
          ∙ append_assoc results ((j, v) ∷ []) (distinct_after j es))
]

pub push_each-distinct : (es : List KeyValue) → push_each [] es ≡ distinct es
unfolding push_each duplicates_push
push_each-distinct [] = refl
push_each-distinct ((k, v) ∷ es) = push_each-after k ((k, v) ∷ []) es (λ key. refl)

distinct_after-Below :
    (k : Bytes) (es : List KeyValue)
    → UpToKey k es
    → IsDescending es
    → Below k (distinct_after k es) × Falls (distinct_after k es)
distinct_after-Below k [] u d = (tt, tt)
distinct_after-Below k ((j, v) ∷ es) (le, u) (below, d) = elim (Bool-cases (is_eq k j)) [
  | inl same ↦ rw same (distinct_after-Below k es u d)
  | inr other ↦
      let less : bytes_cmp j k ≡ lt = ground (arith, bytes_cmp_flip k j) in
      let (all, falls) = distinct_after-Below j es below d in
      rw other ((less, Below-trans j k (distinct_after j es) less all), (all, falls))
]

pub distinct-Falls : (es : List KeyValue) → IsDescending es → Falls (distinct es)
distinct-Falls [] d = tt
distinct-Falls ((k, v) ∷ es) (u, d) = distinct_after-Below k es u d

get-distinct_after :
    (key k : Bytes) (es : List KeyValue)
    → UpToKey k es
    → IsDescending es
    → is_eq k key ≡ false
    → get key (distinct_after k es) ≡ get key es
get-distinct_after key k [] u d h = refl
get-distinct_after key k ((j, v) ∷ es) (le, u) (below, d) h = ground (
  arith,
  get-distinct_after key k es u d h,
  get-distinct_after key j es below d,
  bytes_eq_of_cmp k j,
  bytes_cmp_flip key j,
)

pub get-distinct :
    (key : Bytes) (es : List KeyValue) → IsDescending es → get key (distinct es) ≡ get key es
get-distinct key [] d = refl
get-distinct key ((k, v) ∷ es) (u, d) =
    ground (arith, get-distinct_after key k es u d, bytes_cmp_flip key k)

-- Every key of the second list is above each of the first.
AllAbove : List KeyValue → List KeyValue → Type 0
AllAbove [] acc = Unit
AllAbove ((k, _) ∷ es) acc = Above k acc × AllAbove es acc

AllAbove-cons :
    (k : Bytes) (v : Option Bytes) (es acc : List KeyValue)
    → Below k es
    → AllAbove es acc
    → AllAbove es ((k, v) ∷ acc)
unfolding AllAbove
AllAbove-cons k v [] acc b a = tt
AllAbove-cons k v ((j, w) ∷ es) acc (less, b) (above, a) =
    ((less, above), AllAbove-cons k v es acc b a)

AllAbove-nil : (es : List KeyValue) → AllAbove es []
unfolding AllAbove
AllAbove-nil [] = tt
AllAbove-nil ((k, v) ∷ es) = (tt, AllAbove-nil es)

reverse_aux-IsSorted :
    (es acc : List KeyValue)
    → Falls es
    → IsSorted acc
    → AllAbove es acc
    → IsSorted (reverse_aux es acc)
unfolding AllAbove
reverse_aux-IsSorted [] acc f s a = s
reverse_aux-IsSorted ((k, v) ∷ es) acc (b, f) s (above, a) =
    reverse_aux-IsSorted es ((k, v) ∷ acc) f (above, s) (AllAbove-cons k v es acc b a)

get-reverse_aux :
    (key : Bytes) (es acc : List KeyValue)
    → Falls es
    → get key (reverse_aux es acc) ≡ first_some (get key es) (get key acc)
get-reverse_aux key [] acc f = refl
get-reverse_aux key ((k, v) ∷ es) acc (b, f) =
    get-reverse_aux key es ((k, v) ∷ acc) f
    ∙ ground (arith, get-Below key es, bytes_eq_of_cmp key k)

pub reverse-IsSorted : (es : List KeyValue) → Falls es → IsSorted (reverse es)
reverse-IsSorted es f = reverse_aux-IsSorted es [] f tt (AllAbove-nil es)

pub get-reverse : (key : Bytes) (es : List KeyValue) → Falls es → get key (reverse es) ≡ get key es
get-reverse key es f = get-reverse_aux key es [] f ∙ some_or_none (get key es)

-- The assertions hold of sorted items.
has_item-Above :
    (k : Bytes) (v : Option Bytes) (es : List KeyValue) → Above k es → has_item (k, v) es ≡ false
has_item-Above k v [] a = refl
has_item-Above k v ((j, w) ∷ es) (less, a) = ground (arith, has_item-Above k v es a)

pub no_repeat-IsSorted : (es : List KeyValue) → IsSorted es → no_repeat es ≡ true
no_repeat-IsSorted [] s = refl
no_repeat-IsSorted ((k, v) ∷ es) (a, s) =
    ground (arith, has_item-Above k v es a, no_repeat-IsSorted es s)

pub is_sorted_by_key-IsSorted : (es : List KeyValue) → IsSorted es → is_sorted_by_key es ≡ true
is_sorted_by_key-IsSorted [] s = refl
is_sorted_by_key-IsSorted (e ∷ []) s = refl
is_sorted_by_key-IsSorted (e ∷ f ∷ es) ((less, _), s) =
    ground (arith, is_sorted_by_key-IsSorted (f ∷ es) s)
