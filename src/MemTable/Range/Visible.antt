-- ===== src/MemTable/Range/Visible.antt =====
-- What `range_iter!` yields: the versions between the bounds that a read may see, in descending
-- order of their keys.
use mathlib.Core.List.{reverse_aux, reverse}
use kip_db.Base.{
  ◌≡◌, ◌≢◌, refl, ◌∙◌, ap, Bool, true, false, Bool-cases, inl, inr, ◌&&◌, Option, none, some, List,
  [], ◌∷◌, if◌then◌else◌, arith,
}
use kip_db.Base.Int.{ℤ, pos, negsuc, int_cmp_flip, IsI64, i64_max, i64_min, int_cmp, int_ord}
use kip_db.Base.Order.{
  Bytes, bytes_ord, bytes_cmp_flip, bytes_eq_of_cmp, Bound, included, excluded, unbounded, over,
  under, is_eq, is_le, lt, gt,
}
use kip_db.Base.SortedMap.{IsSorted, Above, get, between}
use kip_db.Data.{KeyValue}
use kip_db.MemTable.{MemMap}
use kip_db.MemTable.Find.{some_or_none, first_some}
use kip_db.MemTable.Insert.{batch_value}
use kip_db.MemTable.Key.{InternalKey, key_ord}
use kip_db.MemTable.Range.{to_internal_key, is_visible, filter_visible, plain, range_iter}
use kip_db.MemTable.Range.Descending.{UpToKey, IsDescending}
use kip_db.MemTable.Versions.{Versions, latest}

-- The sequence numbers are values of their type.
abbrev pub AllI64 : Versions → Type 0
AllI64 [] = Unit
AllI64 ((k, v) ∷ m) = IsI64 k.seq_id × AllI64 m

-- Without a number a read sees all versions.
abbrev pub limit : Option ℤ → ℤ
limit none = i64_max
limit (some seq) = seq

abbrev pub in_bounds : Bound Bytes → Bound Bytes → Bytes → Bool
in_bounds min max key = over min key && under max key

abbrev pub min_key : Bound Bytes → Bound InternalKey
unfolding to_internal_key
min_key min = to_internal_key min i64_min i64_max

abbrev pub max_key : Bound Bytes → Bound InternalKey
unfolding to_internal_key
max_key max = to_internal_key max i64_max i64_min

min_le : (s : ℤ) → IsI64 s → int_cmp i64_min s ≢ gt
min_le (pos n) h e = cc
min_le (negsuc n) h e = ground arith

le_max : (s : ℤ) → IsI64 s → int_cmp i64_max s ≢ lt
le_max (pos n) h e = ground arith
le_max (negsuc n) h e = cc

le_max_flip : (s : ℤ) → IsI64 s → int_cmp s i64_max ≢ gt
le_max_flip s h e = le_max s h (ground (arith, int_cmp_flip s i64_max))

min_le_flip : (s : ℤ) → IsI64 s → int_cmp s i64_min ≢ lt
min_le_flip s h e = min_le s h (ground (arith, int_cmp_flip s i64_min))

over-min_key :
    (min : Bound Bytes) (k : InternalKey) → IsI64 k.seq_id → over (min_key min) k ≡ over min k.key
unfolding min_key to_internal_key
over-min_key (included a) k h = ground (arith, min_le k.seq_id h)
over-min_key (excluded a) k h = ground (arith, le_max k.seq_id h)
over-min_key unbounded k h = refl

under-max_key :
    (max : Bound Bytes) (k : InternalKey) → IsI64 k.seq_id → under (max_key max) k ≡ under max k.key
unfolding max_key to_internal_key
under-max_key (included a) k h = ground (arith, le_max_flip k.seq_id h)
under-max_key (excluded a) k h = ground (arith, min_le_flip k.seq_id h)
under-max_key unbounded k h = refl

visible-limit :
    (option_seq : Option ℤ) (s : ℤ) → IsI64 s → is_visible option_seq s ≡ is_le s (limit option_seq)
visible-limit none s h = ground (arith, le_max_flip s h)
visible-limit (some seq) s h = refl

-- The versions that the iterator yields, in ascending order.
abbrev kept : Option ℤ → Bound Bytes → Bound Bytes → Versions → List KeyValue
kept option_seq min max m =
    plain (filter_visible option_seq (between (min_key min) (max_key max) m))

kept_step :
    (option_seq : Option ℤ) (min max : Bound Bytes) (k : InternalKey) (v : Option Bytes)
    (m : Versions)
    → IsI64 k.seq_id
    → kept option_seq min max ((k, v) ∷ m) ≡ (
        if in_bounds min max k.key && is_le k.seq_id (limit option_seq)
        then (k.key, v) ∷ kept option_seq min max m
        else kept option_seq min max m)
kept_step option_seq min max k v m h =
    rw (over-min_key min k h, under-max_key max k h)
      (elim (Bool-cases (in_bounds min max k.key)) [
        | inr out ↦ rw out refl
        | inl within ↦
            rw (within, visible-limit option_seq k.seq_id h)
              (elim (Bool-cases (is_le k.seq_id (limit option_seq))) [
                | inl e ↦ rw e refl
                | inr e ↦ rw e refl
              ])
      ])

combine :
    (within bound le same : Bool) (v : Option Bytes) (key k : Bytes) (es : List KeyValue)
    (found : Option (Option Bytes))
    → is_eq k key ≡ same
    → (same ≡ true → within ≡ bound)
    → batch_value key es ≡ (if bound then found else none)
    → batch_value key (if within && le then (k, v) ∷ es else es) ≡ (
        if bound
        then elim found [ some w ↦ some w | none ↦ if same && le then some v else none ]
        else none)
combine true true true same v key k es none e h ih = ground (arith, ih, e)
combine true true true same v key k es (some w) e h ih = rw ih refl
combine true true false same v key k es none e h ih = ground (arith, ih)
combine true true false same v key k es (some w) e h ih = ih
combine true false true same v key k es found e h ih = ground (arith, ih)
combine true false false same v key k es found e h ih = ih
combine false true le true v key k es found e h ih = absurd (ground (arith, h refl))
combine false true le false v key k es none e h ih = ih
combine false true le false v key k es (some w) e h ih = ih
combine false false le same v key k es found e h ih = ih

kept-latest :
    (option_seq : Option ℤ) (min max : Bound Bytes) (key : Bytes) (m : Versions)
    → AllI64 m
    → batch_value key (kept option_seq min max m)
      ≡ (if in_bounds min max key then latest key (limit option_seq) m else none)
kept-latest option_seq min max key [] h = elim (Bool-cases (in_bounds min max key)) [
  | inl e ↦ rw e refl
  | inr e ↦ rw e refl
]
kept-latest option_seq min max key ((k, v) ∷ m) (one, h) =
    ap (batch_value key) (kept_step option_seq min max k v m one)
    ∙ combine (in_bounds min max k.key) (in_bounds min max key) (is_le k.seq_id (limit option_seq))
        (is_eq k.key key) v key k.key (kept option_seq min max m) (latest key (limit option_seq) m)
        refl (λ same. ap (in_bounds min max) (bytes_eq_of_cmp k.key key (ground arith)))
        (kept-latest option_seq min max key m h)

plain-reverse_aux :
    (option_seq : Option ℤ) (es acc : Versions)
    → plain (filter_visible option_seq (reverse_aux es acc))
      ≡ reverse_aux (plain (filter_visible option_seq es)) (plain (filter_visible option_seq acc))
plain-reverse_aux option_seq [] acc = refl
plain-reverse_aux option_seq ((k, v) ∷ es) acc =
    plain-reverse_aux option_seq es ((k, v) ∷ acc)
    ∙ elim (Bool-cases (is_visible option_seq k.seq_id)) [ inl e ↦ rw e refl | inr e ↦ rw e refl ]

-- Keys that do not descend, from `k` on.
FromKey : Bytes → List KeyValue → Type 0
FromKey k [] = Unit
FromKey k ((j, _) ∷ es) = (is_le k j ≡ true) × FromKey k es

IsAscending : List KeyValue → Type 0
unfolding FromKey
IsAscending [] = Unit
IsAscending ((k, _) ∷ es) = FromKey k es × IsAscending es

kept-FromKey :
    (option_seq : Option ℤ) (min max : Bound Bytes) (k : InternalKey) (m : Versions)
    → Above k m
    → FromKey k.key (kept option_seq min max m)
unfolding FromKey
kept-FromKey option_seq min max k [] a = tt
kept-FromKey option_seq min max k ((j, v) ∷ m) (less, a) =
    ground (arith, kept-FromKey option_seq min max k m a)

kept-IsAscending :
    (option_seq : Option ℤ) (min max : Bound Bytes) (m : Versions)
    → IsSorted m
    → IsAscending (kept option_seq min max m)
unfolding IsAscending
kept-IsAscending option_seq min max [] s = tt
kept-IsAscending option_seq min max ((k, v) ∷ m) (a, s) =
    ground (arith, kept-IsAscending option_seq min max m s, kept-FromKey option_seq min max k m a)

-- Every key of the first list is at least each of the second.
AllUpTo : List KeyValue → List KeyValue → Type 0
AllUpTo [] acc = Unit
AllUpTo ((k, _) ∷ es) acc = UpToKey k acc × AllUpTo es acc

AllUpTo-cons :
    (k : Bytes) (v : Option Bytes) (es acc : List KeyValue)
    → FromKey k es
    → AllUpTo es acc
    → AllUpTo es ((k, v) ∷ acc)
unfolding AllUpTo FromKey
AllUpTo-cons k v [] acc f a = tt
AllUpTo-cons k v ((j, w) ∷ es) acc (le, f) (u, a) = ((le, u), AllUpTo-cons k v es acc f a)

AllUpTo-nil : (es : List KeyValue) → AllUpTo es []
unfolding AllUpTo
AllUpTo-nil [] = tt
AllUpTo-nil ((k, v) ∷ es) = (tt, AllUpTo-nil es)

reverse_aux-IsDescending :
    (es acc : List KeyValue)
    → IsAscending es
    → IsDescending acc
    → AllUpTo es acc
    → IsDescending (reverse_aux es acc)
unfolding IsAscending AllUpTo
reverse_aux-IsDescending [] acc s d a = d
reverse_aux-IsDescending ((k, v) ∷ es) acc (f, s) d (u, a) =
    reverse_aux-IsDescending es ((k, v) ∷ acc) s (u, d) (AllUpTo-cons k v es acc f a)

get-reverse_batch :
    (key : Bytes) (es acc : List KeyValue)
    → get key (reverse_aux es acc) ≡ first_some (batch_value key es) (get key acc)
get-reverse_batch key [] acc = refl
get-reverse_batch key ((k, v) ∷ es) acc =
    get-reverse_batch key es ((k, v) ∷ acc) ∙ ground (arith, bytes_cmp_flip key k)

module _ (sm : MemMap) (m : sm.Map) (min max : Bound Bytes) (option_seq : Option ℤ) where
  range_iter-kept :
      range_iter sm m (min_key min) (max_key max) option_seq
      ≡ reverse (kept option_seq min max (sm.iter m))
  unfolding range_iter
  range_iter-kept =
      rw (sm.range-iter (min_key min) (max_key max) m)
        (plain-reverse_aux option_seq (between (min_key min) (max_key max) (sm.iter m)) [])

  pub range_iter-IsDescending :
      IsDescending (range_iter sm m (min_key min) (max_key max) option_seq)
  range_iter-IsDescending = rw range_iter-kept (
      reverse_aux-IsDescending _ []
        (kept-IsAscending option_seq min max (sm.iter m) (sm.iter-IsSorted m)) tt (AllUpTo-nil _))

  pub get-range_iter :
      (key : Bytes)
      → AllI64 (sm.iter m)
      → get key (range_iter sm m (min_key min) (max_key max) option_seq)
        ≡ (if in_bounds min max key then latest key (limit option_seq) (sm.iter m) else none)
  get-range_iter key h =
      ap (get key) range_iter-kept
      ∙ get-reverse_batch key (kept option_seq min max (sm.iter m)) []
      ∙ some_or_none (batch_value key (kept option_seq min max (sm.iter m)))
      ∙ kept-latest option_seq min max key (sm.iter m) h
