-- ===== src/Scope/Cover.antt =====
-- The scopes that are built: `fusion`, and `from_sorted_vec_data`.
use kip_db.Base.Lists.{In, In-map}
use kip_db.Base.Int.{ℤ, pos}
use kip_db.Base.{Bool-cases, ◌≡◌, refl, true, Option, none, some, ◌⊎◌, inl, inr, List, [], ◌∷◌, map}
use kip_db.Base.Order.{
  Bytes, bytes_ord, is_le, is_lt, le_refl, le_trans, lt-le, not_lt-le, le_of_lt,
}
use kip_db.Base.SortedMap.{IsSorted}
use kip_db.Data.{KeyValue}
use kip_db.Error.{KernelError, ok, err}
use kip_db.Scope.{
  Scope, from_range, fusion, min_from, max_from, meet_by_key, last_key, from_sorted_vec_data,
}
use kip_db.Scope.Meet.{meet_by_key-bounds}

min_from-le :
    (least : Bytes) (keys : List Bytes)
    → (is_le (min_from least keys) least ≡ true)
      × ((key : Bytes) → In key keys → is_le (min_from least keys) key ≡ true)
unfolding min_from
min_from-le least [] = (le_refl least, λ key i. absurd i)
min_from-le least (k ∷ keys) = elim (Bool-cases (is_lt k least)) [
  | inl e ↦
      let (head, rest) = min_from-le k keys in
      rw e (
        le_trans (min_from k keys) k least head (lt-le k least e),
        λ key i. elim i [ inl p ↦ rw p head | inr j ↦ rest key j ],
      )
  | inr e ↦
      let (head, rest) = min_from-le least keys in
      rw e (
        head,
        λ key i. elim i [
          | inl p ↦ rw p (le_trans (min_from least keys) least k head (not_lt-le k least e))
          | inr j ↦ rest key j
        ],
      )
]

max_from-ge :
    (greatest : Bytes) (keys : List Bytes)
    → (is_le greatest (max_from greatest keys) ≡ true)
      × ((key : Bytes) → In key keys → is_le key (max_from greatest keys) ≡ true)
unfolding max_from
max_from-ge greatest [] = (le_refl greatest, λ key i. absurd i)
max_from-ge greatest (k ∷ keys) = elim (Bool-cases (is_lt k greatest)) [
  | inl e ↦
      let (head, rest) = max_from-ge greatest keys in
      rw e (
        head,
        λ key i. elim i [
          | inl p ↦ rw p (le_trans k greatest (max_from greatest keys) (lt-le k greatest e) head)
          | inr j ↦ rest key j
        ],
      )
  | inr e ↦
      let (head, rest) = max_from-ge k keys in
      rw e (
        le_trans greatest k (max_from k keys) (not_lt-le k greatest e) head,
        λ key i. elim i [ inl p ↦ rw p head | inr j ↦ rest key j ],
      )
]

In-min_from :
    (xs : List Bytes) (least : Bytes) (keys : List Bytes)
    → In least xs
    → ((key : Bytes) → In key keys → In key xs)
    → In (min_from least keys) xs
unfolding min_from
In-min_from xs least [] i all = i
In-min_from xs least (k ∷ keys) i all = elim (Bool-cases (is_lt k least)) [
  | inl e ↦ rw e (In-min_from xs k keys (all k (inl refl)) (λ key j. all key (inr j)))
  | inr e ↦ rw e (In-min_from xs least keys i (λ key j. all key (inr j)))
]

In-max_from :
    (xs : List Bytes) (greatest : Bytes) (keys : List Bytes)
    → In greatest xs
    → ((key : Bytes) → In key keys → In key xs)
    → In (max_from greatest keys) xs
unfolding max_from
In-max_from xs greatest [] i all = i
In-max_from xs greatest (k ∷ keys) i all = elim (Bool-cases (is_lt k greatest)) [
  | inl e ↦ rw e (In-max_from xs greatest keys i (λ key j. all key (inr j)))
  | inr e ↦ rw e (In-max_from xs k keys (all k (inl refl)) (λ key j. all key (inr j)))
]

abbrev pub starts : List Scope → List Bytes
starts = map (λ (t : Scope). t.start)

abbrev pub ends : List Scope → List Bytes
ends = map (λ (t : Scope). t.end)

-- One or more scopes have a fusion. It starts at the start of one of
-- them and ends at the end of one of them, and every key that meets one of them meets it.
pub fusion-covers :
    (s : Scope) (scopes : List Scope)
    → (f : Scope) × (fusion (s ∷ scopes) ≡ some f)
      × In f.start (starts (s ∷ scopes))
      × In f.end (ends (s ∷ scopes))
      × ((t : Scope) (key : Bytes)
          → In t (s ∷ scopes)
          → meet_by_key t key ≡ true
          → meet_by_key f key ≡ true)
unfolding fusion
fusion-covers s scopes = (
  fused,
  refl,
  In-min_from (starts (s ∷ scopes)) s.start (starts scopes) (inl refl) (λ k i. inr i),
  In-max_from (ends (s ∷ scopes)) s.end (ends scopes) (inl refl) (λ k i. inr i),
  λ t key i h.
      let (a, b) = (meet_by_key-bounds t key).0 h in
      (meet_by_key-bounds fused key).1 (
        le_trans fused.start t.start key (starts_below t i) a,
        le_trans key t.end fused.end b (ends_above t i),
      ),
)
  where
    fused : Scope
    fused = record {
      start = min_from s.start (starts scopes);
      end = max_from s.end (ends scopes);
      gen = pos 0;
      allowed_seeks = none;
    }

    starts_below : (t : Scope) → In t (s ∷ scopes) → is_le fused.start t.start ≡ true
    starts_below t (inl e) = rw e (min_from-le s.start (starts scopes)).0
    starts_below t (inr i) =
        (min_from-le s.start (starts scopes)).1 t.start (In-map (λ (u : Scope). u.start) t scopes i)

    ends_above : (t : Scope) → In t (s ∷ scopes) → is_le t.end fused.end ≡ true
    ends_above t (inl e) = rw e (max_from-ge s.end (ends scopes)).0
    ends_above t (inr i) =
        (max_from-ge s.end (ends scopes)).1 t.end (In-map (λ (u : Scope). u.end) t scopes i)

abbrev pub keys_of : List KeyValue → List Bytes
keys_of = map (λ (e : KeyValue). e.0)

-- Sorted data lies between its first key and its last.
last_key-bounds :
    (first : Bytes) (v : Option Bytes) (rest : List KeyValue)
    → IsSorted ((first, v) ∷ rest)
    → (is_le first (last_key first rest) ≡ true)
      × In (last_key first rest) (first ∷ keys_of rest)
      × ((e : KeyValue)
          → In e rest
          → (is_le first e.0 ≡ true) × (is_le e.0 (last_key first rest) ≡ true))
last_key-bounds first v [] sorted = (le_refl first, inl refl, λ e i. absurd i)
last_key-bounds first v ((key, w) ∷ rest) (above, sorted) =
    let (to_last, is_key, within) = last_key-bounds key w rest sorted in
    let first_le : is_le first key ≡ true = le_of_lt first key above.0 in
    (
      le_trans first key (last_key key rest) first_le to_last,
      inr is_key,
      λ e i. elim i [
        | inl p ↦ rw p (first_le, to_last)
        | inr j ↦ (le_trans first key e.0 first_le (within e j).0, (within e j).1)
      ],
    )

-- A scope that is built from the sorted data of a table starts at the first key, ends at one of the
-- keys and meets every key of the data; without data the result is the error `DataEmpty`.
pub from_sorted_vec_data-covers :
    (gen : ℤ) (data' : List KeyValue)
    → IsSorted data'
    → ((data' ≡ []) × (from_sorted_vec_data gen data' ≡ err KernelError.data_empty))
      ⊎ ((s : Scope) × (from_sorted_vec_data gen data' ≡ ok s)
          × (s.gen ≡ gen)
          × ((entry : KeyValue) → In entry data' → meet_by_key s entry.0 ≡ true)
          × In s.start (keys_of data')
          × In s.end (keys_of data'))
unfolding from_sorted_vec_data from_range
from_sorted_vec_data-covers gen [] sorted = inl (refl, refl)
from_sorted_vec_data-covers gen ((first, v) ∷ rest) sorted =
    let (to_last, is_key, within) = last_key-bounds first v rest sorted in
    let s : Scope = from_range gen first (last_key first rest) in
    inr (
      s,
      refl,
      refl,
      λ e i. elim i [
        | inl p ↦ rw p ((meet_by_key-bounds s first).1 (le_refl first, to_last))
        | inr j ↦ (meet_by_key-bounds s e.0).1 (within e j)
      ],
      inl refl,
      is_key,
    )
