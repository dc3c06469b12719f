-- ===== src/MemTable/Versions.antt =====
-- The versions of a key among sorted entries.
use kip_db.Base.{
  sym, ◌∙◌, Bool-cases, Option-cases, inl, inr, ◌≡◌, refl, ap, Bool, true, false, ◌&&◌, Option,
  none, some, List, [], ◌∷◌, if◌then◌else◌, arith,
}
use kip_db.Base.Int.{ℤ, int_cmp_flip, int_ord}
use kip_db.Base.Order.{
  Bytes, bytes_ord, bytes_cmp, bytes_cmp_flip, bytes_eq_of_cmp, bytes_cmp_refl, is_eq, is_le,
  le_trans, included, Bound, Ordering, lt, eq, gt,
}
use kip_db.Base.SortedMap.{
  IsSorted, Above, Above-trans, last_under, last_under-under, last_under-Above, insert, insert_lt,
  insert_eq, insert_gt,
}
use kip_db.MemTable.Key.{InternalKey, key_ord, key_cmp, key_eq_of_cmp}

abbrev pub Versions : Type 0
Versions = List (InternalKey × Option Bytes)

-- An entry that a read of `key` at `seq` may see.
abbrev pub sees : Bytes → ℤ → InternalKey → Bool
sees key seq k = is_eq k.key key && is_le k.seq_id seq

-- The value of the last entry, in the order of the map, that the read may see.
abbrev pub latest : Bytes → ℤ → Versions → Option (Option Bytes)
latest key seq [] = none
latest key seq ((k, v) ∷ m) = elim (latest key seq m) [
  | some w ↦ some w
  | none ↦ if sees key seq k then some v else none
]

-- No entry has a sequence number above `top`.
abbrev pub UpTo : ℤ → Versions → Type 0
UpTo top [] = Unit
UpTo top ((k, v) ∷ m) = (is_le k.seq_id top ≡ true) × UpTo top m

-- between two versions of a key stand versions of that key
squeeze :
    (a b c : InternalKey)
    → key_cmp a b ≡ lt
    → is_le b c ≡ true
    → a.key ≡ c.key
    → bytes_cmp c.key b.key ≡ eq
squeeze a b c p q e = ground (
  arith,
  bytes_cmp_flip b.key c.key,
  bytes_cmp_flip a.key b.key,
  bytes_eq_of_cmp a.key b.key,
  bytes_cmp_refl b.key,
)

-- One step of the search: the entry before the rest of the map.
hidden_by :
    (key : Bytes) (seq : ℤ) (k k' : InternalKey)
    → key_cmp k k' ≡ lt
    → is_le k' (record { key = key; seq_id = seq }) ≡ true
    → is_eq key k'.key ≡ false
    → sees key seq k ≡ false
hidden_by key seq k k' p q e = elim (Bool-cases (sees key seq k)) [
  | inl seen ↦
      ground
        (arith, squeeze k k' (record { key = key; seq_id = seq }) p q (is_eq_key k.key key seen))
  | inr not_seen ↦ not_seen
]
  where
    is_eq_key : (a b : Bytes) → (is_eq a b && is_le k.seq_id seq) ≡ true → a ≡ b
    is_eq_key a b h = bytes_eq_of_cmp a b (ground arith)

sees-under :
    (key : Bytes) (seq : ℤ) (k : InternalKey)
    → sees key seq k ≡ (is_le k (record { key = key; seq_id = seq }) && is_eq key k.key)
sees-under key seq k = ground (arith, bytes_cmp_flip key k.key)

-- The last entry at or before (key, seq), if it is one of `key`, is the latest version of `key`
-- that a read at `seq` may see; if it is not, there is no such version.
pub last_under-latest :
    (key : Bytes) (seq : ℤ) (m : Versions)
    → IsSorted m
    → latest key seq m ≡ elim (last_under (included (record { key = key; seq_id = seq })) m) [
      | none ↦ none
      | some (k, v) ↦ if is_eq key k.key then some v else none
    ]
last_under-latest key seq [] s = refl
last_under-latest key seq ((k, v) ∷ m) (above, sorted) =
    let b : Bound InternalKey = included (record { key = key; seq_id = seq }) in
    let ih = last_under-latest key seq m sorted in
    elim (Option-cases (last_under b m)) [
      | inl e ↦
          rw (ih, e, sees-under key seq k)
            (elim (Bool-cases (is_le k (record { key = key; seq_id = seq }))) [
              | inl p ↦ rw p
              | inr p ↦ rw p
            ])
      | inr ((k', v'), e) ↦
          rw (ih, e)
            (elim (Bool-cases (is_eq key k'.key)) [
              | inl same ↦ rw same
              | inr other ↦ rw (
                other,
                hidden_by key seq k k' (last_under-Above b k m (k', v') above e)
                    (last_under-under b m (k', v') e) other,
              )
            ])
    ]

-- Entries after (key, top) are of other keys, where no number exceeds `top`.
none_after :
    (key : Bytes) (seq top : ℤ) (m : Versions)
    → Above (record { key = key; seq_id = top }) m
    → UpTo top m
    → latest key seq m ≡ none
none_after key seq top [] a u = refl
none_after key seq top ((k, v) ∷ m) a u =
    ground (arith, none_after key seq top m, bytes_cmp_flip key k.key, int_cmp_flip top k.seq_id)

sees_self :
    (key : Bytes) (seq top : ℤ)
    → is_le top seq ≡ true
    → sees key seq (record { key = key; seq_id = top }) ≡ true
sees_self key seq top h = ground (arith, bytes_cmp_refl key)

-- A new version with the highest number is the one that a read sees, from its number on.
pub latest-insert_self :
    (key : Bytes) (seq top : ℤ) (value : Option Bytes) (m : Versions)
    → IsSorted m
    → UpTo top m
    → is_le top seq ≡ true
    → latest key seq (insert (record { key = key; seq_id = top }) value m) ≡ some value
latest-insert_self key seq top value [] s u h = ground (arith, bytes_cmp_refl key)
latest-insert_self key seq top value ((k, v) ∷ m) (above, sorted) (fits, u) h =
    at (key_cmp new k) refl (latest-insert_self key seq top value m sorted u h)
  where
    new : InternalKey
    new = record { key = key; seq_id = top }

    at :
        (c : Ordering)
        → key_cmp new k ≡ c
        → latest key seq (insert new value m) ≡ some value
        → latest key seq (insert new value ((k, v) ∷ m)) ≡ some value
    at lt e _ =
        let gone = none_after key seq top ((k, v) ∷ m) (e, Above-trans new k m e above) (fits, u) in
        rw (e, gone, sees_self key seq top h)
    at eq e _ =
        let gone = none_after key seq top m (rw (key_eq_of_cmp new k e) above) u in
        rw (e, gone, sees_self key seq top h)
    at gt e ih = rw (e, ih)

latest_skip :
    (key : Bytes) (seq : ℤ) (k : InternalKey) (v : Option Bytes) (m : Versions)
    → sees key seq k ≡ false
    → latest key seq ((k, v) ∷ m) ≡ latest key seq m
latest_skip key seq k v m h = elim (Option-cases (latest key seq m)) [
  | inl e ↦ rw (e, h)
  | inr (w, e) ↦ rw e
]

-- A read before the number of a new version, or of another key, sees what it saw.
pub latest-insert_hidden :
    (key : Bytes) (seq : ℤ) (new : InternalKey) (value : Option Bytes) (m : Versions)
    → sees key seq new ≡ false
    → latest key seq (insert new value m) ≡ latest key seq m
latest-insert_hidden key seq new value [] h = rw h
latest-insert_hidden key seq new value ((k, v) ∷ m) h =
    at (key_cmp new k) refl (latest-insert_hidden key seq new value m h)
  where
    at :
        (c : Ordering)
        → key_cmp new k ≡ c
        → latest key seq (insert new value m) ≡ latest key seq m
        → latest key seq (insert new value ((k, v) ∷ m)) ≡ latest key seq ((k, v) ∷ m)
    at lt e _ = rw (insert_lt new k value v m e) (latest_skip key seq new value ((k, v) ∷ m) h)
    at eq e _ =
        let same : sees key seq k ≡ false = rw (← key_eq_of_cmp new k e) h in
        rw (insert_eq new k value v m e)
          (latest_skip key seq new value m h ∙ sym (latest_skip key seq k v m same))
    at gt e ih =
        rw (insert_gt new k value v m e)
          (ap (λ o. elim o [ some w ↦ some w | none ↦ if sees key seq k then some v else none ]) ih)

pub UpTo-insert :
    (new : InternalKey) (top : ℤ) (value : Option Bytes) (m : Versions)
    → is_le new.seq_id top ≡ true
    → UpTo top m
    → UpTo top (insert new value m)
UpTo-insert new top value [] h u = (h, tt)
UpTo-insert new top value ((k, v) ∷ m) h (fits, u) =
    at (key_cmp new k) refl (UpTo-insert new top value m h u)
  where
    at :
        (c : Ordering)
        → key_cmp new k ≡ c
        → UpTo top (insert new value m)
        → UpTo top (insert new value ((k, v) ∷ m))
    at lt e _ = rw (insert_lt new k value v m e) (h, (fits, u))
    at eq e _ = rw (insert_eq new k value v m e) (h, u)
    at gt e ih = rw (insert_gt new k value v m e) (fits, ih)

pub UpTo-trans : (s t : ℤ) (m : Versions) → is_le s t ≡ true → UpTo s m → UpTo t m
UpTo-trans s t [] h u = tt
UpTo-trans s t ((k, v) ∷ m) h (fits, u) = (le_trans k.seq_id s t fits h, UpTo-trans s t m h u)

-- What a read sees after a version with the highest number has been inserted.
pub latest-insert :
    (key : Bytes) (seq top : ℤ) (k : Bytes) (value : Option Bytes) (m : Versions)
    → IsSorted m
    → UpTo top m
    → latest key seq (insert (record { key = k; seq_id = top }) value m)
      ≡ (if is_eq k key && is_le top seq then some value else latest key seq m)
latest-insert key seq top k value m s u = elim (Bool-cases (is_eq k key)) [
  | inl same ↦ elim (Bool-cases (is_le top seq)) [
    | inl h ↦
        let e : k ≡ key = bytes_eq_of_cmp k key (ground arith) in
        rw (same, h, e) (latest-insert_self key seq top value m s u h)
    | inr h ↦
        rw (same, h)
          (latest-insert_hidden key seq (record { key = k; seq_id = top }) value m (rw (same, h)))
  ]
  | inr other ↦
      rw other (latest-insert_hidden key seq (record { key = k; seq_id = top }) value m (rw other))
]
