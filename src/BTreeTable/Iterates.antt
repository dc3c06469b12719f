-- ===== src/BTreeTable/Iterates.antt =====
-- The iterator of a table yields its items, and after a seek those from a key on.
use kip_db.Base.{
  ℕ, true, ◌&&◌, ◌≡◌, refl, sym, ◌∙◌, ap, Bool-cases, inl, inr, Option, none, some, List, [], ◌∷◌,
  map, if◌then◌else◌,
}
use kip_db.Base.Int.{ℤ}
use kip_db.Base.Order.{
  Ordering-cases, Bytes, bytes_ord, bytes_cmp, included, unbounded, over, under, Bound,
}
use kip_db.Base.SortedMap.{
  IsSorted, Above, get, insert, insert-IsSorted, insert_lt, insert_eq, insert_gt, between,
}
use kip_db.BTreeTable.{
  Entries, BTreeTable, BTreeTableIter, from_iter, create, seek, next_of, try_next,
}
use kip_db.Data.{KeyValue}
use kip_db.Error.{ok}
use kip_db.Merging.{SeekIter}
use kip_db.Merging.Pull.{Yields}
use kip_db.Store.Transaction.Iter.Sources.{SeeksBack, between-IsSorted, get-between}

-- The table's iterator as one of the boxed iterators.
abbrev pub table_iter : SeekIter
table_iter = record {
  State = BTreeTableIter;
  try_next = try_next;
  seek = λ s it. (seek s it, ok tt);
  is_valid = λ it. true;
}

abbrev values : Entries → List KeyValue
values = map (λ (e : Bytes × KeyValue). e.1)

abbrev left : Option Entries → List KeyValue
left none = []
left (some es) = values es

next_nil :
    (o : Option Entries) (table : BTreeTable)
    → left o ≡ []
    → ((next_of o table).1 ≡ ok none) × (left (next_of o table).0.inner ≡ [])
next_nil none table h = (refl, refl)
next_nil (some []) table h = (refl, refl)
next_nil (some (e ∷ es)) table h = absurd (cc)

next_cons :
    (o : Option Entries) (table : BTreeTable) (kv : KeyValue) (kvs : List KeyValue)
    → left o ≡ kv ∷ kvs
    → ((next_of o table).1 ≡ ok (some kv)) × (left (next_of o table).0.inner ≡ kvs)
next_cons none table kv kvs h = absurd (cc)
next_cons (some []) table kv kvs h = absurd (cc)
next_cons (some (e ∷ es)) table kv kvs h = (cc, cc)

table_nil :
    (it : BTreeTableIter)
    → left it.inner ≡ []
    → ((try_next it).1 ≡ ok none) × (left (try_next it).0.inner ≡ [])
unfolding try_next
table_nil it h = next_nil it.inner it.table h

table_cons :
    (it : BTreeTableIter) (kv : KeyValue) (kvs : List KeyValue)
    → left it.inner ≡ kv ∷ kvs
    → ((try_next it).1 ≡ ok (some kv)) × (left (try_next it).0.inner ≡ kvs)
unfolding try_next
table_cons it kv kvs h = next_cons it.inner it.table kv kvs h

pub table_yields : Yields table_iter
table_yields = record { items = λ it. left it.inner; next-nil = table_nil; next-cons = table_cons }

-- Every entry holds its key.
Keyed : Entries → Type 0
Keyed [] = Unit
Keyed ((k, kv) ∷ m) = (kv.0 ≡ k) × Keyed m

Keyed-insert : (k : Bytes) (v : Option Bytes) (m : Entries) → Keyed m → Keyed (insert k (k, v) m)
unfolding Keyed
Keyed-insert k v [] h = (refl, tt)
Keyed-insert k v ((j, kv) ∷ m) (same, h) = elim (Ordering-cases (bytes_cmp k j)) [
  | inl less ↦ rw (insert_lt k j (k, v) kv m less) (refl, (same, h))
  | inr (inl e) ↦ rw (insert_eq k j (k, v) kv m e) (refl, h)
  | inr (inr more) ↦ rw (insert_gt k j (k, v) kv m more) (same, Keyed-insert k v m h)
]

from_iter-IsSorted :
    (m : Entries) (kvs : List KeyValue)
    → IsSorted m
    → Keyed m
    → IsSorted (from_iter m kvs) × Keyed (from_iter m kvs)
unfolding from_iter
from_iter-IsSorted m [] s h = (s, h)
from_iter-IsSorted m ((k, v) ∷ kvs) s h =
    from_iter-IsSorted (insert k (k, v) m) kvs (insert-IsSorted k (k, v) m s) (Keyed-insert k v m h)

values-between :
    (min max : Bound Bytes) (m : Entries)
    → Keyed m
    → values (between min max m) ≡ between min max (values m)
unfolding Keyed
values-between min max [] h = refl
values-between min max ((k, kv) ∷ m) (same, h) =
    ap
      (λ j.
        values
          (if over min j && under max j then (k, kv) ∷ between min max m else between min max m))
      (sym same)
    ∙ elim (Bool-cases (over min kv.0 && under max kv.0)) [
      | inl within ↦ rw within (ap (λ l. kv ∷ l) (values-between min max m h))
      | inr out ↦ rw out (values-between min max m h)
    ]

values-Above : (j : Bytes) (m : Entries) → Keyed m → Above j m → Above j (values m)
unfolding Keyed
values-Above j [] h a = tt
values-Above j ((k, kv) ∷ m) (same, h) (less, a) = (rw same less, values-Above j m h a)

values-IsSorted : (m : Entries) → Keyed m → IsSorted m → IsSorted (values m)
unfolding Keyed
values-IsSorted [] h s = tt
values-IsSorted ((k, kv) ∷ m) (same, h) (a, s) =
    (rw same (values-Above k m h a), values-IsSorted m h s)

-- The items of a table.
abbrev pub whole : BTreeTableIter → List KeyValue
whole it = values it.table.inner

-- An iterator over a table that was made of any data, wherever it stands, yields after a seek to a
-- key the items of the table from that key on.
pub table-SeeksBack :
    (level : ℕ) (gen : ℤ) (kvs : List KeyValue) (o : Option Entries)
    → SeeksBack table_yields whole (record { inner = o; table = create level gen kvs })
unfolding create seek table_yields Keyed
table-SeeksBack level gen kvs o key =
    let m = from_iter [] kvs in
    let (sorted, keyed) = from_iter-IsSorted [] kvs tt tt in
    let are = values-between (included key) unbounded m keyed in
    (
      refl,
      rw are
          (between-IsSorted (included key) unbounded (values m) (values-IsSorted m keyed sorted)),
      λ k o. ap (get k) are ∙ get-between (included key) unbounded k (values m) ∙ rw o refl,
    )
