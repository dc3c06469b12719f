-- ===== src/MemTable/Swap.antt =====
-- `swap`: the data that goes to the compactor, and what reads find afterwards.
use mathlib.Core.List.{reverse, reverse-append, reverse_aux-eq, append-nil, map-append}
use kip_db.Base.{
  ◌≡◌, refl, ap, ◌∙◌, Bool-cases, Option-cases, inl, inr, true, false, ◌||◌, Option, none, some,
  List, [], ◌∷◌, ◌++◌, map, if◌then◌else◌, arith,
}
use kip_db.Base.Int.{ℤ, i64_max, int_ord}
use kip_db.Base.Order.{Bytes, bytes_ord, bytes_cmp_flip, bytes_eq_of_cmp}
use kip_db.Base.SortedMap.{IsSorted, Above, get}
use kip_db.Data.{KeyValue}
use kip_db.Error.{split_result, is_ok, is_err, is_panic}
use kip_db.MemTable.{
  MemMap, TableInner, swap_data, swap_locked, seen, first_of_each, IsUniqueBy,
  find_with_sequence_id,
}
use kip_db.MemTable.Find.{entry, find_with_sequence_id-seen_at}
use kip_db.MemTable.Insert.{batch_value}
use kip_db.MemTable.Key.{InternalKey, key_ord}
use kip_db.MemTable.LogIo.{Wal}
use kip_db.MemTable.Range.{plain}
use kip_db.MemTable.Versions.{Versions, latest, UpTo}

abbrev pub keys : List KeyValue → List Bytes
keys = map (λ (e : KeyValue). e.0)

-- The last entry of every key.
abbrev pub keep_last : List KeyValue → List KeyValue
keep_last [] = []
keep_last ((k, v) ∷ es) = if seen k (keys es) then keep_last es else (k, v) ∷ keep_last es

seen-append : (k : Bytes) (a b : List Bytes) → seen k (a ++ b) ≡ (seen k a || seen k b)
seen-append k [] b = refl
seen-append k (x ∷ a) b = ground (arith, seen-append k a b)

seen-reverse : (k : Bytes) (es : List KeyValue) → seen k (keys (reverse es)) ≡ seen k (keys es)
seen-reverse k [] = refl
seen-reverse k (e ∷ es) =
    rw (reverse_aux-eq es (e ∷ []), map-append, seen-append, seen-reverse k es) (ground arith)

first_of_each-last :
    (ks : List Bytes) (ys : List KeyValue) (k : Bytes) (v : Option Bytes)
    → first_of_each ks (ys ++ (k, v) ∷ [])
      ≡ first_of_each ks ys ++ (if seen k ks || seen k (keys ys) then [] else (k, v) ∷ [])
first_of_each-last ks [] k v = ground arith
first_of_each-last ks ((j, w) ∷ ys) k v =
    ground
      (arith, bytes_eq_of_cmp k j, first_of_each-last ks ys k v, first_of_each-last (j ∷ ks) ys k v)

reverse-keep_last : (es : List KeyValue) → reverse (first_of_each [] (reverse es)) ≡ keep_last es
reverse-keep_last [] = refl
reverse-keep_last ((k, v) ∷ es) =
    let kept = first_of_each [] (reverse es) in
    rw (reverse_aux-eq es ((k, v) ∷ []), first_of_each-last [] (reverse es) k v, seen-reverse k es)
      (elim (Bool-cases (seen k (keys es))) [
        | inl old ↦ rw (old, append-nil) (reverse-keep_last es)
        | inr new ↦
            rw (new, reverse-append kept ((k, v) ∷ [])) (ap (◌∷◌ (k, v)) (reverse-keep_last es))
      ])

batch_value-seen :
    (k : Bytes) (es : List KeyValue) → seen k (keys es) ≡ false → batch_value k es ≡ none
batch_value-seen k [] h = refl
batch_value-seen k ((j, w) ∷ es) h = ground (arith, batch_value-seen k es, bytes_cmp_flip k j)

seen-batch_value :
    (k : Bytes) (es : List KeyValue)
    → seen k (keys es) ≡ true
    → (v : Option Bytes) × (batch_value k es ≡ some v)
seen-batch_value k [] h = cc
seen-batch_value k ((j, w) ∷ es) h = elim (Option-cases (batch_value k es)) [
  | inr (w', e) ↦ (w', rw e)
  | inl e ↦ (w, rw e (ground (arith, seen-batch_value k es, bytes_cmp_flip k j)))
]

pub get-keep_last : (key : Bytes) (es : List KeyValue) → get key (keep_last es) ≡ batch_value key es
get-keep_last key [] = refl
get-keep_last key ((k, v) ∷ es) = elim (Bool-cases (seen k (keys es))) [
  | inl old ↦
      rw old (get-keep_last key es ∙ ground (arith, seen-batch_value k es, bytes_eq_of_cmp k key))
  | inr new ↦ rw new (
      ground (
        arith,
        batch_value-seen k es new,
        get-keep_last key es,
        bytes_cmp_flip key k,
        bytes_eq_of_cmp k key,
      ))
]

pub batch_value-latest :
    (key : Bytes) (top : ℤ) (m : Versions)
    → UpTo top m
    → batch_value key (plain m) ≡ latest key top m
batch_value-latest key top [] u = refl
batch_value-latest key top ((k, v) ∷ m) u = ground (arith, batch_value-latest key top m)

keep_last-Above :
    (k : InternalKey) (m : Versions)
    → Above k m
    → seen k.key (keys (plain m)) ≡ false
    → Above k.key (keep_last (plain m))
keep_last-Above k [] a h = tt
keep_last-Above k ((i, w) ∷ m) a h = ground (arith, keep_last-Above k m)

pub keep_last-IsSorted : (m : Versions) → IsSorted m → IsSorted (keep_last (plain m))
keep_last-IsSorted [] s = tt
keep_last-IsSorted ((k, v) ∷ m) (a, s) = elim (Bool-cases (seen k.key (keys (plain m)))) [
  | inl old ↦ rw old (keep_last-IsSorted m s)
  | inr new ↦ rw new (keep_last-Above k m a new, keep_last-IsSorted m s)
]

-- The data of a flush is strictly sorted by key, and holds for every key the value of its latest
-- version, and nothing for the other keys. `unique_by` is assumed to keep first items, and no number
-- to exceed the range of `i64`.
pub swap_data-latest :
    (sm : MemMap) (unique_by : List KeyValue → List KeyValue) (m : sm.Map) (key : Bytes)
    → IsUniqueBy unique_by
    → UpTo i64_max (sm.iter m)
    → IsSorted (swap_data sm unique_by m)
      × (get key (swap_data sm unique_by m) ≡ latest key i64_max (sm.iter m))
unfolding swap_data
swap_data-latest sm unique_by m key unique fits =
    rw (unique, reverse-keep_last (plain (sm.iter m)))
      (
        keep_last-IsSorted (sm.iter m) (sm.iter-IsSorted m),
        get-keep_last key (plain (sm.iter m)) ∙ batch_value-latest key i64_max (sm.iter m) fits,
      )

module _ {sm : MemMap} {wal : Wal} where
  -- Once the table is swapped, whether or not the log could be switched, a read finds the latest
  -- version that the active map had, and the active map is empty.
  pub swap_locked-reads :
      (unique_by : List KeyValue → List KeyValue) (inner : TableInner sm wal) (gen_buf : ℤ)
      (key : Bytes) (seq : ℤ)
      → sm.is_empty inner.mem ≡ false
      → (sm.iter (swap_locked unique_by inner gen_buf).0.mem ≡ [])
        × (find_with_sequence_id (swap_locked unique_by inner gen_buf).0 key seq
            ≡ entry key (latest key seq (sm.iter inner.mem)))
  unfolding swap_locked
  swap_locked-reads unique_by inner gen_buf key seq full =
      elim (split_result (wal.writer gen_buf)) [
        | is_err _ e ↦ rw (full, e) (moved_reads _ refl refl)
        | is_panic e ↦ rw (full, e) (moved_reads _ refl refl)
        | is_ok w e ↦ elim (split_result (wal.flush inner.log_writer).1) [
          | is_err _ f ↦ rw (full, e, f) (moved_reads _ refl refl)
          | is_panic f ↦ rw (full, e, f) (moved_reads _ refl refl)
          | is_ok _ f ↦ rw (full, e, f) (moved_reads _ refl refl)
        ]
      ]
    where
      moved_reads :
          (after : TableInner sm wal)
          → after.mem ≡ sm.new
          → after.immut ≡ some inner.mem
          → (sm.iter after.mem ≡ [])
            × (find_with_sequence_id after key seq ≡ entry key (latest key seq (sm.iter inner.mem)))
      moved_reads after e f =
          (rw e sm.iter-new, find_with_sequence_id-seen_at after key seq ∙ rw (e, sm.iter-new, f))
