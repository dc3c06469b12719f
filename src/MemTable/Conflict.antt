-- ===== src/MemTable/Conflict.antt =====
-- `check_key_conflict` decides whether a later version of a written key is in the active map.
use kip_db.Base.{◌≢◌, ◌≡◌, refl, Bool, false, ◌&&◌, ◌||◌, none, some, List, [], ◌∷◌, arith}
use kip_db.Base.Int.{ℤ, int_ord}
use kip_db.Base.Order.{
  Bytes, bytes_ord, bytes_cmp, bytes_cmp_flip, bytes_eq_of_cmp, bytes_lt_trans, is_eq, is_lt, Bound,
  excluded, lt, gt,
}
use kip_db.Base.SortedMap.{IsSorted, Above, first_over}
use kip_db.Data.{KeyValue}
use kip_db.MemTable.{MemMap, TableInner, check_key_conflict}
use kip_db.MemTable.Key.{InternalKey, key_ord, key_cmp}
use kip_db.MemTable.LogIo.{Wal}
use kip_db.MemTable.Versions.{Versions}

-- Some version of the key is later than the number.
abbrev pub newer : Bytes → ℤ → Versions → Bool
newer key seq [] = false
newer key seq ((k, v) ∷ m) = is_eq k.key key && is_lt seq k.seq_id || newer key seq m

-- The same for any of the keys of a batch.
abbrev pub any_newer : List KeyValue → ℤ → Versions → Bool
any_newer [] seq m = false
any_newer ((key, v) ∷ kvs) seq m = newer key seq m || any_newer kvs seq m

apart : (a b c : Bytes) → bytes_cmp a b ≡ lt → bytes_cmp b c ≢ gt → is_eq c a ≡ false
apart a b c p q = ground (arith, bytes_lt_trans a b c, bytes_eq_of_cmp b c, bytes_cmp_flip a c)

not_newer_after :
    (key : Bytes) (seq : ℤ) (k : InternalKey) (m : Versions)
    → Above k m
    → key_cmp (record { key = key; seq_id = seq }) k ≡ lt
    → is_eq k.key key ≡ false
    → newer key seq m ≡ false
not_newer_after key seq k [] a p q = refl
not_newer_after key seq k ((j, v) ∷ m) (kj, a) p q = ground (
  arith,
  not_newer_after key seq k m a p q,
  apart key k.key j.key (ground (arith, bytes_cmp_flip key k.key)) (ground arith),
)

first_over-newer :
    (key : Bytes) (seq : ℤ) (m : Versions)
    → IsSorted m
    → (elim (first_over (excluded (record { key = key; seq_id = seq })) m) [
      | none ↦ false
      | some (k, v) ↦ is_eq k.key key
    ])
      ≡ newer key seq m
first_over-newer key seq [] s = refl
first_over-newer key seq ((k, v) ∷ m) (above, sorted) =
    let new : InternalKey = record { key = key; seq_id = seq } in
    ground (
      arith,
      bytes_cmp_flip key k.key,
      not_newer_after key seq k m above,
      first_over-newer key seq m sorted,
    )

module _ {sm : MemMap} {wal : Wal} where
  -- The check reports a conflict exactly if the active map holds, for one of the keys, a version
  -- with a number greater than the given one.
  pub check_key_conflict-any_newer :
      (inner : TableInner sm wal) (kvs : List KeyValue) (seq : ℤ)
      → check_key_conflict inner kvs seq ≡ any_newer kvs seq (sm.iter inner.mem)
  unfolding check_key_conflict
  check_key_conflict-any_newer inner [] seq = refl
  check_key_conflict-any_newer inner ((key, v) ∷ kvs) seq =
      let b : Bound InternalKey = excluded (record { key = key; seq_id = seq }) in
      ground (
        arith,
        sm.lower_bound-iter b inner.mem,
        first_over-newer key seq (sm.iter inner.mem) (sm.iter-IsSorted inner.mem),
        check_key_conflict-any_newer inner kvs seq,
      )
