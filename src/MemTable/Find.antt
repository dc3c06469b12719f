-- ===== src/MemTable/Find.antt =====
-- Reads of the memory table, as the latest versions of its two maps.
use kip_db.Base.{◌≡◌, refl, Bool-cases, Option-cases, inl, inr, Option, none, some, arith}
use kip_db.Base.Int.{ℤ, i64_max, int_ord}
use kip_db.Base.Order.{Bytes, bytes_ord, is_eq, Bound, included}
use kip_db.Base.SortedMap.{last_under}
use kip_db.Data.{KeyValue}
use kip_db.MemTable.{MemMap, TableInner, find_, find, find_with_sequence_id}
use kip_db.MemTable.Key.{InternalKey, key_ord}
use kip_db.MemTable.LogIo.{Wal}
use kip_db.MemTable.Versions.{latest, last_under-latest}

-- What a read returns for a version.
abbrev pub entry : Bytes → Option (Option Bytes) → Option KeyValue
entry key none = none
entry key (some v) = some (key, v)

abbrev pub first_some : Option (Option Bytes) → Option (Option Bytes) → Option (Option Bytes)
first_some none o = o
first_some (some v) o = some v

pub some_or_none : (o : Option (Option Bytes)) → first_some o none ≡ o
some_or_none none = refl
some_or_none (some v) = refl

module _ (sm : MemMap) where
  pub find_-latest :
      (key : Bytes) (seq : ℤ) (m : sm.Map)
      → find_ sm (record { key = key; seq_id = seq }) m ≡ entry key (latest key seq (sm.iter m))
  unfolding find_
  find_-latest key seq m =
      let b : Bound InternalKey = included (record { key = key; seq_id = seq }) in
      rw
        (sm.upper_bound-iter b m, find_, last_under-latest key seq (sm.iter m) (sm.iter-IsSorted m))
        (elim (Option-cases (last_under b (sm.iter m))) [
          | inl e ↦ rw e
          | inr ((k, v), e) ↦
              rw e
                (elim (Bool-cases (is_eq key k.key)) [ inl same ↦ rw same | inr other ↦ rw other ])
        ])

module _ {sm : MemMap} {wal : Wal} where
  -- The latest version in the active map, or else in the immutable one.
  abbrev pub seen_at : TableInner sm wal → Bytes → ℤ → Option (Option Bytes)
  seen_at inner key seq =
      first_some (latest key seq (sm.iter inner.mem))
        (elim inner.immut [ none ↦ none | some m ↦ latest key seq (sm.iter m) ])

  -- A read at a sequence number returns the key with its latest version up to that number: the
  -- last in the active map, or else the last in the immutable map, or else nothing.
  pub find_with_sequence_id-seen_at :
      (inner : TableInner sm wal) (key : Bytes) (seq : ℤ)
      → find_with_sequence_id inner key seq ≡ entry key (seen_at inner key seq)
  unfolding find_with_sequence_id
  find_with_sequence_id-seen_at inner key seq =
      ground (arith, find_-latest sm key seq inner.mem, immut_lem inner.immut)
    where
      immut_lem :
          (o : Option sm.Map)
          → (elim o [ none ↦ none | some m ↦ find_ sm (record { key = key; seq_id = seq }) m ])
            ≡ entry key (elim o [ none ↦ none | some m ↦ latest key seq (sm.iter m) ])
      immut_lem none = refl
      immut_lem (some m) = find_-latest sm key seq m

  -- `find` reads at the greatest sequence number.
  pub find-find_with_sequence_id :
      (inner : TableInner sm wal) (key : Bytes)
      → find inner key ≡ find_with_sequence_id inner key i64_max
  unfolding find find_with_sequence_id
  find-find_with_sequence_id inner key = refl
