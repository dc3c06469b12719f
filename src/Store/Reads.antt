-- ===== src/Store/Reads.antt =====
-- What a read of the store finds after a write or a removal.
use kip_db.Base.{◌≡◌, refl, [], Option-cases, inl, inr, Bool, true, Option, none, some}
use kip_db.Base.Int.{ℤ, i64_max, int_ord}
use kip_db.Base.Order.{Bytes, is_le}
use kip_db.Codec.{VarInt}
use kip_db.Error.{KernelError, ok, err, split_result, is_ok, is_err, is_panic}
use kip_db.MemTable.{MemMap, TableInner, insert_data}
use kip_db.MemTable.Insert.{NotAbove, insert_data-find}
use kip_db.MemTable.LogIo.{Wal}
use kip_db.Store.{Query, get, set, remove, append_cmd_data}

module _ {sm : MemMap} {wal : Wal} where
  append_cmd_data-get :
      (varint : VarInt) (inner : TableInner sm wal) (count : ℤ) (closed : Bool) (key : Bytes)
      (value : Option Bytes) (query : Query)
      → NotAbove count inner
      → is_le count i64_max ≡ true
      → (append_cmd_data varint inner count closed (key, value)).2 ≡ ok tt
      → get (append_cmd_data varint inner count closed (key, value)).0 query closed key ≡ ok value
  unfolding append_cmd_data get
  append_cmd_data-get varint inner count closed key value query below fits done =
      elim (split_result (insert_data varint inner count (key, value)).2) [
        | is_ok b e ↦ rw (get, insert_data-find varint inner count key value below fits e)
        | is_err x e ↦ let bad = rw (e, append_cmd_data) at done in cc
        | is_panic e ↦ let bad = rw (e, append_cmd_data) at done in cc
      ]

  -- After a set that succeeds, get returns the value, and after a remove that succeeds it returns
  -- nothing, if no version in the active map has a number above the counter, which is in range.
  pub set-get :
      (varint : VarInt) (inner : TableInner sm wal) (count : ℤ) (closed : Bool) (key value : Bytes)
      (query : Query)
      → NotAbove count inner
      → is_le count i64_max ≡ true
      → ((set varint inner count closed key value).2 ≡ ok tt
          → get (set varint inner count closed key value).0 query closed key ≡ ok (some value))
        × ((remove varint inner query count closed key).2 ≡ ok tt
            → get (remove varint inner query count closed key).0 query closed key ≡ ok none)
  unfolding set remove
  set-get varint inner count closed key value query below fits =
      (append_cmd_data-get varint inner count closed key (some value) query below fits, removed)
    where
      removed :
          (remove varint inner query count closed key).2 ≡ ok tt
          → get (remove varint inner query count closed key).0 query closed key ≡ ok none
      removed done = elim (split_result (get inner query closed key)) [
        | is_ok o e ↦ elim (Option-cases o) [
          | inl n ↦ let bad = rw (e, n, remove) at done in cc
          | inr (v, n) ↦
              let done' = rw (e, n, remove) at done in
              rw (e, n, remove)
                (append_cmd_data-get varint inner count closed key none query below fits done')
        ]
        | is_err x e ↦ let bad = rw (e, remove) at done in cc
        | is_panic e ↦ let bad = rw (e, remove) at done in cc
      ]

  -- A second removal of a key fails with KeyNotFound, and changes neither the table nor the counter,
  -- if the first one succeeded, no version in the active map had a number above the counter, and the
  -- counter was in range.
  pub remove-remove :
      (varint : VarInt) (inner : TableInner sm wal) (count : ℤ) (closed : Bool) (key : Bytes)
      (query : Query)
      → NotAbove count inner
      → is_le count i64_max ≡ true
      → (remove varint inner query count closed key).2 ≡ ok tt
      → let (inner', count', _) = remove varint inner query count closed key in
        remove varint inner' query count' closed key
        ≡ (inner', count', err KernelError.key_not_found)
  unfolding remove
  remove-remove varint inner count closed key query below fits done =
      let gone = (set-get varint inner count closed key [] query below fits).1 done in
      rw (gone, remove) refl
