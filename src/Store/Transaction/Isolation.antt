-- ===== src/Store/Transaction/Isolation.antt =====
-- What a transaction reads, and when it may commit.
use kip_db.Base.{◌≡◌, ◌≢◌, ◌⊎◌, refl, ap, ◌∙◌, Option-cases, inl, inr, Option, none, some, List, []}
use kip_db.Base.Int.{int_ord}
use kip_db.Base.Order.{Bytes, bytes_ord, cmp, eq}
use kip_db.Base.SortedMap
use kip_db.Base.SortedMap.{get-insert_self, get-insert_ne}
use kip_db.Data.{KeyValue}
use kip_db.Error.{ok, split_result, is_ok, is_err, is_panic}
use kip_db.MemTable.{MemMap, find_with_sequence_id}
use kip_db.MemTable.LogIo.{Wal}
use kip_db.Store.Transaction.{
  Transaction, Shared, get, set, remove, buffer, written, write_buf_or_init,
}

written-buffer_self :
    (tx : Transaction) (key : Bytes) (value : Option Bytes)
    → written (buffer tx key value) key ≡ some value
unfolding buffer
written-buffer_self tx key value = get-insert_self key value (write_buf_or_init tx)

written-buffer_ne :
    (tx : Transaction) (key k : Bytes) (value : Option Bytes)
    → cmp k key ≢ eq
    → written (buffer tx key value) k ≡ written tx k
unfolding buffer write_buf_or_init
written-buffer_ne tx key k value other =
    get-insert_ne k key value (write_buf_or_init tx) other ∙ init_lem tx.write_buf
  where
    init_lem :
        (o : Option (List KeyValue))
        → SortedMap.get k (elim o [ none ↦ [] | some buf ↦ buf ])
          ≡ elim o [ none ↦ none | some buf ↦ SortedMap.get k buf ]
    init_lem none = refl
    init_lem (some buf) = refl

module _ {sm : MemMap} {wal : Wal} where
  get-buffer_self :
      (s : Shared sm wal) (tx : Transaction) (key : Bytes) (value : Option Bytes)
      → get s (buffer tx key value) key ≡ ok value
  unfolding get buffer
  get-buffer_self s tx key value = rw (get, written-buffer_self tx key value)

  get-buffer_ne :
      (s : Shared sm wal) (tx : Transaction) (key k : Bytes) (value : Option Bytes)
      → cmp k key ≢ eq
      → get s (buffer tx key value) k ≡ get s tx k
  unfolding get buffer
  get-buffer_ne s tx key k value other = rw (get, written-buffer_ne tx key k value other)

  -- A removal that succeeds leaves a tombstone, and one that fails leaves the transaction.
  remove-buffer :
      (s : Shared sm wal) (tx : Transaction) (key : Bytes)
      → (remove s tx key ≡ (buffer tx key none, ok tt))
        ⊎ (((remove s tx key).0 ≡ tx) × ((remove s tx key).1 ≢ ok tt))
  unfolding remove
  remove-buffer s tx key = elim (split_result (get s tx key)) [
    | is_ok o e ↦ elim (Option-cases o) [
      | inl n ↦ inr (rw (e, n, remove) (refl, λ h. cc))
      | inr (v, n) ↦ inl (rw (e, n, remove) refl)
    ]
    | is_err x e ↦ inr (rw (e, remove) (refl, λ h. cc))
    | is_panic e ↦ inr (rw (e, remove) (refl, λ h. cc))
  ]

  -- A transaction reads its own writes: after `set` it reads the value, and after a `remove` that
  -- succeeds nothing. Neither changes its reads of other keys, whether the removal succeeds or not.
  pub get-set :
      (s : Shared sm wal) (tx : Transaction) (key value k : Bytes)
      → cmp k key ≢ eq
      → (get s (set tx key value) key ≡ ok (some value))
        × (get s (set tx key value) k ≡ get s tx k)
        × ((remove s tx key).1 ≡ ok tt → get s (remove s tx key).0 key ≡ ok none)
        × (get s (remove s tx key).0 k ≡ get s tx k)
  unfolding set
  get-set s tx key value k other = (
    get-buffer_self s tx key (some value),
    get-buffer_ne s tx key k (some value) other,
    λ done. elim (remove-buffer s tx key) [
      | inl e ↦ ap (λ r. get s r.0 key) e ∙ get-buffer_self s tx key none
      | inr (_, failed) ↦ absurd (failed done)
    ],
    elim (remove-buffer s tx key) [
      | inl e ↦ ap (λ r. get s r.0 k) e ∙ get-buffer_ne s tx key k none other
      | inr (e, _) ↦ ap (λ t. get s t k) e
    ],
  )

  -- A read of a transaction depends on the memory table by the read at its number only.
  pub get_of_same :
      (s s' : Shared sm wal) (tx : Transaction) (key : Bytes)
      → find_with_sequence_id s'.inner key tx.seq_id ≡ find_with_sequence_id s.inner key tx.seq_id
      → get s' tx key ≡ get s tx key
  unfolding get
  get_of_same s s' tx key e = elim (Option-cases (written tx key)) [
    | inl w ↦ rw (get, w, e)
    | inr (v, w) ↦ rw (get, w)
  ]
