-- ===== src/Block/Compressed/Entries.antt =====
-- The entries that the items of a block become.
use mathlib.Core.Path.{subst}
use kip_db.Base.{
  ℕ, zero, suc, ◌+◌, ◌-◌, ◌/◌, ◌%◌, ◌≤◌, ◌≡◌, ◌≢◌, refl, true, false, Option, some, List, [], ◌∷◌,
  leb, ◌==◌, arith,
}
use kip_db.Base.Lists.{length, drop}
use kip_db.Base.Order.{Bytes}
use kip_db.Base.Search.{get_elem?}
use kip_db.Block.Entry.{Entry}
use kip_db.Block.Compressed.{element, compress_one, compress}
use kip_db.Error.{ok}

module _ {T : Type 0} where
  -- An item is compressed, and where its entry then stands.
  abbrev pub One : ℕ → List ℕ → ℕ → Bytes × T → Type 0
  One r lens i kv = (e : Entry T) × (compress_one r lens i kv ≡ ok (i, e))

  abbrev pub Stands : ℕ → List ℕ → ℕ → Bytes × T → Option (ℕ × Entry T) → Type 0
  Stands r lens i kv entry =
      (e : Entry T) × (entry ≡ some (i, e)) × (compress_one r lens i kv ≡ ok (i, e))

  pub compress-get :
      (r : ℕ) (lens : List ℕ) (n : ℕ) (kvs : List (Bytes × T))
      → ((i : ℕ) (kv : Bytes × T) → get_elem? kvs i ≡ some kv → One r lens (n + i) kv)
      → (entries : List (ℕ × Entry T)) × (compress r lens n kvs ≡ ok entries)
        × ((i : ℕ) (kv : Bytes × T)
            → get_elem? kvs i ≡ some kv
            → Stands r lens (n + i) kv (get_elem? entries i))
  unfolding compress
  compress-get r lens n [] each = ([], refl, λ i kv h. absurd (cc))
  compress-get r lens n (first ∷ kvs) each =
      let n0 : n + 0 ≡ n = omega arith in
      let (e, one) = subst (λ j. One r lens j first) n0 (each 0 first refl) in
      let (entries, all, rest) = compress-get r lens (suc n) kvs (λ i kv h.
        let up : n + suc i ≡ suc n + i = omega arith in
        subst (λ j. One r lens j kv) up (each (suc i) kv h)) in
      ((n, e) ∷ entries, rw (compress, one, all) refl, by_index e one entries rest)
    where
      by_index :
          (e : Entry T)
          → compress_one r lens n first ≡ ok (n, e)
          → (entries : List (ℕ × Entry T))
          → ((i : ℕ) (kv : Bytes × T)
              → get_elem? kvs i ≡ some kv
              → Stands r lens (suc n + i) kv (get_elem? entries i))
          → (i : ℕ) (kv : Bytes × T) → get_elem? (first ∷ kvs) i ≡ some kv
          → Stands r lens (n + i) kv (get_elem? ((n, e) ∷ entries) i)
      by_index e one entries rest zero kv h =
          let n0 : n ≡ n + 0 = omega arith in
          let same : first ≡ kv = cc in
          subst (λ j. Stands r lens j kv (some (n, e))) n0
            (e, refl, subst (λ x. compress_one r lens n x ≡ ok (n, e)) same one)
      by_index e one entries rest (suc i) kv h =
          let up : suc n + i ≡ n + suc i = omega arith in
          subst (λ j. Stands r lens j kv (get_elem? entries i)) up (rest i kv h)

  -- The entry of an item at the start of a group has its key.
  pub restart_one :
      (r : ℕ) (lens : List ℕ) (i : ℕ) (kv : Bytes × T)
      → i % r ≡ 0
      → (e : Entry T) × (compress_one r lens i kv ≡ ok (i, e))
        × (e.key ≡ kv.0)
        × (e.item ≡ kv.1)
        × (e.shared_len ≡ 0)
  unfolding compress_one
  restart_one r lens i (k, v) h =
      let none_less : leb 0 (length k) ≡ true = ground arith in
      (
        record { unshared_len = length k - 0; shared_len = 0; key = k; item = v },
        rw (compress_one, h, none_less) refl,
        refl,
        refl,
        refl,
      )

  -- The others' leave out the prefix of the group.
  pub shared_one :
      (r : ℕ) (lens : List ℕ) (i len : ℕ) (kv : Bytes × T)
      → i % r ≢ 0
      → get_elem? lens (i / r) ≡ some len
      → len ≤ length kv.0
      → (e : Entry T) × (compress_one r lens i kv ≡ ok (i, e))
        × (e.key ≡ drop len kv.0)
        × (e.item ≡ kv.1)
        × (e.shared_len ≡ len)
  unfolding compress_one
  shared_one r lens i len (k, v) h at_len le =
      let fits : leb len (length k) ≡ true = ground arith in
      let inside : (i % r == 0) ≡ false = ground arith in
      (
        record { unshared_len = length k - len; shared_len = len; key = drop len k; item = v },
        rw (compress_one, inside, element, at_len, fits) refl,
        refl,
        refl,
        refl,
      )
