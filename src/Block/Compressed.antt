-- ===== src/Block/Compressed.antt =====
-- src/kernel/lsm/table/ss_table/block.rs: a block, whose keys leave out the prefix that their
-- restart group shares.
pub mod Groups
pub mod Entries
pub mod Restore
pub mod Compare
mod Tests
use kip_db.Base.{
  ℕ, zero, suc, ◌+◌, ◌-◌, ◌/◌, ◌%◌, Bool, true, false, Option, none, some, List, [], ◌∷◌, ◌++◌, map,
  ltb, leb, ◌==◌, if◌then◌else◌,
}
use kip_db.Base.Lists.{length, take, drop}
use kip_db.Base.Order.{Bytes, bytes_cmp, Ordering, then_with, reverse}
use kip_db.Base.Search.{get_elem?, Position, found, insert_at, binary_search}
use kip_db.Block.Entry.{Entry, Value}
use kip_db.Block.Prefix.{sharding_shared_len}
use kip_db.Error.{KernelResult, ok, err, panic, ◌>>=◌}

pub record Block (T : Type 0) : Type 0 where
  pub restart_interval : ℕ
  pub vec_entry : List (ℕ × Entry T)

-- `&key[..len]` and `&key[len..]`
abbrev pub slice_to : ℕ → Bytes → KernelResult Bytes
slice_to len key = if leb len (length key) then ok (take len key) else panic

abbrev pub slice_from : ℕ → Bytes → KernelResult Bytes
slice_from len key = if leb len (length key) then ok (drop len key) else panic

-- `xs[i]`
abbrev pub element : {A : Type 0} → List A → ℕ → KernelResult A
element xs i = elim (get_elem? xs i) [ none ↦ panic | some a ↦ ok a ]

module _ {T : Type 0} where
  -- One round of the iterator that `Block::new` collects.
  unfoldable pub compress_one : ℕ → List ℕ → ℕ → Bytes × T → KernelResult (ℕ × Entry T)
  compress_one restart_interval lens index (key, item) = do
    shared_len ←
        if index % restart_interval == 0 then ok 0 else element lens (index / restart_interval)
    rest ← slice_from shared_len key
    ok (
      index,
      record {
        unshared_len = length key - shared_len;
        shared_len = shared_len;
        key = rest;
        item = item;
      },
    )

  unfoldable pub compress : ℕ → List ℕ → ℕ → List (Bytes × T) → KernelResult (List (ℕ × Entry T))
  unfolding compress_one
  compress restart_interval lens index [] = ok []
  compress restart_interval lens index (kv ∷ vec_kv) = do
    entry ← compress_one restart_interval lens index kv
    entries ← compress restart_interval lens (suc index) vec_kv
    ok (entry ∷ entries)

  -- `Block::new`
  unfoldable pub create : List (Bytes × T) → ℕ → KernelResult (Block T)
  unfolding compress
  create vec_kv restart_interval = do
    lens ← sharding_shared_len vec_kv restart_interval
    entries ← compress restart_interval lens 0 vec_kv
    ok (record { restart_interval = restart_interval; vec_entry = entries })

  unfoldable pub entry_len : Block T → ℕ
  entry_len b = length b.vec_entry

  unfoldable pub get_entry : ℕ → Block T → KernelResult (Entry T)
  get_entry index b = element b.vec_entry index >>= λ e. ok e.1

  -- A remainder by 0 panics.
  unfoldable pub shared_key_prefix : ℕ → ℕ → Block T → KernelResult Bytes
  shared_key_prefix index shared_len b =
      if b.restart_interval == 0
      then panic
      else (element b.vec_entry (index - index % b.restart_interval) >>= λ e.
          slice_to shared_len e.1.key)

  unfoldable pub restart_shared_len : ℕ → Block T → KernelResult ℕ
  unfolding get_entry
  restart_shared_len index b =
      if b.restart_interval == 0
      then panic
      else (if index % b.restart_interval == 0
          then elim (get_elem? b.vec_entry (index + 1)) [ none ↦ ok 0 | some e ↦ ok e.1.shared_len ]
          else (get_entry index b >>= λ e. ok e.shared_len))

  -- The comparison of `binary_search`, before it is reversed.
  unfoldable pub compare_entry : Bytes → Block T → ℕ × Entry T → KernelResult Ordering
  unfolding shared_key_prefix
  compare_entry key b (index, entry) =
      let shared_len = if leb entry.shared_len (length key) then entry.shared_len else length key in
      if ltb 0 entry.shared_len
      then (shared_key_prefix index shared_len b >>= λ shared. ok (
          then_with (bytes_cmp (take shared_len key) shared)
            (bytes_cmp (drop shared_len key) entry.key)))
      else ok (bytes_cmp key entry.key)

  -- The key of an entry, as `binary_search` and the iterators put it together, and its item.
  unfoldable pub restore : Block T → ℕ × Entry T → KernelResult (Bytes × T)
  unfolding shared_key_prefix
  restore b (index, entry) =
      shared_key_prefix index entry.shared_len b >>= λ shared. ok (shared ++ entry.key, entry.item)
