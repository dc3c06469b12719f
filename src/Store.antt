-- ===== src/Store.antt =====
-- src/kernel/lsm/storage.rs and src/kernel/lsm/mod.rs: reads and writes of the store over its
-- memory table. The current version answers `query`, and `closed` tells whether the receiver of the
-- compactor's channel is gone: `try_send` fails with `Closed` then, and with `Full` at most
-- otherwise, which the code ignores.
pub mod Transaction
pub mod Reads
mod Tests
use kip_db.Base.{ℕ, ◌+◌, Bool, true, false, ◌&&◌, Option, none, some, ◌==◌, if◌then◌else◌}
use kip_db.Base.Int.{ℤ}
use kip_db.Base.Order.{Bytes}
use kip_db.Codec.{VarInt}
use kip_db.Data.{KeyValue, add_usize}
use kip_db.Error.{KernelError, KernelResult, ok, err, panic, ◌>>=◌}
use kip_db.MemTable
use kip_db.MemTable.{MemMap, TableInner, insert_data}
use kip_db.MemTable.LogIo.{Wal}
use kip_db.Scope.{Scope}

-- `Version::query`: the data of a key, and a scope to compact after too many misses.
abbrev pub Query : Type 0
Query = Bytes → KernelResult (Option KeyValue × Option (Scope × ℕ))

abbrev send_miss : Bool → Option (Scope × ℕ) → KernelResult (Unit {0})
send_miss closed none = ok tt
send_miss closed (some _) = if closed then err KernelError.channel_close else ok tt

unfoldable pub query_and_compaction : Query → Bool → Bytes → KernelResult (Option KeyValue)
query_and_compaction query closed key = do
  (value_option, miss_option) ← query key
  _ ← send_miss closed miss_option
  ok value_option

abbrev value_of : Option KeyValue → Option Bytes
value_of none = none
value_of (some (_, value)) = value

module _ {sm : MemMap} {wal : Wal} where
  -- `KipStorage::get`
  unfoldable pub get : TableInner sm wal → Query → Bool → Bytes → KernelResult (Option Bytes)
  unfolding query_and_compaction
  get inner query closed key = elim (MemTable.find inner key) [
    | some (_, value) ↦ ok value
    | none ↦ do found ← query_and_compaction query closed key; ok (value_of found)
  ]

  -- `KipStorage::append_cmd_data`
  unfoldable pub append_cmd_data :
      VarInt
      → TableInner sm wal
      → ℤ
      → Bool
      → KeyValue
      → TableInner sm wal × ℤ × KernelResult (Unit {0})
  append_cmd_data varint inner count closed kv =
      let (inner', count', exceeded) = insert_data varint inner count kv in
      (
        inner',
        count',
        exceeded >>= λ b. if b && closed then err KernelError.channel_close else ok tt,
      )

  unfoldable pub set :
      VarInt
      → TableInner sm wal
      → ℤ
      → Bool
      → Bytes
      → Bytes
      → TableInner sm wal × ℤ × KernelResult (Unit {0})
  unfolding append_cmd_data
  set varint inner count closed key value =
      append_cmd_data varint inner count closed (key, some value)

  unfoldable pub remove :
      VarInt
      → TableInner sm wal
      → Query
      → ℤ
      → Bool
      → Bytes
      → TableInner sm wal × ℤ × KernelResult (Unit {0})
  unfolding append_cmd_data get
  remove varint inner query count closed key = elim (get inner query closed key) [
    | ok (some _) ↦ append_cmd_data varint inner count closed (key, none)
    | ok none ↦ (inner, count, err KernelError.key_not_found)
    | err e ↦ (inner, count, err e)
    | panic ↦ (inner, count, panic)
  ]

  -- `len` counts every version in the active map, and what the version counts.
  unfoldable pub len : TableInner sm wal → ℕ → ℕ
  len inner version_len = add_usize version_len (MemTable.len inner)

  unfoldable pub is_empty : TableInner sm wal → ℕ → Bool
  is_empty inner version_len = version_len == 0 && MemTable.is_empty inner
