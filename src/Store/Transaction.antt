-- ===== src/Store/Transaction.antt =====
-- src/kernel/lsm/mvcc.rs: transactions over a snapshot, with an optimistic check at commit.
pub mod Isolation
pub mod Commit
pub mod Snapshot
pub mod Refused
pub mod Iter
mod Tests
use kip_db.Base.{
  ℕ, ◌+◌, ◌-◌, Bool, true, false, ◌&&◌, Option, none, some, List, [], ◌∷◌, if◌then◌else◌,
}
use kip_db.Base.Int.{ℤ}
use kip_db.Base.Order.{Bytes, bytes_ord}
use kip_db.Base.SortedMap
use kip_db.Codec.{VarInt}
use kip_db.Data.{KeyValue, add_usize, sub_usize}
use kip_db.Error.{KernelError, KernelResult, ok, err, panic, ◌>>=◌}
use kip_db.MemTable.{
  MemMap, TableInner, check_key_conflict, insert_batch_data, find_with_sequence_id,
}
use kip_db.MemTable.LogIo.{Wal}
use kip_db.Sequence.{sequence_create}

-- A query of the snapshot's version with the sending of a miss, `query_and_compaction`.
abbrev pub DiskQuery : Type 0
DiskQuery = Bytes → KernelResult (Option KeyValue)

pub data CheckType : Type 0 where
  optimistic : CheckType

pub record Transaction : Type 0 where
  pub disk : DiskQuery
  pub seq_id : ℤ
  pub check_type : CheckType
  pub write_buf : Option (List KeyValue)

-- What transactions share: the memory table, the count of transactions and that of numbers.
module _ (sm : MemMap) (wal : Wal) where
  pub record Shared : Type 0 where
    pub inner : TableInner sm wal
    pub tx_count : ℕ
    pub seq_count : ℤ

abbrev value_of : Option KeyValue → Option Bytes
value_of none = none
value_of (some (_, value)) = value

unfoldable pub write_buf_or_init : Transaction → List KeyValue
write_buf_or_init tx = elim tx.write_buf [ none ↦ [] | some buf ↦ buf ]

-- `write_buf_or_init().insert(key, value)`
unfoldable pub buffer : Transaction → Bytes → Option Bytes → Transaction
unfolding write_buf_or_init
buffer tx key value = record tx {
  write_buf = some (SortedMap.insert key value (write_buf_or_init tx));
}

unfoldable pub set : Transaction → Bytes → Bytes → Transaction
unfolding buffer
set tx key value = buffer tx key (some value)

abbrev pub written : Transaction → Bytes → Option (Option Bytes)
written tx key = elim tx.write_buf [ none ↦ none | some buf ↦ SortedMap.get key buf ]

module _ {sm : MemMap} {wal : Wal} where
  -- `Transaction::new`
  unfoldable pub begin : Shared sm wal → CheckType → DiskQuery → Shared sm wal × Transaction
  unfolding sequence_create
  begin s check_type disk =
      let (seq_id, count) = sequence_create s.seq_count in
      (
        record s { tx_count = add_usize s.tx_count 1; seq_count = count },
        record { disk = disk; seq_id = seq_id; check_type = check_type; write_buf = none },
      )

  unfoldable pub get : Shared sm wal → Transaction → Bytes → KernelResult (Option Bytes)
  get s tx key = elim (written tx key) [
    | some value ↦ ok value
    | none ↦ elim (find_with_sequence_id s.inner key tx.seq_id) [
      | some (_, value) ↦ ok value
      | none ↦ do found ← tx.disk key; ok (value_of found)
    ]
  ]

  unfoldable pub remove :
      Shared sm wal → Transaction → Bytes → Transaction × KernelResult (Unit {0})
  unfolding get buffer
  remove s tx key = elim (get s tx key) [
    | ok (some _) ↦ (buffer tx key none, ok tt)
    | ok none ↦ (tx, err KernelError.key_not_found)
    | err e ↦ (tx, err e)
    | panic ↦ (tx, panic)
  ]

  -- The body of `commit`; `closed` tells whether the channel to the compactor is closed.
  unfoldable pub commit_body :
      VarInt → Bool → Shared sm wal → Transaction → Shared sm wal × KernelResult (Unit {0})
  unfolding sequence_create
  commit_body varint closed s tx = elim tx.write_buf [
    | none ↦ (s, ok tt)
    | some batch_data ↦
        if check_key_conflict s.inner batch_data tx.seq_id
        then (s, err KernelError.repeated_write)
        else (let (seq_id, count) = sequence_create s.seq_count in
            let (inner, inserted) = insert_batch_data varint s.inner batch_data seq_id in
            (
              record s { inner = inner; seq_count = count },
              inserted >>= λ is_exceeds.
                  if is_exceeds && closed then err KernelError.channel_close else ok tt,
            ))
  ]

  -- `drop`: the transaction counts no longer.
  unfoldable pub drop : Shared sm wal → Shared sm wal
  drop s = record s { tx_count = sub_usize s.tx_count 1 }

  -- `commit` takes the transaction, which is dropped when it ends.
  unfoldable pub commit :
      VarInt → Bool → Shared sm wal → Transaction → Shared sm wal × KernelResult (Unit {0})
  unfolding commit_body drop
  commit varint closed s tx = let (s', result) = commit_body varint closed s tx in (drop s', result)
