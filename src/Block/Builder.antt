-- ===== src/Block/Builder.antt =====
-- src/kernel/lsm/table/ss_table/block.rs: the builder that cuts sorted items into blocks.
pub mod Sorted
pub mod Keeps
mod Tests
use kip_db.Base.{
  ℕ, zero, suc, ◌+◌, Bool, true, false, Option, none, some, List, [], ◌∷◌, ◌++◌, leb, if◌then◌else◌,
}
use kip_db.Base.Lists.{length}
use kip_db.Base.Order.{Bytes, bytes_cmp, bytes_ord, is_lt}
use kip_db.Block.Compressed
use kip_db.Block.Compressed.{Block}
use kip_db.Block.Entry.{Value}
use kip_db.Error.{KernelResult, ok, err, panic, ◌>>=◌}

abbrev pub Item : Type 0
Item = Bytes × Value

-- `CompressType`
pub data CompressType : Type 0 where
  no_compression : CompressType
  lz4 : CompressType

pub record BlockOptions : Type 0 where
  pub block_size : ℕ
  pub compress_type : CompressType
  pub data_restart_interval : ℕ
  pub index_restart_interval : ℕ

-- `BlockOptions::new`
unfoldable pub default_options : BlockOptions
default_options = record {
  block_size = 4096;
  compress_type = CompressType.no_compression;
  data_restart_interval = 16;
  index_restart_interval = 2;
}

pub record BlockBuf : Type 0 where
  pub bytes_size : ℕ
  pub vec_key_value : List Item

pub record BlockBuilder : Type 0 where
  pub options : BlockOptions
  pub len : ℕ
  pub buf : BlockBuf
  pub vec_block : List (Block Value × Bytes)

unfoldable pub empty_buf : BlockBuf
empty_buf = record { bytes_size = 0; vec_key_value = [] }

unfoldable pub key_value_bytes_len : Item → ℕ
key_value_bytes_len (key, value) = length key + elim value.bytes [ none ↦ 0 | some b ↦ length b ]

abbrev pub last_of : List Item → Option Bytes
last_of [] = none
last_of (kv ∷ kvs) = elim kvs [ [] ↦ some kv.0 | _ ∷ _ ↦ last_of kvs ]

unfoldable pub last_key : BlockBuf → Option Bytes
last_key buf = last_of buf.vec_key_value

-- `BlockBuf::add`: the key must be greater than the last one.
unfoldable pub buf_add : Item → BlockBuf → KernelResult BlockBuf
unfolding last_key key_value_bytes_len
buf_add key_value buf =
    let added : BlockBuf = record {
      bytes_size = buf.bytes_size + key_value_bytes_len key_value;
      vec_key_value = buf.vec_key_value ++ key_value ∷ [];
    } in
    elim (last_key buf) [
      | none ↦ ok added
      | some last ↦ if is_lt last key_value.0 then ok added else panic
    ]

-- `BlockBuf::flush`
unfoldable pub flush : BlockBuf → BlockBuf × (List Item × Option Bytes)
unfolding last_key empty_buf
flush buf = (empty_buf, (buf.vec_key_value, last_key buf))

-- `BlockBuilder::new`
unfoldable pub create : BlockOptions → BlockBuilder
unfolding empty_buf
create options = record { options = options; len = 0; buf = empty_buf; vec_block = [] }

unfoldable pub is_out_of_byte : BlockBuilder → Bool
is_out_of_byte b = leb b.options.block_size b.buf.bytes_size

-- `_build`
unfoldable pub build_block : BlockBuilder → KernelResult BlockBuilder
unfolding flush
build_block b =
    let (buf, (vec_kv, last)) = flush b.buf in
    elim last [
      | none ↦ ok (record b { buf = buf })
      | some last_key ↦ Compressed.create vec_kv b.options.data_restart_interval >>= λ block.
          ok (record b { buf = buf; vec_block = b.vec_block ++ (block, last_key) ∷ [] })
    ]

unfoldable pub add : Item → BlockBuilder → KernelResult BlockBuilder
unfolding buf_add is_out_of_byte build_block
add key_value b = buf_add key_value b.buf >>= λ buf.
    let added : BlockBuilder = record b { buf = buf; len = b.len + 1 } in
    if is_out_of_byte added then build_block added else ok added
