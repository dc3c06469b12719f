-- ===== src/Block/Builder/Tests.antt =====
-- A builder with small blocks.
use kip_db.Base.{◌≡◌, refl, some, List, [], ◌∷◌, arith}
use kip_db.Block.Builder.{Item, BlockOptions, BlockBuilder, CompressType, create}
use kip_db.Block.Builder.Keeps.{IsBuilt, add_all, add_all-IsBuilt}
use kip_db.Block.Entry.{Value}
use kip_db.Error.{ok}

abbrev value : Value
value = record { value_len = 1; bytes = some (7 ∷ []) }

abbrev items : List Item
items = (1 ∷ 1 ∷ [], value) ∷ (1 ∷ 2 ∷ [], value) ∷ (3 ∷ [], value) ∷ []

abbrev small : BlockOptions
small = record {
  block_size = 6;
  compress_type = CompressType.no_compression;
  data_restart_interval = 2;
  index_restart_interval = 2;
}

add_all-IsBuilt_example :
    (b : BlockBuilder) × (add_all items (create small) ≡ ok b) × IsBuilt items b
add_all-IsBuilt_example =
    add_all-IsBuilt items small (omega arith) ((refl, (refl, tt)), ((refl, tt), (tt, tt)))
