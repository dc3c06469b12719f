-- ===== src/Block.antt =====
-- src/kernel/lsm/table/ss_table/block.rs
pub mod Entry
pub mod Prefix
pub mod Compressed
pub mod Builder
mod Tests
