-- ===== src/Lib.antt =====
-- KipDB, a log-structured key-value store in Rust (src/kernel/lsm). A write goes to a log and to
-- the memory table, whose trigger decides when it is flushed to a table file of level 0; a
-- background task merges tables into lower levels. A version is an immutable picture of the levels,
-- which reads and transactions hold on to; a cleaner deletes the files of dropped versions.
--
-- Files and the code they model (paths below src/kernel/lsm unless they start with src):
--   Error       src/error.rs: KernelError and KernelResult; a panic is a value as well
--   Data        the pairs of key and value of mem_table.rs, and sums on usize
--   Sequence    storage.rs: Sequence::create and Gen::create, the global counters passed in and out
--   Trigger     trigger.rs: both triggers and their factory
--   Scope       table/scope.rs: the key range of a table and its count of seek misses
--   Meta        table/meta.rs, version/meta.rs, version/edit.rs: statistics and edits
--   Block       table/ss_table/block.rs: entries, values and indices with their encoding
--     (Block/Entry), the common prefix of a restart group (Block/Prefix), blocks whose keys leave
--     it out, and the comparison with their entries (Block/Compressed), the builder up to the
--     blocks (Block/Builder)
--   BitVector, Bloom   src/kernel/utils/bloom_filter.rs: the vector of bits, and the filter
--   LruCache, ShardingLruCache   src/kernel/utils/lru_cache.rs: the cache, a linked list of nodes in
--     a heap with a map to them, and the cache in shards
--   BTreeTable  table/btree_table: the table in memory, its query and its iterator
--   Log         log.rs: the writer, the reader and load, over the list of a file's bytes
--   Merging     iterator/merging_iter.rs and iterator/mod.rs: the merging iterators
--   MemTable    mem_table.rs: find, writes of one item and of a batch, the conflict check, swap, and
--     the scan of a range (MemTable/Range), the iterator over a map (MemTable/MapIter)
--   Store       storage.rs and mod.rs: get, set, remove, len, is_empty, query_and_compaction
--   Store/Transaction   mvcc.rs: start, get, set, remove, commit and drop of a transaction, and its
--     iterator (Store/Transaction/Iter)
--   Version     version/mod.rs: the query of a key over the levels, apply and to_vec_edit
--   Cleaner     version/cleaner.rs: the listening loop and clean
-- Base holds lists, orders, i64, sorted association lists and the binary search of the standard
-- library; Codec holds the interfaces of variable-length integers, fixed integers and checksums,
-- and SkipMap that of the ordered map of the crate skiplist. MemTable/LogIo is the interface of the
-- log writer as the memory table calls it.
--
-- State is passed explicitly: a method that changes what a lock or an atomic guards takes the old
-- state and returns the new one with the result. Each operation is one step; where the source lets
-- go of a lock in between (between the conflict check and the insertion of a commit, from round to
-- round of a swap), what others do in between is either an argument (the counts and the table that
-- each round of swap meets, what other threads do to a scope's counter) or left out (commit).
-- Parameters are code of other crates, with the documented behaviour as laws, and, as interfaces, the
-- log writer, the table loader, the query of a version and the iterators over its tables. The
-- iterator of the table in memory is shown to meet the interface; those over table files and levels
-- are not. The runs of a store are lists of events, the tags that the cleaner receives are a list.
--
-- Arithmetic is that of a release build, which wraps. Two places keep to numbers that do not: the
-- block builder counts bytes and items without a bound, and in the log an underflow, which no file
-- that the writer makes leads to, is a panic.
--
-- Fuel: the decoding of a batch, the binary searches, the writer and the load of a log run on the
-- length of their input plus one, the loop of the merging iterator on the number of items left plus
-- one, the merge of a scan on the number of its items plus one, and the drop of a cache on the number
-- of its nodes plus one, which the theorems show to be enough; the iterator of a transaction runs on
-- fuel for which a bound is given. The loop of swap runs over the list of the rounds that it meets,
-- since its end depends on other threads.
--
-- Not modelled: files and memory maps, the server, the clients, the storages over sled and rocksdb,
-- the benchmarks; the bytes of a block, its LZ4 compression and its iterator, the table files, the
-- other iterators, the compactor, the version log, and the recovery of the memory table.
-- The sizes of a bloom filter are computed with floating-point numbers, and are arguments here.
pub mod Base
pub mod Data
pub mod Error
pub mod Trigger
pub mod Codec
pub mod Scope
pub mod Meta
pub mod BitVector
pub mod Bloom
pub mod BTreeTable
pub mod LruCache
pub mod ShardingLruCache
pub mod Block
pub mod Sequence
pub mod SkipMap
pub mod MemTable
pub mod Store
pub mod Cleaner
pub mod Version
pub mod Log
pub mod Merging
