-- ===== src/Sequence.antt =====
-- src/kernel/lsm/storage.rs: the generators of sequence numbers and of file generations. The value
-- of the global counter is passed in and out.
use kip_db.Base.Int.{ℤ, i64_inc}

-- `Sequence::create`: `SEQ_COUNT.fetch_add(1)`. The number, and the new count.
unfoldable pub sequence_create : ℤ → ℤ × ℤ
sequence_create count = (count, i64_inc count)

-- `Gen::create`: `GEN_BUF.fetch_add(1)`.
unfoldable pub gen_create : ℤ → ℤ × ℤ
gen_create buf = (buf, i64_inc buf)
