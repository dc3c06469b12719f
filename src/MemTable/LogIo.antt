-- ===== src/MemTable/LogIo.antt =====
-- The log writer and loader as the memory table uses them (src/kernel/lsm/log.rs, io/mod.rs): an
-- interface, whose operations may fail and change the writer.
use kip_db.Base.Int.{ℤ}
use kip_db.Base.Order.{Bytes}
use kip_db.Error.{KernelResult}

pub record Wal : Type 1 where
  pub Writer : Type 0
  -- `LogLoader::writer`
  pub writer : ℤ → KernelResult Writer
  -- `LogWriter::add_record` and `LogWriter::flush`
  pub add_record : Bytes → Writer → Writer × KernelResult (Unit {0})
  pub flush : Writer → Writer × KernelResult (Unit {0})
