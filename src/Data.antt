-- ===== src/Data.antt =====
-- src/kernel/lsm/mem_table.rs: the key-value pair that every layer passes on, and its size; and
-- the machine arithmetic on `usize`.
use kip_db.Base.{ℕ, ◌+◌, ◌-◌, ◌%◌, ◌^◌, Option, none, some}
use kip_db.Base.Lists.{length}
use kip_db.Base.Order.{Bytes}

-- `None` is the tombstone of a removed key.
abbrev pub KeyValue : Type 0
KeyValue = Bytes × Option Bytes

-- `a + b` on `usize` and on `u64`, wrapping as a release build does.
abbrev pub add_usize : ℕ → ℕ → ℕ
add_usize a b = (a + b) % 2 ^ 64

-- `a - b`, which wraps below 0 in a release build.
abbrev pub sub_usize : ℕ → ℕ → ℕ
sub_usize a b = (a + (2 ^ 64 - b % 2 ^ 64)) % 2 ^ 64

abbrev pub value_len : Option Bytes → ℕ
value_len none = 0
value_len (some v) = length v

unfoldable pub key_value_bytes_len : KeyValue → ℕ
key_value_bytes_len (key, value) = add_usize (length key) (value_len value)
