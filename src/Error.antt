-- ===== src/Error.antt =====
-- src/error.rs: the error type, and `KernelResult`. A panic of the code is a value as well. The
-- payloads of the wrapped errors of other crates are left out.

use kip_db.Base.{◌≡◌, refl}

pub data KernelError : Type 0 where
  io recv_error send_compact_task_error send_clean_tag_error serde_bin_code : KernelError
  key_not_found data_empty level_over not_match_cmd crc_mis_match : KernelError
  cache_size_over_flow cache_sharding_not_align file_not_found wal_load : KernelError
  unexpected_command_type process_exists channel_close not_support : KernelError
  sharding_not_align repeated_write : KernelError

-- `panic` stands for an index out of bounds, a failed `assert!` or `unwrap`, and the like.
pub data KernelResult {ℓ} (A : Type ℓ) : Type ℓ where
  ok : A → KernelResult A
  err : KernelError → KernelResult A
  panic : KernelResult A

infixl 5 ◌>>=◌ ◌>>◌
abbrev pub ◌>>=◌ {ℓ κ} :
    {A : Type ℓ} {B : Type κ} → KernelResult A → (A → KernelResult B) → KernelResult B
ok a >>= f = f a
err e >>= f = err e
panic >>= f = panic

abbrev pub ◌>>◌ {ℓ} : {B : Type ℓ} → KernelResult (Unit {0}) → KernelResult B → KernelResult B
m >> k = m >>= λ _. k

-- To split on a computed result and keep the equation.
pub data ResultCases {ℓ} {A : Type ℓ} (r : KernelResult A) : Type ℓ where
  is_ok : (a : A) → r ≡ ok a → ResultCases r
  is_err : (e : KernelError) → r ≡ err e → ResultCases r
  is_panic : r ≡ panic → ResultCases r

pub split_result {ℓ} : {A : Type ℓ} (r : KernelResult A) → ResultCases r
split_result (ok a) = is_ok a refl
split_result (err e) = is_err e refl
split_result panic = is_panic refl
