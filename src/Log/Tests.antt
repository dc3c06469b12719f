-- ===== src/Log/Tests.antt =====
-- The log at concrete records, with a vector as the destination and as a file.
use mathlib.Core.List.{append_assoc, append-nil}
use kip_db.Base.{ℕ, ◌+◌, ◌%◌, ◌^◌, ◌≡◌, refl, none, some, List, [], ◌∷◌, ◌++◌, arith}
use kip_db.Base.Lists.{length}
use kip_db.Base.Order.{Bytes}
use kip_db.Codec.{Crc32}
use kip_db.Codec.Little.{little_fixed}
use kip_db.Error.{ok, KernelResult}
use kip_db.Log.{Io, LogWriter, create, load, read_loop, default_block_size}
use kip_db.Log.Frames.{Takes}
use kip_db.Log.Recovery.{add_all, load-add_all}
use kip_db.Log.RoundTrip.{at}
use kip_db.Log.Torn.{read_loop-torn}

abbrev vec : Io
vec = record {
  Dst = Bytes;
  write = λ b d. (d ++ b, ok (length b));
  write_all = λ b d. (d ++ b, ok tt);
  flush = λ d. (d, ok tt);
}

abbrev vec_takes : Takes vec
vec_takes = record {
  append = λ b d. d ++ b;
  append-nil = append-nil;
  append-append = λ b c d. append_assoc d b c;
  contents = λ d. d;
  contents-append = λ b d. refl;
  write-append = λ b d. refl;
  write_all-append = λ b d. refl;
}

abbrev sum : Bytes → ℕ
sum [] = 0
sum (x ∷ b) = x + sum b

abbrev sums : Crc32
sums = record { hash = λ b. sum b % 2 ^ 32; hash-lt = λ b. omega arith }

abbrev keep : Bytes → List Bytes → KernelResult (List Bytes)
keep b records = ok (records ++ b ∷ [])

abbrev records : List Bytes
records = (1 ∷ 2 ∷ 3 ∷ []) ∷ (4 ∷ []) ∷ []

load-add_all_example :
    (w : LogWriter vec) × (add_all sums little_fixed (create []) records ≡ some w)
    × (load sums little_fixed keep (vec_takes.contents w.dst) [] ≡ some (ok records))
load-add_all_example =
    load-add_all sums little_fixed vec_takes keep [] records [] refl
      (omega arith, (omega arith, tt))

read_loop-torn_example :
    read_loop sums little_fixed 100 (at default_block_size 0 (1 ∷ 0 ∷ [])) [] 0 [] ≡ none
read_loop-torn_example =
    read_loop-torn sums little_fixed default_block_size 0 (omega arith) 100 0 [] (1 ∷ 0 ∷ [])
      (omega arith) (omega arith)
