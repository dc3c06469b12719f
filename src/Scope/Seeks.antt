-- ===== src/Scope/Seeks.antt =====
-- `seeks_increase`: the miss counter fires and starts again.
use kip_db.Base.{ℕ, zero, suc, ◌<◌, ◌≤◌, ◌≡◌, Bool, true, false, some, arith}
use kip_db.Scope.{Scope, seeks_increase, seek_compaction_count}

-- Misses one after the other, with no other thread in between: the scope after them, and whether
-- the last of them fired.
abbrev pub misses : ℕ → Scope → Scope × Bool
misses zero s = (s, false)
misses (suc n) s = seeks_increase (λ seeks. seeks) (misses n s).0

counts :
    (n : ℕ) (s : Scope)
    → s.allowed_seeks ≡ some 0
    → n ≤ 101
    → ((misses n s).0 ≡ record s { allowed_seeks = some n }) × ((misses n s).1 ≡ false)
unfolding seeks_increase
counts zero s e h = ground arith
counts (suc n) s e h = let (same, quiet) = counts n s e (omega arith) in rw same (ground arith)

-- From a fresh counter the first 101 misses pass, and the 102nd fires and leaves the scope as it
-- was at first.
pub misses_fire :
    (n : ℕ) (s : Scope)
    → s.allowed_seeks ≡ some 0
    → n ≤ 101
    → ((misses n s).1 ≡ false) × (misses 102 s ≡ (s, true))
unfolding seeks_increase
misses_fire n s e h =
    let (same, quiet) = counts 101 s e (omega arith) in ((counts n s e h).1, rw same (ground arith))

-- A miss that fires has reset the counter, and no other thread has changed it between the two
-- steps; a counter that is not there never fires.
pub seeks_increase-fires :
    (other : ℕ → ℕ) (s : Scope)
    → (seeks_increase other s).1 ≡ true
    → (n : ℕ) × (s.allowed_seeks ≡ some n)
      × (seek_compaction_count < n)
      × ((seeks_increase other s).0.allowed_seeks ≡ some 0)
unfolding seeks_increase
seeks_increase-fires other s h = ground arith
