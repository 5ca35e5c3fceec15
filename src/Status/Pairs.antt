-- ===== src/Status/Pairs.antt =====
-- The conditions come in pairs (cond.h).
use s_qlux.Base.{ℕ, ◌+◌, ◌*◌, ◌<◌, ◌≡◌, arith, not}
use s_qlux.Machine.{Ccr}
use s_qlux.Status.{condition_true}

-- Of the sixteen conditions, each one with an odd number is the negation of the one before it.
pub condition_true-pairs :
    (k : ℕ) (f : Ccr) → k < 8 → condition_true (2 * k + 1) f ≡ not (condition_true (2 * k) f)
unfolding condition_true
condition_true-pairs k f h = ground arith
