-- ===== src/Dispatch/Entries.antt =====
-- Runs of table entries as `SetTable` writes them: `n` entries `m` apart, and runs of runs.
use s_qlux.Base.{ℕ, zero, suc, ◌+◌, ◌-◌, ◌==◌, leb, Bool, false, ◌&&◌}
use s_qlux.Base.{◌||◌, ◌≡◌, refl, arith}

unfoldable pub in_run : ℕ → ℕ → ℕ → ℕ → Bool
in_run zero m0 p k = false
in_run (suc n) m0 p k = (k == p) || in_run n m0 (p + m0) k

unfoldable pub in_runs : ℕ → ℕ → ℕ → ℕ → ℕ → ℕ → Bool
unfolding in_run
in_runs zero m c1 m0 c k = false
in_runs (suc n) m c1 m0 c k = in_run c1 m0 c k || in_runs n m c1 m0 (c + m) k

-- The position after `n` steps
unfoldable pub after : ℕ → ℕ → ℕ → ℕ
after zero m p = p
after (suc n) m p = after n m (p + m)

add_right_comm : (a b c : ℕ) → a + b + c ≡ a + c + b
add_right_comm a b c = omega arith

zero_add : (n : ℕ) → 0 + n ≡ n
zero_add n = omega arith

suc_add : (n m : ℕ) → suc n + m ≡ suc (n + m)
suc_add n m = omega arith

pub after-shift : (n m p h : ℕ) → after n m (p + h) ≡ after n m p + h
unfolding after
after-shift zero m p h = refl
after-shift (suc n) m p h = rw (add_right_comm p h m) (after-shift n m (p + m) h)

pub after-+ : (n n2 m p : ℕ) → after (n + n2) m p ≡ after n2 m (after n m p)
unfolding after
after-+ zero n2 m p = rw (zero_add n2) refl
after-+ (suc n) n2 m p = rw (suc_add n n2) (after-+ n n2 m (p + m))

pub in_run-+ :
    (n n2 m0 p k : ℕ) → in_run (n + n2) m0 p k ≡ (in_run n m0 p k || in_run n2 m0 (after n m0 p) k)
unfolding in_run after
in_run-+ zero n2 m0 p k = rw (zero_add n2) refl
in_run-+ (suc n) n2 m0 p k = rw (suc_add n n2) (ground (arith, in_run-+ n n2 m0 (p + m0) k))

pub in_runs-+ :
    (n n2 m c1 m0 c k : ℕ)
    → in_runs (n + n2) m c1 m0 c k ≡ (in_runs n m c1 m0 c k || in_runs n2 m c1 m0 (after n m c) k)
unfolding in_runs after
in_runs-+ zero n2 m c1 m0 c k = rw (zero_add n2) refl
in_runs-+ (suc n) n2 m c1 m0 c k =
    rw (suc_add n n2) (ground (arith, in_runs-+ n n2 m c1 m0 (c + m) k))

pub in_run-shift : (n m0 p h k : ℕ) → in_run n m0 (p + h) k ≡ (leb h k && in_run n m0 p (k - h))
unfolding in_run
in_run-shift zero m0 p h k = ground arith
in_run-shift (suc n) m0 p h k =
    rw (add_right_comm p h m0) ground (arith, in_run-shift n m0 (p + m0) h k)

pub in_runs-shift :
    (n m c1 m0 c h k : ℕ) → in_runs n m c1 m0 (c + h) k ≡ (leb h k && in_runs n m c1 m0 c (k - h))
unfolding in_runs
in_runs-shift zero m c1 m0 c h k = ground arith
in_runs-shift (suc n) m c1 m0 c h k =
    rw (add_right_comm c h m) ground
      (arith, in_run-shift c1 m0 c h k, in_runs-shift n m c1 m0 (c + m) h k)
