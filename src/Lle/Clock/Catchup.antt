-- ===== src/Lle/Clock/Catchup.antt =====
-- `run_until` (ipc.c) brings the 8049 to its target, and past it by less than an instruction.
use s_qlux.Base.{ℕ, zero, suc, ◌+◌, ◌*◌, ◌^◌, ◌≤◌, ◌<◌, ltb}
use s_qlux.Base.{some, ◌≡◌, refl, arith, Bool-cases, inl, inr, ltb-false}
use s_qlux.Mcs48.Length.{IsShort, step-IsShort}
use s_qlux.Lle.{Wires, units_per_second}
use s_qlux.Lle.Pins.{pins}
use s_qlux.Lle.Clock.{Ipc, run_step, run_loop, run_until, skip_pause}

-- Far from the end of the clock of 64 bits
abbrev pub clock_limit : ℕ
clock_limit = 2 ^ 63

run_step-units :
    (s : Ipc)
    → s.units < clock_limit
    → (s.units + 225 ≤ (run_step s).units) × ((run_step s).units ≤ s.units + 450)
unfolding run_step IsShort
run_step-units s small =
    let short = step-IsShort Wires ⦃io = pins s.units s.core.p1 s.core.p2⦄ s.core in
    (omega arith, omega arith)

-- The time that was to be reached is, and is passed by 450 units, two machine cycles, at most.
pub record IsCaughtUp (target : ℕ) (s : Ipc) : Type 0 where
  pub reached : target ≤ s.units
  pub near : s.units < target + 450

run_loop-returns :
    (rounds target : ℕ) (s : Ipc)
    → target < clock_limit
    → s.units < target + 450
    → target ≤ s.units + 225 * rounds
    → (s' : Ipc) × ((run_loop (suc rounds) target s ≡ some s') × IsCaughtUp target s')
unfolding run_loop
run_loop-returns (suc rounds) target s small near enough = elim (Bool-cases (ltb s.units target)) [
  | inl behind ↦
      (let less : s.units < target = ground arith in
        let moved = run_step-units s (omega arith) in
        rw behind (run_loop-returns rounds target (run_step s) small (omega arith) (omega arith)))
  | inr there ↦ rw there (s, (refl, record { reached = ground arith; near = near }))
]
run_loop-returns zero target s small near enough =
    rw (ltb-false s.units target (omega arith))
      (s, (refl, record { reached = omega arith; near = near }))

skip_pause-near :
    (target : ℕ) (s : Ipc)
    → target < clock_limit
    → s.units < target + 450
    → ((skip_pause target s).units < target + 450)
      × (target ≤ (skip_pause target s).units + units_per_second)
unfolding skip_pause
skip_pause-near target s small near = (ground arith, ground arith)

-- While the clock of the 8049 is far from its end and not ahead of the target by two machine cycles
-- or more, `run_until` returns, with the target reached and passed by less than two machine cycles.
pub run_until-IsCaughtUp :
    (target : ℕ) (s : Ipc)
    → target < clock_limit
    → s.units < target + 450
    → (s' : Ipc) × ((run_until target s ≡ some s') × IsCaughtUp target s')
unfolding run_until
run_until-IsCaughtUp target s small near =
    let start = skip_pause-near target s small near in
    run_loop-returns 733334 target (skip_pause target s) small start.0 (omega arith)
