-- ===== src/Mcs48/Length.antt =====
-- An instruction of the MCS-48 takes one or two machine cycles (mcs48.c).
use s_qlux.Base.{ℕ, ◌≤◌, ◌==◌, if◌then◌else◌, arith, Bool, true, false}
use s_qlux.Base.{Bool-cases, inl, inr}
use s_qlux.State.{St, Do, skip}
use s_qlux.Mcs48.{Pins, Mcs48, fetch}
use s_qlux.Mcs48.Ops.{one, two, accumulator, registers, flags}
use s_qlux.Mcs48.Exec.{external, branches, timers, ports, execute, step, irq_vector}

unfoldable pub IsShort : {D : Type 0} → St (Mcs48 D) ℕ → Type 0
IsShort {D} m = (c : Mcs48 D) → (1 ≤ (m c).0) × ((m c).0 ≤ 2)

module _ {D : Type 0} ⦃io : Pins D⦄ where
  two-IsShort : (m : Do (Mcs48 D)) → IsShort (two m)
  unfolding IsShort
  two-IsShort m c = (omega arith, omega arith)

  one-IsShort : (m : Do (Mcs48 D)) → IsShort (one m)
  unfolding IsShort
  one-IsShort m c = (omega arith, omega arith)

  if-IsShort :
      (b : Bool) (m n : St (Mcs48 D) ℕ) → IsShort m → IsShort n → IsShort (if b then m else n)
  if-IsShort true m n h k = h
  if-IsShort false m n h k = k

  accumulator-IsShort :
      (op : ℕ) (other : St (Mcs48 D) ℕ) → IsShort other → IsShort (accumulator op other)
  unfolding accumulator
  accumulator-IsShort op other h = search (if-IsShort, one-IsShort, two-IsShort) depth 60

  registers-IsShort :
      (op : ℕ) (other : St (Mcs48 D) ℕ) → IsShort other → IsShort (registers op other)
  unfolding registers
  registers-IsShort op other h = search (if-IsShort, one-IsShort, two-IsShort) depth 60

  external-IsShort : (op : ℕ) (other : St (Mcs48 D) ℕ) → IsShort other → IsShort (external op other)
  unfolding external IsShort
  external-IsShort op other h = search (if-IsShort, two-IsShort) depth 60

  flags-IsShort : (op : ℕ) (other : St (Mcs48 D) ℕ) → IsShort other → IsShort (flags op other)
  unfolding flags
  flags-IsShort op other h = search (if-IsShort, one-IsShort) depth 60

  branches-IsShort : (op : ℕ) (other : St (Mcs48 D) ℕ) → IsShort other → IsShort (branches op other)
  unfolding branches
  branches-IsShort op other h = search (if-IsShort, two-IsShort) depth 60

  timers-IsShort : (op : ℕ) (other : St (Mcs48 D) ℕ) → IsShort other → IsShort (timers op other)
  unfolding timers
  timers-IsShort op other h = search (if-IsShort, one-IsShort) depth 60

  ports-IsShort : (op : ℕ) (other : St (Mcs48 D) ℕ) → IsShort other → IsShort (ports op other)
  unfolding ports
  ports-IsShort op other h = search (if-IsShort, two-IsShort) depth 60

module _ (D : Type 0) ⦃io : Pins D⦄ where
  execute-IsShort : (op : ℕ) → IsShort {D = D} (execute op)
  unfolding execute
  execute-IsShort op = accumulator-IsShort op _ (
      registers-IsShort op _ (
        external-IsShort op _ (
          flags-IsShort op _
            (branches-IsShort op _ (timers-IsShort op _ (ports-IsShort op _ (one-IsShort skip)))))))

  -- `mcs48_step` takes one machine cycle or two.
  pub step-IsShort : IsShort {D = D} step
  unfolding step IsShort
  step-IsShort c =
      let v = irq_vector c in
      let f = fetch v.1 in
      elim (Bool-cases (v.0 == 0)) [
        | inl none_taken ↦ rw none_taken (execute-IsShort f.0 f.1)
        | inr taken ↦ rw taken (omega arith, omega arith)
      ]
