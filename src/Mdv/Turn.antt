-- ===== src/Mdv/Turn.antt =====
-- A rotation of the cartridge in the selected drive (mdv.c), from the cycles of the CPU to the gap
-- interrupts.
use s_qlux.Base.{ℕ, zero, suc, ◌≡◌}
use s_qlux.Base.{if◌then◌else◌, Bool, List, [], ◌∷◌, ◌++◌}
use s_qlux.Word.{test}
use s_qlux.Device.{Signal}
use s_qlux.Device.Signal.{gap}
use s_qlux.Mdv.{Drive}
use s_qlux.Mdv.Registers.{Mdv}

-- The calls of `ql_trigger_gap_interrupt` after `k` more
pub with_gaps : List Signal → ℕ → List Signal
with_gaps calls zero = calls
with_gaps calls (suc k) = with_gaps calls k ++ gap ∷ []

-- The state `m'` has the drive and the calls that `k` block ends and the cycles leave.
record IsLed (i : ℕ) (calls : List Signal) (enabled : Bool) (s : ℕ × Drive) (m' : Mdv)
    : Type 0 where
  drive : m'.drives i ≡ s.1
  told : m'.signals ≡ (if enabled then with_gaps calls s.0 else calls)
  mask : test m'.irq_mask 1 ≡ enabled
