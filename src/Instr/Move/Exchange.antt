-- ===== src/Instr/Move/Exchange.antt =====
-- EXG and SWAP undo themselves.
use s_qlux.Base.{ℕ, ◌^◌, ◌<◌, ◌≡◌, arith}
use s_qlux.Machine.{Cpu, ea_reg}
use s_qlux.Instr.Move.{exchange, exg_d, exg_a, exg_ad}
use s_qlux.Instr.MulDiv.{swap_halves}

-- Each form of EXG done twice leaves every register as it was.
pub exchange_twice :
    {D : Type 0} (c : Cpu D) (k : ℕ)
    → ((exg_d (exg_d c).1).1.reg k ≡ c.reg k)
      × ((exg_a (exg_a c).1).1.reg k ≡ c.reg k)
      × ((exg_ad (exg_ad c).1).1.reg k ≡ c.reg k)
unfolding exg_d exg_a exg_ad exchange
exchange_twice c k = (ground arith, ground arith, ground arith)

-- SWAP done twice leaves a register of 32 bits as it was.
pub swap_halves_twice :
    {D : Type 0} (c : Cpu D)
    → c.reg (ea_reg c.code) < 2 ^ 32
    → (swap_halves (swap_halves c).1).1.reg (ea_reg c.code) ≡ c.reg (ea_reg c.code)
unfolding swap_halves
swap_halves_twice c h = ground arith
