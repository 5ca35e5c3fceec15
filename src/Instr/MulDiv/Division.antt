-- ===== src/Instr/MulDiv/Division.antt =====
-- DIVU, MULU and MULS against exact division and multiplication (instructions_ao.c).
use s_qlux.Base.{ℕ, ◌+◌, ◌*◌, ◌/◌, ◌%◌, ◌^◌, ◌≤◌, ◌<◌, ◌≡◌, ◌⊎◌, arith}
use s_qlux.Base.{true, false}
use native.Mathlib.Nat.{div-add-mod', mod-lt}
use s_qlux.Machine.{Cpu}
use s_qlux.Instr.MulDiv.{divu_by, put_quotient}

-- DIVU of a register of 32 bits by a word that is not 0. Where the quotient fits a word, the
-- register has the quotient in its low word and the remainder, which is below the divisor, in its
-- high word, and V is clear; where it does not, V is set and the register is as it was.
pub divu_by_lem :
    {D : Type 0} (n s : ℕ) (c : Cpu D)
    → 0 < s
    → s < 2 ^ 16
    → c.reg n < 2 ^ 32
    → let c' = (divu_by n s c).1 in
      let q = c'.reg n % 2 ^ 16 in
      let r = c'.reg n / 2 ^ 16 in
      ((c.reg n / s < 2 ^ 16) × (c'.ccr.overflow ≡ false) × (q * s + r ≡ c.reg n) × (r < s))
      ⊎ ((2 ^ 16 ≤ c.reg n / s) × (c'.ccr.overflow ≡ true) × (c'.reg n ≡ c.reg n))
unfolding divu_by put_quotient
divu_by_lem n s c h0 h1 h2 =
    let e = div-add-mod' (c.reg n) s in let lt = mod-lt (c.reg n) h0 in ground arith
