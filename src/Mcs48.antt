-- ===== src/Mcs48.antt =====
-- The MCS-48 microcontroller (mcs48.c, mcs48.h): the state of the core and its building blocks.
pub mod Start
pub mod Timer
pub mod Ops
pub mod Exec
pub mod Calls
pub mod Length
use s_qlux.Base.{
  ℕ, zero, suc, ◌+◌, ◌-◌, ◌*◌, ◌/◌, ◌%◌, ◌^◌, bit_and, bit_or, bit_xor, ltb, ◌==◌, if◌then◌else◌,
}
use s_qlux.Base.{Bool, true, false, not, ◌&&◌, ◌||◌, Option, none, some, to_ℕ}
use s_qlux.Word.{test}
use s_qlux.State.{St, Do, ◌>>=◌, ◌>>◌, pure, gets, modify, skip}
use s_qlux.Machine.{update}

-- `mcs48_io_t`: the callbacks, each of which may be missing. `D` is the state behind `ctx`.
pub record Pins (D : Type 0) : Type 0 where
  pub p1_in : Option (D → ℕ × D)
  pub p2_in : Option (D → ℕ × D)
  pub bus_in : Option (D → ℕ × D)
  pub p1_out : Option (ℕ → D → D)
  pub p2_out : Option (ℕ → D → D)
  pub bus_out : Option (ℕ → D → D)
  pub movx_rd : Option (ℕ → D → ℕ × D)
  pub movx_wr : Option (ℕ → ℕ → D → D)
  pub t0_in : Option (D → ℕ × D)
  pub t1_in : Option (D → ℕ × D)
  pub int_in : Option (D → ℕ × D)

-- `struct mcs48`, with the flags as conditions and what `ctx` points to as `ctx`.
pub record Mcs48 (D : Type 0) : Type 0 where
  pub rom : ℕ → ℕ
  pub rom_mask : ℕ
  pub ram : ℕ → ℕ
  pub ram_mask : ℕ
  pub pc : ℕ
  pub a : ℕ
  pub psw : ℕ
  pub f1 : Bool
  pub a11 : Bool
  pub a11_pending : Bool
  pub p1 : ℕ
  pub p2 : ℕ
  pub bus : ℕ
  pub timer : ℕ
  pub prescaler : ℕ
  pub timer_on : Bool
  pub counter_on : Bool
  pub tf : Bool
  pub timer_irq_pending : Bool
  pub last_t1 : Bool
  pub xirq_en : Bool
  pub tirq_en : Bool
  pub in_irq : Bool
  pub cycles : ℕ
  pub ctx : D

-- CY, AC, F0 and BS
abbrev pub cy : ℕ
cy = 0x80

abbrev pub ac : ℕ
ac = 0x40

abbrev pub f0 : ℕ
f0 = 0x20

abbrev pub bs : ℕ
bs = 0x10

-- `x & ~m` of a byte.
abbrev pub clear_bits : ℕ → ℕ → ℕ
clear_bits x m = bit_and x (0xff - m)

abbrev pub u8 : ℕ → ℕ
u8 x = x % 2 ^ 8

module _ {D : Type 0} where
  unfoldable pub fetch : St (Mcs48 D) ℕ
  fetch c = (
    c.rom (bit_and c.pc c.rom_mask),
    record c { pc = bit_or (bit_and c.pc 0x800) (bit_and (c.pc + 1) 0x7ff) },
  )

  -- The places in the RAM that `reg` and `ind` point to.
  unfoldable pub reg_at : Mcs48 D → ℕ → ℕ
  reg_at c r = (if test c.psw bs then 0x18 else 0) + r

  unfoldable pub ind_at : Mcs48 D → ℕ → ℕ
  unfolding reg_at
  ind_at c r = bit_and (c.ram (reg_at c r)) c.ram_mask

  abbrev pub poke : ℕ → ℕ → Do (Mcs48 D)
  poke i v = modify (λ c. record c { ram = update c.ram i v })

  abbrev pub set_a : ℕ → Do (Mcs48 D)
  set_a v = modify (λ c. record c { a = v })

  abbrev pub set_psw : ℕ → Do (Mcs48 D)
  set_psw v = modify (λ c. record c { psw = v })

  unfoldable pub push_pc : Do (Mcs48 D)
  push_pc = modify (λ c.
      let sp = bit_and c.psw 7 in
      record c {
        ram =
            update (update c.ram (8 + 2 * sp) (u8 c.pc)) (9 + 2 * sp)
              (u8 (bit_or (bit_and c.psw 0xf0) (bit_and (c.pc / 2 ^ 8) 0x0f)));
        psw = u8 (bit_or (bit_and c.psw 0xf8) (bit_and (sp + 1) 7));
      })

  unfoldable pub pull_pc : Bool → Do (Mcs48 D)
  pull_pc restore_psw = modify (λ c.
      let sp = bit_and (c.psw + 2 ^ 8 - 1) 7 in
      let hi = c.ram (9 + 2 * sp) in
      let psw = u8 (bit_or (bit_and c.psw 0xf8) sp) in
      record c {
        psw = if restore_psw then u8 (bit_or (bit_and hi 0xf0) (bit_and psw 0x0f)) else psw;
        pc = bit_or (bit_and hi 0x0f * 2 ^ 8) (c.ram (8 + 2 * sp));
      })

  -- `add`: CY and AC are the carries out of bits 7 and 3.
  unfoldable pub add : ℕ → Bool → Do (Mcs48 D)
  add v carry = modify (λ c.
      let cin = if carry then (if test c.psw cy then 1 else 0) else 0 in
      let r = c.a + v + cin in
      let h = bit_and c.a 0x0f + bit_and v 0x0f + cin in
      record c {
        psw = u8 (
            bit_or (bit_or (clear_bits c.psw (cy + ac)) (if ltb 0xff r then cy else 0))
              (if ltb 0x0f h then ac else 0));
        a = u8 r;
      })

  -- A conditional jump within the page of the address byte.
  unfoldable pub jcc : Bool → Do (Mcs48 D)
  unfolding fetch
  jcc cond = do
    page ← gets (λ c. bit_and c.pc 0xf00)
    target ← fetch
    if cond then modify (λ c. record c { pc = bit_or page target }) else skip

  -- A11 comes from the memory bank flip-flop, except in interrupts.
  unfoldable pub jmp_call : ℕ → Bool → Do (Mcs48 D)
  unfolding fetch push_pc
  jmp_call op call = do
    lo ← fetch
    if call then push_pc else skip
    modify (λ c.
        let bank = if (if c.in_irq then false else c.a11) then 0x800 else 0 in
        record c { pc = bit_or (bit_or (bit_and op 0xe0 * 2 ^ 3) lo) bank })

-- A callback that answers, with what a missing one stands for, and one that is told a value.
module _ {D : Type 0} where
  abbrev pub ask : Option (D → ℕ × D) → ℕ → St (Mcs48 D) ℕ
  ask none missing c = (missing, c)
  ask (some f) missing c = let (v, d) = f c.ctx in (v, record c { ctx = d })

  abbrev pub tell : Option (ℕ → D → D) → ℕ → Do (Mcs48 D)
  tell none v c = (tt, c)
  tell (some f) v c = (tt, record c { ctx = f v c.ctx })

module _ {D : Type 0} ⦃io : Pins D⦄ where
  -- An output latch at 1 lets the pin be read.
  unfoldable pub port_in : ℕ → St (Mcs48 D) ℕ
  port_in p =
      if p == 1
      then (do v ← ask io.p1_in 0xff; gets (λ c. bit_and c.p1 v))
      else (do v ← ask io.p2_in 0xff; gets (λ c. bit_and c.p2 v))

  unfoldable pub port_out : ℕ → ℕ → Do (Mcs48 D)
  port_out p v =
      if p == 1
      then (do modify (λ c. record c { p1 = v }); tell io.p1_out v)
      else (do modify (λ c. record c { p2 = v }); tell io.p2_out v)

  unfoldable pub write_bus : ℕ → Do (Mcs48 D)
  write_bus v = do modify (λ c. record c { bus = v }); tell io.bus_out v

  unfoldable pub t_in : ℕ → St (Mcs48 D) ℕ
  t_in t = if t == 0 then ask io.t0_in 0 else ask io.t1_in 0

  -- A missing callback is a pin that is not asserted.
  unfoldable pub int_asserted : St (Mcs48 D) Bool
  int_asserted = do v ← ask io.int_in 1; pure (v == 0)
