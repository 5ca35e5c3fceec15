-- ===== src/Instr/Flow/Calls.antt =====
-- Calls and returns: what BSR, JSR and the exceptions push is what RTS and RTE take back.
use s_qlux.Base.{ℕ, ◌-◌, ◌%◌, ◌^◌, ◌≤◌, ◌<◌, ◌≡◌, arith}
use s_qlux.Word.{long, sub32}
use s_qlux.Machine.{Cpu, update}
use s_qlux.Device.{Bus}
use s_qlux.Memory.{poke_long, write_long}
use s_qlux.Memory.Ram.{IsRam, mask_addr-eq, is_odd-eq, poke-peek_long}
use s_qlux.Memory.Stack.{write_size-shape, read_size-shape}
use s_qlux.Instr.Move.{push_long}
use s_qlux.Instr.Flow.Jumps.{rts, pop_stack}
use s_qlux.Instr.Flow.Frames.{moved-IsRam}

module _ {D : Type 0} ⦃bus : Bus D⦄ where
  -- RTS after a push of an even address below 2 ^ 24, with an even stack pointer and the address
  -- in RAM: the program goes on at that address, and every register, the stack pointer among
  -- them, is as it was before the push.
  pub rts-push_long :
      (c : Cpu D) (v j : ℕ)
      → 4 ≤ c.reg 15
      → c.reg 15 < 2 ^ 32
      → c.reg 15 % 2 ≡ 0
      → IsRam c (c.reg 15 - 4)
      → v % 2 ≡ 0
      → v < 2 ^ 24
      → let c' = (rts (push_long v c).1).1 in
        (c'.pc ≡ v) × (c'.reg j ≡ c.reg j) × (c'.ccr ≡ c.ccr) × (c'.exception ≡ c.exception)
  unfolding rts push_long pop_stack
  rts-push_long c v j h1 h2 h3 h4 h5 h6 =
      let a = c.reg 15 - 4 in
      let ea : sub32 (c.reg 15) 4 ≡ a = omega arith in
      let even : a % 2 ≡ 0 = omega arith in
      let c1 = record c { reg = update c.reg 15 a } in
      let ram = moved-IsRam c c1.reg c.mem c.dev a h4 in
      let d = (write_long a v c1).1.dev in
      let c2 = record c1 { mem = poke_long c.mem a v; dev = d } in
      let ram2 = moved-IsRam c c2.reg c2.mem d a h4 in
      rw
        (
          ea,
          write_size-shape long c1 a v ram even,
          read_size-shape long c2 a ram2 even,
          poke-peek_long c.mem a v (omega arith),
        )
        (ground (arith, mask_addr-eq v h6, is_odd-eq v))
