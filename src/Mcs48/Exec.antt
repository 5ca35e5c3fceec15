-- ===== src/Mcs48/Exec.antt =====
-- The instructions of the MCS-48 that work on the pins, and `mcs48_step` with its interrupts.
use s_qlux.Base.{ℕ, ◌+◌, ◌/◌, ◌%◌, ◌^◌, bit_and, bit_or, ◌==◌, if◌then◌else◌}
use s_qlux.Base.{Bool, true, false, not, none, some}
use s_qlux.Word.{test}
use s_qlux.State.{St, Do, ◌>>=◌, ◌>>◌, pure, gets, modify, skip}
use s_qlux.Mcs48.{
  Pins, Mcs48, cy, f0, fetch, reg_at, set_a, push_pc, pull_pc, jcc, jmp_call, ask, tell, port_in,
  port_out, write_bus, t_in, int_asserted,
}
use s_qlux.Mcs48.Timer.{timer_tick}
use s_qlux.Mcs48.Ops.{
  is_ind, is_reg, one, two, jump_if, accumulator, registers, flags, return_irq, jump_indirect,
  count_down, jump_timer,
}

module _ {D : Type 0} ⦃io : Pins D⦄ where
  abbrev pub jump_pin : ℕ → Bool → St (Mcs48 D) ℕ
  jump_pin t level = two (do v ← t_in t; jcc (if level then not (v == 0) else v == 0))

  unfoldable pub external : ℕ → St (Mcs48 D) ℕ → St (Mcs48 D) ℕ
  unfolding reg_at
  external op other =
      if is_ind 0x80 op
      then (λ c.
          two
            (do
              v ← (elim io.movx_rd [
                | none ↦ pure 0xff
                | some f ↦ ask (some (f (c.ram (reg_at c (bit_and op 1))))) 0xff
              ])
              set_a v)
            c)
      else if is_ind 0x90 op
      then (λ c.
          two
            (elim io.movx_wr [
              | none ↦ skip
              | some f ↦ tell (some (f (c.ram (reg_at c (bit_and op 1))))) c.a
            ])
            c)
      else other

  unfoldable pub branches : ℕ → St (Mcs48 D) ℕ → St (Mcs48 D) ℕ
  unfolding jmp_call pull_pc return_irq jump_indirect count_down jcc t_in jump_timer int_asserted
  branches op other =
      if bit_and op 0x1f == 0x04
      then two (jmp_call op false)
      else if bit_and op 0x1f == 0x14
      then two (jmp_call op true)
      else if op == 0x83
      then two (pull_pc false)
      else if op == 0x93
      then two return_irq
      else if op == 0xb3
      then two jump_indirect
      else if is_reg 0xe8 op
      then two (count_down op)
      else if op == 0xf6
      then jump_if (λ c. test c.psw cy)
      else if op == 0xe6
      then jump_if (λ c. not (test c.psw cy))
      else if op == 0xc6
      then jump_if (λ c. c.a == 0)
      else if op == 0x96
      then jump_if (λ c. not (c.a == 0))
      else if op == 0x36
      then jump_pin 0 true
      else if op == 0x26
      then jump_pin 0 false
      else if op == 0x56
      then jump_pin 1 true
      else if op == 0x46
      then jump_pin 1 false
      else if op == 0xb6
      then jump_if (λ c. test c.psw f0)
      else if op == 0x76
      then jump_if (λ c. c.f1)
      else if op == 0x16
      then two jump_timer
      else if op == 0x86
      then two (do b ← int_asserted; jcc b)
      else if bit_and op 0x1f == 0x12
      then jump_if (λ c. test (c.a / 2 ^ (op / 2 ^ 5)) 1)
      else other

  unfoldable pub timers : ℕ → St (Mcs48 D) ℕ → St (Mcs48 D) ℕ
  unfolding t_in
  timers op other =
      if op == 0x42
      then one (modify (λ c. record c { a = c.timer }))
      else if op == 0x62
      then one (modify (λ c. record c { timer = c.a }))
      else if op == 0x55
      then one (modify (λ c. record c { timer_on = true; counter_on = false; prescaler = 0 }))
      else if op == 0x45
      then one (do
        modify (λ c. record c { counter_on = true; timer_on = false })
        v ← t_in 1
        modify (λ c. record c { last_t1 = not (v == 0) }))
      else if op == 0x65
      then one (modify (λ c. record c { timer_on = false; counter_on = false }))
      else if op == 0x25
      then one (modify (λ c. record c { tirq_en = true }))
      else if op == 0x35
      then one (modify (λ c. record c { tirq_en = false; timer_irq_pending = false }))
      else if op == 0x05
      then one (modify (λ c. record c { xirq_en = true }))
      else if op == 0x15
      then one (modify (λ c. record c { xirq_en = false }))
      else if op == 0x75
      then one skip
      else other

  -- `port_out(c, p, latch op fetch(c))`; the latch does not change while a byte is fetched.
  abbrev pub port_data : ℕ → (ℕ → ℕ → ℕ) → St (Mcs48 D) ℕ
  port_data p f =
      two (do v ← fetch; latch ← gets (λ c. if p == 1 then c.p1 else c.p2); port_out p (f latch v))

  abbrev pub bus_data : (ℕ → ℕ → ℕ) → St (Mcs48 D) ℕ
  bus_data f = two (do v ← fetch; latch ← gets (λ c. c.bus); write_bus (f latch v))

  -- The last three lines are those of the 8243 expander, which the QL does not have.
  unfoldable pub ports : ℕ → St (Mcs48 D) ℕ → St (Mcs48 D) ℕ
  unfolding fetch port_in port_out write_bus
  ports op other =
      if op == 0x08
      then two (do v ← ask io.bus_in 0xff; set_a v)
      else if op == 0x09
      then two (do v ← port_in 1; set_a v)
      else if op == 0x0a
      then two (do v ← port_in 2; set_a v)
      else if op == 0x02
      then two (λ c. write_bus c.a c)
      else if op == 0x39
      then two (λ c. port_out 1 c.a c)
      else if op == 0x3a
      then two (λ c. port_out 2 c.a c)
      else if op == 0x88
      then bus_data bit_or
      else if op == 0x98
      then bus_data bit_and
      else if op == 0x89
      then port_data 1 bit_or
      else if op == 0x8a
      then port_data 2 bit_or
      else if op == 0x99
      then port_data 1 bit_and
      else if op == 0x9a
      then port_data 2 bit_and
      else if bit_and op 0xfc == 0x0c
      then two (set_a 0x0f)
      else if bit_and op 0xfc == 0x3c
      then two skip
      else if bit_and op 0xfc == 0x8c
      then two skip
      else if bit_and op 0xfc == 0x9c
      then two skip
      else other

  -- The switch: an undefined opcode is a NOP.
  unfoldable pub execute : ℕ → St (Mcs48 D) ℕ
  unfolding accumulator registers external flags branches timers ports
  execute op =
      accumulator op
        (registers op (external op (flags op (branches op (timers op (ports op (one skip)))))))

  -- The vector of the interrupt to take: the external one first. 0 stands for none.
  unfoldable pub irq_vector : St (Mcs48 D) ℕ
  unfolding int_asserted
  irq_vector c =
      if c.in_irq
      then (0, c)
      else (let (low, c') : Bool × Mcs48 D = if c.xirq_en then int_asserted c else (false, c) in
          if low
          then (3, c')
          else if c'.timer_irq_pending
          then (7, record c' { timer_irq_pending = false })
          else (0, c'))

  abbrev pub charge : ℕ → Do (Mcs48 D)
  charge n = do modify (λ c. record c { cycles = (c.cycles + n) % 2 ^ 64 }); timer_tick n

  -- `mcs48_step`, with the machine cycles it took.
  unfoldable pub step : St (Mcs48 D) ℕ
  unfolding irq_vector push_pc timer_tick fetch execute
  step = do
    vector ← irq_vector
    if vector == 0
        then (do op ← fetch; n ← execute op; charge n; pure n)
        else (do push_pc; modify (λ c. record c { pc = vector; in_irq = true }); charge 2; pure 2)
