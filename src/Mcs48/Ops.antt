-- ===== src/Mcs48/Ops.antt =====
-- The instructions of the MCS-48 that stay inside the core: the cases of the switch of `mcs48_step`
-- by its sections, each with the machine cycles that it takes.
use s_qlux.Base.{ℕ, ◌+◌, ◌-◌, ◌*◌, ◌/◌, ◌^◌, bit_and, bit_or, bit_xor, ltb, ◌==◌, if◌then◌else◌}
use s_qlux.Base.{Bool, true, false, not, ◌&&◌, ◌||◌}
use s_qlux.Word.{test}
use s_qlux.State.{St, Do, ◌>>=◌, ◌>>◌, gets, modify}
use s_qlux.Machine.{update}
use s_qlux.Mcs48.{Mcs48, cy, ac, f0, bs, clear_bits, u8, fetch, reg_at, ind_at, poke, set_a}
use s_qlux.Mcs48.{pull_pc, add, jcc}

-- `case n: case n + 1:` of an indirect operand and `case n: … case n + 7:` of a register.
abbrev pub is_ind : ℕ → ℕ → Bool
is_ind n op = bit_and op 0xfe == n

abbrev pub is_reg : ℕ → ℕ → Bool
is_reg n op = bit_and op 0xf8 == n

module _ {D : Type 0} where
  -- `*reg(c, op & 7)` and `*ind(c, op & 1)`
  abbrev pub reg_value : ℕ → St (Mcs48 D) ℕ
  reg_value op = gets (λ c. c.ram (reg_at c (bit_and op 7)))

  abbrev pub ind_value : ℕ → St (Mcs48 D) ℕ
  ind_value op = gets (λ c. c.ram (ind_at c (bit_and op 1)))

  -- Done in one machine cycle, or in two.
  abbrev pub one : Do (Mcs48 D) → St (Mcs48 D) ℕ
  one m c = (1, (m c).1)

  abbrev pub two : Do (Mcs48 D) → St (Mcs48 D) ℕ
  two m c = (2, (m c).1)

  -- An operation on A with the next byte, with an indirect operand or with a register.
  abbrev pub with_data : (ℕ → Do (Mcs48 D)) → St (Mcs48 D) ℕ
  with_data f = two (do v ← fetch; f v)

  abbrev pub with_ind : ℕ → (ℕ → Do (Mcs48 D)) → St (Mcs48 D) ℕ
  with_ind op f = one (do v ← ind_value op; f v)

  abbrev pub with_reg : ℕ → (ℕ → Do (Mcs48 D)) → St (Mcs48 D) ℕ
  with_reg op f = one (do v ← reg_value op; f v)

  abbrev pub and_a : ℕ → Do (Mcs48 D)
  and_a v = modify (λ c. record c { a = bit_and c.a v })

  abbrev pub or_a : ℕ → Do (Mcs48 D)
  or_a v = modify (λ c. record c { a = bit_or c.a v })

  abbrev pub xor_a : ℕ → Do (Mcs48 D)
  xor_a v = modify (λ c. record c { a = bit_xor c.a v })

  abbrev pub change_a : (ℕ → ℕ) → St (Mcs48 D) ℕ
  change_a f = one (modify (λ c. record c { a = f c.a }))

  -- DA A: the digits are corrected one after the other, and the carry is never cleared.
  unfoldable pub decimal_adjust : Do (Mcs48 D)
  decimal_adjust = modify (λ c.
      let low = ltb 9 (bit_and c.a 0x0f) || test c.psw ac in
      let r = if low then c.a + 6 else c.a in
      let psw = if low && ltb 0xff r then bit_or c.psw cy else c.psw in
      let high = ltb 9 (bit_and (r / 2 ^ 4) 0x0f) || test psw cy in
      record c { a = u8 (if high then r + 0x60 else r); psw = if high then bit_or psw cy else psw })

  unfoldable pub rotate_right_carry : Do (Mcs48 D)
  rotate_right_carry = modify (λ c. record c {
    a = bit_or (c.a / 2) (if test c.psw cy then 0x80 else 0);
    psw = bit_or (clear_bits c.psw cy) (if test c.a 1 then cy else 0);
  })

  unfoldable pub rotate_left_carry : Do (Mcs48 D)
  rotate_left_carry = modify (λ c. record c {
    a = u8 (bit_or (c.a * 2) (if test c.psw cy then 1 else 0));
    psw = bit_or (clear_bits c.psw cy) (if test c.a 0x80 then cy else 0);
  })

  -- The section "accumulator" of the switch; what it does not know is left to `other`.
  unfoldable pub accumulator : ℕ → St (Mcs48 D) ℕ → St (Mcs48 D) ℕ
  unfolding fetch reg_at ind_at add decimal_adjust rotate_right_carry rotate_left_carry
  accumulator op other =
      if op == 0x03
      then with_data (λ v. add v false)
      else if op == 0x13
      then with_data (λ v. add v true)
      else if is_ind 0x60 op
      then with_ind op (λ v. add v false)
      else if is_ind 0x70 op
      then with_ind op (λ v. add v true)
      else if is_reg 0x68 op
      then with_reg op (λ v. add v false)
      else if is_reg 0x78 op
      then with_reg op (λ v. add v true)
      else if op == 0x53
      then with_data and_a
      else if is_ind 0x50 op
      then with_ind op and_a
      else if is_reg 0x58 op
      then with_reg op and_a
      else if op == 0x43
      then with_data or_a
      else if is_ind 0x40 op
      then with_ind op or_a
      else if is_reg 0x48 op
      then with_reg op or_a
      else if op == 0xd3
      then with_data xor_a
      else if is_ind 0xd0 op
      then with_ind op xor_a
      else if is_reg 0xd8 op
      then with_reg op xor_a
      else if op == 0x17
      then change_a (λ a. u8 (a + 1))
      else if op == 0x07
      then change_a (λ a. u8 (a + 2 ^ 8 - 1))
      else if op == 0x27
      then change_a (λ a. 0)
      else if op == 0x37
      then change_a (λ a. 0xff - a)
      else if op == 0x47
      then change_a (λ a. u8 (bit_or (a * 2 ^ 4) (a / 2 ^ 4)))
      else if op == 0x57
      then one decimal_adjust
      else if op == 0x77
      then change_a (λ a. u8 (bit_or (a / 2) (a * 2 ^ 7)))
      else if op == 0xe7
      then change_a (λ a. u8 (bit_or (a * 2) (a / 2 ^ 7)))
      else if op == 0x67
      then one rotate_right_carry
      else if op == 0xf7
      then one rotate_left_carry
      else other

  -- A and a place of the RAM change places, whole or by their low halves.
  unfoldable pub exchange_at : (Mcs48 D → ℕ) → Do (Mcs48 D)
  exchange_at place =
      modify (λ c. let i = place c in record c { a = c.ram i; ram = update c.ram i c.a })

  unfoldable pub exchange_digit_at : (Mcs48 D → ℕ) → Do (Mcs48 D)
  exchange_digit_at place = modify (λ c.
      let i = place c in
      let v = c.ram i in
      record c {
        a = bit_or (bit_and c.a 0xf0) (bit_and v 0x0f);
        ram = update c.ram i (bit_or (bit_and v 0xf0) (bit_and c.a 0x0f));
      })

  unfoldable pub change_at : (Mcs48 D → ℕ) → (ℕ → ℕ) → Do (Mcs48 D)
  change_at place f =
      modify (λ c. let i = place c in record c { ram = update c.ram i (f (c.ram i)) })

  abbrev pub reg_place : ℕ → Mcs48 D → ℕ
  reg_place op c = reg_at c (bit_and op 7)

  abbrev pub ind_place : ℕ → Mcs48 D → ℕ
  ind_place op c = ind_at c (bit_and op 1)

  -- MOV Rr,#d and MOV @R,#d: the place is found before the byte is fetched.
  unfoldable pub store_data : (Mcs48 D → ℕ) → Do (Mcs48 D)
  unfolding fetch
  store_data place = do i ← gets place; v ← fetch; poke i v

  -- `rom[addr & rom_mask]`
  abbrev pub load_rom : (Mcs48 D → ℕ) → Do (Mcs48 D)
  load_rom addr = modify (λ c. record c { a = c.rom (bit_and (addr c) c.rom_mask) })

  -- `case 0xb8` to `0xbf` evaluates the place in either order: fetching a byte changes no register.
  unfoldable pub registers : ℕ → St (Mcs48 D) ℕ → St (Mcs48 D) ℕ
  unfolding fetch reg_at ind_at exchange_at exchange_digit_at change_at store_data
  registers op other =
      if is_reg 0x18 op
      then one (change_at (reg_place op) (λ v. u8 (v + 1)))
      else if is_ind 0x10 op
      then one (change_at (ind_place op) (λ v. u8 (v + 1)))
      else if is_reg 0xc8 op
      then one (change_at (reg_place op) (λ v. u8 (v + 2 ^ 8 - 1)))
      else if is_reg 0xf8 op
      then with_reg op set_a
      else if is_ind 0xf0 op
      then with_ind op set_a
      else if op == 0x23
      then with_data set_a
      else if is_reg 0xa8 op
      then one (λ c. change_at (reg_place op) (λ v. c.a) c)
      else if is_ind 0xa0 op
      then one (λ c. change_at (ind_place op) (λ v. c.a) c)
      else if is_reg 0xb8 op
      then two (store_data (reg_place op))
      else if is_ind 0xb0 op
      then two (store_data (ind_place op))
      else if is_reg 0x28 op
      then one (exchange_at (reg_place op))
      else if is_ind 0x20 op
      then one (exchange_at (ind_place op))
      else if is_ind 0x30 op
      then one (exchange_digit_at (ind_place op))
      else if op == 0xc7
      then one (modify (λ c. record c { a = bit_or c.psw 0x08 }))
      else if op == 0xd7
      then one (modify (λ c. record c { psw = bit_or c.a 0x08 }))
      else if op == 0xa3
      then two (load_rom (λ c. bit_or (bit_and c.pc 0xf00) c.a))
      else if op == 0xe3
      then two (load_rom (λ c. bit_or 0x300 c.a))
      else other

  unfoldable pub flags : ℕ → St (Mcs48 D) ℕ → St (Mcs48 D) ℕ
  flags op other =
      if op == 0x97
      then one (modify (λ c. record c { psw = clear_bits c.psw cy }))
      else if op == 0xa7
      then one (modify (λ c. record c { psw = bit_xor c.psw cy }))
      else if op == 0x85
      then one (modify (λ c. record c { psw = clear_bits c.psw f0 }))
      else if op == 0x95
      then one (modify (λ c. record c { psw = bit_xor c.psw f0 }))
      else if op == 0xa5
      then one (modify (λ c. record c { f1 = false }))
      else if op == 0xb5
      then one (modify (λ c. record c { f1 = not c.f1 }))
      else if op == 0xc5
      then one (modify (λ c. record c { psw = clear_bits c.psw bs }))
      else if op == 0xd5
      then one (modify (λ c. record c { psw = bit_or c.psw bs }))
      else if op == 0xe5
      then one (modify (λ c. record c { a11 = false }))
      else if op == 0xf5
      then one (modify (λ c. record c { a11 = true }))
      else other

  -- RETR ends the interrupt routine.
  unfoldable pub return_irq : Do (Mcs48 D)
  unfolding pull_pc
  return_irq = do pull_pc true; modify (λ c. record c { in_irq = false })

  unfoldable pub jump_indirect : Do (Mcs48 D)
  jump_indirect = modify (λ c.
      let page = bit_and c.pc 0xf00 in
      record c { pc = bit_or page (c.rom (bit_and (bit_or page c.a) c.rom_mask)) })

  unfoldable pub count_down : ℕ → Do (Mcs48 D)
  unfolding reg_at jcc
  count_down op = do
    i ← gets (reg_place op)
    modify (λ c. record c { ram = update c.ram i (u8 (c.ram i + 2 ^ 8 - 1)) })
    λ c. jcc (not (c.ram i == 0)) c

  -- A jump on a condition of the state.
  abbrev pub jump_if : (Mcs48 D → Bool) → St (Mcs48 D) ℕ
  jump_if cond = two (λ c. jcc (cond c) c)

  unfoldable pub jump_timer : Do (Mcs48 D)
  unfolding jcc
  jump_timer = do t ← gets (λ c. c.tf); modify (λ c. record c { tf = false }); jcc t
