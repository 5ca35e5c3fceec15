-- ===== src/Mcs48/Calls.antt =====
-- The stack of the MCS-48: what a call or an interrupt pushes is what RET and RETR take back.
use s_qlux.Base.{ℕ, ◌+◌, ◌-◌, ◌*◌, ◌/◌, ◌%◌, ◌^◌, ◌<◌, ◌≡◌, refl, ◌∙◌, arith, bit_and, bit_or, ◌==◌}
use s_qlux.Base.{Bool, true, false, if◌then◌else◌, ◌&&◌, all_below, all_below_sound}
use s_qlux.Bits.{bit_and_mask, bit_or_fields}
use s_qlux.Mcs48.{Mcs48, u8, push_pc, pull_pc}
use s_qlux.Mcs48.Ops.{return_irq}

-- The PSW after a push, and the high byte that is pushed
pushed : ℕ → ℕ
pushed psw = u8 (bit_or (bit_and psw 0xf8) (bit_and (bit_and psw 7 + 1) 7))

packed : ℕ → ℕ → ℕ
packed psw high = u8 (bit_or (bit_and psw 0xf0) (bit_and high 0x0f))

-- The high byte keeps the flags and the bits of the PC apart, and the stack pointer goes up in its
-- three bits.
push_agrees : ℕ → ℕ → Bool
push_agrees psw high =
    let hi = packed psw high in
    bit_and (pushed psw) 7 == bit_and (bit_and psw 7 + 1) 7
    && (bit_and hi 0x0f == high
        && (bit_and hi 0xf0 == psw / 16 * 16 && bit_and psw 0xf0 == psw / 16 * 16))

-- The stack pointer of `w` goes down to `p`.
pull_agrees : ℕ → ℕ → Bool
pull_agrees w p =
    let down = u8 (bit_or (bit_and w 0xf8) p) in
    (if bit_and w 7 == bit_and (p + 1) 7 then bit_and (w + 2 ^ 8 - 1) 7 == p else true)
    && (bit_and down 7 == p
        && (bit_and down 0xf8 == bit_and w 0xf8 && bit_and down 8 == bit_and w 8))

-- The flags of the high byte come back.
restore_agrees : ℕ → ℕ → Bool
restore_agrees k down =
    let psw = u8 (bit_or (k * 16) (bit_and down 0x0f)) in
    bit_and psw 7 == bit_and down 7
    && (bit_and psw 0xf0 == k * 16 && bit_and psw 8 == bit_and down 8)

table : (ℕ → ℕ → Bool) → ℕ → ℕ → Bool
table agrees n x = all_below n (λ y. agrees x y)

table_sound :
    (agrees : ℕ → ℕ → Bool) (m n x y : ℕ)
    → all_below m (table agrees n) ≡ true
    → x < m
    → y < n
    → agrees x y ≡ true
unfolding table
table_sound agrees m n x y all h k =
    all_below_sound n (λ y'. agrees x y') y (all_below_sound m (table agrees n) x all h) k

push_checks : all_below 256 (table push_agrees 16) ≡ true
unfolding all_below table push_agrees pushed packed
push_checks = refl

pull_checks : all_below 256 (table pull_agrees 8) ≡ true
unfolding all_below table pull_agrees
pull_checks = refl

restore_checks : all_below 16 (table restore_agrees 256) ≡ true
unfolding all_below table restore_agrees
restore_checks = refl

push_bits :
    (psw high : ℕ)
    → psw < 256
    → high < 16
    → let hi = packed psw high in
      (bit_and (pushed psw) 7 ≡ bit_and (bit_and psw 7 + 1) 7)
      × (bit_and hi 0x0f ≡ high)
      × (bit_and hi 0xf0 ≡ psw / 16 * 16)
      × (bit_and psw 0xf0 ≡ psw / 16 * 16)
unfolding push_agrees
push_bits psw high h k =
    let all = table_sound push_agrees 256 16 psw high push_checks h k in ground arith

pull_bits :
    (w p : ℕ)
    → w < 256
    → p < 8
    → bit_and w 7 ≡ bit_and (p + 1) 7
    → let down = u8 (bit_or (bit_and w 0xf8) p) in
      (bit_and (w + 2 ^ 8 - 1) 7 ≡ p)
      × (bit_and down 7 ≡ p)
      × (bit_and down 0xf8 ≡ bit_and w 0xf8)
      × (bit_and down 8 ≡ bit_and w 8)
unfolding pull_agrees
pull_bits w p h k e = let all = table_sound pull_agrees 256 8 w p pull_checks h k in ground arith

restore_bits :
    (k down : ℕ)
    → k < 16
    → down < 256
    → let psw = u8 (bit_or (k * 16) (bit_and down 0x0f)) in
      (bit_and psw 7 ≡ bit_and down 7)
      × (bit_and psw 0xf0 ≡ k * 16)
      × (bit_and psw 8 ≡ bit_and down 8)
unfolding restore_agrees
restore_bits k down h l =
    let all = table_sound restore_agrees 16 256 k down restore_checks h l in ground arith

halves : (pc : ℕ) → bit_or (pc / 2 ^ 8 * 2 ^ 8) (u8 pc) ≡ pc
halves pc = bit_or_fields 8 (pc / 2 ^ 8) (pc % 2 ^ 8) (omega arith) ∙ omega arith

module _ {D : Type 0} where
  -- A call or an interrupt pushes in the state `c`, with a PC of 12 bits and a PSW of 8. Then RET or
  -- RETR comes in any state `h` whose stack pointer, in the low three bits of its PSW of 8, and whose
  -- two bytes of the stack are as they were pushed. RET and RETR go on at the PC of `c`, with the
  -- stack pointer of `c`. RET leaves the other bits of the PSW as they are in `h`; RETR takes the
  -- four high ones, the flags, from `c`, leaves bit 3, and ends the interrupt.
  pub pull_pc-push_pc :
      (c h : Mcs48 D)
      → c.pc < 2 ^ 12
      → c.psw < 2 ^ 8
      → h.psw < 2 ^ 8
      → bit_and h.psw 7 ≡ bit_and (push_pc c).1.psw 7
      → h.ram (8 + 2 * bit_and c.psw 7) ≡ (push_pc c).1.ram (8 + 2 * bit_and c.psw 7)
      → h.ram (9 + 2 * bit_and c.psw 7) ≡ (push_pc c).1.ram (9 + 2 * bit_and c.psw 7)
      → let back = (pull_pc false h).1 in
        let resumed = (return_irq h).1 in
        (back.pc ≡ c.pc)
        × (bit_and back.psw 7 ≡ bit_and c.psw 7)
        × (bit_and back.psw 0xf8 ≡ bit_and h.psw 0xf8)
        × (resumed.pc ≡ c.pc)
        × (bit_and resumed.psw 7 ≡ bit_and c.psw 7)
        × (bit_and resumed.psw 0xf0 ≡ bit_and c.psw 0xf0)
        × (bit_and resumed.psw 8 ≡ bit_and h.psw 8)
        × (resumed.in_irq ≡ false)
  unfolding push_pc pull_pc return_irq pushed packed
  pull_pc-push_pc c h small k w sp low high =
      let p = bit_and c.psw 7 in
      let b = push_bits c.psw (c.pc / 2 ^ 8) k (omega arith) in
      let at_top : 9 + 2 * p == 9 + 2 * p ≡ true = ground arith in
      let off_top : 8 + 2 * p == 9 + 2 * p ≡ false = ground arith in
      let at_low : 8 + 2 * p == 8 + 2 * p ≡ true = ground arith in
      let top : h.ram (9 + 2 * p) ≡ packed c.psw (c.pc / 2 ^ 8) = high ∙ rw at_top refl in
      let bottom : h.ram (8 + 2 * p) ≡ u8 c.pc = low ∙ rw (off_top, at_low) refl in
      let down = u8 (bit_or (bit_and h.psw 0xf8) p) in
      let q = pull_bits h.psw p w (omega (arith, bit_and_mask 3 c.psw)) (sp ∙ b.0) in
      let r = restore_bits (c.psw / 16) down (omega arith) (omega arith) in
      rw (q.0, top, bottom, b.1, b.2, b.3, halves c.pc, r.0, q.1)
        (refl, refl, q.2, refl, refl, r.1, r.2 ∙ q.3, refl)
