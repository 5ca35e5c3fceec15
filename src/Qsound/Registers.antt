-- ===== src/Qsound/Registers.antt =====
-- The two ways to the registers of the QSound card (qsound.c).
use s_qlux.Base.{ℕ, ◌<◌, ◌==◌, bit_and, true, ◌≡◌, refl, arith, ltb-true}
use s_qlux.Base.{ltb-false}
use s_qlux.Bits.{bit_and_mask}
use s_qlux.Qsound.{Qsound, write_byte, read_byte, write_reg, selected}
use s_qlux.Base.{Bool-cases, inl, inr, ==_refl, ◌∙◌}

-- A register through the direct addresses, and through the ports of the MC6821.
unfoldable pub direct_write : (r v : ℕ) → Qsound → Qsound
unfolding write_byte
direct_write r v q = write_byte 0xC3001 v (write_byte 0xC3000 r q)

unfoldable pub latched_write : (r v : ℕ) → Qsound → Qsound
unfolding write_byte
latched_write r v q =
    write_byte 0xC2002 4 (write_byte 0xC2000 v (write_byte 0xC2002 5 (write_byte 0xC2000 r q)))

-- A write through the ports of the MC6821 does what the direct write does, and leaves the ports with
-- the value and the command.
pub latched_write-direct :
    (r v : ℕ) (q : Qsound)
    → q.enabled ≡ true
    → latched_write r v q ≡ direct_write r v (record q { port_a = v; port_b = 4 })
unfolding latched_write direct_write
latched_write-direct r v q on = rw on refl

-- The selected register after it was written, on a card that stays enabled
write_reg-selected :
    (v : ℕ) (q : Qsound)
    → q.ay_addr < 14
    → (selected (write_reg q.ay_addr v q) ≡ v) × ((write_reg q.ay_addr v q).enabled ≡ q.enabled)
unfolding write_reg
write_reg-selected v q small =
    rw (ltb-false 13 q.ay_addr (omega arith)) (elim (Bool-cases (q.ay_addr == 13)) [
      | inl shape ↦ rw (shape, ltb-true q.ay_addr 14 small, ==_refl q.ay_addr) (refl, refl)
      | inr other ↦ rw (other, ltb-true q.ay_addr 14 small, ==_refl q.ay_addr) (refl, refl)
    ])

-- The read addresses on a card that is enabled
read_direct : (q : Qsound) → q.enabled ≡ true → read_byte 0xC3001 q ≡ selected q
unfolding read_byte
read_direct q on = rw on refl

read_driven :
    (q : Qsound) → q.enabled ≡ true → read_byte 0xC2000 (write_byte 0xC2002 1 q) ≡ selected q
unfolding read_byte write_byte
read_driven q on = rw on refl

-- On a card that is enabled, a register from 0 to 13 that was written directly reads back, directly
-- and, once the card is told to drive its bus, through the MC6821.
pub read_byte-direct_write :
    (r v : ℕ) (q : Qsound)
    → q.enabled ≡ true
    → r < 14
    → (read_byte 0xC3001 (direct_write r v q) ≡ v)
      × (read_byte 0xC2000 (write_byte 0xC2002 1 (direct_write r v q)) ≡ v)
unfolding direct_write
read_byte-direct_write r v q on small =
    let low : bit_and r 0x0f ≡ r = bit_and_mask 4 r ∙ omega arith in
    let q1 : Qsound = record q { ay_addr = r } in
    let written = write_reg-selected v q1 small in
    let direct : direct_write r v q ≡ write_reg r v q1 = rw (on, low) refl in
    let still_on : (write_reg r v q1).enabled ≡ true = written.1 ∙ on in
    rw direct (
      read_direct (write_reg r v q1) still_on ∙ written.0,
      read_driven (write_reg r v q1) still_on ∙ written.0,
    )
