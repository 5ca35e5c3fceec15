-- ===== src/Qsound/Mapped.antt =====
-- The QSound card (qsound.c) in the address space of the CPU (memaccess.c).
use s_qlux.Base.{ℕ, ◌+◌, ◌*◌, ◌/◌, ◌^◌, ◌<◌, true, ◌≡◌, refl, arith, ◌∙◌, ap}
use s_qlux.Word.{byte, cut}
use s_qlux.Machine.{Cpu}
use s_qlux.Device.{Bus}
use s_qlux.Memory
use s_qlux.Memory.{is_qsound, write_word}
use s_qlux.Qsound.{Qsound, read_byte, write_byte}
use s_qlux.Qsound.Registers.{direct_write, read_byte-direct_write}

-- The QSound card of a bus is a card of qsound.c, which is kept in the state of the devices.
pub record HasCard {D : Type 0} (bus : Bus D) : Type 0 where
  pub card : D → Qsound
  pub reads : (a : ℕ) (d : D) → (bus.qsound_read_byte a d).0 ≡ read_byte a (card d)
  pub writes : (a v : ℕ) (d : D) → card (bus.qsound_write_byte a v d) ≡ write_byte a v (card d)

module _ {D : Type 0} ⦃bus : Bus D⦄ (has : HasCard bus) where
  -- A word that the CPU writes to the direct addresses selects a register and writes it.
  word_written :
      (d : ℕ) (c : Cpu D)
      → c.qsound_mapped ≡ true
      → has.card (write_word 0xC3000 d c).1.dev
        ≡ direct_write (d / 2 ^ 8) (cut byte d) (has.card c.dev)
  unfolding write_word is_qsound direct_write
  word_written d c on = rw on (
      has.writes 0xC3001 (cut byte d) (bus.qsound_write_byte 0xC3000 (d / 2 ^ 8) c.dev)
      ∙ ap (write_byte 0xC3001 (cut byte d)) (has.writes 0xC3000 (d / 2 ^ 8) c.dev))

  word_keeps_map :
      (d : ℕ) (c : Cpu D) → c.qsound_mapped ≡ true → (write_word 0xC3000 d c).1.qsound_mapped ≡ true
  unfolding write_word is_qsound
  word_keeps_map d c on = rw on refl

  direct_read :
      (c : Cpu D)
      → c.qsound_mapped ≡ true
      → (Memory.read_byte 0xC3001 c).0 ≡ read_byte 0xC3001 (has.card c.dev)
  unfolding Memory.read_byte is_qsound
  direct_read c on = rw on (has.reads 0xC3001 c.dev)

  -- With the card told to drive its bus, its data at the first port
  driven_read :
      (c : Cpu D)
      → c.qsound_mapped ≡ true
      → (Memory.read_byte 0xC2000 (Memory.write_byte 0xC2002 1 c).1).0
        ≡ read_byte 0xC2000 (write_byte 0xC2002 1 (has.card c.dev))
  unfolding Memory.read_byte Memory.write_byte is_qsound
  driven_read c on = rw on (
      has.reads 0xC2000 (bus.qsound_write_byte 0xC2002 1 c.dev)
      ∙ ap (read_byte 0xC2000) (has.writes 0xC2002 1 c.dev))

  -- With an enabled card of qsound.c in the address space, the word that the CPU writes to
  -- 0xC3000, a register from 0 to 13 above its value, sets that register: the CPU reads the value
  -- at 0xC3001 and, once it has told the card to drive its bus, at 0xC2000.
  pub read_byte-write_word :
      (r v : ℕ) (c : Cpu D)
      → c.qsound_mapped ≡ true
      → (has.card c.dev).enabled ≡ true
      → r < 14
      → v < 2 ^ 8
      → let c' = (write_word 0xC3000 (r * 2 ^ 8 + v) c).1 in
        ((Memory.read_byte 0xC3001 c').0 ≡ v)
        × ((Memory.read_byte 0xC2000 (Memory.write_byte 0xC2002 1 c').1).0 ≡ v)
  read_byte-write_word r v c on enabled small narrow =
      let d = r * 2 ^ 8 + v in
      let c' = (write_word 0xC3000 d c).1 in
      let high : d / 2 ^ 8 ≡ r = omega arith in
      let low : cut byte d ≡ v = omega arith in
      let set : has.card c'.dev ≡ direct_write r v (has.card c.dev) =
        word_written d c on ∙ rw (high, low) refl in
      let kept : c'.qsound_mapped ≡ true = word_keeps_map d c on in
      let back = read_byte-direct_write r v (has.card c.dev) enabled small in
      (
        direct_read c' kept ∙ (ap (read_byte 0xC3001) set ∙ back.0),
        driven_read c' kept ∙ (ap (λ q. read_byte 0xC2000 (write_byte 0xC2002 1 q)) set ∙ back.1),
      )
