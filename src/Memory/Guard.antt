-- ===== src/Memory/Guard.antt =====
-- The writes that the memory refuses: those below the screen.
use s_qlux.Base.{ℕ, ◌≤◌, ◌<◌, ◌≡◌, arith, ◌⊎◌}
use s_qlux.Word.{Size, byte, word, long}
use s_qlux.Machine.{Cpu}
use s_qlux.Device.{Bus}
use s_qlux.Memory.{is_hw}
use s_qlux.Memory.{write_byte, write_word, write_long, write_size}
use s_qlux.Memory.Ram.{IsAligned, mask_addr-eq, is_odd-eq, is_qsound-in_expansion}

module _ {D : Type 0} ⦃bus : Bus D⦄ where
  -- A write of any size to an aligned address below the screen and outside the internal I/O
  -- changes nothing at all: the ROMs are read-only.
  pub write_size-rom :
      (s : Size) (c : Cpu D) (a v : ℕ)
      → a < 0x20000
      → (a < 0x18000) ⊎ (0x1C000 ≤ a)
      → IsAligned s a
      → (write_size s a v c).1 ≡ c
  unfolding write_byte write_word write_long is_hw
  write_size-rom byte c a v low out even =
      ground (arith, mask_addr-eq a (omega arith), is_qsound-in_expansion c.qsound_mapped a)
  write_size-rom word c a v low out even =
      ground
        (arith, mask_addr-eq a (omega arith), is_odd-eq a, is_qsound-in_expansion c.qsound_mapped a)
  write_size-rom long c a v low out even =
      ground
        (arith, mask_addr-eq a (omega arith), is_odd-eq a, is_qsound-in_expansion c.qsound_mapped a)
