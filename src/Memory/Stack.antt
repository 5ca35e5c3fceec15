-- ===== src/Memory/Stack.antt =====
-- What accesses of the RAM leave of the machine, and the stack in it: longs and words that are
-- pushed come back.
use s_qlux.Base.{ℕ, ◌≡◌, arith}
use s_qlux.Word.{Size, byte, word, long, bytes}
use s_qlux.Machine.{Cpu}
use s_qlux.Device.{Bus}
use s_qlux.Memory.{is_hw, contend, store}
use s_qlux.Memory.{read_byte, read_word, read_long, read_size, write_size}
use s_qlux.Memory.Ram.{
  IsRam, IsAligned, peek, poke, write_size-ram, is_qsound-ram, mask_addr-eq, is_odd-eq,
}

module _ {D : Type 0} ⦃bus : Bus D⦄ where
  store-shape :
      (c : Cpu D) (a n : ℕ) (f : (ℕ → ℕ) → ℕ → ℕ)
      → (store a n f c).1 ≡ record c { mem = f c.mem; dev = (store a n f c).1.dev }
  unfolding store contend
  store-shape c a n f = ground arith

  -- A write to RAM changes the memory and the devices, and nothing else of the machine.
  pub write_size-shape :
      (s : Size) (c : Cpu D) (a v : ℕ)
      → IsRam c a
      → IsAligned s a
      → (write_size s a v c).1
        ≡ record c { mem = poke s c.mem a v; dev = (write_size s a v c).1.dev }
  write_size-shape s c a v h even =
      rw (write_size-ram s c a v h even) (store-shape c a (bytes s) (λ m. poke s m a v))

  -- A read of RAM changes the devices alone.
  pub read_size-shape :
      (s : Size) (c : Cpu D) (a : ℕ)
      → IsRam c a
      → IsAligned s a
      → read_size s a c ≡ (peek s c.mem a, record c { dev = (read_size s a c).1.dev })
  unfolding read_byte read_word read_long is_hw contend
  read_size-shape byte c a h even = ground (
    arith,
    mask_addr-eq a h.addressable,
    is_qsound-ram c.qsound_mapped a h.addressable h.not_expansion,
  )
  read_size-shape word c a h even = ground (
    arith,
    mask_addr-eq a h.addressable,
    is_odd-eq a,
    is_qsound-ram c.qsound_mapped a h.addressable h.not_expansion,
  )
  read_size-shape long c a h even = ground (
    arith,
    mask_addr-eq a h.addressable,
    is_odd-eq a,
    is_qsound-ram c.qsound_mapped a h.addressable h.not_expansion,
  )
