-- ===== src/Memory/Ram.antt =====
-- Words and longs in the RAM: what is written is read back, byte by byte in big-endian order.
use s_qlux.Base.{ℕ, ◌+◌, ◌/◌, ◌%◌, ◌^◌, ◌≤◌, ◌<◌, bit_and, ◌≡◌, arith, ◌⊎◌}
use s_qlux.Base.{Bool, true, false}
use s_qlux.Bits.{bit_and_mask, bit_and-shift}
use s_qlux.Word.{Size, byte, word, long, bytes, Fits}
use s_qlux.Machine.{Cpu, update}
use s_qlux.Device.{Bus}
use s_qlux.Memory.{peek_word, peek_long, poke_word, poke_long, is_hw, is_qsound, mask_addr}
use s_qlux.Memory.{contend, store, read_byte, read_word, read_long}
use s_qlux.Memory.{write_byte, write_word, write_long, read_size, write_size}

pub mask_addr-eq : (a : ℕ) → a < 2 ^ 24 → mask_addr a ≡ a
mask_addr-eq a h = omega (arith, bit_and_mask 24 a)

pub is_odd-eq : (a : ℕ) → bit_and a 1 ≡ a % 2
is_odd-eq a = omega (arith, bit_and_mask 1 a)

-- The card lies inside the space of the expansion ROM.
pub is_qsound-in_expansion :
    (m : Bool) (a : ℕ) → is_qsound m a ≡ true → a < 2 ^ 24 → (0xC0000 ≤ a) × (a < 0xD0000)
unfolding is_qsound
is_qsound-in_expansion m a h lt =
    ground (arith, bit_and-shift 16 a 0xFF, bit_and_mask 8 (a / 2 ^ 16))

-- An address of RAM: from 0x20000 up, outside the expansion space, below the end of the RAM or
-- of the screen.
pub record IsRam {D : Type 0} (c : Cpu D) (a : ℕ) : Type 0 where
  pub over_screen : 0x20000 ≤ a
  pub addressable : a < 2 ^ 24
  pub not_expansion : (a < 0xC0000) ⊎ (0x100000 ≤ a)
  pub mapped : (a < c.rtop) ⊎ (a < c.qm_hi)

pub is_qsound-ram :
    (m : Bool) (a : ℕ) → a < 2 ^ 24 → (a < 0xC0000) ⊎ (0x100000 ≤ a) → is_qsound m a ≡ false
is_qsound-ram m a lt out = ground (arith, is_qsound-in_expansion m a)

pub poke-peek_word : (mem : ℕ → ℕ) (a v : ℕ) → v < 2 ^ 16 → peek_word (poke_word mem a v) a ≡ v
unfolding peek_word poke_word
poke-peek_word mem a v h = ground arith

pub poke-peek_long : (mem : ℕ → ℕ) (a v : ℕ) → v < 2 ^ 32 → peek_long (poke_long mem a v) a ≡ v
unfolding peek_long poke_long
poke-peek_long mem a v h = ground arith

-- A word or a long is at an even address.
abbrev pub IsAligned : Size → ℕ → Type 0
IsAligned byte a = Unit {0}
IsAligned word a = a % 2 ≡ 0
IsAligned long a = a % 2 ≡ 0

abbrev pub poke : Size → (ℕ → ℕ) → ℕ → ℕ → ℕ → ℕ
poke byte mem a v = update mem a v
poke word mem a v = poke_word mem a v
poke long mem a v = poke_long mem a v

abbrev pub peek : Size → (ℕ → ℕ) → ℕ → ℕ
peek byte mem a = mem a
peek word mem a = peek_word mem a
peek long mem a = peek_long mem a

pub poke-peek : (s : Size) (mem : ℕ → ℕ) (a v : ℕ) → Fits s v → peek s (poke s mem a v) a ≡ v
poke-peek byte mem a v h = ground arith
poke-peek word mem a v h = poke-peek_word mem a v h
poke-peek long mem a v h = poke-peek_long mem a v h

-- A store leaves every byte outside it alone.
pub poke-frame :
    (s : Size) (mem : ℕ → ℕ) (a v b : ℕ) → (b < a) ⊎ (a + bytes s ≤ b) → poke s mem a v b ≡ mem b
unfolding poke_word poke_long
poke-frame byte mem a v b h = ground arith
poke-frame word mem a v b h = ground arith
poke-frame long mem a v b h = ground arith

module _ {D : Type 0} ⦃bus : Bus D⦄ where
  pub write_size-ram :
      (s : Size) (c : Cpu D) (a v : ℕ)
      → IsRam c a
      → IsAligned s a
      → write_size s a v c ≡ store a (bytes s) (λ m. poke s m a v) c
  unfolding write_byte write_word write_long is_hw
  write_size-ram byte c a v h even = ground (
    arith,
    mask_addr-eq a h.addressable,
    is_qsound-ram c.qsound_mapped a h.addressable h.not_expansion,
  )
  write_size-ram word c a v h even = ground (
    arith,
    mask_addr-eq a h.addressable,
    is_odd-eq a,
    is_qsound-ram c.qsound_mapped a h.addressable h.not_expansion,
  )
  write_size-ram long c a v h even = ground (
    arith,
    mask_addr-eq a h.addressable,
    is_odd-eq a,
    is_qsound-ram c.qsound_mapped a h.addressable h.not_expansion,
  )

  read_size-ram :
      (s : Size) (c : Cpu D) (a : ℕ)
      → IsRam c a
      → IsAligned s a
      → (read_size s a c).0 ≡ peek s c.mem a
  unfolding read_byte read_word read_long is_hw contend
  read_size-ram byte c a h even = ground (
    arith,
    mask_addr-eq a h.addressable,
    is_qsound-ram c.qsound_mapped a h.addressable h.not_expansion,
  )
  read_size-ram word c a h even = ground (
    arith,
    mask_addr-eq a h.addressable,
    is_odd-eq a,
    is_qsound-ram c.qsound_mapped a h.addressable h.not_expansion,
  )
  read_size-ram long c a h even = ground (
    arith,
    mask_addr-eq a h.addressable,
    is_odd-eq a,
    is_qsound-ram c.qsound_mapped a h.addressable h.not_expansion,
  )

  store-mem : (c : Cpu D) (a n : ℕ) (f : (ℕ → ℕ) → ℕ → ℕ) → (store a n f c).1.mem ≡ f c.mem
  unfolding store contend
  store-mem c a n f = ground arith

  store-IsRam :
      (c : Cpu D) (a b n : ℕ) (f : (ℕ → ℕ) → ℕ → ℕ) → IsRam c b → IsRam (store a n f c).1 b
  unfolding store contend
  store-IsRam c a b n f h = ground arith

  -- A value that fits its size and is written to an aligned address of RAM is what the next read
  -- of that address gives.
  pub read_size-write_size :
      (s : Size) (c : Cpu D) (a v : ℕ)
      → IsRam c a
      → IsAligned s a
      → Fits s v
      → (read_size s a (write_size s a v c).1).0 ≡ v
  read_size-write_size s c a v h even fits =
      rw
        (
          write_size-ram s c a v h even,
          read_size-ram s (store a (bytes s) (λ m. poke s m a v) c).1 a
              (store-IsRam c a a (bytes s) (λ m. poke s m a v) h) even,
          store-mem c a (bytes s) (λ m. poke s m a v),
        )
        (poke-peek s c.mem a v fits)

  -- A write to an aligned address of RAM changes the bytes of the operand only.
  pub write_size-frame :
      (s : Size) (c : Cpu D) (a v b : ℕ)
      → IsRam c a
      → IsAligned s a
      → (b < a) ⊎ (a + bytes s ≤ b)
      → (write_size s a v c).1.mem b ≡ c.mem b
  write_size-frame s c a v b h even out =
      rw (write_size-ram s c a v h even, store-mem c a (bytes s) (λ m. poke s m a v))
        (poke-frame s c.mem a v b out)

  -- A long that is written to an even address of RAM is there as four bytes, the highest first.
  pub write_long-big_endian :
      (c : Cpu D) (a v : ℕ)
      → IsRam c a
      → a % 2 ≡ 0
      → let m = (write_long a v c).1.mem in
        (m a ≡ v / 2 ^ 24 % 2 ^ 8)
        × (m (a + 1) ≡ v / 2 ^ 16 % 2 ^ 8)
        × (m (a + 2) ≡ v / 2 ^ 8 % 2 ^ 8)
        × (m (a + 3) ≡ v % 2 ^ 8)
  unfolding poke_long
  write_long-big_endian c a v h even =
      ground (arith, write_size-ram long c a v h even, store-mem c a 4 (λ m. poke_long m a v))
