-- ===== src/Memory.antt =====
-- The address space of the machine (memaccess.c): bytes, words and longs, in
-- the order of the 68000, with the internal I/O, the QSound card, the expansion ROM and the RAM.
-- Host memory is the function `mem` of the offset from `memBase`.
pub mod Ram
pub mod Guard
pub mod Stack
use s_qlux.Base.{ℕ, ◌+◌, ◌-◌, ◌*◌, ◌/◌, ◌%◌, ◌^◌, bit_and, bit_or, ltb, leb, ◌==◌, if◌then◌else◌}
use s_qlux.Base.{Bool, true, false, not, ◌&&◌, ◌||◌}
use s_qlux.Word.{Size, byte, word, long, cut, add32}
use s_qlux.Machine.{Cpu, M, Act, ◌>>=◌, ◌>>◌, pure, skip, gets, modify, when, update, raise}
use s_qlux.Device.{Bus}
use s_qlux.Status.{get_sr}
use s_qlux.Hardware.{tell, ask, read_hw_byte, read_hw_word, write_hw_byte}

-- `RW`, `RL`, `WW` and `WL`: big-endian words and longs of host memory.
unfoldable pub peek_word : (ℕ → ℕ) → ℕ → ℕ
peek_word mem a = mem a * 2 ^ 8 + mem (a + 1)

unfoldable pub peek_long : (ℕ → ℕ) → ℕ → ℕ
unfolding peek_word
peek_long mem a = peek_word mem a * 2 ^ 16 + peek_word mem (a + 2)

unfoldable pub poke_word : (ℕ → ℕ) → ℕ → ℕ → ℕ → ℕ
poke_word mem a v = update (update mem a (v / 2 ^ 8 % 2 ^ 8)) (a + 1) (v % 2 ^ 8)

unfoldable pub poke_long : (ℕ → ℕ) → ℕ → ℕ → ℕ → ℕ
unfolding poke_word
poke_long mem a v = poke_word (poke_word mem a (v / 2 ^ 16)) (a + 2) (v % 2 ^ 16)

unfoldable pub is_hw : ℕ → Bool
is_hw addr = leb 0x18000 addr && ltb addr (0x18000 + 0x4000)

unfoldable pub is_qsound : Bool → ℕ → Bool
is_qsound mapped addr =
    let a = bit_and addr 0xFFFF in
    mapped
    && (((bit_and a 0xF000 == 0x2000) || (bit_and a 0xF000 == 0x3000))
        && (bit_and addr 0xFF0000 == 0x0C0000))

-- `addr & ADDR_MASK`
abbrev pub mask_addr : ℕ → ℕ
mask_addr addr = bit_and addr 0xffffff

-- `zx8301_is_ram` (zx8301.h): 0x20000 to 0x3FFFF, by a difference of `uint32_t`.
unfoldable pub is_ram : ℕ → Bool
is_ram addr = ltb ((addr + 2 ^ 32 - 0x20000) % 2 ^ 32) 0x20000

-- An address that no RAM is mapped to: at or over `RTOP` and the end of the screen.
abbrev pub is_outside : {D : Type 0} → Cpu D → ℕ → Bool
is_outside c addr = leb c.rtop addr && leb c.qm_hi addr

abbrev pub is_expansion : ℕ → Bool
is_expansion addr = leb 0x000C0000 addr && ltb addr 0x00100000

abbrev pub is_odd : ℕ → Bool
is_odd addr = not (bit_and addr 1 == 0)

-- `address_error`
unfoldable pub address_error : {D : Type 0} → ℕ → Bool → Act D
unfolding raise get_sr
address_error addr is_write = do
  modify (λ c. record c { saved_sr = get_sr c })
  raise 3
  modify (λ c. record c {
    read_or_write = if is_write then 0 else 16;
    bad_address = addr;
    bad_code_address = false;
  })

module _ {D : Type 0} ⦃bus : Bus D⦄ where
  -- `ZX_CONTEND` and `ZX_CONTEND_IO`
  unfoldable pub contend : ℕ → ℕ → Bool → Act D
  contend addr n w = modify (λ c.
      if bus.zx_contention c.dev && is_ram addr then record c { dev = bus.zx_ram n w c.dev } else c)

  unfoldable pub contend_io : ℕ → Bool → Act D
  contend_io n w =
      modify (λ c. if bus.zx_contention c.dev then record c { dev = bus.zx_ram n w c.dev } else c)

  unfoldable pub read_byte : ℕ → M D ℕ
  read_byte addr0 c =
      let addr = mask_addr addr0 in
      if is_qsound c.qsound_mapped addr
      then ask (bus.qsound_read_byte addr) c
      else if is_hw addr
      then (do contend_io 1 false; read_hw_byte addr) c
      else if is_expansion addr
      then (c.mem addr, c)
      else if is_outside c addr
      then (0, c)
      else (do contend addr 1 false; gets (λ c'. c'.mem addr)) c

  unfoldable pub read_word : ℕ → M D ℕ
  read_word addr0 c =
      if is_odd addr0
      then (do address_error addr0 false; pure 0) c
      else (let addr = mask_addr addr0 in
          if is_qsound c.qsound_mapped addr
          then (do
            hi ← ask (bus.qsound_read_byte addr)
            lo ← ask (bus.qsound_read_byte (addr + 1))
            pure (bit_or (hi * 2 ^ 8) lo))
              c
          else if is_hw addr
          then (do contend_io 2 false; read_hw_word addr) c
          else if is_expansion addr
          then (peek_word c.mem addr, c)
          else if is_outside c addr
          then (0, c)
          else (do contend addr 2 false; gets (λ c'. peek_word c'.mem addr)) c)

  -- `ReadHWLong`
  unfoldable pub read_hw_long : ℕ → M D ℕ
  read_hw_long addr =
      if addr == 0x01C060
      then (do ns ← ask bus.clock_ns; pure (bit_and (ns / 25) 0xFFFFFFFF))
      else (do hi ← read_word addr; lo ← read_word (addr + 2); pure (bit_or (hi * 2 ^ 16) lo))

  unfoldable pub read_long : ℕ → M D ℕ
  read_long addr0 c =
      if is_odd addr0
      then (do address_error addr0 false; pure 0) c
      else (let addr = mask_addr addr0 in
          if is_qsound c.qsound_mapped addr
          then (do hi ← read_word addr; lo ← read_word (addr + 2); pure (bit_or (hi * 2 ^ 16) lo)) c
          else if is_hw addr
          then (do contend_io 4 false; read_hw_long addr) c
          else if is_expansion addr
          then (peek_long c.mem addr, c)
          else if is_outside c addr
          then (0, c)
          else (do contend addr 4 false; gets (λ c'. peek_long c'.mem addr)) c)

  -- A store to the RAM from 0x20000 up, then the contention and the captured screen. The masks
  -- leave `addr` below 2 ^ 24.
  unfoldable pub store : ℕ → ℕ → ((ℕ → ℕ) → ℕ → ℕ) → Act D
  store addr n poke = do
    contend addr n true
    modify (λ c. record c { mem = poke c.mem })
    tell (bus.screen_write addr n)

  unfoldable pub write_byte : ℕ → ℕ → Act D
  unfolding store
  write_byte addr0 d c =
      let addr = mask_addr addr0 in
      if is_qsound c.qsound_mapped addr
      then tell (bus.qsound_write_byte addr d) c
      else if addr == 0x00018063
      then (do write_hw_byte addr d; modify (λ c'. record c' { mem = update c'.mem addr d })) c
      else if is_outside c addr
      then (tt, c)
      else if is_hw addr
      then write_hw_byte addr d c
      else if leb 0x20000 addr
      then store addr 1 (λ m. update m addr d) c
      else (tt, c)

  -- `WriteHWWord`
  unfoldable pub write_hw_word : ℕ → ℕ → Act D
  write_hw_word addr d =
      if addr == 0x018104
      then tell (bus.bdi_address_high d)
      else if addr == 0x018106
      then tell (bus.bdi_address_low d)
      else (do write_byte addr (d / 2 ^ 8); write_byte (addr + 1) (bit_and d 255))

  unfoldable pub write_word : ℕ → ℕ → Act D
  unfolding store
  write_word addr0 d c =
      if is_odd addr0
      then address_error addr0 true c
      else (let addr = mask_addr addr0 in
          if is_qsound c.qsound_mapped addr
          then (do
            tell (bus.qsound_write_byte addr (d / 2 ^ 8))
            tell (bus.qsound_write_byte (addr + 1) (cut byte d)))
              c
          else if is_outside c addr
          then (tt, c)
          else if is_hw addr
          then write_hw_word addr d c
          else if leb 0x20000 addr
          then store addr 2 (λ m. poke_word m addr d) c
          else (tt, c))

  unfoldable pub write_long : ℕ → ℕ → Act D
  unfolding store
  write_long addr0 d c =
      if is_odd addr0
      then address_error addr0 true c
      else (let addr = mask_addr addr0 in
          if is_qsound c.qsound_mapped addr
          then (do write_word addr (d / 2 ^ 16); write_word (addr + 2) (cut word d)) c
          else if is_outside c addr
          then (tt, c)
          else if is_hw addr
          then (do write_hw_word addr (d / 2 ^ 16); write_hw_word (addr + 2) (cut word d)) c
          else if leb 0x20000 addr
          then store addr 4 (λ m. poke_long m addr d) c
          else (tt, c))

  -- The three functions by their size.
  abbrev pub read_size : Size → ℕ → M D ℕ
  read_size byte = read_byte
  read_size word = read_word
  read_size long = read_long

  abbrev pub write_size : Size → ℕ → ℕ → Act D
  write_size byte = write_byte
  write_size word = write_word
  write_size long = write_long
