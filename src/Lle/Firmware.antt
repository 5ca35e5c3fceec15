-- ===== src/Lle/Firmware.antt =====
-- The firmware of the 8049 (ipc.c): a raw dump of `load_firmware`, and `crc32_rom`. Files in the
-- HEX format are left out.
use s_qlux.Base.{ℕ, zero, suc, ◌+◌, ◌-◌, ◌/◌, ◌%◌, ◌^◌, bit_and, bit_xor, ltb}
use s_qlux.Base.{if◌then◌else◌, Option, none, some}

abbrev pub rom_size : ℕ
rom_size = 2048

-- A file that is a dump: its first 2048 bytes, and nothing where it has fewer.
unfoldable pub load_raw : (len : ℕ) → (ℕ → ℕ) → Option (ℕ → ℕ)
load_raw len file = if ltb len rom_size then none else some file

-- `crc = (crc >> 1) ^ (0xedb88320u & (0u - (crc & 1)))`
unfoldable pub crc_bit : ℕ → ℕ
crc_bit crc = bit_xor (crc / 2) (bit_and 0xedb88320 ((2 ^ 32 - bit_and crc 1) % 2 ^ 32))

unfoldable pub crc_bits : ℕ → ℕ → ℕ
unfolding crc_bit
crc_bits zero crc = crc
crc_bits (suc n) crc = crc_bits n (crc_bit crc)

-- The loop over the bytes from `i` on
unfoldable pub crc_bytes : (ℕ → ℕ) → ℕ → ℕ → ℕ → ℕ
unfolding crc_bits
crc_bytes rom zero i crc = crc
crc_bytes rom (suc n) i crc = crc_bytes rom n (i + 1) (crc_bits 8 (bit_xor crc (rom i)))

unfoldable pub crc32_rom : (ℕ → ℕ) → ℕ
unfolding crc_bytes
crc32_rom rom = bit_xor (crc_bytes rom rom_size 0 (2 ^ 32 - 1)) (2 ^ 32 - 1)
