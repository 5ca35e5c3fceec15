-- ===== src/Bdi.antt =====
-- The block device (sqlux_bdi.c). The files of the host are the interface `Files`, and `F` is their
-- state. An access to `bdi_files` outside its eight elements has no result.
pub mod Upload
pub mod Sector
pub mod Address
use s_qlux.Base.{ℕ, zero, suc, ◌+◌, ◌-◌, ◌*◌, ◌/◌, ◌%◌, ◌^◌, bit_and, bit_or, ltb, ◌==◌}
use s_qlux.Base.{if◌then◌else◌, Bool, true, false, not, ◌&&◌, ◌||◌, Option, none, some}
use s_qlux.Machine.{update}

-- `open` of the file of the option `bdi1`, which may be empty; `close`, `lseek`, `read` and `write`
-- of 512 bytes, and the size by `fstat`.
pub record Files (F : Type 0) : Type 0 where
  pub has_path : Bool
  pub open_image : F → Option ℕ × F
  pub close : ℕ → F → F
  pub seek : ℕ → ℕ → F → F
  pub read : ℕ → (ℕ → ℕ) → F → (ℕ → ℕ) × F
  pub write : ℕ → (ℕ → ℕ) → F → F
  pub size : ℕ → F → ℕ

-- A handle of 0 stands for no file.
pub record Bdi (F : Type 0) : Type 0 where
  pub files : ℕ → ℕ
  pub address : ℕ
  pub ctr : ℕ
  pub unit : ℕ
  pub buffer : ℕ → ℕ
  pub host : F

module _ {F : Type 0} where
  -- The index `bdi_unit - 1`
  unfoldable pub slot : Bdi F → Option ℕ
  slot b = if (b.unit == 0) || ltb 8 b.unit then none else some (b.unit - 1)

  unfoldable pub file_of : Bdi F → Option ℕ
  unfolding slot
  file_of b = elim (slot b) [ none ↦ none | some i ↦ some (b.files i) ]

  -- `SQLUXBDICommand`: 2 reads and 3 writes.
  unfoldable pub command : ℕ → Bdi F → Bdi F
  command n b = if (n == 2) || (n == 3) then record b { ctr = 0 } else b

  unfoldable pub address_high : ℕ → Bdi F → Bdi F
  address_high a b = record b { address = bit_or (bit_and b.address 0x0000ffff) (a * 2 ^ 16) }

  unfoldable pub address_low : ℕ → Bdi F → Bdi F
  address_low a b = record b { address = bit_or (bit_and b.address 0xffff0000) a }

module _ {F : Type 0} ⦃io : Files F⦄ where
  unfoldable pub open_unit : ℕ → Bdi F → Bdi F
  open_unit d b =
      let r = io.open_image b.host in
      if ((d == 1) && (b.files 0 == 0)) && io.has_path
      then (elim r.0 [
        | none ↦ record b { host = r.1 }
        | some h ↦ record b { files = update b.files 0 h; host = r.1 }
      ])
      else b

  -- `close(bdi_files[bdi_unit - 1])`
  unfoldable pub close_unit : Bdi F → Option (Bdi F)
  unfolding slot
  close_unit b = elim (slot b) [
    | none ↦ none
    | some i ↦ some (record b { files = update b.files i 0; host = io.close (b.files i) b.host })
  ]

  unfoldable pub after_close : ℕ → Option (Bdi F) → Option (Bdi F)
  after_close d none = none
  after_close d (some b) = some (record b { unit = d })

  -- `SQLUXBDISelect`
  unfoldable pub select : ℕ → Bdi F → Option (Bdi F)
  unfolding open_unit close_unit after_close
  select d b = let b1 = open_unit d b in after_close d (if d == 0 then close_unit b1 else some b1)

  -- `SQLUXBDIStatus`
  unfoldable pub status : Bdi F → Option ℕ
  unfolding file_of
  status b = elim (file_of b) [ none ↦ none | some h ↦ some (if h == 0 then 1 else 0) ]

  -- `bdi_address * 512` is a product of 32 bits.
  unfoldable pub offset : Bdi F → ℕ
  offset b = b.address * 512 % 2 ^ 32

  -- The sector is read at its first byte.
  unfoldable pub load_sector : ℕ → Bdi F → Bdi F
  unfolding offset
  load_sector h b =
      let r = io.read h b.buffer (io.seek h (offset b) b.host) in
      if b.ctr == 0 then record b { buffer = r.0; host = r.1 } else b

  unfoldable pub take_byte : Bdi F → ℕ × Bdi F
  take_byte b = if ltb b.ctr 512 then (b.buffer b.ctr, record b { ctr = b.ctr + 1 }) else (0, b)

  unfoldable pub read_open : ℕ → Bdi F → ℕ × Bdi F
  unfolding load_sector take_byte
  read_open h b = if h == 0 then (0, b) else take_byte (load_sector h b)

  -- `SQLUXBDIDataRead`
  unfoldable pub data_read : Bdi F → Option (ℕ × Bdi F)
  data_read b = elim (file_of b) [ none ↦ none | some h ↦ some (read_open h b) ]

  unfoldable pub seek_sector : ℕ → Bdi F → Bdi F
  unfolding offset
  seek_sector h b = if b.ctr == 0 then record b { host = io.seek h (offset b) b.host } else b

  unfoldable pub put_byte : ℕ → Bdi F → Bdi F
  put_byte d b =
      if ltb b.ctr 512 then record b { buffer = update b.buffer b.ctr d; ctr = b.ctr + 1 } else b

  -- The sector is written at its last byte.
  unfoldable pub flush : ℕ → Bdi F → Bdi F
  flush h b = if b.ctr == 512 then record b { host = io.write h b.buffer b.host } else b

  unfoldable pub write_open : ℕ → ℕ → Bdi F → Bdi F
  unfolding seek_sector put_byte flush
  write_open h d b = if h == 0 then b else flush h (put_byte d (seek_sector h b))

  -- `SQLUXBDIDataWrite`
  unfoldable pub data_write : ℕ → Bdi F → Option (Bdi F)
  data_write d b = elim (file_of b) [ none ↦ none | some h ↦ some (write_open h d b) ]

  -- `SQLUXBDISizeHigh`: the cast to 16 bits comes before the shift.
  unfoldable pub size_high : Bdi F → Option ℕ
  unfolding file_of
  size_high b = elim (file_of b) [
    | none ↦ none
    | some h ↦ some (if h == 0 then 0 else io.size h b.host / 512 % 2 ^ 16 / 2 ^ 16)
  ]

  -- `SQLUXBDISizeLow`
  unfoldable pub size_low : Bdi F → Option ℕ
  unfolding file_of
  size_low b = elim (file_of b) [
    | none ↦ none
    | some h ↦ some (if h == 0 then 0 else bit_and (io.size h b.host / 512 % 2 ^ 16) 0xffff)
  ]
