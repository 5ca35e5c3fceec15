-- ===== src/Disk.antt =====
-- QDOS media in files of the host (QDisk.c): the control block of a medium, the fields of its first
-- sector, and sectors that are read and written in the file. A count of 0 in the first sector, by
-- which the source divides, gives what `/` and `%` give.
pub mod Cache
pub mod Map
pub mod Floppy
pub mod Files
pub mod Io
pub mod Chains
pub mod Words
pub mod Allocate
pub mod Release
pub mod Lookup
pub mod Truncate
pub mod Scan
pub mod Coherence
use s_qlux.Base.{ℕ, ◌+◌, ◌-◌, ◌*◌, ◌/◌, ◌%◌, ◌^◌, bit_and, ltb, leb, ◌==◌, if◌then◌else◌}
use s_qlux.Base.{Bool, true, false, not, ◌&&◌, Option}
use s_qlux.Word.{test, long, sext_ptr}
use s_qlux.Memory.{peek_word, peek_long, poke_word, poke_long}

pub data DiskType : Type 0 where
  floppy_dd floppy_hd qlwa : DiskType

-- The values of `OSErr` and `gError`: `failed` is -1.
pub data OsErr : Type 0 where
  fine failed uninitialized_disk no_file_block drive_full bad_medium end_of_file : OsErr

-- `FileNum`, with each `int` as a number of 32 bits
pub record FileNum : Type 0 where
  pub dir : ℕ
  pub file : ℕ
  pub entrynum : ℕ

pub record SectorInfo : Type 0 where
  pub time : ℕ
  pub log_sector : ℕ
  pub file_num : FileNum
  pub free : Bool
  pub changed : Bool
  pub locked : Bool

-- `struct FLP_FCB` and the global `gError`. The first sector is at the start of the buffer, and
-- `host` is the state of the file.
pub record Fcb (F : Type 0) : Type 0 where
  pub has_buffer : Bool
  pub buffer : ℕ → ℕ
  pub si : ℕ → SectorInfo
  pub bufcount : ℕ
  pub counter : ℕ
  pub last_sector : Option ℕ
  pub fat_sectors : ℕ
  pub disk_type : DiskType
  pub g_error : OsErr
  pub host : F

-- `lseek`, and `read` and `write` of 512 bytes: whether the call was without error.
pub record DiskFile (F : Type 0) : Type 0 where
  pub seek : ℕ → F → Bool × F
  pub read : (ℕ → ℕ) → F → (Bool × (ℕ → ℕ)) × F
  pub write : (ℕ → ℕ) → F → Bool × F

abbrev pub is_fine : OsErr → Bool
is_fine fine = true
is_fine _ = false

abbrev pub error_of : Bool → OsErr
error_of true = fine
error_of false = failed

abbrev pub is_qlwa : {F : Type 0} → Fcb F → Bool
is_qlwa d = elim d.disk_type [ qlwa ↦ true | _ ↦ false ]

-- 512 bytes at `p` of a buffer
abbrev pub slice : ℕ → (ℕ → ℕ) → ℕ → ℕ
slice p buf i = buf (p + i)

abbrev pub paste : ℕ → (ℕ → ℕ) → (ℕ → ℕ) → ℕ → ℕ
paste p bytes buf a = if leb p a && ltb a (p + 512) then bytes (a - p) else buf a

-- The offset in the file, from `sector * 512` of type `int`
abbrev pub qlwa_offset : ℕ → ℕ
qlwa_offset sector = sext_ptr long (sector * 512 % 2 ^ 32)

module _ {F : Type 0} where
  -- QWA_SPC, QWA_FC, QWA_FFC, QWA_ROOT and QWA_RLEN
  abbrev pub qwa_spc : Fcb F → ℕ
  qwa_spc d = peek_word d.buffer 0x22

  abbrev pub qwa_fc : Fcb F → ℕ
  qwa_fc d = peek_word d.buffer 0x2c

  abbrev pub qwa_ffc : Fcb F → ℕ
  qwa_ffc d = peek_word d.buffer 0x32

  abbrev pub qwa_root : Fcb F → ℕ
  qwa_root d = peek_word d.buffer 0x34

  abbrev pub qwa_rlen : Fcb F → ℕ
  qwa_rlen d = peek_long d.buffer 0x36

  -- QDH_FREE, QDH_TOTAL, QDH_SPT, QDH_SPC, QDH_SPB, QDH_DIREOFBL, QDH_DIREOFBY and QDH_OFFSET
  abbrev pub qdh_free : Fcb F → ℕ
  qdh_free d = peek_word d.buffer 20

  abbrev pub qdh_total : Fcb F → ℕ
  qdh_total d = peek_word d.buffer 24

  abbrev pub qdh_spt : Fcb F → ℕ
  qdh_spt d = peek_word d.buffer 26

  abbrev pub qdh_spc : Fcb F → ℕ
  qdh_spc d = peek_word d.buffer 28

  abbrev pub qdh_spb : Fcb F → ℕ
  qdh_spb d = peek_word d.buffer 32

  abbrev pub qdh_direofbl : Fcb F → ℕ
  qdh_direofbl d = peek_word d.buffer 34

  abbrev pub qdh_direofby : Fcb F → ℕ
  qdh_direofby d = peek_word d.buffer 36

  abbrev pub qdh_offset : Fcb F → ℕ
  qdh_offset d = peek_word d.buffer 38

  unfoldable pub sect_per_cluster : Fcb F → ℕ
  unfolding peek_word
  sect_per_cluster d = if is_qlwa d then qwa_spc d else qdh_spb d

  unfoldable pub root_fn : Fcb F → FileNum
  unfolding peek_word
  root_fn d = record { dir = 0; file = if is_qlwa d then qwa_root d else 0; entrynum = 0 }

  unfoldable pub root_flen : Fcb F → ℕ
  unfolding peek_word peek_long
  root_flen d = if is_qlwa d then qwa_rlen d else qdh_direofbl d * 2 ^ 9 + qdh_direofby d

  -- The side and the sector of `QDH_LTP`, and the cylinder
  abbrev pub ltp_entry : ℕ → Fcb F → ℕ
  ltp_entry sector d = d.buffer (40 + sector % qdh_spc d)

  abbrev pub track_of : ℕ → Fcb F → ℕ
  track_of sector d = sector / qdh_spc d % 2 ^ 16

  -- The offset in the file of a sector of a floppy disk
  unfoldable pub floppy_offset : ℕ → Fcb F → ℕ
  floppy_offset sector d =
      let side = ltp_entry sector d in
      let track = track_of sector d in
      let phy = (track * qdh_offset d + bit_and side 0x7f) % qdh_spt d in
      (track * qdh_spc d + phy + (if test side 0x80 then 1 else 0) * qdh_spt d) * 2 ^ 9

module _ {F : Type 0} ⦃io : DiskFile F⦄ where
  -- `DiskRead` and `DiskWrite` of the 512 bytes at `p` of the buffer
  unfoldable pub disk_read : (p offset : ℕ) → Fcb F → OsErr × Fcb F
  disk_read p offset d =
      let s = io.seek offset d.host in
      let r = io.read (slice p d.buffer) s.1 in
      if s.0
      then (error_of r.0.0, record d { buffer = paste p r.0.1 d.buffer; host = r.1 })
      else (failed, record d { host = s.1 })

  unfoldable pub disk_write : (p offset : ℕ) → Fcb F → OsErr × Fcb F
  disk_write p offset d =
      let s = io.seek offset d.host in
      let w = io.write (slice p d.buffer) s.1 in
      if s.0 then (error_of w.0, record d { host = w.1 }) else (failed, record d { host = s.1 })

  -- `LoadLogSector` with `LoadPhySector`
  unfoldable pub load_log_sector : (sector p : ℕ) → Fcb F → OsErr × Fcb F
  unfolding disk_read floppy_offset
  load_log_sector sector p d =
      if not d.has_buffer
      then (uninitialized_disk, d)
      else if is_qlwa d
      then disk_read p (qlwa_offset sector) d
      else disk_read p (floppy_offset sector d) d

  -- `WritePhySector` counts the updates before it writes.
  unfoldable pub count_update : Fcb F → Fcb F
  count_update d = record d {
    buffer = poke_long d.buffer 16 ((peek_long d.buffer 16 + 1) % 2 ^ 32);
  }

  -- `WriteLogSector` with `WritePhySector`
  unfoldable pub write_log_sector : (sector p : ℕ) → Fcb F → OsErr × Fcb F
  unfolding disk_write floppy_offset count_update
  write_log_sector sector p d =
      if not d.has_buffer
      then (uninitialized_disk, d)
      else if is_qlwa d
      then disk_write p (qlwa_offset sector) d
      else disk_write p (floppy_offset sector d) (count_update d)
