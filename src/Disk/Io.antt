-- ===== src/Disk/Io.antt =====
-- Traps on an open file of a medium: `QDiskIO` (QDisk.c) behind its tests of the medium and of the
-- access. D1 is a number of 32 bits, and `end_of_file` stands for QERR_EF and QERR_EOF.
pub mod Position
use s_qlux.Base.{ℕ, zero, suc, ◌+◌, ◌-◌, ◌*◌, ◌/◌, ◌%◌, ◌^◌, ◌<◌, ◌≤◌, ltb, leb, ◌==◌}
use s_qlux.Base.{if◌then◌else◌, Bool, true, false, not, ◌&&◌, ◌||◌, Option, none, some, List, ◌∷◌}
use s_qlux.Base.{◌≡◌, refl, arith, Bool-cases, inl, inr}
use s_qlux.Disk.{Fcb, DiskFile, OsErr, fine, end_of_file}
use s_qlux.Disk.Files.{Channel, get_file_sector}

-- Operation 0: is there anything to read?
unfoldable pub check_pending : Channel → OsErr
check_pending f = if leb f.eof f.pos then end_of_file else fine

-- Operation 0x42: the file pointer, counted from behind the header
unfoldable pub set_position : ℕ → Channel → (OsErr × ℕ) × Channel
set_position d1 f =
    let last = (f.eof + 2 ^ 32 - 64) % 2 ^ 32 in
    if leb (2 ^ 31) d1
    then ((fine, 0), record f { pos = 64 })
    else if leb (2 ^ 31) last || ltb last d1
    then ((end_of_file, last), record f { pos = (last + 64) % 2 ^ 32 })
    else ((fine, d1), record f { pos = d1 + 64 })

-- Operation 0x43: the same from where it is
unfoldable pub move_position : ℕ → Channel → (OsErr × ℕ) × Channel
unfolding set_position
move_position d1 f = set_position ((d1 + f.pos + 2 ^ 32 - 64) % 2 ^ 32) f

module _ {F : Type 0} ⦃io : DiskFile F⦄ where
  -- Operation 1: a byte, where there is one
  unfoldable pub fetch_byte : Channel → Fcb F → Option ((OsErr × Option ℕ) × (Channel × Fcb F))
  unfolding get_file_sector
  fetch_byte f d =
      if ltb f.pos f.eof
      then elim (get_file_sector f.number (f.pos / 512) d) [
        | none ↦ none
        | some (none, d1) ↦ some ((d1.g_error, none), (f, d1))
        | some (some s, d1) ↦
            some ((fine, some (d1.buffer (s + f.pos % 512))), (record f { pos = f.pos + 1 }, d1))
      ]
      else some ((end_of_file, none), (f, d))
