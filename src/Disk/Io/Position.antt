-- ===== src/Disk/Io/Position.antt =====
-- Where operations 0x42 and 0x43 of QDisk.c leave the file pointer.
use s_qlux.Base.{ℕ, ◌+◌, ◌-◌, ◌^◌, ltb, leb, ◌&&◌}
use s_qlux.Base.{◌≡◌, if◌then◌else◌}
use s_qlux.Disk.{OsErr, fine, end_of_file}
use s_qlux.Disk.Files.{Channel}

-- The place that is `d1`, a number with a sign, away from `base`, moved between the end of the
-- header and the end of the file
abbrev pub place_from : (base d1 eof : ℕ) → ℕ
place_from base d1 eof =
    if ltb d1 (2 ^ 31)
    then if ltb eof (base + d1) then eof else base + d1
    else if leb (2 ^ 32 + 64) (base + d1)
    then base + d1 - 2 ^ 32
    else 64

-- It is an error to ask for a place behind the end of the file.
abbrev pub place_error : (base d1 eof : ℕ) → OsErr
place_error base d1 eof = if ltb d1 (2 ^ 31) && ltb eof (base + d1) then end_of_file else fine

-- The file pointer, the error and D1 of an operation that asked for this place
abbrev pub IsPlaced : (base d1 : ℕ) → Channel → (OsErr × ℕ) × Channel → Type 0
IsPlaced base d1 f r =
    (r.1 ≡ record f { pos = place_from base d1 f.eof })
    × (r.0.0 ≡ place_error base d1 f.eof)
    × (r.0.1 + 64 ≡ place_from base d1 f.eof)
