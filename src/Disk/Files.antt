-- ===== src/Disk/Files.antt =====
-- The sectors, the header and the bytes of a file on a medium (QDisk.c).
pub mod Sector
pub mod Read
pub mod Write
use s_qlux.Base.{ℕ, zero, suc, ◌+◌, ◌-◌, ◌*◌, ◌/◌, ◌%◌, ◌^◌, ltb, leb, ◌==◌}
use s_qlux.Base.{if◌then◌else◌, Bool, true, false, not, ◌&&◌, Option, none, some}
use s_qlux.Memory.{peek_long, poke_long}
use s_qlux.Disk.{Fcb, FileNum, DiskFile, OsErr, fine, no_file_block, bad_medium, is_fine}
use s_qlux.Disk.{end_of_file, root_fn, root_flen, sect_per_cluster}
use s_qlux.Disk.Cache.{get_sector, put_sector}
use s_qlux.Disk.Floppy.{file_block_sector, get_free_block}

-- `s ≥ 0`, with the error where there is none yet
abbrev pub no_sector : {F : Type 0} → Fcb F → Option ℕ × Fcb F
no_sector d = (none, record d { g_error = if is_fine d.g_error then bad_medium else d.g_error })

abbrev pub is_block_error : OsErr → Bool
is_block_error no_file_block = true
is_block_error _ = false

-- `BlockMoveData` of `l` bytes, from a place of the data to one of the buffer
abbrev pub move_in : (from to l : ℕ) → (ℕ → ℕ) → (ℕ → ℕ) → ℕ → ℕ
move_in from to l bytes buf a =
    if leb to a && ltb a (to + l) then bytes (from + (a - to)) else buf a

-- The bytes of a round: to the end of the sector at most
abbrev pub chunk : (pos nn : ℕ) → ℕ
chunk pos nn = if ltb nn (512 - pos % 512) then nn else 512 - pos % 512

-- A file that is open: the fields of `struct mdvFile`. A position is a number of 32 bits with a sign
-- in the source, and is one of a file shorter than 2^31 - 512 bytes here.
pub record Channel : Type 0 where
  pub number : FileNum
  pub pos : ℕ
  pub eof : ℕ

-- The bytes of a round of `QRead`: not over the end of the file
abbrev pub read_chunk : ℕ → Channel → ℕ
read_chunk nn f = if ltb f.eof (f.pos + chunk f.pos nn) then f.eof - f.pos else chunk f.pos nn

-- What `QRead` gives back: the bytes that are read and the error, the memory, the file and the medium
abbrev pub Reading : Type 0 → Type 0
Reading F = (ℕ × OsErr) × ((ℕ → ℕ) × (Channel × Fcb F))

module _ {F : Type 0} ⦃io : DiskFile F⦄ where
  unfoldable pub sector_at : FileNum → Option ℕ × Fcb F → Option (Option ℕ × Fcb F)
  unfolding get_sector
  sector_at fn (none, d) = some (no_sector d)
  sector_at fn (some s, d) = get_sector s fn d

  -- `GetFileSector`
  unfoldable pub get_file_sector : FileNum → ℕ → Fcb F → Option (Option ℕ × Fcb F)
  unfolding file_block_sector sector_at
  get_file_sector fn sector d = sector_at fn (file_block_sector fn sector d)

  -- `GetFileHeader`: the entry in the file of the directory. The source leaves `entrynum` of that file
  -- without a value, and does not use it.
  unfoldable pub get_file_header : FileNum → Fcb F → Option (Option ℕ × Fcb F)
  unfolding get_file_sector
  get_file_header fn d =
      elim (get_file_sector (record { dir = 0; file = fn.dir; entrynum = fn.entrynum })
        (fn.entrynum / 8) d) [
          | none ↦ none
          | some (none, d1) ↦ some (none, record d1 { last_sector = none })
          | some (some p, d1) ↦
              some (some (p + fn.entrynum % 8 * 2 ^ 6), record d1 { last_sector = some p })
        ]

  -- `RewriteHeader`
  unfoldable pub rewrite_header : Fcb F → Fcb F
  unfolding put_sector
  rewrite_header d = elim d.last_sector [
    | none ↦ d
    | some p ↦ record (put_sector p d) { last_sector = none }
  ]

  -- `qfLen`; a file that is not found has no length, and is reported.
  unfoldable pub qf_len : FileNum → Fcb F → Option (ℕ × Fcb F)
  unfolding root_fn root_flen get_file_header peek_long
  qf_len fn d =
      if fn.file == (root_fn d).file
      then some ((root_flen d + 2 ^ 32 - 64) % 2 ^ 32, d)
      else elim (get_file_header fn d) [
        | none ↦ none
        | some (none, d1) ↦ some (0, d1)
        | some (some h, d1) ↦ some ((peek_long d1.buffer h + 2 ^ 32 - 64) % 2 ^ 32, d1)
      ]

  -- The sector of `QWrite` at a position: one of the file, or a new one behind its end
  unfoldable pub sector_to_write : Channel → Fcb F → Option (Option ℕ × Fcb F)
  unfolding get_file_sector get_free_block sect_per_cluster
  sector_to_write f d = elim (get_file_sector f.number (f.pos / 512) d) [
    | none ↦ none
    | some (some p, d1) ↦ some (some p, d1)
    | some (none, d1) ↦
        (if is_block_error d1.g_error
          then get_free_block f.number (f.pos / 512 / sect_per_cluster d1) d1
          else some (none, d1))
  ]

  -- The loop of `QWrite`, with the bytes that are left and those that are done; a round moves one at
  -- least, and as many rounds as bytes are enough.
  unfoldable pub write_loop :
      (fuel nn done : ℕ) → (ℕ → ℕ) → Channel → Fcb F → Option ((ℕ × OsErr) × (Channel × Fcb F))
  unfolding sector_to_write put_sector
  write_loop zero nn done bytes f d = some ((done, fine), (f, d))
  write_loop (suc fuel) nn done bytes f d =
      if nn == 0 then some ((done, fine), (f, d)) else elim (sector_to_write f d) [
        | none ↦ none
        | some (none, d1) ↦ some ((done, d1.g_error), (f, d1))
        | some (some s, d1) ↦
            let l = chunk f.pos nn in
            let buf = move_in done (s + f.pos % 512) l bytes d1.buffer in
            write_loop fuel (nn - l) (done + l) bytes (record f { pos = f.pos + l })
              (put_sector s (record d1 { buffer = buf }))
      ]

  -- The end of `QWrite`: a file that has grown gets its length in its header.
  unfoldable pub set_length : OsErr → Channel → Fcb F → Option (OsErr × (Channel × Fcb F))
  unfolding get_file_header rewrite_header poke_long
  set_length e f d =
      let f1 = record f { eof = f.pos } in
      if ltb f.eof f.pos
      then elim (get_file_header f.number d) [
        | none ↦ none
        | some (none, d1) ↦ some (d1.g_error, (f1, d1))
        | some (some h, d1) ↦
            some (e, (f1, rewrite_header (record d1 { buffer = poke_long d1.buffer h f.pos })))
      ]
      else some (e, (f, d))

  -- `QWrite` to a file that is no directory
  unfoldable pub q_write : ℕ → (ℕ → ℕ) → Channel → Fcb F → Option ((ℕ × OsErr) × (Channel × Fcb F))
  unfolding write_loop set_length
  q_write n bytes f d = elim (write_loop n n 0 bytes f d) [
    | none ↦ none
    | some ((done, e), (f1, d1)) ↦ elim (set_length e f1 d1) [
      | none ↦ none
      | some (e', r) ↦ some ((done, if ltb 0 done then fine else e'), r)
    ]
  ]

  -- The loop of `QRead` that does not look for the end of a line, to the memory at `p`; as many rounds
  -- as bytes are enough.
  unfoldable pub read_loop : (fuel nn done p : ℕ) → (ℕ → ℕ) → Channel → Fcb F → Option (Reading F)
  unfolding get_file_sector
  read_loop zero nn done p mem f d = some ((done, fine), (mem, (f, d)))
  read_loop (suc fuel) nn done p mem f d =
      if nn == 0
      then some ((done, fine), (mem, (f, d)))
      else if not (ltb f.pos f.eof)
      then some ((done, end_of_file), (mem, (record f { pos = f.eof }, d)))
      else elim (get_file_sector f.number (f.pos / 512) d) [
        | none ↦ none
        | some (none, d1) ↦ some ((done, d1.g_error), (mem, (f, d1)))
        | some (some s, d1) ↦
            let l = read_chunk nn f in
            let mem' = move_in (s + f.pos % 512) p l d1.buffer mem in
            let f1 = record f { pos = f.pos + l } in
            elim (ltb f.eof (f.pos + chunk f.pos nn)) [
              | true ↦ some ((done + l, end_of_file), (mem', (f1, d1)))
              | false ↦ read_loop fuel (nn - l) (done + l) (p + l) mem' f1 d1
            ]
      ]

  -- `QRead`: an error is given where nothing is read.
  unfoldable pub q_read : (n p : ℕ) → (ℕ → ℕ) → Channel → Fcb F → Option (Reading F)
  unfolding read_loop
  q_read n p mem f d = elim (read_loop n n 0 p mem f d) [
    | none ↦ none
    | some ((done, e), r) ↦ some ((done, if ltb 0 done then fine else e), r)
  ]
