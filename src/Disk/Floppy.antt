-- ===== src/Disk/Floppy.antt =====
-- The map of a floppy disk (QDisk.c): 12 bits of a file and 12 of a block of it for each group of
-- sectors, in three bytes, of which the first is 0xfd where the group is free. Two entries are read
-- at a time.
pub mod Entries
pub mod Found
use s_qlux.Base.{ℕ, zero, suc, ◌+◌, ◌-◌, ◌*◌, ◌/◌, ◌%◌, ◌^◌, bit_and, bit_or, ltb, leb, ◌==◌}
use s_qlux.Base.{if◌then◌else◌, Bool, true, false, ◌&&◌, ◌||◌, Option, none, some}
use s_qlux.Machine.{update}
use s_qlux.Memory.{peek_word, peek_long, poke_word}
use s_qlux.Disk.{Fcb, FileNum, DiskFile, OsErr, fine, no_file_block, drive_full, is_qlwa}
use s_qlux.Disk.{qdh_free, qdh_total, qdh_spb}
use s_qlux.Disk.Cache.{set_changed, get_sector, write_block0}
use s_qlux.Disk.Map.{
  qlwa_get_file_sect_num, qlwa_get_free_block, qlwa_kill_file, qlwa_kill_file_tail,
}

-- The first bytes of the map, and of the pair `i`
abbrev pub pair : ℕ → ℕ
pair i = 96 + 6 * i

abbrev pub value_of : (file block : ℕ) → ℕ
value_of file block = bit_and file 0x0fff * 2 ^ 12 + bit_and block 0x0fff

-- `RL(p) >> 8` and `RW(p) >> 4` of signed numbers, as numbers of 32 bits: the high bit is kept.
abbrev pub long_shr8 : ℕ → ℕ
long_shr8 v = v / 2 ^ 8 + (if leb (2 ^ 31) v then 2 ^ 32 - 2 ^ 24 else 0)

abbrev pub word_shr4 : ℕ → ℕ
word_shr4 v = v / 2 ^ 4 + (if leb (2 ^ 15) v then 2 ^ 32 - 2 ^ 12 else 0)

-- The search for an entry, and for a free one, from the pair `i` on
unfoldable pub find_entry : (ℕ → ℕ) → (value n i : ℕ) → Option ℕ
find_entry buf value zero i = none
find_entry buf value (suc n) i =
    let rest = find_entry buf value n (i + 1) in
    if long_shr8 (peek_long buf (pair i)) == value
    then some (2 * i)
    else if peek_long buf (pair i + 2) % 2 ^ 24 == value
    then some (2 * i + 1)
    else rest

unfoldable pub find_free : (ℕ → ℕ) → (n i : ℕ) → Option ℕ
find_free buf zero i = none
find_free buf (suc n) i =
    let rest = find_free buf n (i + 1) in
    if buf (pair i) == 0xfd
    then some (2 * i)
    else if buf (pair i + 3) == 0xfd
    then some (2 * i + 1)
    else rest

-- The bytes of the entry `j`
unfoldable pub put_entry : (j file block : ℕ) → (ℕ → ℕ) → ℕ → ℕ
put_entry j file block buf =
    let p = pair (j / 2) in
    if j % 2 == 0
    then update (poke_word buf p (bit_or (file * 2 ^ 4) (block / 2 ^ 8) % 2 ^ 16)) (p + 2)
        (block % 2 ^ 8)
    else poke_word (update buf (p + 3) (file / 2 ^ 4 % 2 ^ 8)) (p + 4)
        (bit_or (file * 2 ^ 12) (bit_and block 0x0fff) % 2 ^ 16)

-- A sector of type `w16`, where it is not negative
abbrev pub sector_of : ℕ → Option ℕ
sector_of w = if ltb (w % 2 ^ 16) 0x8000 then some (w % 2 ^ 16) else none

module _ {F : Type 0} where
  -- The number of pairs
  abbrev pub pairs : Fcb F → ℕ
  pairs d = qdh_total d / qdh_spb d / 2

  unfoldable pub located : ℕ → Fcb F → Option ℕ → Option ℕ × Fcb F
  located sector d none = (none, record d { g_error = no_file_block })
  located sector d (some w) = (sector_of (w * qdh_spb d + sector % qdh_spb d), d)

  -- `FileBlockSector`
  unfoldable pub file_block_sector : FileNum → ℕ → Fcb F → Option ℕ × Fcb F
  unfolding qlwa_get_file_sect_num find_entry located
  file_block_sector fn sector d =
      let value = value_of fn.file (sector / qdh_spb d) in
      if is_qlwa d
      then qlwa_get_file_sect_num fn sector d
      else located sector d (find_entry d.buffer value (pairs d) 0)

  abbrev set_free : ℕ → Fcb F → Fcb F
  set_free v d = record d { buffer = poke_word d.buffer 20 (v % 2 ^ 16) }

  -- The entry `j` is taken for a block of a file.
  unfoldable pub take_entry : (j file block : ℕ) → Fcb F → Fcb F
  unfolding put_entry
  take_entry j file block d =
      let first = pair (j / 2) + (if j % 2 == 0 then 0 else 3) in
      let d1 =
        set_changed ((first + 2) / 512) true (
          set_changed (first / 512) true (record d { buffer = put_entry j file block d.buffer })) in
      set_changed 0 true (set_free (qdh_free d1 + 2 ^ 16 - qdh_spb d1) d1)

  -- The entry at `a` is freed.
  unfoldable pub free_entry : ℕ → Fcb F → Fcb F
  free_entry a d =
      let d1 = record d { buffer = update d.buffer a 0xfd } in
      set_free (qdh_free d1 + qdh_spb d1) d1

  -- The file and the block of the entries at `p` and at `p + 3`
  abbrev pub even_file : ℕ → Fcb F → ℕ
  even_file p d = word_shr4 (peek_word d.buffer p)

  abbrev pub odd_file : ℕ → Fcb F → ℕ
  odd_file p d = bit_or (d.buffer (p + 3) * 2 ^ 4) (d.buffer (p + 4) / 2 ^ 4)

  abbrev pub even_block : ℕ → Fcb F → ℕ
  even_block p d = bit_or (d.buffer (p + 2)) (bit_and (d.buffer (p + 1)) 15 * 2 ^ 8)

  abbrev pub odd_block : ℕ → Fcb F → ℕ
  odd_block p d = bit_and (peek_word d.buffer (p + 4)) 0x0fff

  -- One round of `KillFile`, and of `KillFileTail` with whether it freed an entry: the blocks of the
  -- file from `low` on
  unfoldable pub free_pair : (file low i : ℕ) → Bool × Fcb F → Bool × Fcb F
  unfolding free_entry
  free_pair file low i (changed, d) =
      let p = pair i in
      let even = even_file p d == file && leb low (even_block p d) in
      let d1 = if even then free_entry p d else d in
      let odd = odd_file p d1 == file && leb low (odd_block p d1) in
      (changed || (even || odd), if odd then free_entry (p + 3) d1 else d1)

  unfoldable pub free_pairs : (file low n i : ℕ) → Bool × Fcb F → Bool × Fcb F
  unfolding free_pair
  free_pairs file low zero i s = s
  free_pairs file low (suc n) i s = free_pairs file low n (i + 1) (free_pair file low i s)

module _ {F : Type 0} ⦃io : DiskFile F⦄ where
  -- `GetFreeBlock`
  unfoldable pub get_free_block : FileNum → ℕ → Fcb F → Option (Option ℕ × Fcb F)
  unfolding qlwa_get_free_block find_free take_entry get_sector
  get_free_block fn block d =
      if is_qlwa d
      then qlwa_get_free_block fn d
      else if leb 1 (qdh_free d)
      then elim (find_free d.buffer (pairs d) 0) [
        | none ↦ some (none, record d { g_error = drive_full })
        | some j ↦ let d1 = take_entry j fn.file block d in get_sector (j * qdh_spb d1) fn d1
      ]
      else some (none, record d { g_error = drive_full })

  -- `KillFile`
  unfoldable pub kill_file : FileNum → Fcb F → Option (OsErr × Fcb F)
  unfolding qlwa_kill_file free_pairs write_block0
  kill_file fn d =
      if is_qlwa d
      then qlwa_kill_file fn d
      else some (write_block0 (free_pairs fn.file 0 (pairs d) 0 (false, d)).1)

  -- `KillFileTail`
  unfoldable pub kill_file_tail : FileNum → ℕ → Fcb F → Option (OsErr × Fcb F)
  unfolding qlwa_kill_file_tail free_pairs write_block0
  kill_file_tail fn n_block d =
      let low = (n_block + qdh_spb d - 1) / qdh_spb d in
      let r = free_pairs fn.file low (pairs d) 0 (false, d) in
      if is_qlwa d
      then elim (qlwa_kill_file_tail fn n_block d) [ none ↦ none | some d1 ↦ some (fine, d1) ]
      else if r.0
      then some (write_block0 r.1)
      else some (fine, r.1)
