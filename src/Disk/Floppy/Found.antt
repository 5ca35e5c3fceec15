-- ===== src/Disk/Floppy/Found.antt =====
-- An entry of the map of a floppy disk that is taken for a block of a file is found again (QDisk.c,
-- `GetFreeBlock` and `FileBlockSector`).
use s_qlux.Base.{ℕ, ◌+◌, ◌*◌, ◌/◌, ◌%◌, ◌^◌, ◌<◌}
use s_qlux.Base.{false, none, some, Option, leb, ◌&&◌, ◌==◌, if◌then◌else◌}
use s_qlux.Base.{◌≡◌, arith, ◌∙◌, ap, sym, subst, ◌⊎◌, inl, inr, Bool-cases}
use s_qlux.Memory.{peek_word, poke_word}
use s_qlux.Disk.Floppy.{value_of, find_entry, find_free, put_entry, file_block_sector, located}
use s_qlux.Disk.Floppy.{take_entry, sector_of, pairs}
use s_qlux.Disk.{Fcb, FileNum, no_file_block, is_qlwa, qdh_spb, qdh_total}
use s_qlux.Disk.Floppy.Entries.{IsBytes, find_entry-put_entry, find_entry-lost, find_entry-count}

module _ {F : Type 0} where
  located_entry :
      (fn : FileNum) (sector w : ℕ) (d : Fcb F)
      → is_qlwa d ≡ false
      → find_entry d.buffer (value_of fn.file (sector / qdh_spb d)) (pairs d) 0 ≡ some w
      → file_block_sector fn sector d ≡ (sector_of (w * qdh_spb d + sector % qdh_spb d), d)
  unfolding file_block_sector located
  located_entry fn sector w d floppy at = rw floppy (ap (located sector d) at)

  not_located :
      (fn : FileNum) (sector : ℕ) (d : Fcb F)
      → is_qlwa d ≡ false
      → find_entry d.buffer (value_of fn.file (sector / qdh_spb d)) (pairs d) 0 ≡ none
      → file_block_sector fn sector d ≡ (none, record d { g_error = no_file_block })
  unfolding file_block_sector located
  not_located fn sector d floppy at = rw floppy (ap (located sector d) at)

  -- Taking an entry keeps the counts of the first sector, but for that of free sectors.
  taken_spb : (j f b : ℕ) (d : Fcb F) → qdh_spb (take_entry j f b d) ≡ qdh_spb d
  unfolding take_entry put_entry poke_word peek_word
  taken_spb j f b d = ground arith

  taken_total : (j f b : ℕ) (d : Fcb F) → qdh_total (take_entry j f b d) ≡ qdh_total d
  unfolding take_entry put_entry poke_word peek_word
  taken_total j f b d = ground arith

  taken_entry :
      (j f b v n : ℕ) (d : Fcb F)
      → find_entry (take_entry j f b d).buffer v n 0 ≡ find_entry (put_entry j f b d.buffer) v n 0
  unfolding take_entry
  taken_entry j f b v n d = find_entry-count (put_entry j f b d.buffer) v _ n 0

  is_floppy : (j f b : ℕ) (d : Fcb F) → is_qlwa d ≡ false → is_qlwa (take_entry j f b d) ≡ false
  unfolding take_entry
  is_floppy j f b d e = e

  -- The search of `FileBlockSector` after an entry is taken, from the one with the counts of before
  search_after :
      (fn : FileNum) (sector j : ℕ) (d : Fcb F) (found : Option ℕ)
      → let block = sector / qdh_spb d in
        let d' = take_entry j fn.file block d in
        find_entry (put_entry j fn.file block d.buffer) (value_of fn.file block) (pairs d) 0 ≡ found
        → find_entry d'.buffer (value_of fn.file (sector / qdh_spb d')) (pairs d') 0 ≡ found
  search_after fn sector j d found at =
      let block = sector / qdh_spb d in
      let d' = take_entry j fn.file block d in
      let here : find_entry d'.buffer (value_of fn.file block) (pairs d) 0 ≡ found =
        taken_entry j fn.file block (value_of fn.file block) (pairs d) d ∙ at in
      subst
        (λ n. find_entry d'.buffer (value_of fn.file (sector / n)) (qdh_total d' / n / 2) 0 ≡ found)
        (sym (taken_spb j fn.file block d))
        (subst (λ t. find_entry d'.buffer (value_of fn.file block) (t / qdh_spb d / 2) 0 ≡ found)
          (sym (taken_total j fn.file block d)) here)

  -- On a floppy disk, and for file numbers and blocks of 12 bits: `GetFreeBlock` takes an entry for a
  -- block of a file that has none yet. Where the place of the entry is odd or the file number has
  -- 11 bits, `FileBlockSector` then finds the sector there; otherwise, because the number at an even
  -- place is read with a sign, it finds none and says that the file has no such block.
  pub file_block_sector-take_entry :
      (fn : FileNum) (sector j : ℕ) (d : Fcb F)
      → is_qlwa d ≡ false
      → IsBytes d.buffer
      → find_free d.buffer (pairs d) 0 ≡ some j
      → find_entry d.buffer (value_of fn.file (sector / qdh_spb d)) (pairs d) 0 ≡ none
      → fn.file < 2 ^ 12
      → sector / qdh_spb d < 2 ^ 12
      → let d' = take_entry j fn.file (sector / qdh_spb d) d in
        file_block_sector fn sector d' ≡ (
          if leb (2 ^ 11) fn.file && j % 2 == 0
          then (none, record d' { g_error = no_file_block })
          else (sector_of (j * qdh_spb d + sector % qdh_spb d), d'))
  file_block_sector-take_entry fn sector j d floppy bytes free unknown hf hb =
      let block = sector / qdh_spb d in
      let d' = take_entry j fn.file block d in
      let floppy' = is_floppy j fn.file block d floppy in
      elim (Bool-cases (leb (2 ^ 11) fn.file && j % 2 == 0)) [
        | inl high ↦ rw high (
            not_located fn sector d' floppy' (
              search_after fn sector j d none (
                find_entry-lost d.buffer (pairs d) j fn.file block bytes free unknown (ground arith)
                  hf hb (ground arith))))
        | inr plain ↦
            let within : (fn.file < 2 ^ 11) ⊎ (j % 2 ≡ 1) =
              elim (Bool-cases (leb (2 ^ 11) fn.file)) [
                | inl e ↦ inr (ground arith)
                | inr e ↦ inl (ground arith)
              ] in
            rw plain (
              subst (λ n. file_block_sector fn sector d' ≡ (sector_of (j * n + sector % n), d'))
                (taken_spb j fn.file block d)
                (located_entry fn sector j d' floppy' (
                  search_after fn sector j d (some j) (
                    find_entry-put_entry d.buffer (pairs d) j fn.file block bytes free unknown hf hb
                      within))))
      ]
