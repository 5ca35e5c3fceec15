-- ===== src/Tests/Disks.antt =====
-- Media of QDisk.c at concrete states: a file of sectors, and a map with a file of two clusters.
use s_qlux.Base.{ℕ, ◌+◌, ◌*◌, ◌/◌, ◌%◌, ◌^◌, ◌<◌, ◌==◌, ltb, ◌&&◌, if◌then◌else◌, true, false, not}
use s_qlux.Base.{none, ◌≡◌, refl, arith, some, [], ◌∷◌}
use s_qlux.Base.{◌||◌}
use s_qlux.Memory.{peek_word, peek_long}
use s_qlux.Disk.{floppy_dd}
use s_qlux.Disk.Floppy.{find_free, find_entry, take_entry, file_block_sector}
use s_qlux.Disk.Files.{Channel, move_in, q_read, q_write}
use s_qlux.Disk.Files.Read.{IsStored}
use s_qlux.Disk.Files.Read.Rounds.{IsRead}
use s_qlux.Disk.Files.Read.Loop.{q_read-IsRead}
use s_qlux.Disk.Files.Write.{IsWritten}
use s_qlux.Disk.Files.Write.Loop.{q_read-q_write}
use s_qlux.Base.{Bool-cases, inl, inr}
use s_qlux.Disk.Floppy.Found.{file_block_sector-take_entry}
use s_qlux.Disk.{Fcb, FileNum, SectorInfo, DiskFile, fine, qlwa, paste}
use s_qlux.Disk.Cache.{get_sector, put_sector, flush_sectors}
use s_qlux.Disk.Map.{link_free, free_chain, append, take_free, release}
use s_qlux.Disk.Allocate.{IsMap, link_free-IsMap}
use s_qlux.Disk.Release.{free_chain-IsMap}
use s_qlux.Disk.Coherence.{IsReliable, IsCache, Represents}
use s_qlux.Disk.Coherence.Get.{IsGot, get_sector-IsGot}
use s_qlux.Disk.Coherence.Put.{put_sector-Represents}
use s_qlux.Disk.Coherence.Flush.{flush_sectors-content}

-- A file is a position and its sectors.
abbrev Sectors : Type 0
Sectors = ℕ × (ℕ → ℕ → ℕ)

abbrev sector_file : DiskFile Sectors
sector_file = record {
  seek = λ o f. (true, (o, f.1));
  read = λ old f. ((true, f.1 (f.0 / 512)), (f.0 + 512, f.1));
  write =
      λ buf f. (true, (f.0 + 512, λ t b. if t == f.0 / 512 && ltb b 512 then buf b else f.1 t b));
}

abbrev reliable : IsReliable sector_file
reliable = record {
  content = λ f. f.1;
  seeks = λ o f. refl;
  reads = λ old f. refl;
  read_bytes = λ s b old f h k. let at : s * 512 / 512 ≡ s = omega arith in rw at refl;
  read_keeps = λ s t b old f. refl;
  writes = λ buf f. refl;
  write_bytes = λ s t b buf f h k. let at : s * 512 / 512 ≡ s = omega arith in rw at (ground arith);
}

abbrev nobody : FileNum
nobody = record { dir = 0; file = 0; entrynum = 0 }

-- The first sector is in the first buffer, for the map, and the other buffers are free.
abbrev info : ℕ → SectorInfo
info i = record {
  time = 0;
  log_sector = i;
  file_num = nobody;
  free = not (i == 0);
  changed = false;
  locked = i == 0;
}

-- The sectors of such a medium
abbrev sectors_of : (ℕ → ℕ) → ℕ → ℕ → ℕ
sectors_of buffer t b = if t == 0 then buffer b else t % 256

abbrev medium_with : (ℕ → ℕ) → Fcb Sectors
medium_with buffer = record {
  has_buffer = true;
  buffer = buffer;
  si = info;
  bufcount = 10;
  counter = 0;
  last_sector = none;
  fat_sectors = 1;
  disk_type = qlwa;
  g_error = fine;
  host = (0, sectors_of buffer);
}

abbrev medium : Fcb Sectors
medium = medium_with (λ a. 0)

medium_with-IsCache : (buffer : ℕ → ℕ) → IsCache ⦃io = sector_file⦄ reliable (medium_with buffer)
medium_with-IsCache buffer = record {
  ready = refl;
  kind = refl;
  room = omega arith;
  locks = λ i over. ground arith;
  map = λ i under. (ground arith, ground arith);
  reach = λ i li taken. ground arith;
  once = λ i j s li lj hi hj. ground arith;
  clean = λ i b s li small held same.
      let first : i ≡ 0 = ground arith in
      let zero_s : s ≡ 0 = ground arith in
      let at : i * 512 + b ≡ b = omega (arith, first) in rw (at, zero_s) refl;
}

medium_with-Represents :
    (buffer : ℕ → ℕ)
    → Represents ⦃io = sector_file⦄ reliable (medium_with buffer) (sectors_of buffer)
medium_with-Represents buffer = record {
  held = λ i b s li small held.
      let first : i ≡ 0 = ground arith in
      let zero_s : s ≡ 0 = ground arith in
      let at : i * 512 + b ≡ b = omega (arith, first) in rw (at, zero_s) refl;
  stored = λ s b reach small nowhere. refl;
}

get_sector-IsGot_example :
    IsGot ⦃io = sector_file⦄ reliable medium 5
      (sectors_of (λ a. 0))
      (get_sector ⦃io = sector_file⦄ 5 nobody medium)
get_sector-IsGot_example =
    get_sector-IsGot ⦃io = sector_file⦄ reliable 5 nobody medium (sectors_of (λ a. 0))
      (medium_with-IsCache (λ a. 0)) (medium_with-Represents (λ a. 0)) (omega arith)

-- The first sector is filled with 7.
abbrev changed_medium : Fcb Sectors
changed_medium = put_sector 0 (record medium { buffer = paste 0 (λ b. 7) (λ a. 0) })

changed :
    IsCache ⦃io = sector_file⦄ reliable changed_medium
    × Represents ⦃io = sector_file⦄ reliable changed_medium
        (λ t b. if t == 0 then 7 else sectors_of (λ a. 0) t b)
changed =
    put_sector-Represents ⦃io = sector_file⦄ reliable 0 0 (λ b. 7) medium (sectors_of (λ a. 0))
      (medium_with-IsCache (λ a. 0)) (medium_with-Represents (λ a. 0)) (omega arith) refl

flush_sectors-content_example :
    let d' = flush_sectors ⦃io = sector_file⦄ changed_medium in
    IsCache ⦃io = sector_file⦄ reliable d'
    × Represents ⦃io = sector_file⦄ reliable d'
        (λ t b. if t == 0 then 7 else sectors_of (λ a. 0) t b)
    × ((s b : ℕ)
        → s < 2 ^ 22
        → b < 512
        → d'.host.1 s b ≡ (if s == 0 then 7 else sectors_of (λ a. 0) s b))
unfolding put_sector
flush_sectors-content_example =
    flush_sectors-content ⦃io = sector_file⦄ reliable changed_medium
      (λ t b. if t == 0 then 7 else sectors_of (λ a. 0) t b) changed.0 changed.1 (omega arith)

-- A file in the clusters 1 and 2, and the clusters 3 and 4 free, of 4 sectors each
abbrev map_bytes : ℕ → ℕ
map_bytes a =
    if a == 0x23
    then 4
    else if a == 0x2d
    then 2
    else if a == 0x33
    then 3
    else if a == 0x43
    then 2
    else if a == 0x47
    then 4
    else 0

abbrev mapped : Fcb Sectors
mapped = medium_with map_bytes

abbrev file_1 : FileNum
file_1 = record { dir = 0; file = 1; entrynum = 0 }

mapped-IsMap : IsMap mapped 1 (1 ∷ (2 ∷ [])) (3 ∷ (4 ∷ []))
unfolding peek_word
mapped-IsMap = record {
  bytes = λ a. ground arith;
  chain = (refl, refl, (refl, refl, refl));
  pool = (refl, refl, (refl, refl, refl));
  counted = refl;
  apart = refl;
  small = omega arith;
}

link_free-IsMap_example :
    let d' = append 2 3 (take_free 3 mapped) in
    (link_free file_1 mapped ≡ some (3, d')) × IsMap d' 1 (1 ∷ (2 ∷ (3 ∷ []))) (4 ∷ [])
link_free-IsMap_example = link_free-IsMap file_1 1 3 (2 ∷ []) (4 ∷ []) mapped mapped-IsMap

free_chain-IsMap_example :
    let d' = release 1 2 2 mapped in
    (free_chain file_1 mapped ≡ some d') × IsMap d' 0 [] (1 ∷ (2 ∷ (3 ∷ (4 ∷ []))))
free_chain-IsMap_example =
    free_chain-IsMap file_1 1 (2 ∷ []) (3 ∷ (4 ∷ [])) mapped mapped-IsMap (omega arith)

-- A floppy disk with groups of 3 sectors and room for 4 of them, all free
abbrev floppy : Fcb Sectors
floppy =
    record (medium_with (λ a.
      if a == 25
      then 12
      else if a == 33
      then 3
      else if (a == 96 || a == 99) || (a == 102 || a == 105)
      then 0xfd
      else 0)) { disk_type = floppy_dd }

file_block_sector-take_entry_example :
    let d' = take_entry 0 5 2 floppy in
    file_block_sector (record nobody { file = 5 }) 7 d' ≡ (some 1, d')
unfolding peek_word find_free find_entry peek_long
file_block_sector-take_entry_example =
    file_block_sector-take_entry (record nobody { file = 5 }) 7 0 floppy refl (λ a. ground arith)
      refl refl (omega arith) (omega arith)

-- The file has 3000 bytes.
mapped-IsStored : IsStored 4 1 (2 ∷ []) file_1 3000 mapped
unfolding peek_word
mapped-IsStored = record {
  size = refl;
  chain = mapped-IsMap.chain;
  map = omega arith;
  entries = λ c m. ground arith;
  extent = λ t within. elim (Bool-cases (ltb t 4)) [
    | inl e ↦ let at : t / 4 ≡ 0 = ground arith in (omega (arith, at), rw at (omega arith))
    | inr e ↦ let at : t / 4 ≡ 1 = ground arith in (omega (arith, at), rw at (omega arith))
  ];
}

abbrev file_at_100 : Channel
file_at_100 = record { number = file_1; pos = 100; eof = 3000 }

q_read-IsRead_example :
    (rd : IsRead ⦃io = sector_file⦄ reliable 4 1
      (2 ∷ [])
      (sectors_of map_bytes)
      5000
      0
      20
      (λ a. 0)
      file_at_100
      (q_read ⦃io = sector_file⦄ 5000 20 (λ a. 0) file_at_100 mapped))
    × (rd.error ≡ fine)
q_read-IsRead_example =
    q_read-IsRead ⦃io = sector_file⦄ reliable 4 1 (2 ∷ []) (sectors_of map_bytes) 5000 20 (λ a. 0)
      file_at_100 mapped (medium_with-IsCache map_bytes) (medium_with-Represents map_bytes)
      mapped-IsStored (omega arith)

q_read-q_write_example :
    (w : IsWritten ⦃io = sector_file⦄ reliable 4 1
      (2 ∷ [])
      (sectors_of map_bytes)
      1000
      0
      (λ i. i % 7)
      file_at_100
      (q_write ⦃io = sector_file⦄ 1000 (λ i. i % 7) file_at_100 mapped))
    × (rd : IsRead ⦃io = sector_file⦄ reliable 4 1
        (2 ∷ [])
        w.medium
        1000
        0
        20
        (λ a. 0)
        file_at_100
        (q_read ⦃io = sector_file⦄ 1000 20 (λ a. 0) file_at_100 w.after))
    × (rd.error ≡ fine)
    × ((a : ℕ) → rd.bytes a ≡ move_in 0 20 1000 (λ i. i % 7) (λ b. 0) a)
q_read-q_write_example =
    q_read-q_write ⦃io = sector_file⦄ reliable 4 1 (2 ∷ []) 1000 20 (λ i. i % 7) (λ a. 0)
      file_at_100 mapped (sectors_of map_bytes) (omega arith) refl
      (λ t within. elim (Bool-cases (ltb t 4)) [
        | inl e ↦ let at : t / 4 ≡ 0 = ground arith in rw at (omega arith)
        | inr e ↦ let at : t / 4 ≡ 1 = ground arith in rw at (omega arith)
      ])
      (medium_with-IsCache map_bytes) (medium_with-Represents map_bytes) mapped-IsStored
      (omega arith)
