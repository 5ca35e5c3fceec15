-- ===== src/Disk/Cache.antt =====
-- The sectors of a medium in memory (QDisk.c): `GetSector`, `PutSector`, `WriteBlock0` and
-- `FlushSectors`. A pointer to a sector is its offset in the buffer.
use s_qlux.Base.{ℕ, zero, suc, ◌+◌, ◌-◌, ◌*◌, ◌/◌, ◌%◌, ◌^◌, ltb, ◌==◌, if◌then◌else◌}
use s_qlux.Base.{Bool, true, false, not, ◌&&◌, ◌||◌, Option, none, some}
use s_qlux.Disk.{FileNum, SectorInfo, Fcb, DiskFile, OsErr, fine, uninitialized_disk, is_fine}
use s_qlux.Disk.{load_log_sector, write_log_sector}

-- What the loop of `GetSector` finds: the sector, or the buffer to use, which has no value where
-- every buffer is locked.
pub data Found : Type 0 where
  hit : ℕ → Found
  miss : Option ℕ → Found

abbrev pub holds : ℕ → SectorInfo → Bool
holds s x = not x.free && x.log_sector == s

abbrev pub is_usable : SectorInfo → Bool
is_usable x = x.free || not x.locked

abbrev pub is_dirty : SectorInfo → Bool
is_dirty x = not x.free && x.changed

-- The times are kept, and do not matter: the test of them is commented out.
unfoldable pub scan : (s n i : ℕ) → Option ℕ → (ℕ → SectorInfo) → Found
scan s zero i k si = miss k
scan s (suc n) i k si =
    let rest = scan s n (i + 1) (if is_usable (si i) then some i else k) si in
    if holds s (si i) then hit i else rest

abbrev pub set_info : (ℕ → SectorInfo) → ℕ → SectorInfo → ℕ → SectorInfo
set_info si k x i = if i == k then x else si i

module _ {F : Type 0} where
  -- `si[k].time = ++counter`, with another change of the buffer's entry
  abbrev pub touch : ℕ → SectorInfo → Fcb F → Fcb F
  touch k x d = record d {
    counter = d.counter + 1;
    si = set_info d.si k (record x { time = (d.counter + 1) % 2 ^ 32 });
  }

  abbrev pub set_changed : ℕ → Bool → Fcb F → Fcb F
  set_changed k v d = record d { si = set_info d.si k (record (d.si k) { changed = v }) }

  -- `PutSector`; a pointer outside the buffer is only reported.
  unfoldable pub put_sector : ℕ → Fcb F → Fcb F
  put_sector p d =
      let k = p / 512 in
      if ltb k d.bufcount then touch k (record (d.si k) { changed = true }) d else d

module _ {F : Type 0} ⦃io : DiskFile F⦄ where
  -- The error of the write is not looked at.
  unfoldable pub write_back : ℕ → Fcb F → Fcb F
  unfolding write_log_sector
  write_back k d =
      if is_dirty (d.si k) then (write_log_sector (d.si k).log_sector (k * 512) d).1 else d

  unfoldable pub load_into : ℕ → FileNum → ℕ → Fcb F → Option ℕ × Fcb F
  unfolding load_log_sector
  load_into s fn k d =
      let r = load_log_sector s (k * 512) d in
      let d1 = record r.1 { g_error = r.0 } in
      if is_fine r.0
      then (
        some (k * 512),
        touch k (record (d1.si k) { log_sector = s; file_num = fn; free = false; changed = false })
            d1,
      )
      else (none, record d1 { si = set_info d1.si k (record (d1.si k) { free = true }) })

  unfoldable pub use_buffer : ℕ → FileNum → Fcb F → Found → Option (Option ℕ × Fcb F)
  unfolding write_back load_into
  use_buffer s fn d (hit i) = some (some (i * 512), touch i (d.si i) (record d { g_error = fine }))
  use_buffer s fn d (miss none) = none
  use_buffer s fn d (miss (some k)) = some (load_into s fn k (write_back k d))

  -- `GetSector`: the sector's place in the buffer, and no result where the source would use a `k`
  -- without a value.
  unfoldable pub get_sector : ℕ → FileNum → Fcb F → Option (Option ℕ × Fcb F)
  unfolding scan use_buffer
  get_sector s fn d =
      if not d.has_buffer
      then some (none, record d { g_error = uninitialized_disk })
      else use_buffer s fn d (scan s d.bufcount 0 none d.si)

  -- The loop of `WriteBlock0` from sector `i` on, while there is no error
  unfoldable pub write_map : (n i : ℕ) → Fcb F → OsErr × Fcb F
  unfolding write_log_sector
  write_map zero i d = (fine, d)
  write_map (suc n) i d =
      let r = write_log_sector i (i * 512) d in
      let d1 = set_changed i false r.1 in
      let rest = write_map n (i + 1) d1 in if is_fine r.0 then rest else (r.0, d1)

  -- `WriteBlock0`: the other sectors of the map first
  unfoldable pub write_block0 : Fcb F → OsErr × Fcb F
  unfolding write_map write_log_sector
  write_block0 d =
      let m = write_map (d.fat_sectors - 1) 1 d in
      let r = write_log_sector 0 0 m.1 in
      if is_fine m.0 then (if is_fine r.0 then (r.0, set_changed 0 false r.1) else r) else m

  unfoldable pub flush_buffer : ℕ → Fcb F → Fcb F
  unfolding write_log_sector
  flush_buffer k d =
      if is_dirty (d.si k)
      then set_changed k false (write_log_sector (d.si k).log_sector (k * 512) d).1
      else d

  unfoldable pub flush_buffers : (n k : ℕ) → Fcb F → Fcb F
  unfolding flush_buffer
  flush_buffers zero k d = d
  flush_buffers (suc n) k d = flush_buffers n (k + 1) (flush_buffer k d)

  unfoldable pub flush_sectors : Fcb F → Fcb F
  unfolding write_block0 flush_buffers
  flush_sectors d = let r = write_block0 d in flush_buffers r.1.bufcount 0 r.1
