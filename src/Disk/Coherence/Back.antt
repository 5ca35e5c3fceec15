-- ===== src/Disk/Coherence/Back.antt =====
-- A buffer of a medium is written back to the file (QDisk.c), and the medium stays as it was.
use s_qlux.Base.{ℕ, ◌+◌, ◌*◌, ◌<◌, ◌==◌}
use s_qlux.Base.{if◌then◌else◌, Bool, true, false, ◌&&◌}
use s_qlux.Base.{◌≡◌, refl, arith, ◌∙◌, sym, subst, Bool-cases, inl, inr, ==_refl}
use s_qlux.Disk.{Fcb, DiskFile, paste, slice, qlwa_offset, fine}
use s_qlux.Disk.{disk_read, disk_write, load_log_sector, write_log_sector}
use s_qlux.Disk.Cache.{holds, is_dirty}
use s_qlux.Disk.Cache.{write_back}
use s_qlux.Disk.Coherence.{IsReliable, IsCache, Represents, sector_limit}

pub offset_lem : (s : ℕ) → s < sector_limit → qlwa_offset s ≡ s * 512
offset_lem s h = ground arith

module _ {F : Type 0} ⦃io : DiskFile F⦄ where
  -- The file after a sector was written from a buffer, and the machine after one was read
  abbrev pub written : (s p : ℕ) → Fcb F → F
  written s p d = (io.write (slice p d.buffer) (io.seek (s * 512) d.host).1).1

  abbrev pub got : (s p : ℕ) → Fcb F → (Bool × (ℕ → ℕ)) × F
  got s p d = io.read (slice p d.buffer) (io.seek (s * 512) d.host).1

  -- What the file has after a buffer was written back
  abbrev pub back : ℕ → Fcb F → F
  back k d = if is_dirty (d.si k) then written (d.si k).log_sector (k * 512) d else d.host

module _ {F : Type 0} ⦃io : DiskFile F⦄ (law : IsReliable io) where
  pub write_log_sector_lem :
      (s p : ℕ) (d : Fcb F)
      → IsCache law d
      → s < sector_limit
      → write_log_sector s p d ≡ (fine, record d { host = written s p d })
  unfolding write_log_sector disk_write
  write_log_sector_lem s p d c h =
      rw
        (
          c.ready,
          c.kind,
          offset_lem s h,
          law.seeks (s * 512) d.host,
          law.writes (slice p d.buffer) (io.seek (s * 512) d.host).1,
        )
        refl

  pub load_log_sector_lem :
      (s p : ℕ) (d : Fcb F)
      → IsCache law d
      → s < sector_limit
      → load_log_sector s p d
        ≡ (fine, record d { buffer = paste p (got s p d).0.1 d.buffer; host = (got s p d).1 })
  unfolding load_log_sector disk_read
  load_log_sector_lem s p d c h =
      rw
        (
          c.ready,
          c.kind,
          offset_lem s h,
          law.seeks (s * 512) d.host,
          law.reads (slice p d.buffer) (io.seek (s * 512) d.host).1,
        )
        refl

  pub write_back_lem :
      (k : ℕ) (d : Fcb F)
      → IsCache law d
      → k < d.bufcount
      → write_back k d ≡ record d { host = back k d }
  unfolding write_back
  write_back_lem k d c lt = elim (Bool-cases (is_dirty (d.si k))) [
    | inl dirty ↦
        let reach = c.reach k lt (ground arith) in
        rw (dirty, write_log_sector_lem (d.si k).log_sector (k * 512) d c reach) refl
    | inr spared ↦ rw spared refl
  ]

  back-content :
      (k t b : ℕ) (d : Fcb F)
      → IsCache law d
      → k < d.bufcount
      → b < 512
      → law.content (back k d) t b ≡ (
          if is_dirty (d.si k) && t == (d.si k).log_sector
          then d.buffer (k * 512 + b)
          else law.content d.host t b)
  back-content k t b d c lt small = elim (Bool-cases (is_dirty (d.si k))) [
    | inl dirty ↦
        let reach = c.reach k lt (ground arith) in
        rw dirty
          (law.write_bytes (d.si k).log_sector t b (slice (k * 512) d.buffer) d.host reach small)
    | inr spared ↦ rw spared refl
  ]

  back-elsewhere :
      (k t b : ℕ) (d : Fcb F)
      → IsCache law d
      → k < d.bufcount
      → b < 512
      → (is_dirty (d.si k) && t == (d.si k).log_sector) ≡ false
      → law.content (back k d) t b ≡ law.content d.host t b
  back-elsewhere k t b d c lt small other = back-content k t b d c lt small ∙ rw other refl

  -- A buffer that was written back leaves the medium as it was.
  pub back-IsCache :
      (k : ℕ) (d : Fcb F)
      → IsCache law d
      → k < d.bufcount
      → IsCache law (record d { host = back k d })
  back-IsCache k d c lt = record {
    ready = c.ready;
    kind = c.kind;
    room = c.room;
    locks = c.locks;
    map = c.map;
    reach = c.reach;
    once = c.once;
    clean = λ i b s li small held same.
        c.clean i b s li small held same
        ∙ sym (
            back-elsewhere k s b d c lt small
              (elim (Bool-cases (is_dirty (d.si k) && s == (d.si k).log_sector)) [
                | inl at_k ↦
                    let e : i ≡ k = c.once i k s li lt held (ground arith) in
                    let unchanged : (d.si k).changed ≡ false =
                      subst (λ q. (d.si q).changed ≡ false) e same in
                    absurd (ground arith)
                | inr other ↦ other
              ]));
  }

  pub back-Represents :
      (k : ℕ) (d : Fcb F) (g : ℕ → ℕ → ℕ)
      → IsCache law d
      → k < d.bufcount
      → Represents law d g
      → Represents law (record d { host = back k d }) g
  back-Represents k d g c lt r = record {
    held = r.held;
    stored = λ s b reach small nowhere.
        let not_k = nowhere k lt in
        back-elsewhere k s b d c lt small (ground arith) ∙ r.stored s b reach small nowhere;
  }

  -- After that, the file has the sector of the buffer.
  pub back-own :
      (k b : ℕ) (d : Fcb F) (g : ℕ → ℕ → ℕ)
      → IsCache law d
      → k < d.bufcount
      → b < 512
      → (d.si k).free ≡ false
      → Represents law d g
      → law.content (back k d) (d.si k).log_sector b ≡ g (d.si k).log_sector b
  back-own k b d g c lt small taken r =
      let held : holds (d.si k).log_sector (d.si k) ≡ true = ground arith in
      let bytes = r.held k b (d.si k).log_sector lt small held in
      back-content k (d.si k).log_sector b d c lt small ∙ elim (Bool-cases (d.si k).changed) [
        | inl dirty ↦ rw (taken, dirty, ==_refl (d.si k).log_sector) bytes
        | inr clean ↦
            rw (taken, clean) (sym (c.clean k b (d.si k).log_sector lt small held clean) ∙ bytes)
      ]
