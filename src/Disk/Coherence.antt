-- ===== src/Disk/Coherence.antt =====
-- A medium in memory (QDisk.c): what the buffers and the file of the host stand for together.
pub mod Back
pub mod Load
pub mod Get
pub mod Put
pub mod Save
pub mod Flush
use s_qlux.Base.{ℕ, zero, suc, ◌+◌, ◌-◌, ◌*◌, ◌/◌, ◌%◌, ◌^◌, ◌<◌, ◌≤◌, ltb, leb, ◌==◌}
use s_qlux.Base.{if◌then◌else◌, Bool, true, false, not, ◌&&◌, ◌||◌, Option, none, some}
use s_qlux.Base.{◌≡◌, refl, arith, ◌∙◌, ap, sym, Bool-cases, inl, inr}
use s_qlux.Disk.{Fcb, SectorInfo, DiskFile, DiskType, qlwa, paste}
use s_qlux.Disk.Cache.{holds}

-- The sectors that the offset, an `int`, can reach
abbrev pub sector_limit : ℕ
sector_limit = 2 ^ 22

-- A file whose reads and writes are without error: the 512 bytes of each sector, and the calls that
-- go to one of them and read it or write it.
pub record IsReliable {F : Type 0} (io : DiskFile F) : Type 0 where
  pub content : F → ℕ → ℕ → ℕ
  pub seeks : (o : ℕ) (f : F) → (io.seek o f).0 ≡ true
  pub reads : (old : ℕ → ℕ) (f : F) → (io.read old f).0.0 ≡ true
  pub read_bytes :
      (s b : ℕ) (old : ℕ → ℕ) (f : F)
      → s < sector_limit
      → b < 512
      → (io.read old (io.seek (s * 512) f).1).0.1 b ≡ content f s b
  pub read_keeps :
      (s t b : ℕ) (old : ℕ → ℕ) (f : F)
      → content (io.read old (io.seek (s * 512) f).1).1 t b ≡ content f t b
  pub writes : (buf : ℕ → ℕ) (f : F) → (io.write buf f).0 ≡ true
  pub write_bytes :
      (s t b : ℕ) (buf : ℕ → ℕ) (f : F)
      → s < sector_limit
      → b < 512
      → content (io.write buf (io.seek (s * 512) f).1).1 t b
        ≡ (if t == s then buf b else content f t b)

module _ {F : Type 0} ⦃io : DiskFile F⦄ (law : IsReliable io) where
  -- A QXL.WIN medium: buffers that hold different sectors and agree with the file where they are
  -- unchanged, and one at least that is not locked.
  pub record IsCache (d : Fcb F) : Type 0 where
    pub ready : d.has_buffer ≡ true
    pub kind : d.disk_type ≡ qlwa
    pub room : d.fat_sectors < d.bufcount
    pub locks : (i : ℕ) → d.fat_sectors ≤ i → (d.si i).locked ≡ false
    pub map : (i : ℕ) → i < d.fat_sectors → (holds i (d.si i) ≡ true) × ((d.si i).locked ≡ true)
    pub reach :
        (i : ℕ) → i < d.bufcount → (d.si i).free ≡ false → (d.si i).log_sector < sector_limit
    pub once :
        (i j s : ℕ)
        → i < d.bufcount
        → j < d.bufcount
        → holds s (d.si i) ≡ true
        → holds s (d.si j) ≡ true
        → i ≡ j
    pub clean :
        (i b s : ℕ)
        → i < d.bufcount
        → b < 512
        → holds s (d.si i) ≡ true
        → (d.si i).changed ≡ false
        → d.buffer (i * 512 + b) ≡ law.content d.host s b

  -- The sectors of the medium: those in a buffer as they are there, and the others as in the file
  pub record Represents (d : Fcb F) (g : ℕ → ℕ → ℕ) : Type 0 where
    pub held :
        (i b s : ℕ)
        → i < d.bufcount
        → b < 512
        → holds s (d.si i) ≡ true
        → d.buffer (i * 512 + b) ≡ g s b
    pub stored :
        (s b : ℕ)
        → s < sector_limit
        → b < 512
        → ((i : ℕ) → i < d.bufcount → holds s (d.si i) ≡ false)
        → law.content d.host s b ≡ g s b

pub paste-slot :
    (i k b : ℕ) (bytes buf : ℕ → ℕ)
    → b < 512
    → paste (k * 512) bytes buf (i * 512 + b) ≡ (if i == k then bytes b else buf (i * 512 + b))
paste-slot i k b bytes buf h = elim (Bool-cases (i == k)) [
  | inl e ↦
      let at : i * 512 + b - k * 512 ≡ b = ground arith in
      let in_slot : (leb (k * 512) (i * 512 + b) && ltb (i * 512 + b) (k * 512 + 512)) ≡ true =
        ground arith in
      rw (in_slot, e, at) refl
  | inr e ↦
      let out : (leb (k * 512) (i * 512 + b) && ltb (i * 512 + b) (k * 512 + 512)) ≡ false =
        ground arith in
      rw (out, e) refl
]
