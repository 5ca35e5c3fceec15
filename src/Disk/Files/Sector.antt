-- ===== src/Disk/Files/Sector.antt =====
-- A sector of a file on a QXL.WIN medium is the sector of the medium that its chain leads to (QDisk.c).
use s_qlux.Base.{
  ℕ, ◌+◌, ◌*◌, ◌/◌, ◌%◌, ◌<◌, ◌≤◌, List, ◌∷◌, Bool, true, false, arith, if◌then◌else◌, ◌≡◌, refl,
  sym, ◌∙◌, subst, some,
}
use s_qlux.Disk.{Fcb, FileNum, DiskFile, is_qlwa, qwa_spc}
use s_qlux.Disk.Map.{next_of}
use s_qlux.Disk.Chains.{count, Seg, nth_of}
use s_qlux.Disk.Lookup.{qlwa_get_file_sect_num_lem}
use s_qlux.Disk.Floppy.{file_block_sector}
use s_qlux.Disk.Files.{get_file_sector, sector_at}
use s_qlux.Disk.Coherence.{IsReliable, IsCache, Represents, sector_limit}
use s_qlux.Disk.Coherence.Get.{IsGot, get_sector-IsGot}

if-true : {A : Type 0} (b : Bool) (x y : A) → b ≡ true → (if b then x else y) ≡ x
if-true true x y e = refl
if-true false x y e = ground arith

module _ {F : Type 0} ⦃io : DiskFile F⦄ (law : IsReliable io) where
  -- With a file without errors below, and the clusters `x ∷ l` for the file on the medium:
  -- `GetFileSector` gives a buffer with the sector of the medium that is in the cluster for it, and the
  -- medium is as it was.
  pub get_file_sector-IsGot :
      (fn : FileNum) (x : ℕ) (l : List ℕ) (sector : ℕ) (d : Fcb F) (g : ℕ → ℕ → ℕ)
      → IsCache law d
      → Represents law d g
      → Seg (next_of d) 0 fn.file (x ∷ l)
      → sector / qwa_spc d ≤ count l
      → nth_of x l (sector / qwa_spc d) * qwa_spc d + sector % qwa_spc d < sector_limit
      → IsGot law d
          (nth_of x l (sector / qwa_spc d) * qwa_spc d + sector % qwa_spc d)
          g
          (get_file_sector fn sector d)
  unfolding get_file_sector file_block_sector sector_at
  get_file_sector-IsGot fn x l sector d g c r chain within reach =
      let s = nth_of x l (sector / qwa_spc d) * qwa_spc d + sector % qwa_spc d in
      let at : file_block_sector fn sector d ≡ (some s, d) =
        if-true (is_qlwa d) _ _ (rw c.kind refl)
        ∙ (qlwa_get_file_sect_num_lem fn x l sector d chain).0 within in
      subst (λ q. IsGot law d s g (sector_at fn q)) (sym at)
        (get_sector-IsGot law s fn d g c r reach)
