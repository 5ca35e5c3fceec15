-- ===== src/Disk/Coherence/Get.antt =====
-- `GetSector` (QDisk.c) gives the sector of the medium, whichever buffer it takes.
use s_qlux.Base.{ℕ, ◌*◌, ◌<◌, if◌then◌else◌}
use s_qlux.Base.{Bool, true, false, not, Option, none, some}
use s_qlux.Base.{◌≡◌, refl, arith, ◌∙◌, ap, sym}
use s_qlux.Disk.{Fcb, FileNum, DiskFile, fine}
use s_qlux.Disk.Cache.{Found, hit, miss, holds, scan, touch}
use s_qlux.Disk.Cache.{load_into, use_buffer, get_sector}
use s_qlux.Disk.Scan.{IsFound, scan-IsFound}
use s_qlux.Disk.Coherence.{IsReliable, IsCache, Represents, sector_limit}
use s_qlux.Disk.Coherence.Back.{back, write_back_lem, back-IsCache, back-Represents, back-own}
use s_qlux.Disk.Coherence.Load.{after_load, load_into_lem, load-IsCache, load-Represents, load-map}

module _ {F : Type 0} ⦃io : DiskFile F⦄ (law : IsReliable io) where
  -- A call on `d` gave a buffer that holds the sector `s`; the medium is still `g`, and the map in
  -- memory is as it was.
  pub record IsGot (d : Fcb F) (s : ℕ) (g : ℕ → ℕ → ℕ) (r : Option (Option ℕ × Fcb F))
      : Type 0 where
    pub place : ℕ
    pub after : Fcb F
    pub result : r ≡ some (some (place * 512), after)
    pub within : place < after.bufcount
    pub held : holds s (after.si place) ≡ true
    pub cache : IsCache law after
    pub same : Represents law after g
    pub sectors : after.fat_sectors ≡ d.fat_sectors
    pub map_kept : (a : ℕ) → a < d.fat_sectors * 512 → after.buffer a ≡ d.buffer a

  abbrev touched : ℕ → Fcb F → Fcb F
  touched k d = touch k (d.si k) (record d { g_error = fine })

  holds-touched : (k i t : ℕ) (d : Fcb F) → holds t ((touched k d).si i) ≡ holds t (d.si i)
  holds-touched k i t d = ground arith

  touched-IsCache : (k : ℕ) (d : Fcb F) → IsCache law d → IsCache law (touched k d)
  touched-IsCache k d c = record {
    ready = c.ready;
    kind = c.kind;
    room = c.room;
    locks = λ i over. ground (arith, c.locks i over);
    map = λ i under.
        let (held, locked) = c.map i under in (holds-touched k i i d ∙ held, ground arith);
    reach = λ i li taken. let r = c.reach i li in ground arith;
    once = λ i j t li lj hi hj.
        c.once i j t li lj (sym (holds-touched k i t d) ∙ hi) (sym (holds-touched k j t d) ∙ hj);
    clean = λ i b t li small held same.
        c.clean i b t li small (sym (holds-touched k i t d) ∙ held) (ground arith);
  }

  touched-Represents :
      (k : ℕ) (d : Fcb F) (g : ℕ → ℕ → ℕ) → Represents law d g → Represents law (touched k d) g
  touched-Represents k d g r = record {
    held = λ i b t li small held. r.held i b t li small (sym (holds-touched k i t d) ∙ held);
    stored = λ t b within small nowhere.
        r.stored t b within small (λ i li. sym (holds-touched k i t d) ∙ nowhere i li);
  }

  use_buffer-IsGot :
      (s : ℕ) (fn : FileNum) (d : Fcb F) (g : ℕ → ℕ → ℕ) (found : Found)
      → IsCache law d
      → Represents law d g
      → s < sector_limit
      → IsFound s 0 d.bufcount none d.si found
      → IsGot d s g (use_buffer s fn d found)
  unfolding use_buffer
  use_buffer-IsGot s fn d g (hit k) c r reach f = record {
    place = k;
    after = touched k d;
    result = refl;
    within = f.0;
    held = holds-touched k k s d ∙ f.1;
    cache = touched-IsCache k d c;
    same = touched-Represents k d g r;
    sectors = refl;
    map_kept = λ a low. refl;
  }
  use_buffer-IsGot s fn d g (miss none) c r reach f =
      let busy = f.1 d.fat_sectors (omega arith) c.room in
      let open_one = c.locks d.fat_sectors (omega arith) in absurd (ground arith)
  use_buffer-IsGot s fn d g (miss (some k)) c r reach f =
      let d1 : Fcb F = record d { host = back k d } in
      let c1 = back-IsCache law k d c f.1 in
      let r1 = back-Represents law k d g c f.1 r in
      let absent : (i : ℕ) → i < d.bufcount → holds s (d.si i) ≡ false =
        λ i li. f.0 i (omega arith) li in
      record {
        place = k;
        after = after_load s fn k d1;
        result = ap some (
            ap (load_into s fn k) (write_back_lem law k d c f.1)
            ∙ load_into_lem law s k fn d1 c1 reach);
        within = f.1;
        held = ground arith;
        cache = load-IsCache law s k fn d1 c1 reach f.1 f.2 absent;
        same =
            load-Represents law s k fn d1 c1 reach f.1 f.2 absent g r1
              (λ b small taken. back-own law k b d g c f.1 small taken r);
        sectors = refl;
        map_kept = load-map law s k fn d1 c1 reach f.1 f.2 absent;
      }

  when_ready :
      (d : Fcb F) (s : ℕ) (g : ℕ → ℕ → ℕ) (ready : Bool) (x y : Option (Option ℕ × Fcb F))
      → ready ≡ true
      → IsGot d s g y
      → IsGot d s g (if not ready then x else y)
  when_ready d s g true x y e got = got
  when_ready d s g false x y e got = absurd (ground arith)

  -- On a file without errors, `GetSector` gives a buffer with the sector of the medium; the medium
  -- is as it was, the buffers that were not changed still agree with the file, and no two of them
  -- hold the same sector.
  pub get_sector-IsGot :
      (s : ℕ) (fn : FileNum) (d : Fcb F) (g : ℕ → ℕ → ℕ)
      → IsCache law d
      → Represents law d g
      → s < sector_limit
      → IsGot d s g (get_sector s fn d)
  unfolding get_sector
  get_sector-IsGot s fn d g c r reach = when_ready d s g d.has_buffer _ _ c.ready (
      use_buffer-IsGot s fn d g (scan s d.bufcount 0 none d.si) c r reach
        (scan-IsFound s d.bufcount 0 d.bufcount none d.si (omega arith) tt))
