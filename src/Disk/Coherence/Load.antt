-- ===== src/Disk/Coherence/Load.antt =====
-- A sector is read into a buffer of a medium (QDisk.c), and the medium stays as it was.
use s_qlux.Base.{◌/◌, ◌&&◌, leb, ltb}
use s_qlux.Base.{ℕ, ◌+◌, ◌*◌, ◌<◌, ◌==◌}
use s_qlux.Base.{if◌then◌else◌, true, false, some}
use s_qlux.Base.{◌≡◌, refl, arith, ◌∙◌, sym, subst, Bool-cases, inl, inr, ==_false}
use s_qlux.Disk.{Fcb, FileNum, DiskFile, paste, slice, fine}
use s_qlux.Disk.Cache.{holds, is_usable, touch}
use s_qlux.Disk.Cache.{load_into}
use s_qlux.Disk.Coherence.{IsReliable, IsCache, Represents, sector_limit, paste-slot}
use s_qlux.Disk.Coherence.Back.{got, load_log_sector_lem}

module _ {F : Type 0} ⦃io : DiskFile F⦄ where
  -- A sector was read into the buffer `k`.
  abbrev pub after_load : ℕ → FileNum → ℕ → Fcb F → Fcb F
  after_load s fn k d =
      touch k (record (d.si k) { log_sector = s; file_num = fn; free = false; changed = false })
        (record d {
          buffer = paste (k * 512) (got s (k * 512) d).0.1 d.buffer;
          host = (got s (k * 512) d).1;
          g_error = fine;
        })

module _ {F : Type 0} ⦃io : DiskFile F⦄ (law : IsReliable io) where
  pub load_into_lem :
      (s k : ℕ) (fn : FileNum) (d : Fcb F)
      → IsCache law d
      → s < sector_limit
      → load_into s fn k d ≡ (some (k * 512), after_load s fn k d)
  unfolding load_into
  load_into_lem s k fn d c h = rw (load_log_sector_lem law s (k * 512) d c h) refl

  module _ (s k : ℕ) (fn : FileNum) (d : Fcb F) (c : IsCache law d) (reach : s < sector_limit)
      (lt : k < d.bufcount) (usable : is_usable (d.si k) ≡ true)
      (absent : (i : ℕ) → i < d.bufcount → holds s (d.si i) ≡ false) where
    -- The buffers that hold a sector afterwards
    holds_after :
        (i t : ℕ)
        → holds t ((after_load s fn k d).si i) ≡ (if i == k then s == t else holds t (d.si i))
    holds_after i t = ground arith

    bytes_after :
        (i b : ℕ)
        → b < 512
        → (after_load s fn k d).buffer (i * 512 + b)
          ≡ (if i == k then law.content d.host s b else d.buffer (i * 512 + b))
    bytes_after i b small =
        paste-slot i k b (got s (k * 512) d).0.1 d.buffer small
        ∙ rw (law.read_bytes s b (slice (k * 512) d.buffer) d.host reach small) refl

    content_after : (t b : ℕ) → law.content (after_load s fn k d).host t b ≡ law.content d.host t b
    content_after t b = law.read_keeps s t b (slice (k * 512) d.buffer) d.host

    -- The buffer was not one of the map.
    not_map : (i : ℕ) → i < d.fat_sectors → (i == k) ≡ false
    not_map i under = ==_false i k (λ e.
        let (held, locked) =
          subst (λ q. (holds i (d.si q) ≡ true) × ((d.si q).locked ≡ true)) e (c.map i under) in
        absurd (ground arith))

    load_once :
        (i j t : ℕ)
        → i < d.bufcount
        → j < d.bufcount
        → (if i == k then s == t else holds t (d.si i)) ≡ true
        → (if j == k then s == t else holds t (d.si j)) ≡ true
        → i ≡ j
    load_once i j t li lj hi hj = elim (Bool-cases (i == k)) [
      | inl at_i ↦ elim (Bool-cases (j == k)) [
        | inl at_j ↦ ground arith
        | inr off_j ↦ let no_j = absent j lj in absurd (ground arith)
      ]
      | inr off_i ↦ elim (Bool-cases (j == k)) [
        | inl at_j ↦ let no_i = absent i li in absurd (ground arith)
        | inr off_j ↦ c.once i j t li lj (ground arith) (ground arith)
      ]
    ]

    load_clean :
        (i b t : ℕ)
        → i < d.bufcount
        → b < 512
        → (if i == k then s == t else holds t (d.si i)) ≡ true
        → ((after_load s fn k d).si i).changed ≡ false
        → (if i == k then law.content d.host s b else d.buffer (i * 512 + b))
          ≡ law.content d.host t b
    load_clean i b t li small held same = elim (Bool-cases (i == k)) [
      | inl at ↦ let e : s ≡ t = ground arith in rw (at, e) refl
      | inr off ↦ rw off (c.clean i b t li small (ground arith) (ground arith))
    ]

    pub load-IsCache : IsCache law (after_load s fn k d)
    load-IsCache = record {
      ready = c.ready;
      kind = c.kind;
      room = c.room;
      locks = λ i over. ground (arith, c.locks i over);
      map = λ i under.
          let (held, locked) = c.map i under in
          (holds_after i i ∙ rw (not_map i under) held, rw (not_map i under) locked);
      reach = λ i li taken. elim (Bool-cases (i == k)) [
        | inl at ↦ rw at reach
        | inr off ↦ rw off (c.reach i li (ground arith))
      ];
      once = λ i j t li lj hi hj.
          load_once i j t li lj (sym (holds_after i t) ∙ hi) (sym (holds_after j t) ∙ hj);
      clean = λ i b t li small held same.
          bytes_after i b small
          ∙ (load_clean i b t li small (sym (holds_after i t) ∙ held) same
              ∙ sym (content_after t b));
    }

    load_held :
        (g : ℕ → ℕ → ℕ) (i b t : ℕ)
        → Represents law d g
        → i < d.bufcount
        → b < 512
        → (if i == k then s == t else holds t (d.si i)) ≡ true
        → (if i == k then law.content d.host s b else d.buffer (i * 512 + b)) ≡ g t b
    load_held g i b t r li small held = elim (Bool-cases (i == k)) [
      | inl at ↦
          let e : s ≡ t = ground arith in
          rw (at, e)
            (r.stored t b (subst (λ q. q < sector_limit) e reach) small
              (subst (λ q. (j : ℕ) → j < d.bufcount → holds q (d.si j) ≡ false) e absent))
      | inr off ↦ rw off (r.held i b t li small (ground arith))
    ]

    pub load-Represents :
        (g : ℕ → ℕ → ℕ)
        → Represents law d g
        → ((b : ℕ)
            → b < 512
            → (d.si k).free ≡ false
            → law.content d.host (d.si k).log_sector b ≡ g (d.si k).log_sector b)
        → Represents law (after_load s fn k d) g
    load-Represents g r own = record {
      held = λ i b t li small held.
          bytes_after i b small ∙ load_held g i b t r li small (sym (holds_after i t) ∙ held);
      stored = λ t b within small nowhere.
          let off : (i : ℕ)
              → i < d.bufcount
              → (if i == k then s == t else holds t (d.si i)) ≡ false =
            λ i li. sym (holds_after i t) ∙ nowhere i li in
          content_after t b ∙ elim (Bool-cases (holds t (d.si k))) [
            | inl there ↦
                let e : (d.si k).log_sector ≡ t = ground arith in
                subst (λ q. law.content d.host q b ≡ g q b) e (own b small (ground arith))
            | inr gone ↦ r.stored t b within small (λ i li. elim (Bool-cases (i == k)) [
              | inl at ↦
                  let at' : i ≡ k = ground arith in
                  subst (λ q. holds t (d.si q) ≡ false) (sym at') gone
              | inr away ↦ let h = off i li in ground arith
            ])
          ];
    }

    -- The map in memory is before the buffer.
    pub load-map : (a : ℕ) → a < d.fat_sectors * 512 → (after_load s fn k d).buffer a ≡ d.buffer a
    load-map a low =
        let other : (a / 512 == k) ≡ false = not_map (a / 512) (omega arith) in
        let out : (leb (k * 512) a && ltb a (k * 512 + 512)) ≡ false = ground arith in rw out refl
