-- ===== src/Disk/Coherence/Save.antt =====
-- A buffer of a medium is written to the file and marked as unchanged (QDisk.c, as `WriteBlock0` and
-- `FlushSectors` do it).
use s_qlux.Base.{ℕ, ◌+◌, ◌*◌, ◌<◌, ◌==◌, if◌then◌else◌}
use s_qlux.Base.{true, false, ◌≡◌, refl, arith, ◌∙◌, sym, subst}
use s_qlux.Base.{Bool-cases, inl, inr}
use s_qlux.Disk.{Fcb, DiskFile, slice}
use s_qlux.Disk.Cache.{holds, set_changed}
use s_qlux.Disk.Coherence.{IsReliable, IsCache, Represents, sector_limit}
use s_qlux.Disk.Coherence.Back.{written}

module _ {F : Type 0} ⦃io : DiskFile F⦄ where
  -- The sector `s` was written from the buffer `k`.
  abbrev pub saved : (s k : ℕ) → Fcb F → Fcb F
  saved s k d = set_changed k false (record d { host = written s (k * 512) d })

  module _ (law : IsReliable io) where
    holds-saved : (s k i t : ℕ) (d : Fcb F) → holds t ((saved s k d).si i) ≡ holds t (d.si i)
    holds-saved s k i t d = ground arith

    saved_content :
        (s k t b : ℕ) (d : Fcb F)
        → s < sector_limit
        → b < 512
        → law.content (saved s k d).host t b
          ≡ (if t == s then d.buffer (k * 512 + b) else law.content d.host t b)
    saved_content s k t b d reach small =
        law.write_bytes s t b (slice (k * 512) d.buffer) d.host reach small

    pub saved-IsCache :
        (s k : ℕ) (d : Fcb F)
        → IsCache law d
        → k < d.bufcount
        → holds s (d.si k) ≡ true
        → s < sector_limit
        → IsCache law (saved s k d)
    saved-IsCache s k d c lt here reach = record {
      ready = c.ready;
      kind = c.kind;
      room = c.room;
      locks = λ i over. ground (arith, c.locks i over);
      map = λ i under.
          let (held, locked) = c.map i under in (holds-saved s k i i d ∙ held, ground arith);
      reach = λ i li taken. let r = c.reach i li in ground arith;
      once = λ i j t li lj hi hj.
          c.once i j t li lj (sym (holds-saved s k i t d) ∙ hi) (sym (holds-saved s k j t d) ∙ hj);
      clean = λ i b t li small held same.
          let before : holds t (d.si i) ≡ true = sym (holds-saved s k i t d) ∙ held in
          sym (
            saved_content s k t b d reach small ∙ elim (Bool-cases (t == s)) [
              | inl mine ↦
                  let e : t ≡ s = ground arith in
                  let at =
                    c.once i k s li lt (subst (λ q. holds q (d.si i) ≡ true) e before) here in
                  rw (mine, at) refl
              | inr other ↦
                  let away : (i == k) ≡ false = elim (Bool-cases (i == k)) [
                    | inl at ↦
                        let e : i ≡ k = ground arith in
                        let at_k = subst (λ q. holds t (d.si q) ≡ true) e before in
                        absurd (ground arith)
                    | inr away ↦ away
                  ] in
                  rw other (sym (c.clean i b t li small before (ground arith)))
            ]);
    }

    pub saved-Represents :
        (s k : ℕ) (d : Fcb F) (g : ℕ → ℕ → ℕ)
        → Represents law d g
        → k < d.bufcount
        → holds s (d.si k) ≡ true
        → s < sector_limit
        → Represents law (saved s k d) g
    saved-Represents s k d g r lt here reach = record {
      held = λ i b t li small held. r.held i b t li small (sym (holds-saved s k i t d) ∙ held);
      stored = λ t b within small nowhere.
          let gone : holds t (d.si k) ≡ false = sym (holds-saved s k k t d) ∙ nowhere k lt in
          let other : (t == s) ≡ false = ground arith in
          saved_content s k t b d reach small
          ∙ rw other
              (r.stored t b within small (λ i li. sym (holds-saved s k i t d) ∙ nowhere i li));
    }
