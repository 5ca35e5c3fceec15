-- ===== src/Disk/Release.antt =====
-- The clusters of a file of a QXL.WIN medium, or those behind one of them, become free (QDisk.c,
-- `QLWA_KillFile` and `QLWA_KillFileTail`).
use s_qlux.Base.{ℕ, ◌+◌, ◌*◌, ◌%◌, ◌^◌, ◌<◌, ◌==◌, if◌then◌else◌}
use s_qlux.Base.{false, some, List, [], ◌∷◌, ◌++◌}
use s_qlux.Base.{◌≡◌, refl, arith, ◌∙◌, ap, sym, subst, ==_false}
use s_qlux.Disk.{Fcb, FileNum, qwa_ffc, qwa_fc}
use s_qlux.Disk.Map.{next_of, set_entry, set_ffc, rounds}
use s_qlux.Disk.Map.{release, released, free_chain}
use s_qlux.Disk.Chains.{count, has, last_of, Seg, count-++}
use s_qlux.Disk.Chains.{distinct-left, frame, join, relink}
use s_qlux.Disk.Chains.{chain_end_lem}
use s_qlux.Disk.Words.{
  IsBytes, next-set_entry, next-set_ffc, next-set_fc, ffc-set_ffc, ffc-set_fc, fc-set_entry,
  fc-set_ffc, fc-set_fc, set_word-IsBytes, word-small,
}
use s_qlux.Disk.Allocate.{IsMap, last-apart}

module _ {F : Type 0} where
  release-next :
      (file rels last a : ℕ) (d : Fcb F)
      → IsBytes d
      → next_of (release file rels last d) a ≡ (if a == last then qwa_ffc d else next_of d a)
  unfolding release
  release-next file rels last a d b =
      let d1 = set_entry last (qwa_ffc d) d in
      let d2 = set_ffc (file % 2 ^ 16) d1 in
      next-set_fc (qwa_fc d2 + rels) a d2
      ∙ (next-set_ffc (file % 2 ^ 16) a d1
          ∙ next-set_entry last (qwa_ffc d) a d (word-small 0x32 d b))

  release-ffc :
      (file rels last : ℕ) (d : Fcb F) → qwa_ffc (release file rels last d) ≡ file % 2 ^ 16
  unfolding release
  release-ffc file rels last d =
      let d1 = set_entry last (qwa_ffc d) d in
      let d2 = set_ffc (file % 2 ^ 16) d1 in
      ffc-set_fc (qwa_fc d2 + rels) d2 ∙ ffc-set_ffc (file % 2 ^ 16) d1 (omega arith)

  release-fc :
      (file rels last : ℕ) (d : Fcb F)
      → qwa_fc (release file rels last d) ≡ (qwa_fc d + rels) % 2 ^ 16
  unfolding release
  release-fc file rels last d =
      let d1 = set_entry last (qwa_ffc d) d in
      let d2 = set_ffc (file % 2 ^ 16) d1 in
      fc-set_fc (qwa_fc d2 + rels) d2
      ∙ ap (λ n. (n + rels) % 2 ^ 16)
          (fc-set_ffc (file % 2 ^ 16) d1 ∙ fc-set_entry last (qwa_ffc d) d)

  release-IsBytes :
      (file rels last : ℕ) (d : Fcb F) → IsBytes d → IsBytes (release file rels last d)
  unfolding release
  release-IsBytes file rels last d b =
      let d1 = set_entry last (qwa_ffc d) d in
      let d2 = set_ffc (file % 2 ^ 16) d1 in
      set_word-IsBytes 0x2c ((qwa_fc d2 + rels) % 2 ^ 16) d2 (
        set_word-IsBytes 0x32 (file % 2 ^ 16) d1
          (set_word-IsBytes (0x40 + 2 * last) (qwa_ffc d) d b))

  -- The clusters of a file whose first one has 16 bits come before those that were free.
  pub free_chain-IsMap :
      (fn : FileNum) (x : ℕ) (l ys : List ℕ) (d : Fcb F)
      → IsMap d fn.file (x ∷ l) ys
      → fn.file < 2 ^ 16
      → let d' = release fn.file (count l + 1) (last_of x l) d in
        (free_chain fn d ≡ some d') × IsMap d' 0 [] ((x ∷ l) ++ ys)
  unfolding free_chain released
  free_chain-IsMap fn x l ys d m narrow =
      let last = last_of x l in
      let d' = release fn.file (count l + 1) last d in
      let next' : (a : ℕ) → next_of d' a ≡ (if a == last then qwa_ffc d else next_of d a) =
        λ a. release-next fn.file (count l + 1) last a d m.bytes in
      let at_last : next_of d' last ≡ qwa_ffc d = next' last ∙ ground arith in
      let out : has last ys ≡ false = last-apart x l ys m.apart in
      let first : qwa_ffc d' ≡ fn.file =
        release-ffc fn.file (count l + 1) last d ∙ omega (arith, narrow) in
      let seg1 : Seg (next_of d') (next_of d' last) fn.file (x ∷ l) =
        relink (next_of d) (next_of d') 0 fn.file x l (distinct-left (x ∷ l) ys m.apart)
          (λ a m' i. next' a ∙ rw i refl) m.chain in
      let seg2 : Seg (next_of d') 0 (qwa_ffc d) ys =
        frame (next_of d) (next_of d') 0 (qwa_ffc d) ys
          (λ a i. next' a ∙ rw (==_false a last (λ e. ground arith)) refl) m.pool in
      let both : Seg (next_of d') 0 fn.file ((x ∷ l) ++ ys) =
        join (next_of d') (next_of d' last) 0 fn.file (x ∷ l) ys seg1
          (subst (λ q. Seg (next_of d') 0 q ys) (sym at_last) seg2) in
      (
        ap (released fn.file d) (
            chain_end_lem (next_of d) rounds fn.file x l m.chain
              (omega (arith, m.small, count-++ (x ∷ l) ys))),
        record {
          bytes = release-IsBytes fn.file (count l + 1) last d m.bytes;
          chain = refl;
          pool = subst (λ q. Seg (next_of d') 0 q ((x ∷ l) ++ ys)) (sym first) both;
          counted =
              release-fc fn.file (count l + 1) last d
              ∙ omega (arith, m.counted, m.small, count-++ l ys);
          apart = m.apart;
          small = m.small;
        },
      )
