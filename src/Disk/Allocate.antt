-- ===== src/Disk/Allocate.antt =====
-- Clusters of a QXL.WIN medium (QDisk.c) move between a file and the free ones, and none is lost.
use s_qlux.Base.{ℕ, ◌+◌, ◌-◌, ◌*◌, ◌%◌, ◌^◌, ◌<◌, ◌==◌, if◌then◌else◌}
use s_qlux.Base.{true, false, some, List, [], ◌∷◌, ◌++◌}
use s_qlux.Base.{◌≡◌, refl, arith, ◌∙◌, ap, sym, subst, ==_false, Bool-cases, inl, inr}
use s_qlux.Disk.{Fcb, FileNum, qwa_ffc, qwa_fc}
use s_qlux.Disk.Map.{
  next_of, set_entry, set_ffc, take_free, append, link_free, linked, rounds, chain_end,
}
use s_qlux.Disk.Chains.{count, has, distinct, last_of, Seg, ++_assoc, has-last, count-++}
use s_qlux.Disk.Chains.{
  distinct-left, distinct-right, distinct-apart, frame, join, relink, chain_end_lem,
}
use s_qlux.Disk.Words.{
  IsBytes, next-set_entry, next-set_ffc, next-set_fc, ffc-set_entry, ffc-set_ffc, ffc-set_fc,
  fc-set_entry, fc-set_ffc, fc-set_fc, set_word-IsBytes, word-small,
}

-- In the map of the medium, the file that starts at `file` has the clusters `xs`, and the clusters
-- `ys` are free, as many as the first sector counts; none of them is there twice.
pub record IsMap {F : Type 0} (d : Fcb F) (file : ℕ) (xs ys : List ℕ) : Type 0 where
  pub bytes : IsBytes d
  pub chain : Seg (next_of d) 0 file xs
  pub pool : Seg (next_of d) 0 (qwa_ffc d) ys
  pub counted : qwa_fc d ≡ count ys
  pub apart : distinct (xs ++ ys) ≡ true
  pub small : count (xs ++ ys) < 2 ^ 16

pub last-apart :
    (x : ℕ) (l zs : List ℕ) → distinct ((x ∷ l) ++ zs) ≡ true → has (last_of x l) zs ≡ false
last-apart x l zs h = elim (Bool-cases (has (last_of x l) zs)) [
  | inr out ↦ out
  | inl there ↦ ground (arith, distinct-apart (x ∷ l) zs (last_of x l) h there, has-last x l)
]

module _ {F : Type 0} where
  -- What the steps do to the map, to the first free cluster and to the count
  take-next :
      (nb a : ℕ) (d : Fcb F) → next_of (take_free nb d) a ≡ (if a == nb then 0 else next_of d a)
  unfolding take_free
  take-next nb a d =
      next-set_entry nb 0 a (set_ffc (next_of d nb) d) (omega arith)
      ∙ rw (next-set_ffc (next_of d nb) a d) refl

  take-ffc : (nb : ℕ) (d : Fcb F) → IsBytes d → qwa_ffc (take_free nb d) ≡ next_of d nb
  unfolding take_free
  take-ffc nb d b =
      ffc-set_entry nb 0 (set_ffc (next_of d nb) d)
      ∙ ffc-set_ffc (next_of d nb) d (word-small (0x40 + 2 * nb) d b)

  take-fc : (nb : ℕ) (d : Fcb F) → qwa_fc (take_free nb d) ≡ qwa_fc d
  unfolding take_free
  take-fc nb d = fc-set_entry nb 0 (set_ffc (next_of d nb) d) ∙ fc-set_ffc (next_of d nb) d

  take-IsBytes : (nb : ℕ) (d : Fcb F) → IsBytes d → IsBytes (take_free nb d)
  unfolding take_free
  take-IsBytes nb d b =
      set_word-IsBytes (0x40 + 2 * nb) 0 (set_ffc (next_of d nb) d)
        (set_word-IsBytes 0x32 (next_of d nb) d b)

  append-next :
      (last nb a : ℕ) (d : Fcb F)
      → nb < 2 ^ 16
      → next_of (append last nb d) a ≡ (if a == last then nb else next_of d a)
  unfolding append
  append-next last nb a d small =
      next-set_fc (qwa_fc (set_entry last nb d) + 2 ^ 16 - 1) a (set_entry last nb d)
      ∙ next-set_entry last nb a d small

  append-ffc : (last nb : ℕ) (d : Fcb F) → qwa_ffc (append last nb d) ≡ qwa_ffc d
  unfolding append
  append-ffc last nb d =
      ffc-set_fc (qwa_fc (set_entry last nb d) + 2 ^ 16 - 1) (set_entry last nb d)
      ∙ ffc-set_entry last nb d

  append-fc :
      (last nb : ℕ) (d : Fcb F) → qwa_fc (append last nb d) ≡ (qwa_fc d + 2 ^ 16 - 1) % 2 ^ 16
  unfolding append
  append-fc last nb d =
      fc-set_fc (qwa_fc (set_entry last nb d) + 2 ^ 16 - 1) (set_entry last nb d)
      ∙ rw (fc-set_entry last nb d) omega arith

  append-IsBytes : (last nb : ℕ) (d : Fcb F) → IsBytes d → IsBytes (append last nb d)
  unfolding append
  append-IsBytes last nb d b =
      set_word-IsBytes 0x2c ((qwa_fc (set_entry last nb d) + 2 ^ 16 - 1) % 2 ^ 16)
        (set_entry last nb d) (set_word-IsBytes (0x40 + 2 * last) nb d b)

  -- The map after the first free cluster was taken: the file and the other free clusters are as before.
  take-chain :
      (nb file : ℕ) (xs ys : List ℕ) (d : Fcb F)
      → IsMap d file xs (nb ∷ ys)
      → Seg (next_of (take_free nb d)) 0 file xs
  take-chain nb file xs ys d m =
      frame (next_of d) (next_of (take_free nb d)) 0 file xs
        (λ a i.
          let out : has nb xs ≡ false = distinct-apart xs (nb ∷ ys) nb m.apart (ground arith) in
          take-next nb a d ∙ rw (==_false a nb (λ e. ground arith)) refl)
        m.chain

  take-pool :
      (nb file : ℕ) (xs ys : List ℕ) (d : Fcb F)
      → IsMap d file xs (nb ∷ ys)
      → Seg (next_of (take_free nb d)) 0 (next_of d nb) ys
  take-pool nb file xs ys d m =
      let once = distinct-right xs (nb ∷ ys) m.apart in
      frame (next_of d) (next_of (take_free nb d)) 0 (next_of d nb) ys
        (λ a i. take-next nb a d ∙ rw (==_false a nb (λ e. ground arith)) refl) m.pool.2

  link_free-ffc :
      (fn : FileNum) (r : ℕ × ℕ) (d : Fcb F)
      → chain_end (next_of (take_free (qwa_ffc d) d)) rounds fn.file ≡ some r
      → link_free fn d ≡ some (qwa_ffc d, append r.1 (qwa_ffc d) (take_free (qwa_ffc d) d))
  unfolding link_free linked
  link_free-ffc fn r d e = ap (linked (qwa_ffc d) (take_free (qwa_ffc d) d)) e

  link_free-at :
      (fn : FileNum) (nb : ℕ) (r : ℕ × ℕ) (d : Fcb F)
      → qwa_ffc d ≡ nb
      → chain_end (next_of (take_free nb d)) rounds fn.file ≡ some r
      → link_free fn d ≡ some (nb, append r.1 nb (take_free nb d))
  link_free-at fn nb r d at =
      subst
        (λ q.
          chain_end (next_of (take_free q d)) rounds fn.file ≡ some r
          → link_free fn d ≡ some (q, append r.1 q (take_free q d)))
        at (link_free-ffc fn r d)

  -- The first free cluster comes to the end of the file, and the others stay free.
  pub link_free-IsMap :
      (fn : FileNum) (x nb : ℕ) (l ys : List ℕ) (d : Fcb F)
      → IsMap d fn.file (x ∷ l) (nb ∷ ys)
      → let d' = append (last_of x l) nb (take_free nb d) in
        (link_free fn d ≡ some (nb, d')) × IsMap d' fn.file ((x ∷ l) ++ (nb ∷ [])) ys
  link_free-IsMap fn x nb l ys d m =
      let d1 = take_free nb d in
      let last = last_of x l in
      let d2 = append last nb d1 in
      let chain1 = take-chain nb fn.file (x ∷ l) ys d m in
      let fits : nb < 2 ^ 16 = rw⁻¹ m.pool.0 (word-small 0x32 d m.bytes) in
      let next2 : (a : ℕ) → next_of d2 a ≡ (if a == last then nb else next_of d1 a) =
        λ a. append-next last nb a d1 fits in
      let at_last : next_of d2 last ≡ nb = next2 last ∙ ground arith in
      let other : has last (nb ∷ ys) ≡ false = last-apart x l (nb ∷ ys) m.apart in
      let apart_nb : (nb == last) ≡ false = ground arith in
      let ends : next_of d2 nb ≡ 0 = next2 nb ∙ rw apart_nb (take-next nb nb d ∙ ground arith) in
      let seg1 : Seg (next_of d2) (next_of d2 last) fn.file (x ∷ l) =
        relink (next_of d1) (next_of d2) 0 fn.file x l (distinct-left (x ∷ l) (nb ∷ ys) m.apart)
          (λ a m' i. next2 a ∙ rw i refl) chain1 in
      let seg2 : Seg (next_of d2) 0 (next_of d2 last) (nb ∷ []) = (at_last, m.pool.1, ends) in
      let same = ++_assoc (x ∷ l) (nb ∷ []) ys in
      (
        link_free-at fn nb (count l, last) d m.pool.0
            (chain_end_lem (next_of d1) rounds fn.file x l chain1
              (omega (arith, m.small, count-++ (x ∷ l) (nb ∷ ys)))),
        record {
          bytes = append-IsBytes last nb d1 (take-IsBytes nb d m.bytes);
          chain = join (next_of d2) (next_of d2 last) 0 fn.file (x ∷ l) (nb ∷ []) seg1 seg2;
          pool = rw (append-ffc last nb d1 ∙ take-ffc nb d m.bytes) (
              frame (next_of d1) (next_of d2) 0 (next_of d nb) ys
                (λ a i. next2 a ∙ rw (==_false a last (λ e. ground arith)) refl)
                (take-pool nb fn.file (x ∷ l) ys d m));
          counted =
              append-fc last nb d1
              ∙ rw (take-fc nb d ∙ m.counted) omega (arith, word-small 0x2c d m.bytes, m.counted);
          apart = subst (λ q. distinct q ≡ true) (sym same) m.apart;
          small = subst (λ q. count q < 2 ^ 16) (sym same) m.small;
        },
      )
