-- ===== src/Dispatch/Full.antt =====
-- The whole table of `SetTabEntries` (Init.c), and the instruction that it holds for each opcode.
use Prim.Native.String.{String}
use s_qlux.Base.{ℕ, zero, suc, ◌+◌, ◌-◌, ◌<◌, ◌==◌, leb, ltb, if◌then◌else◌, Bool, true}
use s_qlux.Base.{
  ◌&&◌, [], ◌∷◌, ◌++◌, Option, some, ◌≡◌, refl, arith, subst, Bool-cases, inl, inr, ltb-true, ◌∙◌,
}
use s_qlux.Machine.{Act}
use s_qlux.Device.{Bus}
use s_qlux.Dispatch.{Table, Rows, Traps, codes, write, set_table, fill, set_inval_entries}
use s_qlux.Dispatch.{scan_pattern}
use s_qlux.Dispatch.Grid.{span, matches, stage}
use s_qlux.Dispatch.Match.{agrees, same, block_eq, block_of, set_table-matches}
use s_qlux.Dispatch.RowsMove.{rows_immediate, rows_move}
use s_qlux.Dispatch.RowsControl.{rows_single, rows_quick, rows_branch}
use s_qlux.Dispatch.RowsArith.{rows_moveq, rows_or, rows_sub, rows_cmp, rows_and, rows_add}
use s_qlux.Dispatch.RowsShift.{rows_shift, rows_unassigned}
use s_qlux.Word.{byte}
use s_qlux.Instr.Logic.{LogicOp, logic_i}
use s_qlux.Instr.Flow.Traps.{illegal, code1010, code1111}

module _ {D : Type 0} where
  -- The calls of `SetTable` one after the other
  unfoldable pub set_rows : Rows D → Table (Act D) → Table (Act D)
  set_rows [] t = t
  set_rows ((s, f) ∷ rows) t = set_rows rows (set_table (codes s) f t)

  -- The last pattern that an opcode matches decides.
  unfoldable pub decode : Rows D → ℕ → Option (Act D) → Option (Act D)
  unfolding matches
  decode [] k d = d
  decode ((s, f) ∷ rows) k d = decode rows k (if matches (codes s) k then some f else d)

  -- Sixteen characters that the scan reads to the same block from either end
  unfoldable all_agree : Rows D → Bool
  unfolding agrees span
  all_agree [] = true
  all_agree ((s, f) ∷ rows) = (agrees (codes s) && (span (codes s) == 65536)) && all_agree rows

  set_rows-decode :
      (rows : Rows D) (t : Table (Act D)) (k : ℕ)
      → all_agree rows ≡ true
      → k < 65536
      → set_rows rows t k ≡ decode rows k (t k)
  unfolding set_rows decode all_agree
  set_rows-decode [] t k h lt = refl
  set_rows-decode ((s, f) ∷ rows) t k h lt =
      let ok : agrees (codes s) ≡ true = ground (arith, h) in
      let full : span (codes s) ≡ 65536 = ground (arith, h) in
      let rest : all_agree rows ≡ true = ground (arith, h) in
      let first : set_table (codes s) f t k ≡ (if matches (codes s) k then some f else t k) =
        ground (arith, set_table-matches (codes s) f t k ok) in
      rw (set_rows-decode rows (set_table (codes s) f t) k rest lt, first) refl

  decode-++ :
      (r1 r2 : Rows D) (k : ℕ) (d : Option (Act D))
      → decode (r1 ++ r2) k d ≡ decode r2 k (decode r1 k d)
  unfolding decode
  decode-++ [] r2 k d = refl
  decode-++ ((s, f) ∷ r1) r2 k d = decode-++ r1 r2 k (if matches (codes s) k then some f else d)

  decode-some :
      (rows : Rows D) (k : ℕ) (f : Act D) → (g : Act D) × (decode rows k (some f) ≡ some g)
  unfolding decode
  decode-some [] k f = (f, refl)
  decode-some ((s, g) ∷ rows) k f = elim (Bool-cases (matches (codes s) k)) [
    | inl fits ↦ rw fits (decode-some rows k g)
    | inr other ↦ rw other (decode-some rows k f)
  ]

  decode-first :
      (s : String) (f : Act D) (rows : Rows D) (k : ℕ) (d : Option (Act D))
      → matches (codes s) k ≡ true
      → (g : Act D) × (decode ((s, f) ∷ rows) k d ≡ some g)
  unfolding decode
  decode-first s f rows k d fits = rw fits (decode-some rows k f)

module _ {ℓ} {A : Type ℓ} where
  fill_lem :
      (f : A) (n i : ℕ) (t : Table A) (k : ℕ)
      → fill f n i t k ≡ (if leb i k && ltb k (i + n) then some f else t k)
  unfolding fill
  fill_lem f zero i t k = ground arith
  fill_lem f (suc n) i t k = ground (arith, fill_lem f n (i + 1) (write f i t) k)

module _ {D : Type 0} ⦃bus : Bus D⦄ where
  unfoldable pub instruction_rows : Traps D → Rows D
  instruction_rows traps =
      rows_immediate
      ++ (rows_move
          ++ (rows_single traps
              ++ (rows_quick
                  ++ (rows_branch
                      ++ (rows_moveq
                          ++ (rows_or
                              ++ (rows_sub
                                  ++ (rows_cmp ++ (rows_and ++ (rows_add ++ rows_shift))))))))))

  unfoldable pub all_rows : Traps D → Rows D
  all_rows traps = instruction_rows traps ++ rows_unassigned

  -- `SetTabEntries`, on the table that `EmulatorTable` allocates
  unfoldable pub set_tab_entries : Traps D → Table (Act D) → Table (Act D)
  set_tab_entries traps t = set_rows (all_rows traps) (set_inval_entries illegal t)

  all_rows_agree : (traps : Traps D) → all_agree (all_rows traps) ≡ true
  unfolding all_agree all_rows instruction_rows rows_immediate rows_move rows_single rows_quick
      rows_branch rows_moveq rows_or rows_sub rows_cmp rows_and rows_add rows_shift rows_unassigned
      agrees same block_eq block_of stage scan_pattern
  all_rows_agree traps = refl

  -- What `SetInvalEntries` leaves
  abbrev pub before : Table (Act D) → Table (Act D)
  before t k = if leb 8 k && ltb k 61440 then some illegal else t k

  -- For every opcode below 65536, the table holds the instruction of the last pattern that the
  -- opcode matches; where none does, that of an invalid code from 8 to 61439, and the entry that
  -- was there before elsewhere.
  pub set_tab_entries-decode :
      (traps : Traps D) (t : Table (Act D)) (k : ℕ)
      → k < 65536
      → set_tab_entries traps t k ≡ decode (all_rows traps) k (before t k)
  unfolding set_tab_entries set_inval_entries
  set_tab_entries-decode traps t k lt =
      subst (λ e. set_tab_entries traps t k ≡ decode (all_rows traps) k e)
        (fill_lem illegal (61440 - 8) 8 t k)
        (set_rows-decode (all_rows traps) (set_inval_entries illegal t) k (all_rows_agree traps) lt)

  first_row :
      (traps : Traps D) (k : ℕ) (d : Option (Act D))
      → k < 8
      → (g : Act D) × (decode (all_rows traps) k d ≡ some g)
  unfolding all_rows instruction_rows rows_immediate matches span
  first_row traps k d lt =
      decode-first "0000000000xxxxxx" (logic_i LogicOp.or byte) _ k d (ground arith)

  line_10 :
      (k : ℕ) (d : Option (Act D))
      → leb 0xA000 k ≡ true
      → ltb k 0xB000 ≡ true
      → decode rows_unassigned k d ≡ some code1010
  unfolding rows_unassigned decode matches span
  line_10 k d low high = ground arith

  line_15 :
      (k : ℕ) (d : Option (Act D))
      → leb 0xF000 k ≡ true
      → ltb k 0x10000 ≡ true
      → decode rows_unassigned k d ≡ some code1111
  unfolding rows_unassigned decode matches span
  line_15 k d low high = ground arith

  -- The two rows that come last decide after all the others.
  last_rows :
      (traps : Traps D) (t : Table (Act D)) (k : ℕ)
      → decode (all_rows traps) k (before t k)
        ≡ decode rows_unassigned k (decode (instruction_rows traps) k (before t k))
  unfolding all_rows
  last_rows traps t k = decode-++ (instruction_rows traps) rows_unassigned k (before t k)

  last_full :
      (traps : Traps D) (t : Table (Act D)) (k : ℕ)
      → leb 0xF000 k ≡ true
      → k < 0x10000
      → decode (all_rows traps) k (before t k) ≡ some code1111
  last_full traps t k low lt =
      last_rows traps t k
      ∙ line_15 k (decode (instruction_rows traps) k (before t k)) low (ltb-true k 0x10000 lt)

  -- Whatever the memory held before, every entry below 65536 is set.
  pub set_tab_entries-full :
      (traps : Traps D) (t : Table (Act D)) (k : ℕ)
      → k < 65536
      → (g : Act D) × (set_tab_entries traps t k ≡ some g)
  set_tab_entries-full traps t k lt =
      rw (set_tab_entries-decode traps t k lt) elim (Bool-cases (ltb k 8)) [
        | inl low ↦ first_row traps k (before t k) (ground arith)
        | inr high ↦ elim (Bool-cases (leb 0xF000 k)) [
          | inl last ↦ (code1111, last_full traps t k last lt)
          | inr mid ↦
              let invalid : before t k ≡ some illegal = ground arith in
              rw invalid (decode-some (all_rows traps) k illegal)
        ]
      ]

  -- An opcode from 0xA000 to 0xAFFF raises exception 10, and one from 0xF000 exception 11.
  pub set_tab_entries-unassigned :
      (traps : Traps D) (t : Table (Act D)) (k : ℕ)
      → k < 0x1000
      → (set_tab_entries traps t (0xA000 + k) ≡ some code1010)
        × (set_tab_entries traps t (0xF000 + k) ≡ some code1111)
  set_tab_entries-unassigned traps t k lt = (
    set_tab_entries-decode traps t (0xA000 + k) (omega arith)
        ∙ (last_rows traps t (0xA000 + k)
            ∙ line_10 (0xA000 + k)
                (decode (instruction_rows traps) (0xA000 + k) (before t (0xA000 + k)))
                (ground arith) (ground arith)),
    set_tab_entries-decode traps t (0xF000 + k) (omega arith)
        ∙ last_full traps t (0xF000 + k) (ground arith) (omega arith),
  )
