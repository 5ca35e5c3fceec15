-- ===== src/Dispatch/Match.antt =====
-- What `SetTable` (Init.c) writes: the entries that match its pattern, and no other.
use s_qlux.Base.{ℕ, zero, suc, ◌+◌, ◌==◌, ltb, if◌then◌else◌, Bool, true, false, ◌&&◌}
use s_qlux.Base.{List, [], ◌∷◌, Option, none, some, ◌≡◌, ◌≢◌, refl, arith, subst, sym, ap}
use s_qlux.Base.{Bool-cases, inl, inr}
use s_qlux.Dispatch.{Block, single, grid, Table, write, store_run, store_runs, store_block}
use s_qlux.Dispatch.{scan_pattern, store, set_table}
use s_qlux.Dispatch.Grid.{span, matches, Stage, fixed, run, ran, runs, done, bad, shift, double}
use s_qlux.Dispatch.Grid.{advance_stage, stage, member, IsStageOf, stage_zero}
use s_qlux.Dispatch.Entries.{in_run, in_runs}
use s_qlux.Dispatch.Grid.{stage_one, stage_x}

==_path : (a b : ℕ) → (a == b) ≡ true → a ≡ b
==_path a b h = ground arith

StageFits : List ℕ → Type 0
StageFits s = stage s ≢ bad → IsStageOf (stage s) s

fine_shift : (h : ℕ) (st : Stage) → shift h st ≢ bad → st ≢ bad
unfolding shift
fine_shift h st fine e = fine (ap (shift h) e)

fine_double : (h : ℕ) (st : Stage) → double h st ≢ bad → st ≢ bad
unfolding double
fine_double h st fine e = fine (ap (double h) e)

fits_x : (s : List ℕ) → StageFits s → StageFits (b'x' ∷ s)
unfolding StageFits stage advance_stage
fits_x s ih fine = stage_x s fine (ih (fine_double (span s) (stage s) fine))

fits_one : (s : List ℕ) → StageFits s → StageFits (b'1' ∷ s)
unfolding StageFits stage advance_stage
fits_one s ih fine = stage_one s (ih (fine_shift (span s) (stage s) fine))

fits_zero : (s : List ℕ) → StageFits s → StageFits (b'0' ∷ s)
unfolding StageFits stage advance_stage
fits_zero s ih fine = stage_zero s (ih (fine_shift 0 (stage s) fine))

fits_other :
    (ch : ℕ) (s : List ℕ)
    → (ch == b'x') ≡ false
    → (ch == b'1') ≡ false
    → (ch == b'0') ≡ false
    → StageFits (ch ∷ s)
unfolding StageFits stage advance_stage
fits_other ch s not_x not_one not_zero = rw (not_x, not_one, not_zero) λ fine. absurd (fine refl)

fits_cons : (ch : ℕ) (s : List ℕ) → StageFits s → StageFits (ch ∷ s)
fits_cons ch s ih = elim (Bool-cases (ch == b'x')) [
  | inl x ↦ subst (λ q. StageFits (q ∷ s)) (sym (==_path ch b'x' x)) (fits_x s ih)
  | inr not_x ↦ elim (Bool-cases (ch == b'1')) [
    | inl one ↦ subst (λ q. StageFits (q ∷ s)) (sym (==_path ch b'1' one)) (fits_one s ih)
    | inr not_one ↦ elim (Bool-cases (ch == b'0')) [
      | inl nil ↦ subst (λ q. StageFits (q ∷ s)) (sym (==_path ch b'0' nil)) (fits_zero s ih)
      | inr not_zero ↦ fits_other ch s not_x not_one not_zero
    ]
  ]
]

stage_fits : (s : List ℕ) → StageFits s
unfolding StageFits stage IsStageOf member span matches
stage_fits [] = λ fine k. ground arith
stage_fits (ch ∷ s) = fits_cons ch s (stage_fits s)

-- The block that a stage stands for
unfoldable pub block_of : Stage → Option Block
block_of (fixed c) = some (single c)
block_of (run c step n) = some (grid c step n 0 1)
block_of (ran c step n) = some (grid c step n 0 1)
block_of (runs c step n m n2) = some (grid c step n m n2)
block_of (done c step n m n2) = some (grid c step n m n2)
block_of bad = none

unfoldable pub block_eq : Block → Block → Bool
block_eq (single c) (single d) = c == d
block_eq (grid c m0 c1 m c2) (grid d n0 d1 n d2) =
    (c == d) && ((m0 == n0) && ((c1 == d1) && ((m == n) && (c2 == d2))))
block_eq _ _ = false

block_eq_sound : (a b : Block) → block_eq a b ≡ true → a ≡ b
unfolding block_eq
block_eq_sound (single c) (single d) h = ap single (==_path c d h)
block_eq_sound (grid c m0 c1 m c2) (grid d n0 d1 n d2) h =
    let at : c ≡ d = ground (arith, h) in
    let step : m0 ≡ n0 = ground (arith, h) in
    let count : c1 ≡ d1 = ground (arith, h) in
    let far : m ≡ n = ground (arith, h) in let rounds : c2 ≡ d2 = ground (arith, h) in cc
block_eq_sound (single _) (grid _ _ _ _ _) h = ground arith
block_eq_sound (grid _ _ _ _ _) (single _) h = ground arith

unfoldable pub same : Option Block → Option Block → Bool
unfolding block_eq
same (some a) (some b) = block_eq a b
same _ _ = false

same_sound : (a b : Option Block) → same a b ≡ true → a ≡ b
unfolding same
same_sound (some a) (some b) h = ap some (block_eq_sound a b h)
same_sound none _ h = ground arith
same_sound (some _) none h = ground arith

same-none : (a : Option Block) → same a none ≡ false
unfolding same
same-none none = refl
same-none (some a) = refl

-- The scan of a pattern from its end by positions finds what a reading digit by digit does.
unfoldable pub agrees : List ℕ → Bool
unfolding same
agrees s = same (scan_pattern s) (block_of (stage s))

agrees-fine : (s : List ℕ) → agrees s ≡ true → stage s ≢ bad
unfolding agrees block_of
agrees-fine s h e = let no : agrees s ≡ false = rw e (same-none (scan_pattern s)) in ground arith

module _ {ℓ} {A : Type ℓ} where
  pub store_run-in_run :
      (f : A) (n m0 p : ℕ) (t : Table A) (k : ℕ)
      → store_run f n m0 p t k ≡ (if in_run n m0 p k then some f else t k)
  unfolding store_run in_run
  store_run-in_run f zero m0 p t k = refl
  store_run-in_run f (suc n) m0 p t k =
      ground (arith, store_run-in_run f n m0 (p + m0) (write f p t) k)

  store_runs-in_runs :
      (f : A) (n m c1 m0 c : ℕ) (t : Table A) (k : ℕ)
      → store_runs f n m c1 m0 c t k ≡ (if in_runs n m c1 m0 c k then some f else t k)
  unfolding store_runs in_runs
  store_runs-in_runs f zero m c1 m0 c t k = refl
  store_runs-in_runs f (suc n) m c1 m0 c t k = ground (
    arith,
    store_runs-in_runs f n m c1 m0 (c + m) (store_run f c1 m0 c t) k,
    store_run-in_run f c1 m0 c t k,
  )

  store-member :
      (f : A) (st : Stage) (t : Table A) (k : ℕ)
      → store f (block_of st) t k ≡ (if member st k then some f else t k)
  unfolding store block_of member store_block
  store-member f (fixed c) t k = refl
  store-member f (run c step n) t k = store_run-in_run f n step c t k
  store-member f (ran c step n) t k = store_run-in_run f n step c t k
  store-member f (runs c step n m n2) t k = store_runs-in_runs f n2 m n step c t k
  store-member f (done c step n m n2) t k = store_runs-in_runs f n2 m n step c t k
  store-member f bad t k = refl

  -- `SetTable` writes the entries that match the pattern, and no other.
  pub set_table-matches :
      (s : List ℕ) (f : A) (t : Table A) (k : ℕ)
      → agrees s ≡ true
      → set_table s f t k ≡ (if ltb k (span s) && matches s k then some f else t k)
  unfolding set_table agrees IsStageOf StageFits
  set_table-matches s f t k h =
      let fits : member (stage s) k ≡ (ltb k (span s) && matches s k) =
        stage_fits s (agrees-fine s h) k in
      rw (same_sound (scan_pattern s) (block_of (stage s)) h, sym fits)
        (store-member f (stage s) t k)
