-- ===== src/Dispatch/Grid.antt =====
-- The entries that a pattern of `SetTable` stands for, digit by digit.
use s_qlux.Base.{ℕ, ◌+◌, ◌-◌, ◌==◌, leb, ltb, if◌then◌else◌, Bool, true, false, ◌&&◌}
use s_qlux.Base.{◌||◌, List, [], ◌∷◌, ◌≡◌, ◌≢◌, refl, arith, to_ℕ, subst}
use s_qlux.Base.{Bool-cases, inl, inr}
use s_qlux.Dispatch.Entries.{
  in_run, in_runs, after, after-shift, after-+, in_run-+, in_runs-+, in_run-shift, in_runs-shift,
}

-- 2 to the power of the length
unfoldable pub span : List ℕ → ℕ
span [] = 1
span (ch ∷ s) = span s + span s

-- Every character is `x` or the binary digit of `k` at its place.
unfoldable pub matches : List ℕ → ℕ → Bool
unfolding span
matches [] k = true
matches (ch ∷ s) k =
    ((ch == b'x') || (ch == b'0' + to_ℕ (leb (span s) k)))
    && matches s (if leb (span s) k then k - span s else k)

-- A pattern read from its end: no `x` yet, in a run or after it, in a second run or after it.
pub data Stage : Type 0 where
  fixed : ℕ → Stage
  run ran : (c step n : ℕ) → Stage
  runs done : (c step n m n2 : ℕ) → Stage
  bad : Stage

-- The character is a digit, and `h` is added to every entry.
unfoldable pub shift : ℕ → Stage → Stage
shift h (fixed c) = fixed (c + h)
shift h (run c step n) = ran (c + h) step n
shift h (ran c step n) = ran (c + h) step n
shift h (runs c step n m n2) = done (c + h) step n m n2
shift h (done c step n m n2) = done (c + h) step n m n2
shift h bad = bad

-- The character is `x`: every entry, and every entry with `h` added.
unfoldable pub double : ℕ → Stage → Stage
double h (fixed c) = run c h 2
double h (run c step n) = run c step (n + n)
double h (ran c step n) = runs c step n h 2
double h (runs c step n m n2) = runs c step n m (n2 + n2)
double h (done c step n m n2) = bad
double h bad = bad

unfoldable pub advance_stage : ℕ → ℕ → Stage → Stage
unfolding shift double
advance_stage ch h st =
    if ch == b'x'
    then double h st
    else if ch == b'1'
    then shift h st
    else if ch == b'0'
    then shift 0 st
    else bad

unfoldable pub stage : List ℕ → Stage
unfolding advance_stage span
stage [] = fixed 0
stage (ch ∷ s) = advance_stage ch (span s) (stage s)

unfoldable pub member : Stage → ℕ → Bool
unfolding in_run in_runs
member (fixed c) k = k == c
member (run c step n) k = in_run n step c k
member (ran c step n) k = in_run n step c k
member (runs c step n m n2) k = in_runs n2 m n step c k
member (done c step n m n2) k = in_runs n2 m n step c k
member bad k = false

-- A run that is still open fills the span that was read.
unfoldable Fills : ℕ → Stage → Type 0
unfolding after
Fills h (run c step n) = after n step c ≡ c + h
Fills h (runs c step n m n2) = after n2 m c ≡ c + h
Fills h _ = Unit {0}

member-shift : (h k : ℕ) (st : Stage) → member (shift h st) k ≡ (leb h k && member st (k - h))
unfolding member shift
member-shift h k (fixed c) = ground arith
member-shift h k (run c step n) = in_run-shift n step c h k
member-shift h k (ran c step n) = in_run-shift n step c h k
member-shift h k (runs c step n m n2) = in_runs-shift n2 m n step c h k
member-shift h k (done c step n m n2) = in_runs-shift n2 m n step c h k
member-shift h k bad = ground arith

member-double :
    (h k : ℕ) (st : Stage)
    → Fills h st
    → double h st ≢ bad
    → member (double h st) k ≡ (member st k || member (shift h st) k)
unfolding member shift double Fills in_run in_runs
member-double h k (fixed c) fills fine = ground arith
member-double h k (run c step n) fills fine =
    subst (λ q. in_run (n + n) step c k ≡ (in_run n step c k || in_run n step q k)) fills
      (in_run-+ n n step c k)
member-double h k (ran c step n) fills fine = ground arith
member-double h k (runs c step n m n2) fills fine =
    subst
      (λ q. in_runs (n2 + n2) m n step c k ≡ (in_runs n2 m n step c k || in_runs n2 m n step q k))
      fills (in_runs-+ n2 n2 m n step c k)
member-double h k (done c step n m n2) fills fine = absurd (fine refl)
member-double h k bad fills fine = absurd (fine refl)

Fills-bad : (h : ℕ) → Fills h bad
unfolding Fills
Fills-bad h = tt

Fills-shift : (h j : ℕ) (st : Stage) → Fills j (shift h st)
unfolding Fills shift
Fills-shift h j (fixed c) = tt
Fills-shift h j (run c step n) = tt
Fills-shift h j (ran c step n) = tt
Fills-shift h j (runs c step n m n2) = tt
Fills-shift h j (done c step n m n2) = tt
Fills-shift h j bad = tt

Fills-double : (h : ℕ) (st : Stage) → Fills h st → Fills (h + h) (double h st)
unfolding Fills double after
Fills-double h (fixed c) fills = omega arith
Fills-double h (run c step n) fills =
    rw (after-+ n n step c, fills, after-shift n step c h, fills) omega arith
Fills-double h (ran c step n) fills = omega arith
Fills-double h (runs c step n m n2) fills =
    rw (after-+ n2 n2 m c, fills, after-shift n2 m c h, fills) omega arith
Fills-double h (done c step n m n2) fills = tt
Fills-double h bad fills = tt

Fills-advance : (ch h : ℕ) (st : Stage) → Fills h st → Fills (h + h) (advance_stage ch h st)
unfolding advance_stage
Fills-advance ch h st fills = elim (Bool-cases (ch == b'x')) [
  | inl x ↦ rw x (Fills-double h st fills)
  | inr not_x ↦ elim (Bool-cases (ch == b'1')) [
    | inl one ↦ rw (not_x, one) (Fills-shift h (h + h) st)
    | inr not_one ↦ elim (Bool-cases (ch == b'0')) [
      | inl nil ↦ rw (not_x, not_one, nil) (Fills-shift 0 (h + h) st)
      | inr other ↦ rw (not_x, not_one, other) (Fills-bad (h + h))
    ]
  ]
]

Fills-stage : (s : List ℕ) → Fills (span s) (stage s)
unfolding stage span advance_stage Fills
Fills-stage [] = tt
Fills-stage (ch ∷ s) = Fills-advance ch (span s) (stage s) (Fills-stage s)

-- Digit by digit, the entries of a stage are the numbers below the span that match.
unfoldable pub IsStageOf : Stage → List ℕ → Type 0
unfolding span
IsStageOf st s = (k : ℕ) → member st k ≡ (ltb k (span s) && matches s k)

-- What a digit adds: the entries at or over `h`, less `h`, where the digit is `1`.
add-shift :
    (h d k : ℕ) (st : Stage) (s : List ℕ)
    → h ≡ span s
    → IsStageOf st s
    → member (shift h st) k ≡ (leb h k && (ltb (k - h) h && matches s (k - h)))
unfolding IsStageOf
add-shift h d k st s at ih = ground (arith, member-shift h k st, ih (k - h))

pub stage_zero : (s : List ℕ) → IsStageOf (stage s) s → IsStageOf (shift 0 (stage s)) (b'0' ∷ s)
unfolding IsStageOf matches span
stage_zero s ih k = ground (arith, member-shift 0 k (stage s), ih k)

pub stage_one :
    (s : List ℕ) → IsStageOf (stage s) s → IsStageOf (shift (span s) (stage s)) (b'1' ∷ s)
unfolding IsStageOf matches span
stage_one s ih k = ground (arith, member-shift (span s) k (stage s), ih (k - span s))

pub stage_x :
    (s : List ℕ)
    → double (span s) (stage s) ≢ bad
    → IsStageOf (stage s) s
    → IsStageOf (double (span s) (stage s)) (b'x' ∷ s)
unfolding IsStageOf matches span
stage_x s fine ih k = ground (
  arith,
  member-double (span s) k (stage s) (Fills-stage s) fine,
  member-shift (span s) k (stage s),
  ih k,
  ih (k - span s),
)
