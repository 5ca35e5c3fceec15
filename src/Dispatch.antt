-- ===== src/Dispatch.antt =====
-- The instruction table (Init.c): the scan of a pattern of sixteen `0`, `1` and `x`, the entries it
-- stands for, and the writes of `SetTable`. A position of the pattern is kept with one added, so
-- that 0 is the position before the first character, which the source must not read.
pub mod Entries
pub mod Grid
pub mod Match
pub mod RowsMove
pub mod RowsControl
pub mod RowsArith
pub mod RowsShift
pub mod Full
use Prim.Native.Char.{code}
use Prim.Native.String.{String}
use s_qlux.Machine.{Act}
use s_qlux.Base.{ℕ, zero, suc, ◌+◌, ◌-◌, ◌*◌, ◌/◌, ◌^◌, ◌==◌, leb, ltb, if◌then◌else◌, Bool, true}
use s_qlux.Base.{false, ◌&&◌, ◌||◌, List, [], ◌∷◌, Option, none, some}

abbrev pub codes : String → List ℕ
codes String.[] = []
codes (String.◌∷◌ c s) = code c ∷ codes s

-- `itable`: what each entry of the table holds, nothing where it was never written.
abbrev pub Table {ℓ} : Type ℓ → Type ℓ
Table A = ℕ → Option A

abbrev pub write {ℓ} : {A : Type ℓ} → A → ℕ → Table A → Table A
write f k t j = if j == k then some f else t j

-- `s[i]`, a zero after the end
unfoldable pub char_at : List ℕ → ℕ → ℕ
char_at [] i = 0
char_at (ch ∷ s) zero = ch
char_at (ch ∷ s) (suc i) = char_at s i

-- The first loop: the code with its `1` digits, and whether an `x` was met.
unfoldable pub scan : List ℕ → ℕ → ℕ × Bool → ℕ × Bool
scan [] m r = r
scan (ch ∷ s) m r = scan s (m / 2) (if ch == b'1' then r.0 + m else r.0, r.1 || (ch == b'x'))

-- `while(s[i]!='x') { m0<<=1; i--; }`, from the position before `p`
unfoldable pub skip_digits : List ℕ → ℕ → ℕ → Option (ℕ × ℕ)
unfolding char_at
skip_digits s zero m0 = none
skip_digits s (suc i) m0 =
    let rest = skip_digits s i (m0 * 2) in if char_at s i == b'x' then some (suc i, m0) else rest

-- `while(s[i--]=='x') c1<<=1;`: where it leaves `i`, and the count
unfoldable pub count_run : List ℕ → ℕ → ℕ → Option (ℕ × ℕ)
unfolding char_at
count_run s zero n = none
count_run s (suc i) n =
    let rest = count_run s i (n * 2) in if char_at s i == b'x' then rest else some (i, n)

-- `while(i&&s[i]!='x') i--;`
unfoldable pub find_next : List ℕ → ℕ → Option ℕ
unfolding char_at
find_next s zero = none
find_next s (suc i) =
    let rest = find_next s i in if (i == 0) || (char_at s i == b'x') then some i else rest

-- What a scan finds: one entry, or `c2` runs of `c1` entries, `m0` apart, that start `m` apart.
pub data Block : Type 0 where
  single : ℕ → Block
  grid : (c m0 c1 m c2 : ℕ) → Block

-- `m=0x08000>>i; while(s[--i]=='x') c2<<=1;` with c2 = 2
unfoldable pub second_run : List ℕ → ℕ → ℕ → ℕ → ℕ → Option Block
unfolding count_run
second_run s i c m0 c1 = elim (count_run s i 2) [
  | none ↦ none
  | some r ↦ some (grid c m0 c1 (0x8000 / 2 ^ i) r.1)
]

unfoldable pub first_run : List ℕ → ℕ → ℕ × ℕ → Option Block
unfolding count_run find_next second_run
first_run s c low = elim (count_run s low.0 1) [
  | none ↦ none
  | some run ↦ elim (find_next s run.0) [
    | none ↦ none
    | some i ↦ (if i == 0 then some (grid c low.1 run.1 0 1) else second_run s i c low.1 run.1)
  ]
]

-- `SetTable` as far as the stores; nothing where it would read before the pattern.
unfoldable pub scan_pattern : List ℕ → Option Block
unfolding scan skip_digits first_run
scan_pattern s =
    let r = scan s 0x8000 (0, false) in
    if r.1
    then elim (skip_digits s 16 1) [ none ↦ none | some low ↦ first_run s r.0 low ]
    else some (single r.0)

module _ {ℓ} {A : Type ℓ} where
  -- `while(i--) { *p=f; p+=m0; }`
  unfoldable pub store_run : A → ℕ → ℕ → ℕ → Table A → Table A
  store_run f zero m0 p t = t
  store_run f (suc n) m0 p t = store_run f n m0 (p + m0) (write f p t)

  -- `while(c2--) { … c+=m; }`
  unfoldable pub store_runs : A → ℕ → ℕ → ℕ → ℕ → ℕ → Table A → Table A
  unfolding store_run
  store_runs f zero m c1 m0 c t = t
  store_runs f (suc n) m c1 m0 c t = store_runs f n m c1 m0 (c + m) (store_run f c1 m0 c t)

  unfoldable pub store_block : A → Block → Table A → Table A
  unfolding store_runs
  store_block f (single c) t = write f c t
  store_block f (grid c m0 c1 m c2) t = store_runs f c2 m c1 m0 c t

  -- Where the scan would read before the pattern, which none of the table does, the model leaves
  -- the table as it is.
  unfoldable pub store : A → Option Block → Table A → Table A
  unfolding store_block
  store f b t = elim b [ none ↦ t | some b ↦ store_block f b t ]

  -- `SetTable`
  unfoldable pub set_table : List ℕ → A → Table A → Table A
  set_table s f t = store f (scan_pattern s) t

  -- `SetInvalEntries`: the loop over the entries from `i` on.
  unfoldable pub fill : A → ℕ → ℕ → Table A → Table A
  fill f zero i t = t
  fill f (suc n) i t = fill f n (i + 1) (write f i t)

  unfoldable pub set_inval_entries : A → Table A → Table A
  unfolding fill
  set_inval_entries f t = fill f (61440 - 8) 8 t

-- `trap1`, `trap2` and `trap3` (QLtraps.c) serve calls of QDOS on the host. They are not modelled
-- here and are a parameter of the table.
pub record Traps (D : Type 0) : Type 0 where
  pub trap1 : Act D
  pub trap2 : Act D
  pub trap3 : Act D

-- Calls of `SetTable`: the pattern, and the instruction.
abbrev pub Rows : Type 0 → Type 0
Rows D = List (String × Act D)
