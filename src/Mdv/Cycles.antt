-- ===== src/Mdv/Cycles.antt =====
-- The cycles of the CPU behind a word of a tape (mdv.c): 37 for a tick and 16 ticks for a word.
pub mod Words
use s_qlux.Base.{ℕ, zero, suc, ◌+◌, ◌*◌, ◌%◌, ◌^◌, ◌≤◌, ◌<◌, ◌≡◌, refl, ap, sym, subst, ◌∙◌, arith}
use s_qlux.Base.{bit_and, ◌==◌, if◌then◌else◌, Bool, true, false, Bool-cases, inl, inr}
use s_qlux.Bits.{bit_and_mask}
use s_qlux.Mdv.{Drive, next_word, end_of_word, receive, tick, step_ce, start_gap, end_gap, seek}
use s_qlux.Mdv.{reset_tape_state, clk_scaler}
use s_qlux.Mdv.Tape.{word, run}

-- Two drives whose tapes are at the same place, whatever the receivers and the bits of the word
pub record IsSame (d e : Drive) : Type 0 where
  pub words : e.data_at ≡ d.data_at
  pub length_of : e.mdv_end ≡ d.mdv_end
  pub place : e.mem_addr ≡ d.mem_addr
  pub direction : e.reverse ≡ d.reverse
  pub count : e.gap_cnt ≡ d.gap_cnt
  pub header : e.gap_state ≡ d.gap_state
  pub active : e.gap_active ≡ d.gap_active

pub receive-IsSame : (b : Bool) (d e : Drive) → IsSame d e → IsSame d (receive b e)
unfolding receive
receive-IsSame b d e s = record {
  words = ground arith;
  length_of = ground arith;
  place = ground arith;
  direction = ground arith;
  count = ground arith;
  header = ground arith;
  active = ground arith;
}

pub receive-counters :
    (b : Bool) (d : Drive)
    → ((receive b d).clk_cnt ≡ d.clk_cnt) × ((receive b d).bit_cnt ≡ d.bit_cnt)
unfolding receive
receive-counters b d = (ground arith, ground arith)

pub next_word-IsSame :
    (d e : Drive)
    → IsSame d e
    → ((next_word e).0 ≡ (next_word d).0) × IsSame (next_word d).1 (next_word e).1
unfolding next_word seek start_gap end_gap reset_tape_state
next_word-IsSame d e s = (
  ground arith,
  record {
    words = ground arith;
    length_of = ground arith;
    place = ground arith;
    direction = ground arith;
    count = ground arith;
    header = ground arith;
    active = ground arith;
  },
)

pub next_word-counters :
    (d : Drive) → ((next_word d).1.clk_cnt ≡ d.clk_cnt) × ((next_word d).1.bit_cnt ≡ d.bit_cnt)
unfolding next_word seek start_gap end_gap reset_tape_state
next_word-counters d = (ground arith, ground arith)

-- A cycle of the selected drive, with the number of the blocks that have ended
unfoldable pub cycle : ℕ × Drive → ℕ × Drive
unfolding step_ce
cycle (k, d) = let r = step_ce true d in (if r.0 then suc k else k, r.1)

unfoldable pub cycles : ℕ → ℕ × Drive → ℕ × Drive
unfolding cycle
cycles zero s = s
cycles (suc n) s = cycles n (cycle s)

pub cycles-add : (n m : ℕ) (s : ℕ × Drive) → cycles (n + m) s ≡ cycles m (cycles n s)
unfolding cycles
cycles-add zero m s = let e : 0 + m ≡ m = omega arith in ap (λ n. cycles n s) e
cycles-add (suc n) m s =
    let e : suc n + m ≡ suc (n + m) = omega arith in
    ap (λ i. cycles i s) e ∙ cycles-add n m (cycle s)

quiet_cycle :
    (k : ℕ) (d : Drive) → d.clk_cnt < 36 → cycle (k, d) ≡ (k, record d { clk_cnt = d.clk_cnt + 1 })
unfolding cycle step_ce
quiet_cycle k d h =
    let off : d.clk_cnt == clk_scaler ≡ false = ground arith in
    let small : (d.clk_cnt + 1) % 2 ^ 8 ≡ d.clk_cnt + 1 = omega arith in
    let more : d.clk_cnt + 1 == 0 ≡ false = ground arith in rw (off, small, more) refl

quiet_cycles :
    (n k : ℕ) (d : Drive)
    → d.clk_cnt + n ≤ 36
    → cycles n (k, d) ≡ (k, record d { clk_cnt = d.clk_cnt + n })
unfolding cycles
quiet_cycles zero k d h = let e : d.clk_cnt + 0 ≡ d.clk_cnt = omega arith in rw e refl
quiet_cycles (suc n) k d h =
    let e : d.clk_cnt + 1 + n ≡ d.clk_cnt + suc n = omega arith in
    ap (cycles n) (quiet_cycle k d (omega arith))
    ∙ quiet_cycles n k (record d { clk_cnt = d.clk_cnt + 1 }) (omega arith)
    ∙ rw e refl

cycle-tick :
    (k : ℕ) (d : Drive)
    → d.clk_cnt ≡ 36
    → cycle (k, d)
      ≡ (let r = tick true (record d { clk_cnt = 0 }) in (if r.0 then suc k else k, r.1))
unfolding cycle step_ce
cycle-tick k d h = let on : d.clk_cnt == clk_scaler ≡ true = ground arith in rw on refl

pub cycles-tick :
    (k : ℕ) (d : Drive)
    → d.clk_cnt ≡ 0
    → cycles 37 (k, d)
      ≡ (let r = tick true (record d { clk_cnt = 0 }) in (if r.0 then suc k else k, r.1))
unfolding cycles
cycles-tick k d h =
    let d' = record d { clk_cnt = d.clk_cnt + 36 } in
    cycles-add 36 1 (k, d)
    ∙ ap (cycles 1) (quiet_cycles 36 k d (omega arith))
    ∙ cycle-tick k d' (omega arith)
