-- ===== src/Mdv/Cycles/Words.antt =====
-- 16 ticks of the tape are a word of it (mdv.c).
use s_qlux.Base.{ℕ, zero, suc, ◌+◌, ◌*◌, ◌%◌, ◌≤◌, ◌<◌, ◌≡◌, refl, ap, sym, subst, ◌∙◌, arith}
use s_qlux.Base.{bit_and, ◌==◌, if◌then◌else◌, true, false, Bool-cases, inl, inr}
use s_qlux.Bits.{bit_and_mask}
use s_qlux.Mdv.{Drive, end_of_word, receive, tick}
use s_qlux.Mdv.Tape.{word, run}
use s_qlux.Mdv.Cycles.{
  IsSame, cycles, receive-IsSame, receive-counters, next_word-IsSame, next_word-counters,
  cycles-add, cycles-tick,
}

-- The place of the head, between two ticks and `b` of them behind the last word
pub record IsPhase (d : Drive) (b : ℕ) (e : Drive) : Type 0 where
  pub same : IsSame d e
  pub clock : e.clk_cnt ≡ 0
  pub bits : e.bit_cnt ≡ (b + 15) % 16

abbrev received : Drive → Drive
received e = if bit_and e.bit_cnt 7 == 2 then receive true e else e

received-IsSame : (d e : Drive) → IsSame d e → IsSame d (received e)
received-IsSame d e s = elim (Bool-cases (bit_and e.bit_cnt 7 == 2)) [
  | inl second ↦ rw second (receive-IsSame true d e s)
  | inr other ↦ rw other s
]

received-counters :
    (e : Drive) → ((received e).clk_cnt ≡ e.clk_cnt) × ((received e).bit_cnt ≡ e.bit_cnt)
received-counters e = elim (Bool-cases (bit_and e.bit_cnt 7 == 2)) [
  | inl second ↦ rw second (receive-counters true e)
  | inr other ↦ rw other (refl, refl)
]

counted-IsSame :
    (d e : Drive) (x y : ℕ) → IsSame d e → IsSame d (record e { clk_cnt = x; bit_cnt = y })
counted-IsSame d e x y s = record {
  words = s.words;
  length_of = s.length_of;
  place = s.place;
  direction = s.direction;
  count = s.count;
  header = s.header;
  active = s.active;
}

next_bit : (b : ℕ) → b < 16 → bit_and ((b + 15) % 16 + 1) 0x0f ≡ b
next_bit b h = bit_and_mask 4 ((b + 15) % 16 + 1) ∙ omega arith

quiet_tick :
    (k b : ℕ) (d e : Drive)
    → IsPhase d b e
    → b < 15
    → let r = cycles 37 (k, e) in (r.0 ≡ k) × IsPhase d (b + 1) r.1
unfolding tick
quiet_tick k b d e p h =
    let next : bit_and (e.bit_cnt + 1) 0x0f ≡ b = rw p.bits (next_bit b (omega arith)) in
    let inside : b == 15 ≡ false = ground arith in
    let e1 = record e { clk_cnt = 0; bit_cnt = b } in
    let c = received-counters e1 in
    let at : (b + 1 + 15) % 16 ≡ b = omega arith in
    rw (cycles-tick k e p.clock, next, inside)
      (
        refl,
        record {
          same = received-IsSame d e1 (counted-IsSame d e 0 b p.same);
          clock = c.0;
          bits = c.1 ∙ sym at;
        },
      )

quiet_ticks :
    (n k b : ℕ) (d e : Drive)
    → IsPhase d b e
    → b + n ≤ 15
    → let r = cycles (n * 37) (k, e) in (r.0 ≡ k) × IsPhase d (b + n) r.1
unfolding cycles
quiet_ticks zero k b d e p h = let at : b + 0 ≡ b = omega arith in rw at (refl, p)
quiet_ticks (suc n) k b d e p h =
    let first = quiet_tick k b d e p (omega arith) in
    let r = cycles 37 (k, e) in
    let rest = quiet_ticks n r.0 (b + 1) d r.1 first.1 (omega arith) in
    let split : suc n * 37 ≡ 37 + n * 37 = omega arith in
    let at : b + 1 + n ≡ b + suc n = omega arith in
    rw (split, cycles-add 37 (n * 37) (k, e), ← at) (rest.0 ∙ first.0, rest.1)

tick-word :
    (k : ℕ) (d e : Drive)
    → IsPhase d 15 e
    → let r = cycles 37 (k, e) in let w = word (k, d) in (r.0 ≡ w.0) × IsPhase w.1 0 r.1
unfolding tick end_of_word word
tick-word k d e p =
    let next : bit_and (e.bit_cnt + 1) 0x0f ≡ 15 = rw p.bits (next_bit 15 (omega arith)) in
    let e1 = record e { clk_cnt = 0; bit_cnt = 15 } in
    let c = received-counters e1 in
    let n =
      next_word-IsSame d (received e1) (received-IsSame d e1 (counted-IsSame d e 0 15 p.same)) in
    let c' = next_word-counters (received e1) in
    rw (cycles-tick k e p.clock, next)
      (
        ap (λ b. if b then suc k else k) n.0,
        record {
          same = record {
            words = n.1.words;
            length_of = n.1.length_of;
            place = n.1.place;
            direction = n.1.direction;
            count = n.1.count;
            header = n.1.header;
            active = n.1.active;
          };
          clock = c'.0 ∙ c.0;
          bits = c'.1 ∙ c.1;
        },
      )

-- 592 cycles are a word.
cycles-word :
    (k : ℕ) (d e : Drive)
    → IsPhase d 0 e
    → let r = cycles 592 (k, e) in let w = word (k, d) in (r.0 ≡ w.0) × IsPhase w.1 0 r.1
cycles-word k d e p =
    let quiet = quiet_ticks 15 k 0 d e p (omega arith) in
    let r = cycles 555 (k, e) in
    let last = tick-word r.0 d r.1 quiet.1 in
    rw (cycles-add 555 37 (k, e)) (
      subst (λ n. ((cycles 37 r).0 ≡ (word (n, d)).0) × IsPhase (word (n, d)).1 0 (cycles 37 r).1)
        quiet.0 last)

-- The cycles of the CPU for `n` words of a tape, from the start of a word: the head is where the
-- tape is after the words, and as many blocks have ended.
pub cycles-run :
    (n k : ℕ) (d e : Drive)
    → IsPhase d 0 e
    → let r = cycles (n * 592) (k, e) in let w = run n (k, d) in (r.0 ≡ w.0) × IsPhase w.1 0 r.1
unfolding run cycles
cycles-run zero k d e p = (refl, p)
cycles-run (suc n) k d e p =
    let first = cycles-word k d e p in
    let r = cycles 592 (k, e) in
    let w = word (k, d) in
    let rest = cycles-run n r.0 w.1 r.1 first.1 in
    let split : suc n * 592 ≡ 592 + n * 592 = omega arith in
    let at : (r.0, w.1) ≡ w = ap (λ q. (q, w.1)) first.0 in
    rw (split, cycles-add 592 (n * 592) (k, e))
      (subst
        (λ s. ((cycles (n * 592) r).0 ≡ (run n s).0) × IsPhase (run n s).1 0 (cycles (n * 592) r).1)
        at rest)
