-- ===== src/Mdv/Tape.antt =====
-- The words of a sector on the tape: a gap, a header of 14 words, a gap and a data block of 329.
use s_qlux.Base.{ℕ, zero, suc, ◌+◌, ◌-◌, ◌%◌, ◌^◌, ◌≤◌, ◌<◌, ◌≡◌, refl, ap, sym, subst, ◌∙◌, arith}
use s_qlux.Base.{
  bit_and, ltb, ◌==◌, if◌then◌else◌, Bool, true, false, not, ◌&&◌, Bool-cases, inl, inr,
}
use s_qlux.Bits.{bit_and_mask}
use s_qlux.Mdv.{Drive, next_word, start_gap, end_gap, seek, gap_before_header}
use s_qlux.Mdv.{gap_before_data}

-- A word of the tape goes by, with the number of the blocks that have ended.
unfoldable pub word : ℕ × Drive → ℕ × Drive
unfolding next_word
word (k, d) = let r = next_word d in (if r.0 then suc k else k, r.1)

unfoldable pub run : ℕ → ℕ × Drive → ℕ × Drive
unfolding word
run zero s = s
run (suc n) s = run n (word s)

pub run-add : (n m : ℕ) (s : ℕ × Drive) → run (n + m) s ≡ run m (run n s)
unfolding run
run-add zero m s = let e : 0 + m ≡ m = omega arith in ap (λ n. run n s) e
run-add (suc n) m s =
    let e : suc n + m ≡ suc (n + m) = omega arith in ap (λ i. run i s) e ∙ run-add n m (word s)

pub run-zero : (s : ℕ × Drive) → run 0 s ≡ s
unfolding run
run-zero s = refl

pub run-then : (n m : ℕ) (s t u : ℕ × Drive) → run n s ≡ t → run m t ≡ u → run (n + m) s ≡ u
run-then n m s t u e f = run-add n m s ∙ (ap (run m) e ∙ f)

pub run-suc : (n : ℕ) (s t : ℕ × Drive) → word s ≡ t → run (suc n) s ≡ run n t
unfolding run
run-suc n s t e = ap (run n) e

count_up : (c : ℕ) → c < 1023 → bit_and (c + 1) 0x3ff ≡ c + 1
count_up c h = bit_and_mask 10 (c + 1) ∙ omega arith

-- A word of a gap.
gap_word :
    (k : ℕ) (d : Drive)
    → d.mem_addr ≤ d.mdv_end
    → d.gap_active ≡ true
    → d.gap_cnt < 34
    → word (k, d) ≡ (k, record d { gap_cnt = d.gap_cnt + 1 })
unfolding word next_word
gap_word k d h active c =
    let inside : ltb d.mdv_end d.mem_addr ≡ false = ground arith in
    let more : d.gap_cnt == (if d.gap_state then gap_before_header else gap_before_data) - 1
        ≡ false =
      ground arith in
    rw (inside, active, count_up d.gap_cnt (omega arith), more) refl

gap_end :
    (k : ℕ) (d : Drive)
    → d.mem_addr ≤ d.mdv_end
    → d.gap_active ≡ true
    → d.gap_cnt ≡ 34
    → word (k, d) ≡ (k, end_gap d)
unfolding word next_word end_gap
gap_end k d h active c =
    let inside : ltb d.mdv_end d.mem_addr ≡ false = ground arith in
    let over : d.gap_cnt == (if d.gap_state then gap_before_header else gap_before_data) - 1
        ≡ true =
      ground arith in
    rw (inside, active, over) refl

-- The last word of a block.
abbrev last_word : Bool → ℕ
last_word is_data = if is_data then 328 else 13

block_word :
    (k : ℕ) (d : Drive)
    → d.mem_addr ≤ d.mdv_end
    → d.mdv_end < 2 ^ 31
    → d.gap_active ≡ false
    → d.gap_cnt < last_word d.gap_state
    → word (k, d) ≡ (k, record d { gap_cnt = d.gap_cnt + 1; mem_addr = d.mem_addr + 1 })
unfolding word next_word
block_word k d h small active c =
    let inside : ltb d.mdv_end d.mem_addr ≡ false = ground arith in
    let no_header : not d.gap_state && d.gap_cnt == 13 ≡ false = ground arith in
    let no_data : d.gap_state && d.gap_cnt == 328 ≡ false = ground arith in
    let next : (d.mem_addr + 1) % 2 ^ 32 ≡ d.mem_addr + 1 = omega arith in
    rw (inside, active, count_up d.gap_cnt (ground arith), no_header, no_data, next) refl

block_end :
    (k : ℕ) (d : Drive)
    → d.mem_addr ≤ d.mdv_end
    → d.mdv_end < 2 ^ 31
    → d.gap_active ≡ false
    → d.gap_cnt ≡ last_word d.gap_state
    → let after = start_gap (record d { mem_addr = d.mem_addr + 1 }) in
      word (k, d) ≡ (suc k, if d.gap_state then seek after else after)
unfolding word next_word start_gap seek
block_end k d h small active c =
    let inside : ltb d.mdv_end d.mem_addr ≡ false = ground arith in
    let next : (d.mem_addr + 1) % 2 ^ 32 ≡ d.mem_addr + 1 = omega arith in
    elim (Bool-cases d.gap_state) [
      | inl data_block ↦
          let last : d.gap_cnt == 328 ≡ true = ground arith in
          rw (inside, active, data_block, last, next) refl
      | inr header ↦
          let last : d.gap_cnt == 13 ≡ true = ground arith in
          rw (inside, active, header, last, next) refl
    ]

gap_run :
    (n k : ℕ) (d : Drive)
    → d.mem_addr ≤ d.mdv_end
    → d.gap_active ≡ true
    → d.gap_cnt + n ≤ 34
    → run n (k, d) ≡ (k, record d { gap_cnt = d.gap_cnt + n })
gap_run zero k d h active c =
    let e : d.gap_cnt + 0 ≡ d.gap_cnt = omega arith in run-zero (k, d) ∙ rw e refl
gap_run (suc n) k d h active c =
    let d' = record d { gap_cnt = d.gap_cnt + 1 } in
    let rest = gap_run n k d' h active (omega arith) in
    let e : d.gap_cnt + suc n ≡ d.gap_cnt + 1 + n = omega arith in
    run-suc n (k, d) (k, d') (gap_word k d h active (omega arith)) ∙ rw e rest

block_run :
    (n k : ℕ) (d : Drive)
    → d.mem_addr + n ≤ d.mdv_end + 1
    → d.mdv_end < 2 ^ 31
    → d.gap_active ≡ false
    → d.gap_cnt + n ≤ last_word d.gap_state
    → run n (k, d) ≡ (k, record d { gap_cnt = d.gap_cnt + n; mem_addr = d.mem_addr + n })
block_run zero k d h small active c =
    let e : d.gap_cnt + 0 ≡ d.gap_cnt = omega arith in
    let f : d.mem_addr + 0 ≡ d.mem_addr = omega arith in run-zero (k, d) ∙ rw (e, f) refl
block_run (suc n) k d h small active c =
    let d' = record d { gap_cnt = d.gap_cnt + 1; mem_addr = d.mem_addr + 1 } in
    let rest = block_run n k d' (omega arith) small active (omega arith) in
    let e : d.gap_cnt + suc n ≡ d.gap_cnt + 1 + n = omega arith in
    let f : d.mem_addr + suc n ≡ d.mem_addr + 1 + n = omega arith in
    run-suc n (k, d) (k, d') (block_word k d (omega arith) small active (omega arith))
    ∙ rw (e, f) rest

whole_gap :
    (k : ℕ) (d : Drive)
    → d.mem_addr ≤ d.mdv_end
    → d.gap_active ≡ true
    → d.gap_cnt ≡ 0
    → run 35 (k, d) ≡ (k, end_gap d)
unfolding end_gap
whole_gap k d h active c =
    let d' = record d { gap_cnt = d.gap_cnt + 34 } in
    let last = gap_end k d' h active (omega arith) in
    run-then 34 1 (k, d) (k, d') (k, end_gap d) (gap_run 34 k d h active (omega arith))
      (run-suc 0 (k, d') (k, end_gap d) last ∙ run-zero (k, end_gap d))

whole_block :
    (k : ℕ) (d : Drive)
    → d.mem_addr + last_word d.gap_state ≤ d.mdv_end
    → d.mdv_end < 2 ^ 31
    → d.gap_active ≡ false
    → d.gap_cnt ≡ 0
    → let after = start_gap (record d { mem_addr = d.mem_addr + last_word d.gap_state + 1 }) in
      run (last_word d.gap_state + 1) (k, d) ≡ (suc k, if d.gap_state then seek after else after)
unfolding start_gap
whole_block k d h small active c =
    let n = last_word d.gap_state in
    let d' = record d { gap_cnt = d.gap_cnt + n; mem_addr = d.mem_addr + n } in
    let after = start_gap (record d { mem_addr = d.mem_addr + n + 1 }) in
    let u : ℕ × Drive = (suc k, if d.gap_state then seek after else after) in
    let last = block_end k d' h small active (omega arith) in
    run-then n 1 (k, d) (k, d') u (block_run n k d (omega arith) small active (omega arith))
      (run-suc 0 (k, d') u last ∙ run-zero u)

block_of :
    (is_data : Bool) (k : ℕ) (d : Drive)
    → d.gap_state ≡ is_data
    → d.mem_addr + last_word is_data ≤ d.mdv_end
    → d.mdv_end < 2 ^ 31
    → d.gap_active ≡ false
    → d.gap_cnt ≡ 0
    → let after = start_gap (record d { mem_addr = d.mem_addr + last_word is_data + 1 }) in
      run (last_word is_data + 1) (k, d) ≡ (suc k, if is_data then seek after else after)
block_of is_data k d e h small active c =
    let le : d.mem_addr + last_word d.gap_state ≤ d.mdv_end =
      subst (λ b. d.mem_addr + last_word b ≤ d.mdv_end) (sym e) h in
    subst
      (λ b.
        let after = start_gap (record d { mem_addr = d.mem_addr + last_word b + 1 }) in
        run (last_word b + 1) (k, d) ≡ (suc k, if b then seek after else after))
      e (whole_block k d le small active c)

-- The tape stands before a sector.
pub record IsBefore (d : Drive) : Type 0 where
  pub active : d.gap_active ≡ true
  pub header : d.gap_state ≡ true
  pub start : d.gap_cnt ≡ 0

pub sector :
    (k : ℕ) (d : Drive)
    → IsBefore d
    → d.mem_addr + 342 ≤ d.mdv_end
    → d.mdv_end < 2 ^ 31
    → run 413 (k, d)
      ≡ (suc (suc k), seek (start_gap (record d { mem_addr = d.mem_addr + 343; gap_state = true })))
unfolding start_gap end_gap
sector k d b h small =
    let d1 = end_gap d in
    let state : not d.gap_state ≡ false = rw b.header refl in
    let state' : not (not d.gap_state) ≡ true = rw b.header refl in
    let d2 = start_gap (record d1 { mem_addr = d.mem_addr + 13 + 1 }) in
    let d3 = end_gap d2 in
    let d4 = seek (start_gap (record d3 { mem_addr = d3.mem_addr + 328 + 1 })) in
    let e : d.mem_addr + 13 + 1 + 328 + 1 ≡ d.mem_addr + 343 = omega arith in
    let end : ℕ × Drive = (
      suc (suc k),
      seek (start_gap (record d { mem_addr = d.mem_addr + 343; gap_state = true })),
    ) in
    let same : Path (ℕ × Drive) (suc (suc k), d4) end = rw (e, state') refl in
    run-then 35 378 (k, d) (k, d1) end (whole_gap k d (omega arith) b.active b.start)
      (run-then 14 364 (k, d1) (suc k, d2) end
        (block_of false k d1 state (omega arith) small refl refl)
        (run-then 35 329 (suc k, d2) (suc k, d3) end (whole_gap (suc k) d2 (omega arith) refl refl)
          (block_of true (suc k) d3 state' (omega arith) small refl refl ∙ same)))
