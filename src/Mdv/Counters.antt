-- ===== src/Mdv/Counters.antt =====
-- The counters of a drive stay within their widths in every cycle of the CPU.
use s_qlux.Base.{ℕ, ◌+◌, ◌%◌, ◌^◌, ◌≤◌, ◌<◌, arith, bit_and, ◌==◌}
use s_qlux.Base.{if◌then◌else◌, Bool, Bool-cases, inl, inr}
use s_qlux.Bits.{bit_and_mask}
use s_qlux.Mdv.{Drive, next_word, end_of_word, receive, tick, step_ce, seek, start_gap, end_gap}
use s_qlux.Mdv.{reset_tape_state}

pub record IsBounded (d : Drive) : Type 0 where
  pub clk : d.clk_cnt ≤ 36
  pub bit : d.bit_cnt < 16
  pub gap : d.gap_cnt < 1024
  pub idle : d.rx_idle < 2
  pub addr : d.mem_addr < 2 ^ 32

ten_bits : (c : ℕ) → bit_and (c + 1) 0x3ff < 1024
ten_bits c = let e = bit_and_mask 10 (c + 1) in omega arith

receive-IsBounded : (b : Bool) (d : Drive) → IsBounded d → IsBounded (receive b d)
unfolding receive
receive-IsBounded b d h = record {
  clk = ground arith;
  bit = ground arith;
  gap = ground arith;
  idle = ground arith;
  addr = ground arith;
}

next_word-IsBounded : (d : Drive) → IsBounded d → IsBounded (next_word d).1
unfolding next_word seek start_gap end_gap reset_tape_state
next_word-IsBounded d h =
    let c = ten_bits d.gap_cnt in
    record {
      clk = ground arith;
      bit = ground arith;
      gap = ground arith;
      idle = ground arith;
      addr = ground arith;
    }

end_of_word-IsBounded : (d : Drive) → IsBounded d → IsBounded (end_of_word d).1
unfolding end_of_word
end_of_word-IsBounded d h =
    let k = next_word-IsBounded d h in
    record { clk = k.clk; bit = k.bit; gap = k.gap; idle = k.idle; addr = k.addr }

four_bits : (c : ℕ) → bit_and (c + 1) 0x0f < 16
four_bits c = let e = bit_and_mask 4 (c + 1) in omega arith

tick-IsBounded : (b : Bool) (d : Drive) → IsBounded d → IsBounded (tick b d).1
unfolding tick
tick-IsBounded b d h =
    let c = bit_and (d.bit_cnt + 1) 0x0f in
    let counted = record d { bit_cnt = c } in
    let k : IsBounded counted = record {
      clk = h.clk;
      bit = four_bits d.bit_cnt;
      gap = h.gap;
      idle = h.idle;
      addr = h.addr;
    } in
    let received = if bit_and c 7 == 2 then receive b counted else counted in
    let r : IsBounded received = elim (Bool-cases (bit_and c 7 == 2)) [
      | inl second ↦ rw second (receive-IsBounded b counted k)
      | inr other ↦ rw other k
    ] in
    elim (Bool-cases (c == 15)) [
      | inl last ↦ rw last (end_of_word-IsBounded received r)
      | inr inner ↦ rw inner r
    ]

-- Every cycle of the CPU keeps the counters of a drive in their ranges: 37 cycles to a tick, 16
-- ticks to a word, gaps and blocks of less than 1024 words, two idle bytes at most, and an address
-- of 32 bits.
pub step_ce-IsBounded : (b : Bool) (d : Drive) → IsBounded d → IsBounded (step_ce b d).1
unfolding step_ce
step_ce-IsBounded b d h =
    let clk = if d.clk_cnt == 36 then 0 else d.clk_cnt + 1 in
    let in_range : clk % 2 ^ 8 ≤ 36 = ground (arith, h.clk) in
    let d' = record d { clk_cnt = clk % 2 ^ 8 } in
    let k : IsBounded d' = record {
      clk = in_range;
      bit = h.bit;
      gap = h.gap;
      idle = h.idle;
      addr = h.addr;
    } in
    elim (Bool-cases (clk % 2 ^ 8 == 0)) [
      | inl falls ↦ rw falls (tick-IsBounded b d' k)
      | inr between ↦ rw between k
    ]
