-- ===== src/Mdv.antt =====
-- The microdrives (mdv.c): the tape of a drive, which moves with the clock cycles of the CPU, and
-- the registers of the ZX8302 that read it.
pub mod Tape
pub mod Rotation
pub mod Cycles
pub mod Counters
pub mod Registers
pub mod Turn
use s_qlux.Base.{
  ℕ, zero, suc, ◌+◌, ◌-◌, ◌*◌, ◌/◌, ◌%◌, ◌^◌, bit_and, ltb, leb, ◌==◌, if◌then◌else◌, Bool,
}
use s_qlux.Base.{true, false, not, ◌&&◌, ◌||◌}
use s_qlux.Word.{test}

-- `MDVDrive`. Of the diagnostics only what the code sets without MDV_DEBUG_REVOLUTIONS is here.
pub record Drive : Type 0 where
  pub data_at : ℕ → ℕ
  pub mdv_end : ℕ
  pub mem_addr : ℕ
  pub present : Bool
  pub reverse : Bool
  pub bit_cnt : ℕ
  pub word_data : ℕ
  pub data_valid : Bool
  pub gap : Bool
  pub gap_cnt : ℕ
  pub gap_state : Bool
  pub gap_active : Bool
  pub clk_cnt : ℕ
  pub rx_ready : Bool
  pub rx_byte : ℕ
  pub rx_last : ℕ
  pub rx_idle : ℕ
  pub rx_word : ℕ
  pub blk_read : Bool
  pub blk_bytes : ℕ

-- MDV_CLK_SCALER, MDV_RX_IDLE_DROP and the lengths of the gaps
abbrev pub clk_scaler : ℕ
clk_scaler = 36

abbrev pub rx_idle_drop : ℕ
rx_idle_drop = 2

abbrev pub gap_before_header : ℕ
gap_before_header = 35

abbrev pub gap_before_data : ℕ
gap_before_data = 35

-- `mdv_reset_tape_state`
unfoldable pub reset_tape_state : Drive → Drive
reset_tape_state d = record d {
  mem_addr = 0;
  gap_cnt = 0;
  gap_state = true;
  gap_active = true;
  gap = true;
  rx_ready = false;
  rx_idle = 0;
  blk_read = false;
  blk_bytes = 0;
}

-- A gap starts behind a block: `mdv_block_end` is in it.
unfoldable pub start_gap : Drive → Drive
start_gap d = record d {
  gap_cnt = 0;
  gap_active = true;
  gap = true;
  blk_read = false;
  blk_bytes = 0;
}

-- The gap ends: what follows is the other kind of block.
unfoldable pub end_gap : Drive → Drive
end_gap d = record d { gap_cnt = 0; gap_active = false; gap_state = not d.gap_state; gap = false }

-- `uint32_t`
abbrev pub sub32 : ℕ → ℕ → ℕ
sub32 a b = (a + 2 ^ 32 - b) % 2 ^ 32

-- The place to go on at behind a data block, on a tape that runs backwards.
unfoldable pub seek : Drive → Drive
seek d =
    if not d.reverse
    then d
    else if d.mem_addr == 343
    then record d { mem_addr = (sub32 d.mdv_end 343 + 1) % 2 ^ 32 }
    else record d { mem_addr = (sub32 d.mem_addr 686 + 1) % 2 ^ 32 }

-- The counters at the end of a word, and whether a block ends with it: then the gap interrupt is
-- asked for where it is enabled.
unfoldable pub next_word : Drive → Bool × Drive
unfolding reset_tape_state start_gap end_gap seek
next_word d =
    let old = d.gap_cnt in
    let counted = record d { gap_cnt = bit_and (old + 1) 0x3ff } in
    let moved = record counted { mem_addr = (d.mem_addr + 1) % 2 ^ 32 } in
    let gap_len = if d.gap_state then gap_before_header else gap_before_data in
    if ltb d.mdv_end d.mem_addr
    then (false, reset_tape_state d)
    else if d.gap_active
    then (false, if old == gap_len - 1 then end_gap counted else counted)
    else if not d.gap_state && old == 13
    then (true, start_gap moved)
    else if d.gap_state && old == 328
    then (true, seek (start_gap moved))
    else (false, moved)

-- The end of a word: the next one is loaded.
unfoldable pub end_of_word : Drive → Bool × Drive
unfolding next_word
end_of_word d =
    let din = if leb d.mem_addr d.mdv_end then d.data_at d.mem_addr else 0 in
    let valid =
      (not d.gap_active && ltb 5 d.gap_cnt)
      && not (d.gap_state && (ltb 7 d.gap_cnt && ltb d.gap_cnt 12)) in
    let r = next_word d in (r.0, record r.1 { word_data = din; data_valid = valid })

-- The receiver, at the second bit of a byte.
unfoldable pub receive : Bool → Drive → Drive
receive selected d =
    let idle = (d.rx_idle + 1) % 2 ^ 8 in
    if d.data_valid && selected
    then record d {
      rx_idle = 0;
      rx_byte = if test d.bit_cnt 8 then d.word_data % 2 ^ 8 else d.word_data / 2 ^ 8 % 2 ^ 8;
      rx_word = d.gap_cnt;
      rx_ready = true;
    }
    else if d.rx_ready
    then (if leb rx_idle_drop idle
        then record d { rx_ready = false; rx_idle = 0 }
        else record d { rx_idle = idle })
    else d

-- One tick of the 200 kHz clock.
unfoldable pub tick : Bool → Drive → Bool × Drive
unfolding receive end_of_word
tick selected d =
    let counted = record d { bit_cnt = bit_and (d.bit_cnt + 1) 0x0f } in
    let received = if bit_and counted.bit_cnt 7 == 2 then receive selected counted else counted in
    if counted.bit_cnt == 15 then end_of_word received else (false, received)

-- `mdv_step_ce`: a cycle of the CPU. The result tells whether a block ended.
unfoldable pub step_ce : Bool → Drive → Bool × Drive
unfolding tick
step_ce selected d =
    let clk = if d.clk_cnt == clk_scaler then 0 else d.clk_cnt + 1 in
    let d' = record d { clk_cnt = clk % 2 ^ 8 } in
    if clk % 2 ^ 8 == 0 then tick selected d' else (false, d')
