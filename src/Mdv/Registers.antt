-- ===== src/Mdv/Registers.antt =====
-- The two drives behind the ZX8302 (mdv.c): synchronisation with the CPU and the registers 0x18020
-- to 0x18023.
use s_qlux.Base.{
  ℕ, zero, suc, ◌+◌, ◌-◌, ◌*◌, ◌/◌, ◌%◌, ◌^◌, bit_and, bit_or, ltb, ◌==◌, if◌then◌else◌,
}
use s_qlux.Base.{Bool, true, false, not, ◌&&◌, ◌||◌, to_ℕ, Option, none, some, List, [], ◌∷◌, ◌++◌}
use s_qlux.Word.{test}
use s_qlux.Device.{Signal}
use s_qlux.Device.Signal.{gap}
use s_qlux.Mdv.{Drive, reset_tape_state, step_ce, sub32}

-- The variables of mdv.c; `cycles` is `ql_cycles`, `signals` the calls of
-- `ql_trigger_gap_interrupt`.
pub record Mdv : Type 0 where
  pub drives : ℕ → Drive
  pub sel : ℕ
  pub mctrl : ℕ
  pub irq_mask : ℕ
  pub gap_irq : Bool
  pub last_cycles : ℕ
  pub cycles : ℕ
  pub signals : List Signal

-- MDV_MAX_DRIVES, MDV_MAX_WORDS and MDV_SYNC_CAP
abbrev pub max_drives : ℕ
max_drives = 2

abbrev pub max_words : ℕ
max_words = 88000

abbrev pub sync_cap : ℕ
sync_cap = 750000

abbrev pub change_drive : ℕ → (Drive → Drive) → Mdv → Mdv
change_drive n f m = record m { drives = λ i. if i == n then f (m.drives i) else m.drives i }

-- `mdv_reset`
unfoldable pub reset : Mdv → Mdv
unfolding reset_tape_state
reset m = record m {
  last_cycles = m.cycles;
  sel = 0;
  mctrl = 0;
  irq_mask = 0;
  gap_irq = false;
  drives = λ i. record (reset_tape_state (m.drives i)) {
    data_valid = false;
    bit_cnt = 0;
    word_data = 0;
    clk_cnt = 0;
  };
}

-- `mdv_init`, with the memory that `malloc` gives in `memory`.
unfoldable pub init : (ℕ → ℕ → ℕ) → Mdv → Mdv
unfolding reset
init memory m = reset (record m {
  drives = λ i. record {
    data_at = memory i;
    mdv_end = 0;
    mem_addr = 0;
    present = false;
    reverse = false;
    bit_cnt = 0;
    word_data = 0;
    data_valid = false;
    gap = false;
    gap_cnt = 0;
    gap_state = false;
    gap_active = false;
    clk_cnt = 0;
    rx_ready = false;
    rx_byte = 0;
    rx_last = 0;
    rx_idle = 0;
    rx_word = 0;
    blk_read = false;
    blk_bytes = 0;
  };
})

-- `mdv_load`, of a file with its size and its bytes; `none` is a file that cannot be read. The
-- result tells whether the drive is loaded.
unfoldable pub load : ℕ → Option (ℕ × (ℕ → ℕ)) → Mdv → Bool × Mdv
unfolding reset_tape_state
load drive none m = (false, m)
load drive (some (size, bytes)) m =
    let words = size / 2 in
    if not (ltb drive max_drives) || (size == 0 || ltb (max_words * 2) size) then (false, m) else (
      true,
      change_drive drive
          (λ d. reset_tape_state (record d {
            data_at =
                λ i. if ltb i words then bytes (i * 2) * 2 ^ 8 + bytes (i * 2 + 1) else d.data_at i;
            mdv_end = sub32 words 1;
            present = true;
          }))
          m,
    )

unfoldable pub unload : ℕ → Mdv → Mdv
unload drive m =
    if ltb drive max_drives
    then change_drive drive (λ d. record d { present = false; mdv_end = 0; rx_ready = false }) m
    else m

unfoldable pub set_reverse : ℕ → Bool → Mdv → Mdv
set_reverse drive reverse m =
    if ltb drive max_drives then change_drive drive (λ d. record d { reverse = reverse }) m else m

unfoldable pub any_present : Mdv → Bool
any_present m = (m.drives 0).present || (m.drives 1).present

-- `mdv_selected_drive`, by its number.
unfoldable pub selected_drive : Mdv → Option ℕ
selected_drive m = if test m.sel 1 then some 0 else if test m.sel 2 then some 1 else none

-- A cycle of the selected drive `n`: a block that ends asks for the gap interrupt where it is
-- enabled.
unfoldable pub drive_cycle : ℕ → Mdv → Mdv
unfolding step_ce
drive_cycle n m =
    let r = step_ce true (m.drives n) in
    let m' = change_drive n (λ d. r.1) m in
    if r.0 && test m.irq_mask 1
    then record m' { gap_irq = true; signals = m.signals ++ gap ∷ [] }
    else m'

unfoldable pub drive_cycles : ℕ → ℕ → Mdv → Mdv
unfolding drive_cycle
drive_cycles zero n m = m
drive_cycles (suc k) n m = drive_cycles k n (drive_cycle n m)

-- `mdv_tick`
unfoldable pub run_cycles : ℕ → Mdv → Mdv
unfolding drive_cycles selected_drive
run_cycles k m = elim (selected_drive m) [
  | none ↦ m
  | some n ↦ if (m.drives n).present then drive_cycles k n m else m
]

-- `mdv_sync`
unfoldable pub sync : Mdv → Mdv
unfolding run_cycles
sync m =
    let cycles = (m.cycles + 2 ^ 64 - m.last_cycles) % 2 ^ 64 in
    let m' = record m { last_cycles = m.cycles } in
    if cycles == 0 then m' else run_cycles (if ltb sync_cap cycles then sync_cap else cycles) m'

-- A falling edge of the clock bit shifts the data bit into the selection.
unfoldable pub write_control : ℕ → Mdv → Mdv
write_control val m =
    let old_clk = bit_and (m.mctrl / 2) 1 in
    let new_clk = bit_and (val / 2) 1 in
    let falling = not (old_clk == 0) && new_clk == 0 in
    record m {
      mctrl = val;
      sel = if falling then bit_and (bit_or (m.sel * 2) (bit_and val 1)) 0xff else m.sel;
    }

unfoldable pub write_int : ℕ → Mdv → Mdv
write_int val m = record m {
  irq_mask = bit_and (val / 2 ^ 5) 7;
  gap_irq = if test val 1 then false else m.gap_irq;
}

unfoldable pub read_status : Mdv → ℕ
unfolding selected_drive
read_status m =
    let (present, has_gap, ready) : Bool × Bool × Bool = elim (selected_drive m) [
      | none ↦ (false, true, false)
      | some n ↦ let d = m.drives n in (d.present && not (d.mdv_end == 0), d.gap, d.rx_ready)
    ] in
    bit_or (bit_or 0x80 (if not present || has_gap then 2 ^ 3 else 0))
      (if present && ready then 2 ^ 2 else 0)

unfoldable pub read_int : Mdv → ℕ
read_int m = to_ℕ m.gap_irq

-- The byte that waits, or once more the last one.
unfoldable pub read_data : Mdv → ℕ × Mdv
unfolding selected_drive
read_data m = elim (selected_drive m) [
  | none ↦ (0xff, m)
  | some n ↦
      let d = m.drives n in
      if not d.present
      then (0xff, m)
      else if not d.rx_ready
      then (d.rx_last, m)
      else (d.rx_byte, change_drive n (λ e. record e { rx_ready = false; rx_last = d.rx_byte }) m)
]
