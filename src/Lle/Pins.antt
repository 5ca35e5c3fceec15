-- ===== src/Lle/Pins.antt =====
-- The callbacks that ipc.c gives to the processor: `bus_in` and the others of `mcs48_io_t`. The
-- source reads the port latches of the processor when it is called. No instruction changes a latch
-- before it calls back, so the latches here are those at the start of the instruction.
use s_qlux.Base.{ℕ, zero, suc, ◌-◌, ◌^◌, bit_or, if◌then◌else◌}
use s_qlux.Base.{none, some}
use s_qlux.Word.{test}
use s_qlux.Mcs48.{Pins}
use s_qlux.Lle.{Wires, p2_in, p2_out, movx_wr, t1_in}
use s_qlux.Lle.Keys.{key_apply}

-- `for (i = 0; i < 8; i++) if (ipc.p1 & (1 << i)) v |= matrix[i];` for the last `n` columns
unfoldable pub read_rows : ℕ → ℕ → (ℕ → ℕ) → ℕ → ℕ
read_rows zero p1 m v = v
read_rows (suc n) p1 m v =
    let i = 7 - n in read_rows n p1 m (if test p1 (2 ^ i) then bit_or v (m i) else v)

unfoldable pub bus_in : ℕ → ℕ → Wires → ℕ × Wires
unfolding key_apply read_rows
bus_in units p1 w = let w' = key_apply units w in (read_rows 8 p1 w'.matrix 0, w')

unfoldable pub pins : (units p1 p2 : ℕ) → Pins Wires
unfolding bus_in p2_in p2_out movx_wr t1_in
pins units p1 p2 = record {
  p1_in = none;
  p2_in = some (λ w. (p2_in w, w));
  bus_in = some (bus_in units p1);
  p1_out = none;
  p2_out = some (p2_out units);
  bus_out = none;
  movx_rd = none;
  movx_wr = some (λ addr v w. movx_wr p2 w);
  t0_in = none;
  t1_in = some (λ w. (t1_in units w, w));
  int_in = some (λ w. (1, w));
}
