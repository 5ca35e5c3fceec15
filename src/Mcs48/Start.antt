-- ===== src/Mcs48/Start.antt =====
-- The reset and the first state of the MCS-48 (mcs48.c).
use s_qlux.Base.{ℕ, ◌+◌, ◌-◌, ◌%◌, ◌^◌, ◌==◌}
use s_qlux.Base.{false, not}
use s_qlux.State.{Do, ◌>>=◌, ◌>>◌, modify}
use s_qlux.Mcs48.{Pins, Mcs48, u8, t_in, port_out}

module _ {D : Type 0} ⦃io : Pins D⦄ where
  unfoldable pub reset : Do (Mcs48 D)
  unfolding port_out t_in
  reset = do
    modify (λ c. record c {
      pc = 0;
      psw = 0x08;
      a11 = false;
      a11_pending = false;
      f1 = false;
      xirq_en = false;
      tirq_en = false;
      in_irq = false;
      timer_on = false;
      counter_on = false;
      tf = false;
      timer_irq_pending = false;
      prescaler = 0;
    })
    port_out 1 0xff
    port_out 2 0xff
    modify (λ c. record c { bus = 0xff })
    t ← t_in 1
    modify (λ c. record c { last_t1 = not (u8 t == 0) })

  -- `mcs48_init` with the callbacks `io` and the state behind them.
  unfoldable pub init : (ℕ → ℕ) → ℕ → D → Mcs48 D
  unfolding reset
  init rom rom_size ctx =
      (reset (record {
        rom = rom;
        rom_mask = (rom_size + 2 ^ 16 - 1) % 2 ^ 16;
        ram = λ i. 0;
        ram_mask = 0x7f;
        pc = 0;
        a = 0;
        psw = 0;
        f1 = false;
        a11 = false;
        a11_pending = false;
        p1 = 0;
        p2 = 0;
        bus = 0;
        timer = 0;
        prescaler = 0;
        timer_on = false;
        counter_on = false;
        tf = false;
        timer_irq_pending = false;
        last_t1 = false;
        xirq_en = false;
        tirq_en = false;
        in_irq = false;
        cycles = 0;
        ctx = ctx;
      })).1
