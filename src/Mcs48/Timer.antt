-- ===== src/Mcs48/Timer.antt =====
-- The timer of the MCS-48 (mcs48.c), which counts cycles or edges of T1.
use s_qlux.Base.{ℕ, zero, suc, ◌+◌, ◌==◌, if◌then◌else◌}
use s_qlux.Base.{Bool, true, false, not, ◌&&◌, ◌||◌}
use s_qlux.State.{St, Do, ◌>>=◌, ◌>>◌, pure, gets, modify, skip}
use s_qlux.Mcs48.{Pins, Mcs48, u8, t_in}

module _ {D : Type 0} ⦃io : Pins D⦄ where
  -- The value that a cycle counts from the prescaler or from an edge of T1.
  unfoldable pub count_pulse : St (Mcs48 D) Bool
  unfolding t_in
  count_pulse c =
      if c.timer_on
      then (let p = u8 (c.prescaler + 1) in
          if p == 32
          then (true, record c { prescaler = 0 })
          else (false, record c { prescaler = p }))
      else if c.counter_on
      then (do
        v ← t_in 1
        edge ← gets (λ c'. c'.last_t1 && v == 0)
        modify (λ c'. record c' { last_t1 = not (v == 0) })
        pure edge)
          c
      else (false, c)

  -- `++c->timer == 0` sets the timer flag, and asks for the interrupt where it is enabled.
  unfoldable pub count_up : Mcs48 D → Mcs48 D
  count_up c =
      let timer = u8 (c.timer + 1) in
      if timer == 0
      then record c {
        timer = timer;
        tf = true;
        timer_irq_pending = c.tirq_en || c.timer_irq_pending;
      }
      else record c { timer = timer }

  unfoldable pub timer_cycle : Do (Mcs48 D)
  unfolding count_pulse count_up
  timer_cycle = do inc ← count_pulse; if inc then modify count_up else skip

  unfoldable pub timer_tick : ℕ → Do (Mcs48 D)
  timer_tick zero = skip
  timer_tick (suc n) = do timer_cycle; timer_tick n
