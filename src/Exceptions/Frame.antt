-- ===== src/Exceptions/Frame.antt =====
-- The frames that exceptions and interrupts push, and the way back (iexl_general.c).
use s_qlux.Base.{ℕ, ◌/◌, ◌^◌, ◌≤◌, ◌<◌, ◌≡◌, ◌≢◌, refl, arith, bit_and}
use s_qlux.Base.{Bool, true, false, ap, eqb, ◌∙◌, sym}
use s_qlux.Word.{test}
use s_qlux.Machine.{Cpu}
use s_qlux.Device.{Bus}
use s_qlux.Status.{get_sr, ccr_of}
use s_qlux.Status.RoundTrip.{unpack-sr_of}
use s_qlux.Exceptions.{process_interrupts, load_sr, enter_supervisor, leave_supervisor}

eqb_refl : (b : Bool) → eqb b b ≡ true
eqb_refl true = refl
eqb_refl false = refl

module _ {D : Type 0} ⦃bus : Bus D⦄ where
  -- `load_sr` for a status word that keeps the mode.
  load_sr-same_mode :
      (sr : ℕ) (c : Cpu D)
      → test sr 0x2000 ≡ c.supervisor
      → let c' = (load_sr sr c).1 in
        (c'.supervisor ≡ test sr 0x2000)
        × (c'.trace ≡ test sr 0x8000)
        × (c'.i_mask ≡ bit_and (sr / 2 ^ 8) 7)
        × (c'.ccr ≡ ccr_of sr)
        × (c'.reg ≡ c.reg)
        × (c'.usp ≡ c.usp)
        × (c'.ssp ≡ c.ssp)
  unfolding load_sr
  load_sr-same_mode sr c h =
      rw (h, eqb_refl c.supervisor)
        (
          ground arith,
          ground arith,
          ground arith,
          ground arith,
          ground arith,
          ground arith,
          ground arith,
        )

  pub load_sr-others :
      (sr : ℕ) (c : Cpu D)
      → let c' = (load_sr sr c).1 in (c'.pc ≡ c.pc) × (c'.pending_interrupt ≡ c.pending_interrupt)
  unfolding load_sr enter_supervisor leave_supervisor
  load_sr-others sr c = (ground arith, ground arith)

  -- A pending level within the mask, other than level 7, is not taken: nothing changes.
  pub process_interrupts-masked :
      (c : Cpu D)
      → c.pending_interrupt ≤ c.i_mask
      → c.pending_interrupt ≢ 7
      → (process_interrupts c).1 ≡ c
  unfolding process_interrupts
  process_interrupts-masked c h n = ground arith

  -- Loading in supervisor mode what the status register was at `c`, in that mode and with a mask
  -- below 8: mask, flags and mode bits become those of `c`, and the registers stay.
  pub load_sr-saved :
      (c h : Cpu D)
      → c.i_mask < 8
      → c.supervisor ≡ true
      → h.supervisor ≡ true
      → let c' = (load_sr (get_sr c) h).1 in
        (c'.supervisor ≡ true)
        × (c'.trace ≡ c.trace)
        × (c'.i_mask ≡ c.i_mask)
        × (c'.ccr ≡ c.ccr)
        × (c'.reg ≡ h.reg)
  unfolding get_sr
  load_sr-saved c h low sup sup' =
      let e = unpack-sr_of c.i_mask c.trace c.supervisor c.ccr low in
      let mode = ap (λ u. u.supervisor) e in
      let (h1, h2, h3, h4, h5, _, _) = load_sr-same_mode (get_sr c) h (mode ∙ sup ∙ sym sup') in
      (
        h1 ∙ mode ∙ sup,
        h2 ∙ ap (λ u. u.trace) e,
        h3 ∙ ap (λ u. u.i_mask) e,
        h4 ∙ ap (λ u. u.ccr) e,
        h5,
      )
