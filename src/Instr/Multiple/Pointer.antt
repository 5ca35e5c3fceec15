-- ===== src/Instr/Multiple/Pointer.antt =====
-- The address register of MOVEM after a save to -(An).
use s_qlux.Base.{ℕ, zero, suc, ◌+◌, ◌*◌, ◌/◌, ◌%◌, ◌^◌, ◌<◌, ◌≡◌, refl, sym, ◌∙◌, arith}
use s_qlux.Base.{◌==◌, true, false, not, Bool-cases, inl, inr}
use s_qlux.Bits.{bit_and_mask}
use s_qlux.Word.{Size, byte, word, long, bytes, test, cut, sub32}
use s_qlux.Machine.{Cpu, ea_mode, ea_reg}
use s_qlux.Device.{Bus}
use s_qlux.Memory.{is_odd, write_size}
use s_qlux.Ea.{fetch_word}
use s_qlux.Cycles.Ones.{ones}
use s_qlux.Instr.Multiple.{save_down, movem_save}

odd_bit : (mask : ℕ) → test mask 1 ≡ not (mask % 2 == 0)
odd_bit mask = let e = bit_and_mask 1 mask in rw e refl

-- One register more in the sum, and none.
with_one :
    (z : Size) (x m o ea : ℕ)
    → ea < 2 ^ 32
    → not (m == 0) ≡ true
    → m < 2
    → (x + bytes z * o) % 2 ^ 32 ≡ sub32 ea (bytes z)
    → (x + bytes z * (m + o)) % 2 ^ 32 ≡ ea
with_one byte x m o ea h one lt e = ground arith
with_one word x m o ea h one lt e = ground arith
with_one long x m o ea h one lt e = ground arith

with_none :
    (k x m o ea : ℕ)
    → not (m == 0) ≡ false
    → (x + k * o) % 2 ^ 32 ≡ ea
    → (x + k * (m + o)) % 2 ^ 32 ≡ ea
with_none k x m o ea none e = let z : m + o ≡ o = ground arith in rw z e

no_ones : (z : Size) (ea : ℕ) → ea < 2 ^ 32 → (ea + bytes z * 0) % 2 ^ 32 ≡ ea
no_ones byte ea h = omega arith
no_ones word ea h = omega arith
no_ones long ea h = omega arith

module _ {D : Type 0} ⦃bus : Bus D⦄ where
  save_down-ea :
      (z : Size) (n mask ea : ℕ) (c : Cpu D)
      → ea < 2 ^ 32
      → let ea' = (save_down z n mask ea c).0 in
        ((ea' + bytes z * ones n mask) % 2 ^ 32 ≡ ea) × (ea' < 2 ^ 32)
  unfolding save_down ones
  save_down-ea z zero mask ea c h = (no_ones z ea h, h)
  save_down-ea z (suc i) mask ea c h = elim (Bool-cases (test mask 1)) [
    | inl one ↦
        let c' = (write_size z (sub32 ea (bytes z)) (cut z (c.reg i)) c).1 in
        let rest = save_down-ea z i (mask / 2) (sub32 ea (bytes z)) c' (omega arith) in
        let bit : not (mask % 2 == 0) ≡ true = sym (odd_bit mask) ∙ one in
        let x = (save_down z i (mask / 2) (sub32 ea (bytes z)) c').0 in
        rw one (with_one z x (mask % 2) (ones i (mask / 2)) ea h bit (omega arith) rest.0, rest.1)
    | inr none ↦
        let rest = save_down-ea z i (mask / 2) ea c h in
        let bit : not (mask % 2 == 0) ≡ false = sym (odd_bit mask) ∙ none in
        let x = (save_down z i (mask / 2) ea c).0 in
        rw none (with_none (bytes z) x (mask % 2) (ones i (mask / 2)) ea bit rest.0, rest.1)
  ]

  -- MOVEM to -(An), with an even address in the register: for each register of the mask the pointer
  -- goes down by the size, modulo 2 ^ 32.
  pub movem_save-pointer :
      (z : Size) (c : Cpu D)
      → ea_mode c.code ≡ 4
      → is_odd (c.reg (8 + ea_reg c.code)) ≡ false
      → c.reg (8 + ea_reg c.code) < 2 ^ 32
      → let an = 8 + ea_reg c.code in
        let mask = (fetch_word c).0 in
        let after = (movem_save z c).1.reg an in
        ((after + bytes z * ones 16 mask) % 2 ^ 32 ≡ c.reg an) × (after < 2 ^ 32)
  unfolding movem_save fetch_word
  movem_save-pointer z c mode even h =
      let an = 8 + ea_reg c.code in
      let c' = (fetch_word c).1 in
      let same : an == an ≡ true = ground arith in
      let predecrement : ea_mode c.code == 4 ≡ true = ground arith in
      rw (predecrement, even, same) (save_down-ea z 16 (fetch_word c).0 (c.reg an) c' h)
