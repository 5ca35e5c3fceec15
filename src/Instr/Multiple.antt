-- ===== src/Instr/Multiple.antt =====
-- MOVEM and MOVEP. A mask has 16 bits, and the rounds of a loop after its last one bit, which the
-- source leaves out, do nothing.
pub mod Pointer
use s_qlux.Base.{
  ℕ, zero, suc, ◌+◌, ◌-◌, ◌*◌, ◌/◌, ◌%◌, ◌^◌, bit_and, ◌==◌, if◌then◌else◌, Bool, true, false,
}
use s_qlux.Word.{Size, byte, word, long, bytes, cut, sext, test, add32, sub32}
use s_qlux.Machine.{
  Cpu, M, Act, ◌>>=◌, ◌>>◌, pure, skip, gets, modify, update, set_reg, ea_mode, ea_reg, dn_index,
}
use s_qlux.Device.{Bus}
use s_qlux.Memory.{is_odd, read_size, read_word, write_size, read_byte, write_byte}
use s_qlux.Ea.{get_ea, fetch_word}

-- The byte `k` of a register, and the store of it.
abbrev pub byte_of : ℕ → ℕ → ℕ
byte_of k v = v / 2 ^ (8 * k) % 2 ^ 8

abbrev pub put_byte : ℕ → ℕ → ℕ → ℕ
put_byte k old v = old / 2 ^ (8 * k + 8) * 2 ^ (8 * k + 8) + v * 2 ^ (8 * k) + old % 2 ^ (8 * k)

module _ {D : Type 0} ⦃bus : Bus D⦄ where
  -- `for (i = 15; mask != 0; mask >>= 1, i--)`, with the registers that are left, from `i` down.
  unfoldable pub save_down : Size → ℕ → ℕ → ℕ → M D ℕ
  save_down z zero mask ea = pure ea
  save_down z (suc i) mask ea = do
    ea' ←
        (if test mask 1
          then (do
            (λ c. write_size z (sub32 ea (bytes z)) (cut z (c.reg i)) c)
            pure (sub32 ea (bytes z)))
          else pure ea)
    save_down z i (mask / 2) ea'

  -- `for (i = 0; mask != 0; mask >>= 1, i++)`, with the rounds that are left.
  unfoldable pub save_up : Size → ℕ → ℕ → ℕ → ℕ → M D ℕ
  save_up z zero i mask ea = pure ea
  save_up z (suc rounds) i mask ea = do
    ea' ←
        (if test mask 1
          then (do (λ c. write_size z ea (cut z (c.reg i)) c); pure (add32 ea (bytes z)))
          else pure ea)
    save_up z rounds (i + 1) (mask / 2) ea'

  unfoldable pub load_up : Size → ℕ → ℕ → ℕ → ℕ → M D ℕ
  load_up z zero i mask ea = pure ea
  load_up z (suc rounds) i mask ea = do
    ea' ←
        (if test mask 1
          then (do v ← read_size z ea; set_reg i (sext z v); pure (add32 ea (bytes z)))
          else pure ea)
    load_up z rounds (i + 1) (mask / 2) ea'

  -- `movem_save_w` and `movem_save_l`
  unfoldable pub movem_save : Size → Act D
  unfolding save_down save_up
  movem_save z = do
    mask ← fetch_word
    mode ← gets (λ c. ea_mode c.code)
    r ← gets (λ c. ea_reg c.code)
    if mode == 4
        then (do
          ea ← gets (λ c. c.reg (8 + r))
          if is_odd ea
              then write_size z ea 0
              else (do ea' ← save_down z 16 mask ea; set_reg (8 + r) ea'))
        else (do
          ea ← get_ea mode r
          if is_odd ea then write_size z ea 0 else (do ea' ← save_up z 16 0 mask ea; skip))

  -- `movem_load_w` and `movem_load_l`
  unfoldable pub movem_load : Size → Act D
  unfolding load_up
  movem_load z = do
    mask ← fetch_word
    mode ← gets (λ c. ea_mode c.code)
    r ← gets (λ c. ea_reg c.code)
    ea ← (if mode == 3 then gets (λ c. c.reg (8 + r)) else get_ea mode r)
    if is_odd ea then (do v ← read_size z ea; skip) else (do
      ea' ← load_up z 16 0 mask ea
      v ← read_word ea'
      if mode == 3 then set_reg (8 + r) ea' else skip)

  -- `aReg[code & 7] + (w32)((w16)RW(pc++))`
  unfoldable pub movep_ea : M D ℕ
  movep_ea = do displ ← fetch_word; gets (λ c. add32 (c.reg (8 + ea_reg c.code)) (sext word displ))

  -- The bytes of a register from the byte `n - 1` down, to and from every second address.
  unfoldable pub movep_out : ℕ → ℕ → Act D
  movep_out zero ea = skip
  movep_out (suc k) ea = do
    λ c. write_byte ea (byte_of k (c.reg (dn_index c.code))) c
    movep_out k (add32 ea 2)

  unfoldable pub movep_in : ℕ → ℕ → Act D
  movep_in zero ea = skip
  movep_in (suc k) ea = do
    v ← read_byte ea
    (λ c. set_reg (dn_index c.code) (put_byte k (c.reg (dn_index c.code)) v) c)
    movep_in k (add32 ea 2)

  -- `movep_w_rm` and `movep_l_rm`, `movep_w_mr` and `movep_l_mr`
  unfoldable pub movep_save : Size → Act D
  unfolding movep_ea movep_out
  movep_save z = do ea ← movep_ea; movep_out (bytes z) ea

  unfoldable pub movep_load : Size → Act D
  unfolding movep_ea movep_in
  movep_load z = do ea ← movep_ea; movep_in (bytes z) ea
