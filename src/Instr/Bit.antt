-- ===== src/Instr/Bit.antt =====
-- BTST, BCHG, BCLR and BSET, with the bit's number in a register or in an extension word.
use s_qlux.Base.{ℕ, ◌-◌, ◌^◌, bit_and, bit_or, bit_xor, ◌==◌, if◌then◌else◌, Bool}
use s_qlux.Word.{byte, word, cut}
use s_qlux.Machine.{M, Act, ◌>>=◌, ◌>>◌, modify, update}
use s_qlux.Machine.{ea_mode, ea_reg, op_reg}
use s_qlux.Device.{Bus}
use s_qlux.Ea.{get_from_ea, fetch_word}
use s_qlux.Modify.{modify_at_ea, rewrite_ea}

pub data BitOp : Type 0 where
  change clear set : BitOp

-- `d ^ mask`, `d & ~mask` and `d | mask`, for an operand of this size.
abbrev pub apply_bit : BitOp → ℕ → ℕ → ℕ → ℕ
apply_bit change all d mask = bit_xor d mask
apply_bit clear all d mask = bit_and d (all - mask)
apply_bit set all d mask = bit_or d mask

module _ {D : Type 0} where
  abbrev pub set_zero : Bool → Act D
  set_zero b = modify (λ c. record c { ccr = record c.ccr { is_zero = b } })

  -- `bit`, a short: the register named in bits 9 to 11.
  unfoldable pub bit_in_reg : M D ℕ
  bit_in_reg c = (cut word (c.reg (op_reg c.code)), c)

module _ {D : Type 0} ⦃bus : Bus D⦄ where
  -- The second part of `bchg_d`, `bchg_s`, `bclr_d`, `bclr_s`, `bset_d` and `bset_s`: a byte in
  -- memory, or a long in a register.
  unfoldable pub modify_bit : BitOp → ℕ → Act D
  modify_bit op bit c =
      (if ea_mode c.code == 0
          then (do
            let mask = 2 ^ bit_and bit 31
            let n = ea_reg c.code
            set_zero (bit_and (c.reg n) mask == 0)
            modify (λ c'. record c' {
              reg = update c'.reg n (apply_bit op 0xffffffff (c'.reg n) mask);
            }))
          else (do
            let mask = 2 ^ bit_and bit 7
            d ← modify_at_ea byte (ea_mode c.code) (ea_reg c.code)
            set_zero (bit_and d mask == 0)
            rewrite_ea byte (apply_bit op 0xff d mask)))
        c

  unfoldable pub test_bit : ℕ → Act D
  test_bit bit c =
      (if ea_mode c.code == 0
          then set_zero (bit_and (c.reg (ea_reg c.code)) (2 ^ bit_and bit 31) == 0)
          else (do
            d ← get_from_ea byte (ea_mode c.code)
            set_zero (bit_and d (2 ^ bit_and bit 7) == 0)))
        c

  unfoldable pub bchg_d : Act D
  unfolding bit_in_reg modify_bit
  bchg_d = do bit ← bit_in_reg; modify_bit change bit

  unfoldable pub bchg_s : Act D
  unfolding fetch_word modify_bit
  bchg_s = do bit ← fetch_word; modify_bit change bit

  unfoldable pub bclr_d : Act D
  unfolding bit_in_reg modify_bit
  bclr_d = do bit ← bit_in_reg; modify_bit clear bit

  unfoldable pub bclr_s : Act D
  unfolding fetch_word modify_bit
  bclr_s = do bit ← fetch_word; modify_bit clear bit

  unfoldable pub bset_d : Act D
  unfolding bit_in_reg modify_bit
  bset_d = do bit ← bit_in_reg; modify_bit set bit

  unfoldable pub bset_s : Act D
  unfolding fetch_word modify_bit
  bset_s = do bit ← fetch_word; modify_bit set bit

  unfoldable pub btst_d : Act D
  unfolding bit_in_reg test_bit
  btst_d = do bit ← bit_in_reg; test_bit bit

  unfoldable pub btst_s : Act D
  unfolding fetch_word test_bit
  btst_s = do bit ← fetch_word; test_bit bit
