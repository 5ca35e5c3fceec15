-- ===== src/Instr/MulDiv.antt =====
-- MULS, MULU, DIVS, DIVU, CHK and the sign extensions.
pub mod Division
use s_qlux.Base.{ℕ, ◌+◌, ◌-◌, ◌*◌, ◌/◌, ◌%◌, ◌^◌, ltb, leb, ◌==◌, if◌then◌else◌, bit_and, Bool}
use s_qlux.Base.{true, false, not, ◌&&◌, ◌||◌, eqb}
use s_qlux.Word.{Size, byte, word, long, cut, sext, test, is_neg, sub32}
use s_qlux.Machine.{
  Ccr, Cpu, M, Act, ◌>>=◌, ◌>>◌, skip, gets, modify, update, set_reg, set_low, raise,
}
use s_qlux.Machine.{ea_reg, dn_index}
use s_qlux.Device.{Bus}
use s_qlux.Alu.{logic_ccr}
use s_qlux.Instr.Arith.{source}
use s_qlux.Instr.Compare.{test_value}

-- The absolute value of a signed number of this size, and a signed number from its absolute
-- value, cut to a long.
abbrev pub abs_of : Size → ℕ → ℕ
abs_of z x = if is_neg z x then cut z (2 ^ 32 - x) else x

abbrev pub signed_of : Bool → ℕ → ℕ
signed_of neg n = if neg then cut long (2 ^ 32 - n) else n

-- A product of two words as signed numbers: the exact product fits a long.
unfoldable pub muls_of : ℕ → ℕ → ℕ
muls_of d s = cut long (sext word d * sext word s)

unfoldable pub mulu_of : ℕ → ℕ → ℕ
mulu_of d s = d * s

-- `*d / s` of C, which drops the fraction: the quotient of the absolute values with its sign.
unfoldable pub quotient_of : ℕ → ℕ → ℕ
quotient_of d s =
    signed_of (not (eqb (is_neg long d) (is_neg word s))) (abs_of long d / abs_of word s)

-- `*d - r * s` as the upper word of the result, and `r` as the lower.
abbrev pub div_result : ℕ → ℕ → ℕ
div_result remainder r = cut word remainder * 2 ^ 16 + cut word r

-- `r < -32768 || r > 32767`
abbrev pub is_wide : ℕ → Bool
is_wide r = leb 0x8000 r && ltb r 0xffff8000

module _ {D : Type 0} where
  abbrev pub set_vc : Bool → Act D
  set_vc v = modify (λ c. record c { ccr = record c.ccr { overflow = v; carry = false } })

  -- The flags of a quotient, and the register.
  unfoldable pub put_quotient : ℕ → ℕ → ℕ → Act D
  put_quotient n remainder r = modify (λ c. record c {
    ccr = record c.ccr {
      is_zero = cut word r == 0;
      negative = is_neg word (cut word r);
      overflow = false;
      carry = false;
    };
    reg = update c.reg n (div_result remainder r);
  })

  -- Division by zero: N, Z, V and C are cleared.
  unfoldable pub divide_by_zero : Act D
  unfolding raise
  divide_by_zero = do
    modify (λ c. record c {
      ccr = record c.ccr { negative = false; is_zero = false; overflow = false; carry = false };
    })
    raise 5

  unfoldable pub divs_by : ℕ → ℕ → Act D
  unfolding put_quotient divide_by_zero quotient_of
  divs_by n s c =
      let d = c.reg n in
      let r = quotient_of d s in
      (if s == 0
          then divide_by_zero
          else if d == 0x80000000 && s == 0xffff
          then set_vc true
          else if is_wide r
          then set_vc true
          else put_quotient n (sub32 d (cut long (r * sext word s))) r)
        c

  unfoldable pub divu_by : ℕ → ℕ → Act D
  unfolding put_quotient divide_by_zero
  divu_by n s c =
      let d = c.reg n in
      let r = d / s in
      (if s == 0
          then divide_by_zero
          else if ltb 65535 r
          then set_vc true
          else put_quotient n (sub32 d (cut long (r * s))) r)
        c

  -- `ext_w` and `ext_l`
  unfoldable pub ext_w : Act D
  unfolding test_value
  ext_w c =
      let n = ea_reg c.code in
      let d = cut word (sext byte (cut byte (c.reg n))) in
      (do set_low word n d; test_value word d) c

  unfoldable pub ext_l : Act D
  unfolding test_value
  ext_l c =
      let n = ea_reg c.code in
      let d = sext word (cut word (c.reg n)) in (do set_reg n d; test_value long d) c

  -- `swap`
  unfoldable pub swap_halves : Act D
  unfolding test_value
  swap_halves c =
      let n = ea_reg c.code in
      let d = cut long (c.reg n * 2 ^ 16 + c.reg n / 2 ^ 16) in
      (do set_reg n d; test_value long d) c

  -- The test of CHK, once its operand is fetched.
  unfoldable pub chk_with : ℕ → Act D
  unfolding raise
  chk_with ea c =
      let d = cut word (c.reg (dn_index c.code)) in
      (do
        modify (λ c'. record c' {
          ccr = record c'.ccr { is_zero = d == 0; overflow = false; carry = false };
        })
        if is_neg word d
            then (do modify (λ c'. record c' { ccr = record c'.ccr { negative = true } }); raise 6)
            else if is_neg word ea || ltb ea d
            then (do modify (λ c'. record c' { ccr = record c'.ccr { negative = false } }); raise 6)
            else skip)
        c

module _ {D : Type 0} ⦃bus : Bus D⦄ where
  unfoldable pub muls : Act D
  unfolding muls_of test_value
  muls = do
    s ← source word
    n ← gets (λ c. dn_index c.code)
    r ← gets (λ c. muls_of (cut word (c.reg n)) s)
    set_reg n r
    test_value long r

  unfoldable pub mulu : Act D
  unfolding mulu_of test_value
  mulu = do
    s ← source word
    n ← gets (λ c. dn_index c.code)
    r ← gets (λ c. mulu_of (cut word (c.reg n)) s)
    set_reg n r
    test_value long r

  -- Nothing more is done where the operand raised an exception.
  unfoldable pub unless_exception : Act D → Act D
  unless_exception m c = (if c.exception == 0 then m else skip) c

  unfoldable pub divs : Act D
  unfolding divs_by unless_exception
  divs = do s ← source word; λ c. unless_exception (divs_by (dn_index c.code) s) c

  unfoldable pub divu : Act D
  unfolding divu_by unless_exception
  divu = do s ← source word; λ c. unless_exception (divu_by (dn_index c.code) s) c

  unfoldable pub chk : Act D
  unfolding chk_with unless_exception
  chk = do s ← source word; unless_exception (chk_with s)
