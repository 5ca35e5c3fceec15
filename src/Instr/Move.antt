-- ===== src/Instr/Move.antt =====
-- MOVE, MOVEA, MOVEQ, LEA, PEA, LINK, UNLK, EXG, CLR and Scc.
pub mod Exchange
use s_qlux.Base.{ℕ, zero, suc, ◌+◌, ◌-◌, ◌*◌, ◌/◌, ◌%◌, ◌^◌, bit_and, ◌==◌, ltb, leb, if◌then◌else◌}
use s_qlux.Base.{Bool, true, false, not}
use s_qlux.Word.{Size, byte, word, long, bytes, cut, sext, test, add32, sub32}
use s_qlux.Machine.{
  Ccr, Cpu, M, Act, ◌>>=◌, ◌>>◌, pure, skip, gets, modify, update, set_reg, set_low,
}
use s_qlux.Machine.{ea_mode, ea_reg, op_reg, dn_index}
use s_qlux.Device.{Bus}
use s_qlux.Status.{get_sr, ccr_of, condition_true}
use s_qlux.Memory.{is_odd, read_size, read_word, read_long, write_size, write_long}
use s_qlux.Ea.{get_ea, get_from_ea, put_to_ea, fetch_word, step}
use s_qlux.Exceptions.{put_sr}
use s_qlux.Instr.Arith.{source}
use s_qlux.Instr.Compare.{test_value}
use s_qlux.Instr.Logic.{privilege_violation}

-- `(code >> 6) & 7`, the mode of the destination of MOVE.
abbrev pub dest_mode : ℕ → ℕ
dest_mode code = bit_and (code / 2 ^ 6) 7

-- A byte is written wherever it is, a word or a long only at an even address.
abbrev pub clr_writes : Size → ℕ → Bool
clr_writes byte ea = true
clr_writes word ea = not (is_odd ea)
clr_writes long ea = not (is_odd ea)

module _ {D : Type 0} where
  -- `move_b_reg`, `move_w_reg` and `move_l_reg`
  unfoldable pub move_reg : Size → Act D
  unfolding test_value
  move_reg z c =
      let d = cut z (c.reg (ea_reg c.code)) in (do set_low z (dn_index c.code) d; test_value z d) c

  unfoldable pub movea_l_an : Act D
  movea_l_an c = set_reg (8 + dn_index c.code) (c.reg (8 + ea_reg c.code)) c

  unfoldable pub moveq : Act D
  unfolding test_value
  moveq c =
      let d = sext byte (cut byte c.code) in (do set_reg (dn_index c.code) d; test_value long d) c

  -- `exg_d`, `exg_a` and `exg_ad`: `i` and `j` are the registers' numbers in `reg`.
  unfoldable pub exchange : ℕ → ℕ → Act D
  exchange i j = modify (λ c. record c { reg = update (update c.reg i (c.reg j)) j (c.reg i) })

  unfoldable pub exg_d : Act D
  unfolding exchange
  exg_d c = exchange (ea_reg c.code) (op_reg c.code) c

  unfoldable pub exg_a : Act D
  unfolding exchange
  exg_a c = exchange (8 + ea_reg c.code) (8 + op_reg c.code) c

  unfoldable pub exg_ad : Act D
  unfolding exchange
  exg_ad c = exchange (8 + ea_reg c.code) (op_reg c.code) c

  unfoldable pub move_to_usp : Act D
  unfolding privilege_violation
  move_to_usp c =
      (if c.supervisor
          then modify (λ c'. record c' { usp = c'.reg (8 + ea_reg c'.code) })
          else privilege_violation)
        c

  unfoldable pub move_from_usp : Act D
  unfolding privilege_violation
  move_from_usp c =
      (if c.supervisor then set_reg (8 + ea_reg c.code) c.usp else privilege_violation) c

  unfoldable pub clear_flags : Act D
  clear_flags = modify (λ c. record c {
    ccr = record c.ccr { negative = false; overflow = false; carry = false; is_zero = true };
  })

module _ {D : Type 0} ⦃bus : Bus D⦄ where
  abbrev pub put_dest : Size → ℕ → Act D
  put_dest z d c = put_to_ea z (dest_mode c.code) (op_reg c.code) d c

  -- `move_b`, `move_w` and `move_l`
  unfoldable pub move : Size → Act D
  unfolding test_value
  move z = do d ← source z; put_dest z d; test_value z d

  unfoldable pub move_from_dn : Size → Act D
  unfolding test_value
  move_from_dn z = do d ← gets (λ c. cut z (c.reg (ea_reg c.code))); put_dest z d; test_value z d

  unfoldable pub move_to_dn : Size → Act D
  unfolding test_value
  move_to_dn z = do d ← source z; λ c. set_low z (dn_index c.code) d c; test_value z d

  unfoldable pub movea : Size → Act D
  movea z = do s ← source z; λ c. set_reg (8 + dn_index c.code) (sext z s) c

  unfoldable pub move_to_ccr : Act D
  move_to_ccr = do x ← source word; modify (λ c. record c { ccr = ccr_of x })

  unfoldable pub move_to_sr : Act D
  unfolding privilege_violation
  move_to_sr c = (if c.supervisor then (do x ← source word; put_sr x) else privilege_violation) c

  unfoldable pub move_from_sr : Act D
  move_from_sr c = put_to_ea word (ea_mode c.code) (ea_reg c.code) (get_sr c) c

  unfoldable pub lea : Act D
  lea = do
    ea ← (λ c. get_ea (ea_mode c.code) (ea_reg c.code) c)
    λ c. set_reg (8 + dn_index c.code) ea c

  -- `*m68k_sp -= 4; WriteLong(*m68k_sp, v)`
  unfoldable pub push_long : ℕ → Act D
  push_long v = do λ c. set_reg 15 (sub32 (c.reg 15) 4) c; λ c. write_long (c.reg 15) v c

  unfoldable pub pea : Act D
  unfolding push_long
  pea = do ea ← (λ c. get_ea (ea_mode c.code) (ea_reg c.code) c); push_long ea

  -- The register is read after the stack pointer has moved, which LINK A7 sees.
  unfoldable pub link_ins : Act D
  link_ins = do
    λ c. set_reg 15 (sub32 (c.reg 15) 4) c
    λ c. write_long (c.reg 15) (c.reg (8 + ea_reg c.code)) c
    λ c. set_reg (8 + ea_reg c.code) (c.reg 15) c
    displ ← fetch_word
    λ c. set_reg 15 (add32 (c.reg 15) (sext word displ)) c

  unfoldable pub unlk : Act D
  unlk = do
    sp ← gets (λ c. c.reg (8 + ea_reg c.code))
    set_reg 15 (add32 sp 4)
    v ← read_long sp
    λ c. set_reg (8 + ea_reg c.code) v c

  -- `clr_ea`: the address once, with the step of the pointer.
  unfoldable pub clr_ea : Size → ℕ → ℕ → M D ℕ
  clr_ea z mode r c =
      (if mode == 2
          then gets (λ c'. c'.reg (8 + r))
          else if mode == 3
          then (λ c'. (c'.reg (8 + r), (set_reg (8 + r) (add32 (c'.reg (8 + r)) (step z r)) c').1))
          else if mode == 4
          then (do set_reg (8 + r) (sub32 (c.reg (8 + r)) (step z r)); gets (λ c'. c'.reg (8 + r)))
          else get_ea mode r)
        c

  unfoldable pub clr : Size → Act D
  unfolding clr_ea clear_flags
  clr z c =
      (do
        (if leb 2 (ea_mode c.code)
            then (do
              ea ← clr_ea z (ea_mode c.code) (ea_reg c.code)
              old ← read_size z ea
              if clr_writes z ea then write_size z ea 0 else skip)
            else put_to_ea z (ea_mode c.code) (ea_reg c.code) 0)
        clear_flags)
        c

  -- `scc`, with `st` and `sf` as the conditions 0 and 1.
  unfoldable pub scc : Act D
  scc c =
      let b = if condition_true (bit_and (c.code / 2 ^ 8) 15) c.ccr then 0xff else 0 in
      put_to_ea byte (ea_mode c.code) (ea_reg c.code) b c

  unfoldable pub st : Act D
  st c = put_to_ea byte (ea_mode c.code) (ea_reg c.code) 0xff c

  unfoldable pub sf : Act D
  sf c = put_to_ea byte (ea_mode c.code) (ea_reg c.code) 0 c
