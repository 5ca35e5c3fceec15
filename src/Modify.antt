-- ===== src/Modify.antt =====
-- Operands that are read and written back (memaccess.c): `ModifyAtEA_*` leaves
-- where the operand was found in `is_reg`, `dest` and `last_addr` for `RewriteEA_*`.
-- `dest` is kept as the register's number; for memory `RewriteEA_*` uses `last_addr` alone.
use s_qlux.Base.{ℕ, ◌+◌, ◌==◌, if◌then◌else◌, true, false, not}
use s_qlux.Word.{Size, byte, word, long, cut, sext}
use s_qlux.Machine.{M, Act, ◌>>=◌, ◌>>◌, pure, skip, gets, modify, set_low, raise}
use s_qlux.Device.{Bus}
use s_qlux.Memory.{mask_addr, read_size, write_size}
use s_qlux.Ea.{fetch_word, fetch_long, get_ea_m5, get_ea_m6, post_increment, pre_decrement}

module _ {D : Type 0} where
  -- The operand is register `n`.
  unfoldable pub modify_reg : Size → ℕ → M D ℕ
  modify_reg s n c = (
    cut s (c.reg n),
    record c {
      is_reg = true;
      dest = n;
      last_addr = elim s [ byte ↦ 0 | word ↦ c.last_addr | long ↦ c.last_addr ];
    },
  )

  -- A mode that has no operand to modify.
  unfoldable pub modify_bad : Size → M D ℕ
  unfolding raise
  modify_bad s = do
    raise 4
    modify (λ c. record c {
      last_addr = elim s [ byte ↦ 0 | word ↦ c.last_addr | long ↦ c.last_addr ];
    })
    pure 0

module _ {D : Type 0} ⦃bus : Bus D⦄ where
  -- The byte function masks the address before it keeps it.
  unfoldable pub modify_mem : Size → M D ℕ → M D ℕ
  modify_mem s address = do
    addr0 ← address
    let addr : ℕ = elim s [ byte ↦ mask_addr addr0 | word ↦ addr0 | long ↦ addr0 ]
    modify (λ c. record c { last_addr = addr })
    read_size s addr

  unfoldable pub modify_at_m1 : Size → ℕ → M D ℕ
  unfolding modify_reg modify_bad
  modify_at_m1 byte r = modify_bad byte
  modify_at_m1 word r = modify_reg word (8 + r)
  modify_at_m1 long r = modify_reg long (8 + r)

  unfoldable pub modify_at_ea : Size → ℕ → ℕ → M D ℕ
  unfolding modify_reg modify_bad modify_mem modify_at_m1 fetch_word fetch_long get_ea_m5 get_ea_m6
      post_increment pre_decrement
  modify_at_ea s mode r = do
    modify (λ c. record c { is_reg = false })
    if mode == 0
        then modify_reg s r
        else if mode == 1
        then modify_at_m1 s r
        else if mode == 2
        then modify_mem s (gets (λ c. c.reg (8 + r)))
        else if mode == 3
        then modify_mem s (post_increment s r)
        else if mode == 4
        then modify_mem s (pre_decrement s r)
        else if mode == 5
        then modify_mem s (get_ea_m5 r)
        else if mode == 6
        then modify_mem s (get_ea_m6 r)
        else if mode == 7
        then (if r == 0
            then modify_mem s (do displ ← fetch_word; pure (sext word displ))
            else if r == 1
            then modify_mem s fetch_long
            else modify_bad s)
        else modify_bad s

  -- `RewriteEA_*`: nothing is written once an exception is pending.
  unfoldable pub rewrite_ea : Size → ℕ → Act D
  rewrite_ea s d c =
      (if not (c.exception == 0)
          then skip
          else if c.is_reg
          then set_low s c.dest d
          else write_size s c.last_addr d)
        c
