-- ===== src/Ea.antt =====
-- The addressing modes (mmodes.c): effective addresses, operands read and operands written, by
-- the mode field as the tables `GetEA`, `GetFromEA_*` and `PutToEA_*` are indexed. The functions
-- that the source writes once per size take the size here.
use s_qlux.Base.{ℕ, ◌+◌, ◌-◌, ◌/◌, ◌^◌, bit_and, bit_or, ◌==◌, if◌then◌else◌}
use s_qlux.Word.{Size, byte, word, long, bytes, cut, sext, test, add32, sub32, add_ptr}
use s_qlux.Machine.{M, Act, ◌>>=◌, ◌>>◌, pure, gets, modify, set_reg, set_low, raise, update}
use s_qlux.Machine.{ea_reg}
use s_qlux.Device.{Bus}
use s_qlux.Memory.{peek_word, peek_long, read_size, write_size}

-- The step of `(An)+` and `-(An)`: A7 stays even.
abbrev pub step : Size → ℕ → ℕ
step s r = if r == 7 then (elim s [ byte ↦ 2 | word ↦ 2 | long ↦ 4 ]) else bytes s

-- The index register that the extension word names, as a word or a long.
unfoldable pub index_of : (ℕ → ℕ) → ℕ → ℕ
index_of reg displ =
    let x = reg (bit_and (displ / 2 ^ 12) 15) in
    if test displ 2048 then x else sext word (cut word x)

unfoldable pub displacement : ℕ → ℕ
displacement displ = sext byte (cut byte displ)

module _ {D : Type 0} where
  -- `RW(pc++)`
  unfoldable pub fetch_word : M D ℕ
  fetch_word c = (peek_word c.mem c.pc, record c { pc = add_ptr c.pc 2 })

  -- `RL(pc); pc += 2`
  unfoldable pub fetch_long : M D ℕ
  fetch_long c = (peek_long c.mem c.pc, record c { pc = add_ptr c.pc 4 })

  -- `pc--`
  unfoldable pub back_word : Act D
  back_word = modify (λ c. record c { pc = add_ptr c.pc (2 ^ 64 - 2) })

  -- `GetEA_mBad` and the functions that end like it.
  unfoldable pub bad_mode : M D ℕ
  bad_mode = do raise 4; pure 0

  unfoldable pub get_ea_m5 : ℕ → M D ℕ
  unfolding fetch_word
  get_ea_m5 r = do displ ← fetch_word; gets (λ c. add32 (c.reg (8 + r)) (sext word displ))

  unfoldable pub get_ea_m6 : ℕ → M D ℕ
  unfolding fetch_word index_of displacement
  get_ea_m6 r = do
    displ ← fetch_word
    gets (λ c. add32 (add32 (index_of c.reg displ) (c.reg (8 + r))) (displacement displ))

  -- Relative to the address of the extension word, which `pc` has passed.
  unfoldable pub get_ea_pc : M D ℕ
  unfolding fetch_word
  get_ea_pc = do displ ← fetch_word; gets (λ c. add32 (sub32 (cut long c.pc) 2) (sext word displ))

  -- `GetEA_m7_3`
  unfoldable pub get_ea_m7_3 : M D ℕ
  unfolding fetch_word index_of displacement
  get_ea_m7_3 = do
    displ ← fetch_word
    gets (λ c. add32 (sub32 (add32 (index_of c.reg displ) (cut long c.pc)) 2) (displacement displ))

  unfoldable pub get_ea_m7 : ℕ → M D ℕ
  unfolding fetch_word fetch_long get_ea_pc get_ea_m7_3 bad_mode
  get_ea_m7 r =
      if r == 0
      then (do displ ← fetch_word; pure (sext word displ))
      else if r == 1
      then fetch_long
      else if r == 2
      then get_ea_pc
      else if r == 3
      then get_ea_m7_3
      else bad_mode

  -- The table `GetEA`.
  unfoldable pub get_ea : ℕ → ℕ → M D ℕ
  unfolding get_ea_m5 get_ea_m6 get_ea_m7 bad_mode
  get_ea mode r =
      if mode == 2
      then gets (λ c. c.reg (8 + r))
      else if mode == 5
      then get_ea_m5 r
      else if mode == 6
      then get_ea_m6 r
      else if mode == 7
      then get_ea_m7 r
      else bad_mode

  -- `addr = aReg[r]; aReg[r] += n`, and `addr = aReg[r] -= n`.
  unfoldable pub post_increment : Size → ℕ → M D ℕ
  post_increment s r c = (c.reg (8 + r), (set_reg (8 + r) (add32 (c.reg (8 + r)) (step s r)) c).1)

  unfoldable pub pre_decrement : Size → ℕ → M D ℕ
  pre_decrement s r c =
      let addr = sub32 (c.reg (8 + r)) (step s r) in (addr, (set_reg (8 + r) addr c).1)

  -- The operand of an immediate instruction: the low byte of a word, a word or a long.
  unfoldable pub immediate : Size → M D ℕ
  unfolding fetch_word fetch_long
  immediate byte = do d ← fetch_word; pure (cut byte d)
  immediate word = fetch_word
  immediate long = fetch_long

module _ {D : Type 0} ⦃bus : Bus D⦄ where
  -- A read at a computed address.
  unfoldable pub read_at : Size → M D ℕ → M D ℕ
  read_at s address = do addr ← address; read_size s addr

  -- `GetFromEA_b_m7`, `GetFromEA_w_m7` and `GetFromEA_l_m7`
  unfoldable pub get_from_ea_m7 : Size → ℕ → M D ℕ
  unfolding fetch_word fetch_long get_ea_pc get_ea_m7_3 read_at immediate bad_mode
  get_from_ea_m7 s r =
      if r == 0
      then read_at s (do displ ← fetch_word; pure (sext word displ))
      else if r == 1
      then read_at s fetch_long
      else if r == 2
      then read_at s get_ea_pc
      else if r == 3
      then read_at s get_ea_m7_3
      else if r == 4
      then immediate s
      else bad_mode

  -- `GetFromEA_*_m1`: an address register is no byte.
  unfoldable pub get_from_ea_m1 : Size → ℕ → M D ℕ
  unfolding bad_mode
  get_from_ea_m1 byte r = bad_mode
  get_from_ea_m1 word r = gets (λ c. cut word (c.reg (8 + r)))
  get_from_ea_m1 long r = gets (λ c. c.reg (8 + r))

  -- The tables `GetFromEA_b`, `GetFromEA_w` and `GetFromEA_l`; the register is `code & 7`.
  unfoldable pub get_from_ea : Size → ℕ → M D ℕ
  unfolding get_from_ea_m1 get_from_ea_m7 get_ea_m5 get_ea_m6 read_at post_increment pre_decrement
  get_from_ea s mode c =
      let r = ea_reg c.code in
      (if mode == 0
          then gets (λ c'. cut s (c'.reg r))
          else if mode == 1
          then get_from_ea_m1 s r
          else if mode == 2
          then read_at s (gets (λ c'. c'.reg (8 + r)))
          else if mode == 3
          then read_at s (post_increment s r)
          else if mode == 4
          then read_at s (pre_decrement s r)
          else if mode == 5
          then read_at s (get_ea_m5 r)
          else if mode == 6
          then read_at s (get_ea_m6 r)
          else get_from_ea_m7 s r)
        c

  -- `GetFromEA_rb_m3` and its kin, for CMPM: the register is given.
  unfoldable pub get_from_ea_r_m3 : Size → ℕ → M D ℕ
  unfolding read_at post_increment
  get_from_ea_r_m3 s r = read_at s (post_increment s r)

  -- `PutToEA_*_m0` and `PutToEA_*_m1`. The word functions put the operand, as a signed number,
  -- over the high half of the register: `(reg[r] & 0xFFFF0000) | d`.
  unfoldable pub put_to_reg : Size → ℕ → ℕ → Act D
  put_to_reg byte r d = set_low byte r d
  put_to_reg word r d =
      modify (λ c. record c {
        reg = update c.reg r (bit_or (bit_and (c.reg r) 0xFFFF0000) (sext word d));
      })
  put_to_reg long r d = set_reg r d

  unfoldable pub write_at : Size → M D ℕ → ℕ → Act D
  write_at s address d = do addr ← address; write_size s addr d

  unfoldable pub put_to_ea_m1 : Size → ℕ → ℕ → Act D
  unfolding put_to_reg
  put_to_ea_m1 byte r d = raise 4
  put_to_ea_m1 word r d = put_to_reg word (8 + r) d
  put_to_ea_m1 long r d = put_to_reg long (8 + r) d

  -- The tables `PutToEA_b`, `PutToEA_w` and `PutToEA_l`.
  unfoldable pub put_to_ea : Size → ℕ → ℕ → ℕ → Act D
  unfolding put_to_reg put_to_ea_m1 write_at post_increment pre_decrement get_ea_m5 get_ea_m6
      get_ea_m7
  put_to_ea s mode r d =
      if mode == 0
      then put_to_reg s r d
      else if mode == 1
      then put_to_ea_m1 s r d
      else if mode == 2
      then write_at s (gets (λ c. c.reg (8 + r))) d
      else if mode == 3
      then write_at s (post_increment s r) d
      else if mode == 4
      then write_at s (pre_decrement s r) d
      else if mode == 5
      then write_at s (get_ea_m5 r) d
      else if mode == 6
      then write_at s (get_ea_m6 r) d
      else write_at s (get_ea_m7 r) d
