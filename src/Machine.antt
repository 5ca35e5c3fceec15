-- ===== src/Machine.antt =====
-- The state of the emulated 68008 (the globals of iexl_general.c, and of
-- general.c) and the functions that change it, as a state monad.
-- The host pointer `pc` is kept as its offset from `memBase`, on 64 bits; `memBase` is even.
use s_qlux.Base.{ℕ, ◌+◌, ◌*◌, ◌/◌, ◌^◌, bit_and, ◌==◌, if◌then◌else◌, Bool, true}
use s_qlux.Word.{Size, modulus}

-- The condition codes; `is_zero` is the source's `zero`.
pub record Ccr : Type 0 where
  pub xflag : Bool
  pub negative : Bool
  pub is_zero : Bool
  pub overflow : Bool
  pub carry : Bool

-- The ZX8302 side of the plain link with the 8049 (`ipc_wait` to `ipc_read`).
pub record IpcLink : Type 0 where
  pub wait : Bool
  pub rcvd : ℕ
  pub previous : ℕ
  pub ret : ℕ
  pub count : ℕ
  pub read : ℕ

-- `D` is the state of the devices, which the interface `Device.Bus` works on.
pub record Cpu (D : Type 0) : Type 0 where
  pub reg : ℕ → ℕ
  pub usp : ℕ
  pub ssp : ℕ
  pub pc : ℕ
  pub code : ℕ
  pub n_inst : ℕ
  pub n_inst2 : ℕ
  pub ccr : Ccr
  pub trace : Bool
  pub supervisor : Bool
  pub i_mask : ℕ
  pub stopped : Bool
  pub extra_flag : Bool
  pub do_trace : Bool
  pub pending_interrupt : ℕ
  pub the_int : ℕ
  pub ipl_lines : ℕ
  pub nmi_taken : Bool
  pub exception : ℕ
  pub saved_sr : ℕ
  pub bad_address : ℕ
  pub read_or_write : ℕ
  pub bad_code_address : Bool
  pub is_reg : Bool
  pub dest : ℕ
  pub last_addr : ℕ
  pub mem : ℕ → ℕ
  pub rtop : ℕ
  pub qm_lo : ℕ
  pub qm_hi : ℕ
  pub qm_len : ℕ
  pub display_mode : ℕ
  pub display_blank : Bool
  pub qsound_mapped : Bool
  pub nanotime : ℕ
  pub ipc : IpcLink
  pub dev : D

abbrev pub M : Type 0 → Type 0 → Type 0
M D A = Cpu D → A × Cpu D

abbrev pub Act : Type 0 → Type 0
Act D = M D (Unit {0})

infixl 5 ◌>>=◌ ◌>>◌
abbrev pub ◌>>=◌ : {D A B : Type 0} → M D A → (A → M D B) → M D B
◌>>=◌ m f c = let (a, c') = m c in f a c'

abbrev pub ◌>>◌ : {D B : Type 0} → Act D → M D B → M D B
◌>>◌ m k c = k (m c).1

abbrev pub pure : {D A : Type 0} → A → M D A
pure a c = (a, c)

abbrev pub skip : {D : Type 0} → Act D
skip c = (tt, c)

abbrev pub gets : {D A : Type 0} → (Cpu D → A) → M D A
gets f c = (f c, c)

abbrev pub modify : {D : Type 0} → (Cpu D → Cpu D) → Act D
modify f c = (tt, f c)

-- `if (b) m`
abbrev pub when : {D : Type 0} → Bool → Act D → Act D
when b m c = if b then m c else (tt, c)

-- An array with one element written.
abbrev pub update : (ℕ → ℕ) → ℕ → ℕ → ℕ → ℕ
update f i v j = if j == i then v else f j

-- The fields of an instruction word: `(code >> 3) & 7`, `code & 7`, `(code >> 9) & 7`.
abbrev pub ea_mode : ℕ → ℕ
ea_mode code = bit_and (code / 2 ^ 3) 7

abbrev pub ea_reg : ℕ → ℕ
ea_reg code = bit_and code 7

abbrev pub op_reg : ℕ → ℕ
op_reg code = bit_and (code / 2 ^ 9) 7

-- `(code >> 7) & 28`, a byte offset into `reg` or `aReg`, as an index.
abbrev pub dn_index : ℕ → ℕ
dn_index code = bit_and (code / 2 ^ 7) 28 / 4

-- A store through a `w8 *` or `w16 *` to a register replaces its low part.
abbrev pub put_low : Size → ℕ → ℕ → ℕ
put_low s old v = old / modulus s * modulus s + v

module _ {D : Type 0} where
  abbrev pub set_reg : ℕ → ℕ → Act D
  set_reg r v = modify (λ c. record c { reg = update c.reg r v })

  abbrev pub set_low : Size → ℕ → ℕ → Act D
  set_low s r v = modify (λ c. record c { reg = update c.reg r (put_low s (c.reg r) v) })

  abbrev pub set_ccr : Ccr → Act D
  set_ccr f = modify (λ c. record c { ccr = f })

  -- `exception = n; extraFlag = true; nInst2 = nInst; nInst = 0;`
  unfoldable pub raise : ℕ → Act D
  raise n =
      modify (λ c. record c { exception = n; extra_flag = true; n_inst2 = c.n_inst; n_inst = 0 })
