-- ===== src/Instr/Registers.antt =====
-- The forms that the source writes out for register operands against the general ones.
use s_qlux.Base.{◌≡◌, refl}
use s_qlux.Word.{Size, cut}
use s_qlux.Machine.{Cpu, ea_mode, ea_reg}
use s_qlux.Device.{Bus}
use s_qlux.Ea.{get_from_ea}
use s_qlux.Instr.Arith.{add_dn, add_dn_dn, add_an, add_an_dn}
use s_qlux.Instr.Compare.{cmp, cmp_dn}
use s_qlux.Instr.Move.{move_to_dn, move_reg}

module _ {D : Type 0} ⦃bus : Bus D⦄ where
  get_from_ea-m0 : (z : Size) (c : Cpu D) → get_from_ea z 0 c ≡ (cut z (c.reg (ea_reg c.code)), c)
  unfolding get_from_ea
  get_from_ea-m0 z c = refl

  -- With a data register as the source (mode 0), ADD, ADDA, CMP and MOVE to a data register have
  -- the effect of their forms for two registers, for every size.
  pub data_register_forms :
      (z : Size) (c : Cpu D)
      → ea_mode c.code ≡ 0
      → (add_dn z c ≡ add_dn_dn z c)
        × (add_an z c ≡ add_an_dn z c)
        × (cmp z c ≡ cmp_dn z c)
        × (move_to_dn z c ≡ move_reg z c)
  unfolding add_dn add_dn_dn add_an add_an_dn cmp cmp_dn move_to_dn move_reg
  data_register_forms z c h = rw (h, get_from_ea-m0 z c) (refl, refl, refl, refl)
