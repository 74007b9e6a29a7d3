-- ===== src/BiosEmu/Compare.antt =====
-- What the conditions of src/arch/x86/bios_emu/ops/conditions.c tell after a comparison by
-- src/arch/x86/bios_emu/ops/alu.c.
use horizon_operating_system.Common.{ℕ, ◌-◌, ◌^◌, ◌≡◌, ◌<◌, true, false, not, ltb, leb, ◌==◌, arith}
use horizon_operating_system.BiosEmu.Flags.{EFlags, Width, w8, w16, w32, bits, sign_flag, set_zf_pf}
use horizon_operating_system.BiosEmu.Conditions.{
  condition_b_c_nae, condition_ae_nb_nc, condition_e_z, condition_ne_nz, condition_be_na,
  condition_a_nbe, condition_l_nge, condition_nl_ge,
}
use horizon_operating_system.BiosEmu.Alu.{cmp, cmp_width}

-- After a comparison of any width, the unsigned conditions tell how the operands are ordered: below,
-- not below, equal, not equal and above; but that of JBE, below or equal, never holds.
pub cmp_orders :
    (w : Width) (f : EFlags) (dst src : ℕ)
    → dst < 2 ^ bits w
    → src < 2 ^ bits w
    → let f' = (cmp w f dst src).flags in
      (condition_b_c_nae f' ≡ ltb dst src)
      × (condition_ae_nb_nc f' ≡ leb src dst)
      × (condition_e_z f' ≡ (dst == src))
      × (condition_ne_nz f' ≡ not (dst == src))
      × (condition_a_nbe f' ≡ ltb src dst)
      × (condition_be_na f' ≡ false)
unfolding cmp set_zf_pf condition_b_c_nae condition_ae_nb_nc condition_e_z condition_ne_nz
    condition_a_nbe condition_be_na
cmp_orders w8 f dst src d s = ground arith
cmp_orders w16 f dst src d s = ground arith
cmp_orders w32 f dst src d s = ground arith

-- After a comparison the condition of JL does not hold and that of JGE does, whatever the order is, if
-- both operands are below the half of what the answer can hold: bytes always, and words and double words
-- that are not negative.
pub cmp-never_less :
    (w : Width) (f : EFlags) (dst src : ℕ)
    → dst < 2 ^ (bits (cmp_width w) - 1)
    → src < 2 ^ (bits (cmp_width w) - 1)
    → let f' = (cmp w f dst src).flags in (condition_l_nge f' ≡ false) × (condition_nl_ge f' ≡ true)
unfolding cmp sign_flag set_zf_pf condition_l_nge condition_nl_ge
cmp-never_less w8 f dst src d s = ground arith
cmp-never_less w16 f dst src d s = ground arith
cmp-never_less w32 f dst src d s = ground arith
