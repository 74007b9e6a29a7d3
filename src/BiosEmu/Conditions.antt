-- ===== src/BiosEmu/Conditions.antt =====
-- The conditions of src/arch/x86/bios_emu/ops/conditions.c.
use horizon_operating_system.Common.{Bool, true, false, not, ◌&&◌, ◌||◌, List, [], ◌∷◌}
use horizon_operating_system.BiosEmu.Flags.{EFlags}

-- `a != b` of two bits.
abbrev pub differs : Bool → Bool → Bool
differs true b = not b
differs false b = b

unfoldable pub condition_o : EFlags → Bool
condition_o f = f.of

unfoldable pub condition_no : EFlags → Bool
condition_no f = not f.of

unfoldable pub condition_b_c_nae : EFlags → Bool
condition_b_c_nae f = f.cf

unfoldable pub condition_ae_nb_nc : EFlags → Bool
condition_ae_nb_nc f = not f.cf

unfoldable pub condition_e_z : EFlags → Bool
condition_e_z f = f.zf

unfoldable pub condition_ne_nz : EFlags → Bool
condition_ne_nz f = not f.zf

unfoldable pub condition_be_na : EFlags → Bool
condition_be_na f = f.cf && f.zf

unfoldable pub condition_a_nbe : EFlags → Bool
condition_a_nbe f = not f.cf && not f.zf

unfoldable pub condition_s : EFlags → Bool
condition_s f = f.sf

unfoldable pub condition_ns : EFlags → Bool
condition_ns f = not f.sf

unfoldable pub condition_p_pe : EFlags → Bool
condition_p_pe f = f.pf

unfoldable pub condition_np_po : EFlags → Bool
condition_np_po f = not f.pf

unfoldable pub condition_l_nge : EFlags → Bool
condition_l_nge f = differs f.sf f.of

unfoldable pub condition_nl_ge : EFlags → Bool
condition_nl_ge f = not (differs f.sf f.of)

unfoldable pub condition_le_ng : EFlags → Bool
condition_le_ng f = f.zf || differs f.sf f.of

unfoldable pub condition_nle_g : EFlags → Bool
condition_nle_g f = not f.zf && not (differs f.sf f.of)

abbrev pub condition_table : List (EFlags → Bool)
condition_table =
    condition_o ∷ condition_no ∷ condition_b_c_nae ∷ condition_ae_nb_nc ∷ condition_e_z
    ∷ condition_ne_nz ∷ condition_be_na ∷ condition_a_nbe ∷ condition_s ∷ condition_ns
    ∷ condition_p_pe ∷ condition_np_po ∷ condition_l_nge ∷ condition_nl_ge ∷ condition_le_ng
    ∷ condition_nle_g ∷ []
