-- ===== src/BiosEmu/Flags.antt =====
-- The flags that the operations of src/arch/x86/bios_emu/ops/alu.c set, with the macros of
-- src/arch/x86/bios_emu/includes/flags.h.
use horizon_operating_system.Common.{
  ℕ, ◌-◌, ◌/◌, ◌%◌, ◌^◌, Bool, false, not, bit_and, bit_xor, ◌==◌,
}

-- The bits of `regs.flags` that an operation sets. All other bits stay as they are.
pub record EFlags : Type 0 where
  pub cf : Bool
  pub pf : Bool
  pub zf : Bool
  pub sf : Bool
  pub of : Bool

-- The sizes of operands, one for each of the three functions of an operation.
pub data Width : Type 0 where
  w8 w16 w32 : Width

abbrev pub bits : Width → ℕ
bits w8 = 8
bits w16 = 16
bits w32 = 32

-- A number as the condition of C's `?:`.
abbrev pub truth : ℕ → Bool
truth x = not (x == 0)

-- SIGN_FLAG8, SIGN_FLAG16 and SIGN_FLAG32.
unfoldable pub sign_flag : Width → EFlags → ℕ → EFlags
sign_flag w f x = record f { sf = truth (x / 2 ^ (bits w - 1)) }

unfoldable pub calc_parity : ℕ → ℕ
calc_parity x = let folded = bit_and (bit_xor x (x / 2 ^ 4)) 0x0f in bit_and (0x6996 / 2 ^ folded) 1

-- Only the low byte of `x` is passed to `calc_parity`.
unfoldable pub set_zf_pf : EFlags → ℕ → EFlags
unfolding calc_parity
set_zf_pf f x = record f { zf = x == 0; pf = truth (calc_parity (x % 2 ^ 8)) }

unfoldable pub set_test_flag : EFlags → ℕ → EFlags
unfolding set_zf_pf
set_test_flag f x = record (set_zf_pf f x) { cf = false; of = false }
