-- ===== src/BiosEmu/Wide.antt =====
-- The shifts of double words of src/arch/x86/bios_emu/ops/alu.c.
use horizon_operating_system.Common.{ℕ, ◌^◌, ◌≡◌, ◌≢◌, ◌<◌, ◌↔◌, none, arith}
use horizon_operating_system.Common.Bits.{bit_and_0x1f}
use horizon_operating_system.BiosEmu.Flags.{EFlags, Width, w8, w16, w32, bits}
use horizon_operating_system.BiosEmu.Shift.{rcl, rcr, shl_sal, low_count, temp_count}

-- RCL and RCR shift by 32, which C leaves undefined, exactly for double words and a count of 1; with
-- all other widths and counts they give an answer.
pub through_carry-undefined :
    (w : Width) (f : EFlags) (value count : ℕ)
    → ((rcl w f value count ≡ none) ↔ ((bits w ≡ 32) × (low_count count ≡ 1)))
      × ((rcr w f value count ≡ none) ↔ ((bits w ≡ 32) × (low_count count ≡ 1)))
unfolding rcl rcr
through_carry-undefined w8 f value count = ground arith
through_carry-undefined w16 f value count = ground arith
through_carry-undefined w32 f value count = ground (arith, bit_and_0x1f count)

-- SHL of a double word by a count other than 0 gives 0 in the upper word, whatever the operand is.
pub shl_sal_32-loses :
    (f : EFlags) (value count : ℕ)
    → temp_count w32 count ≢ 0
    → (shl_sal w32 f value count).dst < 2 ^ 16
unfolding shl_sal
shl_sal_32-loses f value count n = ground arith
