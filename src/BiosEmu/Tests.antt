-- ===== src/BiosEmu/Tests.antt =====
-- Runs of the operations of src/arch/x86/bios_emu/ops/alu.c, and the theorems about them there.
use horizon_operating_system.Common.{◌+◌, ◌-◌, ◌*◌, ◌^◌, ◌≡◌, refl, true, false, arith}
use horizon_operating_system.BiosEmu.Flags.{EFlags, w8, w16, w32}
use horizon_operating_system.BiosEmu.Conditions.{
  condition_b_c_nae, condition_ae_nb_nc, condition_e_z, condition_ne_nz, condition_a_nbe,
  condition_be_na,
}
use horizon_operating_system.BiosEmu.Alu.{add, adc, cmp, carry, calc, calc_xor, xor, logic}
use horizon_operating_system.BiosEmu.Shift.{rol, ror, sar, neg}
use horizon_operating_system.BiosEmu.BitTest.{btc}
use horizon_operating_system.BiosEmu.Multiply.{Regs}
use horizon_operating_system.BiosEmu.Compare.{cmp_orders}
use horizon_operating_system.BiosEmu.Add.{adc-add_exact}
use horizon_operating_system.BiosEmu.Rotate.{ror-rol}

abbrev clear : EFlags
clear = record { cf = false; pf = false; zf = false; sf = false; of = false }

-- XOR AL, AL sets the zero flag, and SAR keeps the sign.
xor_clears : (calc calc_xor w8 clear 0x5a 0x5a).flags ≡ record clear { zf = true }
unfolding calc xor logic
xor_clears = refl

sar_keeps_sign : (sar w8 clear 0xf0 2).dst ≡ 0xfc
unfolding sar
sar_keeps_sign = refl

neg_of_two : (neg w16 clear 2).dst ≡ 0xfffe
unfolding neg
neg_of_two = refl

btc_flips : (btc w16 clear 0xf0 20).dst ≡ 0xe0
unfolding btc
btc_flips = refl

cmp_orders_example :
    let f' = (cmp w8 clear 3 5).flags in
    (condition_b_c_nae f' ≡ true)
    × (condition_ae_nb_nc f' ≡ false)
    × (condition_e_z f' ≡ false)
    × (condition_ne_nz f' ≡ true)
    × (condition_a_nbe f' ≡ false)
    × (condition_be_na f' ≡ false)
cmp_orders_example = cmp_orders w8 clear 3 5 (omega arith) (omega arith)

adc-add_exact_example :
    let a = add w32 clear (2 ^ 32 - 1) 1 in
    let b = adc w32 a.flags 7 8 in a.dst + b.dst * 2 ^ 32 + carry b.flags * 2 ^ 64 ≡ 16 * 2 ^ 32
adc-add_exact_example =
    adc-add_exact clear (2 ^ 32 - 1) 7 1 8 (omega arith) (omega arith) (omega arith) (omega arith)

abbrev regs : Regs
regs = record { eax = 0x10003; edx = 0x20000; flags = clear }

ror-rol_example : (ror w8 clear (rol w8 clear 0x96 3).dst 3).dst ≡ 0x96
ror-rol_example = ror-rol w8 clear clear 0x96 3 (omega arith)
