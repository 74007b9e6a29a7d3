-- ===== src/BiosEmu/Add.antt =====
-- Addition with carry by src/arch/x86/bios_emu/ops/alu.c: one word and two words.
use horizon_operating_system.Common.{ℕ, ◌+◌, ◌-◌, ◌*◌, ◌%◌, ◌^◌, ◌≡◌, ◌<◌, true, arith}
use horizon_operating_system.BiosEmu.Flags.{EFlags, w8, w16, w32, sign_flag, set_zf_pf}
use horizon_operating_system.BiosEmu.Alu.{add, adc, sub, sbb, carry}

-- The carry counts as 2 ^ 32: nothing of the sum is lost.
add_32-exact :
    (f : EFlags) (dst src : ℕ)
    → dst < 2 ^ 32
    → src < 2 ^ 32
    → let a = add w32 f dst src in (a.dst + carry a.flags * 2 ^ 32 ≡ dst + src) × (a.dst < 2 ^ 32)
unfolding add sign_flag set_zf_pf
add_32-exact f dst src d s = ground arith

-- ADD and then ADC add two numbers of two double words, as long as the upper word of the second is not
-- the largest: the answer and the carry are exactly the sum.
pub adc-add_exact :
    (f : EFlags) (lo hi lo' hi' : ℕ)
    → lo < 2 ^ 32
    → hi < 2 ^ 32
    → lo' < 2 ^ 32
    → hi' < 2 ^ 32 - 1
    → let a = add w32 f lo lo' in
      let b = adc w32 a.flags hi hi' in
      a.dst + b.dst * 2 ^ 32 + carry b.flags * 2 ^ 64 ≡ (lo + hi * 2 ^ 32) + (lo' + hi' * 2 ^ 32)
unfolding adc
adc-add_exact f lo hi lo' hi' l h l' h' =
    let a = add w32 f lo lo' in
    ground (
      arith,
      add_32-exact f lo lo' l l',
      add_32-exact a.flags hi ((hi' + carry a.flags) % 2 ^ 32) h,
    )

-- With the largest upper word and a carry from the lower words, the carry is lost.
pub adc_loses_carry :
    (f : EFlags) (hi : ℕ)
    → hi < 2 ^ 32
    → f.cf ≡ true
    → (adc w32 f hi (2 ^ 32 - 1)).dst ≡ hi × (carry (adc w32 f hi (2 ^ 32 - 1)).flags ≡ 0)
unfolding adc add sign_flag set_zf_pf
adc_loses_carry f hi h c = ground arith

-- The same for SUB and SBB: what is borrowed counts as 2 ^ 64.
pub sbb-sub_exact :
    (f : EFlags) (lo hi lo' hi' : ℕ)
    → lo < 2 ^ 32
    → hi < 2 ^ 32
    → lo' < 2 ^ 32
    → hi' < 2 ^ 32 - 1
    → let a = sub w32 f lo lo' in
      let b = sbb w32 a.flags hi hi' in
      a.dst + b.dst * 2 ^ 32 + (lo' + hi' * 2 ^ 32) ≡ lo + hi * 2 ^ 32 + carry b.flags * 2 ^ 64
unfolding sbb sub sign_flag set_zf_pf
sbb-sub_exact f lo hi lo' hi' l h l' h' = ground arith

-- ADD of bytes and of words sets the carry flag, whatever the operands are.
pub narrow_add-carries :
    (f : EFlags) (dst src : ℕ)
    → ((add w8 f dst src).flags.cf ≡ true) × ((add w16 f dst src).flags.cf ≡ true)
unfolding add sign_flag set_zf_pf
narrow_add-carries f dst src = ground arith
