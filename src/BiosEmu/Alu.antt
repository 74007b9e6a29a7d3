-- ===== src/BiosEmu/Alu.antt =====
-- Addition, subtraction, comparison and the bitwise operations of
-- src/arch/x86/bios_emu/ops/alu.c. Operands are numbers below 2 ^ bits.
use horizon_operating_system.Common.{
  ℕ, ◌+◌, ◌-◌, ◌%◌, ◌^◌, Bool, bit_and, bit_or, bit_xor, ltb, leb, if◌then◌else◌,
}
use horizon_operating_system.BiosEmu.Flags.{
  EFlags, Width, w8, w16, w32, bits, sign_flag, set_zf_pf, set_test_flag,
}

-- What an operation leaves: the flags, and `*dst`.
pub record Answer : Type 0 where
  pub flags : EFlags
  pub dst : ℕ

-- `*dst > ~src`: the narrow operands are promoted to int, so `~src` is the negative `- (src + 1)`.
abbrev pub above_not : Width → ℕ → ℕ → Bool
above_not w32 dst src = ltb (2 ^ 32 - 1 - src) dst
above_not w dst src = ltb 0 (dst + (src + 1))

-- `__builtin_add_overflow` tells that the exact sum is not the unsigned answer.
unfoldable pub add : Width → EFlags → ℕ → ℕ → Answer
unfolding sign_flag set_zf_pf
add w f dst src =
    let ans = (dst + src) % 2 ^ bits w in
    let f1 = record f { cf = above_not w dst src; of = leb (2 ^ bits w) (dst + src) } in
    record { flags = set_zf_pf (sign_flag w f1 ans) ans; dst = ans }

abbrev pub carry : EFlags → ℕ
carry f = if f.cf then 1 else 0

-- `src + carry` is truncated when it is passed on.
unfoldable pub adc : Width → EFlags → ℕ → ℕ → Answer
unfolding add
adc w f dst src = add w f dst ((src + carry f) % 2 ^ bits w)

unfoldable pub sub : Width → EFlags → ℕ → ℕ → Answer
unfolding sign_flag set_zf_pf
sub w f dst src =
    let ans = (dst + 2 ^ bits w - src) % 2 ^ bits w in
    let f1 = record f { cf = ltb dst src; of = ltb dst src } in
    record { flags = set_zf_pf (sign_flag w f1 ans) ans; dst = ans }

unfoldable pub sbb : Width → EFlags → ℕ → ℕ → Answer
unfolding sub
sbb w f dst src = sub w f dst ((src + carry f) % 2 ^ bits w)

-- The flags of AND, XOR and OR, and their answer.
unfoldable pub logic : Width → EFlags → ℕ → Answer
unfolding sign_flag set_test_flag
logic w f ans = record { flags = set_test_flag (sign_flag w f ans) ans; dst = ans }

unfoldable pub and : Width → EFlags → ℕ → ℕ → Answer
unfolding logic
and w f dst src = logic w f (bit_and dst src)

unfoldable pub xor : Width → EFlags → ℕ → ℕ → Answer
unfolding logic
xor w f dst src = logic w f (bit_xor dst src)

unfoldable pub or : Width → EFlags → ℕ → ℕ → Answer
unfolding logic
or w f dst src = logic w f (bit_or dst src)

-- The type of `ans` in `cmp_8`, `cmp_16` and `cmp_32`, and the macro for its sign.
abbrev pub cmp_width : Width → Width
cmp_width w8 = w16
cmp_width w = w

unfoldable pub cmp : Width → EFlags → ℕ → ℕ → Answer
unfolding sign_flag set_zf_pf
cmp w f dst src =
    let v = cmp_width w in
    let ans = (dst + 2 ^ bits v - src) % 2 ^ bits v in
    let f1 = record f { cf = ltb dst src; of = ltb dst src } in
    record { flags = set_zf_pf (sign_flag v f1 ans) ans; dst = dst }

unfoldable pub test : Width → EFlags → ℕ → ℕ → Answer
unfolding sign_flag set_test_flag
test w f dst src =
    let temp = bit_and dst src in
    record { flags = set_test_flag (sign_flag w f temp) temp; dst = dst }

pub data CalcIndex : Type 0 where
  calc_add calc_adc calc_and calc_xor calc_or calc_sub calc_sbb calc_cmp calc_test : CalcIndex

-- The tables `calc8`, `calc16` and `calc32`.
unfoldable pub calc : CalcIndex → Width → EFlags → ℕ → ℕ → Answer
calc calc_add = add
calc calc_adc = adc
calc calc_and = and
calc calc_xor = xor
calc calc_or = or
calc calc_sub = sub
calc calc_sbb = sbb
calc calc_cmp = cmp
calc calc_test = test
