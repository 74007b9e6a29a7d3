-- ===== src/BiosEmu/Shift.antt =====
-- Negation, rotations and shifts of src/arch/x86/bios_emu/ops/alu.c. Operands are promoted to int, which
-- has 32 bits. A shift of an int by 32 is undefined in C, and here it is `none`.
use horizon_operating_system.Common.{
  ℕ, ◌+◌, ◌-◌, ◌*◌, ◌/◌, ◌%◌, ◌^◌, Bool, ◌||◌, Option, none, some, bit_and, bit_or, bit_xor, ltb,
  leb, ◌==◌, if◌then◌else◌,
}
use horizon_operating_system.BiosEmu.Flags.{EFlags, Width, w8, bits, truth, set_zf_pf}
use horizon_operating_system.BiosEmu.Alu.{Answer, carry}

unfoldable pub neg : Width → EFlags → ℕ → Answer
neg w f value =
    let ans = (2 ^ bits w - value) % 2 ^ bits w in
    record { flags = record f { cf = ans == 0 }; dst = ans }

-- `count & 0x1f`.
abbrev pub low_count : ℕ → ℕ
low_count count = bit_and count 0x1f

-- `temp_count` of the functions that take the carry flag in, and of the shifts.
abbrev pub temp_count : Width → ℕ → ℕ
temp_count w count = low_count count % (bits w + 1)

-- `temp_count` of ROL and ROR: the functions for 32 bits have 17 too.
abbrev pub rotate_count : Width → ℕ → ℕ
rotate_count w8 count = low_count count % 9
rotate_count w count = low_count count % 17

-- The overflow flag, which is set only for a count of 1.
abbrev pub set_of : Bool → EFlags → ℕ → EFlags
set_of once f x = if once then record f { of = truth x } else f

-- The shift to the left in RCL, which for 16 and 32 bits is masked with 0xff.
abbrev pub rcl_shifted : Width → ℕ → ℕ → ℕ
rcl_shifted w8 value n = value * 2 ^ n
rcl_shifted w value n = bit_and (value * 2 ^ n) 0xff

unfoldable pub rcl : Width → EFlags → ℕ → ℕ → Option Answer
rcl w f value count =
    let n = temp_count w count in
    let new_carry = bit_and (value / 2 ^ (bits w - n)) 1 in
    let shifted = bit_or (rcl_shifted w value n) (carry f * 2 ^ (n - 1)) % 2 ^ bits w in
    let ans = bit_or shifted (value / 2 ^ (bits w - n + 1)) in
    let f1 = record f { cf = truth new_carry } in
    let f2 = set_of (low_count count == 1) f1 (bit_xor (ans / 2 ^ (bits w - 1)) new_carry) in
    if n == 0
    then some (record { flags = f; dst = value })
    else if leb 32 (bits w - n + 1)
    then none
    else some (record { flags = f2; dst = ans })

-- The overflow flag depends on the operand here, not on the count.
unfoldable pub rcr : Width → EFlags → ℕ → ℕ → Option Answer
rcr w f value count =
    let n = temp_count w count in
    let new_carry = bit_and (value / 2 ^ (n - 1)) 1 in
    let shifted = bit_or (value / 2 ^ n) (carry f * 2 ^ (bits w - n)) in
    let ans = bit_or shifted (value * 2 ^ (bits w - n + 1)) % 2 ^ bits w in
    let f1 = record f { cf = truth new_carry } in
    let f2 = set_of (bit_and value 0x1f == 1) f1 (bit_xor (ans / 2 ^ (bits w - 1)) (carry f)) in
    if n == 0
    then some (record { flags = f; dst = value })
    else if leb 32 (bits w - n + 1)
    then none
    else some (record { flags = f2; dst = ans })

-- The flags of ROL and ROR: they depend on the low bits of the answer, where the count is meant.
abbrev pub rotate_flags : EFlags → ℕ → ℕ → ℕ → EFlags
rotate_flags f ans carried overflow =
    if truth (bit_and ans 0x1f)
    then set_of (bit_and ans 0x1f == 1) (record f { cf = truth carried }) overflow
    else f

unfoldable pub rol : Width → EFlags → ℕ → ℕ → Answer
rol w f value count =
    let n = rotate_count w count in
    let ans = bit_or (value * 2 ^ n) (value / 2 ^ (bits w - n)) % 2 ^ bits w in
    let low = bit_and ans 1 in
    let f1 = rotate_flags f ans low (bit_xor (ans / 2 ^ (bits w - 1)) low) in
    if n == 0 then record { flags = f; dst = value } else record { flags = f1; dst = ans }

unfoldable pub ror : Width → EFlags → ℕ → ℕ → Answer
ror w f value count =
    let n = rotate_count w count in
    let ans = bit_or (value / 2 ^ n) (value * 2 ^ (bits w - n)) % 2 ^ bits w in
    let msb = ans / 2 ^ (bits w - 1) in
    let f1 = rotate_flags f ans msb (bit_xor msb (ans / 2 ^ (bits w - 2))) in
    if n == 0 then record { flags = f; dst = value } else record { flags = f1; dst = ans }

-- The bits of `ans` in SHL: `shl_sal_32` has a uint16_t there.
abbrev pub shl_bits : Width → ℕ
shl_bits w8 = 8
shl_bits w = 16

unfoldable pub shl_sal : Width → EFlags → ℕ → ℕ → Answer
shl_sal w f value count =
    let n = temp_count w count in
    let ans = value * 2 ^ n % 2 ^ shl_bits w in
    let carried = bit_and (value / 2 ^ (bits w - n)) 1 in
    let f1 = record f { cf = truth carried } in
    let f2 = set_of (low_count count == 1) f1 (bit_xor (ans / 2 ^ (bits w - 1)) carried) in
    if n == 0 then record { flags = f; dst = value } else record { flags = f2; dst = ans }

unfoldable pub shr : Width → EFlags → ℕ → ℕ → Answer
shr w f value count =
    let n = temp_count w count in
    let carried = bit_and (value / 2 ^ (n - 1)) 1 in
    let f1 = record f { cf = truth carried } in
    let f2 = set_of (low_count count == 1) f1 (value / 2 ^ (bits w - 1)) in
    if n == 0 then record { flags = f; dst = value } else record { flags = f2; dst = value / 2 ^ n }

-- An operand as a signed number, in 64 bits.
abbrev pub extend : Width → ℕ → ℕ
extend w value = if leb (2 ^ (bits w - 1)) value then value + (2 ^ 64 - 2 ^ bits w) else value

unfoldable pub sar : Width → EFlags → ℕ → ℕ → Answer
sar w f value count =
    let n = temp_count w count in
    let ans = extend w value / 2 ^ n % 2 ^ bits w in
    let carried = bit_and (extend w value / 2 ^ (n - 1)) 1 in
    let f1 = record f { cf = truth carried } in
    let f2 = set_of (low_count count == 1) f1 0 in
    if n == 0 then record { flags = f; dst = value } else record { flags = f2; dst = ans }

-- `shld_16_16_8` and `shld_32_32_8`; there is none for 8 bits.
unfoldable pub shld : Width → EFlags → ℕ → ℕ → ℕ → Answer
unfolding set_zf_pf
shld w f dest reg count =
    let n = count % 32 in
    let ans = bit_or (dest * 2 ^ n) (reg / 2 ^ (bits w - n)) % 2 ^ bits w in
    let carried = bit_and (reg / 2 ^ (bits w - n)) 1 in
    if (n == 0) || ltb (bits w) count
    then record { flags = f; dst = dest }
    else record { flags = set_zf_pf (record f { cf = truth carried }) ans; dst = ans }

unfoldable pub shrd : Width → EFlags → ℕ → ℕ → ℕ → Answer
unfolding set_zf_pf
shrd w f dest reg count =
    let n = count % 32 in
    let ans = bit_or (dest / 2 ^ n) (reg * 2 ^ (bits w - n)) % 2 ^ bits w in
    let carried = bit_and (reg / 2 ^ (n - 1)) 1 in
    if (n == 0) || ltb (bits w) count
    then record { flags = f; dst = dest }
    else record { flags = set_zf_pf (record f { cf = truth carried }) ans; dst = ans }
