-- ===== src/BiosEmu/Multiply.antt =====
-- The multiplications of src/arch/x86/bios_emu/ops/alu.c, on the registers EAX and EDX.
use horizon_operating_system.Common.{
  ℕ, ◌+◌, ◌-◌, ◌*◌, ◌/◌, ◌%◌, ◌^◌, Bool, not, ◌&&◌, ◌==◌, leb, if◌then◌else◌,
}
use horizon_operating_system.BiosEmu.Flags.{EFlags, Width, w8, bits, truth}

pub record Regs : Type 0 where
  pub eax : ℕ
  pub edx : ℕ
  pub flags : EFlags

-- The low halves of a register, written.
abbrev pub set_word : ℕ → ℕ → ℕ
set_word r x = r / 2 ^ 16 * 2 ^ 16 + x % 2 ^ 16

abbrev pub overflow_if : Bool → EFlags → EFlags
overflow_if b f = record f { of = b }

unfoldable pub mul_8 : Regs → ℕ → Regs
mul_8 r value =
    let ans = r.eax % 2 ^ 8 * value in
    record r { eax = set_word r.eax ans; flags = overflow_if (truth (ans / 2 ^ 8)) r.flags }

unfoldable pub mul_16 : Regs → ℕ → Regs
mul_16 r value =
    let ans = r.eax % 2 ^ 16 * value in
    record r {
      eax = set_word r.eax ans;
      edx = set_word r.edx (ans / 2 ^ 16);
      flags = overflow_if (truth (ans / 2 ^ 16)) r.flags;
    }

-- The product of two uint32_t has 32 bits, and the halves go to AX and DX.
unfoldable pub mul_32 : Regs → ℕ → Regs
mul_32 r value =
    let ans = r.eax * value % 2 ^ 32 in
    record r {
      eax = set_word r.eax ans;
      edx = set_word r.edx (ans / 2 ^ 32);
      flags = overflow_if (truth (ans / 2 ^ 32)) r.flags;
    }

-- A signed operand in twice its bits.
abbrev pub widen : Width → ℕ → ℕ
widen w x = if leb (2 ^ (bits w - 1)) x then x + (2 ^ (2 * bits w) - 2 ^ bits w) else x

-- The signed product in twice the bits.
abbrev pub signed_product : Width → ℕ → ℕ → ℕ
signed_product w a b = widen w a * widen w b % 2 ^ (2 * bits w)

-- `ans >> (bits - 1)` is neither 0 nor -1.
abbrev pub needs_more : Width → ℕ → Bool
needs_more w ans =
    let high = ans / 2 ^ (bits w - 1) in not (high == 0) && not (high == 2 ^ (bits w + 1) - 1)

unfoldable pub imul_8 : Regs → ℕ → Regs
imul_8 r value =
    let ans = signed_product w8 (r.eax % 2 ^ 8) value in
    record r { eax = set_word r.eax ans; flags = overflow_if (needs_more w8 ans) r.flags }

-- What `imul_16` and `imul_32` leave at `*dst_hi` and `*dst_lo`.
pub record Product : Type 0 where
  pub hi : ℕ
  pub lo : ℕ
  pub flags : EFlags

-- `imul_16` and `imul_32`.
unfoldable pub imul : Width → EFlags → ℕ → ℕ → Product
imul w f src1 src2 =
    let ans = signed_product w src1 src2 in
    record {
      hi = ans / 2 ^ bits w;
      lo = ans % 2 ^ bits w;
      flags = overflow_if (needs_more w ans) f;
    }
