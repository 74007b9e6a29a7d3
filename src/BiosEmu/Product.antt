-- ===== src/BiosEmu/Product.antt =====
-- What the multiplications of src/arch/x86/bios_emu/ops/alu.c leave in the registers.
use horizon_operating_system.Common.{
  ℕ, suc, ◌+◌, ◌-◌, ◌*◌, ◌/◌, ◌%◌, ◌^◌, ◌≡◌, ◌≤◌, ◌<◌, ◌↔◌, refl, false, not, ◌==◌, arith,
}
use native.Mathlib.Nat.{mul-le-mul}
use horizon_operating_system.BiosEmu.Flags.{EFlags, Width, w8, w16, w32, bits}
use horizon_operating_system.BiosEmu.Multiply.{
  Regs, mul_8, mul_16, mul_32, set_word, imul, signed_product, widen, needs_more,
}

set_word-low : (r x : ℕ) → set_word r x % 2 ^ 16 ≡ x % 2 ^ 16
set_word-low r x = omega arith

product-bound : {a b m n : ℕ} → a < suc m → b < suc n → a * b ≤ m * n
product-bound h k = mul-le-mul (omega arith) (omega arith)

-- After `mul_8` AX is the product of AL and the operand, and the overflow flag tells that AH is not 0.
pub mul_8-product :
    (r : Regs) (value : ℕ)
    → value < 2 ^ 8
    → let r' = mul_8 r value in
      (r'.eax % 2 ^ 16 ≡ r.eax % 2 ^ 8 * value) × (r'.flags.of ≡ not (r'.eax % 2 ^ 16 / 2 ^ 8 == 0))
unfolding mul_8
mul_8-product r value v =
    let al = r.eax % 2 ^ 8 in
    let low : set_word r.eax (al * value) % 2 ^ 16 ≡ al * value = omega (
      arith,
      set_word-low r.eax (al * value),
      product-bound {a = al} {b = value} {m = 255} {n = 255} (omega arith) v,
    ) in
    (low, rw low refl)

-- After `mul_16` DX and AX together are the product of AX and the operand, and the overflow flag tells
-- that DX is not 0.
pub mul_16-product :
    (r : Regs) (value : ℕ)
    → value < 2 ^ 16
    → let r' = mul_16 r value in
      ((r'.edx % 2 ^ 16) * 2 ^ 16 + r'.eax % 2 ^ 16 ≡ r.eax % 2 ^ 16 * value)
      × (r'.flags.of ≡ not (r'.edx % 2 ^ 16 == 0))
unfolding mul_16
mul_16-product r value v =
    let ax = r.eax % 2 ^ 16 in
    let bound =
      product-bound {a = ax} {b = value} {m = 2 ^ 16 - 1} {n = 2 ^ 16 - 1} (omega arith) v in
    let high : set_word r.edx (ax * value / 2 ^ 16) % 2 ^ 16 ≡ ax * value / 2 ^ 16 =
      omega (arith, set_word-low r.edx (ax * value / 2 ^ 16), bound) in
    (omega (arith, high, set_word-low r.eax (ax * value)), rw high refl)

-- `mul_32` never sets the overflow flag or a bit of DX, and it leaves the upper half of EAX as it is.
pub mul_32-loses :
    (r : Regs) (value : ℕ)
    → let r' = mul_32 r value in
      (r'.flags.of ≡ false) × (r'.edx % 2 ^ 16 ≡ 0) × (r'.eax / 2 ^ 16 ≡ r.eax / 2 ^ 16)
unfolding mul_32
mul_32-loses r value = ground arith

needs_more_iff :
    (w : Width) (ans : ℕ)
    → ans < 2 ^ (2 * bits w)
    → (needs_more w ans ≡ false) ↔ (widen w (ans % 2 ^ bits w) ≡ ans)
needs_more_iff w8 ans h = ground arith
needs_more_iff w16 ans h = ground arith
needs_more_iff w32 ans h = ground arith

-- The two halves that IMUL leaves are the signed product, and the overflow flag is clear exactly when the
-- lower half alone, taken as a signed number, is the product.
pub imul-fits :
    (w : Width) (f : EFlags) (src1 src2 : ℕ)
    → let p = imul w f src1 src2 in
      (p.hi * 2 ^ bits w + p.lo ≡ signed_product w src1 src2)
      × ((p.flags.of ≡ false) ↔ (widen w p.lo ≡ signed_product w src1 src2))
unfolding imul
imul-fits w8 f src1 src2 =
    (omega arith, needs_more_iff w8 (signed_product w8 src1 src2) (omega arith))
imul-fits w16 f src1 src2 =
    (omega arith, needs_more_iff w16 (signed_product w16 src1 src2) (omega arith))
imul-fits w32 f src1 src2 =
    (omega arith, needs_more_iff w32 (signed_product w32 src1 src2) (omega arith))
