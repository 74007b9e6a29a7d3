-- ===== src/Common/Bits.antt =====
-- `&` and `|` of C on numbers: one binary digit at a time, masks of low digits, and `|` of numbers
-- that have no digit in common.
use Prim.Native.Nat.{
  ℕ, zero, suc, ◌+◌, ◌*◌, ◌/◌, ◌%◌, ◌^◌, ◌≤◌, ◌<◌, min, max, bit_and, bit_or, digits,
  bit_and-bitwise, bit_or-bitwise,
}
use mathlib.Core.Path.{◌≡◌, refl, ap}
use native.Mathlib.Omega.{arith}
use native.Mathlib.Nat.{pow-suc}

-- The count of digits to go does not matter, once it is enough.
digits-enough :
    (z : ℕ → ℕ) (f : ℕ → ℕ → ℕ) (m n a b : ℕ) → a ≤ m → a ≤ n → digits z f m a b ≡ digits z f n a b
digits-enough z f zero zero zero b p q = refl
digits-enough z f zero (suc n) zero b p q = refl
digits-enough z f (suc m) zero zero b p q = refl
digits-enough z f (suc m) (suc n) zero b p q = refl
digits-enough z f zero n (suc a) b p q = absurd (omega arith)
digits-enough z f (suc m) zero (suc a) b p q = absurd (omega arith)
digits-enough z f (suc m) (suc n) (suc a) b p q =
    omega (arith, digits-enough z f m n (suc a / 2) (b / 2) (omega arith) (omega arith))

zero-and : (b : ℕ) → bit_and 0 b ≡ 0
zero-and b = bit_and-bitwise 0 b

zero-or : (b : ℕ) → bit_or 0 b ≡ b
zero-or b = bit_or-bitwise 0 b

pub bit_and-halves : (a b : ℕ) → bit_and a b ≡ bit_and (a / 2) (b / 2) * 2 + min (a % 2) (b % 2)
bit_and-halves zero b = omega (arith, zero-and b, zero-and (b / 2))
bit_and-halves (suc a) b = omega (
  arith,
  bit_and-bitwise (suc a) b,
  bit_and-bitwise (suc a / 2) (b / 2),
  digits-enough (λ _. 0) min a (suc a / 2) (suc a / 2) (b / 2) (omega arith) (omega arith),
)

pub bit_or-halves : (a b : ℕ) → bit_or a b ≡ bit_or (a / 2) (b / 2) * 2 + max (a % 2) (b % 2)
bit_or-halves zero b = omega (arith, zero-or b, zero-or (b / 2))
bit_or-halves (suc a) b = omega (
  arith,
  bit_or-bitwise (suc a) b,
  bit_or-bitwise (suc a / 2) (b / 2),
  digits-enough (λ b. b) max a (suc a / 2) (suc a / 2) (b / 2) (omega arith) (omega arith),
)

bit_and-zero_upto : (n a : ℕ) → a ≤ n → bit_and a 0 ≡ 0
bit_and-zero_upto n zero h = zero-and 0
bit_and-zero_upto zero (suc a) h = absurd (omega arith)
bit_and-zero_upto (suc n) (suc a) h =
    omega (arith, bit_and-halves (suc a) 0, bit_and-zero_upto n (suc a / 2) (omega arith))

pub bit_and-zero : (a : ℕ) → bit_and a 0 ≡ 0
bit_and-zero a = bit_and-zero_upto a a (omega arith)

-- A mask that ends in a 1, and one that ends in a 0.
pub bit_and_odd : (a m : ℕ) → bit_and a (2 * m + 1) ≡ bit_and (a / 2) m * 2 + a % 2
bit_and_odd a m =
    let h : (2 * m + 1) / 2 ≡ m = omega arith in
    omega (arith, bit_and-halves a (2 * m + 1), ap (bit_and (a / 2)) h)

pub bit_and_even : (a m : ℕ) → bit_and a (2 * m) ≡ bit_and (a / 2) m * 2
bit_and_even a m =
    let h : (2 * m) / 2 ≡ m = omega arith in
    omega (arith, bit_and-halves a (2 * m), ap (bit_and (a / 2)) h)

pub bit_and_0x07 : (a : ℕ) → bit_and a 0x07 ≡ a % 8
bit_and_0x07 a = omega (
  arith,
  bit_and_odd a 3,
  bit_and_odd (a / 2) 1,
  bit_and_odd (a / 2 / 2) 0,
  bit_and-zero (a / 2 / 2 / 2),
)

pub bit_and_0x0f : (a : ℕ) → bit_and a 0x0f ≡ a % 16
bit_and_0x0f a = omega (arith, bit_and_odd a 7, bit_and_0x07 (a / 2))

pub bit_and_0x1f : (a : ℕ) → bit_and a 0x1f ≡ a % 32
bit_and_0x1f a = omega (arith, bit_and_odd a 15, bit_and_0x0f (a / 2))

pub bit_and_0x3f : (a : ℕ) → bit_and a 0x3f ≡ a % 64
bit_and_0x3f a = omega (arith, bit_and_odd a 31, bit_and_0x1f (a / 2))

pub bit_and_0xff : (a : ℕ) → bit_and a 0xff ≡ a % 256
bit_and_0xff a =
    omega (arith, bit_and_odd a 0x7f, bit_and_odd (a / 2) 0x3f, bit_and_0x3f (a / 2 / 2))

pub bit_and_0x3ff : (a : ℕ) → bit_and a 0x3ff ≡ a % 1024
bit_and_0x3ff a =
    omega (arith, bit_and_odd a 0x1ff, bit_and_odd (a / 2) 0xff, bit_and_0xff (a / 2 / 2))

pub bit_and_0xfc00 : (a : ℕ) → bit_and a 0xfc00 ≡ a / 1024 % 64 * 1024
bit_and_0xfc00 a = omega (
  arith,
  bit_and_even a 0x7e00,
  bit_and_even (a / 2) 0x3f00,
  bit_and_even (a / 2 / 2) 0x1f80,
  bit_and_even (a / 2 / 2 / 2) 0xfc0,
  bit_and_even (a / 2 / 2 / 2 / 2) 0x7e0,
  bit_and_even (a / 2 / 2 / 2 / 2 / 2) 0x3f0,
  bit_and_even (a / 2 / 2 / 2 / 2 / 2 / 2) 0x1f8,
  bit_and_even (a / 2 / 2 / 2 / 2 / 2 / 2 / 2) 0xfc,
  bit_and_even (a / 2 / 2 / 2 / 2 / 2 / 2 / 2 / 2) 0x7e,
  bit_and_even (a / 2 / 2 / 2 / 2 / 2 / 2 / 2 / 2 / 2) 0x3f,
  bit_and_0x3f (a / 2 / 2 / 2 / 2 / 2 / 2 / 2 / 2 / 2 / 2),
)

bit_or-zero_upto : (n a : ℕ) → a ≤ n → bit_or a 0 ≡ a
bit_or-zero_upto n zero h = zero-or 0
bit_or-zero_upto zero (suc a) h = absurd (omega arith)
bit_or-zero_upto (suc n) (suc a) h =
    omega (arith, bit_or-halves (suc a) 0, bit_or-zero_upto n (suc a / 2) (omega arith))

pub bit_or-zero : (a : ℕ) → bit_or a 0 ≡ a
bit_or-zero a = bit_or-zero_upto a a (omega arith)

-- `|` adds where the second number lies below the digits of the first.
pub bit_or-add : (k a b : ℕ) → b < 2 ^ k → bit_or (a * 2 ^ k) b ≡ a * 2 ^ k + b
bit_or-add zero a b h =
    let e : a * 2 ^ 0 ≡ a = omega arith in
    let f : b ≡ 0 = omega arith in rw (e, f) (omega (arith, bit_or-zero a))
bit_or-add (suc k) a b h =
    let p : 2 ^ suc k ≡ 2 * 2 ^ k = rw pow-suc (omega arith) in
    let half : (a * 2 ^ suc k) / 2 ≡ a * 2 ^ k = omega (arith, ap (λ t. a * t) p) in
    let even : (a * 2 ^ suc k) % 2 ≡ 0 = omega (arith, ap (λ t. a * t) p) in
    omega (
      arith,
      bit_or-halves (a * 2 ^ suc k) b,
      bit_or-add k a (b / 2) (omega arith),
      ap (λ t. bit_or t (b / 2)) half,
      ap (λ t. a * t) p,
    )

bit_or_comm_upto : (n a b : ℕ) → a ≤ n → bit_or a b ≡ bit_or b a
bit_or_comm_upto n zero b h = omega (arith, zero-or b, bit_or-zero b)
bit_or_comm_upto zero (suc a) b h = absurd (omega arith)
bit_or_comm_upto (suc n) (suc a) b h = omega (
  arith,
  bit_or-halves (suc a) b,
  bit_or-halves b (suc a),
  bit_or_comm_upto n (suc a / 2) (b / 2) (omega arith),
)

pub bit_or_comm : (a b : ℕ) → bit_or a b ≡ bit_or b a
bit_or_comm a b = bit_or_comm_upto a a b (omega arith)
