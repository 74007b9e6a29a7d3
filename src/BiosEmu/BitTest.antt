-- ===== src/BiosEmu/BitTest.antt =====
-- The bit tests of src/arch/x86/bios_emu/ops/bt.c, on words and double words.
use horizon_operating_system.Common.{
  ℕ, zero, suc, ◌+◌, ◌-◌, ◌*◌, ◌/◌, ◌%◌, ◌^◌, ◌≡◌, ◌≢◌, ◌<◌, refl, ap, ap₂, ◌∙◌, true, false,
  bit_and, bit_or, bit_xor, arith,
}
use horizon_operating_system.Common.Bits.{
  bit_and_even, bit_and_odd, bit_and-zero, bit_or-halves, bit_and-halves, bit_and_0x0f,
  bit_and_0x1f,
}
use native.Mathlib.Nat.{pow-suc, one-le-pow, pow-le-pow_right}
use horizon_operating_system.BiosEmu.Flags.{EFlags, Width, w8, w16, w32, bits, truth}
use horizon_operating_system.BiosEmu.Alu.{Answer}

-- `1 << (*bit & 0x0f)`, and `1 << (*bit & 0x1f)` for double words.
abbrev pub mask : Width → ℕ → ℕ
mask w bit = 2 ^ bit_and bit (bits w - 1)

abbrev pub test_bit : Width → EFlags → ℕ → ℕ → EFlags
test_bit w f value bit = record f { cf = truth (bit_and value (mask w bit)) }

-- `bt_16_16` and `bt_32_32`, and so on; there are none for 8 bits.
unfoldable pub bt : Width → EFlags → ℕ → ℕ → Answer
bt w f value bit = record { flags = test_bit w f value bit; dst = value }

unfoldable pub btc : Width → EFlags → ℕ → ℕ → Answer
btc w f value bit = record { flags = test_bit w f value bit; dst = bit_xor value (mask w bit) }

unfoldable pub btr : Width → EFlags → ℕ → ℕ → Answer
btr w f value bit = record {
  flags = test_bit w f value bit;
  dst = bit_and value (2 ^ bits w - 1 - mask w bit);
}

unfoldable pub bts : Width → EFlags → ℕ → ℕ → Answer
bts w f value bit = record { flags = test_bit w f value bit; dst = bit_or value (mask w bit) }

pow-half : (k : ℕ) → 2 ^ suc k / 2 ≡ 2 ^ k
pow-half k = omega (arith, pow-suc 2 k)

pow-even : (k : ℕ) → 2 ^ suc k % 2 ≡ 0
pow-even k = omega (arith, pow-suc 2 k)

pow-lt : (k n : ℕ) → k < n → 2 ^ k < 2 ^ n
pow-lt k n h = omega (
  arith,
  pow-le-pow_right {n = 2} (omega arith) {i = suc k} {j = n} h,
  pow-suc 2 k,
  one-le-pow k 2 (omega arith),
)

-- A bit that was set by `|` is there.
or-and_pow : (k a : ℕ) → bit_and (bit_or a (2 ^ k)) (2 ^ k) ≡ 2 ^ k
or-and_pow zero a =
    let x = bit_or a 1 in omega (arith, bit_or-halves a 1, bit_and_odd x 0, bit_and-zero (x / 2))
or-and_pow (suc k) a =
    let x = bit_or a (2 ^ suc k) in
    let low = bit_or (a / 2) (2 ^ k) in
    let halves : x ≡ low * 2 + a % 2 =
      omega (arith, bit_or-halves a (2 ^ suc k), ap (bit_or (a / 2)) (pow-half k), pow-even k) in
    let half : x / 2 ≡ low = omega (arith, halves) in
    omega (
      arith,
      bit_and-halves x (2 ^ suc k),
      ap₂ bit_and half (pow-half k),
      pow-even k,
      or-and_pow k (a / 2),
      pow-suc 2 k,
    )

-- A bit that is masked out is not there.
and-and_pow : (k n a : ℕ) → k < n → bit_and (bit_and a (2 ^ n - 1 - 2 ^ k)) (2 ^ k) ≡ 0
and-and_pow k zero a l = absurd (omega arith)
and-and_pow zero (suc n) a l =
    let m : 2 ^ suc n - 1 - 2 ^ 0 ≡ 2 * (2 ^ n - 1) = omega (arith, pow-suc 2 n) in
    let x = bit_and a (2 ^ suc n - 1 - 2 ^ 0) in
    let even : x ≡ bit_and (a / 2) (2 ^ n - 1) * 2 =
      ap (bit_and a) m ∙ bit_and_even a (2 ^ n - 1) in
    omega (arith, even, bit_and_odd x 0, bit_and-zero (x / 2))
and-and_pow (suc k) (suc n) a l =
    let c = 2 ^ n - 1 - 2 ^ k in
    let fits = pow-lt k n (omega arith) in
    let m : 2 ^ suc n - 1 - 2 ^ suc k ≡ 2 * c + 1 = omega (arith, pow-suc 2 n, pow-suc 2 k, fits) in
    let x = bit_and a (2 ^ suc n - 1 - 2 ^ suc k) in
    let halves : x ≡ bit_and (a / 2) c * 2 + a % 2 = ap (bit_and a) m ∙ bit_and_odd a c in
    let half : x / 2 ≡ bit_and (a / 2) c = omega (arith, halves) in
    omega (
      arith,
      bit_and-halves x (2 ^ suc k),
      ap₂ bit_and half (pow-half k),
      pow-even k,
      and-and_pow k n (a / 2) (omega arith),
    )

-- The place of the bit lies in the operand.
place-lt : (w : Width) (bit : ℕ) → bits w ≢ 8 → bit_and bit (bits w - 1) < bits w
place-lt w8 bit n = absurd (n refl)
place-lt w16 bit n = omega (arith, bit_and_0x0f bit)
place-lt w32 bit n = omega (arith, bit_and_0x1f bit)

-- After BTS the bit is there, and after BTR it is not: BT, with the same number, sets the carry flag and
-- clears it.
pub bt-after_set :
    (w : Width) (f g : EFlags) (value bit : ℕ)
    → bits w ≢ 8
    → ((bt w g (bts w f value bit).dst bit).flags.cf ≡ true)
      × ((bt w g (btr w f value bit).dst bit).flags.cf ≡ false)
unfolding bt bts btr
bt-after_set w f g value bit n =
    let k = bit_and bit (bits w - 1) in
    (
      ap truth (or-and_pow k value) ∙ ground (arith, one-le-pow k 2 (omega arith)),
      ap truth (and-and_pow k (bits w) value (place-lt w bit n)),
    )
