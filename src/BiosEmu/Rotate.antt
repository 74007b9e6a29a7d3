-- ===== src/BiosEmu/Rotate.antt =====
-- The rotations of src/arch/x86/bios_emu/ops/alu.c undo each other.
use horizon_operating_system.Common.{
  ℕ, zero, suc, ◌+◌, ◌-◌, ◌*◌, ◌/◌, ◌%◌, ◌^◌, ◌≡◌, ◌≤◌, ◌<◌, refl, sym, ap, ◌∙◌, bit_or, ◌==◌,
  arith, Bool-cases, inl, inr,
}
use horizon_operating_system.Common.Bits.{bit_or-add, bit_or_comm}
use native.Mathlib.Nat.{
  pow-suc, div-add-mod, add-mul-mod_self_right, div-lt_iff_lt-mul, mul-le-mul_right, mod-lt,
  mod-eq_of_lt, add-mul, mul_assoc, mul_comm, one-le-pow, mul-add-div_right, div-eq_of_lt,
}
use horizon_operating_system.BiosEmu.Flags.{EFlags, Width, w8, w16, w32, bits}
use horizon_operating_system.BiosEmu.Shift.{rol, ror, rotate_count}

-- The upper part of a number, which is a multiple of `q`, and its lower part, the other way around.
abbrev turn : ℕ → ℕ → ℕ → ℕ
turn p q v = v % q * p + v / q

turn-lt : (p q v : ℕ) → 0 < q → v < p * q → turn p q v < p * q
turn-lt p q v z h =
    let r : suc (v % q) * p ≤ q * p = mul-le-mul_right p (mod-lt v z) in
    let d : v / q < p = (div-lt_iff_lt-mul z).1 h in
    omega (arith, r, d, mul_comm p q, add-mul (v % q) 1 p)

turn-turn : (p q v : ℕ) → 0 < p → 0 < q → v < p * q → turn q p (turn p q v) ≡ v
turn-turn p q v y z h =
    let d : v / q < p = (div-lt_iff_lt-mul z).1 h in
    let swap : turn p q v ≡ v / q + v % q * p = omega arith in
    let low : turn p q v % p ≡ v / q =
      ap (λ t. t % p) swap ∙ add-mul-mod_self_right (v / q) (v % q) p ∙ mod-eq_of_lt d in
    let high : turn p q v / p ≡ v % q =
      mul-add-div_right y (v % q) (v / q) ∙ omega (arith, div-eq_of_lt d) in
    rw (low, high) (omega (arith, div-add-mod v q, mul_comm q (v / q)))

-- What the upper part is shifted to falls out of the word.
shifted-turn : (p q v : ℕ) → v * p + v / q ≡ turn p q v + v / q * (p * q)
shifted-turn p q v =
    let parts : v * p ≡ q * (v / q) * p + v % q * p =
      ap (λ t. t * p) (sym (div-add-mod v q)) ∙ add-mul (q * (v / q)) (v % q) p in
    let upper : q * (v / q) * p ≡ v / q * (p * q) =
      ap (λ t. t * p) (mul_comm q (v / q))
      ∙ mul_assoc (v / q) q p
      ∙ ap (λ t. v / q * t) (mul_comm q p) in
    omega (arith, parts, upper)

-- Both parts of a rotation, put together by `|`.
join :
    (n m v : ℕ)
    → v < 2 ^ n * 2 ^ m
    → bit_or (v * 2 ^ n) (v / 2 ^ m) % (2 ^ n * 2 ^ m) ≡ turn (2 ^ n) (2 ^ m) v
join n m v h =
    let p = 2 ^ n in
    let q = 2 ^ m in
    let z : 0 < q = one-le-pow m 2 (omega arith) in
    let d : v / q < p = (div-lt_iff_lt-mul z).1 h in
    ap (λ t. t % (p * q)) (bit_or-add n v (v / q) d ∙ shifted-turn p q v)
    ∙ add-mul-mod_self_right (turn p q v) (v / q) (p * q)
    ∙ mod-eq_of_lt (turn-lt p q v z h)

pow_add : (n m : ℕ) → 2 ^ n * 2 ^ m ≡ 2 ^ (n + m)
pow_add n zero = let e : n + 0 ≡ n = omega arith in rw e (omega arith)
pow_add n (suc m) =
    ap (λ t. 2 ^ n * t) (pow-suc 2 m)
    ∙ sym (mul_assoc (2 ^ n) (2 ^ m) 2)
    ∙ ap (λ t. t * 2) (pow_add n m)
    ∙ sym (pow-suc 2 (n + m))
    ∙ ap (λ t. 2 ^ t) (omega arith)

-- The word of a rotation by `n` to the left, and to the right.
rolled :
    (b n v : ℕ)
    → n ≤ b
    → v < 2 ^ b
    → bit_or (v * 2 ^ n) (v / 2 ^ (b - n)) % 2 ^ b ≡ turn (2 ^ n) (2 ^ (b - n)) v
rolled b n v l h =
    let e : 2 ^ n * 2 ^ (b - n) ≡ 2 ^ b = pow_add n (b - n) ∙ ap (λ t. 2 ^ t) (omega arith) in
    rw (← e) (join n (b - n) v (rw e h))

rored :
    (b n v : ℕ)
    → n ≤ b
    → v < 2 ^ b
    → bit_or (v / 2 ^ n) (v * 2 ^ (b - n)) % 2 ^ b ≡ turn (2 ^ (b - n)) (2 ^ n) v
rored b n v l h =
    let e : 2 ^ (b - n) * 2 ^ n ≡ 2 ^ b = pow_add (b - n) n ∙ ap (λ t. 2 ^ t) (omega arith) in
    rw (bit_or_comm (v / 2 ^ n) (v * 2 ^ (b - n)), ← e) (join (b - n) n v (rw e h))

rored_rolled :
    (b n v : ℕ)
    → n ≤ b
    → v < 2 ^ b
    → let ans = bit_or (v * 2 ^ n) (v / 2 ^ (b - n)) % 2 ^ b in
      bit_or (ans / 2 ^ n) (ans * 2 ^ (b - n)) % 2 ^ b ≡ v
rored_rolled b n v l h =
    let e : 2 ^ n * 2 ^ (b - n) ≡ 2 ^ b = pow_add n (b - n) ∙ ap (λ t. 2 ^ t) (omega arith) in
    let p = 2 ^ n in
    let q = 2 ^ (b - n) in
    let y : 0 < p = one-le-pow n 2 (omega arith) in
    let z : 0 < q = one-le-pow (b - n) 2 (omega arith) in
    rw (rolled b n v l h) (
      rored b n (turn p q v) l (rw (← e) (turn-lt p q v z (rw e h))) ∙ turn-turn p q v y z (rw e h))

rotate_count-le : (w : Width) (count : ℕ) → rotate_count w count ≤ bits w
rotate_count-le w8 count = omega arith
rotate_count-le w16 count = omega arith
rotate_count-le w32 count = omega arith

-- ROR undoes ROL: with the same count, whatever it is, it gives the operand back, for all widths and
-- whatever the flags are.
pub ror-rol :
    (w : Width) (f g : EFlags) (value count : ℕ)
    → value < 2 ^ bits w
    → (ror w g (rol w f value count).dst count).dst ≡ value
unfolding rol ror
ror-rol w f g value count h = elim (Bool-cases (rotate_count w count == 0)) [
  | inl e ↦ rw e refl
  | inr e ↦ rw e (rored_rolled (bits w) (rotate_count w count) value (rotate_count-le w count) h)
]
