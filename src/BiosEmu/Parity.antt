-- ===== src/BiosEmu/Parity.antt =====
-- The parity flag of src/arch/x86/bios_emu/ops/alu.c, beside a count of the ones of a byte.
use horizon_operating_system.Common.{
  ℕ, zero, suc, ◌+◌, ◌/◌, ◌%◌, ◌^◌, ◌≡◌, ◌<◌, refl, Bool, true, ◌&&◌, ℕ_discrete, ◌==◌, arith,
  ==_iff,
}
use horizon_operating_system.BiosEmu.Flags.{EFlags, calc_parity, set_zf_pf}
use horizon_operating_system.BiosEmu.Conditions.{condition_p_pe}

-- The ones among the low `n` bits.
abbrev pub ones : ℕ → ℕ → ℕ
ones zero x = 0
ones (suc n) x = x % 2 + ones n (x / 2)

abbrev pub all_below : ℕ → (ℕ → Bool) → Bool
all_below zero p = true
all_below (suc n) p = p n && all_below n p

all_below-holds : (n : ℕ) (p : ℕ → Bool) → all_below n p ≡ true → (i : ℕ) → i < n → p i ≡ true
all_below-holds zero p h i l = absurd (omega arith)
all_below-holds (suc n) p h i l = elim (ℕ_discrete i n) [
  | yes e ↦ rw e (ground arith)
  | no e ↦ all_below-holds n p (ground arith) i (omega arith)
]

-- `calc_parity` of a byte tells whether the number of its ones is odd.
pub calc_parity-counts : (x : ℕ) → x < 2 ^ 8 → calc_parity x ≡ ones 8 x % 2
unfolding calc_parity
calc_parity-counts x h =
    (==_iff (calc_parity x) (ones 8 x % 2)).0
      (all_below-holds 256 (λ x. calc_parity x == ones 8 x % 2) refl x h)

-- The parity flag is set exactly when the low byte of the answer has an odd number of ones; JPE, which
-- tests it, is meant for an even number.
pub parity_flag_is_odd :
    (f : EFlags) (x : ℕ) → condition_p_pe (set_zf_pf f x) ≡ (ones 8 (x % 2 ^ 8) % 2 == 1)
unfolding set_zf_pf condition_p_pe
parity_flag_is_odd f x = ground (arith, calc_parity-counts (x % 2 ^ 8))
