-- ===== src/Fat/Name/Checksum.antt =====
-- What `fat_checksum` of src/fs/fat/name.c tells apart.
use horizon_operating_system.Common.{
  ℕ, ◌+◌, ◌*◌, ◌/◌, ◌%◌, ◌≡◌, ◌≢◌, ◌<◌, List, [], ◌∷◌, ◌++◌, arith, bit_and,
}
use horizon_operating_system.Common.Bits.{bit_and_odd, bit_and-zero}
use horizon_operating_system.Fat.Name.{ShortName, checksum_step, checksum_loop, fat_checksum}

bit_and_0x01 : (a : ℕ) → bit_and a 1 ≡ a % 2
bit_and_0x01 a = omega (arith, bit_and_odd a 0, bit_and-zero (a / 2))

-- A round turns the sum right by a bit and adds the byte.
step_eq : (s b : ℕ) → checksum_step s b ≡ (s % 2 * 0x80 + s / 2 + b) % 256
unfolding checksum_step
step_eq s b = ground (arith, bit_and_0x01 s)

step_lt : (s b : ℕ) → checksum_step s b < 256
unfolding checksum_step
step_lt s b = omega arith

step_byte : (s a b : ℕ) → a < 256 → b < 256 → checksum_step s a ≡ checksum_step s b → a ≡ b
step_byte s a b ha hb e = omega (arith, e, step_eq s a, step_eq s b)

step_sum : (s t b : ℕ) → s < 256 → t < 256 → checksum_step s b ≡ checksum_step t b → s ≡ t
step_sum s t b hs ht e = omega (arith, e, step_eq s b, step_eq t b)

loop_sum :
    (bs : List ℕ) (s t : ℕ) → s < 256 → t < 256 → checksum_loop bs s ≡ checksum_loop bs t → s ≡ t
loop_sum [] s t hs ht e = e
loop_sum (b ∷ bs) s t hs ht e =
    step_sum s t b hs ht
      (loop_sum bs (checksum_step s b) (checksum_step t b) (step_lt s b) (step_lt t b) e)

loop_byte :
    (before after : List ℕ) (a b s : ℕ)
    → a < 256
    → b < 256
    → checksum_loop (before ++ (a ∷ after)) s ≡ checksum_loop (before ++ (b ∷ after)) s
    → a ≡ b
loop_byte [] after a b s ha hb e =
    step_byte s a b ha hb
      (loop_sum after (checksum_step s a) (checksum_step s b) (step_lt s a) (step_lt s b) e)
loop_byte (c ∷ before) after a b s ha hb e = loop_byte before after a b (checksum_step s c) ha hb e

-- Two short names that differ in one byte only, be it of the base or of the extension, have
-- different checksums.
pub checksum_finds_one_byte :
    (m n : ShortName) (before after : List ℕ) (a b : ℕ)
    → m.base ++ m.ext ≡ before ++ (a ∷ after)
    → n.base ++ n.ext ≡ before ++ (b ∷ after)
    → a < 256
    → b < 256
    → a ≢ b
    → fat_checksum m ≢ fat_checksum n
checksum_finds_one_byte m n before after a b p q ha hb ne e =
    ne (loop_byte before after a b 0 ha hb (rw (p, q) at e))
