-- ===== src/Fat/Utf/RoundTrip.antt =====
-- Whole names through the conversions of src/fs/fat/name.c.
use horizon_operating_system.Common.{
  ℕ, zero, suc, ◌/◌, ◌≤◌, ◌<◌, ◌^◌, ◌≡◌, ◌≢◌, refl, List, [], ◌∷◌, ◌++◌, append_assoc, arith,
  length, length-append, length-drop, dec_lt,
}
use horizon_operating_system.Fat.Utf.{
  at, fat_utf16_to_unicode, fat_utf8_to_unicode, fat_unicode_to_utf16, utf8_bytes,
  fat_utf16_count_utf8_length, fat_utf16_to_utf8, utf8_loop, fat_utf8_to_utf16,
}
use horizon_operating_system.Fat.Utf.Laws.{
  utf8_round_trip, length-utf8_bytes, utf16_round_trip, or_0xc0, or_0xe0,
}

-- `fat_utf16_count_utf8_length` counts exactly the bytes that `fat_utf16_to_utf8` then writes into
-- the buffer of that size, whatever the units are.
pub count-eq-length :
    (buf : List ℕ) (n : ℕ) → fat_utf16_count_utf8_length buf n ≡ length (fat_utf16_to_utf8 buf n)
unfolding fat_utf16_count_utf8_length fat_utf16_to_utf8
count-eq-length buf zero = refl
count-eq-length buf (suc n) =
    let u = (fat_utf16_to_unicode buf).0 in
    let rest = (fat_utf16_to_unicode buf).1 in
    omega (
      arith,
      count-eq-length rest n,
      length-utf8_bytes u,
      length-append (utf8_bytes u) (fat_utf16_to_utf8 rest n),
    )

-- A unit of the basic plane that is no low surrogate and no terminator.
abbrev pub IsPlain : ℕ → Type 0
IsPlain u = (0 < u) × (u < 0x10000) × (u / 1024 ≢ 0x37)

abbrev pub AllPlain : List ℕ → Type 0
AllPlain [] = Unit
AllPlain (u ∷ us) = IsPlain u × AllPlain us

at-utf8_bytes : (u : ℕ) (rest : List ℕ) → IsPlain u → at (utf8_bytes u ++ rest) 0 ≢ 0
unfolding utf8_bytes
at-utf8_bytes u rest h = elim (dec_lt u 0x800) [
  | yes low ↦ ground (arith, or_0xc0 (u / 2 ^ 6) (omega arith))
  | no high ↦ ground (arith, or_0xe0 (u / 2 ^ 12) (omega arith))
]

plain_units : (u : ℕ) → IsPlain u → fat_unicode_to_utf16 u ≡ u ∷ []
unfolding fat_unicode_to_utf16
plain_units u h = ground arith

read_plain : (u : ℕ) (us : List ℕ) → IsPlain u → fat_utf16_to_unicode (u ∷ us) ≡ (u, us)
read_plain u us h = let e = utf16_round_trip u us h.1 h.2 in rw (plain_units u h) at e

length-utf16_to_utf8 :
    (us : List ℕ) → AllPlain us → length us ≤ length (fat_utf16_to_utf8 us (length us))
unfolding fat_utf16_to_utf8
length-utf16_to_utf8 [] h = omega arith
length-utf16_to_utf8 (u ∷ us) h = rw (read_plain u us h.0) (
    ground (
      arith,
      length-utf8_bytes u,
      length-append (utf8_bytes u) (fat_utf16_to_utf8 us (length us)),
      length-utf16_to_utf8 us h.1,
    ))

utf8_loop-stops :
    (fuel : ℕ) (rest : List ℕ)
    → utf8_loop (suc fuel) (fat_utf16_to_utf8 [] 0 ++ (0 ∷ 0 ∷ rest)) ≡ ([], 0 ∷ 0 ∷ rest)
unfolding utf8_loop fat_utf16_to_utf8
utf8_loop-stops fuel rest = refl

-- One round of the loop on a character other than 0.
utf8_loop-reads :
    (fuel : ℕ) (p : List ℕ) (u : ℕ) (rest : List ℕ)
    → at p 0 ≢ 0
    → fat_utf8_to_unicode p ≡ (u, rest)
    → utf8_loop (suc fuel) p
      ≡ (fat_unicode_to_utf16 u ++ (utf8_loop fuel rest).0, (utf8_loop fuel rest).1)
unfolding utf8_loop
utf8_loop-reads fuel p u rest h e = rw e (ground arith)

utf16_to_utf8-plain :
    (u : ℕ) (us : List ℕ) (n : ℕ)
    → IsPlain u
    → fat_utf16_to_utf8 (u ∷ us) (suc n) ≡ utf8_bytes u ++ fat_utf16_to_utf8 us n
unfolding fat_utf16_to_utf8
utf16_to_utf8-plain u us n h = rw (read_plain u us h) refl

utf8_loop-plain :
    (us rest : List ℕ) (fuel : ℕ)
    → AllPlain us
    → length us < fuel
    → utf8_loop fuel (fat_utf16_to_utf8 us (length us) ++ (0 ∷ 0 ∷ rest)) ≡ (us, 0 ∷ 0 ∷ rest)
utf8_loop-plain us rest zero h f = absurd (omega arith)
utf8_loop-plain [] rest (suc fuel) h f = utf8_loop-stops fuel rest
utf8_loop-plain (u ∷ us) rest (suc fuel) h f =
    let tail = fat_utf16_to_utf8 us (length us) ++ (0 ∷ 0 ∷ rest) in
    rw (utf16_to_utf8-plain u us (length us) h.0, append_assoc (utf8_bytes u))
      (rw
        (utf8_loop-reads fuel (utf8_bytes u ++ tail) u tail (at-utf8_bytes u tail h.0)
          (utf8_round_trip u tail (omega arith)))
        rw (plain_units u h.0, utf8_loop-plain us rest fuel h.1 (omega arith)) refl)

-- A name of units of the basic plane, none of which is a low surrogate or 0, comes back from UTF-8
-- as it was, if two zero bytes follow its bytes.
pub name_round_trip :
    (us rest : List ℕ)
    → AllPlain us
    → fat_utf8_to_utf16 (fat_utf16_to_utf8 us (length us) ++ (0 ∷ 0 ∷ rest)) ≡ (us, 0 ∷ 0 ∷ rest)
unfolding fat_utf8_to_utf16
name_round_trip us rest h =
    let bytes = fat_utf16_to_utf8 us (length us) in
    utf8_loop-plain us rest (suc (length (bytes ++ (0 ∷ 0 ∷ rest)))) h
      (omega (arith, length-append bytes (0 ∷ 0 ∷ rest), length-utf16_to_utf8 us h))

at-nil : (i : ℕ) → at [] i ≡ 0
at-nil i = refl

-- A character takes at least a byte.
utf8_rest-shorter : (b : ℕ) (p : List ℕ) → length (fat_utf8_to_unicode (b ∷ p)).1 ≤ length p
unfolding fat_utf8_to_unicode
utf8_rest-shorter b p =
    ground (arith, length-drop 0 p, length-drop 1 p, length-drop 2 p, length-drop 3 p)

utf8_loop-ends :
    (fuel : ℕ) (p : List ℕ)
    → length p < fuel
    → (at (utf8_loop fuel p).1 0 ≡ 0) × (at (utf8_loop fuel p).1 1 ≡ 0)
unfolding utf8_loop
utf8_loop-ends zero p h = absurd (omega arith)
utf8_loop-ends (suc fuel) [] h = (refl, refl)
utf8_loop-ends (suc fuel) (b ∷ p) h =
    ground (arith, utf8_loop-ends fuel (fat_utf8_to_unicode (b ∷ p)).1, utf8_rest-shorter b p)

-- The loop of `fat_utf8_to_utf16` comes to an end on every text, and only at two zero bytes in a
-- row: a single terminator does not stop it.
pub fat_utf8_to_utf16-ends :
    (p : List ℕ) → (at (fat_utf8_to_utf16 p).1 0 ≡ 0) × (at (fat_utf8_to_utf16 p).1 1 ≡ 0)
unfolding fat_utf8_to_utf16
fat_utf8_to_utf16-ends p = utf8_loop-ends (suc (length p)) p (omega arith)
