-- ===== src/Fat/Utf/Laws.antt =====
-- Each conversion of src/fs/fat/name.c at one code point.
use horizon_operating_system.Common.{
  ℕ, ◌+◌, ◌*◌, ◌/◌, ◌%◌, ◌^◌, ◌≤◌, ◌<◌, ◌≡◌, ◌≢◌, List, ◌++◌, bit_and, bit_or, arith, dec_lt,
  length,
}
use horizon_operating_system.Common.Bits.{
  bit_and_0x07, bit_and_0x0f, bit_and_0x1f, bit_and_0x3f, bit_and_0x3ff, bit_and_0xfc00, bit_or-add,
}
use horizon_operating_system.Fat.Utf.{
  fat_utf16_to_unicode, fat_utf8_to_unicode, fat_unicode_to_utf16, utf8_size, utf8_bytes,
}

-- The bytes of a code point, with sums in place of the bit operations.
pub or_0xc0 : (x : ℕ) → x < 32 → bit_or 0xc0 x ≡ 0xc0 + x
or_0xc0 x h = bit_or-add 5 6 x h

pub or_0xe0 : (x : ℕ) → x < 16 → bit_or 0xe0 x ≡ 0xe0 + x
or_0xe0 x h = bit_or-add 4 14 x h

or_0xf0 : (x : ℕ) → x < 8 → bit_or 0xf0 x ≡ 0xf0 + x
or_0xf0 x h = bit_or-add 3 30 x h

or_0x80 : (x : ℕ) → bit_or 0x80 (bit_and x 0x3f) ≡ 0x80 + x % 64
or_0x80 x = rw (bit_and_0x3f x) (bit_or-add 6 2 (x % 64) (omega arith))

-- The payload of a byte behind the first.
tail_payload : (x : ℕ) → bit_and (bit_or 0x80 (bit_and x 0x3f)) 0x3f ≡ x % 64
tail_payload x = omega (arith, or_0x80 x, bit_and_0x3f (bit_or 0x80 (bit_and x 0x3f)))

head_0xc0 : (x : ℕ) → x < 32 → bit_and (bit_or 0xc0 x) 0x1f ≡ x
head_0xc0 x h = omega (arith, or_0xc0 x h, bit_and_0x1f (bit_or 0xc0 x))

head_0xe0 : (x : ℕ) → x < 16 → bit_and (bit_or 0xe0 x) 0x0f ≡ x
head_0xe0 x h = omega (arith, or_0xe0 x h, bit_and_0x0f (bit_or 0xe0 x))

head_0xf0 : (x : ℕ) → x < 8 → bit_and (bit_or 0xf0 x % 256) 0x07 ≡ x
head_0xf0 x h = omega (arith, or_0xf0 x h, bit_and_0x07 (bit_or 0xf0 x % 256))

-- A number put together from its digits.
two_parts : (u : ℕ) → bit_or (u / 2 ^ 6 * 2 ^ 6) (u % 64) ≡ u
two_parts u = omega (arith, bit_or-add 6 (u / 2 ^ 6) (u % 64) (omega arith))

three_parts :
    (u : ℕ)
    → u < 2 ^ 16
    → bit_or (bit_or (u / 2 ^ 12 * 2 ^ 12) (u / 2 ^ 6 % 64 * 2 ^ 6)) (u % 64) ≡ u
three_parts u h =
    let e : bit_or (u / 2 ^ 12 * 2 ^ 12) (u / 2 ^ 6 % 64 * 2 ^ 6) ≡ u / 2 ^ 6 * 2 ^ 6 =
      omega (arith, bit_or-add 12 (u / 2 ^ 12) (u / 2 ^ 6 % 64 * 2 ^ 6) (omega arith)) in
    rw e (two_parts u)

four_parts :
    (u : ℕ)
    → u < 2 ^ 21
    → bit_or
        (bit_or (bit_or (u / 2 ^ 18 * 2 ^ 18) (u / 2 ^ 12 % 64 * 2 ^ 12)) (u / 2 ^ 6 % 64 * 2 ^ 6))
        (u % 64)
      ≡ u
four_parts u h =
    let e : bit_or (u / 2 ^ 18 * 2 ^ 18) (u / 2 ^ 12 % 64 * 2 ^ 12) ≡ u / 2 ^ 12 * 2 ^ 12 =
      omega (arith, bit_or-add 18 (u / 2 ^ 18) (u / 2 ^ 12 % 64 * 2 ^ 12) (omega arith)) in
    let f : bit_or (u / 2 ^ 12 * 2 ^ 12) (u / 2 ^ 6 % 64 * 2 ^ 6) ≡ u / 2 ^ 6 * 2 ^ 6 =
      omega (arith, bit_or-add 12 (u / 2 ^ 12) (u / 2 ^ 6 % 64 * 2 ^ 6) (omega arith)) in
    rw (e, f) (two_parts u)

-- Reading back the bytes of a code point below 2 ^ 21 gives the code point, and leaves what follows.
pub utf8_round_trip :
    (u : ℕ) (rest : List ℕ) → u < 2 ^ 21 → fat_utf8_to_unicode (utf8_bytes u ++ rest) ≡ (u, rest)
unfolding fat_utf8_to_unicode utf8_bytes
utf8_round_trip u rest h = elim (dec_lt u 0x80) [
  | yes one ↦ ground arith
  | no more ↦ elim (dec_lt u 0x800) [
    | yes two ↦ ground (
      arith,
      or_0xc0 (u / 2 ^ 6) (omega arith),
      head_0xc0 (u / 2 ^ 6) (omega arith),
      tail_payload u,
      two_parts u,
    )
    | no more ↦ elim (dec_lt u 0x10000) [
      | yes three ↦ ground (
        arith,
        or_0xe0 (u / 2 ^ 12) (omega arith),
        head_0xe0 (u / 2 ^ 12) (omega arith),
        tail_payload (u / 2 ^ 6),
        tail_payload u,
        three_parts u three,
      )
      | no four ↦ ground (
        arith,
        or_0xf0 (u / 2 ^ 18) (omega arith),
        head_0xf0 (u / 2 ^ 18) (omega arith),
        tail_payload (u / 2 ^ 12),
        tail_payload (u / 2 ^ 6),
        tail_payload u,
        four_parts u h,
      )
    ]
  ]
]

-- As many bytes are written for a code point as are counted for it.
pub length-utf8_bytes : (u : ℕ) → length (utf8_bytes u) ≡ utf8_size u
unfolding utf8_bytes
length-utf8_bytes u = ground arith

-- A unit that is no low surrogate is read back as it is.
pub utf16_round_trip :
    (u : ℕ) (rest : List ℕ)
    → u < 0x10000
    → u / 1024 ≢ 0x37
    → fat_utf16_to_unicode (fat_unicode_to_utf16 u ++ rest) ≡ (u, rest)
unfolding fat_utf16_to_unicode fat_unicode_to_utf16
utf16_round_trip u rest h ne = ground (arith, bit_and_0xfc00 u)

-- No code point from 0x10000 on is read back from the units that are written for it.
pub utf16_pair_lost :
    (u : ℕ) (rest : List ℕ)
    → 0x10000 ≤ u
    → (fat_utf16_to_unicode (fat_unicode_to_utf16 u ++ rest)).0 ≢ u
unfolding fat_utf16_to_unicode fat_unicode_to_utf16
utf16_pair_lost u rest h =
    let x = bit_and (u / 2 ^ 10) 0x03ff in
    let small : x ≡ u / 2 ^ 10 % 1024 = bit_and_0x3ff (u / 2 ^ 10) in
    let unit : bit_or 0xd800 x ≡ 0xd800 + x = bit_or-add 10 54 x (omega arith) in
    ground (arith, small, unit, bit_and_0xfc00 (bit_or 0xd800 x))
