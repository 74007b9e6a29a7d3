-- ===== src/Fat/Utf/Tests.antt =====
-- Runs of the conversions of src/fs/fat/name.c, and the theorems about them on concrete texts.
use horizon_operating_system.Common.{ℕ, ◌≡◌, refl, List, [], ◌∷◌, ◌++◌, arith, length}
use horizon_operating_system.Fat.Utf.{
  fat_utf8_to_unicode, fat_unicode_to_utf16, utf8_bytes, fat_utf16_to_utf8, fat_utf8_to_utf16,
}
use horizon_operating_system.Fat.Utf.RoundTrip.{name_round_trip}

-- The bytes of U+4E2D.
zhong_bytes : utf8_bytes 0x4e2d ≡ 0xe4 ∷ 0xb8 ∷ 0xad ∷ []
unfolding utf8_bytes
zhong_bytes = refl

-- U+4E2D, U+6587, 'a'.
abbrev units : List ℕ
units = 0x4e2d ∷ 0x6587 ∷ 0x61 ∷ []

name_round_trip_example :
    fat_utf8_to_utf16 (fat_utf16_to_utf8 units (length units) ++ (0 ∷ 0 ∷ [])) ≡ (units, 0 ∷ 0 ∷ [])
name_round_trip_example = name_round_trip units [] (
    (
      (omega arith, omega arith, omega arith),
      ((omega arith, omega arith, omega arith), ((omega arith, omega arith, omega arith), tt)),
    ))

-- 'A', a terminator, and a byte behind it that is read, too.
abbrev terminated : List ℕ
terminated = 0x41 ∷ 0 ∷ 0x42 ∷ []

reads_on : (fat_utf8_to_utf16 terminated).0 ≡ terminated
unfolding fat_utf8_to_utf16 fat_unicode_to_utf16 fat_utf8_to_unicode
reads_on = refl
