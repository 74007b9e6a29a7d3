-- ===== src/Fat/Name/Tests.antt =====
-- Runs of the name checks of src/fs/fat/name.c, and the theorems about them on concrete texts.
use horizon_operating_system.Common.{ℕ, ◌+◌, ◌≡◌, ◌≢◌, ◌≤◌, refl, List, [], ◌∷◌, true, some, arith}
use horizon_operating_system.Fat.Name.{
  ShortName, is_available_short_name_char, is_available_long_name_char, check_short_name,
  short_name_new, last_dot1, caps_loop, short_chars, fill_field, fat_checksum,
}
use horizon_operating_system.Fat.Name.Check.{check_short_name-lengths, short_char-long}
use horizon_operating_system.Fat.Name.Checksum.{checksum_finds_one_byte}

-- "12.3z", and "!" behind it.
abbrev text : List ℕ
text = 0x31 ∷ 0x32 ∷ 0x2e ∷ 0x33 ∷ 0x7a ∷ 0x21 ∷ []

text_accepted : check_short_name text 5 3 ≡ true
unfolding check_short_name caps_loop short_chars is_available_short_name_char
text_accepted = refl

check_short_name-lengths_example : (3 ≤ 9) × (5 ≤ 3 + 2)
check_short_name-lengths_example = check_short_name-lengths text 5 3 text_accepted

-- "a.c" is no short name.

tilde_allowed : is_available_short_name_char 0x7e ≡ true
unfolding is_available_short_name_char
tilde_allowed = refl

short_char-long_example : is_available_long_name_char 0x7e ≡ true
short_char-long_example = short_char-long 0x7e tilde_allowed

abbrev made : ShortName
made = record {
  base = 0x31 ∷ 0x32 ∷ 0x20 ∷ 0x20 ∷ 0x20 ∷ 0x20 ∷ 0x20 ∷ 0x20 ∷ [];
  ext = 0x33 ∷ 0x5a ∷ 0x21 ∷ [];
}

made_by_new : short_name_new text 5 ≡ some made
unfolding short_name_new check_short_name caps_loop short_chars is_available_short_name_char
    last_dot1 fill_field
made_by_new = refl

abbrev other : ShortName
other = record {
  base = 0x31 ∷ 0x32 ∷ 0x20 ∷ 0x20 ∷ 0x20 ∷ 0x20 ∷ 0x20 ∷ 0x20 ∷ [];
  ext = 0x33 ∷ 0x59 ∷ 0x21 ∷ [];
}

checksum_finds_one_byte_example : fat_checksum made ≢ fat_checksum other
checksum_finds_one_byte_example =
    checksum_finds_one_byte made other
      (0x31 ∷ 0x32 ∷ 0x20 ∷ 0x20 ∷ 0x20 ∷ 0x20 ∷ 0x20 ∷ 0x20 ∷ 0x33 ∷ []) (0x21 ∷ []) 0x5a 0x59 refl
      refl (omega arith) (omega arith) (omega arith)
