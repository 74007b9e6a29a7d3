-- ===== src/Fat/Utf.antt =====
-- The conversions between UTF-16 and UTF-8 of src/fs/fat/name.c. A pointer into a buffer is the
-- list of what lies from it on; beyond the end of the list it reads 0.
pub mod Laws
pub mod RoundTrip
mod Tests
use horizon_operating_system.Common.{
  ℕ, zero, suc, ◌+◌, ◌*◌, ◌/◌, ◌%◌, ◌^◌, List, [], ◌∷◌, ◌++◌, Bool, ◌&&◌, ◌||◌, not, bit_and,
  bit_or, get_or, drop, length, ltb, ◌==◌, if◌then◌else◌,
}

abbrev pub at : List ℕ → ℕ → ℕ
at buf i = get_or buf i 0

-- The code point that is read, and what lies behind it.
unfoldable pub fat_utf16_to_unicode : List ℕ → ℕ × List ℕ
fat_utf16_to_unicode buf =
    if (bit_and (at buf 0) 0xfc00 == 0xdc00) && (bit_and (at buf 1) 0xfc00 == 0xd800)
    then (bit_or (bit_and (at buf 1) 0x03ff * 2 ^ 16) (bit_and (at buf 0) 0x03ff), drop 2 buf)
    else (at buf 0, drop 1 buf)

unfoldable pub fat_utf8_to_unicode : List ℕ → ℕ × List ℕ
fat_utf8_to_unicode buf =
    if ltb (at buf 0) 0x80
    then (at buf 0, drop 1 buf)
    else if ltb (at buf 0) 0xe0
    then (bit_or (bit_and (at buf 0) 0x1f * 2 ^ 6) (bit_and (at buf 1) 0x3f), drop 2 buf)
    else if ltb (at buf 0) 0xf0
    then (
      bit_or (bit_or (bit_and (at buf 0) 0x0f * 2 ^ 12) (bit_and (at buf 1) 0x3f * 2 ^ 6))
          (bit_and (at buf 2) 0x3f),
      drop 3 buf,
    )
    else (
      bit_or
          (bit_or (bit_or (bit_and (at buf 0) 0x07 * 2 ^ 18) (bit_and (at buf 1) 0x3f * 2 ^ 12))
            (bit_and (at buf 2) 0x3f * 2 ^ 6))
          (bit_and (at buf 3) 0x3f),
      drop 4 buf,
    )

-- The units that are written.
unfoldable pub fat_unicode_to_utf16 : ℕ → List ℕ
fat_unicode_to_utf16 unicode =
    if ltb unicode 0x10000
    then unicode ∷ []
    else bit_or 0xd800 (bit_and (unicode / 2 ^ 10) 0x03ff)
      ∷ bit_or 0xdc00 (bit_and unicode 0x03ff)
      ∷ []

-- How many bytes `fat_utf16_count_utf8_length` adds for a code point.
abbrev pub utf8_size : ℕ → ℕ
utf8_size unicode =
    if ltb unicode 0x80
    then 1
    else if ltb unicode 0x800
    then 2
    else if ltb unicode 0x10000
    then 3
    else 4

-- The bytes that `fat_utf16_to_utf8` writes for a code point.
unfoldable pub utf8_bytes : ℕ → List ℕ
utf8_bytes unicode =
    if ltb unicode 0x80
    then unicode ∷ []
    else if ltb unicode 0x800
    then bit_or 0xc0 (unicode / 2 ^ 6) ∷ bit_or 0x80 (bit_and unicode 0x3f) ∷ []
    else if ltb unicode 0x10000
    then bit_or 0xe0 (unicode / 2 ^ 12)
      ∷ bit_or 0x80 (bit_and (unicode / 2 ^ 6) 0x3f)
      ∷ bit_or 0x80 (bit_and unicode 0x3f)
      ∷ []
    else bit_or 0xf0 (unicode / 2 ^ 18) % 256
      ∷ bit_or 0x80 (bit_and (unicode / 2 ^ 12) 0x3f)
      ∷ bit_or 0x80 (bit_and (unicode / 2 ^ 6) 0x3f)
      ∷ bit_or 0x80 (bit_and unicode 0x3f)
      ∷ []

-- The loops run `utf16_length` times, whatever a code point takes up.
unfoldable pub fat_utf16_count_utf8_length : List ℕ → ℕ → ℕ
fat_utf16_count_utf8_length buf zero = 0
fat_utf16_count_utf8_length buf (suc n) =
    let (unicode, rest) = fat_utf16_to_unicode buf in
    utf8_size unicode + fat_utf16_count_utf8_length rest n

unfoldable pub fat_utf16_to_utf8 : List ℕ → ℕ → List ℕ
fat_utf16_to_utf8 buf zero = []
fat_utf16_to_utf8 buf (suc n) =
    let (unicode, rest) = fat_utf16_to_unicode buf in utf8_bytes unicode ++ fat_utf16_to_utf8 rest n

-- The loop of `fat_utf8_to_utf16` on fuel: the units written, and the bytes that are left.
unfoldable pub utf8_loop : ℕ → List ℕ → List ℕ × List ℕ
utf8_loop zero p = ([], p)
utf8_loop (suc fuel) p =
    let (unicode, rest) = fat_utf8_to_unicode p in
    let more = utf8_loop fuel rest in
    if not (at p 0 == 0) || not (at p 1 == 0)
    then (fat_unicode_to_utf16 unicode ++ more.0, more.1)
    else ([], p)

-- Every round takes a byte, and behind the list there are zeros only.
unfoldable pub fat_utf8_to_utf16 : List ℕ → List ℕ × List ℕ
unfolding utf8_loop
fat_utf8_to_utf16 utf8 = utf8_loop (suc (length utf8)) utf8
