-- ===== src/Fat/Name.antt =====
-- The names of files in src/fs/fat/name.c and src/fs/fat/include/name.h: which texts are short or
-- long names, the making of a short name, and its checksum. A text is the list of the bytes from
-- its first one on, those behind its length included.
pub mod Check
pub mod Checksum
pub mod Short
mod Tests
use horizon_operating_system.Common.{
  ℕ, zero, suc, ◌+◌, ◌-◌, ◌*◌, ◌/◌, ◌%◌, ◌^◌, List, [], ◌∷◌, ◌++◌, Bool, true, false, ◌&&◌, ◌||◌,
  not, Option, none, some, bit_and, bit_or, drop, ltb, leb, ◌==◌, if◌then◌else◌,
}
use horizon_operating_system.Fat.Utf.{at}

abbrev pub is_between : ℕ → ℕ → ℕ → Bool
is_between lo hi c = leb lo c && leb c hi

abbrev pub is_lower : ℕ → Bool
is_lower c = is_between 0x61 0x7a c

abbrev pub is_upper : ℕ → Bool
is_upper c = is_between 0x41 0x5a c

-- The loop of `check_name_caps`: the bytes left, their number, `ret` and `flag`.
unfoldable pub caps_loop : List ℕ → ℕ → ℕ → ℕ → ℕ
caps_loop name zero ret flag = ret
caps_loop name (suc n) ret flag =
    let c = at name 0 in
    let next = drop 1 name in
    let dot = caps_loop next n ret 2 in
    let lower = caps_loop next n (bit_or ret (1 * 2 ^ flag)) flag in
    let higher = caps_loop next n (bit_or ret (2 * 2 ^ flag)) flag in
    let other = caps_loop next n ret flag in
    if c == 0x2e then dot else if is_lower c then lower else if is_upper c then higher else other

abbrev pub check_name_caps : List ℕ → ℕ → ℕ
check_name_caps name len = caps_loop name len 0 0

unfoldable pub is_available_short_name_char : ℕ → Bool
is_available_short_name_char c =
    if leb 0x80 c
    then false
    else if is_between 0x5e 0x7b c
    then true
    else if is_between 0x40 0x5a c
    then true
    else if is_between 0x30 0x39 c
    then true
    else if is_between 0x20 0x29 c && not (c == 0x22)
    then true
    else if (c == 0x2d) || ((c == 0x7d) || (c == 0x7e))
    then true
    else false

unfoldable pub is_available_long_name_char : ℕ → Bool
is_available_long_name_char c =
    if is_between 0x40 0x5d c
    then true
    else if is_between 0x5e 0x7b c
    then true
    else if is_between 0x30 0x39 c
    then true
    else if is_between 0x2b 0x2e c
    then true
    else if is_between 0x20 0x29 c && not (c == 0x22)
    then true
    else if (c == 0x3b) || ((c == 0x7d) || (c == 0x7e))
    then true
    else false

-- The last loop of `check_short_name`, from the index `i` on. The `int dot` of the source is at
-- least -1; here and below it is given as `dot1`, which is `dot + 1`.
unfoldable pub short_chars : List ℕ → ℕ → ℕ → ℕ → Bool
short_chars text zero i dot1 = true
short_chars text (suc n) i dot1 =
    let rest = short_chars text n (suc i) dot1 in
    if suc i == dot1
    then rest
    else if not (is_available_short_name_char (at text i))
    then false
    else rest

unfoldable pub check_short_name : List ℕ → ℕ → ℕ → Bool
check_short_name text len dot1 =
    if ltb 9 dot1 || ltb (dot1 + 2) len
    then false
    else let caps = check_name_caps text len in
      if not (bit_and caps 0x03 == 0) || (bit_and caps 0x0c == 0x0c)
      then false
      else short_chars text len 0 dot1

-- The three tests behind `if (text[i] >= 0x80)`. Each reads the byte that the last one moved `i` to.
unfoldable pub skip_utf8 : List ℕ → ℕ → ℕ
skip_utf8 text i =
    let i1 = if bit_and (at text i) 0xe0 == 0xc0 then i + 1 else i in
    let i2 = if bit_and (at text i1) 0xf0 == 0xe0 then i1 + 2 else i1 in
    if bit_and (at text i2) 0xf8 == 0xf0 then i2 + 3 else i2

-- The loop of `check_long_name` on fuel, from the index `i` on.
unfoldable pub long_chars : ℕ → List ℕ → ℕ → ℕ → Bool
long_chars zero text len i = true
long_chars (suc fuel) text len i =
    let c = at text i in
    let behind = long_chars fuel text len (skip_utf8 text i + 1) in
    let next = long_chars fuel text len (i + 1) in
    if not (ltb i len)
    then true
    else if c == 0
    then true
    else if leb 0x80 c
    then behind
    else if not (is_available_long_name_char c)
    then false
    else next

-- Every round moves `i` by at least 1.
abbrev pub check_long_name : List ℕ → ℕ → Bool
check_long_name text len = long_chars (suc len) text len 0

pub data FatType : Type 0 where
  fat_type_fat12 : FatType
  fat_type_fat16 : FatType
  fat_type_fat32 : FatType
  fat_type_exfat : FatType

pub data NameType : Type 0 where
  short_name : NameType
  long_name : NameType
  invalid_name_type : NameType

-- The first loop of `check_name`: how far the first dot is, or the end.
unfoldable pub first_dot : List ℕ → ℕ → ℕ
first_dot text zero = 0
first_dot text (suc n) =
    let rest = first_dot (drop 1 text) n in if at text 0 == 0x2e then 0 else suc rest

abbrev pub allows_long_name : FatType → Bool
allows_long_name fat_type_fat32 = true
allows_long_name t = false

unfoldable pub check_name : FatType → List ℕ → ℕ → NameType
check_name type text len =
    if not (check_short_name text len (first_dot text len + 1))
    then (if allows_long_name type && check_long_name text len
        then long_name
        else invalid_name_type)
    else short_name

pub record ShortName : Type 0 where
  base : List ℕ
  ext : List ℕ

-- The first loop of `short_name_new`: the last dot, plus one, among the first `n` bytes; 0 if there
-- is none.
unfoldable pub last_dot1 : List ℕ → ℕ → ℕ
last_dot1 text zero = 0
last_dot1 text (suc n) = let rest = last_dot1 text n in if at text n == 0x2e then suc n else rest

abbrev pub upper : ℕ → ℕ
upper c = if is_lower c then c - 32 else c

-- The loop that fills a field with `n` more bytes from `from + i` on, as far as `i` is below `stop`.
unfoldable pub fill_field : List ℕ → ℕ → ℕ → ℕ → ℕ → List ℕ
fill_field text zero i stop from = []
fill_field text (suc n) i stop from =
    (if ltb i stop then upper (at text (from + i)) else 0x20) ∷ fill_field text n (suc i) stop from

-- `i < dot` is `i < dot1 - 1`, and `i < len - dot` is `i < len + 1 - dot1`.
unfoldable pub short_name_new : List ℕ → ℕ → Option ShortName
short_name_new text len =
    let dot1 = last_dot1 text len in
    if not (check_short_name text len dot1)
    then none
    else some (record {
      base = fill_field text 8 0 (dot1 - 1) 0;
      ext = fill_field text 3 0 (len + 1 - dot1) dot1;
    })

-- A round of the loop of `fat_checksum` on a `uint8_t`.
unfoldable pub checksum_step : ℕ → ℕ → ℕ
checksum_step sum b = ((if bit_and sum 1 == 0 then 0 else 0x80) + sum / 2 + b) % 256

abbrev pub checksum_loop : List ℕ → ℕ → ℕ
checksum_loop [] sum = sum
checksum_loop (b ∷ bs) sum = checksum_loop bs (checksum_step sum b)

abbrev pub fat_checksum : ShortName → ℕ
fat_checksum n = checksum_loop (n.base ++ n.ext) 0
