-- ===== src/Fat/LongEntry.antt =====
-- The entries of a directory that hold a long name: how fat_longname_entry_write of
-- src/fs/fat/entry.c makes them, and how read_long_name of src/fs/fat/name.c and process_long_entry
-- of src/fs/fat/dir.c read them. A pointer into a buffer is the list of what lies from it on.
pub mod Segments
mod Tests
use horizon_operating_system.Common.{
  ℕ, zero, suc, ◌+◌, ◌-◌, ◌*◌, ◌/◌, ◌%◌, List, [], ◌∷◌, ◌++◌, Bool, true, false, ◌||◌, not, bit_and,
  bit_or, take, drop, length, ltb, ◌==◌, if◌then◌else◌,
}
use horizon_operating_system.Fat.Utf.{at}

-- `name1`, `name2` and `name3` hold 5, 6 and 2 units of the name.
pub record LongDir : Type 0 where
  order : ℕ
  name1 : List ℕ
  attr : ℕ
  type : ℕ
  checksum : ℕ
  name2 : List ℕ
  first_cluster : ℕ
  name3 : List ℕ

-- One loop of `read_long_name`.
abbrev pub read_units : List ℕ → List ℕ
read_units [] = []
read_units (u ∷ us) = if (u == 0xffff) || (u == 0) then [] else u ∷ read_units us

-- The units that are stored; their number is what the source returns.
abbrev pub read_long_name : LongDir → List ℕ
read_long_name d = read_units d.name1 ++ (read_units d.name2 ++ read_units d.name3)

-- A loop of `fat_longname_entry_write` that fills a field with `n` more units, from the index `j` on.
abbrev pub fill_units : List ℕ → ℕ → ℕ → ℕ → List ℕ
fill_units p zero j len = []
fill_units p (suc n) j len = (if ltb j len then at p j else 0xffff) ∷ fill_units p n (suc j) len

-- The round `i == 0`, which stores the end of the name. `p` points to it, `len` is `len16 % 13`.
unfoldable pub last_long_dir : List ℕ → ℕ → ℕ → ℕ → LongDir
last_long_dir p len checksum count = record {
  order = bit_or count 0x40;
  name1 = fill_units p 5 0 len;
  attr = 0x0f;
  type = 0;
  checksum = checksum;
  name2 = fill_units p 6 5 len;
  first_cluster = 0;
  name3 = fill_units p 2 0 len;
}

-- The other rounds.
unfoldable pub full_long_dir : List ℕ → ℕ → ℕ → LongDir
full_long_dir p checksum order = record {
  order = order;
  name1 = take 5 p;
  attr = 0x0f;
  type = 0;
  checksum = checksum;
  name2 = take 6 (drop 5 p);
  first_cluster = 0;
  name3 = take 2 (drop 11 p);
}

abbrev pub full_long_dirs : List ℕ → ℕ → ℕ → List LongDir
full_long_dirs name checksum zero = []
full_long_dirs name checksum (suc n) =
    full_long_dir (drop (n * 13) name) checksum (suc n) ∷ full_long_dirs name checksum n

abbrev pub long_dirs : List ℕ → ℕ → ℕ → ℕ → List LongDir
long_dirs name len16 checksum zero = []
long_dirs name len16 checksum (suc n) =
    last_long_dir (drop (n * 13) name) (len16 % 13) checksum (suc n)
    ∷ full_long_dirs name checksum n

-- The entries that `fat_longname_entry_write` writes one after another for the `len16` units of a
-- name.
abbrev pub fat_longname_entry_write : List ℕ → ℕ → ℕ → List LongDir
fat_longname_entry_write name len16 checksum = long_dirs name len16 checksum ((len16 + 12) / 13)
