-- ===== src/Fat/LongEntry/Tests.antt =====
-- The entries of src/fs/fat/entry.c on a concrete name, and the theorems about them there.
use horizon_operating_system.Common.{
  ℕ, suc, zero, ◌≡◌, ◌≢◌, ◌≤◌, refl, List, [], ◌∷◌, ◌++◌, arith, map, take,
}
use horizon_operating_system.Fat.LongEntry.{
  read_long_name, last_long_dir, full_long_dir, fat_longname_entry_write,
}
use horizon_operating_system.Fat.LongEntry.Segments.{AreUnits, full_long_dir-read}

-- "horizon.c".
abbrev name : List ℕ
name = 0x68 ∷ 0x6f ∷ 0x72 ∷ 0x69 ∷ 0x7a ∷ 0x6f ∷ 0x6e ∷ 0x2e ∷ 0x63 ∷ []

-- It is read back as "horizon.cho".
name_garbled :
    map read_long_name (fat_longname_entry_write name 9 0) ≡ (name ++ (0x68 ∷ 0x6f ∷ [])) ∷ []
unfolding last_long_dir
name_garbled = refl

not_special : (u : ℕ) → 0x20 ≤ u → u ≤ 0x7f → (u ≢ 0) × (u ≢ 0xffff)
not_special u h l = (omega arith, omega arith)

name-AreUnits : AreUnits name
name-AreUnits = (
  not_special 0x68 (omega arith) (omega arith),
  (
    not_special 0x6f (omega arith) (omega arith),
    (
      not_special 0x72 (omega arith) (omega arith),
      (
        not_special 0x69 (omega arith) (omega arith),
        (
          not_special 0x7a (omega arith) (omega arith),
          (
            not_special 0x6f (omega arith) (omega arith),
            (
              not_special 0x6e (omega arith) (omega arith),
              (
                not_special 0x2e (omega arith) (omega arith),
                (not_special 0x63 (omega arith) (omega arith), tt),
              ),
            ),
          ),
        ),
      ),
    ),
  ),
)

-- `n` times the letter a.
abbrev many : ℕ → List ℕ
many zero = []
many (suc n) = 0x61 ∷ many n

many-AreUnits : (n : ℕ) → AreUnits (many n)
many-AreUnits zero = tt
many-AreUnits (suc n) = (not_special 0x61 (omega arith) (omega arith), many-AreUnits n)

full_long_dir-read_example : read_long_name (full_long_dir (many 20) 0x35 1) ≡ take 13 (many 20)
full_long_dir-read_example = full_long_dir-read (many 20) 0x35 1 (many-AreUnits 20) (omega arith)

-- A name of 13 units is lost.
many_lost : map read_long_name (fat_longname_entry_write (many 13) 13 0) ≡ [] ∷ []
unfolding last_long_dir
many_lost = refl
