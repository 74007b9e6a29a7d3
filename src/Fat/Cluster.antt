-- ===== src/Fat/Cluster.antt =====
-- The entries of the file allocation table, src/fs/fat/cluster.c. The table is the list of its sectors as
-- the block cache serves them, and a sector is the list of its 16-bit words. `none` is an access that the
-- code does not test for: behind the end of a sector, or to a sector behind the table. The cache always has
-- an entry that is not locked, and no sector leaves it during a call.
pub mod Table
pub mod Alloc
mod Tests
use horizon_operating_system.Common.{
  ℕ, zero, suc, ◌+◌, ◌-◌, ◌*◌, ◌/◌, ◌%◌, ◌^◌, List, Bool, true, false, ◌&&◌, not, Option, none,
  some, get_elem?, set, length, ltb, leb, ◌==◌, u32_mod, if◌then◌else◌,
}
use horizon_operating_system.Fat.Name.{
  FatType, fat_type_fat12, fat_type_fat16, fat_type_fat32, fat_type_exfat,
}

-- The types whose entries the functions read and write.
abbrev pub has_entries : FatType → Bool
has_entries fat_type_fat16 = true
has_entries fat_type_fat32 = true
has_entries t = false

-- The fields of `FatInfo` that the functions here use, with the table. `left_over` is what the buffer holds
-- that the cache hands out for writing a sector which is not in it, since it does not read the sector then;
-- `none` is a sector in the cache.
pub record FatInfo : Type 0 where
  pub fat_type : FatType
  pub num_count : ℕ
  pub fat_sectors : ℕ
  pub last_cluster : ℕ
  pub table : List (List ℕ)
  pub left_over : ℕ → Option (List ℕ)

-- `((uint32_t *)data)[i]`.
abbrev pub load32 : List ℕ → ℕ → Option ℕ
load32 words i = elim (get_elem? words (2 * i)) [
  | none ↦ none
  | some low ↦ elim (get_elem? words (2 * i + 1)) [
    | none ↦ none
    | some high ↦ some (high * 2 ^ 16 + low)
  ]
]

abbrev pub store16 : List ℕ → ℕ → ℕ → Option (List ℕ)
store16 words i v = if ltb i (length words) then some (set words i (v % 2 ^ 16)) else none

abbrev pub store32 : List ℕ → ℕ → ℕ → Option (List ℕ)
store32 words i v = elim (store16 words (2 * i) v) [
  | none ↦ none
  | some words' ↦ store16 words' (2 * i + 1) (v / 2 ^ 16)
]

-- The reading and the writing of an entry, by the type.
abbrev pub load : FatType → List ℕ → ℕ → Option ℕ
load fat_type_fat32 words i = load32 words i
load fat_type_fat16 words i = get_elem? words i
load t words i = some 0xffffffff

abbrev pub store : FatType → List ℕ → ℕ → ℕ → Option (List ℕ)
store fat_type_fat32 words i v = store32 words i v
store fat_type_fat16 words i v = store16 words i v
store t words i v = some words

-- What the buffer holds that `block_cache_write` gives for a sector with these words.
abbrev pub written_on : FatInfo → ℕ → List ℕ → List ℕ
written_on fat index words = elim (fat.left_over index) [ none ↦ words | some old ↦ old ]

-- The sectors from one on and before another are in the cache.
abbrev pub in_cache : FatInfo → ℕ → ℕ → FatInfo
in_cache fat first behind = record fat {
  left_over = λ i. if leb first i && ltb i behind then none else fat.left_over i;
}

unfoldable pub get_next_cluster : FatInfo → ℕ → Option ℕ
get_next_cluster fat cluster = elim (get_elem? fat.table (cluster / fat.num_count)) [
  | none ↦ none
  | some words ↦ load fat.fat_type words (cluster % fat.num_count)
]

unfoldable pub set_cluster : FatInfo → ℕ → ℕ → Option FatInfo
set_cluster fat cluster v =
    let index = cluster / fat.num_count in
    elim (get_elem? fat.table index) [
      | none ↦ none
      | some words ↦
          elim (store fat.fat_type (written_on fat index words) (cluster % fat.num_count) v) [
            | none ↦ none
            | some words' ↦
                some
                  (record (in_cache fat index (index + 1)) { table = set fat.table index words' })
          ]
    ]

-- The loop over a sector, from `i` on with `left` entries to go: whether one is free, and `i` after it.
unfoldable pub scan_sector : ℕ → List ℕ → ℕ → Option (Bool × ℕ)
scan_sector zero words i = some (false, i)
scan_sector (suc left) words i =
    let rest = scan_sector left words (i + 1) in
    elim (load32 words i) [ none ↦ none | some entry ↦ if entry == 0 then some (true, i) else rest ]

-- What the loop over the sectors leaves: `finded`, `index` and `i`.
pub record Scan : Type 0 where
  pub finded : Bool
  pub index : ℕ
  pub i : ℕ

-- The loop over the sectors, with `left` of them to go. `i` has no value before the first round.
unfoldable pub scan_table : ℕ → FatInfo → ℕ → ℕ → Option ℕ → Option Scan
unfolding scan_sector
scan_table zero fat index offset none = none
scan_table zero fat index offset (some i) = some (record { finded = false; index = index; i = i })
scan_table (suc left) fat index offset before = elim (get_elem? fat.table index) [
  | none ↦ none
  | some words ↦ elim (scan_sector (fat.num_count - offset) words offset) [
    | none ↦ none
    | some (true, i) ↦ some (record { finded = true; index = index + 1; i = i })
    | some (false, i) ↦ scan_table left fat (index + 1) 0 (some i)
  ]
]

-- What `alloc_cluster` leaves, and `*out_cluster` if there is a free cluster.
pub record Allocated : Type 0 where
  pub fat : FatInfo
  pub out_cluster : Option ℕ

unfoldable pub take_cluster : FatInfo → Scan → ℕ → Bool → Option Allocated
unfolding set_cluster
take_cluster fat s last_cluster is_first_cluster =
    let out = (s.index * fat.num_count + s.i) % u32_mod in
    let fat1 = record fat { last_cluster = out } in
    if not s.finded
    then some (record { fat = fat1; out_cluster = none })
    else elim (set_cluster fat1 out 0x0fffffff) [
      | none ↦ none
      | some fat2 ↦
          elim (if is_first_cluster then some fat2 else set_cluster fat2 last_cluster out) [
            | none ↦ none
            | some fat3 ↦ some (record { fat = fat3; out_cluster = some out })
          ]
    ]

unfoldable pub alloc_cluster : FatInfo → ℕ → Bool → Option Allocated
unfolding scan_table take_cluster
alloc_cluster fat last_cluster is_first_cluster =
    let index = fat.last_cluster / fat.num_count in
    elim (scan_table (fat.fat_sectors - index) fat index (fat.last_cluster % fat.num_count) none) [
      | none ↦ none
      | some s ↦ take_cluster (in_cache fat index s.index) s last_cluster is_first_cluster
    ]

-- The entry that `free_cluster` hands out; nothing is written for other types.
abbrev pub read_out : FatInfo → ℕ → Option (Option ℕ)
read_out fat cluster = elim (get_elem? fat.table (cluster / fat.num_count)) [
  | none ↦ none
  | some words ↦ elim (load fat.fat_type words (cluster % fat.num_count)) [
    | none ↦ none
    | some entry ↦ some (if has_entries fat.fat_type then some entry else none)
  ]
]

-- What `free_cluster` leaves, and `*out_cluster` if it is asked for.
unfoldable pub free_cluster : FatInfo → ℕ → Bool → Option (FatInfo × Option ℕ)
unfolding set_cluster
free_cluster fat cluster asked = elim (if asked then read_out fat cluster else some none) [
  | none ↦ none
  | some out ↦
      let index = cluster / fat.num_count in
      elim (set_cluster (if asked then in_cache fat index (index + 1) else fat) cluster 0) [
        | none ↦ none
        | some fat' ↦ some (fat', out)
      ]
]

unfoldable pub is_eof : FatType → ℕ → Bool
is_eof fat_type_fat32 cluster = leb 0x0ffffff8 cluster
is_eof fat_type_fat16 cluster = leb 0xfff8 cluster
is_eof fat_type_fat12 cluster = leb 0x0ff8 cluster
is_eof fat_type_exfat cluster = false
