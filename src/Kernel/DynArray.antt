-- ===== src/Kernel/DynArray.antt =====
-- The dynamic array of src/lib/dyn_array.c and src/include/dyn_array.h: blocks of equally many slots. A
-- slot has `element_size` bytes and is `none` until it is written. There is memory for every block.
pub mod Contents
pub mod Append
pub mod Foreach
mod Tests
use horizon_operating_system.Common.{
  ℕ, zero, suc, ◌+◌, ◌-◌, ◌*◌, ◌/◌, ◌%◌, ◌^◌, List, [], ◌∷◌, ◌++◌, Bool, true, false, not, ◌&&◌,
  Option, none, some, replicate, set, length, get_elem?, ltb, leb, ◌==◌, dec32, u32_mod,
  if◌then◌else◌,
}

pub record DynArrayBlock (A : Type 0) : Type 0 where
  pub slots : List (Option A)
  pub left_space : ℕ

-- The blocks from `first_block` to `last_block`.
pub record DynArray (A : Type 0) : Type 0 where
  pub blocks : List (DynArrayBlock A)
  pub size : ℕ
  pub capacity : ℕ
  pub block_size : ℕ
  pub element_size : ℕ

-- A block as it is made.
abbrev pub new_block : {A : Type 0} → ℕ → DynArrayBlock A
new_block block_size = record { slots = replicate block_size none; left_space = block_size }

-- `__builtin_clz`, the bits above the highest one that is set, of so many bits. C leaves its value at 0
-- open; here it is the number of the bits.
unfoldable pub leading_zeros : ℕ → ℕ → ℕ
leading_zeros zero n = 0
leading_zeros (suc k) n = let rest = leading_zeros k n in if leb (2 ^ k) n then 0 else suc rest

-- `find_next_pow_of_2` of src/lib/math.c, with `HAS_BUILTIN_CLZ` as src/include/config.h sets it.
unfoldable pub find_next_pow_of_2 : ℕ → ℕ
unfolding leading_zeros
find_next_pow_of_2 n = if n == 0 then 1 else 2 ^ (32 - leading_zeros 32 (n - 1)) % u32_mod

unfoldable pub dyn_array_new : {A : Type 0} → ℕ → ℕ → DynArray A
unfolding find_next_pow_of_2
dyn_array_new element_size block_size = record {
  blocks = new_block block_size ∷ [];
  size = 0;
  capacity = block_size;
  block_size = block_size;
  element_size = find_next_pow_of_2 element_size;
}

unfoldable pub dyn_array_extend_block : {A : Type 0} → DynArray A → DynArray A
dyn_array_extend_block arr = record arr {
  blocks = arr.blocks ++ (new_block arr.block_size ∷ []);
  capacity = arr.capacity + arr.block_size * arr.element_size;
}

-- The loop of `dyn_array_find_block` with `left` rounds to go, from the first of the blocks on: the blocks
-- with those that it adds.
unfoldable pub reach_block : {A : Type 0} → ℕ → ℕ → List (DynArrayBlock A) → List (DynArrayBlock A)
reach_block zero block_size bs = bs
reach_block (suc left) block_size [] = []
reach_block (suc left) block_size (b ∷ []) =
    b ∷ reach_block left block_size (new_block block_size ∷ [])
reach_block (suc left) block_size (b ∷ c ∷ bs) = b ∷ reach_block left block_size (c ∷ bs)

-- The array after `dyn_array_find_block`, and the block.
unfoldable pub dyn_array_find_block :
    {A : Type 0} → DynArray A → ℕ → DynArray A × Option (DynArrayBlock A)
unfolding reach_block
dyn_array_find_block arr idx =
    let bs = reach_block idx arr.block_size arr.blocks in
    (
      record arr {
        blocks = bs;
        capacity =
            arr.capacity + (length bs - length arr.blocks) * (arr.block_size * arr.element_size);
      },
      get_elem? bs idx,
    )

-- The read of a value at a byte of a block whose slots have some number of bytes: the slot that starts
-- there, or `none` where none does.
abbrev pub read_slot : {A : Type 0} → Option (DynArrayBlock A) → ℕ → ℕ → Option A
read_slot none element_size byte = none
read_slot (some block) element_size byte =
    if byte % element_size == 0
    then elim (get_elem? block.slots (byte / element_size)) [ none ↦ none | some slot ↦ slot ]
    else none

-- `dyn_array_get` for a type of `type_size` bytes, whose values the index counts: what is read, which may
-- not have been written.
unfoldable pub dyn_array_get : {A : Type 0} → ℕ → DynArray A → ℕ → DynArray A × Option A
unfolding dyn_array_find_block
dyn_array_get type_size arr idx =
    let found = dyn_array_find_block arr (idx / arr.block_size) in
    (found.0, read_slot found.1 arr.element_size (idx % arr.block_size * type_size))

abbrev pub write_slot : {A : Type 0} → ℕ → A → DynArrayBlock A → DynArrayBlock A
write_slot i v b = record { slots = set b.slots i (some v); left_space = dec32 b.left_space }

-- The last block with a slot taken and written, behind a new one where it is full. The slot starts at byte
-- `i * element_size`.
unfoldable pub write_last :
    {A : Type 0} → ℕ → ℕ → ℕ → A → List (DynArrayBlock A) → List (DynArrayBlock A)
write_last block_size size i v [] = []
write_last block_size size i v (b ∷ []) =
    if (b.left_space == 0) && not (size == 0)
    then b ∷ write_slot i v (new_block block_size) ∷ []
    else write_slot i v b ∷ []
write_last block_size size i v (b ∷ c ∷ bs) = b ∷ write_last block_size size i v (c ∷ bs)

-- `dyn_array_append`, with the `dyn_array_new_item_addr` that it calls.
unfoldable pub dyn_array_append : {A : Type 0} → DynArray A → A → DynArray A
unfolding write_last
dyn_array_append arr v =
    let bs = write_last arr.block_size arr.size (arr.size % arr.block_size) v arr.blocks in
    record arr {
      blocks = bs;
      size = arr.size + 1;
      capacity =
          arr.capacity + (length bs - length arr.blocks) * (arr.block_size * arr.element_size);
    }

-- How `dyn_array_foreach` goes on, with the block and the offset in it that each round looks at: it is
-- left, it reads through NULL, or it takes more rounds.
pub data Walk (A : Type 0) : Type 0 where
  ended : List (DynArrayBlock A × ℕ) → Walk A
  faulted : List (DynArrayBlock A × ℕ) → Walk A
  goes_on : List (DynArrayBlock A × ℕ) → Walk A

abbrev pub looks_at : {A : Type 0} → DynArrayBlock A → ℕ → Walk A → Walk A
looks_at b i (ended seen) = ended ((b, i) ∷ seen)
looks_at b i (faulted seen) = faulted ((b, i) ∷ seen)
looks_at b i (goes_on seen) = goes_on ((b, i) ∷ seen)

-- `dyn_array_is_end`; there is a block where the list is not empty.
unfoldable pub dyn_array_is_end : {A : Type 0} → DynArray A → List (DynArrayBlock A) → ℕ → Bool
dyn_array_is_end arr [] block_offset = block_offset == arr.size % arr.block_size
dyn_array_is_end arr (b ∷ bs) block_offset = false

-- The loop of `dyn_array_foreach`, from a block and an offset on; `dyn_array_next_ptr` reads the next
-- block through its pointer, NULL behind the last one.
unfoldable pub dyn_array_foreach :
    {A : Type 0} → ℕ → DynArray A → List (DynArrayBlock A) → ℕ → Walk A
unfolding dyn_array_is_end
dyn_array_foreach zero arr bs block_offset = goes_on []
dyn_array_foreach (suc rounds) arr [] block_offset =
    if dyn_array_is_end arr [] block_offset then ended [] else faulted []
dyn_array_foreach (suc rounds) arr (b ∷ []) block_offset =
    let later = dyn_array_foreach rounds arr (b ∷ []) (block_offset + 1) in
    if dyn_array_is_end arr (b ∷ []) block_offset
    then ended []
    else looks_at b block_offset
        (if ltb (block_offset + 1) arr.block_size then later else faulted [])
dyn_array_foreach (suc rounds) arr (b ∷ c ∷ bs) block_offset =
    let later = dyn_array_foreach rounds arr (b ∷ c ∷ bs) (block_offset + 1) in
    let next = dyn_array_foreach rounds arr (c ∷ bs) 0 in
    if dyn_array_is_end arr (b ∷ c ∷ bs) block_offset
    then ended []
    else looks_at b block_offset (if ltb (block_offset + 1) arr.block_size then later else next)
