-- ===== src/Kernel/DynArray/Tests.antt =====
-- Arrays of src/lib/dyn_array.c with blocks of two slots, and the theorems about them there.
use horizon_operating_system.Common.{ℕ, ◌*◌, ◌≡◌, refl, List, [], ◌∷◌, none, some, arith, length}
use horizon_operating_system.Kernel.DynArray.{
  DynArray, DynArrayBlock, faulted, dyn_array_new, dyn_array_append, write_last, dyn_array_get,
  dyn_array_find_block, reach_block, dyn_array_extend_block, dyn_array_foreach,
}
use horizon_operating_system.Kernel.DynArray.Append.{append_all}
use horizon_operating_system.Kernel.DynArray.Foreach.{all_slots, dyn_array_foreach-faults}

abbrev three : List ℕ
three = 5 ∷ 6 ∷ 7 ∷ []

abbrev first : DynArrayBlock ℕ
first = record { slots = some 5 ∷ some 6 ∷ []; left_space = 0 }

abbrev second : DynArrayBlock ℕ
second = record { slots = some 7 ∷ none ∷ []; left_space = 1 }

abbrev array : DynArray ℕ
array = record {
  blocks = first ∷ second ∷ [];
  size = 3;
  capacity = 18;
  block_size = 2;
  element_size = 8;
}

appends : append_all (dyn_array_new 8 2) three ≡ array
unfolding dyn_array_new dyn_array_append write_last
appends = refl

-- The capacity grows by a block's bytes, not by its slots.
extends : (dyn_array_extend_block array).capacity ≡ 34
unfolding dyn_array_extend_block
extends = refl

-- A slot for a type of 12 bytes has 16 bytes, and the second element is not where it is read.
misplaced : (dyn_array_get 12 (append_all (dyn_array_new 12 2) three) 1).1 ≡ none
unfolding dyn_array_new dyn_array_append write_last dyn_array_get dyn_array_find_block reach_block
misplaced = refl

-- Reading behind the end adds blocks, and the next element is not found where it belongs.
lost : (dyn_array_get 8 (dyn_array_append (dyn_array_get 8 array 6).0 8) 3).1 ≡ none
unfolding dyn_array_get dyn_array_find_block reach_block dyn_array_append write_last
lost = refl

dyn_array_foreach-faults_example :
    dyn_array_foreach (length array.blocks * array.block_size) array array.blocks 0
    ≡ faulted (all_slots 2 array.blocks)
dyn_array_foreach-faults_example =
    dyn_array_foreach-faults array first (second ∷ []) (omega arith) refl
