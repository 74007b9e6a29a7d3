-- ===== src/Kernel/LinkedList/Tests.antt =====
-- Runs of the functions of src/include/kernel/list.h, and the theorems about them on a concrete list.
use horizon_operating_system.Common.{◌≡◌, refl, [], ◌∷◌, arith, false, some}
use horizon_operating_system.Kernel.LinkedList.{
  Memory, null, set_next, set_prev, list_in_list, list_init, list_add_between, list_add,
  list_add_tail, list_del, list_length, length_loop,
}
use horizon_operating_system.Kernel.LinkedList.Chain.{IsList}
use horizon_operating_system.Kernel.LinkedList.Insert.{list_init-IsList, list_add-IsList}
use horizon_operating_system.Kernel.LinkedList.Delete.{list_del-IsList}

abbrev zeroed : Memory
zeroed = record { next = λ a. null; prev = λ a. null }

-- A head at 1, with the nodes 2, 3 and 4.
abbrev empty : Memory
empty = list_init zeroed 1

abbrev one : Memory
one = list_add empty 3 1

abbrev two : Memory
two = list_add one 2 1

abbrev three : Memory
three = list_add_tail two 4 1

list_init-IsList_example : IsList empty 1 []
list_init-IsList_example = list_init-IsList zeroed 1 (omega arith)

one-IsList : IsList one 1 (3 ∷ [])
one-IsList =
    list_add-IsList empty 1 [] 3 (list_init-IsList zeroed 1 (omega arith)) (omega arith, tt)
      (omega arith)

two-IsList : IsList two 1 (2 ∷ 3 ∷ [])
two-IsList =
    list_add-IsList one 1 (3 ∷ []) 2 one-IsList (omega arith, (omega arith, tt)) (omega arith)

list_del-IsList_example :
    IsList (list_del two 3) 1 (2 ∷ []) × (list_in_list (list_del two 3) 3 ≡ false)
list_del-IsList_example = list_del-IsList two 1 (2 ∷ []) 3 [] two-IsList

-- The same by a run.
two_length : list_length 3 two 1 ≡ some 2
unfolding list_init list_add list_add_between set_next set_prev list_length length_loop
two_length = refl
