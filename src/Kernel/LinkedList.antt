-- ===== src/Kernel/LinkedList.antt =====
-- The circular doubly linked lists of src/include/kernel/list.h. A pointer to a node is a number,
-- NULL is 0, and the memory gives the two pointers of every node.
pub mod Chain
pub mod Insert
pub mod Delete
pub mod Walk
mod Tests
use horizon_operating_system.Common.{
  ℕ, zero, suc, ◌+◌, Bool, true, false, ◌&&◌, ◌||◌, not, Option, none, some, ◌==◌, if◌then◌else◌,
  inc32,
}

pub record Memory : Type 0 where
  pub next : ℕ → ℕ
  pub prev : ℕ → ℕ

abbrev pub null : ℕ
null = 0

-- The assignments `node->next = v` and `node->prev = v`.
unfoldable pub set_next : Memory → ℕ → ℕ → Memory
set_next m node v = record m { next = λ a. if a == node then v else m.next a }

unfoldable pub set_prev : Memory → ℕ → ℕ → Memory
set_prev m node v = record m { prev = λ a. if a == node then v else m.prev a }

unfoldable pub list_in_list : Memory → ℕ → Bool
list_in_list m node = not (m.next node == null) && not (m.prev node == null)

unfoldable pub list_init : Memory → ℕ → Memory
list_init m list = set_prev (set_next m list list) list list

-- `__list_add`.
unfoldable pub list_add_between : Memory → ℕ → ℕ → ℕ → Memory
list_add_between m new prev next =
    let m1 = set_prev m next new in
    let m2 = set_next m1 new next in let m3 = set_prev m2 new prev in set_next m3 prev new

unfoldable pub list_add : Memory → ℕ → ℕ → Memory
list_add m new head = list_add_between m new head (m.next head)

unfoldable pub list_add_tail : Memory → ℕ → ℕ → Memory
list_add_tail m new head = list_add_between m new (m.prev head) head

unfoldable pub list_add_before : Memory → ℕ → ℕ → Memory
list_add_before m new node =
    let m1 = set_next m (m.prev node) new in
    let m2 = set_prev m1 new (m1.prev node) in let m3 = set_next m2 new node in set_prev m3 node new

unfoldable pub list_add_after : Memory → ℕ → ℕ → Memory
list_add_after m new node =
    let m1 = set_prev m (m.next node) new in
    let m2 = set_prev m1 new node in let m3 = set_next m2 new (m2.next node) in set_next m3 node new

-- `__list_del`.
unfoldable pub list_del_between : Memory → ℕ → ℕ → Memory
list_del_between m prev next = set_next (set_prev m next prev) prev next

-- `__list_del_node`.
unfoldable pub list_del_node : Memory → ℕ → Memory
list_del_node m node = list_del_between m (m.prev node) (m.next node)

unfoldable pub list_del : Memory → ℕ → Memory
list_del m node = set_next (set_prev (list_del_node m node) node null) node null

unfoldable pub list_del_init : Memory → ℕ → Memory
list_del_init m node = list_init (list_del_node m node) node

unfoldable pub list_replace : Memory → ℕ → ℕ → Memory
list_replace m old new =
    let m1 = set_next m new (m.next old) in
    let m2 = set_prev m1 (m1.next new) new in
    let m3 = set_prev m2 new (m2.prev old) in set_next m3 (m3.prev new) new

unfoldable pub list_replace_init : Memory → ℕ → ℕ → Memory
list_replace_init m old new = list_init (list_replace m old new) old

unfoldable pub list_move : Memory → ℕ → ℕ → Memory
list_move m node head = list_add (list_del_node m node) node head

unfoldable pub list_move_tail : Memory → ℕ → ℕ → Memory
list_move_tail m node head = list_add_tail (list_del_node m node) node head

unfoldable pub list_is_first : Memory → ℕ → ℕ → Bool
list_is_first m node head = m.prev node == head

unfoldable pub list_is_last : Memory → ℕ → ℕ → Bool
list_is_last m node head = m.next node == head

unfoldable pub list_empty : Memory → ℕ → Bool
list_empty m head = (m.next head == head) || ((m.next head == null) || (m.prev head == null))

-- The loops run on fuel; `none` is a loop that the fuel does not last for.
unfoldable pub find_loop : ℕ → Memory → ℕ → ℕ → ℕ → Option Bool
find_loop zero m list head pos = none
find_loop (suc fuel) m list head pos =
    let rest = find_loop fuel m list head (m.next pos) in
    if pos == head then some false else if pos == list then some true else rest

unfoldable pub list_find : ℕ → Memory → ℕ → ℕ → Option Bool
list_find fuel m list head = find_loop fuel m list head (m.next head)

unfoldable pub length_loop : ℕ → Memory → ℕ → ℕ → ℕ → Option ℕ
length_loop zero m head pos n = none
length_loop (suc fuel) m head pos n =
    let rest = length_loop fuel m head (m.next pos) (inc32 n) in
    if pos == head then some n else rest

unfoldable pub list_length : ℕ → Memory → ℕ → Option ℕ
list_length fuel m head = length_loop fuel m head (m.next head) 0
