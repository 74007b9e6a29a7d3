-- ===== src/Kernel/LinkedList/Walk.antt =====
-- The functions of src/include/kernel/list.h that look at a list, on enough fuel.
use horizon_operating_system.Common.{
  ℕ, zero, suc, ◌+◌, ◌<◌, ◌≡◌, ◌≢◌, List, [], ◌∷◌, length, arith, Bool, true, false, some, ◌==◌,
  if◌then◌else◌, inc32, u32_mod,
}
use horizon_operating_system.Kernel.LinkedList.{
  Memory, null, list_empty, list_find, find_loop, list_length, length_loop,
}
use horizon_operating_system.Kernel.LinkedList.Chain.{Absent, Chain, IsList}
use horizon_operating_system.Kernel.LinkedList.Delete.{prev-apart}

abbrev pub is_nil : List ℕ → Bool
is_nil [] = true
is_nil (x ∷ xs) = false

abbrev pub member : ℕ → List ℕ → Bool
member a [] = false
member a (x ∷ xs) = if x == a then true else member a xs

-- `list_empty` tells whether a list has no nodes.
pub list_empty-eq-is_nil :
    (m : Memory) (head : ℕ) (xs : List ℕ) → IsList m head xs → list_empty m head ≡ is_nil xs
unfolding list_empty
list_empty-eq-is_nil m head [] h = ground arith
list_empty-eq-is_nil m head (x ∷ xs) h =
    let linked = prev-apart m head (x ∷ xs) head null h.0 h.1.1 in
    let first_node : null ≢ x = h.1.1.1.0 in
    let head_apart : head ≢ x = h.1.0.0.0 in rw h.0.0.0 (ground arith)

length_loop-run :
    (m : Memory) (head a : ℕ) (xs : List ℕ) (fuel n : ℕ)
    → Chain m a xs head
    → Absent head xs
    → length xs < fuel
    → n + length xs < u32_mod
    → length_loop fuel m head (m.next a) n ≡ some (n + length xs)
unfolding length_loop
length_loop-run m head a xs zero n c h f l = absurd (omega arith)
length_loop-run m head a [] (suc fuel) n c h f l = rw c.0 (ground arith)
length_loop-run m head a (x ∷ xs) (suc fuel) n c h f l =
    rw c.0.0 (ground (arith, length_loop-run m head x xs fuel (inc32 n) c.1 h.1))

find_loop-run :
    (m : Memory) (node head a : ℕ) (xs : List ℕ) (fuel : ℕ)
    → Chain m a xs head
    → Absent head xs
    → length xs < fuel
    → find_loop fuel m node head (m.next a) ≡ some (member node xs)
unfolding find_loop
find_loop-run m node head a xs zero c h f = absurd (omega arith)
find_loop-run m node head a [] (suc fuel) c h f = rw c.0 (ground arith)
find_loop-run m node head a (x ∷ xs) (suc fuel) c h f =
    rw c.0.0 (ground (arith, find_loop-run m node head x xs fuel c.1 h.1))

-- The loops of `list_length` and `list_find` end after as many rounds as the list has nodes, and
-- one more; they give the number of its nodes, if it is below 2 ^ 32, and whether the node asked for
-- is one of them.
pub list_walks :
    (m : Memory) (head : ℕ) (xs : List ℕ) (node fuel : ℕ)
    → IsList m head xs
    → length xs < fuel
    → length xs < u32_mod
    → (list_length fuel m head ≡ some (length xs))
      × (list_find fuel m node head ≡ some (member node xs))
unfolding list_length list_find
list_walks m head xs node fuel h f l = (
  let e : 0 + length xs ≡ length xs = omega arith in
      let run = length_loop-run m head head xs fuel 0 h.0 h.1.0.0 f (omega arith) in rw e at run,
  find_loop-run m node head head xs fuel h.0 h.1.0.0 f,
)
