-- ===== src/Kernel/LinkedList/Delete.antt =====
-- The functions of src/include/kernel/list.h that take a node out of a list, and those that move it.
use horizon_operating_system.Common.{
  ℕ, ◌≡◌, ◌≢◌, refl, sym, List, [], ◌∷◌, ◌++◌, append-nil, arith, false,
}
use horizon_operating_system.Kernel.LinkedList.{
  Memory, null, set_next, set_prev, list_in_list, list_del_between, list_del_node, list_del,
  list_move, list_move_tail,
}
use horizon_operating_system.Kernel.LinkedList.Chain.{
  Absent, Distinct, Chain, IsList, set_next-Chain, set_prev-Chain, Chain-append, Chain-split,
  Absent-split, Absent-without, Distinct-without, Distinct-node,
}
use horizon_operating_system.Kernel.LinkedList.Insert.{list_add-IsList, list_add_tail-IsList}

-- No node of the first list is in the second one.
abbrev Disjoint : List ℕ → List ℕ → Type 0
Disjoint [] zs = Unit
Disjoint (x ∷ xs) zs = Absent x zs × Disjoint xs zs

Distinct-Disjoint : (xs : List ℕ) (n : ℕ) (ys : List ℕ) → Distinct (xs ++ (n ∷ ys)) → Disjoint xs ys
Distinct-Disjoint [] n ys h = tt
Distinct-Disjoint (x ∷ xs) n ys h =
    ((Absent-split x xs (n ∷ ys) h.0).1.1, Distinct-Disjoint xs n ys h.1)

Distinct-first : (xs ys : List ℕ) → Distinct (xs ++ ys) → Distinct xs
Distinct-first [] ys h = tt
Distinct-first (x ∷ xs) ys h = ((Absent-split x xs ys h.0).0, Distinct-first xs ys h.1)

Distinct-last : (xs : List ℕ) (n : ℕ) (ys : List ℕ) → Distinct (xs ++ (n ∷ ys)) → Distinct (n ∷ ys)
Distinct-last [] n ys h = h
Distinct-last (x ∷ xs) n ys h = Distinct-last xs n ys h.1

Disjoint-Absent : (xs : List ℕ) (y : ℕ) (zs : List ℕ) → Disjoint xs (y ∷ zs) → Absent y xs
Disjoint-Absent [] y zs h = tt
Disjoint-Absent (x ∷ xs) y zs h = (λ e. h.0.0 (sym e), Disjoint-Absent xs y zs h.1)

-- The node before `n` is one of those before it.
prev-Absent :
    (m : Memory) (a : ℕ) (xs : List ℕ) (n : ℕ) (zs : List ℕ)
    → Chain m a xs n
    → Absent a zs
    → Disjoint xs zs
    → Absent (m.prev n) zs
prev-Absent m a [] n zs c h d = rw c.1 h
prev-Absent m a (x ∷ xs) n zs c h d = prev-Absent m x xs n zs c.1 d.0 d.1

pub prev-apart :
    (m : Memory) (x : ℕ) (xs : List ℕ) (n a : ℕ) → Chain m x xs n → Absent a (x ∷ xs) → a ≢ m.prev n
prev-apart m x [] n a c h = rw c.1 h.0
prev-apart m x (y ∷ xs) n a c h = prev-apart m y xs n a c.1 h.1

-- The nodes before `n` are linked to `q`, then.
relink-before :
    (m : Memory) (a : ℕ) (xs : List ℕ) (n q : ℕ)
    → Chain m a xs n
    → (Absent a xs × Distinct xs)
    → Absent q xs
    → Chain (list_del_between m (m.prev n) q) a xs q
unfolding list_del_between set_next set_prev
relink-before m a [] n q c d h = (ground (arith, c.1), ground (arith, c.1))
relink-before m a (x ∷ xs) n q c d h =
    let p_apart = prev-apart m x xs n a c.1 d.0 in
    ((ground arith, ground arith), relink-before m x xs n q c.1 d.1 h.1)

-- The nodes behind it stay linked.
relink-behind :
    (m : Memory) (p y : ℕ) (ys : List ℕ) (b : ℕ)
    → Chain m y ys b
    → Absent p (y ∷ ys)
    → (Absent y ys × (y ≢ b))
    → Chain (list_del_between m p y) y ys b
unfolding list_del_between
relink-behind m p y ys b c hp hy =
    set_next-Chain (set_prev m y p) y ys b p y (set_prev-Chain m y ys b y p c hy.0 hy.1) hp

list_del_node-at :
    (m : Memory) (n q : ℕ) → m.next n ≡ q → list_del_node m n ≡ list_del_between m (m.prev n) q
unfolding list_del_node
list_del_node-at m n q e = rw e refl

list_del_node-Chain :
    (m : Memory) (head : ℕ) (xs : List ℕ) (n : ℕ) (ys : List ℕ)
    → IsList m head (xs ++ (n ∷ ys))
    → Chain (list_del_node m n) head (xs ++ ys) head
list_del_node-Chain m head xs n [] h =
    let parts = Chain-split m head xs n [] head h.0 in
    let apart = (Absent-split head xs (n ∷ []) h.1.0.0).0 in
    rw (list_del_node-at m n head parts.1.0, append-nil xs)
      (relink-before m head xs n head parts.0 (apart, Distinct-first xs (n ∷ []) h.1.0.1) apart)
list_del_node-Chain m head xs n (y ∷ ys) h =
    let parts = Chain-split m head xs n (y ∷ ys) head h.0 in
    let head_apart = Absent-split head xs (n ∷ (y ∷ ys)) h.1.0.0 in
    let dis = Distinct-Disjoint xs n (y ∷ ys) h.1.0.1 in
    let p_apart = prev-Absent m head xs n (y ∷ ys) parts.0 head_apart.1.1 dis in
    let m' = list_del_between m (m.prev n) y in
    let before =
      relink-before m head xs n y parts.0 (head_apart.0, Distinct-first xs (n ∷ (y ∷ ys)) h.1.0.1)
        (Disjoint-Absent xs y ys dis) in
    let behind =
      relink-behind m (m.prev n) y ys head parts.1.1 p_apart
        ((Distinct-last xs n (y ∷ ys) h.1.0.1).1.0, λ e. head_apart.1.1.0 (sym e)) in
    rw (list_del_node-at m n y parts.1.0.0) (Chain-append m' head xs y ys head before behind)

-- A list without one of its nodes, provided that the chain is right.
IsList-without :
    (m m' : Memory) (head : ℕ) (xs : List ℕ) (n : ℕ) (ys : List ℕ)
    → IsList m head (xs ++ (n ∷ ys))
    → Chain m' head (xs ++ ys) head
    → IsList m' head (xs ++ ys)
IsList-without m m' head xs n ys h c = (
  c,
  (
    (Absent-without head xs n ys h.1.0.0, Distinct-without xs n ys h.1.0.1),
    (h.1.1.0, Absent-without null xs n ys h.1.1.1),
  ),
)

-- The node is apart from what is left.
node-Absent :
    (m : Memory) (head : ℕ) (xs : List ℕ) (n : ℕ) (ys : List ℕ)
    → IsList m head (xs ++ (n ∷ ys))
    → Absent n (head ∷ (xs ++ ys)) × (n ≢ null)
node-Absent m head xs n ys h =
    let head_apart = (Absent-split head xs (n ∷ ys) h.1.0.0).1.0 in
    let null_apart = (Absent-split null xs (n ∷ ys) h.1.1.1).1.0 in
    ((λ e. head_apart (sym e), Distinct-node xs n ys h.1.0.1), λ e. null_apart (sym e))

list_del-Chain :
    (m : Memory) (n head : ℕ) (zs : List ℕ)
    → Chain (list_del_node m n) head zs head
    → Absent n (head ∷ zs)
    → Chain (list_del m n) head zs head
unfolding list_del
list_del-Chain m n head zs c h =
    let m1 = list_del_node m n in
    set_next-Chain (set_prev m1 n null) head zs head n null
      (set_prev-Chain m1 head zs head n null c h.1 h.0) h

list_del-unlinks : (m : Memory) (n : ℕ) → list_in_list (list_del m n) n ≡ false
unfolding list_del list_in_list set_next set_prev
list_del-unlinks m n = ground arith

-- `list_del` takes a node out of the list that it is in, wherever it stands there, and the node is
-- in no list afterwards.
pub list_del-IsList :
    (m : Memory) (head : ℕ) (xs : List ℕ) (n : ℕ) (ys : List ℕ)
    → IsList m head (xs ++ (n ∷ ys))
    → IsList (list_del m n) head (xs ++ ys) × (list_in_list (list_del m n) n ≡ false)
list_del-IsList m head xs n ys h =
    let c = list_del_node-Chain m head xs n ys h in
    let apart = (node-Absent m head xs n ys h).0 in
    (
      IsList-without m (list_del m n) head xs n ys h (list_del-Chain m n head (xs ++ ys) c apart),
      list_del-unlinks m n,
    )

-- `list_move` puts a node of the list, wherever it stands there, right behind the head, and
-- `list_move_tail` puts it at the end; the others stay in their order.
pub list_move-IsList :
    (m : Memory) (head : ℕ) (xs : List ℕ) (n : ℕ) (ys : List ℕ)
    → IsList m head (xs ++ (n ∷ ys))
    → IsList (list_move m n head) head (n ∷ (xs ++ ys))
      × IsList (list_move_tail m n head) head ((xs ++ ys) ++ (n ∷ []))
unfolding list_move list_move_tail
list_move-IsList m head xs n ys h =
    let m1 = list_del_node m n in
    let apart = node-Absent m head xs n ys h in
    let left = IsList-without m m1 head xs n ys h (list_del_node-Chain m head xs n ys h) in
    (
      list_add-IsList m1 head (xs ++ ys) n left apart.0 apart.1,
      list_add_tail-IsList m1 head (xs ++ ys) n left apart.0 apart.1,
    )
