-- ===== src/Kernel/LinkedList/Chain.antt =====
-- What a list of src/include/kernel/list.h is: the sequence of the nodes behind its head, linked in
-- both directions. Writes to other nodes leave it alone.
use horizon_operating_system.Common.{ℕ, ◌≡◌, ◌≢◌, sym, List, [], ◌∷◌, ◌++◌, arith}
use horizon_operating_system.Kernel.LinkedList.{Memory, set_next, set_prev, null}

abbrev pub Absent : ℕ → List ℕ → Type 0
Absent a [] = Unit
Absent a (x ∷ xs) = (a ≢ x) × Absent a xs

abbrev pub Distinct : List ℕ → Type 0
Distinct [] = Unit
Distinct (x ∷ xs) = Absent x xs × Distinct xs

-- From `a` through `xs` to `b`.
abbrev pub Chain : Memory → ℕ → List ℕ → ℕ → Type 0
Chain m a [] b = (m.next a ≡ b) × (m.prev b ≡ a)
Chain m a (x ∷ xs) b = ((m.next a ≡ x) × (m.prev x ≡ a)) × Chain m x xs b

-- The list of `head` is `xs`: its nodes are different from each other, from the head and from NULL.
abbrev pub IsList : Memory → ℕ → List ℕ → Type 0
IsList m head xs = Chain m head xs head × ((Absent head xs × Distinct xs) × Absent null (head ∷ xs))

pub set_next-Chain :
    (m : Memory) (a : ℕ) (xs : List ℕ) (b u v : ℕ)
    → Chain m a xs b
    → Absent u (a ∷ xs)
    → Chain (set_next m u v) a xs b
unfolding set_next
set_next-Chain m a [] b u v c h = (ground arith, c.1)
set_next-Chain m a (x ∷ xs) b u v c h = ((ground arith, c.0.1), set_next-Chain m x xs b u v c.1 h.1)

pub set_prev-Chain :
    (m : Memory) (a : ℕ) (xs : List ℕ) (b u v : ℕ)
    → Chain m a xs b
    → Absent u xs
    → u ≢ b
    → Chain (set_prev m u v) a xs b
unfolding set_prev
set_prev-Chain m a [] b u v c h n = (c.0, ground arith)
set_prev-Chain m a (x ∷ xs) b u v c h n =
    ((c.0.0, ground arith), set_prev-Chain m x xs b u v c.1 h.1 n)

pub Chain-append :
    (m : Memory) (a : ℕ) (xs : List ℕ) (n : ℕ) (ys : List ℕ) (b : ℕ)
    → Chain m a xs n
    → Chain m n ys b
    → Chain m a (xs ++ (n ∷ ys)) b
Chain-append m a [] n ys b c d = (c, d)
Chain-append m a (x ∷ xs) n ys b c d = (c.0, Chain-append m x xs n ys b c.1 d)

pub Chain-split :
    (m : Memory) (a : ℕ) (xs : List ℕ) (n : ℕ) (ys : List ℕ) (b : ℕ)
    → Chain m a (xs ++ (n ∷ ys)) b
    → Chain m a xs n × Chain m n ys b
Chain-split m a [] n ys b c = c
Chain-split m a (x ∷ xs) n ys b c =
    let rest = Chain-split m x xs n ys b c.1 in ((c.0, rest.0), rest.1)

pub Absent-append : (a : ℕ) (xs ys : List ℕ) → Absent a xs → Absent a ys → Absent a (xs ++ ys)
Absent-append a [] ys h k = k
Absent-append a (x ∷ xs) ys h k = (h.0, Absent-append a xs ys h.1 k)

pub Absent-split : (a : ℕ) (xs ys : List ℕ) → Absent a (xs ++ ys) → Absent a xs × Absent a ys
Absent-split a [] ys h = (tt, h)
Absent-split a (x ∷ xs) ys h = let rest = Absent-split a xs ys h.1 in ((h.0, rest.0), rest.1)

-- A node can be left out.
pub Absent-without :
    (a : ℕ) (xs : List ℕ) (n : ℕ) (ys : List ℕ) → Absent a (xs ++ (n ∷ ys)) → Absent a (xs ++ ys)
Absent-without a [] n ys h = h.1
Absent-without a (x ∷ xs) n ys h = (h.0, Absent-without a xs n ys h.1)

pub Distinct-without :
    (xs : List ℕ) (n : ℕ) (ys : List ℕ) → Distinct (xs ++ (n ∷ ys)) → Distinct (xs ++ ys)
Distinct-without [] n ys h = h.1
Distinct-without (x ∷ xs) n ys h = (Absent-without x xs n ys h.0, Distinct-without xs n ys h.1)

-- It is different from all others, then.
pub Distinct-node :
    (xs : List ℕ) (n : ℕ) (ys : List ℕ) → Distinct (xs ++ (n ∷ ys)) → Absent n (xs ++ ys)
Distinct-node [] n ys h = h.0
Distinct-node (x ∷ xs) n ys h =
    let apart = (Absent-split x xs (n ∷ ys) h.0).1 in
    (λ e. apart.0 (sym e), Distinct-node xs n ys h.1)

pub Distinct-snoc : (xs : List ℕ) (n : ℕ) → Distinct xs → Absent n xs → Distinct (xs ++ (n ∷ []))
Distinct-snoc [] n h k = (tt, tt)
Distinct-snoc (x ∷ xs) n h k =
    (Absent-append x xs (n ∷ []) h.0 (λ e. k.0 (sym e), tt), Distinct-snoc xs n h.1 k.1)
