-- ===== src/Kernel/LinkedList/Insert.antt =====
-- The functions of src/include/kernel/list.h that make a list or put a node into one.
use horizon_operating_system.Common.{
  ℕ, ◌≡◌, ◌≢◌, refl, sym, ◌⊎◌, inl, inr, List, [], ◌∷◌, ◌++◌, append_assoc, arith,
}
use mathlib.Core.Path.{subst⁻¹}
use horizon_operating_system.Kernel.LinkedList.{
  Memory, null, set_next, set_prev, list_init, list_add_between, list_add, list_add_tail,
}
use horizon_operating_system.Kernel.LinkedList.Chain.{
  Absent, Chain, IsList, set_next-Chain, set_prev-Chain, Chain-append, Chain-split, Absent-append,
  Absent-split, Distinct-snoc, Distinct-node,
}

-- `list_init` makes an empty list of a node other than NULL.
pub list_init-IsList : (m : Memory) (head : ℕ) → head ≢ null → IsList (list_init m head) head []
unfolding list_init set_next set_prev
list_init-IsList m head h = ((ground arith, ground arith), ((tt, tt), (λ e. h (sym e), tt)))

pub add_between-linked :
    (m : Memory) (n a b : ℕ) → n ≢ a → n ≢ b → Chain (list_add_between m n a b) a (n ∷ []) b
unfolding list_add_between set_next set_prev
add_between-linked m n a b h k = ((ground arith, ground arith), (ground arith, ground arith))

add_between-frame :
    (m : Memory) (n a b u : ℕ) (xs : List ℕ) (v : ℕ)
    → Chain m u xs v
    → (Absent n (u ∷ xs) × (n ≢ v))
    → Absent a (u ∷ xs)
    → (Absent b xs × (b ≢ v))
    → Chain (list_add_between m n a b) u xs v
unfolding list_add_between
add_between-frame m n a b u xs v c hn ha hb =
    let m1 = set_prev m b n in
    let m2 = set_next m1 n b in
    let m3 = set_prev m2 n a in
    let c1 = set_prev-Chain m u xs v b n c hb.0 hb.1 in
    let c2 = set_next-Chain m1 u xs v n b c1 hn.0 in
    let c3 = set_prev-Chain m2 u xs v n a c2 hn.0.1 hn.1 in set_next-Chain m3 u xs v a n c3 ha

list_add-at :
    (m : Memory) (n head b : ℕ) → m.next head ≡ b → list_add m n head ≡ list_add_between m n head b
unfolding list_add
list_add-at m n head b e = rw e refl

list_add-Chain :
    (m : Memory) (head : ℕ) (xs : List ℕ) (n : ℕ)
    → IsList m head xs
    → Absent n (head ∷ xs)
    → Chain (list_add m n head) head (n ∷ xs) head
list_add-Chain m head [] n h k =
    rw (list_add-at m n head head h.0.0) (add_between-linked m n head head k.0 k.0)
list_add-Chain m head (x ∷ xs) n h k =
    subst⁻¹ (λ t. Chain t head (n ∷ x ∷ xs) head) (list_add-at m n head x h.0.0.0)
      (let near = add_between-linked m n head x k.0 k.1.0 in
        let far =
          add_between-frame m n head x x xs head h.0.1 (k.1, k.0) h.1.0.0
            (h.1.0.1.0, λ e. h.1.0.0.0 (sym e)) in
        (near.0, (near.1, far)))

-- `list_add` puts a node that is not in the list right behind its head.
pub list_add-IsList :
    (m : Memory) (head : ℕ) (xs : List ℕ) (n : ℕ)
    → IsList m head xs
    → Absent n (head ∷ xs)
    → n ≢ null
    → IsList (list_add m n head) head (n ∷ xs)
list_add-IsList m head xs n h k z = (
  list_add-Chain m head xs n h k,
  (((λ e. k.0 (sym e), h.1.0.0), (k.1, h.1.0.1)), (h.1.1.0, (λ e. z (sym e), h.1.1.1))),
)

pub snoc-cases : (xs : List ℕ) → (xs ≡ []) ⊎ ((ys : List ℕ) × ((l : ℕ) × (xs ≡ ys ++ (l ∷ []))))
snoc-cases [] = inl refl
snoc-cases (x ∷ xs) = elim (snoc-cases xs) [
  | inl e ↦ inr ([], (x, rw e refl))
  | inr s ↦ inr (x ∷ s.0, (s.1.0, rw s.1.1 refl))
]

list_add_tail-at :
    (m : Memory) (n head a : ℕ)
    → m.prev head ≡ a
    → list_add_tail m n head ≡ list_add_between m n a head
unfolding list_add_tail
list_add_tail-at m n head a e = rw e refl

list_add_tail-Chain_snoc :
    (m : Memory) (head : ℕ) (ys : List ℕ) (l n : ℕ)
    → IsList m head (ys ++ (l ∷ []))
    → Absent n (head ∷ (ys ++ (l ∷ [])))
    → Chain (list_add_tail m n head) head ((ys ++ (l ∷ [])) ++ (n ∷ [])) head
list_add_tail-Chain_snoc m head ys l n h k =
    let parts = Chain-split m head ys l [] head h.0 in
    let kn = Absent-split n ys (l ∷ []) k.1 in
    let kh = Absent-split head ys (l ∷ []) h.1.0.0 in
    let apart = Distinct-node ys l [] h.1.0.1 in
    let l_apart : Absent l (head ∷ ys) = (λ e. kh.1.0 (sym e), (Absent-split l ys [] apart).0) in
    rw (list_add_tail-at m n head l parts.1.1, append_assoc ys (l ∷ []) (n ∷ []))
      (Chain-append (list_add_between m n l head) head ys l (n ∷ []) head
        (add_between-frame m n l head head ys l parts.0 ((k.0, kn.0), kn.1.0) l_apart
          (kh.0, kh.1.0))
        (add_between-linked m n l head kn.1.0 k.0))

list_add_tail-Chain_nil :
    (m : Memory) (head n : ℕ)
    → IsList m head []
    → Absent n (head ∷ [])
    → Chain (list_add_tail m n head) head (n ∷ []) head
list_add_tail-Chain_nil m head n h k =
    rw (list_add_tail-at m n head head h.0.1) (add_between-linked m n head head k.0 k.0)

list_add_tail-Chain :
    (m : Memory) (head : ℕ) (xs : List ℕ) (n : ℕ)
    → IsList m head xs
    → Absent n (head ∷ xs)
    → Chain (list_add_tail m n head) head (xs ++ (n ∷ [])) head
list_add_tail-Chain m head xs n h k = elim (snoc-cases xs) [
  | inl e ↦ rw e (list_add_tail-Chain_nil m head n (rw e at h) (rw e at k))
  | inr s ↦ rw s.1.1 (list_add_tail-Chain_snoc m head s.0 s.1.0 n (rw s.1.1 at h) (rw s.1.1 at k))
]

-- `list_add_tail` puts a node that is not in the list at its end.
pub list_add_tail-IsList :
    (m : Memory) (head : ℕ) (xs : List ℕ) (n : ℕ)
    → IsList m head xs
    → Absent n (head ∷ xs)
    → n ≢ null
    → IsList (list_add_tail m n head) head (xs ++ (n ∷ []))
list_add_tail-IsList m head xs n h k z = (
  list_add_tail-Chain m head xs n h k,
  (
    (Absent-append head xs (n ∷ []) h.1.0.0 (λ e. k.0 (sym e), tt), Distinct-snoc xs n h.1.0.1 k.1),
    (h.1.1.0, Absent-append null xs (n ∷ []) h.1.1.1 (λ e. z (sym e), tt)),
  ),
)
