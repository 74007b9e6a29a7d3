-- ===== src/Kernel/DynArray/Contents.antt =====
-- What the blocks of an array of src/lib/dyn_array.c hold.
use horizon_operating_system.Common.{
  ℕ, zero, suc, ◌+◌, ◌-◌, ◌*◌, ◌/◌, ◌%◌, ◌^◌, ◌≤◌, ◌<◌, ◌≡◌, refl, sym, ap, ◌∙◌, arith, List, [],
  ◌∷◌, ◌++◌, map, append-nil, Option, none, some, replicate, length, get_elem?, take, drop,
  length-take, length-drop, true, ◌==◌,
}
use native.Mathlib.Nat.{div-add-mod, mod-lt, mul-mod_left, mul-div_left}
use horizon_operating_system.Kernel.DynArray.{
  DynArrayBlock, DynArray, reach_block, dyn_array_find_block, dyn_array_get, read_slot,
}

module _ {A : Type 0} where
  -- The slots of a block with the elements at its start.
  abbrev pub filled : ℕ → List A → List (Option A)
  filled n xs = map some xs ++ replicate (n - length xs) none

  -- The elements, block by block: all blocks but the last are full.
  abbrev pub Holds : ℕ → List A → List (DynArrayBlock A) → Type 0
  Holds n xs [] = ⊥
  Holds n xs (b ∷ []) = (length xs ≤ n) × ((b.left_space ≡ n - length xs) × (b.slots ≡ filled n xs))
  Holds n xs (b ∷ c ∷ bs) =
      (n ≤ length xs) × ((b.slots ≡ map some (take n xs)) × Holds n (drop n xs) (c ∷ bs))

  get_elem?-map_append :
      (xs : List A) (ys : List (Option A)) (i : ℕ)
      → i < length xs
      → (x : A) × ((get_elem? xs i ≡ some x) × (get_elem? (map some xs ++ ys) i ≡ some (some x)))
  get_elem?-map_append [] ys i h = absurd (omega arith)
  get_elem?-map_append (x ∷ xs) ys zero h = (x, (refl, refl))
  get_elem?-map_append (x ∷ xs) ys (suc i) h = get_elem?-map_append xs ys i (omega arith)

  get_elem?-take : (n i : ℕ) (xs : List A) → i < n → get_elem? (take n xs) i ≡ get_elem? xs i
  get_elem?-take zero i xs h = absurd (omega arith)
  get_elem?-take (suc n) i [] h = refl
  get_elem?-take (suc n) zero (x ∷ xs) h = refl
  get_elem?-take (suc n) (suc i) (x ∷ xs) h = get_elem?-take n i xs (omega arith)

  get_elem?-drop : (n i j : ℕ) (xs : List A) → n + i ≡ j → get_elem? (drop n xs) i ≡ get_elem? xs j
  get_elem?-drop zero i j xs h = let e : i ≡ j = omega arith in rw e refl
  get_elem?-drop (suc n) i j [] h = refl
  get_elem?-drop (suc n) i zero (x ∷ xs) h = absurd (omega arith)
  get_elem?-drop (suc n) i (suc j) (x ∷ xs) h = get_elem?-drop n i j xs (omega arith)

  reach_block-inside :
      (n q : ℕ) (bs : List (DynArrayBlock A)) → q < length bs → reach_block q n bs ≡ bs
  unfolding reach_block
  reach_block-inside n zero bs h = refl
  reach_block-inside n (suc q) [] h = refl
  reach_block-inside n (suc q) (b ∷ []) h = absurd (omega arith)
  reach_block-inside n (suc q) (b ∷ c ∷ bs) h =
      ap (λ t. b ∷ t) (reach_block-inside n q (c ∷ bs) (omega arith))

  -- The element number q * n + r is in slot r of block q.
  pub Holds-get :
      (n q r j : ℕ) (xs : List A) (bs : List (DynArrayBlock A))
      → Holds n xs bs
      → r < n
      → q * n + r ≡ j
      → j < length xs
      → (x : A) × ((get_elem? xs j ≡ some x)
          × ((b : DynArrayBlock A) × ((get_elem? bs q ≡ some b)
                × ((get_elem? b.slots r ≡ some (some x)) × (q < length bs)))))
  Holds-get n q r j xs [] h k e l = absurd h
  Holds-get n zero r j xs (b ∷ []) h k e l =
      let x = get_elem?-map_append xs (replicate (n - length xs) none) j l in
      let e' : r ≡ j = omega arith in
      (x.0, (x.1.0, (b, (refl, (rw (h.1.1, e') x.1.1, omega arith)))))
  Holds-get n (suc q) r j xs (b ∷ []) h k e l = absurd (omega (arith, h.0))
  Holds-get n zero r j xs (b ∷ c ∷ bs) h k e l =
      let e' : r ≡ j = omega arith in
      let x = get_elem?-map_append (take n xs) [] r (omega (arith, length-take n xs)) in
      (
        x.0,
        (
          ap (get_elem? xs) (sym e') ∙ (sym (get_elem?-take n r xs k) ∙ x.1.0),
          (
            b,
            (
              refl,
              (
                ap (λ t. get_elem? t r) (h.1.0 ∙ sym (append-nil (map some (take n xs)))) ∙ x.1.1,
                omega arith,
              ),
            ),
          ),
        ),
      )
  Holds-get n (suc q) r j xs (b ∷ c ∷ bs) h k e l =
      let later =
        Holds-get n q r (j - n) (drop n xs) (c ∷ bs) h.1.1 k (omega arith)
          (omega (arith, length-drop n xs)) in
      (
        later.0,
        (
          sym (get_elem?-drop n (j - n) j xs (omega arith)) ∙ later.1.0,
          (later.1.1.0, (later.1.1.1.0, (later.1.1.1.1.0, omega (arith, later.1.1.1.1.1)))),
        ),
      )

  -- The array has these elements.
  abbrev pub IsArray : DynArray A → List A → Type 0
  IsArray arr xs =
      ((0 < arr.block_size) × ((arr.size ≡ length xs) × (arr.block_size < 2 ^ 31)))
      × Holds arr.block_size xs arr.blocks

  get-read_slot :
      (n : ℕ) (arr : DynArray A) (idx : ℕ)
      → ((dyn_array_get n arr idx).1
          ≡ read_slot
              (get_elem?
                (reach_block (idx / arr.block_size) arr.block_size arr.blocks)
                (idx / arr.block_size))
              arr.element_size
              (idx % arr.block_size * n))
        × (((dyn_array_get n arr idx).0).blocks
            ≡ reach_block (idx / arr.block_size) arr.block_size arr.blocks)
  unfolding dyn_array_get dyn_array_find_block
  get-read_slot n arr idx = (refl, refl)

  -- The read of a value at the start of a slot.
  read_slot-found :
      (b : DynArrayBlock A) (n i : ℕ) (x : A)
      → 0 < n
      → get_elem? b.slots i ≡ some (some x)
      → read_slot (some b) n (i * n) ≡ some x
  read_slot-found b n i x p h =
      let t : (i * n % n == 0) ≡ true = ground (arith, mul-mod_left i n) in
      let e : i * n / n ≡ i = mul-div_left i p in rw (read_slot, t, e, h) refl

  pub dyn_array_get-IsArray :
      (type_size : ℕ) (arr : DynArray A) (xs : List A) (idx : ℕ)
      → 0 < type_size
      → arr.element_size ≡ type_size
      → IsArray arr xs
      → idx < length xs
      → ((dyn_array_get type_size arr idx).1 ≡ get_elem? xs idx)
        × (((dyn_array_get type_size arr idx).0).blocks ≡ arr.blocks)
  dyn_array_get-IsArray type_size arr xs idx p z h k =
      let n = arr.block_size in
      let found =
        Holds-get n (idx / n) (idx % n) idx xs arr.blocks h.1 (mod-lt idx h.0.0)
          (omega (arith, div-add-mod idx n)) k in
      let same = reach_block-inside n (idx / n) arr.blocks found.1.1.1.1.1 in
      let reads = get-read_slot type_size arr idx in
      (
        reads.0
            ∙ (ap (λ bs. read_slot (get_elem? bs (idx / n)) arr.element_size (idx % n * type_size))
                  same
                ∙ (ap (λ b. read_slot b arr.element_size (idx % n * type_size)) found.1.1.1.0
                    ∙ (ap (λ m. read_slot (some found.1.1.0) m (idx % n * type_size)) z
                        ∙ (read_slot-found found.1.1.0 type_size (idx % n) found.0 p found.1.1.1.1.0
                            ∙ sym found.1.0)))),
        reads.1 ∙ same,
      )
