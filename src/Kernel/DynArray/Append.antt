-- ===== src/Kernel/DynArray/Append.antt =====
-- Appending to an array of src/lib/dyn_array.c.
use horizon_operating_system.Common.{
  ℕ, zero, suc, ◌+◌, ◌-◌, ◌*◌, ◌/◌, ◌%◌, ◌^◌, ◌≤◌, ◌<◌, ◌≡◌, refl, sym, ap, ◌∙◌, arith, List, [],
  ◌∷◌, ◌++◌, map, append-nil, true, false, not, ◌&&◌, Option, none, some, replicate, set, length,
  length-append, take, drop, length-drop, dec32, ◌==◌,
}
use mathlib.Core.Path.{subst⁻¹}
use native.Mathlib.Nat.{div-add-mod, mod-lt}
use horizon_operating_system.Kernel.DynArray.{DynArrayBlock, DynArray, write_last, dyn_array_append}
use horizon_operating_system.Kernel.DynArray.Contents.{filled, Holds, IsArray}

module _ {A : Type 0} where
  set-behind :
      (xs : List A) (k : ℕ) (v : A)
      → set (map some xs ++ replicate (suc k) none) (length xs) (some v)
        ≡ map some (xs ++ (v ∷ [])) ++ replicate k none
  set-behind [] k v = refl
  set-behind (x ∷ xs) k v = ap (λ t. some x ∷ t) (set-behind xs k v)

  -- The slot behind the elements is written.
  set-filled :
      (n : ℕ) (xs : List A) (v : A)
      → length xs < n
      → set (filled n xs) (length xs) (some v) ≡ filled n (xs ++ (v ∷ []))
  set-filled n xs v h =
      let k = n - suc (length xs) in
      let e : n - length xs ≡ suc k = omega arith in
      let f : n - length (xs ++ (v ∷ [])) ≡ k = omega (arith, length-append xs (v ∷ [])) in
      rw (e, f) (set-behind xs k v)

  take-append : (n : ℕ) (xs ys : List A) → n ≤ length xs → take n (xs ++ ys) ≡ take n xs
  take-append zero xs ys h = refl
  take-append (suc n) [] ys h = absurd (omega arith)
  take-append (suc n) (x ∷ xs) ys h = ap (λ t. x ∷ t) (take-append n xs ys (omega arith))

  drop-append : (n : ℕ) (xs ys : List A) → n ≤ length xs → drop n (xs ++ ys) ≡ drop n xs ++ ys
  drop-append zero xs ys h = refl
  drop-append (suc n) [] ys h = absurd (omega arith)
  drop-append (suc n) (x ∷ xs) ys h = drop-append n xs ys (omega arith)

  take-all : (n : ℕ) (xs : List A) → length xs ≡ n → take n xs ≡ xs
  take-all zero [] h = refl
  take-all zero (x ∷ xs) h = absurd (omega arith)
  take-all (suc n) [] h = absurd (omega arith)
  take-all (suc n) (x ∷ xs) h = ap (λ t. x ∷ t) (take-all n xs (omega arith))

  drop-all : (n : ℕ) (xs : List A) → length xs ≡ n → drop n xs ≡ []
  drop-all zero [] h = refl
  drop-all zero (x ∷ xs) h = absurd (omega arith)
  drop-all (suc n) [] h = refl
  drop-all (suc n) (x ∷ xs) h = drop-all n xs (omega arith)

  write_last-free :
      (n size : ℕ) (v : A) (xs : List A) (b : DynArrayBlock A)
      → n < 2 ^ 31
      → length xs < n
      → Holds n xs (b ∷ [])
      → Holds n (xs ++ (v ∷ [])) (write_last n size (length xs) v (b ∷ []))
  unfolding write_last
  write_last-free n size v xs b m l h =
      let t : ((b.left_space == 0) && not (size == 0)) ≡ false = ground (arith, h.1.0) in
      rw t (
        omega (arith, length-append xs (v ∷ [])),
        (
          omega (arith, length-append xs (v ∷ []), h.1.0),
          ap (λ t. set t (length xs) (some v)) h.1.1 ∙ set-filled n xs v l,
        ),
      )

  write_last-full :
      (n size : ℕ) (v : A) (xs : List A) (b : DynArrayBlock A)
      → 0 < n
      → n < 2 ^ 31
      → length xs ≡ n
      → length xs ≤ size
      → Holds n xs (b ∷ [])
      → Holds n (xs ++ (v ∷ [])) (write_last n size 0 v (b ∷ []))
  unfolding write_last
  write_last-full n size v xs b z m l s h =
      let t : ((b.left_space == 0) && not (size == 0)) ≡ true = ground (arith, h.1.0) in
      let e : n - length xs ≡ 0 = omega arith in
      let whole : take n (xs ++ (v ∷ [])) ≡ xs =
        take-append n xs (v ∷ []) (omega arith) ∙ take-all n xs l in
      let rest : drop n (xs ++ (v ∷ [])) ≡ v ∷ [] =
        drop-append n xs (v ∷ []) (omega arith) ∙ ap (λ t. t ++ (v ∷ [])) (drop-all n xs l) in
      let left : dec32 n ≡ n - 1 = omega arith in
      let none_yet : filled n [] ≡ replicate {A = Option A} n none =
        ap (λ k. replicate k none) (omega arith) in
      rw (t, rest)
        (
          omega (arith, length-append xs (v ∷ [])),
          (
            h.1.1
                ∙ (ap (λ k. map some xs ++ replicate k none) e
                    ∙ (append-nil (map some xs) ∙ ap (map some) (sym whole))),
            (omega arith, (left, ap (λ t. set t 0 (some v)) (sym none_yet) ∙ set-filled n [] v z)),
          ),
        )

  Holds-cons :
      (n : ℕ) (xs : List A) (b : DynArrayBlock A) (bs : List (DynArrayBlock A))
      → n ≤ length xs
      → b.slots ≡ map some (take n xs)
      → Holds n (drop n xs) bs
      → Holds n xs (b ∷ bs)
  Holds-cons n xs b [] l s h = absurd h
  Holds-cons n xs b (c ∷ bs) l s h = (l, (s, h))

  Holds-append :
      (n size q off : ℕ) (v : A) (xs : List A) (bs : List (DynArrayBlock A))
      → 0 < n
      → n < 2 ^ 31
      → length xs ≤ size
      → q * n + off ≡ length xs
      → off < n
      → Holds n xs bs
      → Holds n (xs ++ (v ∷ [])) (write_last n size off v bs)
  unfolding write_last
  Holds-append n size q off v xs [] z m s e o h = absurd h
  Holds-append n size zero off v xs (b ∷ []) z m s e o h =
      let f : off ≡ length xs = omega arith in
      subst⁻¹ (λ t. Holds n (xs ++ (v ∷ [])) (write_last n size t v (b ∷ []))) f
        (write_last-free n size v xs b m (omega arith) h)
  Holds-append n size (suc zero) off v xs (b ∷ []) z m s e o h =
      let f : off ≡ 0 = omega (arith, h.0) in
      subst⁻¹ (λ t. Holds n (xs ++ (v ∷ [])) (write_last n size t v (b ∷ []))) f
        (write_last-full n size v xs b z m (omega (arith, h.0)) s h)
  Holds-append n size (suc (suc q)) off v xs (b ∷ []) z m s e o h = absurd (omega (arith, h.0))
  Holds-append n size zero off v xs (b ∷ c ∷ bs) z m s e o h = absurd (omega (arith, h.0))
  Holds-append n size (suc q) off v xs (b ∷ c ∷ bs) z m s e o h =
      let later =
        Holds-append n size q off v (drop n xs) (c ∷ bs) z m (omega (arith, length-drop n xs))
          (omega (arith, length-drop n xs)) o h.1.1 in
      Holds-cons n (xs ++ (v ∷ [])) b (write_last n size off v (c ∷ bs))
        (omega (arith, h.0, length-append xs (v ∷ [])))
        (h.1.0 ∙ ap (map some) (sym (take-append n xs (v ∷ []) h.0)))
        (subst⁻¹ (λ t. Holds n t (write_last n size off v (c ∷ bs))) (drop-append n xs (v ∷ []) h.0)
          later)

  append-blocks :
      (arr : DynArray A) (v : A)
      → (((dyn_array_append arr v).blocks
            ≡ write_last arr.block_size arr.size (arr.size % arr.block_size) v arr.blocks)
          × ((dyn_array_append arr v).block_size ≡ arr.block_size))
        × ((dyn_array_append arr v).size ≡ arr.size + 1)
  unfolding dyn_array_append
  append-blocks arr v = ((refl, refl), refl)

  -- An array of some elements is one of these and another, once this has been appended.
  pub dyn_array_append-IsArray :
      (arr : DynArray A) (xs : List A) (v : A)
      → IsArray arr xs
      → IsArray (dyn_array_append arr v) (xs ++ (v ∷ []))
  dyn_array_append-IsArray arr xs v h =
      let n = arr.block_size in
      let made = append-blocks arr v in
      let off = arr.size % n in
      let sized : arr.size / n * n + off ≡ length xs =
        omega (arith, div-add-mod arr.size n, h.0.1.0) in
      let holds =
        Holds-append n arr.size (arr.size / n) off v xs arr.blocks h.0.0 h.0.1.1
          (omega (arith, h.0.1.0)) sized (mod-lt arr.size h.0.0) h.1 in
      (
        (
          omega (arith, made.0.1, h.0.0),
          (
            omega (arith, made.1, h.0.1.0, length-append xs (v ∷ [])),
            omega (arith, made.0.1, h.0.1.1),
          ),
        ),
        subst⁻¹ (λ t. Holds t (xs ++ (v ∷ [])) (dyn_array_append arr v).blocks) made.0.1
            (subst⁻¹ (Holds n (xs ++ (v ∷ []))) made.0.0 holds),
      )

  -- All elements of a list, one after another.
  abbrev pub append_all : DynArray A → List A → DynArray A
  append_all arr [] = arr
  append_all arr (v ∷ vs) = append_all (dyn_array_append arr v) vs
