-- ===== src/Kernel/DynArray/Foreach.antt =====
-- How a walk over an array of src/include/dyn_array.h comes out.
use horizon_operating_system.Common.{
  ℕ, zero, suc, ◌+◌, ◌-◌, ◌*◌, ◌<◌, ◌≡◌, refl, ap, ◌∙◌, arith, List, [], ◌∷◌, ◌++◌, true, false,
  length, ltb,
}
use mathlib.Core.Path.{subst⁻¹}
use horizon_operating_system.Kernel.DynArray.{
  DynArrayBlock, DynArray, faulted, looks_at, dyn_array_is_end, dyn_array_foreach,
}

module _ {A : Type 0} where
  -- Some slots of a block, one after another.
  abbrev pub slots_from : ℕ → ℕ → DynArrayBlock A → List (DynArrayBlock A × ℕ)
  slots_from zero off b = []
  slots_from (suc k) off b = (b, off) ∷ slots_from k (off + 1) b

  -- All slots of all blocks, in their order.
  abbrev pub all_slots : ℕ → List (DynArrayBlock A) → List (DynArrayBlock A × ℕ)
  all_slots n [] = []
  all_slots n (b ∷ bs) = slots_from n 0 b ++ all_slots n bs

  foreach-from :
      (bs : List (DynArrayBlock A)) (k rounds off : ℕ) (arr : DynArray A) (b : DynArrayBlock A)
      → suc k + off ≡ arr.block_size
      → rounds ≡ suc k + length bs * arr.block_size
      → dyn_array_foreach rounds arr (b ∷ bs) off
        ≡ faulted (slots_from (suc k) off b ++ all_slots arr.block_size bs)
  unfolding dyn_array_foreach dyn_array_is_end
  foreach-from bs k zero off arr b e r = absurd (omega arith)
  foreach-from [] zero (suc rounds) off arr b e r =
      let t : ltb (off + 1) arr.block_size ≡ false = ground arith in rw t refl
  foreach-from [] (suc k) (suc rounds) off arr b e r =
      let t : ltb (off + 1) arr.block_size ≡ true = ground arith in
      rw t
        (ap (looks_at b off) (foreach-from [] k rounds (off + 1) arr b (omega arith) (omega arith)))
  foreach-from (c ∷ bs) zero (suc rounds) off arr b e r =
      let t : ltb (off + 1) arr.block_size ≡ false = ground arith in
      let n : suc (arr.block_size - 1) ≡ arr.block_size = omega arith in
      rw t (
        ap (looks_at b off) (
          foreach-from bs (arr.block_size - 1) rounds 0 arr c (omega arith) (omega arith)
          ∙ ap (λ m. faulted (slots_from m 0 c ++ all_slots arr.block_size bs)) n))
  foreach-from (c ∷ bs) (suc k) (suc rounds) off arr b e r =
      let t : ltb (off + 1) arr.block_size ≡ true = ground arith in
      rw t (
        ap (looks_at b off)
          (foreach-from (c ∷ bs) k rounds (off + 1) arr b (omega arith) (omega arith)))

  -- dyn_array_foreach is never left by its own test: whatever an array of at least one block holds, the
  -- walk from its start looks at every slot of every block in their order, those that no element was put
  -- in as well, and then reads through NULL.
  pub dyn_array_foreach-faults :
      (arr : DynArray A) (b : DynArrayBlock A) (bs : List (DynArrayBlock A))
      → 0 < arr.block_size
      → arr.blocks ≡ b ∷ bs
      → dyn_array_foreach (length arr.blocks * arr.block_size) arr arr.blocks 0
        ≡ faulted (all_slots arr.block_size arr.blocks)
  dyn_array_foreach-faults arr b bs h e =
      let n : suc (arr.block_size - 1) ≡ arr.block_size = omega arith in
      subst⁻¹
        (λ t.
          dyn_array_foreach (length t * arr.block_size) arr t 0
          ≡ faulted (all_slots arr.block_size t))
        e
        (foreach-from bs (arr.block_size - 1) (suc (length bs) * arr.block_size) 0 arr b
            (omega arith) (omega arith)
          ∙ ap (λ m. faulted (slots_from m 0 b ++ all_slots arr.block_size bs)) n)
