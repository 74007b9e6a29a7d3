-- ===== src/Kernel/Timer/Wrap.antt =====
-- When a timer of src/driver/timer/timer.c is said to have timed out.
use horizon_operating_system.Common.{
  ℕ, ◌+◌, ◌%◌, ◌^◌, ◌≤◌, ◌<◌, ◌≡◌, ◌↔◌, arith, true, false, ltb, add32, u32_mod,
}
use horizon_operating_system.Kernel.Timer.{timer_set_timeout, timer_is_timeout}

-- While the counter does not wrap around, a timer has timed out once its count has passed.
pub is_timeout-passed :
    (counter count passed : ℕ)
    → 0 < count
    → counter + count < 2 ^ 32
    → counter + passed < 2 ^ 32
    → (timer_is_timeout (counter + passed) (timer_set_timeout counter count) ≡ true)
      ↔ (count ≤ passed)
unfolding timer_set_timeout timer_is_timeout
is_timeout-passed counter count passed z h k =
    let t : ltb counter (add32 counter count) ≡ true = ground arith in rw t (ground arith)

-- A timer whose end lies behind the wrap of the counter is said to have timed out from the wrap on, up to
-- its end, and not any more after its end.
pub is_timeout-early :
    (counter count passed : ℕ)
    → counter < 2 ^ 32
    → count < 2 ^ 32
    → passed < 2 ^ 32
    → 2 ^ 32 ≤ counter + count
    → (timer_is_timeout ((counter + passed) % u32_mod) (timer_set_timeout counter count) ≡ true)
      ↔ ((2 ^ 32 ≤ counter + passed) × (passed ≤ count))
unfolding timer_set_timeout timer_is_timeout
is_timeout-early counter count passed h k p w =
    let t : ltb counter (add32 counter count) ≡ false = ground arith in rw t (ground arith)
