-- ===== src/Kernel/Timer/Tests.antt =====
-- Timers of src/driver/timer/timer.c at concrete times, and the theorems about them there.
use horizon_operating_system.Common.{
  ℕ, ◌+◌, ◌%◌, ◌^◌, ◌≤◌, ◌≡◌, ◌≢◌, ◌⊎◌, ◌↔◌, refl, arith, List, [], ◌∷◌, ◌++◌, true, false, none,
  some, u32_mod,
}
use horizon_operating_system.Kernel.Timer.{
  Timer, timer_set_timeout, timer_is_timeout, insert_timer, timer_callback_enable, timer_count_ms,
}
use horizon_operating_system.Kernel.Timer.Wrap.{is_timeout-early}
use horizon_operating_system.Kernel.Timer.Callbacks.{
  IsSorted, AllUpto, AllLater, timer_callback_enable-IsSorted,
}

abbrev at : ℕ → Timer
at t = record { timeout = t; will_wrap = false }

abbrev two : List Timer
two = at 50 ∷ at 20 ∷ []

enables : timer_callback_enable (at 30) two ≡ some (at 50 ∷ at 30 ∷ at 20 ∷ [])
unfolding timer_callback_enable insert_timer
enables = refl

too_early : timer_callback_enable (at 10) two ≡ none
unfolding timer_callback_enable insert_timer
too_early = refl

timer_callback_enable-IsSorted_example :
    ((two ≡ []) × (timer_callback_enable (at 30) two ≡ some (at 30 ∷ [])))
    ⊎ (((xs : List Timer) × ((y : Timer) × ((ys : List Timer) × ((two ≡ xs ++ (y ∷ ys))
                × ((timer_callback_enable (at 30) two ≡ some (xs ++ (at 30 ∷ y ∷ ys)))
                    × (IsSorted (xs ++ (at 30 ∷ y ∷ ys))
                        × (AllLater 30 xs × AllUpto 30 (y ∷ ys))))))))
        ⊎ ((timer_callback_enable (at 30) two ≡ none) × ((two ≢ []) × AllLater 30 two)))
timer_callback_enable-IsSorted_example =
    timer_callback_enable-IsSorted (at 30) two ((omega arith, tt), (tt, tt))

is_timeout-early_example :
    (timer_is_timeout ((0xffffff00 + 0x100) % u32_mod) (timer_set_timeout 0xffffff00 0x1000) ≡ true)
    ↔ ((2 ^ 32 ≤ 0xffffff00 + 0x100) × (0x100 ≤ 0x1000))
is_timeout-early_example =
    is_timeout-early 0xffffff00 0x1000 0x100 (omega arith) (omega arith) (omega arith) (omega arith)

-- Five milliseconds at 10000 Hz, and at 500 Hz.
counts : (timer_count_ms 10000 5 ≡ 1) × (timer_count_ms 500 5 ≡ 3)
unfolding timer_count_ms
counts = (refl, refl)
