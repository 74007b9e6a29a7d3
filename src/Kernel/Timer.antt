-- ===== src/Kernel/Timer.antt =====
-- The timers of src/driver/timer/timer.c. The list of the timers with a callback is given from its last
-- one to its first one, as timer_callback_enable walks it; `none` is a walk past its head.
pub mod Callbacks
pub mod Wrap
mod Tests
use horizon_operating_system.Common.{
  ℕ, ◌+◌, ◌-◌, ◌*◌, ◌/◌, ◌%◌, ◌^◌, List, [], ◌∷◌, Bool, true, false, not, Option, none, some, ltb,
  leb, add32, sub32, u32_mod, if◌then◌else◌,
}

pub record Timer : Type 0 where
  pub timeout : ℕ
  pub will_wrap : Bool

-- `timer_set_timeout`, at a time of the device's counter.
unfoldable pub timer_set_timeout : ℕ → ℕ → Timer
timer_set_timeout counter count = record {
  timeout = add32 counter count;
  will_wrap = if ltb counter (add32 counter count) then false else true;
}

unfoldable pub timer_is_timeout : ℕ → Timer → Bool
timer_is_timeout counter timer =
    if timer.will_wrap then leb counter timer.timeout else leb timer.timeout counter

-- The loop of `timer_callback_enable`, from a timer of the list on.
unfoldable pub insert_timer : Timer → List Timer → Option (List Timer)
insert_timer timer [] = none
insert_timer timer (last ∷ before) =
    let earlier = insert_timer timer before in
    if ltb timer.timeout last.timeout
    then elim earlier [ none ↦ none | some timers ↦ some (last ∷ timers) ]
    else some (timer ∷ last ∷ before)

unfoldable pub timer_callback_enable : Timer → List Timer → Option (List Timer)
unfolding insert_timer
timer_callback_enable timer [] = some (timer ∷ [])
timer_callback_enable timer (last ∷ before) = insert_timer timer (last ∷ before)

-- `timer_count_ms` at a frequency; none of the divisors is 0.
unfoldable pub timer_count_ms : ℕ → ℕ → ℕ
timer_count_ms freq ms =
    if ltb freq 1000
    then sub32 (add32 (ms * freq % u32_mod) 1000) 1 / 1000
    else sub32 (add32 ms (freq / 1000)) 1 / (freq / 1000)
