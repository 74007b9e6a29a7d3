-- ===== src/Kernel/Timer/Callbacks.antt =====
-- The order of the timers with a callback in src/driver/timer/timer.c.
use horizon_operating_system.Common.{
  ℕ, ◌≤◌, ◌<◌, ◌≡◌, ◌≢◌, ◌⊎◌, inl, inr, refl, ap, arith, List, [], ◌∷◌, ◌++◌, Bool-cases, none,
  some, ltb,
}
use mathlib.Core.Path.{subst}
use horizon_operating_system.Kernel.Timer.{Timer, insert_timer, timer_callback_enable}

-- No timer of the list ends later.
abbrev pub AllUpto : ℕ → List Timer → Type 0
AllUpto t [] = Unit
AllUpto t (r ∷ rs) = (r.timeout ≤ t) × AllUpto t rs

-- The timers end in their order, the last of the list last.
abbrev pub IsSorted : List Timer → Type 0
IsSorted [] = Unit
IsSorted (r ∷ rs) = AllUpto r.timeout rs × IsSorted rs

abbrev pub AllLater : ℕ → List Timer → Type 0
AllLater t [] = Unit
AllLater t (r ∷ rs) = (t < r.timeout) × AllLater t rs

AllUpto-le : (t u : ℕ) (rs : List Timer) → t ≤ u → AllUpto t rs → AllUpto u rs
AllUpto-le t u [] h a = tt
AllUpto-le t u (r ∷ rs) h a = (omega (arith, a.0), AllUpto-le t u rs h a.1)

AllUpto-insert :
    (u : ℕ) (timer : Timer) (xs ys : List Timer)
    → timer.timeout ≤ u
    → AllUpto u (xs ++ ys)
    → AllUpto u (xs ++ (timer ∷ ys))
AllUpto-insert u timer [] ys h a = (h, a)
AllUpto-insert u timer (x ∷ xs) ys h a = (a.0, AllUpto-insert u timer xs ys h a.1)

IsSorted-insert :
    (timer : Timer) (xs ys : List Timer)
    → AllLater timer.timeout xs
    → AllUpto timer.timeout ys
    → IsSorted (xs ++ ys)
    → IsSorted (xs ++ (timer ∷ ys))
IsSorted-insert timer [] ys l a h = (a, h)
IsSorted-insert timer (x ∷ xs) ys l a h = (
  AllUpto-insert x.timeout timer xs ys (omega (arith, l.0)) h.0,
  IsSorted-insert timer xs ys l.1 a h.1,
)

-- Either every timer ends later and the walk leaves the list, or the timer is put before the first one
-- that does not.
insert_timer-cases :
    (timer : Timer) (rs : List Timer)
    → IsSorted rs
    → ((insert_timer timer rs ≡ none) × AllLater timer.timeout rs)
      ⊎ ((xs : List Timer) × ((y : Timer) × ((ys : List Timer) × ((rs ≡ xs ++ (y ∷ ys))
                × ((insert_timer timer rs ≡ some (xs ++ (timer ∷ y ∷ ys)))
                    × (AllLater timer.timeout xs × AllUpto timer.timeout (y ∷ ys)))))))
unfolding insert_timer
insert_timer-cases timer [] h = inl (refl, tt)
insert_timer-cases timer (r ∷ rs) h = elim (Bool-cases (ltb timer.timeout r.timeout)) [
  | inl t ↦
      let later : timer.timeout < r.timeout = ground (arith, t) in
      elim (insert_timer-cases timer rs h.1) [
        | inl e ↦ inl (rw (insert_timer, t, e.0) refl, (later, e.1))
        | inr (xs, (y, (ys, (s, (m, (l, a)))))) ↦ inr (
          r ∷ xs,
          (y, (ys, (ap (λ z. r ∷ z) s, (rw (insert_timer, t, m) refl, ((later, l), a))))),
        )
      ]
  | inr t ↦
      let earlier : r.timeout ≤ timer.timeout = ground (arith, t) in
      inr (
        [],
        (
          r,
          (
            rs,
            (
              refl,
              (
                rw (insert_timer, t) refl,
                (tt, (earlier, AllUpto-le r.timeout timer.timeout rs earlier h.0)),
              ),
            ),
          ),
        ),
      )
]

-- timer_callback_enable puts a timer into a list in the order of the timeouts: an empty list becomes this
-- timer alone. Otherwise the timer is put at its place, behind all timers that end later and before one
-- that does not and all those before this one, with every other timer kept where it is and the order of
-- the list kept; or, where all timers of the list end later, the walk goes past the head of the list.
pub timer_callback_enable-IsSorted :
    (timer : Timer) (rs : List Timer)
    → IsSorted rs
    → ((rs ≡ []) × (timer_callback_enable timer rs ≡ some (timer ∷ [])))
      ⊎ (((xs : List Timer) × ((y : Timer) × ((ys : List Timer) × ((rs ≡ xs ++ (y ∷ ys))
                  × ((timer_callback_enable timer rs ≡ some (xs ++ (timer ∷ y ∷ ys)))
                      × (IsSorted (xs ++ (timer ∷ y ∷ ys))
                          × (AllLater timer.timeout xs × AllUpto timer.timeout (y ∷ ys))))))))
          ⊎ ((timer_callback_enable timer rs ≡ none) × ((rs ≢ []) × AllLater timer.timeout rs)))
unfolding timer_callback_enable
timer_callback_enable-IsSorted timer [] h = inl (refl, refl)
timer_callback_enable-IsSorted timer (r ∷ rs) h = elim (insert_timer-cases timer (r ∷ rs) h) [
  | inl e ↦ inr (inr (e.0, (λ n. ground (arith, n), e.1)))
  | inr (xs, (y, (ys, (s, (m, (l, a)))))) ↦ inr (
      inl (
        xs,
        (y, (ys, (s, (m, (IsSorted-insert timer xs (y ∷ ys) l a (subst IsSorted s h), (l, a)))))),
      ))
]
