-- ===== src/Kernel/RwLock/System.antt =====
-- Any number of threads that use one lock of src/kernel/rwlock.c, in any interleaving. A thread
-- asleep in a wait queue goes on only when it is woken, and then tests its condition again, as
-- `wait_queue_wait` does. Which of the sleeping writers `wait_queue_wake_one` chooses is left open.
use horizon_operating_system.Common.{
  ℕ, ◌+◌, ◌≡◌, Bool, List, [], ◌∷◌, map, some, true, false, get_elem?, set, replicate,
}
use horizon_operating_system.Kernel.RwLock.{
  RwLock, Wake, wake_nobody, wake_one_writer, wake_all_readers, rwlock_init, rwlock_try_read,
  rwlock_try_write, rwlock_read_unlock, rwlock_write_try_lock, rwlock_write_announce,
  rwlock_write_unlock,
}

-- Where a thread stands.
pub data Pc : Type 0 where
  idle : Pc
  read_ready : Pc  -- in `rwlock_read_lock`, about to test
  read_asleep : Pc  -- in the queue `readers`
  reading : Pc
  write_ready : Pc  -- in `rwlock_write_lock`, announced and about to test
  write_asleep : Pc  -- in the queue `writers`
  writing : Pc

abbrev pub rouse_reader : Pc → Pc
rouse_reader read_asleep = read_ready
rouse_reader p = p

-- A weight that counts the threads at one place.
abbrev pub is_write_asleep : Pc → ℕ
is_write_asleep write_asleep = 1
is_write_asleep _ = 0

unfoldable pub count_pcs : (Pc → ℕ) → List Pc → ℕ
count_pcs w [] = 0
count_pcs w (p ∷ ps) = w p + count_pcs w ps

-- `Woken w before after`: the effect of the wake-up `w` on the threads.
pub data Woken : Wake → List Pc → List Pc → Type 0 where
  nobody : {ts : List Pc} → Woken wake_nobody ts ts
  one_writer :
      {ts : List Pc} (i : ℕ)
      → get_elem? ts i ≡ some write_asleep
      → Woken wake_one_writer ts (set ts i write_ready)
  no_writer : {ts : List Pc} → count_pcs is_write_asleep ts ≡ 0 → Woken wake_one_writer ts ts
  all_readers : {ts : List Pc} → Woken wake_all_readers ts (map rouse_reader ts)

pub record System : Type 0 where
  pub lock : RwLock
  pub threads : List Pc

-- Thread `i` has tested its condition: it holds the lock, or it sleeps.
abbrev pub after_test : System → ℕ → Pc → Pc → Bool × RwLock → System
after_test s i won lost (true, l) = record { lock = l; threads = set s.threads i won }
after_test s i won lost (false, l) = record { lock = l; threads = set s.threads i lost }

pub data Step (s : System) : System → Type 0 where
  read_begin :
      (i : ℕ)
      → get_elem? s.threads i ≡ some idle
      → Step s (record s { threads = set s.threads i read_ready })
  read_test :
      (i : ℕ)
      → get_elem? s.threads i ≡ some read_ready
      → Step s (after_test s i reading read_asleep (rwlock_try_read s.lock))
  read_end :
      (i : ℕ) {ts : List Pc}
      → get_elem? s.threads i ≡ some reading
      → Woken (rwlock_read_unlock s.lock).1 (set s.threads i idle) ts
      → Step s (record { lock = (rwlock_read_unlock s.lock).0; threads = ts })
  write_try :
      (i : ℕ)
      → get_elem? s.threads i ≡ some idle
      → Step s (after_test s i writing idle (rwlock_write_try_lock s.lock))
  write_begin :
      (i : ℕ)
      → get_elem? s.threads i ≡ some idle
      → Step s
          (record { lock = rwlock_write_announce s.lock; threads = set s.threads i write_ready })
  write_test :
      (i : ℕ)
      → get_elem? s.threads i ≡ some write_ready
      → Step s (after_test s i writing write_asleep (rwlock_try_write s.lock))
  write_end :
      (i : ℕ) {ts : List Pc}
      → get_elem? s.threads i ≡ some writing
      → Woken (rwlock_write_unlock s.lock).1 (set s.threads i idle) ts
      → Step s (record { lock = (rwlock_write_unlock s.lock).0; threads = ts })

-- `n` threads, none of which has called anything yet.
abbrev pub initial : ℕ → System
initial n = record { lock = rwlock_init; threads = replicate n idle }

pub data Reach (n : ℕ) : System → Type 0 where
  start : Reach n (initial n)
  later : {s t : System} → Reach n s → Step s t → Reach n t
