-- ===== src/Kernel/RwLock.antt =====
-- src/kernel/rwlock.c: the lock's counters and what each function does to them under `status_lock`.
pub mod System
pub mod Counts
pub mod Invariant
pub mod Safety
mod Tests
use horizon_operating_system.Common.{
  ℕ, Bool, true, false, ◌&&◌, ◌||◌, not, inc32, dec32, is_positive32, ◌==◌, if◌then◌else◌,
}

-- The counters of `rwlock_t`, `int`s as bit patterns. The wait queues are kept by the threads
-- (`System`), and `status_lock` makes each function below one step.
pub record RwLock : Type 0 where
  pub read_count : ℕ
  pub write_count : ℕ
  pub write_waiting : ℕ

-- The calls that an unlock makes on the wait queues.
pub data Wake : Type 0 where
  wake_nobody : Wake
  wake_one_writer : Wake
  wake_all_readers : Wake

unfoldable pub rwlock_init : RwLock
rwlock_init = record { read_count = 0; write_count = 0; write_waiting = 0 }

-- The conditions that `wait_queue_wait` tests: the answer, and the counters after the test.
unfoldable pub rwlock_try_read : RwLock → Bool × RwLock
rwlock_try_read l =
    if not (l.write_count == 0) || not (l.write_waiting == 0)
    then (false, l)
    else (true, record l { read_count = inc32 l.read_count })

unfoldable pub rwlock_try_write : RwLock → Bool × RwLock
rwlock_try_write l = if not (l.read_count == 0) || not (l.write_count == 0) then (false, l) else (
  true,
  record l { write_waiting = dec32 l.write_waiting; write_count = inc32 l.write_count },
)

unfoldable pub rwlock_read_unlock : RwLock → RwLock × Wake
rwlock_read_unlock l =
    let l' = record l { read_count = dec32 l.read_count } in
    if l'.read_count == 0 && is_positive32 l'.write_waiting
    then (l', wake_one_writer)
    else (l', wake_nobody)

unfoldable pub rwlock_write_try_lock : RwLock → Bool × RwLock
rwlock_write_try_lock l =
    if l.read_count == 0 && l.write_count == 0
    then (true, record l { write_count = inc32 l.write_count })
    else (false, l)

-- `rwlock_write_lock` up to its `wait_queue_wait`.
unfoldable pub rwlock_write_announce : RwLock → RwLock
rwlock_write_announce l = record l { write_waiting = inc32 l.write_waiting }

unfoldable pub rwlock_write_unlock : RwLock → RwLock × Wake
rwlock_write_unlock l =
    let l' = record l { write_count = dec32 l.write_count } in
    if is_positive32 l'.write_waiting then (l', wake_one_writer) else (l', wake_all_readers)
