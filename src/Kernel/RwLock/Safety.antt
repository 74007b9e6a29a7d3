-- ===== src/Kernel/RwLock/Safety.antt =====
-- What the users of the lock of src/kernel/rwlock.c can rely on.
use horizon_operating_system.Common.{
  ℕ, ◌+◌, ◌≤◌, ◌<◌, ◌^◌, ◌≡◌, ◌≢◌, true, some, get_elem?, arith, ℕ_discrete,
}
use horizon_operating_system.Kernel.RwLock.{
  rwlock_try_read, rwlock_try_write, rwlock_read_unlock, rwlock_write_try_lock, rwlock_write_unlock,
}
use horizon_operating_system.Kernel.RwLock.System.{
  Pc, idle, read_ready, read_asleep, reading, write_ready, write_asleep, writing, count_pcs,
  is_write_asleep, System, Step, read_begin, read_test, read_end, write_try, write_begin,
  write_test, write_end, Reach,
}
use horizon_operating_system.Kernel.RwLock.Counts.{
  is_reading, is_writing, is_write_ready, is_read_asleep, le-count_pcs, two-le-count_pcs, find_pc,
  set-Change, Woken-Effect,
}
use horizon_operating_system.Kernel.RwLock.Invariant.{Inv, Reach-Inv}

-- In a reachable state of fewer than 2 ^ 31 threads, a thread that holds the lock for writing is
-- the only one that holds it: no other thread reads or writes.
pub writer_excludes :
    {n : ℕ} {s : System}
    → n < 2 ^ 31
    → Reach n s
    → (i j : ℕ) (p : Pc) → get_elem? s.threads i ≡ some writing
    → get_elem? s.threads j ≡ some p
    → 0 < is_reading p + is_writing p
    → i ≡ j
writer_excludes {s = t} few r i j p hi hj holds = elim (ℕ_discrete i j) [
  | yes e ↦ e
  | no ne ↦ absurd (
      ground (
        arith,
        Reach-Inv few r,
        le-count_pcs is_writing t.threads i writing hi,
        le-count_pcs is_reading t.threads j p hj,
        two-le-count_pcs is_writing t.threads i j writing p hi hj ne,
      ))
]

-- In a reachable state of fewer than 2 ^ 31 threads in which no thread holds the lock while some
-- thread sleeps in a wait queue, there is a thread that is awake in `rwlock_write_lock`, and its
-- test would succeed: no wake-up is lost.
pub no_lost_wakeup :
    {n : ℕ} {s : System}
    → n < 2 ^ 31
    → Reach n s
    → count_pcs is_reading s.threads + count_pcs is_writing s.threads ≡ 0
    → 0 < count_pcs is_read_asleep s.threads + count_pcs is_write_asleep s.threads
    → (i : ℕ) × (get_elem? s.threads i ≡ some write_ready) × ((rwlock_try_write s.lock).0 ≡ true)
unfolding rwlock_try_write
no_lost_wakeup {s = t} few r free asleep =
    let inv : Inv t = Reach-Inv few r in
    let (i, p, at, pos) = find_pc is_write_ready t.threads (omega arith) in
    (i, ground arith, ground arith)

-- No step lets a thread in as a reader while a writer waits: the number of readers does not grow.
pub writers_first :
    {s t : System}
    → Step s t
    → s.lock.write_waiting ≢ 0
    → count_pcs is_reading t.threads ≤ count_pcs is_reading s.threads
unfolding rwlock_try_read rwlock_read_unlock rwlock_write_try_lock rwlock_try_write
    rwlock_write_unlock
writers_first {s} (read_begin i h) w = omega (arith, set-Change s.threads i idle read_ready h)
writers_first {s} (read_test i h) w = ground (
  arith,
  set-Change s.threads i read_ready reading h,
  set-Change s.threads i read_ready read_asleep h,
)
writers_first {s} (read_end i h wk) w =
    ground (arith, set-Change s.threads i reading idle h, Woken-Effect wk)
writers_first {s} (write_try i h) w =
    ground (arith, set-Change s.threads i idle writing h, set-Change s.threads i idle idle h)
writers_first {s} (write_begin i h) w = omega (arith, set-Change s.threads i idle write_ready h)
writers_first {s} (write_test i h) w = ground (
  arith,
  set-Change s.threads i write_ready writing h,
  set-Change s.threads i write_ready write_asleep h,
)
writers_first {s} (write_end i h wk) w =
    ground (arith, set-Change s.threads i writing idle h, Woken-Effect wk)
