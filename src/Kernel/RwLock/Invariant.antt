-- ===== src/Kernel/RwLock/Invariant.antt =====
-- What holds of the counters and the threads in every reachable state.
use horizon_operating_system.Common.{
  ℕ, ◌+◌, ◌≤◌, ◌<◌, ◌^◌, ◌≡◌, ◌⊎◌, refl, List, some, get_elem?, set, length, length-replicate,
  arith,
}
use horizon_operating_system.Kernel.RwLock.{
  RwLock, rwlock_init, rwlock_try_read, rwlock_try_write, rwlock_read_unlock, rwlock_write_try_lock,
  rwlock_write_announce, rwlock_write_unlock,
}
use horizon_operating_system.Kernel.RwLock.System.{
  Pc, idle, read_ready, read_asleep, reading, write_ready, write_asleep, writing, count_pcs,
  is_write_asleep, System, Step, read_begin, read_test, read_end, write_try, write_begin,
  write_test, write_end, initial, Reach, start, later, after_test,
}
use horizon_operating_system.Kernel.RwLock.Counts.{
  is_reading, is_writing, is_write_ready, is_read_asleep, count_pcs-le-length, count_pcs-replicate,
  Change, set-Change, Effect, Woken-Effect, waiting-le-length,
}

module _ (l : RwLock) (ts : List Pc) where
  -- The counters count the threads, and a writer excludes all others.
  pub record Counted : Type 0 where
    pub few : length ts < 2 ^ 31
    pub readers : l.read_count ≡ count_pcs is_reading ts
    pub writers : l.write_count ≡ count_pcs is_writing ts
    pub waiting : l.write_waiting ≡ count_pcs is_write_ready ts + count_pcs is_write_asleep ts
    pub one_writer_only : count_pcs is_writing ts ≤ 1
    pub apart : (count_pcs is_writing ts ≡ 0) ⊎ (count_pcs is_reading ts ≡ 0)

  -- No wake-up is lost: a sleeping writer has a holder of the lock or an awake writer to wait for,
  -- a sleeping reader has a writer to wait for.
  pub record Awaited : Type 0 where
    pub writer_awaits :
        (count_pcs is_write_asleep ts ≡ 0)
        ⊎ (0 < count_pcs is_reading ts + count_pcs is_writing ts + count_pcs is_write_ready ts)
    pub reader_awaits :
        (count_pcs is_read_asleep ts ≡ 0)
        ⊎ (0 < count_pcs is_writing ts + count_pcs is_write_ready ts + count_pcs is_write_asleep ts)

pub record Inv (s : System) : Type 0 where
  pub counted : Counted s.lock s.threads
  pub awaited : Awaited s.lock s.threads

-- Facts that every step uses: thread `i` is at `p`, and no number exceeds the number of threads.
record Mover (s : System) (p v : Pc) (us : List Pc) : Type 0 where
  change : Change s.threads us p v
  reads : count_pcs is_reading s.threads ≤ length s.threads
  writes : count_pcs is_writing s.threads ≤ length s.threads
  waits :
      count_pcs is_write_ready s.threads + count_pcs is_write_asleep s.threads ≤ length s.threads
  waits_after : count_pcs is_write_ready us + count_pcs is_write_asleep us ≤ length us

mover :
    (s : System) (i : ℕ) (p v : Pc)
    → get_elem? s.threads i ≡ some p
    → Mover s p v (set s.threads i v)
mover s i p v h = record {
  change = set-Change s.threads i p v h;
  reads = count_pcs-le-length is_reading (λ p. ground arith) s.threads;
  writes = count_pcs-le-length is_writing (λ p. ground arith) s.threads;
  waits = waiting-le-length s.threads;
  waits_after = waiting-le-length (set s.threads i v);
}

read_begin-Inv :
    (s : System) (us : List Pc)
    → Inv s
    → Mover s idle read_ready us
    → Inv (record s { threads = us })
read_begin-Inv s us inv m = omega arith

read_test-Inv :
    (s : System) (i : ℕ)
    → Inv s
    → get_elem? s.threads i ≡ some read_ready
    → Inv (after_test s i reading read_asleep (rwlock_try_read s.lock))
unfolding rwlock_try_read
read_test-Inv s i inv h =
    ground (arith, mover s i read_ready reading h, mover s i read_ready read_asleep h)

write_try-Inv :
    (s : System) (i : ℕ)
    → Inv s
    → get_elem? s.threads i ≡ some idle
    → Inv (after_test s i writing idle (rwlock_write_try_lock s.lock))
unfolding rwlock_write_try_lock
write_try-Inv s i inv h = ground (arith, mover s i idle writing h, mover s i idle idle h)

write_begin-Inv :
    (s : System) (us : List Pc)
    → Inv s
    → Mover s idle write_ready us
    → Inv (record { lock = rwlock_write_announce s.lock; threads = us })
unfolding rwlock_write_announce
write_begin-Inv s us inv m = omega arith

write_test-Inv :
    (s : System) (i : ℕ)
    → Inv s
    → get_elem? s.threads i ≡ some write_ready
    → Inv (after_test s i writing write_asleep (rwlock_try_write s.lock))
unfolding rwlock_try_write
write_test-Inv s i inv h =
    ground (arith, mover s i write_ready writing h, mover s i write_ready write_asleep h)

read_end-Inv :
    (s : System) (us ts : List Pc)
    → Inv s
    → Mover s reading idle us
    → Effect (rwlock_read_unlock s.lock).1 us ts
    → Inv (record { lock = (rwlock_read_unlock s.lock).0; threads = ts })
unfolding rwlock_read_unlock
read_end-Inv s us ts inv m e = ground arith

write_end-Inv :
    (s : System) (us ts : List Pc)
    → Inv s
    → Mover s writing idle us
    → Effect (rwlock_write_unlock s.lock).1 us ts
    → Inv (record { lock = (rwlock_write_unlock s.lock).0; threads = ts })
unfolding rwlock_write_unlock
write_end-Inv s us ts inv m e = ground arith

-- Every step of any thread keeps the invariant.
pub Step-Inv : {s t : System} → Step s t → Inv s → Inv t
Step-Inv {s} (read_begin i h) inv = read_begin-Inv s _ inv (mover s i idle read_ready h)
Step-Inv {s} (read_test i h) inv = read_test-Inv s i inv h
Step-Inv {s} (read_end i {ts} h w) inv =
    read_end-Inv s (set s.threads i idle) ts inv (mover s i reading idle h) (Woken-Effect w)
Step-Inv {s} (write_try i h) inv = write_try-Inv s i inv h
Step-Inv {s} (write_begin i h) inv = write_begin-Inv s _ inv (mover s i idle write_ready h)
Step-Inv {s} (write_test i h) inv = write_test-Inv s i inv h
Step-Inv {s} (write_end i {ts} h w) inv =
    write_end-Inv s (set s.threads i idle) ts inv (mover s i writing idle h) (Woken-Effect w)

initial-Inv : (n : ℕ) → n < 2 ^ 31 → Inv (initial n)
unfolding rwlock_init
initial-Inv n few = omega (
  arith,
  length-replicate n idle,
  count_pcs-replicate is_reading refl n,
  count_pcs-replicate is_writing refl n,
  count_pcs-replicate is_write_ready refl n,
  count_pcs-replicate is_write_asleep refl n,
  count_pcs-replicate is_read_asleep refl n,
)

-- The invariant holds in every state that fewer than 2 ^ 31 threads can reach.
pub Reach-Inv : {n : ℕ} {s : System} → n < 2 ^ 31 → Reach n s → Inv s
Reach-Inv {n} few start = initial-Inv n few
Reach-Inv few (later r st) = Step-Inv st (Reach-Inv few r)
