-- ===== src/Kernel/RwLock/Tests.antt =====
-- Three threads on one lock of src/kernel/rwlock.c.
use horizon_operating_system.Common.{ℕ, ◌≡◌, refl, true, [], ◌∷◌, some, get_elem?, arith}
use horizon_operating_system.Kernel.RwLock.{
  rwlock_init, rwlock_try_read, rwlock_try_write, rwlock_read_unlock, rwlock_write_announce,
}
use horizon_operating_system.Kernel.RwLock.System.{
  Pc, idle, read_asleep, reading, write_ready, writing, count_pcs, one_writer, System, Step,
  read_begin, read_test, read_end, write_begin, write_test, Reach, start, later,
}
use horizon_operating_system.Kernel.RwLock.Invariant.{Inv, Step-Inv, Reach-Inv}
use horizon_operating_system.Kernel.RwLock.Safety.{writer_excludes, no_lost_wakeup}

-- Thread 0 reads.
abbrev one_reads : System
one_reads = record {
  lock = record { read_count = 1; write_count = 0; write_waiting = 0 };
  threads = reading ∷ idle ∷ idle ∷ [];
}

Reach-one_reads : Reach 3 one_reads
unfolding rwlock_init rwlock_try_read
Reach-one_reads = later (later start (read_begin 0 refl)) (read_test 0 refl)

-- Thread 1 has tried to write, then thread 2 to read; both sleep.
abbrev two_sleep : System
two_sleep = record {
  lock = record { read_count = 1; write_count = 0; write_waiting = 1 };
  threads = reading ∷ Pc.write_asleep ∷ read_asleep ∷ [];
}

Reach-two_sleep : Reach 3 two_sleep
unfolding rwlock_try_read rwlock_try_write rwlock_write_announce
Reach-two_sleep =
    later
      (later (later (later Reach-one_reads (write_begin 1 refl)) (write_test 1 refl))
        (read_begin 2 refl))
      (read_test 2 refl)

-- Thread 0 has left the lock and woken thread 1.
abbrev one_woken : System
one_woken = record {
  lock = record { read_count = 0; write_count = 0; write_waiting = 1 };
  threads = idle ∷ write_ready ∷ read_asleep ∷ [];
}

read_end-two_sleep : Step two_sleep one_woken
unfolding rwlock_read_unlock
read_end-two_sleep = read_end 0 refl (one_writer 1 refl)

Reach-one_woken : Reach 3 one_woken
Reach-one_woken = later Reach-two_sleep read_end-two_sleep

abbrev one_writes : System
one_writes = record {
  lock = record { read_count = 0; write_count = 1; write_waiting = 0 };
  threads = idle ∷ writing ∷ read_asleep ∷ [];
}

Reach-one_writes : Reach 3 one_writes
unfolding rwlock_try_write
Reach-one_writes = later Reach-one_woken (write_test 1 refl)

Step-Inv_example : Inv one_woken
Step-Inv_example = Step-Inv read_end-two_sleep (Reach-Inv (omega arith) Reach-two_sleep)

writer_excludes_example : ◌≡◌ {A = ℕ} 1 1
writer_excludes_example =
    writer_excludes (omega arith) Reach-one_writes 1 1 writing refl refl (omega arith)

no_lost_wakeup_example :
    (i : ℕ) × (get_elem? one_woken.threads i ≡ some write_ready)
    × ((rwlock_try_write one_woken.lock).0 ≡ true)
unfolding count_pcs
no_lost_wakeup_example = no_lost_wakeup (omega arith) Reach-one_woken refl (omega arith)
