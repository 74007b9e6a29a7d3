-- ===== src/Kernel/BlockCache/Tests.antt =====
-- The cache of src/kernel/block_cache.c over a device of numbers.
use horizon_operating_system.Common.{
  ℕ, ◌+◌, ◌-◌, ◌^◌, ◌≡◌, refl, [], ◌∷◌, some, Bool, true, false, arith, ◌==◌, if◌then◌else◌,
}
use horizon_operating_system.Kernel.RwLock.{
  rwlock_init, rwlock_try_read, rwlock_write_try_lock, rwlock_write_unlock,
}
use horizon_operating_system.Kernel.BlockCache.{
  Entry, BlockCache, done, fault, find_entry, block_cache_create, block_cache_read,
  block_cache_write, block_cache_write_done,
}
use horizon_operating_system.Kernel.BlockCache.Shows.{IsDevice, Keeps}
use horizon_operating_system.Kernel.BlockCache.Coherence.{
  Serves, block_cache_read-Serves, block_cache_create-Coherent,
}
use horizon_operating_system.Kernel.BlockCache.Uses.{Use}
use horizon_operating_system.Kernel.BlockCache.Eviction.{Victim, dirty_eviction_faults}

abbrev Disk : Type 0
Disk = ℕ → ℕ

abbrev read : Disk → ℕ → ℕ
read d p = d p

abbrev write : Disk → ℕ → ℕ → Disk
write d p x q = if p == q then x else d q

disk-IsDevice : IsDevice read write
disk-IsDevice = record {
  read-write_self = λ d p x. ground arith;
  read-write_ne = λ d p q x h. ground arith;
}

abbrev disk : Disk
disk p = p + 100

abbrev empty : BlockCache Disk ℕ
empty = block_cache_create 2 disk 7

abbrev unlocked : ℕ → ℕ → Bool → Entry ℕ
unlocked p x d = record { linked = false; position = p; buf = x; dirty = d; lock = rwlock_init }

-- After a read of block 5, which is still locked.
abbrev five_read : BlockCache Disk ℕ
five_read = record {
  lru = 1 ∷ 0 ∷ [];
  entries =
      unlocked (2 ^ 64 - 1) 7 false
      ∷ record (unlocked 5 105 false) {
        lock = record { read_count = 1; write_count = 0; write_waiting = 0 };
      }
      ∷ [];
  dev = disk;
}

read_five : block_cache_read read write empty 5 ≡ done (five_read, some 1)
unfolding block_cache_create block_cache_read rwlock_init rwlock_try_read rwlock_write_try_lock
    rwlock_write_unlock
read_five = refl

block_cache_read-Serves_example : Keeps read empty five_read × Serves read empty 5 five_read 1
block_cache_read-Serves_example =
    block_cache_read-Serves read write disk-IsDevice empty five_read 5 1
      (block_cache_create-Coherent read 2 disk 7) (omega arith) read_five

-- A cache of one entry that has been written once and released.
abbrev one_dirty : BlockCache Disk ℕ
one_dirty = record { lru = 0 ∷ []; entries = unlocked 5 7 true ∷ []; dev = disk }

abbrev one_locked : BlockCache Disk ℕ
one_locked = record {
  lru = 0 ∷ [];
  entries =
      record (unlocked 5 7 true) {
        lock = record { read_count = 0; write_count = 1; write_waiting = 0 };
      }
      ∷ [];
  dev = disk;
}

Use-one_dirty : Use read write one_dirty
unfolding block_cache_create block_cache_write block_cache_write_done rwlock_init
    rwlock_write_try_lock rwlock_write_unlock
Use-one_dirty =
    Use.ends_write {c = one_locked} false 0
      (Use.writes {c = block_cache_create 1 disk 7} {r = some 0} 5 (Use.created 1 disk 7) refl) refl

one_dirty-Victim : Victim read write one_dirty 0 (unlocked 5 7 true)
unfolding rwlock_init
one_dirty-Victim = record { rest = []; last = refl; at = refl; unread = refl; unwritten = refl }

dirty_eviction_faults_example :
    (block_cache_read read write one_dirty 6 ≡ fault)
    × (block_cache_write read write one_dirty 6 ≡ fault)
unfolding find_entry
dirty_eviction_faults_example =
    dirty_eviction_faults read write one_dirty 6 0 (unlocked 5 7 true) Use-one_dirty refl
      one_dirty-Victim refl

abbrev one_clean : BlockCache Disk ℕ
one_clean = record { lru = 0 ∷ []; entries = unlocked 5 105 false ∷ []; dev = disk }

one_clean-Victim : Victim read write one_clean 0 (unlocked 5 105 false)
unfolding rwlock_init
one_clean-Victim = record { rest = []; last = refl; at = refl; unread = refl; unwritten = refl }

-- The buffer for block 6 still holds the 105 of block 5.

abbrev five_read_again : BlockCache Disk ℕ
five_read_again = record five_read {
  entries =
      unlocked (2 ^ 64 - 1) 7 false
      ∷ record (unlocked 5 105 false) {
        lock = record { read_count = 2; write_count = 0; write_waiting = 0 };
      }
      ∷ [];
}
