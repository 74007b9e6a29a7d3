-- ===== src/Kernel.antt =====
-- The kernel's C modules: the FIFO of src/kernel/fifo.c, the reader-writer lock of
-- src/kernel/rwlock.c, the block cache of src/kernel/block_cache.c, the lists of
-- src/include/kernel/list.h, the dynamic array of src/lib/dyn_array.c and the timers of
-- src/driver/timer/timer.c.
pub mod Fifo
pub mod RwLock
pub mod BlockCache
pub mod LinkedList
pub mod DynArray
pub mod Timer
