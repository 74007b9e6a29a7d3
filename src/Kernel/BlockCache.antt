-- ===== src/Kernel/BlockCache.antt =====
-- src/kernel/block_cache.c: a cache of device blocks. The calls are modelled one after another: a
-- call that has to wait for a lock ends as `blocked`.
mod Tests
pub mod Lookup
pub mod Shows
pub mod Reuse
pub mod Fill
pub mod Coherence
pub mod Uses
pub mod Eviction
use horizon_operating_system.Common.{
  ℕ, zero, suc, ◌+◌, ◌-◌, ◌^◌, replicate, List, [], ◌∷◌, ◌++◌, Option, none, some, Bool, true,
  false, get_elem?, set, ◌&&◌, ◌==◌, if◌then◌else◌,
}
use mathlib.Core.List.{reverse}
use horizon_operating_system.Kernel.RwLock.{
  RwLock, rwlock_init, rwlock_try_read, rwlock_read_unlock, rwlock_write_try_lock,
  rwlock_write_announce, rwlock_try_write, rwlock_write_unlock,
}

-- `BlockCacheEntry`. `linked` is `list_in_list(&entry->list)`; `buf` is what `data` points to.
pub record Entry (Data : Type 0) : Type 0 where
  pub linked : Bool
  pub position : ℕ
  pub buf : Data
  pub dirty : Bool
  pub lock : RwLock

-- `BlockCache`: `entries` with their indices, and the list `lru_lh` from its head, as indices.
-- `dev` is the device behind the callbacks.
pub record BlockCache (Device Data : Type 0) : Type 0 where
  pub lru : List ℕ
  pub entries : List (Entry Data)
  pub dev : Device

-- `fault` is a write through a null pointer, or through an index that names no entry.
pub data Outcome (A : Type 0) : Type 0 where
  done : A → Outcome A
  fault : Outcome A
  blocked : Outcome A

infixl 5 ◌>>=◌
abbrev pub ◌>>=◌ : {A B : Type 0} → Outcome A → (A → Outcome B) → Outcome B
done a >>= f = f a
fault >>= f = fault
blocked >>= f = blocked

-- The `position` of an entry that holds no block, `(size_t)-1`.
abbrev pub no_position : ℕ
no_position = 2 ^ 64 - 1

-- `list_del` of the node of index `i`.
unfoldable pub unlink : ℕ → List ℕ → List ℕ
unlink i [] = []
unlink i (j ∷ js) = if i == j then js else j ∷ unlink i js

abbrev pub fresh_entry : {Data : Type 0} → Data → Entry Data
fresh_entry junk = record {
  linked = false;
  position = no_position;
  buf = junk;
  dirty = false;
  lock = rwlock_init;
}

abbrev pub indices : ℕ → ℕ → List ℕ
indices from zero = []
indices from (suc n) = from ∷ indices (from + 1) n

module _ {Device Data : Type 0} where
  abbrev pub put_entry : BlockCache Device Data → ℕ → Entry Data → BlockCache Device Data
  put_entry c i e = record c { entries = set c.entries i e }

  unfoldable pub move_to_list_head : BlockCache Device Data → ℕ → BlockCache Device Data
  unfolding unlink
  move_to_list_head c i = record c { lru = i ∷ unlink i c.lru }

  -- The entry that `index` names.
  abbrev pub with_entry :
      {B : Type 0} → BlockCache Device Data → ℕ → (Entry Data → Outcome B) → Outcome B
  with_entry c i f = elim (get_elem? c.entries i) [ none ↦ fault | some e ↦ f e ]

  -- The first entry of `lru` at this position.
  unfoldable pub find_entry : BlockCache Device Data → List ℕ → ℕ → Option ℕ
  find_entry c [] position = none
  find_entry c (i ∷ is) position =
      let rest = find_entry c is position in
      elim (get_elem? c.entries i) [
        | none ↦ rest
        | some e ↦ if e.position == position then some i else rest
      ]

  -- `rwlock_read_lock` and `rwlock_write_lock` on an entry, where no other thread runs.
  unfoldable pub lock_to_read :
      BlockCache Device Data → ℕ → Outcome (BlockCache Device Data × Option ℕ)
  lock_to_read c i = with_entry c i λ e.
      let (free, l) = rwlock_try_read e.lock in
      if free then done (put_entry c i (record e { lock = l }), some i) else blocked

  unfoldable pub lock_to_write :
      BlockCache Device Data → ℕ → Outcome (BlockCache Device Data × Option ℕ)
  lock_to_write c i = with_entry c i λ e.
      let (free, l) = rwlock_try_write (rwlock_write_announce e.lock) in
      if free then done (put_entry c i (record e { lock = l; dirty = true }), some i) else blocked

  -- The callbacks `read` and `write` of the cache: what is at a position of the device, and the
  -- device after a block is written.
  module _ (read : Device → ℕ → Data) (write : Device → ℕ → Data → Device) where
    -- A locked entry is cleaned: a dirty one is written back and taken off its list.
    unfoldable pub clean_entry :
        BlockCache Device Data → ℕ → Entry Data → Outcome (BlockCache Device Data × Option ℕ)
    clean_entry c i e =
        if e.dirty
        then if e.linked
          then done (
            record (put_entry c i (record e { dirty = false; linked = false })) {
              dev = write c.dev e.position e.buf;
            },
            some i,
          )
          else fault
        else done (put_entry c i e, some i)

    -- `get_free_entry` over the indices still to visit, those of `lru_lh` from its tail.
    unfoldable pub get_free_entry :
        BlockCache Device Data → List ℕ → Outcome (BlockCache Device Data × Option ℕ)
    unfolding clean_entry
    get_free_entry c [] = done (c, none)
    get_free_entry c (i ∷ is) =
        let rest = get_free_entry c is in
        with_entry c i λ e.
          let (free, l) = rwlock_write_try_lock e.lock in
          if free then clean_entry c i (record e { lock = l }) else rest

    -- The block is read into the entry, which goes to the head of the list and is unlocked.
    unfoldable pub load_block :
        BlockCache Device Data → ℕ → ℕ → Outcome (BlockCache Device Data × Option ℕ)
    unfolding move_to_list_head
    load_block c i position = with_entry c i λ e. done (
      move_to_list_head
          (put_entry c i (record e {
            position = position;
            buf = read c.dev position;
            lock = (rwlock_write_unlock e.lock).0;
          }))
          i,
      some i,
    )

    -- `block_cache_read` once `get_free_entry` has returned.
    abbrev pub fill_taken :
        ℕ → BlockCache Device Data × Option ℕ → Outcome (BlockCache Device Data × Option ℕ)
    fill_taken position r = elim r.1 [
      | none ↦ done (r.0, none)
      | some i ↦ load_block r.0 i position >>= λ s. lock_to_read s.0 i
    ]

    -- The index that comes with the cache is the entry that the function returns, `none` its NULL.
    unfoldable pub block_cache_read :
        BlockCache Device Data → ℕ → Outcome (BlockCache Device Data × Option ℕ)
    unfolding find_entry lock_to_read get_free_entry load_block
    block_cache_read c position = elim (find_entry c c.lru position) [
      | some i ↦ lock_to_read c i
      | none ↦ get_free_entry c (reverse c.lru) >>= fill_taken position
    ]

    -- Nothing is read into the entry that a miss takes.
    unfoldable pub claim_block :
        BlockCache Device Data → ℕ → ℕ → Outcome (BlockCache Device Data × Option ℕ)
    unfolding move_to_list_head
    claim_block c i position = with_entry c i λ e. done (
      move_to_list_head (put_entry c i (record e { position = position; dirty = true })) i,
      some i,
    )

    abbrev pub claim_taken :
        ℕ → BlockCache Device Data × Option ℕ → Outcome (BlockCache Device Data × Option ℕ)
    claim_taken position r = elim r.1 [
      | none ↦ done (r.0, none)
      | some i ↦ claim_block r.0 i position
    ]

    unfoldable pub block_cache_write :
        BlockCache Device Data → ℕ → Outcome (BlockCache Device Data × Option ℕ)
    unfolding find_entry lock_to_write get_free_entry claim_block
    block_cache_write c position = elim (find_entry c c.lru position) [
      | some i ↦ lock_to_write c i
      | none ↦ get_free_entry c (reverse c.lru) >>= claim_taken position
    ]

  unfoldable pub block_cache_read_done :
      BlockCache Device Data → ℕ → Outcome (BlockCache Device Data)
  block_cache_read_done c i =
      with_entry c i λ e. done (put_entry c i (record e { lock = (rwlock_read_unlock e.lock).0 }))

  -- `registered` says whether the device's own list of dirty blocks is in use.
  unfoldable pub block_cache_write_done :
      Bool → BlockCache Device Data → ℕ → Outcome (BlockCache Device Data)
  block_cache_write_done registered c i = with_entry c i λ e. done (
      put_entry c i (record e {
        linked = if registered && e.linked then true else e.linked;
        lock = (rwlock_write_unlock e.lock).0;
      }))

  -- The caller stores into the buffer of an entry that it holds for writing.
  unfoldable pub store : BlockCache Device Data → ℕ → Data → Outcome (BlockCache Device Data)
  store c i x = with_entry c i λ e. done (put_entry c i (record e { buf = x }))

  -- `block_cache_create` for `count` blocks, where every allocation succeeds; `junk` is what
  -- `kmalloc` leaves in a buffer.
  unfoldable pub block_cache_create : ℕ → Device → Data → BlockCache Device Data
  block_cache_create count dev junk = record {
    lru = indices 0 count;
    entries = replicate count (fresh_entry junk);
    dev = dev;
  }
