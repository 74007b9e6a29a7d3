-- ===== src/Kernel/BlockCache/Eviction.antt =====
-- Which entry of src/kernel/block_cache.c a miss gives up, and what becomes of its block.
use horizon_operating_system.Common.{
  ℕ, ◌≡◌, ◌⊎◌, inl, inr, refl, List, ◌∷◌, Option, none, some, true, false, get_elem?, arith,
  Option-cases, inc32,
}
use mathlib.Core.List.{reverse}
use horizon_operating_system.Kernel.RwLock.{rwlock_write_try_lock}
use horizon_operating_system.Kernel.BlockCache.{
  Entry, BlockCache, done, fault, find_entry, clean_entry, get_free_entry, put_entry,
  move_to_list_head, claim_block, block_cache_read, block_cache_write,
}
use horizon_operating_system.Kernel.BlockCache.Lookup.{get_elem?-set}
use horizon_operating_system.Kernel.BlockCache.Uses.{Use, Unlinked-get, Use-Unlinked}

module _ {Device Data : Type 0} (read : Device → ℕ → Data)
    (write : Device → ℕ → Data → Device) where
  -- The last entry of the list, while no thread holds it: a miss takes it.
  pub record Victim (c : BlockCache Device Data) (i : ℕ) (e : Entry Data) : Type 0 where
    pub rest : List ℕ
    pub last : reverse c.lru ≡ i ∷ rest
    pub at : get_elem? c.entries i ≡ some e
    pub unread : e.lock.read_count ≡ 0
    pub unwritten : e.lock.write_count ≡ 0

  Victim-fault :
      (c : BlockCache Device Data) (i : ℕ) (e : Entry Data)
      → Victim c i e
      → e.dirty ≡ true
      → e.linked ≡ false
      → get_free_entry read write c (reverse c.lru) ≡ fault
  unfolding get_free_entry clean_entry rwlock_write_try_lock
  Victim-fault c i e v dirty unlinked = rw v.last (ground (arith, v))

  abbrev locked : Entry Data → Entry Data
  locked e = record e { lock = record e.lock { write_count = inc32 e.lock.write_count } }

  Victim-clean :
      (c : BlockCache Device Data) (i : ℕ) (e : Entry Data)
      → Victim c i e
      → e.dirty ≡ false
      → get_free_entry read write c (reverse c.lru) ≡ done (put_entry c i (locked e), some i)
  unfolding get_free_entry clean_entry rwlock_write_try_lock
  Victim-clean c i e v clean = rw v.last (ground (arith, v))

  -- However a cache came about, if the last entry of its list is dirty and its lock is free, every
  -- block_cache_read and block_cache_write of a block that is not in the cache faults: the entry was never
  -- put on the list that it is to be taken off.
  pub dirty_eviction_faults :
      (c : BlockCache Device Data) (p i : ℕ) (e : Entry Data)
      → Use read write c
      → find_entry c c.lru p ≡ none
      → Victim c i e
      → e.dirty ≡ true
      → (block_cache_read read write c p ≡ fault) × (block_cache_write read write c p ≡ fault)
  unfolding block_cache_read block_cache_write
  dirty_eviction_faults c p i e s miss v dirty =
      let unlinked = Unlinked-get read write c.entries i e (Use-Unlinked read write s) v.at in
      let faults = Victim-fault c i e v dirty unlinked in
      (ground (arith, miss, faults), ground (arith, miss, faults))

  claim_block-done :
      (c : BlockCache Device Data) (p i : ℕ) (e : Entry Data)
      → get_elem? c.entries i ≡ some e
      → claim_block read write c i p
        ≡ done
            (move_to_list_head (put_entry c i (record e { position = p; dirty = true })) i, some i)
  unfolding claim_block
  claim_block-done c p i e at = ground arith

  -- A miss on a write leaves in the buffer what the entry held before, a block of another position:
  -- nothing is read from the device. The entry is marked dirty, at the new position.
  pub write_miss_keeps_buffer :
      (c : BlockCache Device Data) (p i : ℕ) (e : Entry Data)
      → find_entry c c.lru p ≡ none
      → Victim c i e
      → e.dirty ≡ false
      → (c' : BlockCache Device Data) × (e' : Entry Data) × (block_cache_write read write c p
          ≡ done (c', some i))
        × (get_elem? c'.entries i ≡ some e')
        × (e'.buf ≡ e.buf)
        × (e'.position ≡ p)
        × (e'.dirty ≡ true)
  unfolding block_cache_write move_to_list_head
  write_miss_keeps_buffer c p i e miss v clean =
      let c1 = put_entry c i (locked e) in
      let at1 : get_elem? c1.entries i ≡ some (locked e) =
        ground (arith, v, get_elem?-set c.entries i i (locked e) v.at) in
      let e2 : Entry Data = record (locked e) { position = p; dirty = true } in
      (
        move_to_list_head (put_entry c1 i e2) i,
        e2,
        ground (arith, miss, Victim-clean c i e v clean, claim_block-done c1 p i (locked e) at1),
        ground (arith, get_elem?-set c1.entries i i e2 at1),
        refl,
        refl,
        refl,
      )

  -- A hit leaves the order of the entries as it is, on a read and on a write.
  pub hit_keeps_order :
      (c c' : BlockCache Device Data) (p i : ℕ) (r : Option ℕ)
      → find_entry c c.lru p ≡ some i
      → (block_cache_read read write c p ≡ done (c', r))
        ⊎ (block_cache_write read write c p ≡ done (c', r))
      → (c'.lru ≡ c.lru) × (r ≡ some i)
  unfolding block_cache_read block_cache_write
  hit_keeps_order c c' p i r hit (inl h) = elim (Option-cases (get_elem? c.entries i)) [
    | inl missing ↦ ground (arith, hit)
    | inr (e, at) ↦ ground (arith, hit)
  ]
  hit_keeps_order c c' p i r hit (inr h) = elim (Option-cases (get_elem? c.entries i)) [
    | inl missing ↦ ground (arith, hit)
    | inr (e, at) ↦ ground (arith, hit)
  ]
