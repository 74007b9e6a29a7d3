-- ===== src/Kernel/BlockCache/Uses.antt =====
-- What the calls of src/kernel/block_cache.c keep of the entries, from the creation of a cache on.
use horizon_operating_system.Common.{
  ℕ, zero, suc, ◌≡◌, inl, inr, refl, List, [], ◌∷◌, Option, none, some, Bool, true, false,
  get_elem?, set, arith, Option-cases, if◌then◌else◌, ◌&&◌, replicate,
}
use mathlib.Core.List.{reverse}
use horizon_operating_system.Kernel.RwLock.{
  rwlock_try_read, rwlock_try_write, rwlock_write_announce, rwlock_read_unlock, rwlock_write_unlock,
}
use horizon_operating_system.Kernel.BlockCache.{
  Entry, BlockCache, done, find_entry, get_free_entry, fresh_entry, load_block, claim_block,
  fill_taken, claim_taken, lock_to_read, lock_to_write, block_cache_read, block_cache_write,
  block_cache_read_done, block_cache_write_done, store, block_cache_create,
}
use horizon_operating_system.Kernel.BlockCache.Lookup.{
  get_free_entry-Taken, get_free_entry-none, >>=-done,
}

module _ {Device Data : Type 0} (read : Device → ℕ → Data)
    (write : Device → ℕ → Data → Device) where
  -- What the users of a cache can do to it, from its creation on.
  pub data Use : BlockCache Device Data → Type 0 where
    created : (count : ℕ) (dev : Device) (junk : Data) → Use (block_cache_create count dev junk)
    reads :
        {c c' : BlockCache Device Data} {r : Option ℕ} (p : ℕ)
        → Use c
        → block_cache_read read write c p ≡ done (c', r)
        → Use c'
    writes :
        {c c' : BlockCache Device Data} {r : Option ℕ} (p : ℕ)
        → Use c
        → block_cache_write read write c p ≡ done (c', r)
        → Use c'
    stores :
        {c c' : BlockCache Device Data} (i : ℕ) (x : Data) → Use c → store c i x ≡ done c' → Use c'
    ends_read :
        {c c' : BlockCache Device Data} (i : ℕ)
        → Use c
        → block_cache_read_done c i ≡ done c'
        → Use c'
    ends_write :
        {c c' : BlockCache Device Data} (registered : Bool) (i : ℕ)
        → Use c
        → block_cache_write_done registered c i ≡ done c'
        → Use c'

  -- No entry stands on the device's list of dirty blocks.
  abbrev pub Unlinked : List (Entry Data) → Type 0
  Unlinked [] = Unit
  Unlinked (e ∷ es) = (e.linked ≡ false) × Unlinked es

  Unlinked-set :
      (es : List (Entry Data)) (i : ℕ) (e : Entry Data)
      → Unlinked es
      → e.linked ≡ false
      → Unlinked (set es i e)
  Unlinked-set [] i e u h = tt
  Unlinked-set (f ∷ es) zero e u h = (h, u.1)
  Unlinked-set (f ∷ es) (suc i) e u h = (u.0, Unlinked-set es i e u.1 h)

  pub Unlinked-get :
      (es : List (Entry Data)) (i : ℕ) (e : Entry Data)
      → Unlinked es
      → get_elem? es i ≡ some e
      → e.linked ≡ false
  Unlinked-get [] i e u h = ground arith
  Unlinked-get (f ∷ es) zero e u h = ground arith
  Unlinked-get (f ∷ es) (suc i) e u h = Unlinked-get es i e u.1 h

  Unlinked-replicate : (n : ℕ) (e : Entry Data) → e.linked ≡ false → Unlinked (replicate n e)
  Unlinked-replicate zero e h = tt
  Unlinked-replicate (suc n) e h = (h, Unlinked-replicate n e h)

  -- Replacing an entry of `c` by one that is not linked either.
  put-Unlinked :
      (c : BlockCache Device Data) (es : List (Entry Data)) (i : ℕ) (e e' : Entry Data)
      → Unlinked c.entries
      → get_elem? c.entries i ≡ some e
      → (e.linked ≡ false → e'.linked ≡ false)
      → es ≡ set c.entries i e'
      → Unlinked es
  put-Unlinked c es i e e' u at same eq =
      rw eq (Unlinked-set c.entries i e' u (same (Unlinked-get c.entries i e u at)))

  module _ (c : BlockCache Device Data) (u : Unlinked c.entries) (i : ℕ) where
    store-Unlinked :
        (x : Data) (c' : BlockCache Device Data) → store c i x ≡ done c' → Unlinked c'.entries
    unfolding store
    store-Unlinked x c' h = elim (Option-cases (get_elem? c.entries i)) [
      | inl missing ↦ ground arith
      | inr (e, at) ↦
          put-Unlinked c c'.entries i e (record e { buf = x }) u at (λ l. l) (ground arith)
    ]

    read_done-Unlinked :
        (c' : BlockCache Device Data) → block_cache_read_done c i ≡ done c' → Unlinked c'.entries
    unfolding block_cache_read_done
    read_done-Unlinked c' h = elim (Option-cases (get_elem? c.entries i)) [
      | inl missing ↦ ground arith
      | inr (e, at) ↦
          put-Unlinked c c'.entries i e (record e { lock = (rwlock_read_unlock e.lock).0 }) u at
            (λ l. l) (ground arith)
    ]

    write_done-Unlinked :
        (registered : Bool) (c' : BlockCache Device Data)
        → block_cache_write_done registered c i ≡ done c'
        → Unlinked c'.entries
    unfolding block_cache_write_done
    write_done-Unlinked registered c' h = elim (Option-cases (get_elem? c.entries i)) [
      | inl missing ↦ ground arith
      | inr (e, at) ↦
          put-Unlinked c c'.entries i e
            (record e {
              linked = if registered && e.linked then true else e.linked;
              lock = (rwlock_write_unlock e.lock).0;
            })
            u at (λ l. ground arith) (ground arith)
    ]

    lock_to_read-Unlinked :
        (c' : BlockCache Device Data) (r : Option ℕ)
        → lock_to_read c i ≡ done (c', r)
        → Unlinked c'.entries
    unfolding lock_to_read
    lock_to_read-Unlinked c' r h = elim (Option-cases (get_elem? c.entries i)) [
      | inl missing ↦ ground arith
      | inr (e, at) ↦
          put-Unlinked c c'.entries i e (record e { lock = (rwlock_try_read e.lock).1 }) u at
            (λ l. l) (ground arith)
    ]

    lock_to_write-Unlinked :
        (c' : BlockCache Device Data) (r : Option ℕ)
        → lock_to_write c i ≡ done (c', r)
        → Unlinked c'.entries
    unfolding lock_to_write
    lock_to_write-Unlinked c' r h = elim (Option-cases (get_elem? c.entries i)) [
      | inl missing ↦ ground arith
      | inr (e, at) ↦
          put-Unlinked c c'.entries i e
            (record e { lock = (rwlock_try_write (rwlock_write_announce e.lock)).1; dirty = true })
            u at (λ l. l) (ground arith)
    ]

    load_block-Unlinked :
        (p : ℕ) (c' : BlockCache Device Data) (r : Option ℕ)
        → load_block read write c i p ≡ done (c', r)
        → Unlinked c'.entries
    unfolding load_block
    load_block-Unlinked p c' r h = elim (Option-cases (get_elem? c.entries i)) [
      | inl missing ↦ ground arith
      | inr (e, at) ↦
          put-Unlinked c c'.entries i e
            (record e { position = p; buf = read c.dev p; lock = (rwlock_write_unlock e.lock).0 }) u
            at (λ l. l) (ground arith)
    ]

    claim_block-Unlinked :
        (p : ℕ) (c' : BlockCache Device Data) (r : Option ℕ)
        → claim_block read write c i p ≡ done (c', r)
        → Unlinked c'.entries
    unfolding claim_block
    claim_block-Unlinked p c' r h = elim (Option-cases (get_elem? c.entries i)) [
      | inl missing ↦ ground arith
      | inr (e, at) ↦
          put-Unlinked c c'.entries i e (record e { position = p; dirty = true }) u at (λ l. l)
            (ground arith)
    ]

  get_free_entry-Unlinked :
      (c : BlockCache Device Data) (is : List ℕ) (c' : BlockCache Device Data) (r : Option ℕ)
      → Unlinked c.entries
      → get_free_entry read write c is ≡ done (c', r)
      → Unlinked c'.entries
  get_free_entry-Unlinked c is c' none u h = rw (get_free_entry-none c read write is c' h) u
  get_free_entry-Unlinked c is c' (some i) u h =
      let t = get_free_entry-Taken c read write is i c' h in
      put-Unlinked c c'.entries i t.old t.new u t.was t.no_new_link t.entries'

  read_miss-Unlinked :
      (c1 c' : BlockCache Device Data) (m r : Option ℕ) (p : ℕ)
      → Unlinked c1.entries
      → fill_taken read write p (c1, m) ≡ done (c', r)
      → Unlinked c'.entries
  read_miss-Unlinked c1 c' none r p u h = ground arith
  read_miss-Unlinked c1 c' (some i) r p u h =
      let ((c2, m), load, lock) =
        >>=-done (load_block read write c1 i p) (λ s. lock_to_read s.0 i) h in
      lock_to_read-Unlinked c2 (load_block-Unlinked c1 u i p c2 m load) i c' r lock

  block_cache_read-Unlinked :
      (c c' : BlockCache Device Data) (p : ℕ) (r : Option ℕ)
      → Unlinked c.entries
      → block_cache_read read write c p ≡ done (c', r)
      → Unlinked c'.entries
  unfolding block_cache_read
  block_cache_read-Unlinked c c' p r u h = elim (Option-cases (find_entry c c.lru p)) [
    | inr (i, hit) ↦ lock_to_read-Unlinked c u i c' r (ground arith)
    | inl miss ↦
        let ((c1, m), free, rest) =
          >>=-done (get_free_entry read write c (reverse c.lru)) (fill_taken read write p)
            (ground arith) in
        read_miss-Unlinked c1 c' m r p (get_free_entry-Unlinked c (reverse c.lru) c1 m u free) rest
  ]

  write_miss-Unlinked :
      (c1 c' : BlockCache Device Data) (m r : Option ℕ) (p : ℕ)
      → Unlinked c1.entries
      → claim_taken read write p (c1, m) ≡ done (c', r)
      → Unlinked c'.entries
  write_miss-Unlinked c1 c' none r p u h = ground arith
  write_miss-Unlinked c1 c' (some i) r p u h = claim_block-Unlinked c1 u i p c' r h

  block_cache_write-Unlinked :
      (c c' : BlockCache Device Data) (p : ℕ) (r : Option ℕ)
      → Unlinked c.entries
      → block_cache_write read write c p ≡ done (c', r)
      → Unlinked c'.entries
  unfolding block_cache_write
  block_cache_write-Unlinked c c' p r u h = elim (Option-cases (find_entry c c.lru p)) [
    | inr (i, hit) ↦ lock_to_write-Unlinked c u i c' r (ground arith)
    | inl miss ↦
        let ((c1, m), free, rest) =
          >>=-done (get_free_entry read write c (reverse c.lru)) (claim_taken read write p)
            (ground arith) in
        write_miss-Unlinked c1 c' m r p (get_free_entry-Unlinked c (reverse c.lru) c1 m u free) rest
  ]

  pub Use-Unlinked : {c : BlockCache Device Data} → Use c → Unlinked c.entries
  unfolding block_cache_create
  Use-Unlinked (created count dev junk) = Unlinked-replicate count (fresh_entry junk) refl
  Use-Unlinked (reads {c} {c' = d} {r} p s h) = block_cache_read-Unlinked c d p r (Use-Unlinked s) h
  Use-Unlinked (writes {c} {c' = d} {r} p s h) =
      block_cache_write-Unlinked c d p r (Use-Unlinked s) h
  Use-Unlinked (stores {c} {c' = d} i x s h) = store-Unlinked c (Use-Unlinked s) i x d h
  Use-Unlinked (ends_read {c} {c' = d} i s h) = read_done-Unlinked c (Use-Unlinked s) i d h
  Use-Unlinked (ends_write {c} {c' = d} b i s h) = write_done-Unlinked c (Use-Unlinked s) i b d h
