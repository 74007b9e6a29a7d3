-- ===== src/Kernel/BlockCache/Fill.antt =====
-- An entry that a miss fills from the device, in src/kernel/block_cache.c, keeps the cache coherent.
use horizon_operating_system.Common.{
  ℕ, ◌≡◌, ◌≢◌, ◌∙◌, inl, inr, refl, List, [], ◌∷◌, Option, some, false, get_elem?, set, arith,
  Option-cases, ◌==◌, if◌then◌else◌, ℕ_discrete,
}
use horizon_operating_system.Kernel.RwLock.{rwlock_write_unlock}
use horizon_operating_system.Kernel.BlockCache.{
  Entry, BlockCache, done, no_position, unlink, load_block,
}
use horizon_operating_system.Kernel.BlockCache.Lookup.{IsIn, get_elem?-set}
use horizon_operating_system.Kernel.BlockCache.Shows.{Shows, Coherent, Keeps}

pub IsIn-move : (i j : ℕ) (is : List ℕ) → IsIn j is → IsIn j (i ∷ unlink i is)
unfolding unlink
IsIn-move i j [] m = absurd m
IsIn-move i j (k ∷ is) m = ground (arith, IsIn-move i j is)

module _ {Device Data : Type 0} (read : Device → ℕ → Data) (c : BlockCache Device Data)
    (k : Coherent read c) (p i : ℕ) (placed : p ≢ no_position)
    (absent : (j : ℕ) (e : Entry Data) → get_elem? c.entries j ≡ some e → e.position ≢ p) where
  -- The entry that a miss fills.
  pub record Loaded (c' : BlockCache Device Data) : Type 0 where
    pub old : Entry Data
    pub new : Entry Data
    pub was : get_elem? c.entries i ≡ some old
    pub entries' : c'.entries ≡ set c.entries i new
    pub at_p : new.position ≡ p
    pub from_device : new.buf ≡ read c.dev p
    pub same_dirty : new.dirty ≡ old.dirty
    pub lru' : c'.lru ≡ i ∷ unlink i c.lru
    pub dev' : c'.dev ≡ c.dev

  pub load_block-Loaded :
      (write : Device → ℕ → Data → Device) (c' : BlockCache Device Data) (r : Option ℕ)
      → load_block read write c i p ≡ done (c', r)
      → Loaded c'
  unfolding load_block
  load_block-Loaded write c' r h = elim (Option-cases (get_elem? c.entries i)) [
    | inl none_there ↦ ground arith
    | inr (e, there) ↦ record {
      old = e;
      new = record e { position = p; buf = read c.dev p; lock = (rwlock_write_unlock e.lock).0 };
      was = there;
      entries' = ground arith;
      at_p = refl;
      from_device = refl;
      same_dirty = refl;
      lru' = ground arith;
      dev' = ground arith;
    }
  ]

  module _ (c' : BlockCache Device Data) (l : Loaded c') where
    open l use {old, new, was, entries', lru', dev'}

    pub lookup-loaded :
        (j : ℕ) → get_elem? c'.entries j ≡ (if i == j then some new else get_elem? c.entries j)
    lookup-loaded j = rw entries' (get_elem?-set c.entries i j new was)

    -- The victim's block, if it had one, is found on the device.
    pub Loaded-Shows_other :
        (q : ℕ) (x : Data)
        → old.dirty ≡ false
        → q ≢ no_position
        → q ≢ p
        → Shows read c q x
        → Shows read c' q x
    Loaded-Shows_other q x clean n ne (inl (j, f, h, pq, b)) = elim (ℕ_discrete i j) [
      | yes same ↦ inr (
        λ m g hm. ground (arith, l, lookup-loaded m, k.unique j m f g),
        ground (arith, dev', k.clean_current i old was clean),
      )
      | no other ↦ inl (j, f, ground (arith, lookup-loaded j), pq, b)
    ]
    Loaded-Shows_other q x clean n ne (inr (gone, b)) =
        inr (λ m g hm. ground (arith, l, lookup-loaded m, gone m g), ground (arith, dev'))

    pub Loaded-Keeps : old.dirty ≡ false → Keeps read c c'
    Loaded-Keeps clean = record {
      coherent = record {
        covers = λ j f h. ground (
          arith,
          lookup-loaded j,
          lru',
          k.covers i old was,
          k.covers j f,
          IsIn-move i j c.lru,
          IsIn-move i i c.lru,
        );
        unique = λ j m f g h h' s n.
            ground (
              arith,
              l,
              lookup-loaded j,
              lookup-loaded m,
              k.unique j m f g,
              absent j f,
              absent m g,
            );
        clean_current = λ j f h d n. ground (arith, l, lookup-loaded j, dev', k.clean_current j f);
        dirty_placed = λ j f h d. ground (arith, l, lookup-loaded j, k.dirty_placed j f);
      };
      keeps = λ q x n s. elim (ℕ_discrete q p) [
        | yes here ↦
            inl (i, new, ground (arith, lookup-loaded i), ground (arith, l), shown q x here s)
        | no other ↦ Loaded-Shows_other q x clean n other s
      ];
    }
      where
        shown : (q : ℕ) (x : Data) → q ≡ p → Shows read c q x → new.buf ≡ x
        shown q x here (inl (j, f, h, pq, b)) = absurd (absent j f h (pq ∙ here))
        shown q x here (inr (gone, b)) = ground (arith, l)
