-- ===== src/Kernel/BlockCache/Shows.antt =====
-- What a reader of the cache of src/kernel/block_cache.c sees, and a coherent cache.
use horizon_operating_system.Common.{
  ℕ, ◌≡◌, ◌≢◌, ◌⊎◌, inl, inr, some, true, false, get_elem?, arith, ℕ_discrete,
}
use horizon_operating_system.Kernel.BlockCache.{Entry, BlockCache, put_entry, no_position}
use horizon_operating_system.Kernel.BlockCache.Lookup.{IsIn, get_elem?-set}

-- The device keeps what is written, and a write changes no other block.
pub record IsDevice {Device Data : Type 0} (read : Device → ℕ → Data)
    (write : Device → ℕ → Data → Device) : Type 0 where
  pub read-write_self : (d : Device) (p : ℕ) (x : Data) → read (write d p x) p ≡ x
  pub read-write_ne : (d : Device) (p q : ℕ) (x : Data) → p ≢ q → read (write d p x) q ≡ read d q

module _ {Device Data : Type 0} (read : Device → ℕ → Data) where
  -- `x` is the current content of the block at `q`: the cached one, or else that of the device.
  abbrev pub Shows : BlockCache Device Data → ℕ → Data → Type 0
  Shows c q x =
      ((i : ℕ) × (e : Entry Data) × (get_elem? c.entries i ≡ some e)
        × (e.position ≡ q)
        × (e.buf ≡ x))
      ⊎ (((i : ℕ) (e : Entry Data) → get_elem? c.entries i ≡ some e → e.position ≢ q)
          × (read c.dev q ≡ x))

  pub record Coherent (c : BlockCache Device Data) : Type 0 where
    pub covers : (i : ℕ) (e : Entry Data) → get_elem? c.entries i ≡ some e → IsIn i c.lru
    pub unique :
        (i j : ℕ) (e f : Entry Data)
        → get_elem? c.entries i ≡ some e
        → get_elem? c.entries j ≡ some f
        → e.position ≡ f.position
        → e.position ≢ no_position
        → i ≡ j
    pub clean_current :
        (i : ℕ) (e : Entry Data)
        → get_elem? c.entries i ≡ some e
        → e.dirty ≡ false
        → e.position ≢ no_position
        → e.buf ≡ read c.dev e.position
    pub dirty_placed :
        (i : ℕ) (e : Entry Data)
        → get_elem? c.entries i ≡ some e
        → e.dirty ≡ true
        → e.position ≢ no_position

  -- A change that loses nothing.
  pub record Keeps (c c' : BlockCache Device Data) : Type 0 where
    pub coherent : Coherent c'
    pub keeps : (q : ℕ) (x : Data) → q ≢ no_position → Shows c q x → Shows c' q x

  -- An entry whose lock alone changes.
  pub relock-Keeps :
      (c : BlockCache Device Data) (i : ℕ) (e e' : Entry Data)
      → Coherent c
      → get_elem? c.entries i ≡ some e
      → e'.position ≡ e.position
      → e'.buf ≡ e.buf
      → e'.dirty ≡ e.dirty
      → Keeps c (put_entry c i e')
  relock-Keeps c i e e' k at sp sb sd = record {
    coherent = record {
      covers =
          λ j f h. ground (arith, get_elem?-set c.entries i j e' at, k.covers i e, k.covers j f);
      unique = λ j l f g h h' s n. ground (
        arith,
        get_elem?-set c.entries i j e' at,
        get_elem?-set c.entries i l e' at,
        k.unique j l f g,
        k.unique i l e g,
        k.unique j i f e,
      );
      clean_current = λ j f h d n.
          ground
            (arith, get_elem?-set c.entries i j e' at, k.clean_current i e, k.clean_current j f);
      dirty_placed = λ j f h d.
          ground (arith, get_elem?-set c.entries i j e' at, k.dirty_placed i e, k.dirty_placed j f);
    };
    keeps = λ q x n s. elim s [
      | inl (j, f, h, pq, b) ↦ elim (ℕ_discrete i j) [
        | yes same ↦
            inl
              (i, e', ground (arith, get_elem?-set c.entries i i e' at), ground arith, ground arith)
        | no other ↦ inl (j, f, ground (arith, get_elem?-set c.entries i j e' at), pq, b)
      ]
      | inr (absent, b) ↦
          inr
            (λ j f h. ground (arith, get_elem?-set c.entries i j e' at, absent j f, absent i e), b)
    ];
  }
