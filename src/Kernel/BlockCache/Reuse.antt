-- ===== src/Kernel/BlockCache/Reuse.antt =====
-- An entry that is taken for another block, in src/kernel/block_cache.c, keeps the cache coherent.
use horizon_operating_system.Common.{
  ℕ, ◌≡◌, ◌≢◌, ◌∙◌, inl, inr, some, true, false, get_elem?, arith, Bool-cases, ◌==◌, if◌then◌else◌,
  ℕ_discrete,
}
use horizon_operating_system.Kernel.BlockCache.{Entry, BlockCache, no_position}
use horizon_operating_system.Kernel.BlockCache.Lookup.{get_elem?-set, Taken}
use horizon_operating_system.Kernel.BlockCache.Shows.{IsDevice, Coherent, Keeps}

module _ {Device Data : Type 0} (read : Device → ℕ → Data) (write : Device → ℕ → Data → Device)
    (device : IsDevice read write) where
  module _ (c c1 : BlockCache Device Data) (i : ℕ) (k : Coherent read c)
      (t : Taken c read write i c1) where
    open t use {old, new, was, entries', lru', dev'}

    pub lookup-taken :
        (j : ℕ) → get_elem? c1.entries j ≡ (if i == j then some new else get_elem? c.entries j)
    lookup-taken j = rw entries' (get_elem?-set c.entries i j new was)

    -- At the positions of the other entries, and where there is none, the device is unchanged.
    pub dev-taken : (q : ℕ) → ((old.dirty ≡ true) → old.position ≢ q) → read c1.dev q ≡ read c.dev q
    dev-taken q ne = ground (arith, dev', device.read-write_ne c.dev old.position q old.buf, ne)

    pub taken-clean_current :
        (j : ℕ) (e : Entry Data)
        → get_elem? c1.entries j ≡ some e
        → e.dirty ≡ false
        → e.position ≢ no_position
        → e.buf ≡ read c1.dev e.position
    taken-clean_current j e h d n = elim (ℕ_discrete i j) [
      | yes same ↦ elim (Bool-cases old.dirty) [
        | inl dirty ↦
            ground
              (arith, lookup-taken j, dev', device.read-write_self c.dev old.position old.buf, t)
        | inr clean ↦ ground (arith, lookup-taken j, dev', k.clean_current i old was clean, t)
      ]
      | no other ↦
          let at : get_elem? c.entries j ≡ some e = ground (arith, lookup-taken j) in
          ground (
            arith,
            k.clean_current j e at d n,
            dev-taken e.position (λ dirty same.
                other (k.unique i j old e was at same (k.dirty_placed i old was dirty))),
          )
    ]

    pub Taken-Keeps : Keeps read c c1
    Taken-Keeps = record {
      coherent = record {
        covers = λ j f h. ground (arith, lookup-taken j, lru', k.covers i old was, k.covers j f);
        unique = λ j l f g h h' s n. ground (
          arith,
          t,
          lookup-taken j,
          lookup-taken l,
          k.unique j l f g,
          k.unique i l old g,
          k.unique j i f old,
        );
        clean_current = taken-clean_current;
        dirty_placed = λ j f h d. ground (arith, t, lookup-taken j, k.dirty_placed j f);
      };
      keeps = λ q x n s. elim s [
        | inl (j, f, h, pq, b) ↦ elim (ℕ_discrete i j) [
          | yes same ↦
              inl (i, new, ground (arith, lookup-taken i), ground (arith, t), ground (arith, t))
          | no other ↦ inl (j, f, ground (arith, lookup-taken j), pq, b)
        ]
        | inr (absent, b) ↦ inr (
          λ j f h. ground (arith, t, lookup-taken j, absent j f, absent i old),
          dev-taken q (λ dirty. absent i old was) ∙ b,
        )
      ];
    }
