-- ===== src/Kernel/BlockCache/Coherence.antt =====
-- What a reader of the cache sees: the block that was stored last, wherever it is kept.
use horizon_operating_system.Common.{
  ℕ, zero, suc, ◌+◌, ◌≤◌, replicate, ◌<◌, ◌≡◌, ◌≢◌, ◌∙◌, inl, inr, refl, sym, ap, Option, none,
  some, false, get_elem?, arith, Option-cases, ℕ_discrete, inc32,
}
use mathlib.Core.List.{reverse}
use horizon_operating_system.Kernel.RwLock.{rwlock_try_read}
use horizon_operating_system.Kernel.BlockCache.{
  Entry, BlockCache, done, find_entry, get_free_entry, put_entry, no_position, fill_taken, indices,
  fresh_entry, block_cache_create, load_block, lock_to_read, block_cache_read,
}
use horizon_operating_system.Kernel.BlockCache.Lookup.{
  IsIn, get_elem?-set, find_entry-some, find_entry-none, get_free_entry-Taken, >>=-done,
}
use horizon_operating_system.Kernel.BlockCache.Shows.{
  IsDevice, Shows, Coherent, Keeps, relock-Keeps,
}
use horizon_operating_system.Kernel.BlockCache.Reuse.{Taken-Keeps, lookup-taken}
use horizon_operating_system.Kernel.BlockCache.Fill.{lookup-loaded, load_block-Loaded, Loaded-Keeps}

-- The entry at `i` holds the block of position `p`, and is what a reader of `p` is to see.
abbrev pub Serves :
    {Device Data : Type 0}
    → (Device → ℕ → Data)
    → BlockCache Device Data
    → ℕ
    → BlockCache Device Data
    → ℕ
    → Type 0
Serves {Data} read c p c' i =
    (e : Entry Data) × (get_elem? c'.entries i ≡ some e) × (e.position ≡ p) × Shows read c p e.buf

module _ {Device Data : Type 0} (read : Device → ℕ → Data) (write : Device → ℕ → Data → Device)
    (device : IsDevice read write) where
  lock_to_read-Serves :
      (c c' : BlockCache Device Data) (i j p : ℕ)
      → Coherent read c
      → (e : Entry Data) × (get_elem? c.entries i ≡ some e) × (e.position ≡ p)
      → lock_to_read c i ≡ done (c', some j)
      → Keeps read c c' × Serves read c p c' j
  unfolding lock_to_read rwlock_try_read
  lock_to_read-Serves c c' i j p k (e, at, pos) h =
      let l = record e.lock { read_count = inc32 e.lock.read_count } in
      let e' : Entry Data = record e { lock = l } in
      let eq : c' ≡ put_entry c i e' = ground arith in
      let ei : j ≡ i = ground arith in
      rw (eq, ei)
        (
          relock-Keeps read c i e e' k at refl refl refl,
          (e', ground (arith, get_elem?-set c.entries i i e' at), pos, inl (i, e, at, pos, refl)),
        )

  IsIn-reverse-none :
      (c : BlockCache Device Data) (p : ℕ)
      → Coherent read c
      → find_entry c c.lru p ≡ none
      → (j : ℕ) (e : Entry Data) → get_elem? c.entries j ≡ some e
      → e.position ≢ p
  IsIn-reverse-none c p k h j e at = find_entry-none c c.lru p j e h (k.covers j e at) at

  Keeps-trans : (a b c : BlockCache Device Data) → Keeps read a b → Keeps read b c → Keeps read a c
  Keeps-trans a b c k l = record {
    coherent = l.coherent;
    keeps = λ q x n s. l.keeps q x n (k.keeps q x n s);
  }

  -- A position has one content.
  Shows-unique :
      (c : BlockCache Device Data) (q : ℕ) (x y : Data)
      → Coherent read c
      → q ≢ no_position
      → Shows read c q x
      → Shows read c q y
      → x ≡ y
  Shows-unique c q x y k n (inl (i, e, h, pq, b)) (inl (j, f, h', pq', b')) =
      ground (arith, k.unique i j e f)
  Shows-unique c q x y k n (inl (i, e, h, pq, b)) (inr (gone, b')) = absurd (gone i e h pq)
  Shows-unique c q x y k n (inr (gone, b)) (inl (j, f, h', pq', b')) = absurd (gone j f h' pq')
  Shows-unique c q x y k n (inr (gone, b)) (inr (gone', b')) = sym b ∙ b'

  -- A miss: an entry is taken, loaded and locked.
  read_miss-Serves :
      (c c1 c2 c' : BlockCache Device Data) (p i j : ℕ) (m : Option ℕ)
      → Coherent read c
      → p ≢ no_position
      → find_entry c c.lru p ≡ none
      → get_free_entry read write c (reverse c.lru) ≡ done (c1, some i)
      → load_block read write c1 i p ≡ done (c2, m)
      → lock_to_read c2 i ≡ done (c', some j)
      → Keeps read c c' × Serves read c p c' j
  read_miss-Serves c c1 c2 c' p i j m k n miss free load lock =
      let t = get_free_entry-Taken c read write (reverse c.lru) i c1 free in
      let k1 : Keeps read c c1 = Taken-Keeps read write device c c1 i k t in
      let ab = IsIn-reverse-none c p k miss in
      let ab1 : (j : ℕ) (e : Entry Data) → get_elem? c1.entries j ≡ some e → e.position ≢ p =
        λ a f h.
          ground (arith, t, lookup-taken read write device c c1 i k t a, ab a f, ab i t.old) in
      let l = load_block-Loaded read c1 k1.coherent p i n ab1 write c2 m load in
      let clean : l.old.dirty ≡ false =
        ground (arith, t, l.was, lookup-taken read write device c c1 i k t i) in
      let k2 : Keeps read c1 c2 = Loaded-Keeps read c1 k1.coherent p i n ab1 c2 l clean in
      let (k3, served) =
        lock_to_read-Serves c2 c' i j p k2.coherent
          (l.new, ground (arith, lookup-loaded read c1 k1.coherent p i n ab1 c2 l i), l.at_p)
          lock in
      let whole = Keeps-trans c c1 c' k1 (Keeps-trans c1 c2 c' k2 k3) in
      let (e, at, pos, shown) = served in
      let from_device : Shows read c p (read c.dev p) = inr (ab, refl) in
      let same_buf : read c.dev p ≡ e.buf =
        Shows-unique c2 p (read c.dev p) e.buf k2.coherent n
          (k2.keeps p (read c.dev p) n (k1.keeps p (read c.dev p) n from_device)) shown in
      (whole, (e, at, pos, inr (ab, same_buf)))

  fill_taken-Serves :
      (c c1 c' : BlockCache Device Data) (r : Option ℕ) (p j : ℕ)
      → Coherent read c
      → p ≢ no_position
      → find_entry c c.lru p ≡ none
      → get_free_entry read write c (reverse c.lru) ≡ done (c1, r)
      → fill_taken read write p (c1, r) ≡ done (c', some j)
      → Keeps read c c' × Serves read c p c' j
  fill_taken-Serves c c1 c' none p j k n miss free h = ground arith
  fill_taken-Serves c c1 c' (some i) p j k n miss free h =
      let ((c2, m), load, lock) =
        >>=-done (load_block read write c1 i p) (λ s. lock_to_read s.0 i) h in
      read_miss-Serves c c1 c2 c' p i j m k n miss free load lock

  -- If the cache is coherent and the device keeps what is written, then a `block_cache_read` that
  -- returns an entry returns one at the position asked for, whose buffer is the current content of
  -- that block (the cached one, or else the device's); the cache stays coherent, and the content of
  -- every block is what it was. The position is not `(size_t)-1`.
  pub block_cache_read-Serves :
      (c c' : BlockCache Device Data) (p j : ℕ)
      → Coherent read c
      → p ≢ no_position
      → block_cache_read read write c p ≡ done (c', some j)
      → Keeps read c c' × Serves read c p c' j
  unfolding block_cache_read
  block_cache_read-Serves c c' p j k n h = elim (Option-cases (find_entry c c.lru p)) [
    | inr (i, hit) ↦
        lock_to_read-Serves c c' i j p k (find_entry-some c c.lru p i hit) (ground arith)
    | inl miss ↦
        let ((c1, r), free, rest) =
          >>=-done (get_free_entry read write c (reverse c.lru)) (fill_taken read write p)
            (ground arith) in
        fill_taken-Serves c c1 c' r p j k n miss free rest
  ]

get_elem?-replicate :
    {A : Type 0} (n i : ℕ) (x y : A) → get_elem? (replicate n x) i ≡ some y → (y ≡ x) × (i < n)
get_elem?-replicate zero i x y h = ground arith
get_elem?-replicate (suc n) zero x y h = ground arith
get_elem?-replicate (suc n) (suc i) x y h = ground (arith, get_elem?-replicate n i x y h)

IsIn-indices : (n from i : ℕ) → from ≤ i → i < from + n → IsIn i (indices from n)
IsIn-indices zero from i lo hi = absurd (omega arith)
IsIn-indices (suc n) from i lo hi = elim (ℕ_discrete i from) [
  | yes e ↦ inl e
  | no ne ↦ inr (IsIn-indices n (from + 1) i (omega arith) (omega arith))
]

-- A new cache is coherent.
pub block_cache_create-Coherent :
    {Device Data : Type 0} (read : Device → ℕ → Data) (count : ℕ) (dev : Device) (junk : Data)
    → Coherent read (block_cache_create count dev junk)
unfolding block_cache_create
block_cache_create-Coherent {Data} read count dev junk =
    let all : (i : ℕ) (e : Entry Data)
        → get_elem? (replicate count (fresh_entry junk)) i ≡ some e
        → (e ≡ fresh_entry junk) × (i < count) =
      λ i e h. get_elem?-replicate count i (fresh_entry junk) e h in
    record {
      covers = λ i e h. IsIn-indices count 0 i (omega arith) (omega (arith, (all i e h).1));
      unique = λ i j e f h h' s n. absurd (n (ap (λ e. e.position) (all i e h).0));
      clean_current = λ i e h d n. absurd (n (ap (λ e. e.position) (all i e h).0));
      dirty_placed = λ i e h d. ground (arith, (all i e h).0);
    }
