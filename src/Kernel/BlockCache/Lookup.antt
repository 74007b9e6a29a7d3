-- ===== src/Kernel/BlockCache/Lookup.antt =====
-- What a search of the cache finds, and which entry a miss takes.
use horizon_operating_system.Common.{
  ℕ, zero, suc, ◌≡◌, ◌≢◌, ◌⊎◌, inl, inr, refl, List, [], ◌∷◌, none, some, true, false, get_elem?,
  set, arith, Option-cases, Bool-cases, ◌==◌, if◌then◌else◌, ◌&&◌, inc32,
}
use horizon_operating_system.Kernel.RwLock.{rwlock_write_try_lock}
use horizon_operating_system.Kernel.BlockCache.{
  Entry, BlockCache, Outcome, done, fault, blocked, find_entry, clean_entry, get_free_entry, ◌>>=◌,
}

-- `i` stands in the list.
abbrev pub IsIn : ℕ → List ℕ → Type 0
IsIn i [] = ⊥
IsIn i (j ∷ js) = (i ≡ j) ⊎ IsIn i js

-- Inversion of a bind that comes to an end.
pub >>=-done :
    {A B : Type 0} (m : Outcome A) (f : A → Outcome B) {b : B}
    → (m >>= f) ≡ done b
    → (a : A) × (m ≡ done a) × (f a ≡ done b)
>>=-done (done a) f h = (a, refl, h)
>>=-done fault f h = cc
>>=-done blocked f h = cc

module _ {A : Type 0} where
  pub get_elem?-set :
      (xs : List A) (i j : ℕ) (v : A) {x : A}
      → get_elem? xs i ≡ some x
      → get_elem? (set xs i v) j ≡ (if i == j then some v else get_elem? xs j)
  get_elem?-set [] i j v h = ground arith
  get_elem?-set (y ∷ xs) zero zero v h = ground arith
  get_elem?-set (y ∷ xs) zero (suc j) v h = ground arith
  get_elem?-set (y ∷ xs) (suc i) zero v h = ground arith
  get_elem?-set (y ∷ xs) (suc i) (suc j) v h = ground (arith, get_elem?-set xs i j v h)

module _ {Device Data : Type 0} (c : BlockCache Device Data) where
  pub find_entry-some :
      (is : List ℕ) (p i : ℕ)
      → find_entry c is p ≡ some i
      → (e : Entry Data) × (get_elem? c.entries i ≡ some e) × (e.position ≡ p)
  unfolding find_entry
  find_entry-some [] p i h = ground arith
  find_entry-some (j ∷ is) p i h = elim (Option-cases (get_elem? c.entries j)) [
    | inl none_there ↦ find_entry-some is p i (ground arith)
    | inr (e, there) ↦ elim (Bool-cases (e.position == p)) [
      | inl hit ↦ (e, ground arith, ground arith)
      | inr miss ↦ find_entry-some is p i (ground arith)
    ]
  ]

  pub find_entry-none :
      (is : List ℕ) (p i : ℕ) (e : Entry Data)
      → find_entry c is p ≡ none
      → IsIn i is
      → get_elem? c.entries i ≡ some e
      → e.position ≢ p
  unfolding find_entry
  find_entry-none [] p i e h m at = absurd m
  find_entry-none (j ∷ is) p i e h m at = ground (arith, find_entry-none is p i e)

  module _ (read : Device → ℕ → Data) (write : Device → ℕ → Data → Device) where
    -- What taking an entry does: a clean entry is only locked, a dirty one is written back first.
    pub record Taken (i : ℕ) (c' : BlockCache Device Data) : Type 0 where
      pub old : Entry Data
      pub new : Entry Data
      pub was : get_elem? c.entries i ≡ some old
      pub entries' : c'.entries ≡ set c.entries i new
      pub same_position : new.position ≡ old.position
      pub same_buf : new.buf ≡ old.buf
      pub is_clean : new.dirty ≡ false
      pub no_new_link : old.linked ≡ false → new.linked ≡ false
      pub lru' : c'.lru ≡ c.lru
      pub dev' : c'.dev ≡ (if old.dirty then write c.dev old.position old.buf else c.dev)
      pub linked_if_dirty : (old.dirty ≡ false) ⊎ (old.linked ≡ true)

    clean_entry-Taken :
        (j i : ℕ) (e e' : Entry Data) (c' : BlockCache Device Data)
        → get_elem? c.entries j ≡ some e
        → e'.position ≡ e.position
        → e'.buf ≡ e.buf
        → e'.dirty ≡ e.dirty
        → e'.linked ≡ e.linked
        → clean_entry read write c j e' ≡ done (c', some i)
        → Taken i c'
    unfolding clean_entry
    clean_entry-Taken j i e e' c' at sp sb sd sl h = elim (Bool-cases e.dirty) [
      | inl dirty ↦ record {
        old = e;
        new = record e' { dirty = false; linked = false };
        was = ground arith;
        entries' = ground arith;
        same_position = sp;
        same_buf = sb;
        is_clean = refl;
        no_new_link = λ _. refl;
        lru' = ground arith;
        dev' = ground arith;
        linked_if_dirty = ground arith;
      }
      | inr clean ↦ record {
        old = e;
        new = e';
        was = ground arith;
        entries' = ground arith;
        same_position = sp;
        same_buf = sb;
        is_clean = ground arith;
        no_new_link = λ l. ground arith;
        lru' = ground arith;
        dev' = ground arith;
        linked_if_dirty = ground arith;
      }
    ]

    pub get_free_entry-Taken :
        (is : List ℕ) (i : ℕ) (c' : BlockCache Device Data)
        → get_free_entry read write c is ≡ done (c', some i)
        → Taken i c'
    unfolding get_free_entry rwlock_write_try_lock
    get_free_entry-Taken [] i c' h = ground arith
    get_free_entry-Taken (j ∷ is) i c' h = elim (Option-cases (get_elem? c.entries j)) [
      | inl none_there ↦ ground arith
      | inr (e, there) ↦ elim (Bool-cases (e.lock.read_count == 0 && e.lock.write_count == 0)) [
        | inl free ↦
            clean_entry-Taken j i e
              (record e { lock = record e.lock { write_count = inc32 e.lock.write_count } }) c'
              there refl refl refl refl (ground arith)
        | inr held ↦ get_free_entry-Taken is i c' (ground arith)
      ]
    ]

    pub get_free_entry-none :
        (is : List ℕ) (c' : BlockCache Device Data)
        → get_free_entry read write c is ≡ done (c', none)
        → c' ≡ c
    unfolding get_free_entry clean_entry rwlock_write_try_lock
    get_free_entry-none [] c' h = ground arith
    get_free_entry-none (j ∷ is) c' h = ground (arith, get_free_entry-none is c')
