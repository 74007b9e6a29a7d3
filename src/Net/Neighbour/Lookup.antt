-- ===== src/Net/Neighbour/Lookup.antt =====
-- Finding an entry in a bucket of the table of src/driver/network/neighbour.c, and finding it again after
-- it has been made or changed.
use horizon_operating_system.Common.{
  ℕ, zero, suc, ◌+◌, ◌%◌, ◌≡◌, ◌⊎◌, inl, inr, refl, sym, ap, ◌∙◌, List, [], ◌∷◌, ◌++◌, arith,
  length, get_elem?, set, take, Bool, true, false, Bool-cases, Option, none, some, if◌then◌else◌,
  get_or-set_self,
}
use horizon_operating_system.Net.Neighbour.{
  NeighbourEntry, Bucket, NeighbourTable, same_bytes, is_for, find_neighbour, bucket_of,
  change_bucket, new_entry, neigh_bucket_size,
}

pub find_neighbour-step :
    (e : NeighbourEntry) (b : Bucket) (a : List ℕ) (n : ℕ)
    → find_neighbour (e ∷ b) a n ≡ (
        if is_for a n e
        then some 0
        else elim (find_neighbour b a n) [ none ↦ none | some i ↦ some (i + 1) ])
unfolding find_neighbour
find_neighbour-step e b a n = refl

later-some :
    (o : Option ℕ) (i : ℕ)
    → elim o [ none ↦ none | some i ↦ some (i + 1) ] ≡ some i
    → (j : ℕ) × ((o ≡ some j) × (i ≡ suc j))
later-some none i h = absurd (ground (arith, h))
later-some (some j) i h = (j, (refl, ground (arith, h)))

later-none : (o : Option ℕ) → elim o [ none ↦ none | some i ↦ some (i + 1) ] ≡ none → o ≡ none
later-none none h = refl
later-none (some i) h = absurd (ground (arith, h))

find_neighbour-here :
    (e : NeighbourEntry) (b : Bucket) (a : List ℕ) (n : ℕ)
    → is_for a n e ≡ true
    → find_neighbour (e ∷ b) a n ≡ some 0
find_neighbour-here e b a n t = rw (find_neighbour-step, t) refl

find_neighbour-later :
    (e : NeighbourEntry) (b : Bucket) (a : List ℕ) (n i : ℕ)
    → is_for a n e ≡ false
    → find_neighbour b a n ≡ some i
    → find_neighbour (e ∷ b) a n ≡ some (suc i)
find_neighbour-later e b a n i t h = rw (find_neighbour-step, t, h) (ap some (omega arith))

-- The first entry for the address, or it is further on, or there is none.
find_neighbour-cases :
    (e : NeighbourEntry) (b : Bucket) (a : List ℕ) (n : ℕ) (o : Option ℕ)
    → find_neighbour (e ∷ b) a n ≡ o
    → ((is_for a n e ≡ true) × (o ≡ some 0))
      ⊎ ((is_for a n e ≡ false)
          × (elim (find_neighbour b a n) [ none ↦ none | some i ↦ some (i + 1) ] ≡ o))
find_neighbour-cases e b a n o h = elim (Bool-cases (is_for a n e)) [
  | inl t ↦ inl (t, sym h ∙ find_neighbour-here e b a n t)
  | inr t ↦ inr (t, rw (find_neighbour-step, t) at h)
]

-- A change that leaves the address leaves the place as well.
pub find_neighbour-change :
    (b : Bucket) (a : List ℕ) (n i : ℕ) (f : NeighbourEntry → NeighbourEntry)
    → ((e : NeighbourEntry) → is_for a n (f e) ≡ is_for a n e)
    → find_neighbour b a n ≡ some i
    → (find_neighbour (change_bucket b i f) a n ≡ some i)
      × ((e : NeighbourEntry) × (get_elem? (change_bucket b i f) i ≡ some (f e)))
unfolding find_neighbour
find_neighbour-change [] a n i f k h = absurd (ground (arith, h))
find_neighbour-change (e ∷ b) a n i f k h = elim (find_neighbour-cases e b a n (some i) h) [
  | inl t ↦
      let z : i ≡ 0 = ground (arith, t.1) in
      rw z (find_neighbour-here (f e) b a n (k e ∙ t.0), (e, refl))
  | inr t ↦
      let j = later-some (find_neighbour b a n) i t.1 in
      let later = find_neighbour-change b a n j.0 f k j.1.0 in
      rw j.1.1 (find_neighbour-later e (change_bucket b j.0 f) a n j.0 t.0 later.0, later.1)
]

-- An entry behind the others is found, if none of them is for the address.
pub find_neighbour-append :
    (b : Bucket) (a : List ℕ) (n : ℕ) (new : NeighbourEntry)
    → find_neighbour b a n ≡ none
    → is_for a n new ≡ true
    → find_neighbour (b ++ (new ∷ [])) a n ≡ some (length b)
find_neighbour-append [] a n new h k = find_neighbour-here new [] a n k
find_neighbour-append (e ∷ b) a n new h k = elim (find_neighbour-cases e b a n none h) [
  | inl t ↦ absurd (ground (arith, t.1))
  | inr t ↦
      find_neighbour-later e (b ++ (new ∷ [])) a n (length b) t.0
        (find_neighbour-append b a n new (later-none (find_neighbour b a n) t.1) k)
]

same_bytes-take : (n : ℕ) (xs : List ℕ) → same_bytes n (take n xs) xs ≡ true
unfolding same_bytes
same_bytes-take zero xs = refl
same_bytes-take (suc n) [] = refl
same_bytes-take (suc n) (x ∷ xs) = ground (arith, same_bytes-take n xs)

pub is_for-new_entry :
    (is_ethernet : Bool) (k : ℕ) (a : List ℕ) (n : ℕ)
    → is_for a n (new_entry is_ethernet k a n) ≡ true
is_for-new_entry is_ethernet k a n = ground (arith, same_bytes-take n a)

pub bucket_of-set :
    (table : NeighbourTable) (k : ℕ) (b : Bucket)
    → length table ≡ neigh_bucket_size
    → bucket_of (set table (k % neigh_bucket_size) b) k ≡ b
bucket_of-set table k b l = get_or-set_self table (k % neigh_bucket_size) b [] (omega arith)
