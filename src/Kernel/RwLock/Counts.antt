-- ===== src/Kernel/RwLock/Counts.antt =====
-- How many threads stand where, and what a change of one thread and a wake-up do to these numbers.
use horizon_operating_system.Common.{
  ℕ, zero, suc, ◌+◌, ◌≤◌, ◌<◌, ◌≡◌, ◌≢◌, ◌⊎◌, inl, inr, refl, ap, ap₂, dec_lt, List, [], ◌∷◌, map,
  some, get_elem?, set, length, length-set, replicate, arith,
}
use horizon_operating_system.Kernel.RwLock.{Wake, wake_nobody, wake_one_writer, wake_all_readers}
use horizon_operating_system.Kernel.RwLock.System.{
  Woken, nobody, one_writer, no_writer, all_readers, Pc, idle, read_asleep, reading, write_ready,
  write_asleep, writing, rouse_reader, is_write_asleep, count_pcs,
}

abbrev pub is_reading : Pc → ℕ
is_reading reading = 1
is_reading _ = 0

abbrev pub is_writing : Pc → ℕ
is_writing writing = 1
is_writing _ = 0

abbrev pub is_write_ready : Pc → ℕ
is_write_ready write_ready = 1
is_write_ready _ = 0

abbrev pub is_read_asleep : Pc → ℕ
is_read_asleep read_asleep = 1
is_read_asleep _ = 0

length-rouse : (ts : List Pc) → length (map rouse_reader ts) ≡ length ts
length-rouse [] = refl
length-rouse (q ∷ ts) = ap suc (length-rouse ts)

module _ (w : Pc → ℕ) where
  count_pcs-set :
      (ts : List Pc) (i : ℕ) (p v : Pc)
      → get_elem? ts i ≡ some p
      → count_pcs w (set ts i v) + w p ≡ count_pcs w ts + w v
  unfolding count_pcs
  count_pcs-set [] i p v h = ground arith
  count_pcs-set (q ∷ ts) zero p v h = ground arith
  count_pcs-set (q ∷ ts) (suc i) p v h = omega (arith, count_pcs-set ts i p v h)

  pub le-count_pcs :
      (ts : List Pc) (i : ℕ) (p : Pc) → get_elem? ts i ≡ some p → w p ≤ count_pcs w ts
  unfolding count_pcs
  le-count_pcs [] i p h = ground arith
  le-count_pcs (q ∷ ts) zero p h = ground arith
  le-count_pcs (q ∷ ts) (suc i) p h = omega (arith, le-count_pcs ts i p h)

  pub count_pcs-le-length : ((p : Pc) → w p ≤ 1) → (ts : List Pc) → count_pcs w ts ≤ length ts
  unfolding count_pcs
  count_pcs-le-length small [] = omega arith
  count_pcs-le-length small (q ∷ ts) = omega (arith, small q, count_pcs-le-length small ts)

  count_pcs-map :
      ((p : Pc) → w (rouse_reader p) ≡ w p)
      → (ts : List Pc) → count_pcs w (map rouse_reader ts) ≡ count_pcs w ts
  unfolding count_pcs
  count_pcs-map same [] = refl
  count_pcs-map same (q ∷ ts) = ap₂ ◌+◌ (same q) (count_pcs-map same ts)

  pub count_pcs-replicate : w idle ≡ 0 → (n : ℕ) → count_pcs w (replicate n idle) ≡ 0
  unfolding count_pcs
  count_pcs-replicate none zero = refl
  count_pcs-replicate none (suc n) = omega (arith, count_pcs-replicate none n)

  -- Two threads that count are two.
  pub two-le-count_pcs :
      (ts : List Pc) (i j : ℕ) (p q : Pc)
      → get_elem? ts i ≡ some p
      → get_elem? ts j ≡ some q
      → i ≢ j
      → w p + w q ≤ count_pcs w ts
  unfolding count_pcs
  two-le-count_pcs [] i j p q hi hj ne = ground arith
  two-le-count_pcs (r ∷ ts) zero zero p q hi hj ne = absurd (ne refl)
  two-le-count_pcs (r ∷ ts) zero (suc j) p q hi hj ne = ground (arith, le-count_pcs ts j q)
  two-le-count_pcs (r ∷ ts) (suc i) zero p q hi hj ne = ground (arith, le-count_pcs ts i p)
  two-le-count_pcs (r ∷ ts) (suc i) (suc j) p q hi hj ne =
      omega (arith, two-le-count_pcs ts i j p q hi hj (λ e. ne (ap suc e)))

  -- A positive number of threads has a member.
  pub find_pc :
      (ts : List Pc)
      → 0 < count_pcs w ts
      → (i : ℕ) × (p : Pc) × (get_elem? ts i ≡ some p) × (0 < w p)
  unfolding count_pcs
  find_pc [] h = absurd (omega arith)
  find_pc (q ∷ ts) h = elim (dec_lt 0 (w q)) [
    | yes here ↦ (0, q, refl, here)
    | no past ↦ let (i, p, at, pos) = find_pc ts (omega arith) in (suc i, p, at, pos)
  ]

pub waiting-le-length :
    (ts : List Pc) → count_pcs is_write_ready ts + count_pcs is_write_asleep ts ≤ length ts
unfolding count_pcs
waiting-le-length [] = omega arith
waiting-le-length (q ∷ ts) = ground (arith, waiting-le-length ts)

-- The effect on each number when one thread goes from `p` to `v`.
pub record Change (ts us : List Pc) (p v : Pc) : Type 0 where
  pub same_length : length us ≡ length ts
  pub of_reading : count_pcs is_reading us + is_reading p ≡ count_pcs is_reading ts + is_reading v
  pub of_writing : count_pcs is_writing us + is_writing p ≡ count_pcs is_writing ts + is_writing v
  pub of_write_ready :
      count_pcs is_write_ready us + is_write_ready p
      ≡ count_pcs is_write_ready ts + is_write_ready v
  pub of_write_asleep :
      count_pcs is_write_asleep us + is_write_asleep p
      ≡ count_pcs is_write_asleep ts + is_write_asleep v
  pub of_read_asleep :
      count_pcs is_read_asleep us + is_read_asleep p
      ≡ count_pcs is_read_asleep ts + is_read_asleep v

pub set-Change :
    (ts : List Pc) (i : ℕ) (p v : Pc) → get_elem? ts i ≡ some p → Change ts (set ts i v) p v
set-Change ts i p v h = record {
  same_length = length-set ts i v;
  of_reading = count_pcs-set is_reading ts i p v h;
  of_writing = count_pcs-set is_writing ts i p v h;
  of_write_ready = count_pcs-set is_write_ready ts i p v h;
  of_write_asleep = count_pcs-set is_write_asleep ts i p v h;
  of_read_asleep = count_pcs-set is_read_asleep ts i p v h;
}

-- Waking the readers leaves all numbers but that of the sleeping readers, of whom none stays.
pub record Roused (ts us : List Pc) : Type 0 where
  pub same_length : length us ≡ length ts
  pub of_reading : count_pcs is_reading us ≡ count_pcs is_reading ts
  pub of_writing : count_pcs is_writing us ≡ count_pcs is_writing ts
  pub of_write_ready : count_pcs is_write_ready us ≡ count_pcs is_write_ready ts
  pub of_write_asleep : count_pcs is_write_asleep us ≡ count_pcs is_write_asleep ts
  pub none_asleep : count_pcs is_read_asleep us ≡ 0

none_read_asleep : (ts : List Pc) → count_pcs is_read_asleep (map rouse_reader ts) ≡ 0
unfolding count_pcs
none_read_asleep [] = refl
none_read_asleep (q ∷ ts) = ground (arith, none_read_asleep ts)

pub map-Roused : (ts : List Pc) → Roused ts (map rouse_reader ts)
map-Roused ts = record {
  same_length = length-rouse ts;
  of_reading = count_pcs-map is_reading (λ p. ground arith) ts;
  of_writing = count_pcs-map is_writing (λ p. ground arith) ts;
  of_write_ready = count_pcs-map is_write_ready (λ p. ground arith) ts;
  of_write_asleep = count_pcs-map is_write_asleep (λ p. ground arith) ts;
  none_asleep = none_read_asleep ts;
}

-- The effect of a wake-up on the numbers. (A change from `idle` to `idle` is none.)
abbrev pub Effect : Wake → List Pc → List Pc → Type 0
Effect wake_nobody ts us = Change ts us idle idle
Effect wake_one_writer ts us =
    ((count_pcs is_write_asleep ts ≡ 0) × Change ts us idle idle)
    ⊎ Change ts us write_asleep write_ready
Effect wake_all_readers ts us = Roused ts us

no-Change : (ts : List Pc) → Change ts ts idle idle
no-Change ts = omega arith

pub Woken-Effect : {w : Wake} {ts us : List Pc} → Woken w ts us → Effect w ts us
Woken-Effect {ts = t} nobody = no-Change t
Woken-Effect {ts = t} (one_writer i h) = inr (set-Change t i write_asleep write_ready h)
Woken-Effect {ts = t} (no_writer h) = inl (h, no-Change t)
Woken-Effect {ts = t} all_readers = map-Roused t
