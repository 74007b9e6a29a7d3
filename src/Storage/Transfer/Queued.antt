-- ===== src/Storage/Transfer/Queued.antt =====
-- What the requests of one transfer of src/driver/storage/storage_io.c become in an empty queue of
-- src/driver/storage/storage_io_queue.c.
use horizon_operating_system.Common.{
  ℕ, ◌+◌, ◌-◌, ◌*◌, ◌^◌, ◌≤◌, ◌<◌, ◌≡◌, refl, sym, ap, ◌∙◌, inl, inr, List, [], ◌∷◌, ◌++◌, map,
  append_assoc, append-nil, Bool, true, false, Bool-cases, Option, none, arith, add32,
  if◌then◌else◌, ltb, not,
}
use mathlib.Core.Path.{subst⁻¹}
use horizon_operating_system.Storage.Requests.{
  StorageRequest, storage_try_merge_request, insert_request, storage_add_request, same_rw,
}
use horizon_operating_system.Storage.Transfer.{
  StorageDevice, BatchRequest, generated, storage_generate_request, request_of, add_requests,
  submit,
}
use horizon_operating_system.Storage.Transfer.Split.{
  FitsAll, blocks, blocks_of, storage_generate_request-blocks,
}

either_none : (b : Bool) (o : Option StorageRequest) → o ≡ none → (if b then none else o) ≡ none
either_none true o h = refl
either_none false o h = h

-- Requests that are too large together are not merged.
try_merge-too_large :
    (allocated : Bool) (new r : StorageRequest) (max_count : ℕ)
    → max_count < new.count + r.count
    → new.count + r.count < 2 ^ 32
    → storage_try_merge_request allocated new r max_count ≡ none
unfolding storage_try_merge_request
try_merge-too_large allocated new r max_count h k =
    let t : ltb max_count (add32 new.count r.count) ≡ true = ground arith in
    either_none (not (same_rw new.rw r.rw)) _ (rw t refl)

-- The requests before `p`, all of `max_count` blocks if `n` further blocks are to come.
abbrev Before : ℕ → ℕ → ℕ → List StorageRequest → Type 0
Before max_count n p [] = Unit
Before max_count n p (r ∷ rs) =
    ((r.position ≤ p) × ((r.count ≤ max_count) × (0 < n → r.count ≡ max_count)))
    × Before max_count n p rs

Before-later :
    (max_count n n' p p' : ℕ) (rs : List StorageRequest)
    → p ≤ p'
    → 0 < n
    → Before max_count n p rs
    → Before max_count n' p' rs
Before-later max_count n n' p p' [] h k b = tt
Before-later max_count n n' p p' (r ∷ rs) h k b =
    ((omega (arith, b.0.0), (b.0.1.0, λ _. b.0.1.1 k)), Before-later max_count n n' p p' rs h k b.1)

Before-append :
    (max_count n p : ℕ) (rs : List StorageRequest) (r : StorageRequest)
    → Before max_count n p rs
    → Before max_count n p (r ∷ [])
    → Before max_count n p (rs ++ (r ∷ []))
Before-append max_count n p [] r h k = k
Before-append max_count n p (q ∷ rs) r h k = (h.0, Before-append max_count n p rs r h.1 k)

insert_request-behind :
    (allocated : Bool) (max_count n : ℕ) (new : StorageRequest) (queue : List StorageRequest)
    → 0 < n
    → 0 < new.count
    → new.count ≤ max_count
    → max_count + max_count < 2 ^ 32
    → Before max_count n new.position queue
    → insert_request allocated max_count new queue ≡ queue ++ (new ∷ [])
unfolding insert_request
insert_request-behind allocated max_count n new [] h c d m b = refl
insert_request-behind allocated max_count n new (r ∷ rs) h c d m b =
    let e = b.0.1.1 h in
    let apart = try_merge-too_large allocated new r max_count (omega arith) (omega arith) in
    let behind : ltb new.position r.position ≡ false = ground (arith, b.0.0) in
    rw (insert_request, apart, behind)
      (ap (λ t. r ∷ t) (insert_request-behind allocated max_count n new rs h c d m b.1))

-- A request that comes after others in the queue is put behind them.
add_request-behind :
    (allocated : Bool) (max_count n : ℕ) (is_busy : Bool) (new r : StorageRequest)
    (rs : List StorageRequest)
    → 0 < n
    → 0 < new.count
    → new.count ≤ max_count
    → max_count + max_count < 2 ^ 32
    → Before max_count n new.position (r ∷ rs)
    → storage_add_request allocated max_count is_busy new (r ∷ rs) ≡ (none, r ∷ (rs ++ (new ∷ [])))
unfolding storage_add_request
add_request-behind allocated max_count n is_busy new r rs h c d m b =
    ap (λ t. (none, t)) (insert_request-behind allocated max_count n new (r ∷ rs) h c d m b)

module _ (allocated : ℕ → Bool) (max_count : ℕ) (is_busy : ℕ → Bool)
    (small : max_count + max_count < 2 ^ 32) where
  add_requests-step :
      (i : ℕ) (new : BatchRequest) (requests : List BatchRequest) (queue : List StorageRequest)
      (o : Option StorageRequest) (queue' : List StorageRequest)
      → storage_add_request (allocated i) max_count (is_busy i) (request_of new) queue ≡ (o, queue')
      → add_requests allocated max_count is_busy i (new ∷ requests) queue
        ≡ submit o (add_requests allocated max_count is_busy (i + 1) requests queue')
  unfolding add_requests
  add_requests-step i new requests queue o queue' e =
      ap (λ t. submit t.0 (add_requests allocated max_count is_busy (i + 1) requests t.1)) e

  add_requests-behind :
      (i p n : ℕ) (requests : List BatchRequest) (r : StorageRequest) (rs : List StorageRequest)
      → FitsAll max_count p n requests
      → Before max_count n p (r ∷ rs)
      → add_requests allocated max_count is_busy i requests (r ∷ rs)
        ≡ record { submitted = []; queue = (r ∷ rs) ++ map request_of requests }
  unfolding add_requests
  add_requests-behind i p n [] r rs f b =
      ap (λ t. record { submitted = []; queue = r ∷ t }) (sym (append-nil rs))
  add_requests-behind i p n (new ∷ requests) r rs f b =
      let placed =
        add_request-behind (allocated i) max_count n (is_busy i) (request_of new) r rs
          (omega (arith, f.0.1)) f.0.1.0 (omega (arith, f.0.1.1)) small
          (subst⁻¹ (λ t. Before max_count n t (r ∷ rs)) f.0.0 b) in
      let b' =
        Before-append max_count (n - new.count) (p + new.count) (r ∷ rs) (request_of new)
          (Before-later max_count n _ p _ (r ∷ rs) (omega arith) (omega (arith, f.0.1)) b)
          ((omega (arith, f.0.0), (omega (arith, f.0.1.1), λ h. omega (arith, f.0.1.1, h))), tt) in
      let later =
        add_requests-behind (i + 1) (p + new.count) (n - new.count) requests r
          (rs ++ (request_of new ∷ [])) f.1 b' in
      add_requests-step i new requests (r ∷ rs) none _ placed
      ∙ later
      ∙ (ap (λ t. record { submitted = []; queue = r ∷ t })
          (append_assoc rs (request_of new ∷ []) (map request_of requests)))

  -- Whatever the device is busy with and whatever memory there is, the requests of one transfer are all
  -- kept in an empty queue: those that are submitted at once, followed by the queue, are the requests in
  -- their order, and none of them is merged.
  pub add_requests-keeps :
      (i p n : ℕ) (requests : List BatchRequest)
      → FitsAll max_count p n requests
      → (add_requests allocated max_count is_busy i requests []).submitted
          ++ (add_requests allocated max_count is_busy i requests []).queue
        ≡ map request_of requests
  unfolding add_requests storage_add_request insert_request
  add_requests-keeps i p n [] f = refl
  add_requests-keeps i p n (new ∷ requests) f = elim (Bool-cases (is_busy i)) [
    | inl busy ↦
        let placed =
          add_requests-behind (i + 1) (p + new.count) (n - new.count) requests (request_of new) []
            f.1
            (
              (omega (arith, f.0.0), (omega (arith, f.0.1.1), λ h. omega (arith, f.0.1.1, h))),
              tt,
            ) in
        rw (busy, placed) refl
    | inr idle ↦
        let later = add_requests-keeps (i + 1) (p + new.count) (n - new.count) requests f.1 in
        rw idle (ap (λ t. request_of new ∷ t) later)
  ]

-- If there is memory for the requests, the device takes between 1 and 2 ^ 31 - 1 blocks at a time and the
-- transfer ends below block 2 ^ 32 and address 2 ^ 64, a transfer that finds the queue empty is kept whole:
-- whatever the device is busy with, the requests that are submitted at once, followed by those in the
-- queue, are those of the transfer in their order, and they transfer exactly its blocks, each at its place
-- of the buffer.
pub generate-add_requests :
    (has_memory allocated is_busy : ℕ → Bool) (device : StorageDevice) (write : Bool)
    (buf position count : ℕ)
    → ((i : ℕ) → has_memory i ≡ true)
    → 0 < device.max_block_per_request
    → device.max_block_per_request + device.max_block_per_request < 2 ^ 32
    → position + count < 2 ^ 32
    → buf + count * device.block_size < 2 ^ 64
    → (requests : List BatchRequest) × ((storage_generate_request has_memory device write buf
            position count
          ≡ generated requests)
        × ((blocks_of device.block_size requests ≡ blocks count position buf device.block_size)
            × ((add_requests allocated device.max_block_per_request is_busy 0 requests []).submitted
                  ++ (add_requests allocated device.max_block_per_request is_busy 0 requests
                      []).queue
                ≡ map request_of requests)))
generate-add_requests has_memory allocated is_busy device write buf position count all h small p b =
    let made =
      storage_generate_request-blocks has_memory device write buf position count all h (omega arith)
        p b in
    (
      made.0,
      (
        made.1.0,
        (
          made.1.1.1,
          add_requests-keeps allocated device.max_block_per_request is_busy small 0 position count
              made.0 made.1.1.0,
        ),
      ),
    )
