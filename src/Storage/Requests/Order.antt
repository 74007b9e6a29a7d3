-- ===== src/Storage/Requests/Order.antt =====
-- The order of the queue of src/driver/storage/storage_io_queue.c.
use horizon_operating_system.Common.{
  ℕ, ◌≡◌, ◌≤◌, ◌<◌, ◌⊎◌, inl, inr, refl, sym, ap, ◌∙◌, min, Bool, true, false, Bool-cases, Option,
  none, some, Option-cases, List, [], ◌∷◌, arith, ltb, not, add32, ◌&&◌, ◌||◌, if◌then◌else◌,
}
use mathlib.Core.Path.{subst⁻¹}
use horizon_operating_system.Storage.Requests.{
  StorageRequest, storage_try_merge_request, storage_new_merge_request,
  storage_modify_merged_request, insert_request, storage_add_request, same_rw, not_merged, end_of,
  no_requests,
}

abbrev pub AllFrom : ℕ → List StorageRequest → Type 0
AllFrom p [] = Unit
AllFrom p (r ∷ rs) = (p ≤ r.position) × AllFrom p rs

abbrev pub IsSorted : List StorageRequest → Type 0
IsSorted [] = Unit
IsSorted (r ∷ rs) = AllFrom r.position rs × IsSorted rs

AllFrom-le : (p q : ℕ) (rs : List StorageRequest) → p ≤ q → AllFrom q rs → AllFrom p rs
AllFrom-le p q [] h f = tt
AllFrom-le p q (r ∷ rs) h f = (omega (arith, f.0), AllFrom-le p q rs h f.1)

abbrev position_or : ℕ → Option StorageRequest → ℕ
position_or p none = p
position_or p (some r) = r.position

position_or-test :
    (p : ℕ) (b : Bool) (o : Option StorageRequest)
    → position_or p o ≡ p
    → position_or p (if b then none else o) ≡ p
position_or-test p true o h = refl
position_or-test p false o h = h

position_or-either :
    (p : ℕ) (b : Bool) (o o' : Option StorageRequest)
    → position_or p o ≡ p
    → position_or p o' ≡ p
    → position_or p (if b then o else o') ≡ p
position_or-either p true o o' h k = h
position_or-either p false o o' h k = k

-- Whatever two requests are merged into starts where the first of them does.
try_merge-position_or :
    (allocated : Bool) (new r : StorageRequest) (max_count : ℕ)
    → position_or
        (min new.position r.position)
        (storage_try_merge_request allocated new r max_count)
      ≡ min new.position r.position
unfolding storage_try_merge_request storage_new_merge_request storage_modify_merged_request
try_merge-position_or allocated new r max_count =
    let p = min new.position r.position in
    let swapped : min r.position new.position ≡ p = omega arith in
    position_or-test p (not (same_rw new.rw r.rw)) _ (
      position_or-test p (ltb max_count (add32 new.count r.count)) _ (
        position_or-test p
          (ltb (end_of new.position new.count) r.position
            || ltb (end_of r.position r.count) new.position)
          _
          (position_or-either p (not (not_merged r.next_merged)) _ _ swapped
            (position_or-test p (not allocated) _ refl))))

try_merge-position :
    (allocated : Bool) (new r m : StorageRequest) (max_count : ℕ)
    → storage_try_merge_request allocated new r max_count ≡ some m
    → m.position ≡ min new.position r.position
try_merge-position allocated new r m max_count e =
    sym (ap (position_or (min new.position r.position)) e)
    ∙ try_merge-position_or allocated new r max_count

insert_request-merged :
    (allocated : Bool) (max_count : ℕ) (new r m : StorageRequest) (rs : List StorageRequest)
    → storage_try_merge_request allocated new r max_count ≡ some m
    → insert_request allocated max_count new (r ∷ rs) ≡ m ∷ rs
unfolding insert_request
insert_request-merged allocated max_count new r m rs e = rw (insert_request, e) refl

insert_request-placed :
    (allocated : Bool) (max_count : ℕ) (new r : StorageRequest) (rs : List StorageRequest)
    → storage_try_merge_request allocated new r max_count ≡ none
    → insert_request allocated max_count new (r ∷ rs) ≡ (
        if ltb new.position r.position
        then new ∷ r ∷ rs
        else r ∷ insert_request allocated max_count new rs)
unfolding insert_request
insert_request-placed allocated max_count new r rs e = rw (insert_request, e) refl

insert-nil :
    (allocated : Bool) (max_count : ℕ) (new : StorageRequest) (p : ℕ)
    → p ≤ new.position
    → AllFrom p (insert_request allocated max_count new [])
unfolding insert_request
insert-nil allocated max_count new p h = (h, tt)

insert-IsSorted_nil :
    (allocated : Bool) (max_count : ℕ) (new : StorageRequest)
    → IsSorted (insert_request allocated max_count new [])
unfolding insert_request
insert-IsSorted_nil allocated max_count new = (tt, tt)

if-either :
    (b : Bool) (x y : Option StorageRequest × List StorageRequest)
    → IsSorted x.1
    → IsSorted y.1
    → IsSorted (if b then x else y).1
if-either true x y h k = h
if-either false x y h k = k

-- Merged, put before the request, or further on.
insert_request-cases :
    (allocated : Bool) (max_count : ℕ) (new r : StorageRequest) (rs : List StorageRequest)
    → ((m : StorageRequest) × ((m.position ≡ min new.position r.position)
          × (insert_request allocated max_count new (r ∷ rs) ≡ m ∷ rs)))
      ⊎ (((new.position < r.position)
            × (insert_request allocated max_count new (r ∷ rs) ≡ new ∷ r ∷ rs))
          ⊎ ((r.position ≤ new.position)
              × (insert_request allocated max_count new (r ∷ rs)
                  ≡ r ∷ insert_request allocated max_count new rs)))
insert_request-cases allocated max_count new r rs =
    elim (Option-cases (storage_try_merge_request allocated new r max_count)) [
      | inl e ↦
          let placed = insert_request-placed allocated max_count new r rs e in
          elim (Bool-cases (ltb new.position r.position)) [
            | inl before ↦ inr (inl (ground arith, rw before at placed))
            | inr behind ↦ inr (inr (ground arith, rw behind at placed))
          ]
      | inr m ↦ inl (
        m.0,
        (
          try_merge-position allocated new r m.0 max_count m.1,
          insert_request-merged allocated max_count new r m.0 rs m.1,
        ),
      )
    ]

insert_request-AllFrom :
    (allocated : Bool) (max_count : ℕ) (new : StorageRequest) (p : ℕ) (rs : List StorageRequest)
    → p ≤ new.position
    → AllFrom p rs
    → AllFrom p (insert_request allocated max_count new rs)
insert_request-AllFrom allocated max_count new p [] h f = insert-nil allocated max_count new p h
insert_request-AllFrom allocated max_count new p (r ∷ rs) h f =
    elim (insert_request-cases allocated max_count new r rs) [
      | inl m ↦ subst⁻¹ (AllFrom p) m.1.1 (omega (arith, m.1.0, f.0), f.1)
      | inr (inl before) ↦ subst⁻¹ (AllFrom p) before.1 (h, f)
      | inr (inr behind) ↦
          subst⁻¹ (AllFrom p) behind.1
            (f.0, insert_request-AllFrom allocated max_count new p rs h f.1)
    ]

insert_request-IsSorted :
    (allocated : Bool) (max_count : ℕ) (new : StorageRequest) (rs : List StorageRequest)
    → IsSorted rs
    → IsSorted (insert_request allocated max_count new rs)
insert_request-IsSorted allocated max_count new [] h = insert-IsSorted_nil allocated max_count new
insert_request-IsSorted allocated max_count new (r ∷ rs) h =
    elim (insert_request-cases allocated max_count new r rs) [
      | inl m ↦
          subst⁻¹ IsSorted m.1.1
            (AllFrom-le (m.0).position r.position rs (omega (arith, m.1.0)) h.0, h.1)
      | inr (inl before) ↦ subst⁻¹ IsSorted before.1 (
        (
          omega (arith, before.0),
          AllFrom-le new.position r.position rs (omega (arith, before.0)) h.0,
        ),
        h,
      )
      | inr (inr behind) ↦ subst⁻¹ IsSorted behind.1 (
        insert_request-AllFrom allocated max_count new r.position rs behind.0 h.0,
        insert_request-IsSorted allocated max_count new rs h.1,
      )
    ]

-- `storage_add_request` keeps the queue in the order of the positions, whether it submits the
-- request, merges it or puts it in.
pub add_request-IsSorted :
    (allocated : Bool) (max_count : ℕ) (is_busy : Bool) (new : StorageRequest)
    (queue : List StorageRequest)
    → IsSorted queue
    → IsSorted (storage_add_request allocated max_count is_busy new queue).1
unfolding storage_add_request
add_request-IsSorted allocated max_count is_busy new queue h =
    if-either (no_requests queue && not is_busy) (some new, queue)
      (none, insert_request allocated max_count new queue) h
      (insert_request-IsSorted allocated max_count new queue h)
