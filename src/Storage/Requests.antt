-- ===== src/Storage/Requests.antt =====
-- The queue of requests of src/driver/storage/storage_io_queue.c: requests that touch are merged, the
-- others are kept by their position. Locks are left out: the calls come one after another.
pub mod Merge
pub mod Order
mod Tests
use horizon_operating_system.Common.{
  ℕ, ◌+◌, ◌-◌, ◌%◌, ◌^◌, min, max, List, [], ◌∷◌, ◌++◌, Bool, true, false, ◌&&◌, ◌||◌, not, Option,
  none, some, ltb, add32, u32_mod, if◌then◌else◌,
}

-- What a request of the chain `next_merged_request` asks for.
pub record Part : Type 0 where
  pub position : ℕ
  pub count : ℕ

-- `position` is a 64-bit word and `count` a 32-bit word; `next_merged` is the chain behind it.
pub record StorageRequest : Type 0 where
  pub rw : Bool
  pub position : ℕ
  pub count : ℕ
  pub next_merged : List Part

abbrev pub part_of : StorageRequest → Part
part_of r = record { position = r.position; count = r.count }

-- `position + count`.
abbrev pub end_of : ℕ → ℕ → ℕ
end_of position count = (position + count) % 2 ^ 64

-- The difference of two positions, stored in a `uint32_t`.
abbrev pub blocks_between : ℕ → ℕ → ℕ
blocks_between start stop = (stop + (2 ^ 64 - start)) % u32_mod

unfoldable pub storage_modify_merged_request : StorageRequest → StorageRequest → StorageRequest
storage_modify_merged_request new request =
    let position = min request.position new.position in
    record request {
      position = position;
      count =
          blocks_between position
            (max (end_of new.position new.count) (end_of position request.count));
      next_merged = request.next_merged ++ (part_of new ∷ []);
    }

-- The request that takes the place of `request`; `none` if there is no memory for it.
unfoldable pub storage_new_merge_request :
    Bool → StorageRequest → StorageRequest → Option StorageRequest
storage_new_merge_request allocated new request =
    let position = min new.position request.position in
    if not allocated
    then none
    else some (record {
      rw = new.rw;
      position = position;
      count =
          blocks_between position
            (max (end_of new.position new.count) (end_of request.position request.count));
      next_merged = part_of request ∷ part_of new ∷ [];
    })

abbrev pub same_rw : Bool → Bool → Bool
same_rw true b = b
same_rw false b = not b

-- Whether `next_merged_request` is NULL.
abbrev pub not_merged : List Part → Bool
not_merged [] = true
not_merged (p ∷ ps) = false

-- The request that stands in the place of `request`, then; `none` if they are not merged.
unfoldable pub storage_try_merge_request :
    Bool → StorageRequest → StorageRequest → ℕ → Option StorageRequest
storage_try_merge_request allocated new request max_count =
    if not (same_rw new.rw request.rw)
    then none
    else if ltb max_count (add32 new.count request.count)
    then none
    else if ltb (end_of new.position new.count) request.position
        || ltb (end_of request.position request.count) new.position
    then none
    else if not (not_merged request.next_merged)
    then some (storage_modify_merged_request new request)
    else storage_new_merge_request allocated new request

-- The loop of `storage_add_request` over the queue.
unfoldable pub insert_request :
    Bool → ℕ → StorageRequest → List StorageRequest → List StorageRequest
insert_request allocated max_count new [] = new ∷ []
insert_request allocated max_count new (r ∷ rs) =
    let later = r ∷ insert_request allocated max_count new rs in
    elim (storage_try_merge_request allocated new r max_count) [
      | some merged ↦ merged ∷ rs
      | none ↦ if ltb new.position r.position then new ∷ r ∷ rs else later
    ]

abbrev pub no_requests : List StorageRequest → Bool
no_requests [] = true
no_requests (r ∷ rs) = false

-- The request that is submitted at once, if one is, and the queue.
unfoldable pub storage_add_request :
    Bool
    → ℕ
    → Bool
    → StorageRequest
    → List StorageRequest
    → Option StorageRequest × List StorageRequest
storage_add_request allocated max_count is_busy new queue =
    if no_requests queue && not is_busy
    then (some new, queue)
    else (none, insert_request allocated max_count new queue)
