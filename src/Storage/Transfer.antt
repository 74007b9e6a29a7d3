-- ===== src/Storage/Transfer.antt =====
-- The transfers of src/driver/storage/storage_io.c: a transfer is split into requests that the device can
-- take, which go to its queue one after another. A `size_t` and a pointer have 64 bits. Whether there is
-- memory, and whether the device is busy, is a function of the request's number in the transfer.

pub mod Split
pub mod Queued
pub mod Done
mod Tests
use horizon_operating_system.Common.{
  ℕ, zero, suc, ◌+◌, ◌-◌, ◌*◌, ◌/◌, ◌%◌, ◌^◌, min, List, [], ◌∷◌, Bool, true, false, not, Option,
  none, some, leb, ◌==◌, ◌||◌, add32, sub32, u32_mod, if◌then◌else◌,
}
use horizon_operating_system.Storage.Requests.{StorageRequest, storage_add_request}

-- The fields that the transfers use.
pub record StorageDevice : Type 0 where
  pub block_size : ℕ
  pub max_block_per_request : ℕ

-- A request as `storage_generate_request` makes it, before it is queued.
pub record BatchRequest : Type 0 where
  pub rw : Bool
  pub position : ℕ
  pub count : ℕ
  pub buf : ℕ

-- `*request_list`, or how the call ends without it.
pub data Generated : Type 0 where
  divide_error : Generated
  out_of_memory : Generated
  generated : List BatchRequest → Generated

unfoldable pub storage_check_request_size : StorageDevice → BatchRequest → Bool
storage_check_request_size device request = leb request.count device.max_block_per_request

-- The loop, at number `i` with `left` requests to go; `none` if there is no memory for one of them.
unfoldable pub split_requests :
    ℕ → (ℕ → Bool) → StorageDevice → Bool → ℕ → ℕ → ℕ → ℕ → Option (List BatchRequest)
split_requests zero has_memory device rw buf i remaining_blocks current_position = some []
split_requests (suc left) has_memory device rw buf i remaining_blocks current_position =
    let current_count = min remaining_blocks device.max_block_per_request in
    let request : BatchRequest = record {
      rw = rw;
      position = current_position;
      count = current_count;
      buf = (buf + i * device.max_block_per_request * device.block_size % 2 ^ 64) % 2 ^ 64;
    } in
    let rest =
      split_requests left has_memory device rw buf (i + 1) (sub32 remaining_blocks current_count)
        (add32 current_position current_count) in
    if has_memory i
    then elim rest [ none ↦ none | some requests ↦ some (request ∷ requests) ]
    else none

-- `DIV_ROUND_UP` on a `size_t`.
abbrev pub div_round_up : ℕ → ℕ → ℕ
div_round_up x step = ((x + step) % 2 ^ 64 + (2 ^ 64 - 1)) % 2 ^ 64 / step

abbrev pub generated_of : Option (List BatchRequest) → Generated
generated_of none = out_of_memory
generated_of (some requests) = generated requests

-- `storage_generate_request`, up to the queue.
unfoldable pub storage_generate_request : (ℕ → Bool) → StorageDevice → Bool → ℕ → ℕ → ℕ → Generated
unfolding split_requests
storage_generate_request has_memory device rw buf position count =
    let max_count = device.max_block_per_request in
    let num_requests = div_round_up count max_count % u32_mod in
    if max_count == 0
    then divide_error
    else generated_of (
        split_requests num_requests has_memory device rw buf 0 (count % u32_mod)
          (position % u32_mod))

abbrev pub request_of : BatchRequest → StorageRequest
request_of r = record { rw = r.rw; position = r.position; count = r.count; next_merged = [] }

-- What is submitted, in this order, and the queue.
pub record Queues : Type 0 where
  pub submitted : List StorageRequest
  pub queue : List StorageRequest

abbrev pub submit : Option StorageRequest → Queues → Queues
submit none q = q
submit (some r) q = record q { submitted = r ∷ q.submitted }

-- The second loop of `storage_generate_request`.
unfoldable pub add_requests :
    (ℕ → Bool) → ℕ → (ℕ → Bool) → ℕ → List BatchRequest → List StorageRequest → Queues
unfolding storage_add_request
add_requests allocated max_count is_busy i [] queue = record { submitted = []; queue = queue }
add_requests allocated max_count is_busy i (r ∷ rs) queue =
    let added = storage_add_request (allocated i) max_count (is_busy i) (request_of r) queue in
    submit added.0 (add_requests allocated max_count is_busy (i + 1) rs added.1)

pub data TransferResult : Type 0 where
  transfer_ok : TransferResult
  transfer_error_not_implemented : TransferResult
  transfer_error_not_supported : TransferResult
  transfer_error_invalid_parameter : TransferResult
  transfer_error_no_memory : TransferResult
  transfer_error_failed : TransferResult
  transfer_error_other : TransferResult
  transfer_error_exceed_max_size : TransferResult

-- What `storage_transfer` returns, once all requests are done; `none` is the error of the division.
unfoldable pub storage_transfer : Generated → Option TransferResult
storage_transfer divide_error = none
storage_transfer out_of_memory = some transfer_error_failed
storage_transfer (generated requests) = some transfer_ok

-- What `storage_transfer_async` returns, and `*handle` where it is set.
unfoldable pub storage_transfer_async :
    Generated → Option (TransferResult × Option (List BatchRequest))
storage_transfer_async divide_error = none
storage_transfer_async out_of_memory = some (transfer_ok, none)
storage_transfer_async (generated requests) = some (transfer_ok, some requests)

-- A request on its way: the number of its device, and whether it is finished.
pub record Pending : Type 0 where
  pub storage_device : ℕ
  pub is_finished : Bool

abbrev pub all_finished : List Pending → Bool
all_finished [] = true
all_finished (req ∷ batch_next) = if not req.is_finished then false else all_finished batch_next

-- `*handle` is the batch from `req` on. The result comes with `*done` where it is set.
unfoldable pub storage_is_transfer_done :
    Bool → Bool → ℕ → Pending → List Pending → Bool → TransferResult × Option Bool
storage_is_transfer_done is_device is_storage storage_device req batch_next has_done =
    if not is_device
    then (transfer_error_invalid_parameter, none)
    else if not is_storage
    then (transfer_error_invalid_parameter, none)
    else if not (req.storage_device == storage_device) || not has_done
    then (transfer_error_invalid_parameter, none)
    else (transfer_ok, some (all_finished (req ∷ batch_next)))
