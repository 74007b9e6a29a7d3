-- ===== src/Storage/Requests/Tests.antt =====
-- Requests of src/driver/storage/storage_io_queue.c on concrete blocks, and the theorems about them
-- there.
use horizon_operating_system.Common.{ℕ, ◌≡◌, refl, List, [], ◌∷◌, true, false, some, arith}
use horizon_operating_system.Storage.Requests.{
  StorageRequest, storage_new_merge_request, storage_try_merge_request, insert_request,
  storage_add_request,
}
use horizon_operating_system.Storage.Requests.Order.{IsSorted, add_request-IsSorted}

abbrev blocks : ℕ → ℕ → StorageRequest
blocks position count = record { rw = false; position = position; count = count; next_merged = [] }

-- The blocks from 5 up to 10, merged with those from 10 up to 20.
abbrev both : StorageRequest
both = record {
  rw = false;
  position = 5;
  count = 15;
  next_merged = record { position = 10; count = 10 } ∷ record { position = 5; count = 5 } ∷ [];
}

merges : storage_new_merge_request true (blocks 5 5) (blocks 10 10) ≡ some both
unfolding storage_new_merge_request
merges = refl

abbrev queue : List StorageRequest
queue = blocks 10 10 ∷ blocks 40 8 ∷ []

add_request-IsSorted_example : IsSorted (storage_add_request true 64 true (blocks 30 2) queue).1
add_request-IsSorted_example =
    add_request-IsSorted true 64 true (blocks 30 2) queue ((omega arith, tt), (tt, tt))

puts_between :
    (storage_add_request true 64 true (blocks 30 2) queue).1
    ≡ blocks 10 10 ∷ blocks 30 2 ∷ blocks 40 8 ∷ []
unfolding storage_add_request insert_request storage_try_merge_request
puts_between = refl
