-- ===== src/Storage/Transfer/Tests.antt =====
-- Transfers of src/driver/storage/storage_io.c on concrete devices, and the theorems about them there.
use horizon_operating_system.Common.{
  ℕ, ◌≡◌, refl, List, [], ◌∷◌, ◌++◌, map, Bool, true, false, arith, ltb,
}
use horizon_operating_system.Storage.Transfer.{
  StorageDevice, BatchRequest, generated, out_of_memory, divide_error, split_requests,
  storage_generate_request, add_requests, request_of, Pending,
}
use horizon_operating_system.Storage.Transfer.Split.{blocks, blocks_of}
use horizon_operating_system.Storage.Transfer.Queued.{generate-add_requests}

-- A disk with sectors of 512 bytes that takes 8 of them at a time.
abbrev disk : StorageDevice
disk = record { block_size = 512; max_block_per_request = 8 }

abbrev piece : ℕ → ℕ → ℕ → BatchRequest
piece position count buf = record { rw = false; position = position; count = count; buf = buf }

abbrev pieces : List BatchRequest
pieces = piece 100 8 0x1000 ∷ piece 108 8 0x2000 ∷ piece 116 4 0x3000 ∷ []

splits : storage_generate_request (λ _. true) disk false 0x1000 100 20 ≡ generated pieces
unfolding storage_generate_request split_requests
splits = refl

-- There is memory for the first request only.
no_memory : storage_generate_request (λ i. ltb i 1) disk false 0x1000 100 20 ≡ out_of_memory
unfolding storage_generate_request split_requests
no_memory = refl

no_blocks_per_request :
    storage_generate_request
      (λ _. true)
      (record disk { max_block_per_request = 0 })
      false
      0x1000
      100
      20
    ≡ divide_error
unfolding storage_generate_request
no_blocks_per_request = refl

-- The device is busy from the second request on.
abbrev busy_soon : ℕ → Bool
busy_soon i = ltb 0 i

generate-add_requests_example :
    (requests : List BatchRequest) × ((storage_generate_request (λ _. true) disk false 0x1000 100 20
        ≡ generated requests)
      × ((blocks_of 512 requests ≡ blocks 20 100 0x1000 512)
          × ((add_requests (λ _. true) 8 busy_soon 0 requests []).submitted
                ++ (add_requests (λ _. true) 8 busy_soon 0 requests []).queue
              ≡ map request_of requests)))
generate-add_requests_example =
    generate-add_requests (λ _. true) (λ _. true) busy_soon disk false 0x1000 100 20 (λ _. refl)
      (omega arith) (omega arith) (omega arith) (omega arith)

abbrev three : ℕ
three = 3

abbrev pending : Bool → Pending
pending finished = record { storage_device = 3; is_finished = finished }
