-- ===== src/Storage/Transfer/Done.antt =====
-- What storage_is_transfer_done of src/driver/storage/storage_io.c tells about a batch of requests.
use horizon_operating_system.Common.{ℕ, ◌≡◌, refl, ◌↔◌, List, [], ◌∷◌, Bool, true, some, arith}
use horizon_operating_system.Storage.Transfer.{
  Pending, transfer_ok, all_finished, storage_is_transfer_done,
}

abbrev pub AllFinished : List Pending → Type 0
AllFinished [] = Unit
AllFinished (req ∷ batch_next) = (req.is_finished ≡ true) × AllFinished batch_next

all_finished-AllFinished : (batch : List Pending) → (all_finished batch ≡ true) ↔ AllFinished batch
all_finished-AllFinished [] = (λ _. tt, λ _. refl)
all_finished-AllFinished (req ∷ batch_next) = ground (arith, all_finished-AllFinished batch_next)

-- storage_is_transfer_done reports success with `*done` true exactly if it is called on a storage device
-- with a place for the answer, the first request is for that device, and every request of the batch is
-- finished.
pub storage_is_transfer_done-AllFinished :
    (is_device is_storage : Bool) (storage_device : ℕ) (req : Pending) (batch_next : List Pending)
    (has_done : Bool)
    → (storage_is_transfer_done is_device is_storage storage_device req batch_next has_done
        ≡ (transfer_ok, some true))
      ↔ (((is_device ≡ true) × (is_storage ≡ true))
          × (((req.storage_device ≡ storage_device) × (has_done ≡ true))
              × AllFinished (req ∷ batch_next)))
unfolding storage_is_transfer_done
storage_is_transfer_done-AllFinished is_device is_storage storage_device req batch_next has_done =
    ground (arith, all_finished-AllFinished (req ∷ batch_next))
