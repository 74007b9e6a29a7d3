-- ===== src/Storage/Requests/Merge.antt =====
-- Which blocks a merged request of src/driver/storage/storage_io_queue.c covers.
use horizon_operating_system.Common.{
  ℕ, ◌+◌, ◌-◌, ◌^◌, ◌≡◌, ◌≤◌, ◌<◌, ◌⊎◌, ◌↔◌, sym, ap, min, max, true, Option, none, some, arith,
  u32_mod,
}
use horizon_operating_system.Storage.Requests.{
  StorageRequest, end_of, blocks_between, storage_modify_merged_request, storage_new_merge_request,
}

-- The blocks of a request, and that its end is a position.
abbrev pub Covers : StorageRequest → ℕ → Type 0
Covers r block = (r.position ≤ block) × (block < r.position + r.count)

abbrev pub IsPlaced : StorageRequest → Type 0
IsPlaced r = r.position + r.count < 2 ^ 64

-- No block lies between the two.
abbrev pub Touch : StorageRequest → StorageRequest → Type 0
Touch a b = (b.position ≤ a.position + a.count) × (a.position ≤ b.position + b.count)

abbrev position_of : Option StorageRequest → ℕ
position_of none = 0
position_of (some r) = r.position

abbrev count_of : Option StorageRequest → ℕ
count_of none = 0
count_of (some r) = r.count

-- `storage_new_merge_request` merges two requests that touch and have fewer than 2 ^ 32 blocks
-- together into one that covers the blocks of both and no others.
pub new_merge-Covers :
    (new request m : StorageRequest) (block : ℕ)
    → IsPlaced new × IsPlaced request
    → Touch new request × (new.count + request.count < u32_mod)
    → storage_new_merge_request true new request ≡ some m
    → Covers m block ↔ (Covers new block ⊎ Covers request block)
unfolding storage_new_merge_request
new_merge-Covers new request m block p t e =
    let start : min new.position request.position ≡ m.position = ap position_of e in
    let size : blocks_between (min new.position request.position)
          (max (end_of new.position new.count) (end_of request.position request.count))
        ≡ m.count =
      ap count_of e in
    let position_lem : m.position ≡ min new.position request.position = sym start in
    let end_lem : m.position + m.count
        ≡ max (new.position + new.count) (request.position + request.count) =
      omega (arith, start, size, p.0, p.1, t.0.0, t.0.1, t.1) in
    ground (arith, position_lem, end_lem)

-- If a request is merged into one that starts behind it and ends behind it, and that is merged
-- already, the last block of that one is not covered any more.
pub modify_loses_block :
    (new request : StorageRequest)
    → IsPlaced new × IsPlaced request
    → Touch new request × (new.count + request.count < u32_mod)
    → new.position < request.position
    → new.position + new.count < request.position + request.count
    → Covers request (request.position + request.count - 1)
      × (storage_modify_merged_request new request).position
          + (storage_modify_merged_request new request).count
        ≤ request.position + request.count - 1
unfolding storage_modify_merged_request
modify_loses_block new request p t h k =
    ((omega arith, omega arith), omega (arith, p.0, p.1, t.0.0, t.0.1, t.1, h, k))
