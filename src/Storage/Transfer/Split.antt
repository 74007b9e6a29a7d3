-- ===== src/Storage/Transfer/Split.antt =====
-- How storage_generate_request of src/driver/storage/storage_io.c divides a transfer.
use horizon_operating_system.Common.{
  ℕ, zero, suc, ◌+◌, ◌-◌, ◌*◌, ◌%◌, ◌≤◌, ◌<◌, ◌≡◌, refl, ap, ◌∙◌, min, List, [], ◌∷◌, ◌++◌, Bool,
  true, false, some, arith, add32, sub32, u32_mod, ◌==◌, ◌^◌, dec_lt,
}
use native.Mathlib.Nat.{mul-le-mul_right, mod-eq_of_lt, div-add-mod, mod-lt}
use horizon_operating_system.Storage.Transfer.{
  StorageDevice, BatchRequest, generated, split_requests, div_round_up, storage_generate_request,
}

-- `n` blocks from `position` on, with the address that the contents of each have in memory.
unfoldable pub blocks : ℕ → ℕ → ℕ → ℕ → List (ℕ × ℕ)
blocks zero position buf block_size = []
blocks (suc n) position buf block_size =
    (position, buf) ∷ blocks n (position + 1) (buf + block_size) block_size

-- The blocks that the requests transfer, in their order.
unfoldable pub blocks_of : ℕ → List BatchRequest → List (ℕ × ℕ)
unfolding blocks
blocks_of block_size [] = []
blocks_of block_size (r ∷ rs) =
    blocks r.count r.position r.buf block_size ++ blocks_of block_size rs

-- The requests for `n` blocks from `p` on stand one behind the other, and each is for as many blocks as
-- are left and the device takes, at least one.
abbrev pub FitsAll : ℕ → ℕ → ℕ → List BatchRequest → Type 0
FitsAll max_count p n [] = n ≡ 0
FitsAll max_count p n (r ∷ rs) =
    ((r.position ≡ p) × ((0 < r.count) × (r.count ≡ min n max_count)))
    × FitsAll max_count (p + r.count) (n - r.count) rs

blocks-append :
    (m n p b s : ℕ) → blocks m p b s ++ blocks n (p + m) (b + m * s) s ≡ blocks (m + n) p b s
unfolding blocks
blocks-append zero n p b s =
    let e : p + 0 ≡ p = omega arith in
    let f : b + 0 * s ≡ b = omega arith in let g : 0 + n ≡ n = omega arith in rw (e, f, g) refl
blocks-append (suc m) n p b s =
    let e : p + suc m ≡ p + 1 + m = omega arith in
    let f : b + suc m * s ≡ b + s + m * s = omega arith in
    let g : suc m + n ≡ suc (m + n) = omega arith in
    rw (e, f, g) (ap (λ t. (p, b) ∷ t) (blocks-append m n (p + 1) (b + s) s))

-- How the loop goes on after a request, with `r` blocks left behind it.
split-step :
    (left : ℕ) (has_memory : ℕ → Bool) (device : StorageDevice) (write : Bool)
    (buf i remaining position at r : ℕ) (rest : List BatchRequest)
    → has_memory i ≡ true
    → r + min remaining device.max_block_per_request ≡ remaining
    → position + remaining < 2 ^ 32
    → (buf + i * device.max_block_per_request * device.block_size % 2 ^ 64) % 2 ^ 64 ≡ at
    → split_requests left has_memory device write buf
        (i + 1)
        r
        (position + min remaining device.max_block_per_request)
      ≡ some rest
    → split_requests (suc left) has_memory device write buf i remaining position
      ≡ some (
          record {
            rw = write;
            position = position;
            count = min remaining device.max_block_per_request;
            buf = at;
          }
          ∷ rest)
unfolding split_requests
split-step left has_memory device write buf i remaining position at r rest m s h a next =
    let f : sub32 remaining (min remaining device.max_block_per_request) ≡ r = omega arith in
    let g : add32 position (min remaining device.max_block_per_request)
        ≡ position + min remaining device.max_block_per_request =
      omega arith in
    rw (m, f, g, next, a) refl

module _ (has_memory : ℕ → Bool) (all_memory : (i : ℕ) → has_memory i ≡ true)
    (device : StorageDevice) (write : Bool) (buf : ℕ) where
  -- The loop, where the next request's contents are at `at`.
  split_requests-blocks :
      (left i remaining position at : ℕ)
      → 0 < device.max_block_per_request
      → remaining ≤ left * device.max_block_per_request
      → left * device.max_block_per_request < remaining + device.max_block_per_request
      → position + remaining < 2 ^ 32
      → at + remaining * device.block_size < 2 ^ 64
      → (0 < remaining → at ≡ buf + i * device.max_block_per_request * device.block_size)
      → (requests : List BatchRequest) × ((split_requests left has_memory device write buf i
              remaining position
            ≡ some requests)
          × (FitsAll device.max_block_per_request position remaining requests
              × (blocks_of device.block_size requests
                  ≡ blocks remaining position at device.block_size)))
  unfolding split_requests blocks_of blocks
  split_requests-blocks zero i remaining position at h0 h1 h2 h3 h4 h5 =
      let e : remaining ≡ 0 = omega arith in ([], (refl, (e, rw e refl)))
  split_requests-blocks (suc left) i remaining position at h0 h1 h2 h3 h4 h5 =
      let m = device.max_block_per_request in
      let s = device.block_size in
      let c = min remaining m in
      let r = remaining - c in
      let full : 0 < r → c ≡ m = λ h. omega arith in
      let whole : c + r ≡ remaining = omega arith in
      let parts : c * s + r * s ≡ remaining * s = omega (arith, ap (λ t. t * s) whole) in
      let later =
        split_requests-blocks left (i + 1) r (position + c) (at + c * s) h0 (omega arith)
          (omega arith) (omega arith) (omega (arith, parts))
          (λ h. omega (arith, h5 (omega arith), ap (λ t. t * s) (full h))) in
      let here : (buf + i * m * s % 2 ^ 64) % 2 ^ 64 ≡ at =
        omega (arith, h5 (omega arith), parts) in
      (
        record { rw = write; position = position; count = c; buf = at } ∷ later.0,
        (
          split-step left has_memory device write buf i remaining position at r later.0
              (all_memory i) (omega arith) (omega arith) here later.1.0,
          (
            ((refl, (omega arith, refl)), later.1.1.0),
            rw later.1.1.1
                (blocks-append c r position at s ∙ ap (λ t. blocks t position at s) whole),
          ),
        ),
      )

-- `DIV_ROUND_UP` gives as many requests as it takes, and no more.
div_round_up-enough :
    (count max_count : ℕ)
    → 0 < max_count
    → max_count < 2 ^ 32
    → count < 2 ^ 32
    → (count ≤ div_round_up count max_count * max_count)
      × (div_round_up count max_count * max_count < count + max_count)
div_round_up-enough count max_count h k c =
    let x = count + max_count - 1 in
    let e : ((count + max_count) % 2 ^ 64 + (2 ^ 64 - 1)) % 2 ^ 64 ≡ x = omega arith in
    rw e
      (omega (arith, div-add-mod x max_count, mod-lt x h), omega (arith, div-add-mod x max_count))

few_requests :
    (n count max_count : ℕ) → 0 < max_count → n * max_count < count + max_count → n ≤ count
few_requests n count zero h k = absurd (omega arith)
few_requests n count (suc m) h k = elim (dec_lt count n) [
  | yes l ↦ absurd (omega (arith, mul-le-mul_right (suc m) l))
  | no l ↦ omega (arith, l)
]

generate-generated :
    (has_memory : ℕ → Bool) (device : StorageDevice) (write : Bool) (buf position count : ℕ)
    (requests : List BatchRequest)
    → 0 < device.max_block_per_request
    → device.max_block_per_request < 2 ^ 32
    → position < 2 ^ 32
    → count < 2 ^ 32
    → split_requests
        (div_round_up count device.max_block_per_request)
        has_memory
        device
        write
        buf
        0
        count
        position
      ≡ some requests
    → storage_generate_request has_memory device write buf position count ≡ generated requests
unfolding storage_generate_request
generate-generated has_memory device write buf position count requests h k p c e =
    let max_count = device.max_block_per_request in
    let few = few_requests _ count max_count h (div_round_up-enough count max_count h k c).1 in
    let t : (max_count == 0) ≡ false = ground arith in
    let f : position % u32_mod ≡ position = omega arith in
    let g : count % u32_mod ≡ count = omega arith in
    let n : div_round_up count max_count % u32_mod ≡ div_round_up count max_count =
      mod-eq_of_lt (omega arith) in
    rw (t, f, g, n, e) refl

-- If there is memory for the requests and the device takes at least one block at a time, and neither the
-- blocks reach behind 2 ^ 32 nor their contents behind 2 ^ 64, storage_generate_request makes requests that
-- stand one behind the other, each for as many blocks as are left and the device takes and at least one,
-- which together transfer exactly the blocks from `position` on in their order, each at its place of the
-- buffer.
pub storage_generate_request-blocks :
    (has_memory : ℕ → Bool) (device : StorageDevice) (write : Bool) (buf position count : ℕ)
    → ((i : ℕ) → has_memory i ≡ true)
    → 0 < device.max_block_per_request
    → device.max_block_per_request < 2 ^ 32
    → position + count < 2 ^ 32
    → buf + count * device.block_size < 2 ^ 64
    → (requests : List BatchRequest) × ((storage_generate_request has_memory device write buf
            position count
          ≡ generated requests)
        × (FitsAll device.max_block_per_request position count requests
            × (blocks_of device.block_size requests ≡ blocks count position buf device.block_size)))
storage_generate_request-blocks has_memory device write buf position count all h k p b =
    let enough = div_round_up-enough count device.max_block_per_request h k (omega arith) in
    let split =
      split_requests-blocks has_memory all device write buf _ 0 count position buf h enough.0
        enough.1 p b (λ _. omega arith) in
    (
      split.0,
      (
        generate-generated has_memory device write buf position count split.0 h k (omega arith)
            (omega arith) split.1.0,
        split.1.1,
      ),
    )
