-- ===== src/Net/Buffer/Bounds.antt =====
-- The calls of src/driver/network/buffer.c keep the pointers of a buffer in order and inside of it.
use horizon_operating_system.Common.{
  ℕ, ◌+◌, ◌^◌, ◌≡◌, ◌≤◌, ◌<◌, ◌⊎◌, inl, inr, refl, ap, true, false, arith, dec_lt, ltb,
}
use horizon_operating_system.Net.Protocols.{proto_ok, proto_error_exceed_max_size}
use horizon_operating_system.Net.Buffer.{
  NetBuffer, after, before, net_buffer_init, net_buffer_reset, net_buffer_clean_data,
  net_buffer_header_alloc, net_buffer_header_free, net_buffer_tail_alloc, net_buffer_tail_free,
  net_buffer_data_alloc, net_buffer_put,
}

-- The memory does not end at the end of the addresses: a `uint16_t` more is still an address.
abbrev pub IsPlaced : NetBuffer → Type 0
IsPlaced b = (b.size < 2 ^ 16) × (b.ptr + b.size + 2 ^ 16 < 2 ^ 64)

abbrev pub InOrder : NetBuffer → Type 0
InOrder b =
    ((b.ptr ≤ b.head) × (b.head ≤ b.data_start))
    × ((b.data_start ≤ b.tail) × (b.tail ≤ b.ptr + b.size))

abbrev pub IsValid : NetBuffer → Type 0
IsValid b = IsPlaced b × InOrder b

-- The calls, but for those that make or free a buffer.
pub data Call : Type 0 where
  init : ℕ → ℕ → ℕ → Call
  reset : Call
  clean_data : Call
  header_alloc : ℕ → Call
  header_free : ℕ → Call
  tail_alloc : ℕ → Call
  tail_free : ℕ → Call
  data_alloc : ℕ → Call
  put : ℕ → Call

abbrev pub run : Call → NetBuffer → NetBuffer
run (init size head tail) b = net_buffer_init b size head tail
run reset b = net_buffer_reset b
run clean_data b = net_buffer_clean_data b
run (header_alloc size) b = net_buffer_header_alloc b size
run (header_free size) b = net_buffer_header_free b size
run (tail_alloc size) b = net_buffer_tail_alloc b size
run (tail_free size) b = net_buffer_tail_free b size
run (data_alloc size) b = (net_buffer_data_alloc b size).0
run (put size) b = (net_buffer_put b size).0

-- What a caller has to see to: `data_alloc` and `put` ask for a `uint16_t` only.
abbrev pub Fits : Call → NetBuffer → Type 0
Fits (init size head tail) b = (size ≤ b.size) × ((head ≤ tail) × (tail ≤ size))
Fits reset b = Unit
Fits clean_data b = Unit
Fits (header_alloc size) b = b.ptr + size ≤ b.head
Fits (header_free size) b = b.head + size ≤ b.data_start
Fits (tail_alloc size) b = b.tail + size ≤ b.ptr + b.size
Fits (tail_free size) b = b.data_start + size ≤ b.tail
Fits (data_alloc size) b = size < 2 ^ 16
Fits (put size) b = size < 2 ^ 16

add-IsValid :
    (b : NetBuffer) (size : ℕ) → IsValid b → size < 2 ^ 16 → IsValid (net_buffer_put b size).0
unfolding net_buffer_put
add-IsValid b size h f = ground arith

-- A call that fits keeps a valid buffer valid; `net_buffer_put` and `net_buffer_data_alloc` fit always.
pub run-IsValid : (c : Call) (b : NetBuffer) → IsValid b → Fits c b → IsValid (run c b)
unfolding net_buffer_init net_buffer_reset net_buffer_clean_data net_buffer_header_alloc
    net_buffer_header_free net_buffer_tail_alloc net_buffer_tail_free net_buffer_data_alloc
    net_buffer_put
run-IsValid (init size head tail) b h f = ground arith
run-IsValid reset b h f = ground arith
run-IsValid clean_data b h f = ground arith
run-IsValid (header_alloc size) b h f = ground arith
run-IsValid (header_free size) b h f = ground arith
run-IsValid (tail_alloc size) b h f = ground arith
run-IsValid (tail_free size) b h f = ground arith
run-IsValid (data_alloc size) b h f = add-IsValid b size h f
run-IsValid (put size) b h f = add-IsValid b size h f

-- `net_buffer_put` and `net_buffer_data_alloc` do the same. On a valid buffer they refuse exactly
-- what does not fit before the end of the buffer, and leave the buffer as it is then; otherwise
-- exactly `size` bytes are added to the data.
pub put_or_refuse :
    (b : NetBuffer) (size : ℕ)
    → IsValid b
    → size < 2 ^ 16
    → (net_buffer_data_alloc b size ≡ net_buffer_put b size)
      × (((b.ptr + b.size < b.tail + size)
            × (net_buffer_put b size ≡ (b, proto_error_exceed_max_size)))
          ⊎ ((b.tail + size ≤ b.ptr + b.size)
              × (net_buffer_put b size ≡ (record b { tail = b.tail + size }, proto_ok))))
unfolding net_buffer_put net_buffer_data_alloc
put_or_refuse b size h f =
    let e : after b.tail size ≡ b.tail + size = omega (arith, h.0.1, h.1.1.1) in
    let g : after b.ptr b.size ≡ b.ptr + b.size = omega (arith, h.0.1) in
    (
      refl,
      elim (dec_lt (b.ptr + b.size) (b.tail + size)) [
        | yes over ↦
            let t : ltb (after b.ptr b.size) (after b.tail size) ≡ true =
              rw (e, g) (ground arith) in
            inl (over, rw t refl)
        | no under ↦
            let t : ltb (after b.ptr b.size) (after b.tail size) ≡ false =
              rw (e, g) (ground arith) in
            inr (omega arith, rw (t, e) refl)
      ],
    )

-- Room that is taken before the head and given back leaves the buffer as it was.
pub header_round_trip :
    (b : NetBuffer) (size : ℕ)
    → b.head < 2 ^ 64
    → size < 2 ^ 16
    → net_buffer_header_free (net_buffer_header_alloc b size) size ≡ b
unfolding net_buffer_header_free net_buffer_header_alloc
header_round_trip b size h f =
    let e : after (before b.head size) size ≡ b.head = omega arith in
    ap (λ p. record b { head = p }) e
