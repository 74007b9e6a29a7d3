-- ===== src/Net/Buffer.antt =====
-- The network buffers of src/driver/network/buffer.c and src/include/driver/network/buffer.h. A pointer
-- is its address, a number below 2 ^ 64; the memory that `ptr` points to is not looked at here.
pub mod Bounds
mod Tests
use horizon_operating_system.Common.{ℕ, ◌+◌, ◌-◌, ◌%◌, ◌^◌, Bool, ltb, if◌then◌else◌}
use horizon_operating_system.Net.Protocols.{ProtocolResult, proto_ok, proto_error_exceed_max_size}

pub record NetBuffer : Type 0 where
  pub ptr : ℕ
  pub size : ℕ
  pub head : ℕ
  pub data_start : ℕ
  pub tail : ℕ

-- The sum and the difference of a pointer and a size.
abbrev pub after : ℕ → ℕ → ℕ
after p size = (p + size) % 2 ^ 64

abbrev pub before : ℕ → ℕ → ℕ
before p size = (p + (2 ^ 64 - size)) % 2 ^ 64

-- What `data` points to is `data_start`.
unfoldable pub net_buffer_init : NetBuffer → ℕ → ℕ → ℕ → NetBuffer
net_buffer_init b size head tail = record b {
  size = size;
  head = after b.ptr head;
  data_start = after b.ptr head;
  tail = after b.ptr tail;
}

unfoldable pub net_buffer_reset : NetBuffer → NetBuffer
net_buffer_reset b = record b { head = b.data_start; tail = b.data_start }

unfoldable pub net_buffer_clean_data : NetBuffer → NetBuffer
net_buffer_clean_data b = record b { tail = b.data_start }

unfoldable pub net_buffer_header_alloc : NetBuffer → ℕ → NetBuffer
net_buffer_header_alloc b size = record b { head = before b.head size }

unfoldable pub net_buffer_header_free : NetBuffer → ℕ → NetBuffer
net_buffer_header_free b size = record b { head = after b.head size }

unfoldable pub net_buffer_tail_alloc : NetBuffer → ℕ → NetBuffer
net_buffer_tail_alloc b size = record b { tail = after b.tail size }

unfoldable pub net_buffer_tail_free : NetBuffer → ℕ → NetBuffer
net_buffer_tail_free b size = record b { tail = before b.tail size }

unfoldable pub net_buffer_data_alloc : NetBuffer → ℕ → NetBuffer × ProtocolResult
net_buffer_data_alloc b size =
    if ltb (after b.ptr b.size) (after b.tail size)
    then (b, proto_error_exceed_max_size)
    else (record b { tail = after b.tail size }, proto_ok)

unfoldable pub net_buffer_put : NetBuffer → ℕ → NetBuffer × ProtocolResult
net_buffer_put b size =
    if ltb (after b.ptr b.size) (after b.tail size)
    then (b, proto_error_exceed_max_size)
    else (record b { tail = after b.tail size }, proto_ok)
