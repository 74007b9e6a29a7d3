-- ===== src/Net/Ipv4/Wrap.antt =====
-- What ipv4_recv of src/driver/network/protocols/ipv4/ipv4.c does with the packets of ipv4_wrap.
use horizon_operating_system.Common.{
  ℕ, zero, suc, ◌+◌, ◌-◌, ◌*◌, ◌%◌, ◌^◌, ◌<◌, ◌≡◌, refl, ap, ap₂, ◌∙◌, arith, some, bit_and, bit_or,
}
use mathlib.Core.Path.{subst⁻¹}
use horizon_operating_system.Net.Buffer.{NetBuffer, after}
use horizon_operating_system.Net.Ipv4.{
  Ipv4Header, Ip, Connection, ipv4_checksum, ipv4_wrap, ipv4_recv, ipv4_get_packet_length, accept,
  deliver, swap_word, is_zero, header_size,
}
use horizon_operating_system.Net.Ipv4.Receive.{recv-completed, swap_twice}

-- The word of the flags of a packet without an offset.
abbrev flags_word : ℕ → ℕ → ℕ
flags_word dont_fragment last_fragment =
    bit_or (bit_or (dont_fragment * 2 ^ 14) (last_fragment * 2 ^ 15)) 0

abbrev IsWhole : ℕ → Type 0
IsWhole flags = (bit_and flags 0x2000 ≡ 0) × (bit_and flags 0x1fff ≡ 0)

flags_word-IsWhole : (d l : ℕ) → d < 2 → l < 2 → IsWhole (swap_word (swap_word (flags_word d l)))
flags_word-IsWhole zero zero h k = (refl, refl)
flags_word-IsWhole zero (suc zero) h k = (refl, refl)
flags_word-IsWhole (suc zero) zero h k = (refl, refl)
flags_word-IsWhole (suc zero) (suc zero) h k = (refl, refl)
flags_word-IsWhole (suc (suc d)) l h k = absurd (omega arith)
flags_word-IsWhole d (suc (suc l)) h k = absurd (omega arith)

is_zero-lt : (n : ℕ) → is_zero n < 2
is_zero-lt zero = omega arith
is_zero-lt (suc n) = ground arith

accept-whole :
    (b : NetBuffer) (h : Ipv4Header) (length : ℕ)
    → IsWhole (swap_word h.flags_frag_offset)
    → accept b h length
      ≡ deliver (record b { data_start = after b.data_start header_size }) h length
accept-whole b h length w = rw (w.0, w.1) refl

-- The header that ipv4_wrap writes, before its checksum.
abbrev unchecked : Connection → ℕ → Ip → ℕ → Ipv4Header
unchecked conn protocol dst_ip ttl = record {
  ver_len = 0x45;
  tos = 0;
  total_len = swap_word (header_size + (conn.buffer.tail + (2 ^ 64 - conn.buffer.head)) % 2 ^ 16);
  id = swap_word conn.id;
  flags_frag_offset = swap_word (
      bit_or (bit_or (is_zero conn.enable_fragment * 2 ^ 14) (conn.last_fragment * 2 ^ 15))
        conn.frag_offset);
  ttl = ttl;
  protocol = protocol % 2 ^ 8;
  checksum = 0;
  src_ip = conn.local_ip;
  dst_ip = dst_ip;
}

wrap-header :
    (conn : Connection) (protocol : ℕ) (dst_ip : Ip) (ttl : ℕ)
    → (ipv4_wrap conn protocol (some dst_ip) ttl).header
      ≡ some (ipv4_checksum (unchecked conn protocol dst_ip ttl))
unfolding ipv4_wrap
wrap-header conn protocol dst_ip ttl = refl

unchecked-IsWhole :
    (conn : Connection) (protocol : ℕ) (dst_ip : Ip) (ttl : ℕ)
    → conn.last_fragment < 2
    → conn.frag_offset ≡ 0
    → IsWhole (swap_word (unchecked conn protocol dst_ip ttl).flags_frag_offset)
unchecked-IsWhole conn protocol dst_ip ttl h e = rw e (
    flags_word-IsWhole (is_zero conn.enable_fragment) conn.last_fragment
      (is_zero-lt conn.enable_fragment) h)

-- What `ipv4_checksum` leaves of a header.
abbrev Completes : Ipv4Header → Ipv4Header → Type 0
Completes g h =
    ((h.ver_len ≡ g.ver_len)
      × ((h.total_len ≡ g.total_len) × (h.flags_frag_offset ≡ g.flags_frag_offset)))
    × ((h.protocol ≡ g.protocol) × ((h.src_ip ≡ g.src_ip) × (h.dst_ip ≡ g.dst_ip)))

checksum-Completes : (g : Ipv4Header) → Completes g (ipv4_checksum g)
unfolding ipv4_checksum
checksum-Completes g = ((refl, (refl, refl)), (refl, (refl, refl)))

packet_length-lem :
    (h : Ipv4Header) (size : ℕ)
    → h.ver_len ≡ 0x45
    → h.total_len ≡ swap_word (header_size + size)
    → header_size + size < 2 ^ 16
    → ipv4_get_packet_length h ≡ size
unfolding ipv4_get_packet_length
packet_length-lem h size v t k = rw (v, t) (omega (arith, swap_twice (header_size + size) k))

-- A packet that ipv4_wrap makes on a connection without an offset of fragments, whose contents leave room
-- for the header in 16 bits, is taken by ipv4_recv from every buffer that holds the header and the
-- contents: it goes to the function of its protocol, with the buffer behind the header, the length of the
-- contents and the addresses that were sent.
pub ipv4_recv-wrap :
    (conn : Connection) (b : NetBuffer) (protocol : ℕ) (dst_ip : Ip) (ttl size : ℕ)
    → conn.buffer.head + size ≡ conn.buffer.tail
    → conn.buffer.tail < 2 ^ 64
    → header_size + size < 2 ^ 16
    → protocol < 2 ^ 8
    → conn.last_fragment < 2
    → conn.frag_offset ≡ 0
    → b.data_start + (header_size + size) ≡ b.tail
    → b.tail < 2 ^ 64
    → (h : Ipv4Header) × (((ipv4_wrap conn protocol (some dst_ip) ttl).header ≡ some h)
        × ((ipv4_recv b h ≡ deliver (record b { data_start = b.data_start + header_size }) h size)
            × ((h.protocol ≡ protocol) × ((h.src_ip ≡ conn.local_ip) × (h.dst_ip ≡ dst_ip)))))
ipv4_recv-wrap conn b protocol dst_ip ttl size e k m p l o a t =
    let g = unchecked conn protocol dst_ip ttl in
    let h = ipv4_checksum g in
    let c = checksum-Completes g in
    let whole : IsWhole (swap_word h.flags_frag_offset) =
      subst⁻¹ (λ w. IsWhole (swap_word w)) c.0.1.1
        (unchecked-IsWhole conn protocol dst_ip ttl l o) in
    let sized : (conn.buffer.tail + (2 ^ 64 - conn.buffer.head)) % 2 ^ 16 ≡ size = omega arith in
    let length =
      packet_length-lem h size c.0.0 (c.0.1.0 ∙ ap (λ n. swap_word (header_size + n)) sized) m in
    let behind : after b.data_start header_size ≡ b.data_start + header_size = omega arith in
    (
      h,
      (
        wrap-header conn protocol dst_ip ttl,
        (
          recv-completed b h g (omega arith) (omega (arith, c.0.0)) refl
              ∙ (accept-whole b h (ipv4_get_packet_length h) whole
                  ∙ ap₂ (λ d n. deliver (record b { data_start = d }) h n) behind length),
          (omega (arith, c.1.0), c.1.1),
        ),
      ),
    )
