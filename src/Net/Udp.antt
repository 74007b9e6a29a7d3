-- ===== src/Net/Udp.antt =====
-- The datagrams of src/driver/network/protocols/udp.c. A socket is the addresses of a connection that
-- udp_bind has put in the list udp_lh; its place there is its number. The words of a header are as the
-- processor loads them, and the contents behind it are words and, at an odd length, a last byte.
pub mod Deliver
mod Tests
use horizon_operating_system.Common.{
  ℕ, zero, suc, ◌+◌, ◌-◌, ◌*◌, ◌/◌, ◌%◌, ◌^◌, List, [], ◌∷◌, ◌++◌, Bool, true, false, not, ◌&&◌,
  ◌||◌, Option, none, some, ltb, ◌==◌, if◌then◌else◌,
}
use horizon_operating_system.Net.Protocols.{
  ProtocolResult, proto_error_unsupport, proto_error_exceed_max_size, proto_error_checksum,
}
use horizon_operating_system.Net.Buffer.{NetBuffer, after, net_buffer_header_alloc}
use horizon_operating_system.Net.Ipv4.{Ip, swap_word, sum_words}
use horizon_operating_system.Net.Neighbour.{same_bytes, bytes_of}

pub record UdpHeader : Type 0 where
  pub src_port : ℕ
  pub dst_port : ℕ
  pub length : ℕ
  pub checksum : ℕ

-- `sizeof(UdpHeader)`.
abbrev pub udp_header_size : ℕ
udp_header_size = 8

-- The ports and the address of `Ipv4ConnInfo`, and whether the connection has a callback.
pub record Socket : Type 0 where
  pub local_ip : Ip
  pub local_port : ℕ
  pub remote_port : ℕ
  pub has_callback : Bool

-- `udp_bind` of a connection that is not bound yet.
unfoldable pub udp_bind : Socket → ℕ → List Socket → List Socket
udp_bind s port sockets = sockets ++ (record s { local_port = port } ∷ [])

-- `udp_wrap`: the buffer and the header in front of its contents.
unfoldable pub udp_wrap : NetBuffer → ℕ → ℕ → NetBuffer × UdpHeader
unfolding net_buffer_header_alloc
udp_wrap b src_port dst_port =
    let size = (b.tail + (2 ^ 64 - b.head)) % 2 ^ 16 in
    (
      net_buffer_header_alloc b udp_header_size,
      record {
        src_port = swap_word src_port;
        dst_port = swap_word dst_port;
        length = swap_word (udp_header_size + size);
        checksum = 0;
      },
    )

-- The two words of an address.
abbrev pub ip_words : Ip → List ℕ
ip_words ip = (ip.b0 + ip.b1 * 2 ^ 8) ∷ (ip.b2 + ip.b3 * 2 ^ 8) ∷ []

abbrev pub last_byte : Option ℕ → ℕ
last_byte none = 0
last_byte (some b) = b

-- `udp_checksum`; the last byte and the carry are added without a further fold.
unfoldable pub udp_checksum : Ip → Ip → UdpHeader → List ℕ → Option ℕ → ℕ
unfolding sum_words
udp_checksum src_ip dst_ip h contents odd =
    let sum =
      sum_words
        (ip_words src_ip
          ++ (ip_words dst_ip
              ++ (swap_word 17 ∷ h.length ∷ h.src_port ∷ h.dst_port ∷ h.length ∷ 0 ∷ contents)))
        0
      + last_byte odd in
    0xffff - (sum + sum / 2 ^ 16) % 2 ^ 16

-- The two tests of the loop over `udp_lh`.
unfoldable pub is_socket_for : UdpHeader → Ip → Socket → Bool
unfolding same_bytes
is_socket_for h dst_ip s =
    (s.local_port == swap_word h.dst_port)
    && ((s.remote_port == 0) || (s.remote_port == swap_word h.src_port))
    && (same_bytes 4 (bytes_of s.local_ip) (bytes_of dst_ip)
        || same_bytes 4 (bytes_of s.local_ip) (0 ∷ 0 ∷ 0 ∷ 0 ∷ [])
        || same_bytes 4 (bytes_of dst_ip) (0xff ∷ 0xff ∷ 0xff ∷ 0xff ∷ []))

-- How `udp_recv` ends: with an error, with the callback of a socket, or with the packet dropped.
pub data UdpDelivery : Type 0 where
  refused : ProtocolResult → UdpDelivery
  calls : ℕ → NetBuffer → UdpDelivery
  drops : UdpDelivery

abbrev pub one_further : UdpDelivery → UdpDelivery
one_further (refused r) = refused r
one_further (calls i b) = calls (i + 1) b
one_further drops = drops

-- The loop over `udp_lh`.
unfoldable pub deliver_datagram : UdpHeader → Ip → NetBuffer → List Socket → UdpDelivery
unfolding is_socket_for
deliver_datagram h dst_ip b [] = drops
deliver_datagram h dst_ip b (s ∷ sockets) =
    let later = deliver_datagram h dst_ip b sockets in
    if is_socket_for h dst_ip s
    then (if s.has_callback then calls 0 b else drops)
    else one_further later

unfoldable pub udp_recv :
    NetBuffer → UdpHeader → List ℕ → Option ℕ → Ip → Ip → List Socket → UdpDelivery
unfolding udp_checksum deliver_datagram
udp_recv b h contents odd src_ip dst_ip sockets =
    let size = (b.tail + (2 ^ 64 - b.data_start)) % 2 ^ 32 in
    let behind = record b { data_start = after b.data_start udp_header_size } in
    if ltb (swap_word h.length) udp_header_size
    then refused proto_error_unsupport
    else if ltb size (swap_word h.length) || not (ltb size (2 ^ 31))
    then refused proto_error_exceed_max_size
    else if not (h.checksum == 0) && not (udp_checksum src_ip dst_ip h contents odd == h.checksum)
    then refused proto_error_checksum
    else deliver_datagram h dst_ip behind sockets
