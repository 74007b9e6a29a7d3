-- ===== src/Net/Ipv4.antt =====
-- The IPv4 packets of src/driver/network/protocols/ipv4/ipv4.c. A header is the values of its fields, of
-- which those of 16 bits are as the processor loads them, lowest byte first; the memory behind a header
-- is not looked at. Locks are left out.

pub mod Checksum
pub mod Receive
pub mod Wrap
mod Tests
use horizon_operating_system.Common.{
  ℕ, ◌+◌, ◌-◌, ◌*◌, ◌/◌, ◌%◌, ◌^◌, List, [], ◌∷◌, Bool, true, false, not, ◌||◌, Option, none, some,
  bit_and, bit_or, ltb, ◌==◌, if◌then◌else◌,
}
use horizon_operating_system.Net.Protocols.{
  ProtocolResult, proto_error_unsupport, proto_error_checksum,
}
use horizon_operating_system.Net.Buffer.{NetBuffer, after, net_buffer_header_alloc}

-- The four bytes of an address.
pub record Ip : Type 0 where
  pub b0 : ℕ
  pub b1 : ℕ
  pub b2 : ℕ
  pub b3 : ℕ

pub record Ipv4Header : Type 0 where
  pub ver_len : ℕ
  pub tos : ℕ
  pub total_len : ℕ
  pub id : ℕ
  pub flags_frag_offset : ℕ
  pub ttl : ℕ
  pub protocol : ℕ
  pub checksum : ℕ
  pub src_ip : Ip
  pub dst_ip : Ip

-- `sizeof(Ipv4Header)`.
abbrev pub header_size : ℕ
header_size = 20

-- `HOST2BE_WORD` and `BE2HOST_WORD`.
abbrev pub swap_word : ℕ → ℕ
swap_word n = n % 256 * 256 + n / 256 % 256

-- `data[0]` to `data[9]` of `ipv4_checksum`.
abbrev pub words : Ipv4Header → List ℕ
words h =
    (h.ver_len + h.tos * 2 ^ 8)
    ∷ h.total_len
    ∷ h.id
    ∷ h.flags_frag_offset
    ∷ (h.ttl + h.protocol * 2 ^ 8)
    ∷ h.checksum
    ∷ ((h.src_ip).b0 + (h.src_ip).b1 * 2 ^ 8)
    ∷ ((h.src_ip).b2 + (h.src_ip).b3 * 2 ^ 8)
    ∷ ((h.dst_ip).b0 + (h.dst_ip).b1 * 2 ^ 8)
    ∷ ((h.dst_ip).b2 + (h.dst_ip).b3 * 2 ^ 8)
    ∷ []

-- A round of the loop of `ipv4_checksum`.
unfoldable pub add_word : ℕ → ℕ → ℕ
add_word sum w = let s = sum + w in if ltb 0xffff s then s % 2 ^ 16 + s / 2 ^ 16 else s

unfoldable pub sum_words : List ℕ → ℕ → ℕ
unfolding add_word
sum_words [] sum = sum
sum_words (w ∷ ws) sum = sum_words ws (add_word sum w)

unfoldable pub ipv4_checksum : Ipv4Header → Ipv4Header
unfolding sum_words
ipv4_checksum header =
    let cleared = record header { checksum = 0 } in
    record cleared { checksum = 0xffff - sum_words (words cleared) 0 % 2 ^ 16 }

-- The fields of a connection that `ipv4_wrap` reads, with the three of `fragment`.
pub record Connection : Type 0 where
  pub buffer : NetBuffer
  pub id : ℕ
  pub enable_fragment : ℕ
  pub last_fragment : ℕ
  pub frag_offset : ℕ
  pub local_ip : Ip
  pub header : Option Ipv4Header

-- `ipv4_register`, with the address of the device where none is given.
unfoldable pub ipv4_register : Connection → Option Ip → Ip → Connection
ipv4_register conn ip_addr device_ip = record conn {
  local_ip = elim ip_addr [ some ip ↦ ip | none ↦ device_ip ];
  enable_fragment = 0;
  last_fragment = 0;
  frag_offset = 0;
  id = 0;
  buffer = record conn.buffer {
    head = after conn.buffer.head header_size;
    data_start = after conn.buffer.data_start header_size;
    tail = after conn.buffer.tail header_size;
  };
}

-- `ipv4_enable_fragment`, with the counter and the random number for its start.
unfoldable pub ipv4_enable_fragment : Connection → ℕ → ℕ → Connection × ℕ
ipv4_enable_fragment conn ipv4_id_counter random =
    let counter = if ipv4_id_counter == 0 then random % 2 ^ 16 else ipv4_id_counter in
    (
      record conn { enable_fragment = 1; last_fragment = 0; frag_offset = 0; id = counter },
      (counter + 1) % 2 ^ 16,
    )

abbrev pub broadcast : Ip
broadcast = record { b0 = 0xff; b1 = 0xff; b2 = 0xff; b3 = 0xff }

-- `!n` of C.
abbrev pub is_zero : ℕ → ℕ
is_zero n = if n == 0 then 1 else 0

unfoldable pub ipv4_wrap : Connection → ℕ → Option Ip → ℕ → Connection
unfolding ipv4_checksum net_buffer_header_alloc
ipv4_wrap conn protocol dst_ip ttl =
    let size = (conn.buffer.tail + (2 ^ 64 - conn.buffer.head)) % 2 ^ 16 in
    let flags =
      bit_or (bit_or (is_zero conn.enable_fragment * 2 ^ 14) (conn.last_fragment * 2 ^ 15))
        conn.frag_offset in
    let header : Ipv4Header = record {
      ver_len = 0x45;
      tos = 0;
      total_len = swap_word (header_size + size);
      id = swap_word conn.id;
      flags_frag_offset = swap_word flags;
      ttl = ttl;
      protocol = protocol % 2 ^ 8;
      checksum = 0;
      src_ip = conn.local_ip;
      dst_ip = elim dst_ip [ some ip ↦ ip | none ↦ broadcast ];
    } in
    record conn {
      buffer = net_buffer_header_alloc conn.buffer header_size;
      header = some (ipv4_checksum header);
    }

-- `ipv4_rewrap`. The header is at `at`.
unfoldable pub ipv4_rewrap : Connection → ℕ → Connection
unfolding ipv4_checksum
ipv4_rewrap conn at = elim conn.header [
  | none ↦ conn
  | some header ↦
      let length = (conn.buffer.tail + (2 ^ 64 - at)) % 2 ^ 64 in
      record conn {
        header =
            some (ipv4_checksum (record header { total_len = swap_word length; checksum = 0 }));
      }
]

unfoldable pub ipv4_get_packet_length : Ipv4Header → ℕ
ipv4_get_packet_length header =
    (swap_word header.total_len + 2 ^ 16 - bit_and header.ver_len 0x0f * 4) % 2 ^ 16

-- What `ipv4_recv` does with a packet: its result, or the function that it hands the packet to.
pub data Delivery : Type 0 where
  rejected : ProtocolResult → Delivery
  udp_recv : NetBuffer → Ipv4Header → Delivery
  tcp_recv : NetBuffer → ℕ → Ip → Ip → Delivery
  icmp_recv : NetBuffer → Ipv4Header → Delivery

-- The switch over `protocol`.
abbrev pub deliver : NetBuffer → Ipv4Header → ℕ → Delivery
deliver net_buffer header length =
    if header.protocol == 17
    then udp_recv net_buffer header
    else if header.protocol == 6
    then tcp_recv net_buffer length header.src_ip header.dst_ip
    else if header.protocol == 1
    then icmp_recv net_buffer header
    else rejected proto_error_unsupport

-- What follows the test of the checksum.
abbrev pub accept : NetBuffer → Ipv4Header → ℕ → Delivery
accept net_buffer header length =
    let frag_offset = swap_word header.flags_frag_offset in
    let mf = not (bit_and frag_offset 0x2000 == 0) in
    if not (bit_and frag_offset 0x1fff == 0) || mf
    then rejected proto_error_unsupport
    else deliver (record net_buffer { data_start = after net_buffer.data_start header_size }) header
        length

unfoldable pub ipv4_recv : NetBuffer → Ipv4Header → Delivery
unfolding ipv4_checksum ipv4_get_packet_length
ipv4_recv net_buffer header =
    let size = (net_buffer.tail + (2 ^ 64 - net_buffer.data_start)) % 2 ^ 32 in
    let length = ipv4_get_packet_length header in
    let checked = ipv4_checksum header in
    if ltb size header_size
    then rejected proto_error_unsupport
    else if not (header.ver_len / 2 ^ 4 == 4)
    then rejected proto_error_unsupport
    else if header.checksum == 0
    then accept net_buffer header length
    else if not (checked.checksum == header.checksum)
    then rejected proto_error_checksum
    else accept net_buffer checked length
