-- ===== src/Net/Ipv4/Tests.antt =====
-- Packets of src/driver/network/protocols/ipv4/ipv4.c on concrete values, and the theorems about them
-- there.
use horizon_operating_system.Common.{ℕ, ◌%◌, ◌≡◌, refl, some, none, arith}
use horizon_operating_system.Net.Protocols.{proto_error_checksum}
use horizon_operating_system.Net.Buffer.{NetBuffer}
use horizon_operating_system.Net.Ipv4.{
  Ip, Ipv4Header, Connection, rejected, tcp_recv, words, add_word, sum_words, ipv4_checksum,
  ipv4_register, ipv4_enable_fragment, ipv4_wrap, ipv4_rewrap, ipv4_get_packet_length, ipv4_recv,
  deliver,
}
use horizon_operating_system.Net.Ipv4.Checksum.{total, ipv4_checksum-total}
use horizon_operating_system.Net.Ipv4.Receive.{ipv4_recv-rejects}
use horizon_operating_system.Net.Ipv4.Wrap.{ipv4_recv-wrap}

abbrev ip : ℕ → Ip
ip n = record { b0 = 192; b1 = 168; b2 = 0; b3 = n }

-- A datagram of UDP with 95 bytes behind the header.
abbrev datagram : Ipv4Header
datagram = record {
  ver_len = 0x45;
  tos = 0;
  total_len = 0x7300;
  id = 0;
  flags_frag_offset = 0x0040;
  ttl = 0x40;
  protocol = 17;
  checksum = 0;
  src_ip = ip 1;
  dst_ip = ip 0xc7;
}

-- The words are swapped, and so is their sum.
completes : (ipv4_checksum datagram).checksum ≡ 0x61b8
unfolding ipv4_checksum sum_words add_word
completes = refl

length_of_datagram : ipv4_get_packet_length datagram ≡ 95
unfolding ipv4_get_packet_length
length_of_datagram = refl

ipv4_checksum-total_example : total (words (ipv4_checksum datagram)) % 0xffff ≡ 0
ipv4_checksum-total_example = ipv4_checksum-total datagram (
  ((omega arith, omega arith), (omega arith, (omega arith, omega arith))),
  (
    (omega arith, (omega arith, omega arith)),
    (
      ((omega arith, omega arith), (omega arith, omega arith)),
      ((omega arith, omega arith), (omega arith, omega arith)),
    ),
  ),
)

abbrev buffer : NetBuffer
buffer = record { ptr = 1000; size = 1500; head = 1100; data_start = 1100; tail = 1195 }

abbrev received : NetBuffer
received = record buffer { head = 2000; data_start = 2000; tail = 2115 }

-- The lifetime has lost a hop, and the checksum has stayed.
abbrev hopped : Ipv4Header
hopped = record datagram { ttl = 0x3f; checksum = 0x61b8 }

ipv4_recv-rejects_example : ipv4_recv received hopped ≡ rejected proto_error_checksum
ipv4_recv-rejects_example =
    ipv4_recv-rejects received datagram hopped 4 0x113f
      (
        ((omega arith, omega arith), (omega arith, (omega arith, omega arith))),
        (
          (omega arith, (omega arith, omega arith)),
          (
            ((omega arith, omega arith), (omega arith, omega arith)),
            ((omega arith, omega arith), (omega arith, omega arith)),
          ),
        ),
      )
      (
        ((omega arith, omega arith), (omega arith, (omega arith, omega arith))),
        (
          (omega arith, (omega arith, omega arith)),
          (
            ((omega arith, omega arith), (omega arith, omega arith)),
            ((omega arith, omega arith), (omega arith, omega arith)),
          ),
        ),
      )
      (omega arith) (omega arith) (omega (arith, completes)) (omega arith) (omega arith) refl
      (omega arith)

-- Without a checksum the same packet is taken.
unprotected :
    ipv4_recv received (record hopped { checksum = 0; protocol = 6 })
    ≡ tcp_recv (record received { data_start = 2020 }) 95 (ip 1) (ip 0xc7)
unfolding ipv4_recv ipv4_checksum ipv4_get_packet_length sum_words add_word
unprotected = refl

-- A header that gives itself a length below its own.
short_length : ipv4_get_packet_length (record datagram { total_len = 0x0a00 }) ≡ 65526
unfolding ipv4_get_packet_length
short_length = refl

abbrev conn : Connection
conn = record {
  buffer = buffer;
  id = 7;
  enable_fragment = 0;
  last_fragment = 0;
  frag_offset = 0;
  local_ip = ip 1;
  header = none;
}

ipv4_recv-wrap_example :
    (h : Ipv4Header) × (((ipv4_wrap conn 17 (some (ip 0xc7)) 64).header ≡ some h)
      × ((ipv4_recv received h ≡ deliver (record received { data_start = 2020 }) h 95)
          × ((h.protocol ≡ 17) × ((h.src_ip ≡ ip 1) × (h.dst_ip ≡ ip 0xc7)))))
ipv4_recv-wrap_example =
    ipv4_recv-wrap conn received 17 (ip 0xc7) 64 95 (omega arith) (omega arith) (omega arith)
      (omega arith) (omega arith) refl (omega arith) (omega arith)

registered : ipv4_register conn none (ip 9) ≡ record conn {
  local_ip = ip 9;
  id = 0;
  buffer = record buffer { head = 1120; data_start = 1120; tail = 1215 };
}
unfolding ipv4_register
registered = refl

fragments :
    ipv4_enable_fragment conn 0xffff 5 ≡ (record conn { id = 0xffff; enable_fragment = 1 }, 0)
unfolding ipv4_enable_fragment
fragments = refl

-- After 5 more bytes have come to the packet.
rewraps :
    (h : Ipv4Header) × ((ipv4_rewrap (record conn { header = some datagram }) 1075).header ≡ some h)
    × (h.total_len ≡ 0x7800)
unfolding ipv4_rewrap ipv4_checksum sum_words add_word
rewraps = (_, refl, refl)
