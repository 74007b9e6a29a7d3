-- ===== src/Net/Udp/Tests.antt =====
-- Datagrams of src/driver/network/protocols/udp.c on concrete ports, and the theorems about them there.
use horizon_operating_system.Common.{ℕ, ◌≡◌, inl, refl, [], ◌∷◌, ◌++◌, true, none, arith}
use horizon_operating_system.Net.Protocols.{proto_error_checksum}
use horizon_operating_system.Net.Buffer.{NetBuffer}
use horizon_operating_system.Net.Ipv4.{Ip, add_word, sum_words}
use horizon_operating_system.Net.Udp.{
  Socket, udp_bind, udp_wrap, udp_checksum, refused, calls, udp_recv,
}
use horizon_operating_system.Net.Udp.Deliver.{udp_recv-wrap}

abbrev ip : ℕ → Ip
ip n = record { b0 = 10; b1 = 0; b2 = 0; b3 = n }

abbrev nowhere : Ip
nowhere = record { b0 = 0; b1 = 0; b2 = 0; b3 = 0 }

abbrev socket : ℕ → Socket
socket port = record { local_ip = ip 1; local_port = port; remote_port = 0; has_callback = true }

binds : udp_bind (socket 0) 68 (socket 53 ∷ []) ≡ socket 53 ∷ socket 68 ∷ []
unfolding udp_bind
binds = refl

abbrev sent : NetBuffer
sent = record { ptr = 1000; size = 600; head = 1100; data_start = 1100; tail = 1110 }

abbrev arrived : NetBuffer
arrived = record { ptr = 2000; size = 600; head = 2000; data_start = 2034; tail = 2052 }

udp_recv-wrap_example :
    udp_recv arrived
      (udp_wrap sent 67 68).1
      []
      none
      (ip 2)
      (ip 1)
      ((socket 53 ∷ []) ++ (socket 68 ∷ []))
    ≡ calls 1 (record arrived { data_start = 2042 })
udp_recv-wrap_example =
    udp_recv-wrap sent arrived 67 68 10 [] none (ip 2) (ip 1) (socket 53 ∷ []) (socket 68) []
      (omega arith, omega arith) (omega arith) (omega arith) (omega arith) (omega arith)
      (omega arith) (λ f. omega (arith, f.0), tt) (refl, (inl refl, inl refl)) refl

-- The checksum of this datagram is 0, which is sent as 0xffff.
complemented :
    udp_recv
      (record arrived { tail = 2044 })
      (record { src_port = 0; dst_port = 0; length = 0x0a00; checksum = 0xffff })
      (0xdaff ∷ [])
      none
      nowhere
      nowhere
      []
    ≡ refused proto_error_checksum
unfolding udp_recv udp_checksum sum_words add_word
complemented = refl
