-- ===== src/Net/TcpRecv/Tests.antt =====
-- Runs of `tcp_recv_data` of src/driver/network/protocols/tcp.c, and the theorems about it there.
use horizon_operating_system.Common.{ℕ, ◌≡◌, refl, List, [], ◌∷◌, some, take, arith}
use horizon_operating_system.Net.TcpRecv.{
  conn_state_opened, RecvSpace, Received, copy, copy_both, tcp_recv_data,
}
use horizon_operating_system.Net.Protocols.{proto_ok}
use horizon_operating_system.Net.TcpRecv.Queue.{IsValid, ring_bytes, tcp_recv_data-takes}

-- A window of five bytes, of which 4, 5 and 1 are received and not read yet.
abbrev around : RecvSpace
around = record { next = 1; total_size = 5; read = 3 }

abbrev window : List ℕ
window = 1 ∷ 2 ∷ 3 ∷ 4 ∷ 5 ∷ []

around-IsValid : IsValid around window
around-IsValid = ((omega arith, omega arith), (refl, omega arith))

tcp_recv_data-takes_example :
    tcp_recv_data around window conn_state_opened 2
    ≡ some (record {
      recv = record { next = 1; total_size = 5; read = 5 };
      result = proto_ok;
      bytes = take 2 (ring_bytes around window 3);
    })
tcp_recv_data-takes_example =
    tcp_recv_data-takes around window conn_state_opened 2 3 around-IsValid (omega arith) refl
      (omega arith)

-- The indices of a full window are those of an empty one.
full_is_empty :
    tcp_recv_data (record around { read = 1 }) window conn_state_opened 2
    ≡ some (record { recv = record around { read = 1 }; result = proto_ok; bytes = [] })
unfolding tcp_recv_data copy
full_is_empty = refl

-- All three bytes are read.
abbrev all_read : Received
all_read = record {
  recv = record { next = 1; total_size = 5; read = 6 };
  result = proto_ok;
  bytes = 4 ∷ 5 ∷ 1 ∷ [];
}

reads_all : tcp_recv_data around window conn_state_opened 10 ≡ some all_read
unfolding tcp_recv_data copy_both copy
reads_all = refl
