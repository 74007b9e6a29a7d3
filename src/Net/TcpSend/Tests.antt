-- ===== src/Net/TcpSend/Tests.antt =====
-- Runs of `tcp_send_data` of src/driver/network/protocols/tcp.c, and the theorem about it there.
use horizon_operating_system.Common.{ℕ, ◌≡◌, refl, List, [], ◌∷◌, some, none, arith}
use horizon_operating_system.Net.Protocols.{proto_ok}
use horizon_operating_system.Net.TcpSend.{SendSpace, Sent, tcp_send_data}
use horizon_operating_system.Net.TcpSend.Queue.{IsStraight, queued, tcp_send_data-sends}
use horizon_operating_system.Net.TcpSend.Full.{tcp_send_data-overruns}

-- A window of eight bytes, of which 3 and 4 are queued.
abbrev space : SendSpace
space = record { unack = 2; next = 4; total_size = 8; window = 100 }

abbrev ring : List ℕ
ring = 1 ∷ 2 ∷ 3 ∷ 4 ∷ 5 ∷ 6 ∷ 7 ∷ 8 ∷ []

space-IsStraight : IsStraight space ring
space-IsStraight = (omega arith, omega arith, refl, omega arith)

tcp_send_data-sends_example :
    (r : Sent) × ((tcp_send_data 3 space ring (9 ∷ 10 ∷ []) ≡ some r)
      × (r.result ≡ proto_ok)
      × (r.bytes ≡ 3 ∷ 4 ∷ 9 ∷ [])
      × (queued r.send r.ring ≡ 10 ∷ [])
      × IsStraight r.send r.ring)
tcp_send_data-sends_example =
    tcp_send_data-sends 3 space ring (9 ∷ 10 ∷ []) space-IsStraight (omega arith) (omega arith)
      (omega arith)

-- Nothing is queued, and five bytes go behind the end.
overruns : tcp_send_data 3 (record space { unack = 4 }) ring (1 ∷ 2 ∷ 3 ∷ 4 ∷ 5 ∷ []) ≡ none
overruns =
    tcp_send_data-overruns 3 (record space { unack = 4 }) ring (1 ∷ 2 ∷ 3 ∷ 4 ∷ 5 ∷ []) refl
      (omega arith, refl, omega arith) (omega arith) (omega arith)
