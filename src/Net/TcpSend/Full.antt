-- ===== src/Net/TcpSend/Full.antt =====
-- Where `tcp_send_data` of src/driver/network/protocols/tcp.c leaves the window or the queue.
use horizon_operating_system.Common.{
  ℕ, ◌+◌, ◌^◌, ◌≡◌, ◌≤◌, ◌<◌, List, some, none, length, min, arith, sub32,
}
use horizon_operating_system.Net.TcpSend.{
  SendSpace, Sent, enqueue, used_space, send_wrapped, send_queued, tcp_send_data,
}
use horizon_operating_system.Net.TcpSend.Queue.{take_all}

-- With nothing queued, data that fit in the window but not behind the index are written behind the end
-- of the window.
pub tcp_send_data-overruns :
    (mss : ℕ) (s : SendSpace) (ring buf : List ℕ)
    → s.unack ≡ s.next
    → (s.next < s.total_size) × (length ring ≡ s.total_size) × (s.total_size < 2 ^ 31)
    → s.total_size < s.next + length buf
    → length buf ≤ s.total_size
    → tcp_send_data mss s ring buf ≡ none
unfolding tcp_send_data enqueue
tcp_send_data-overruns mss s ring buf e v h l =
    let used : used_space s ≡ 0 = ground arith in
    let size = min (length buf) (sub32 s.total_size (used_space s)) in
    let enough : length buf ≤ size = rw used (omega arith) in
    ground (arith, used, take_all buf size enough)

-- When the data queued go around the end of the window, those that are sent stay queued: the index of the
-- first one does not move.
wrapped-keeps :
    (s : SendSpace) (ring : List ℕ) (max used : ℕ) (r : Sent)
    → s.next ≤ s.unack
    → send_queued s ring max used ≡ some r
    → r.send.unack ≡ s.unack
unfolding send_wrapped
wrapped-keeps s ring max used r h e = ground arith
