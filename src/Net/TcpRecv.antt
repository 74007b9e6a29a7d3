-- ===== src/Net/TcpRecv.antt =====
-- The reading of received data, `tcp_recv_data` of src/driver/network/protocols/tcp.c, behind its
-- tests for NULL. The window is the list of the bytes that `recv_window` points to.
pub mod Queue
pub mod Overrun
mod Tests
use horizon_operating_system.Common.{
  ℕ, ◌+◌, ◌-◌, List, [], ◌++◌, Bool, Option, none, some, length, take, drop, min, leb, ◌==◌, add32,
  sub32, if◌then◌else◌,
}
use horizon_operating_system.Net.Protocols.{
  ProtocolResult, proto_ok, proto_error_not_connected, proto_error_net_unreachable,
  proto_error_host_unreachable,
}

pub data ConnState : Type 0 where
  conn_state_init : ConnState
  conn_state_opening : ConnState
  conn_state_opened : ConnState
  conn_state_closing : ConnState
  conn_state_closed : ConnState
  conn_state_host_unreachable : ConnState
  conn_state_net_unreachable : ConnState

-- The fields of `recv` that the function reads or writes, 32-bit words.
pub record RecvSpace : Type 0 where
  next : ℕ
  total_size : ℕ
  read : ℕ

-- What a call gives: the new state, the result, and the bytes that are in the buffer then.
pub record Received : Type 0 where
  recv : RecvSpace
  result : ProtocolResult
  bytes : List ℕ

-- The bytes that `memcpy` copies from the window; `none` if they reach behind its end. A size of
-- 2 ^ 31 or more, which is negative as an `int`, reaches behind the end, too.
unfoldable pub copy : List ℕ → ℕ → ℕ → Option (List ℕ)
copy window start size =
    if leb (start + size) (length window) then some (take size (drop start window)) else none

-- The switch for a call that finds no data.
abbrev pub no_data : ConnState → ProtocolResult
no_data conn_state_init = proto_error_not_connected
no_data conn_state_opening = proto_error_not_connected
no_data conn_state_closed = proto_error_not_connected
no_data conn_state_net_unreachable = proto_error_net_unreachable
no_data conn_state_host_unreachable = proto_error_host_unreachable
no_data state = proto_ok

abbrev pub finish : RecvSpace → ConnState → ℕ → List ℕ → Received
finish recv state real_length bytes = record {
  recv = recv;
  result = if real_length == 0 then no_data state else proto_ok;
  bytes = bytes;
}

-- The branch `next >= read`. Here and below, `none` is a read behind the end of the window.
abbrev pub recv_straight : RecvSpace → List ℕ → ConnState → ℕ → Option Received
recv_straight recv window state len =
    let real_length = min len (recv.next - recv.read) in
    elim (copy window recv.read real_length) [
      | none ↦ none
      | some bytes ↦
          some (finish (record recv { read = add32 recv.read real_length }) state real_length bytes)
    ]

-- The other branch, from the two sizes on.
unfoldable pub copy_both : RecvSpace → List ℕ → ConnState → ℕ → ℕ → Option Received
copy_both recv window state size1 size2 =
    let real_length = add32 size1 size2 in
    elim (copy window recv.read size1) [
      | none ↦ none
      | some bytes1 ↦ elim (copy window 0 size2) [
        | none ↦ none
        | some bytes2 ↦ some (
            finish (record recv { read = add32 recv.read real_length }) state real_length
              (bytes1 ++ bytes2))
      ]
    ]

abbrev pub recv_wrapped : RecvSpace → List ℕ → ConnState → ℕ → Option Received
recv_wrapped recv window state len =
    let size1 = min len (sub32 recv.total_size recv.read) in
    copy_both recv window state size1 (min (sub32 len size1) recv.next)

unfoldable pub tcp_recv_data : RecvSpace → List ℕ → ConnState → ℕ → Option Received
tcp_recv_data recv window state len =
    if leb recv.read recv.next
    then recv_straight recv window state len
    else recv_wrapped recv window state len
