-- ===== src/Net/TcpSend.antt =====
-- The queueing and sending of data, `tcp_send_data` of src/driver/network/protocols/tcp.c, behind its
-- tests for NULL. The window is the list of the bytes that `send_window` points to; what is sent is the
-- content of the packet.
pub mod Queue
pub mod Full
mod Tests
use horizon_operating_system.Common.{
  ℕ, ◌+◌, ◌-◌, ◌%◌, ◌^◌, List, [], ◌++◌, Bool, ◌||◌, Option, none, some, length, take, drop, min,
  ltb, leb, ◌==◌, add32, sub32, if◌then◌else◌,
}
use horizon_operating_system.Net.Protocols.{
  ProtocolResult, proto_ok, proto_error_null_ptr, proto_error_no_space_left,
}
use horizon_operating_system.Net.Tcp.{overwrite, int_lt, int_min}
use horizon_operating_system.Net.TcpRecv.{copy}

-- The fields of `send` that the function reads or writes, 32-bit words.
pub record SendSpace : Type 0 where
  pub unack : ℕ
  pub next : ℕ
  pub total_size : ℕ
  pub window : ℕ

-- What a call gives: the new state and window, the result, and the content of the packet sent.
pub record Sent : Type 0 where
  pub send : SendSpace
  pub ring : List ℕ
  pub result : ProtocolResult
  pub bytes : List ℕ

abbrev pub used_space : SendSpace → ℕ
used_space s =
    let used = sub32 s.next s.unack in if leb (2 ^ 31) used then add32 used s.total_size else used

-- A `memcpy` to the window; `none` if it reaches behind the end.
abbrev pub put : List ℕ → ℕ → List ℕ → Option (List ℕ)
put ring start bytes =
    if leb (start + length bytes) (length ring) then some (overwrite ring start bytes) else none

-- The bytes of `buf` are put into the window.
unfoldable pub enqueue : SendSpace → List ℕ → List ℕ → Option (List ℕ)
unfolding overwrite
enqueue s ring buf =
    let size1 = min (length buf) (sub32 s.total_size s.next) in
    let size = min (length buf) (sub32 s.total_size (used_space s)) in
    if ltb s.unack s.next
    then elim (put ring s.next (take size1 buf)) [
      | none ↦ none
      | some ring1 ↦ put ring1 0 (drop size1 buf)
    ]
    else put ring s.next (take size buf)

-- Data are sent from the window, from `unack` on: `used` is `used_space`, and `max` the most that fits, an
-- int. A negative size reaches behind the end of the window.
unfoldable pub send_straight : SendSpace → List ℕ → ℕ → Option Sent
unfolding copy
send_straight s ring size = elim (copy ring s.unack size) [
  | none ↦ none
  | some bytes ↦ some (record {
    send = record s { unack = add32 s.unack size % s.total_size };
    ring = ring;
    result = proto_ok;
    bytes = bytes;
  })
]

unfoldable pub send_wrapped : SendSpace → List ℕ → ℕ → ℕ → Option Sent
unfolding copy
send_wrapped s ring max used =
    let size1 = min max (sub32 s.total_size s.unack) in
    let size2 = min (min (sub32 max size1) s.next) (sub32 used size1) in
    elim (copy ring s.unack size1) [
      | none ↦ none
      | some bytes1 ↦ elim (copy ring 0 size2) [
        | none ↦ none
        | some bytes2 ↦ some (record {
          send = record s { next = add32 s.next (size1 + size2) % s.total_size };
          ring = ring;
          result = proto_ok;
          bytes = bytes1 ++ bytes2;
        })
      ]
    ]

abbrev pub send_queued : SendSpace → List ℕ → ℕ → ℕ → Option Sent
send_queued s ring max used =
    if ltb s.unack s.next
    then send_straight s ring (int_min max used)
    else send_wrapped s ring max used

-- `none` is an access behind the end of the window.
unfoldable pub tcp_send_data : ℕ → SendSpace → List ℕ → List ℕ → Option Sent
unfolding enqueue send_straight send_wrapped
tcp_send_data mss s ring buf =
    let used = used_space s in
    if length buf == 0
    then some (record { send = s; ring = ring; result = proto_error_null_ptr; bytes = [] })
    else if int_lt (sub32 s.total_size used) (length buf)
    then some (record { send = s; ring = ring; result = proto_error_no_space_left; bytes = [] })
    else elim (enqueue s ring buf) [
      | none ↦ none
      | some ring' ↦
          let s' = record s { next = add32 s.next (length buf) % s.total_size } in
          send_queued s' ring' (min mss s.window) (add32 used (length buf))
    ]
