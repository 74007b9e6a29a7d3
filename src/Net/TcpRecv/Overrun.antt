-- ===== src/Net/TcpRecv/Overrun.antt =====
-- A read around the end of the window in `tcp_recv_data` of src/driver/network/protocols/tcp.c: the
-- index `read` is not brought back into the window.
use horizon_operating_system.Common.{
  ℕ, ◌+◌, ◌-◌, ◌^◌, ◌≡◌, ◌<◌, refl, sym, ap, ◌∙◌, List, Option, none, some, false, length, min,
  arith, leb, add32, sub32, u32_mod,
}
use horizon_operating_system.Net.TcpRecv.{
  ConnState, RecvSpace, Received, copy, copy_both, tcp_recv_data,
}
use horizon_operating_system.Net.TcpRecv.Queue.{IsValid, tail_size, tcp_recv_data-wrapped}

abbrev recv_of : RecvSpace → Option Received → RecvSpace
recv_of r none = r
recv_of r (some x) = x.recv

copy-outside :
    (window : List ℕ) (start size : ℕ)
    → length window < start + size
    → copy window start size ≡ none
unfolding copy
copy-outside window start size h = ground arith

copy_both-outside :
    (r : RecvSpace) (window : List ℕ) (state : ConnState) (size1 size2 : ℕ)
    → length window < r.read + size1
    → copy_both r window state size1 size2 ≡ none
unfolding copy_both
copy_both-outside r window state size1 size2 h =
    rw (copy_both, copy-outside window r.read size1 h) refl

-- An index behind the end of the window.
outside-faults :
    (r : RecvSpace) (window : List ℕ) (state : ConnState) (len : ℕ)
    → r.next < r.read
    → (length window ≡ r.total_size) × (r.total_size < r.read)
    → r.read < u32_mod
    → 0 < len
    → tcp_recv_data r window state len ≡ none
unfolding tcp_recv_data
outside-faults r window state len lt h b l =
    let t : leb r.read r.next ≡ false = ground arith in
    let size1 = min len (sub32 r.total_size r.read) in
    rw t (
      copy_both-outside r window state size1 (min (sub32 len size1) r.next)
        (omega (arith, h.0, h.1)))

-- When `tcp_recv_data` has read bytes from both sides of the end of the window, any further call that
-- asks for a byte reads behind the end of the window.
pub tcp_recv_data-overruns :
    (r : RecvSpace) (window : List ℕ) (state state' : ConnState) (len len' : ℕ) (x : Received)
    → IsValid r window
    → (0 < r.next) × (r.next < r.read)
    → (tail_size r < len) × (len < 2 ^ 31)
    → tcp_recv_data r window state len ≡ some x
    → 0 < len'
    → tcp_recv_data x.recv window state' len' ≡ none
tcp_recv_data-overruns r window state state' len len' x h n l e l' =
    let size1 = min len (tail_size r) in
    let size = size1 + min (len - size1) r.next in
    let r1 : RecvSpace = record r { read = add32 r.read size } in
    let moved : x.recv ≡ r1 =
      ap (recv_of r) (sym e ∙ tcp_recv_data-wrapped r window state len h n.1 l.1) in
    let far : add32 r.read size ≡ r.read + size = omega (arith, h.1.1) in
    rw moved (
      outside-faults r1 window state' len' (omega (arith, far)) (h.1.0, omega (arith, far))
        (omega (arith, far, h.1.1)) l')
