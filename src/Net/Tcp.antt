-- ===== src/Net/Tcp.antt =====
-- A TCP connection of src/driver/network/protocols/tcp.c: its state, and the functions that the
-- handlers of segments and time-outs share. `Tcp` has the fields of the source's `Tcp` that they
-- use, the state of the `NetworkConnection`, and what is seen from outside: the packets sent.
pub mod Options
pub mod Receive
pub mod Events
pub mod Diagram
pub mod Target
pub mod Resets
pub mod Handshake
pub mod Retransmit
pub mod Bounds
mod Tests
use horizon_operating_system.Common.{
  ℕ, zero, suc, ◌+◌, ◌-◌, ◌*◌, ◌/◌, ◌%◌, ◌^◌, min, List, [], ◌∷◌, ◌++◌, Bool, true, false, ◌&&◌,
  ◌||◌, not, take, drop, length, ltb, leb, ◌==◌, add32, sub32, if◌then◌else◌,
}
use horizon_operating_system.Net.TcpRecv.{ConnState, conn_state_closed}

pub data TcpState : Type 0 where
  listen syn_sent syn_received established fin_wait1 fin_wait2 : TcpState
  close_wait closing last_ack time_wait closed : TcpState

-- The bits of the field `flags` of a header, but for URG.
pub record Flags : Type 0 where
  pub fin : Bool
  pub syn : Bool
  pub rst : Bool
  pub psh : Bool
  pub ack : Bool

abbrev pub no_flags : Flags
no_flags = record { fin = false; syn = false; rst = false; psh = false; ack = false }

-- A packet sent: the flags, and the fields `seq` and `ack` of its header.
pub record Packet : Type 0 where
  pub flags : Flags
  pub seq : ℕ
  pub ack : ℕ

-- A buffer that a pointer field points to.
pub data Window : Type 0 where
  null : Window
  live : List ℕ → Window
  freed : Window

-- `timer` is the time in milliseconds that the timer is set to while its callback is enabled.
-- `fault` tells that memory was freed twice or written where it does not belong, or that a
-- division by 0 was met.
pub record Tcp : Type 0 where
  pub state : TcpState
  pub conn_state : ConnState
  pub mss : ℕ
  pub send_unack : ℕ
  pub send_wl1 : ℕ
  pub send_wl2 : ℕ
  pub send_iss : ℕ
  pub send_total_size : ℕ
  pub remote_window_size : ℕ
  pub send_window : Window
  pub recv_next : ℕ
  pub recv_window_size : ℕ
  pub recv_irs : ℕ
  pub recv_total_size : ℕ
  pub recv_window : Window
  pub cur_seq : ℕ
  pub cur_ack : ℕ
  pub fin_seq : ℕ
  pub send_time : ℕ
  pub send_seq : ℕ
  pub rttvar : ℕ
  pub srtt : ℕ
  pub rto : ℕ
  pub retry_times : ℕ
  pub timer : ℕ
  pub timer_enabled : Bool
  pub header : Packet
  pub sent : List Packet
  pub fault : Bool

-- What the timer tells, its counter and whether the time of the connection's timer is over, and what
-- `tcp_generate_isn` gives.
pub record Clock : Type 0 where
  pub counter : ℕ
  pub is_timeout : Bool
  pub isn : ℕ

abbrev pub freed_already : Window → Bool
freed_already freed = true
freed_already w = false

-- `kfree`, which does nothing for NULL.
abbrev pub kfree : Window → Window
kfree null = null
kfree w = freed

unfoldable pub set_timer : Tcp → ℕ → Tcp
set_timer t ms = record t { timer = ms; timer_enabled = true }

unfoldable pub tcp_reset_conn : Tcp → Tcp
tcp_reset_conn t =
    let h = record t.header { flags = record no_flags { rst = true }; ack = 0 } in
    record t {
      state = closed;
      conn_state = conn_state_closed;
      header = h;
      fault = t.fault || (freed_already t.send_window || freed_already t.recv_window);
      send_window = kfree t.send_window;
      recv_window = kfree t.recv_window;
      sent = h ∷ t.sent;
    }

-- `tcp_send_packet` with `set_timer`, as all its callers here have it; the data are left out.
unfoldable pub tcp_send_packet : Clock → Tcp → Tcp
unfolding set_timer
tcp_send_packet clock t =
    let h = record t.header { seq = t.cur_seq; ack = t.cur_ack } in
    let t1 = record t {
      header = h;
      send_time = if t.send_time == 0 then clock.counter else t.send_time;
      send_seq = if t.send_time == 0 then t.cur_seq else t.send_seq;
      fin_seq = if t.header.flags.fin then t.cur_seq else t.fin_seq;
      sent = h ∷ t.sent;
    } in
    if clock.is_timeout then set_timer t1 t1.rto else t1

unfoldable pub tcp_ack : Clock → Tcp → Flags → Tcp
unfolding tcp_send_packet
tcp_ack clock t extra_flag =
    tcp_send_packet clock
      (record t { header = record t.header { flags = record extra_flag { ack = true } } })

-- The ints are words of 32 bits, negative from 2 ^ 31 on, and sums and products wrap. An int divided by a
-- number is rounded towards 0.
abbrev pub is_negative : ℕ → Bool
is_negative x = leb (2 ^ 31) x

abbrev pub int_neg : ℕ → ℕ
int_neg x = sub32 0 x

unfoldable pub int_div : ℕ → ℕ → ℕ
int_div x k = if is_negative x then int_neg (int_neg x / k) else x / k

unfoldable pub int_abs : ℕ → ℕ
int_abs x = if is_negative x then int_neg x else x

-- `a < b` on ints.
abbrev pub int_lt : ℕ → ℕ → Bool
int_lt a b = ltb ((a + 2 ^ 31) % 2 ^ 32) ((b + 2 ^ 31) % 2 ^ 32)

unfoldable pub int_max : ℕ → ℕ → ℕ
int_max a b = if int_lt b a then a else b

unfoldable pub int_min : ℕ → ℕ → ℕ
int_min a b = if int_lt a b then a else b

abbrev pub mul32 : ℕ → ℕ → ℕ
mul32 k x = k * x % 2 ^ 32

-- `rto` for the two estimates, and at most one minute.
unfoldable pub rto_for : ℕ → ℕ → ℕ
unfolding int_max int_min
rto_for srtt rttvar = int_min (add32 srtt (int_max 1000 (mul32 4 rttvar))) 60000

unfoldable pub next_rttvar : ℕ → ℕ → ℕ → ℕ
unfolding int_div int_abs
next_rttvar rttvar srtt r = int_div (add32 (mul32 3 rttvar) (int_abs (sub32 srtt r))) 4

unfoldable pub next_srtt : ℕ → ℕ → ℕ
unfolding int_div
next_srtt srtt r = int_div (add32 (mul32 7 srtt) r) 8

unfoldable pub tcp_compute_retransmission_timer : Tcp → ℕ → Tcp
tcp_compute_retransmission_timer t r =
    if r == 0
    then (if t.rttvar == 0 then record t { rto = 1000 } else t)
    else if t.rttvar == 0
    then record t { srtt = r; rttvar = int_div r 2; rto = rto_for r (int_div r 2) }
    else record t {
      rttvar = next_rttvar t.rttvar t.srtt r;
      srtt = next_srtt t.srtt r;
      rto = rto_for (next_srtt t.srtt r) (next_rttvar t.rttvar t.srtt r);
    }

-- The bytes of a window from an index on, written over.
unfoldable pub overwrite : List ℕ → ℕ → List ℕ → List ℕ
overwrite [] i bytes = []
overwrite (w ∷ ws) (suc i) bytes = w ∷ overwrite ws i bytes
overwrite (w ∷ ws) zero [] = w ∷ ws
overwrite (w ∷ ws) zero (b ∷ bytes) = b ∷ overwrite ws zero bytes

-- The `memcpy`s of received data into the window, and what is kept of it.
unfoldable pub store_data : Tcp → List ℕ → Tcp
unfolding overwrite
store_data t bytes =
    let size1 = min (sub32 t.recv_total_size t.recv_next) (length bytes) in
    let next = add32 t.recv_next (length bytes) in
    elim t.recv_window [
      | null ↦ t
      | freed ↦ record t { fault = true }
      | live w ↦ record t {
        recv_window =
            live (overwrite (overwrite w t.recv_next (take size1 bytes)) 0 (drop size1 bytes));
        recv_next = next % t.recv_total_size;
        recv_window_size = sub32 t.recv_window_size (length bytes);
        fault =
            t.fault
            || ltb (length w) (t.recv_next + size1)
            || ltb (length w) (length bytes - size1)
            || (t.recv_total_size == 0);
      }
    ]

-- A segment: its flags, `seq` and `ack`, its window, its options and its data.
pub record Segment : Type 0 where
  pub flags : Flags
  pub seq : ℕ
  pub ack : ℕ
  pub window_size : ℕ
  pub options : List ℕ
  pub content : List ℕ

-- The part of `tcp_ack_handler` for a segment with data.
unfoldable pub take_data : Clock → Tcp → Segment → Tcp
unfolding tcp_compute_retransmission_timer store_data tcp_ack
take_data clock t s =
    let measured =
      if leb t.send_seq s.ack && not (t.send_seq == 0)
      then record (tcp_compute_retransmission_timer t (sub32 clock.counter t.send_time)) {
        send_seq = 0;
      }
      else t in
    let t1 = store_data measured s.content in
    tcp_ack clock (record t1 { send_wl1 = s.seq; cur_ack = add32 s.seq (length s.content) })
      no_flags

-- Its other part, for what a segment acknowledges.
unfoldable pub take_ack : Tcp → Segment → Tcp
take_ack t s =
    let acked = sub32 s.ack t.send_wl2 in
    if acked == 0 then t else record t {
      send_unack = add32 t.send_unack acked % t.send_total_size;
      send_wl2 = s.ack;
      cur_seq = add32 t.cur_seq acked;
      fault = t.fault || (t.send_total_size == 0);
    }

unfoldable pub tcp_ack_handler : Clock → Tcp → Segment → Tcp
unfolding take_data take_ack
tcp_ack_handler clock t s = take_ack (if length s.content == 0 then t else take_data clock t s) s
