-- ===== src/Net/Tcp/Bounds.antt =====
-- The bounds of the retransmission time of a connection in src/driver/network/protocols/tcp.c.
use horizon_operating_system.Common.{
  ℕ, ◌/◌, ◌^◌, ◌<◌, ◌≡◌, ◌≤◌, ap, ◌==◌, leb, ◌&&◌, not, length, add32, Bool, true, false, List, [],
  ◌∷◌, none, some, Option-cases, inl, inr, sub32, arith, if◌then◌else◌,
}
use horizon_operating_system.Net.Tcp.{
  no_flags, int_div, int_abs, int_max, int_min, mul32, rto_for, next_rttvar, next_srtt,
  tcp_reset_conn, TcpState, listen, syn_sent, syn_received, established, fin_wait1, fin_wait2,
  close_wait, closing, last_ack, time_wait, closed, Tcp, Clock, Segment, Flags, set_timer,
  tcp_send_packet, tcp_ack, tcp_ack_handler, take_data, take_ack, store_data,
  tcp_compute_retransmission_timer,
}
use horizon_operating_system.Net.Tcp.Options.{tcp_options_handler}
use horizon_operating_system.Net.Tcp.Receive.{
  on_listen, on_syn_sent, on_syn_received, on_established, on_closing, on_fin_wait1, on_fin_wait2,
  on_last_ack, rx_switch, take_rst, tcp_rx_handler,
}
use horizon_operating_system.Net.Tcp.Events.{
  Event, receive, timeout, shutdown, host_unreachable, net_unreachable, handle, handle_all,
  retransmit, timeout_switch, tcp_timeout_handler, tcp_shutdown, tcp_notify_unreachable,
}
use horizon_operating_system.Net.Tcp.Diagram.{the}

-- From one second to one minute.
abbrev pub InBounds : ℕ → Type 0
InBounds rto = (1000 ≤ rto) × (rto ≤ 60000)

-- The estimates are so small that no int overflows.
abbrev pub IsTimed : Tcp → Type 0
IsTimed t = InBounds t.rto × ((t.srtt < 2 ^ 28) × (t.rttvar < 2 ^ 28))

int_div-small : (x k : ℕ) → x < 2 ^ 31 → int_div x k ≡ x / k
unfolding int_div
int_div-small x k h = ground arith

int_abs-small : (a b : ℕ) → a < 2 ^ 28 → b < 2 ^ 28 → int_abs (sub32 a b) < 2 ^ 28
unfolding int_abs
int_abs-small a b h k = ground arith

rttvar-small :
    (rttvar srtt r : ℕ)
    → rttvar < 2 ^ 28
    → srtt < 2 ^ 28
    → r < 2 ^ 28
    → next_rttvar rttvar srtt r < 2 ^ 28
unfolding next_rttvar
rttvar-small rttvar srtt r a b c =
    let d = int_abs (sub32 srtt r) in
    let small : d < 2 ^ 28 = int_abs-small srtt r b c in
    omega (arith, small, int_div-small (add32 (mul32 3 rttvar) d) 4 (omega (arith, small)))

srtt-small : (srtt r : ℕ) → srtt < 2 ^ 28 → r < 2 ^ 28 → next_srtt srtt r < 2 ^ 28
unfolding next_srtt
srtt-small srtt r b c = omega (arith, int_div-small (add32 (mul32 7 srtt) r) 8 (omega arith))

max-bounds : (b : ℕ) → b < 2 ^ 30 → (1000 ≤ int_max 1000 b) × (int_max 1000 b < 2 ^ 30)
unfolding int_max
max-bounds b h = ground arith

min-InBounds : (a : ℕ) → 1000 ≤ a → a < 2 ^ 31 → InBounds (int_min a 60000)
unfolding int_min
min-InBounds a h k = ground arith

rto_for-InBounds :
    (srtt rttvar : ℕ) → srtt < 2 ^ 28 → rttvar < 2 ^ 28 → InBounds (rto_for srtt rttvar)
unfolding rto_for
rto_for-InBounds srtt rttvar h k =
    let m = max-bounds (mul32 4 rttvar) (omega arith) in
    min-InBounds (add32 srtt (int_max 1000 (mul32 4 rttvar))) (omega (arith, m)) (omega (arith, m))

compute-IsTimed :
    (t : Tcp) (r : ℕ) → r < 2 ^ 28 → IsTimed t → IsTimed (tcp_compute_retransmission_timer t r)
unfolding tcp_compute_retransmission_timer
compute-IsTimed t r small b =
    let half : int_div r 2 < 2 ^ 28 = omega (arith, int_div-small r 2 (omega arith)) in
    let v = rttvar-small t.rttvar t.srtt r b.1.1 b.1.0 small in
    let w = srtt-small t.srtt r b.1.0 small in
    ground (
      arith,
      half,
      v,
      w,
      rto_for-InBounds r (int_div r 2) small half,
      rto_for-InBounds (next_srtt t.srtt r) (next_rttvar t.rttvar t.srtt r) w v,
    )

-- The times are the same.
abbrev SameTimes : Tcp → Tcp → Type 0
SameTimes u t = (u.rto ≡ t.rto) × ((u.srtt ≡ t.srtt) × (u.rttvar ≡ t.rttvar))

SameTimes-IsTimed : (t u : Tcp) → SameTimes u t → IsTimed t → IsTimed u
SameTimes-IsTimed t u e b = omega (arith, e, b)

store_data-SameTimes : (t : Tcp) (bytes : List ℕ) → SameTimes (store_data t bytes) t
unfolding store_data
store_data-SameTimes t bytes = ground arith

take_ack-SameTimes : (t : Tcp) (s : Segment) → SameTimes (take_ack t s) t
unfolding take_ack
take_ack-SameTimes t s = ground arith

tcp_ack-SameTimes : (clock : Clock) (t : Tcp) (f : Flags) → SameTimes (tcp_ack clock t f) t
unfolding tcp_ack tcp_send_packet set_timer
tcp_ack-SameTimes clock t f = ground arith

-- What is measured when a segment comes.
abbrev pub IsShort : Clock → Tcp → Type 0
IsShort clock t = sub32 clock.counter t.send_time < 2 ^ 28

if-IsTimed : (b : Bool) (t u : Tcp) → IsTimed t → IsTimed u → IsTimed (if b then t else u)
if-IsTimed true t u h k = h
if-IsTimed false t u h k = k

take_data-IsTimed :
    (clock : Clock) (t : Tcp) (s : Segment)
    → IsShort clock t
    → IsTimed t
    → IsTimed (take_data clock t s)
unfolding take_data
take_data-IsTimed clock t s r b =
    let computed = tcp_compute_retransmission_timer t (sub32 clock.counter t.send_time) in
    let taken = leb t.send_seq s.ack && not (t.send_seq == 0) in
    let measured = if taken then record computed { send_seq = 0 } else t in
    let t1 = store_data measured s.content in
    let t2 = record t1 { send_wl1 = s.seq; cur_ack = add32 s.seq (length s.content) } in
    SameTimes-IsTimed measured (tcp_ack clock t2 no_flags)
      (omega (arith, tcp_ack-SameTimes clock t2 no_flags, store_data-SameTimes measured s.content))
      (if-IsTimed taken (record computed { send_seq = 0 }) t
        (compute-IsTimed t (sub32 clock.counter t.send_time) r b) b)

tcp_ack_handler-IsTimed :
    (clock : Clock) (t : Tcp) (s : Segment)
    → IsShort clock t
    → IsTimed t
    → IsTimed (tcp_ack_handler clock t s)
unfolding tcp_ack_handler
tcp_ack_handler-IsTimed clock t s r b =
    let u = if length s.content == 0 then t else take_data clock t s in
    SameTimes-IsTimed u (take_ack u s) (take_ack-SameTimes u s) (
      if-IsTimed (length s.content == 0) t (take_data clock t s) b
        (take_data-IsTimed clock t s r b))

on_listen-IsTimed :
    (clock : Clock) (index : ℕ) (t : Tcp) (s : Segment)
    → IsTimed t
    → IsTimed (on_listen clock index t s)
unfolding on_listen
on_listen-IsTimed clock index t s b = ground arith

on_syn_sent-IsTimed :
    (clock : Clock) (index : ℕ) (t : Tcp) (s : Segment)
    → IsTimed t
    → IsTimed (on_syn_sent clock index t s)
unfolding on_syn_sent
on_syn_sent-IsTimed clock index t s b = ground arith

on_syn_received-IsTimed :
    (index : ℕ) (t : Tcp) (s : Segment) → IsTimed t → IsTimed (on_syn_received index t s)
unfolding on_syn_received
on_syn_received-IsTimed index t s b = ground arith

on_last_ack-IsTimed : (t : Tcp) (s : Segment) → IsTimed t → IsTimed (on_last_ack t s)
unfolding on_last_ack
on_last_ack-IsTimed t s b = ground arith

on_established-IsTimed :
    (clock : Clock) (t : Tcp) (s : Segment)
    → IsShort clock t
    → IsTimed t
    → IsTimed (on_established clock t s)
unfolding on_established
on_established-IsTimed clock t s r b = ground (arith, tcp_ack_handler-IsTimed clock t s r b)

on_closing-IsTimed :
    (clock : Clock) (t : Tcp) (s : Segment)
    → IsShort clock t
    → IsTimed t
    → IsTimed (on_closing clock t s)
unfolding on_closing
on_closing-IsTimed clock t s r b = ground (arith, tcp_ack_handler-IsTimed clock t s r b)

on_fin_wait1-IsTimed :
    (clock : Clock) (t : Tcp) (s : Segment)
    → IsShort clock t
    → IsTimed t
    → IsTimed (on_fin_wait1 clock t s)
unfolding on_fin_wait1
on_fin_wait1-IsTimed clock t s r b = ground (arith, tcp_ack_handler-IsTimed clock t s r b)

on_fin_wait2-IsTimed :
    (clock : Clock) (t : Tcp) (s : Segment)
    → IsShort clock t
    → IsTimed t
    → IsTimed (on_fin_wait2 clock t s)
unfolding on_fin_wait2
on_fin_wait2-IsTimed clock t s r b = ground (arith, tcp_ack_handler-IsTimed clock t s r b)

reset-IsTimed : (t : Tcp) → IsTimed t → IsTimed (tcp_reset_conn t)
unfolding tcp_reset_conn
reset-IsTimed t b = b

rx_switch-IsTimed :
    (state : TcpState) (clock : Clock) (index : ℕ) (t : Tcp) (s : Segment)
    → IsShort clock t
    → IsTimed t
    → IsTimed (rx_switch state clock index t s)
unfolding rx_switch
rx_switch-IsTimed listen clock index t s r b = on_listen-IsTimed clock index t s b
rx_switch-IsTimed syn_sent clock index t s r b = on_syn_sent-IsTimed clock index t s b
rx_switch-IsTimed syn_received clock index t s r b = on_syn_received-IsTimed index t s b
rx_switch-IsTimed established clock index t s r b = on_established-IsTimed clock t s r b
rx_switch-IsTimed fin_wait1 clock index t s r b = on_fin_wait1-IsTimed clock t s r b
rx_switch-IsTimed fin_wait2 clock index t s r b = on_fin_wait2-IsTimed clock t s r b
rx_switch-IsTimed closing clock index t s r b = on_closing-IsTimed clock t s r b
rx_switch-IsTimed last_ack clock index t s r b = on_last_ack-IsTimed t s b
rx_switch-IsTimed close_wait clock index t s r b = reset-IsTimed t b
rx_switch-IsTimed time_wait clock index t s r b = reset-IsTimed t b
rx_switch-IsTimed closed clock index t s r b = reset-IsTimed t b

after_rst-IsTimed :
    (rst : Bool) (clock : Clock) (index : ℕ) (t : Tcp) (s : Segment)
    → IsShort clock t
    → IsTimed t
    → IsTimed (rx_switch (take_rst rst t).state clock index (take_rst rst t) s)
after_rst-IsTimed true clock index t s r b =
    rx_switch-IsTimed closed clock index (take_rst true t) s r b
after_rst-IsTimed false clock index t s r b = rx_switch-IsTimed t.state clock index t s r b

retransmit-IsTimed :
    (clock : Clock) (limit : ℕ) (t : Tcp)
    → 1000 ≤ limit
    → IsTimed t
    → IsTimed (retransmit clock limit t)
unfolding retransmit
retransmit-IsTimed clock limit t l b = ground arith

timeout_switch-IsTimed :
    (state : TcpState) (clock : Clock) (t : Tcp)
    → IsTimed t
    → IsTimed (timeout_switch state clock t)
unfolding timeout_switch
timeout_switch-IsTimed syn_sent clock t b = retransmit-IsTimed clock 3000 t (omega arith) b
timeout_switch-IsTimed syn_received clock t b = retransmit-IsTimed clock 3000 t (omega arith) b
timeout_switch-IsTimed established clock t b = retransmit-IsTimed clock 60000 t (omega arith) b
timeout_switch-IsTimed fin_wait1 clock t b = retransmit-IsTimed clock 60000 t (omega arith) b
timeout_switch-IsTimed fin_wait2 clock t b = b
timeout_switch-IsTimed time_wait clock t b = b
timeout_switch-IsTimed listen clock t b = b
timeout_switch-IsTimed close_wait clock t b = b
timeout_switch-IsTimed closing clock t b = b
timeout_switch-IsTimed last_ack clock t b = b
timeout_switch-IsTimed closed clock t b = b

tcp_shutdown-IsTimed :
    (how : ℕ) (clock : Clock) (t : Tcp) → IsTimed t → IsTimed (tcp_shutdown how clock t).0
unfolding tcp_shutdown
tcp_shutdown-IsTimed how clock t b = ground arith

-- A segment comes less than 2 ^ 28 counts of the timer after the time that is measured from.
abbrev pub IsShortIn : Event → Tcp → Type 0
IsShortIn (receive clock s) t = IsShort clock t
IsShortIn e t = Unit

handle-IsTimed :
    (fuel : ℕ) (e : Event) (t t' : Tcp)
    → IsTimed t
    → IsShortIn e t
    → handle fuel e t ≡ some t'
    → IsTimed t'
unfolding handle tcp_timeout_handler tcp_notify_unreachable tcp_rx_handler
handle-IsTimed fuel (receive clock s) t t' b m h =
    elim (Option-cases (tcp_options_handler fuel s.options)) [
      | inl e ↦ absurd (ground arith)
      | inr e ↦
          let made : some
                (rx_switch (take_rst s.flags.rst t).state clock e.0 (take_rst s.flags.rst t) s)
              ≡ some t' =
            rw (tcp_rx_handler, e.1) at h in
          rw (← ap (the t) made) (after_rst-IsTimed s.flags.rst clock e.0 t s m b)
    ]
handle-IsTimed fuel (timeout clock) t t' b m h =
    rw (← ap (the t) h) (timeout_switch-IsTimed t.state clock t b)
handle-IsTimed fuel (shutdown how clock) t t' b m h =
    rw (← ap (the t) h) (tcp_shutdown-IsTimed how clock t b)
handle-IsTimed fuel host_unreachable t t' b m h = rw (← ap (the t) h) b
handle-IsTimed fuel net_unreachable t t' b m h = rw (← ap (the t) h) b

-- So do all segments.
abbrev pub AllShort : ℕ → List Event → Tcp → Type 0
AllShort fuel [] t = Unit
AllShort fuel (x ∷ es) t =
    IsShortIn x t × elim (handle fuel x t) [ none ↦ Unit | some u ↦ AllShort fuel es u ]

-- Whatever segments, time-outs and calls come, the retransmission time stays between one second and one minute,
-- and both estimates below 2 ^ 28, if no segment comes 2 ^ 28 or more counts of the timer after the time that
-- is measured from.
pub handle_all-InBounds :
    (fuel : ℕ) (es : List Event) (t t' : Tcp)
    → IsTimed t
    → AllShort fuel es t
    → handle_all fuel es t ≡ some t'
    → IsTimed t'
unfolding handle_all
handle_all-InBounds fuel [] t t' b m h = rw (← ap (the t) h) b
handle_all-InBounds fuel (x ∷ es) t t' b m h = elim (Option-cases (handle fuel x t)) [
  | inl e ↦ absurd (ground arith)
  | inr u ↦
      handle_all-InBounds fuel es u.0 t' (handle-IsTimed fuel x t u.0 b m.0 u.1) (rw u.1 at m.1)
        (rw (handle_all, u.1) at h)
]
