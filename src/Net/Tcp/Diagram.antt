-- ===== src/Net/Tcp/Diagram.antt =====
-- The moves between the states of a connection in src/driver/network/protocols/tcp.c, beside the
-- diagram in src/include/driver/network/protocols/tcp.h.
use horizon_operating_system.Common.{
  ℕ, ◌≡◌, refl, Bool, true, false, Option, none, some, inl, inr, ◌⊎◌, List, sub32, arith,
}
use horizon_operating_system.Net.Tcp.{
  TcpState, listen, syn_sent, syn_received, established, fin_wait1, fin_wait2, close_wait, closing,
  last_ack, time_wait, closed, Tcp, Clock, Segment, Flags, set_timer, tcp_reset_conn,
  tcp_send_packet, tcp_ack, tcp_ack_handler, take_data, take_ack, store_data,
  tcp_compute_retransmission_timer,
}
use horizon_operating_system.Net.Tcp.Receive.{
  on_listen, on_syn_sent, on_syn_received, on_established, on_closing, on_fin_wait1, on_fin_wait2,
  on_last_ack, rx_switch, take_rst,
}

-- The arrows of the diagram that an arriving segment labels.
pub data Arrow : TcpState → TcpState → Type 0 where
  passive_open : Arrow listen syn_received
  simultaneous_open : Arrow syn_sent syn_received
  active_open : Arrow syn_sent established
  opened : Arrow syn_received established
  rcv_fin : Arrow established close_wait
  fin_acked : Arrow fin_wait1 fin_wait2
  fin_crossed : Arrow fin_wait1 closing
  fin_answered : Arrow fin_wait2 time_wait
  closing_acked : Arrow closing time_wait
  last_acked : Arrow last_ack closed

-- An arrow, no move, or a reset.
pub data Move : TcpState → TcpState → Type 0 where
  arrow : {s t : TcpState} → Arrow s t → Move s t
  stay : {s : TcpState} → Move s s
  reset : {s : TcpState} → Move s closed

pub ruleset arrows = (
  passive_open, simultaneous_open, active_open, opened, rcv_fin, fin_acked, fin_crossed,
  fin_answered, closing_acked, last_acked, arrow, stay, reset,
)

pub tcp_ack-state : (clock : Clock) (t : Tcp) (f : Flags) → (tcp_ack clock t f).state ≡ t.state
unfolding tcp_ack tcp_send_packet set_timer
tcp_ack-state clock t f = ground arith

store_data-state : (t : Tcp) (bytes : List ℕ) → (store_data t bytes).state ≡ t.state
unfolding store_data
store_data-state t bytes = ground arith

compute-state : (t : Tcp) (r : ℕ) → (tcp_compute_retransmission_timer t r).state ≡ t.state
unfolding tcp_compute_retransmission_timer
compute-state t r = ground arith

take_data-state : (clock : Clock) (t : Tcp) (s : Segment) → (take_data clock t s).state ≡ t.state
unfolding take_data
take_data-state clock t s =
    let r = sub32 clock.counter t.send_time in
    let measured = tcp_compute_retransmission_timer t r in
    ground (
      arith,
      compute-state t r,
      store_data-state t s.content,
      store_data-state (record measured { send_seq = 0 }) s.content,
    )

take_ack-state : (t : Tcp) (s : Segment) → (take_ack t s).state ≡ t.state
unfolding take_ack
take_ack-state t s = ground arith

pub tcp_ack_handler-state :
    (clock : Clock) (t : Tcp) (s : Segment) → (tcp_ack_handler clock t s).state ≡ t.state
unfolding tcp_ack_handler
tcp_ack_handler-state clock t s =
    ground
      (arith, take_data-state clock t s, take_ack-state t s, take_ack-state (take_data clock t s) s)

on_listen-Move :
    (clock : Clock) (index : ℕ) (t : Tcp) (s : Segment)
    → t.state ≡ listen
    → Move listen (on_listen clock index t s).state
unfolding on_listen
on_listen-Move clock index t s h = grind (arith, arrows)

on_established-Move :
    (clock : Clock) (t : Tcp) (s : Segment)
    → t.state ≡ established
    → Move established (on_established clock t s).state
unfolding on_established
on_established-Move clock t s h = grind (arith, arrows, tcp_ack_handler-state)

pub tcp_reset_conn-state : (t : Tcp) → (tcp_reset_conn t).state ≡ closed
unfolding tcp_reset_conn
tcp_reset_conn-state t = refl

on_syn_sent-Move :
    (clock : Clock) (index : ℕ) (t : Tcp) (s : Segment)
    → Move syn_sent (on_syn_sent clock index t s).state
unfolding on_syn_sent
on_syn_sent-Move clock index t s = grind (arith, arrows)

on_syn_received-Move :
    (index : ℕ) (t : Tcp) (s : Segment)
    → t.state ≡ syn_received
    → Move syn_received (on_syn_received index t s).state
unfolding on_syn_received
on_syn_received-Move index t s h = grind (arith, arrows)

on_closing-cases :
    (clock : Clock) (t : Tcp) (s : Segment)
    → t.state ≡ closing
    → ((on_closing clock t s).state ≡ time_wait) ⊎ ((on_closing clock t s).state ≡ closing)
unfolding on_closing
on_closing-cases clock t s h =
    let t1 = tcp_ack_handler clock t s in ground (arith, tcp_ack_handler-state clock t s)

on_closing-Move :
    (clock : Clock) (t : Tcp) (s : Segment)
    → t.state ≡ closing
    → Move closing (on_closing clock t s).state
on_closing-Move clock t s h = elim (on_closing-cases clock t s h) [
  | inl e ↦ rw e (search arrows)
  | inr e ↦ rw e (search arrows)
]

on_fin_wait1-cases :
    (clock : Clock) (t : Tcp) (s : Segment)
    → t.state ≡ fin_wait1
    → ((on_fin_wait1 clock t s).state ≡ closing)
      ⊎ (((on_fin_wait1 clock t s).state ≡ fin_wait2)
          ⊎ ((on_fin_wait1 clock t s).state ≡ fin_wait1))
unfolding on_fin_wait1
on_fin_wait1-cases clock t s h = ground (arith, tcp_ack_handler-state clock t s)

on_fin_wait1-Move :
    (clock : Clock) (t : Tcp) (s : Segment)
    → t.state ≡ fin_wait1
    → Move fin_wait1 (on_fin_wait1 clock t s).state
on_fin_wait1-Move clock t s h = elim (on_fin_wait1-cases clock t s h) [
  | inl e ↦ rw e (search arrows)
  | inr (inl e) ↦ rw e (search arrows)
  | inr (inr e) ↦ rw e (search arrows)
]

on_fin_wait2-Move :
    (clock : Clock) (t : Tcp) (s : Segment)
    → t.state ≡ fin_wait2
    → Move fin_wait2 (on_fin_wait2 clock t s).state
unfolding on_fin_wait2
on_fin_wait2-Move clock t s h = grind (arith, arrows, tcp_ack_handler-state)

on_last_ack-Move :
    (t : Tcp) (s : Segment) → t.state ≡ last_ack → Move last_ack (on_last_ack t s).state
unfolding on_last_ack
on_last_ack-Move t s h = grind (arith, arrows)

rx_switch-Move :
    (state : TcpState) (clock : Clock) (index : ℕ) (t : Tcp) (s : Segment)
    → t.state ≡ state
    → Move state (rx_switch state clock index t s).state
unfolding rx_switch
rx_switch-Move listen clock index t s h = on_listen-Move clock index t s h
rx_switch-Move syn_sent clock index t s h = on_syn_sent-Move clock index t s
rx_switch-Move syn_received clock index t s h = on_syn_received-Move index t s h
rx_switch-Move established clock index t s h = on_established-Move clock t s h
rx_switch-Move fin_wait1 clock index t s h = on_fin_wait1-Move clock t s h
rx_switch-Move fin_wait2 clock index t s h = on_fin_wait2-Move clock t s h
rx_switch-Move closing clock index t s h = on_closing-Move clock t s h
rx_switch-Move last_ack clock index t s h = on_last_ack-Move t s h
rx_switch-Move close_wait clock index t s h = rw (tcp_reset_conn-state t) reset
rx_switch-Move time_wait clock index t s h = rw (tcp_reset_conn-state t) reset
rx_switch-Move closed clock index t s h = rw (tcp_reset_conn-state t) reset

pub rx_switch-closed :
    (clock : Clock) (index : ℕ) (t : Tcp) (s : Segment)
    → (rx_switch closed clock index t s).state ≡ closed
unfolding rx_switch
rx_switch-closed clock index t s = tcp_reset_conn-state t

pub after_rst-Move :
    (b : Bool) (clock : Clock) (index : ℕ) (t : Tcp) (s : Segment)
    → Move t.state (rx_switch (take_rst b t).state clock index (take_rst b t) s).state
after_rst-Move true clock index t s = rw (rx_switch-closed clock index (take_rst true t) s) reset
after_rst-Move false clock index t s = rx_switch-Move t.state clock index t s refl

abbrev pub the : Tcp → Option Tcp → Tcp
the t none = t
the t (some u) = u
