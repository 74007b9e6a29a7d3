-- ===== src/Net/Tcp/Tests.antt =====
-- Runs of the handlers of src/driver/network/protocols/tcp.c, and the theorems about them there.
use horizon_operating_system.Common.{
  ◌≡◌, ◌≢◌, refl, List, [], ◌∷◌, true, false, none, replicate, arith, ℕ, inl, inr, ◌⊎◌, ◌≤◌, ◌+◌,
  ap,
}
use horizon_operating_system.Net.TcpRecv.{conn_state_closed}
use horizon_operating_system.Net.Tcp.{
  TcpState, syn_sent, established, closed, no_flags, Packet, null, live, Tcp, Clock, Segment,
}
use horizon_operating_system.Net.Tcp.Options.{
  options_loop, at, tcp_options_handler, IsOption, first, behind_nop, behind_option, HasLengths,
  tcp_options_handler-ends,
}
use horizon_operating_system.Net.Tcp.Receive.{on_established, rx_switch, tcp_rx_handler}
use horizon_operating_system.Net.Tcp.Events.{
  Event, receive, timeout, shutdown, handle, handle_all, tcp_shutdown,
}
use horizon_operating_system.Net.Tcp.Diagram.{the}
use horizon_operating_system.Net.Tcp.Bounds.{IsTimed, handle_all-InBounds}
use horizon_operating_system.Net.Tcp.Retransmit.{time_outs, time_outs_close, sends_syn}

abbrev empty : Packet
empty = record { flags = no_flags; seq = 0; ack = 0 }

-- A connection in a state, with a receive window of four bytes.
abbrev conn : TcpState → Tcp
conn state = record {
  state = state;
  conn_state = conn_state_closed;
  mss = 1460;
  send_unack = 0;
  send_wl1 = 0;
  send_wl2 = 100;
  send_iss = 100;
  send_total_size = 8;
  remote_window_size = 0;
  send_window = null;
  recv_next = 3;
  recv_window_size = 4;
  recv_irs = 0;
  recv_total_size = 4;
  recv_window = live (0 ∷ 0 ∷ 0 ∷ 0 ∷ []);
  cur_seq = 100;
  cur_ack = 0;
  fin_seq = 0;
  send_time = 0;
  send_seq = 0;
  rttvar = 0;
  srtt = 0;
  rto = 1000;
  retry_times = 0;
  timer = 0;
  timer_enabled = false;
  header = empty;
  sent = [];
  fault = false;
}

abbrev clock : Clock
clock = record { counter = 5; is_timeout = false; isn = 700 }

abbrev syn_ack : Segment
syn_ack = record {
  flags = record no_flags { syn = true; ack = true };
  seq = 900;
  ack = 101;
  window_size = 4000;
  options = 2 ∷ 4 ∷ 5 ∷ 180 ∷ [];
  content = [];
}

abbrev syn : Segment
syn = record syn_ack { flags = record no_flags { syn = true }; ack = 0 }

abbrev answer : Segment
answer = record syn_ack {
  flags = record no_flags { ack = true };
  seq = 901;
  ack = 701;
  options = [];
}

abbrev rst : Segment
rst = record answer { flags = record no_flags { rst = true } }

-- Two bytes, which go around the end of the window.
abbrev two_bytes : Segment
two_bytes = record answer { ack = 100; content = 7 ∷ 8 ∷ [] }

window_filled :
    (the (conn closed) (tcp_rx_handler 9 clock (conn established) two_bytes)).recv_window
    ≡ live (8 ∷ 0 ∷ 0 ∷ 7 ∷ [])
unfolding tcp_rx_handler tcp_options_handler options_loop rx_switch on_established
window_filled = refl

time_outs_close_example : (time_outs (replicate 15 clock) (conn syn_sent)).state ≡ closed
time_outs_close_example =
    time_outs_close (replicate 15 clock) (conn syn_sent) sends_syn (omega arith) (omega arith)

-- The user closes, and the other side acknowledges and closes.
abbrev closing_events : List Event
closing_events =
    shutdown 0 clock
    ∷ receive clock
        (record two_bytes { ack = 102; flags = record no_flags { fin = true; ack = true } })
    ∷ timeout clock
    ∷ []

handle_all-InBounds_example :
    IsTimed (the (conn closed) (handle_all 9 closing_events (conn established)))
unfolding handle_all handle tcp_rx_handler tcp_options_handler options_loop tcp_shutdown
handle_all-InBounds_example =
    handle_all-InBounds 9 closing_events (conn established)
      (the (conn closed) (handle_all 9 closing_events (conn established)))
      ((omega arith, omega arith), (omega arith, omega arith)) (tt, (omega arith, (tt, tt))) refl

-- The only option is an MSS of 1280; the 0 is its last byte.
abbrev syn_options : List ℕ
syn_options = 2 ∷ 4 ∷ 5 ∷ 0 ∷ []

syn_options-starts : {i : ℕ} → IsOption syn_options i → (i ≡ 0) ⊎ (4 ≤ i)
syn_options-starts first = inl refl
syn_options-starts (behind_nop i j o k e) = elim (syn_options-starts o) [
  | inl z ↦ absurd (omega (arith, ap (at syn_options) z, k))
  | inr f ↦ inr (omega (arith, f, e))
]
syn_options-starts (behind_option i j o k e) = elim (syn_options-starts o) [
  | inl z ↦ inr (omega (arith, z, ap (λ n. at syn_options (n + 1)) z, e))
  | inr f ↦ inr (omega (arith, f, e))
]

syn_options-HasLengths : HasLengths syn_options
syn_options-HasLengths i o l k e = elim (syn_options-starts o) [
  | inl z ↦ omega (arith, z, ap (λ n. at syn_options (n + 1)) z, e)
  | inr f ↦ omega (arith, f, l)
]

tcp_options_handler-ends_example : tcp_options_handler 5 syn_options ≢ none
tcp_options_handler-ends_example = tcp_options_handler-ends syn_options syn_options-HasLengths
