-- ===== src/Net/Tcp/Target.antt =====
-- The state that each segment leads to in src/driver/network/protocols/tcp.c.
use horizon_operating_system.Common.{
  ℕ, ◌≡◌, refl, Bool, true, false, some, Option-cases, inl, inr, ap, ◌∙◌, List, length, sub32,
  add32, arith, ltb, ◌==◌, ◌&&◌, not, if◌then◌else◌,
}
use horizon_operating_system.Net.Tcp.{
  no_flags, TcpState, listen, syn_sent, syn_received, established, fin_wait1, fin_wait2, close_wait,
  closing, last_ack, time_wait, closed, Tcp, Clock, Segment, set_timer, tcp_send_packet, tcp_ack,
  tcp_ack_handler, take_data, take_ack, store_data, tcp_compute_retransmission_timer,
}
use horizon_operating_system.Net.Tcp.Receive.{
  read_mss, on_listen, on_syn_sent, on_syn_received, on_established, on_closing, on_fin_wait1,
  on_fin_wait2, on_last_ack, rx_switch, take_rst, tcp_rx_handler,
}
use horizon_operating_system.Net.Tcp.Options.{tcp_options_handler}
use horizon_operating_system.Net.Tcp.Diagram.{
  Move, the, tcp_ack-state, tcp_ack_handler-state, tcp_reset_conn-state, rx_switch-closed,
  after_rst-Move,
}

-- `ack` acknowledges the FIN that was sent last.
abbrev pub is_fin_acked : Tcp → Segment → Bool
is_fin_acked t s = s.flags.ack && ltb t.fin_seq s.ack

-- `ack` is behind the SYN that was sent.
abbrev pub is_syn_acked : Tcp → Segment → Bool
is_syn_acked t s = s.flags.ack && (s.ack == add32 t.cur_seq 1)

-- Where a segment without RST leads to. CLOSED is for a reset.
abbrev pub target : TcpState → Tcp → Segment → TcpState
target listen t s = if s.flags.syn then syn_received else listen
target syn_sent t s =
    if not s.flags.syn
    then closed
    else if not s.flags.ack
    then syn_received
    else if is_syn_acked t s
    then established
    else closed
target syn_received t s =
    if not s.flags.ack then syn_received else if is_syn_acked t s then established else closed
target established t s = if s.flags.fin then close_wait else established
target fin_wait1 t s =
    if s.flags.fin then closing else if is_fin_acked t s then fin_wait2 else fin_wait1
target fin_wait2 t s = if s.flags.fin then time_wait else fin_wait2
target closing t s = if is_fin_acked t s then time_wait else closing
target last_ack t s = if is_fin_acked t s then closed else last_ack
target close_wait t s = closed
target time_wait t s = closed
target closed t s = closed

-- No answer to a segment carries FIN while the ones before do their work, so its place is kept.
tcp_ack-fin_seq : (clock : Clock) (t : Tcp) → (tcp_ack clock t no_flags).fin_seq ≡ t.fin_seq
unfolding tcp_ack tcp_send_packet set_timer
tcp_ack-fin_seq clock t = ground arith

store_data-fin_seq : (t : Tcp) (bytes : List ℕ) → (store_data t bytes).fin_seq ≡ t.fin_seq
unfolding store_data
store_data-fin_seq t bytes = ground arith

compute-fin_seq : (t : Tcp) (r : ℕ) → (tcp_compute_retransmission_timer t r).fin_seq ≡ t.fin_seq
unfolding tcp_compute_retransmission_timer
compute-fin_seq t r = ground arith

take_data-fin_seq :
    (clock : Clock) (t : Tcp) (s : Segment) → (take_data clock t s).fin_seq ≡ t.fin_seq
unfolding take_data
take_data-fin_seq clock t s =
    let r = sub32 clock.counter t.send_time in
    let measured = tcp_compute_retransmission_timer t r in
    ground (
      arith,
      compute-fin_seq t r,
      store_data-fin_seq t s.content,
      store_data-fin_seq (record measured { send_seq = 0 }) s.content,
      tcp_ack-fin_seq clock (record (store_data t s.content) {
        send_wl1 = s.seq;
        cur_ack = add32 s.seq (length s.content);
      }),
      tcp_ack-fin_seq clock (record (store_data (record measured { send_seq = 0 }) s.content) {
        send_wl1 = s.seq;
        cur_ack = add32 s.seq (length s.content);
      }),
    )

take_ack-fin_seq : (t : Tcp) (s : Segment) → (take_ack t s).fin_seq ≡ t.fin_seq
unfolding take_ack
take_ack-fin_seq t s = ground arith

with_data-fin_seq :
    (no_data : Bool) (clock : Clock) (t : Tcp) (s : Segment)
    → (if no_data then t else take_data clock t s).fin_seq ≡ t.fin_seq
with_data-fin_seq true clock t s = refl
with_data-fin_seq false clock t s = take_data-fin_seq clock t s

tcp_ack_handler-fin_seq :
    (clock : Clock) (t : Tcp) (s : Segment) → (tcp_ack_handler clock t s).fin_seq ≡ t.fin_seq
unfolding tcp_ack_handler
tcp_ack_handler-fin_seq clock t s =
    take_ack-fin_seq (if length s.content == 0 then t else take_data clock t s) s
    ∙ with_data-fin_seq (length s.content == 0) clock t s

module _ (clock : Clock) (t : Tcp) (s : Segment) where
  listen-target :
      (index : ℕ) → t.state ≡ listen → (on_listen clock index t s).state ≡ target listen t s
  unfolding on_listen
  listen-target index h = ground (
    arith,
    tcp_ack-state clock
        (record t {
          mss = read_mss index s t.mss;
          send_iss = clock.isn;
          cur_seq = clock.isn;
          recv_irs = s.seq;
          cur_ack = add32 s.seq 1;
          remote_window_size = s.window_size;
          state = syn_received;
        })
        (record no_flags { syn = true }),
  )

  syn_sent-target : (index : ℕ) → (on_syn_sent clock index t s).state ≡ target syn_sent t s
  unfolding on_syn_sent tcp_ack tcp_send_packet set_timer
  syn_sent-target index = ground arith

  established-target :
      t.state ≡ established → (on_established clock t s).state ≡ target established t s
  unfolding on_established tcp_ack tcp_send_packet set_timer
  established-target h = ground (arith, tcp_ack_handler-state clock t s)

  fin_wait1-target : t.state ≡ fin_wait1 → (on_fin_wait1 clock t s).state ≡ target fin_wait1 t s
  unfolding on_fin_wait1 set_timer
  fin_wait1-target h =
      ground (arith, tcp_ack_handler-state clock t s, tcp_ack_handler-fin_seq clock t s)

  fin_wait2-target : t.state ≡ fin_wait2 → (on_fin_wait2 clock t s).state ≡ target fin_wait2 t s
  unfolding on_fin_wait2 tcp_ack tcp_send_packet set_timer
  fin_wait2-target h = ground (arith, tcp_ack_handler-state clock t s)

  closing-target : t.state ≡ closing → (on_closing clock t s).state ≡ target closing t s
  unfolding on_closing tcp_ack tcp_send_packet set_timer
  closing-target h =
      ground (arith, tcp_ack_handler-state clock t s, tcp_ack_handler-fin_seq clock t s)

module _ (t : Tcp) (s : Segment) where
  syn_received-target :
      (index : ℕ)
      → t.state ≡ syn_received
      → (on_syn_received index t s).state ≡ target syn_received t s
  unfolding on_syn_received
  syn_received-target index h = ground arith

  last_ack-target : t.state ≡ last_ack → (on_last_ack t s).state ≡ target last_ack t s
  unfolding on_last_ack
  last_ack-target h = ground arith

rx_switch-target :
    (state : TcpState) (clock : Clock) (index : ℕ) (t : Tcp) (s : Segment)
    → t.state ≡ state
    → (rx_switch state clock index t s).state ≡ target state t s
unfolding rx_switch
rx_switch-target listen clock index t s h = listen-target clock t s index h
rx_switch-target syn_sent clock index t s h = syn_sent-target clock t s index
rx_switch-target syn_received clock index t s h = syn_received-target t s index h
rx_switch-target established clock index t s h = established-target clock t s h
rx_switch-target fin_wait1 clock index t s h = fin_wait1-target clock t s h
rx_switch-target fin_wait2 clock index t s h = fin_wait2-target clock t s h
rx_switch-target closing clock index t s h = closing-target clock t s h
rx_switch-target last_ack clock index t s h = last_ack-target t s h
rx_switch-target close_wait clock index t s h = tcp_reset_conn-state t
rx_switch-target time_wait clock index t s h = tcp_reset_conn-state t
rx_switch-target closed clock index t s h = tcp_reset_conn-state t

-- Where any segment leads to.
abbrev pub next_state : Tcp → Segment → TcpState
next_state t s = if s.flags.rst then closed else target t.state t s

after_rst-target :
    (b : Bool) (clock : Clock) (index : ℕ) (t : Tcp) (s : Segment)
    → (rx_switch (take_rst b t).state clock index (take_rst b t) s).state
      ≡ (if b then closed else target t.state t s)
after_rst-target true clock index t s = rx_switch-closed clock index (take_rst true t) s
after_rst-target false clock index t s = rx_switch-target t.state clock index t s refl

pub tcp_rx_handler-Move :
    (fuel : ℕ) (clock : Clock) (t t' : Tcp) (s : Segment)
    → tcp_rx_handler fuel clock t s ≡ some t'
    → (t'.state ≡ next_state t s) × Move t.state t'.state
unfolding tcp_rx_handler
tcp_rx_handler-Move fuel clock t t' s h = elim (Option-cases (tcp_options_handler fuel s.options)) [
  | inl e ↦ absurd (ground arith)
  | inr e ↦
      let made : some
            (rx_switch (take_rst s.flags.rst t).state clock e.0 (take_rst s.flags.rst t) s)
          ≡ some t' =
        rw (tcp_rx_handler, e.1) at h in
      rw (← ap (the t) made)
        (after_rst-target s.flags.rst clock e.0 t s, after_rst-Move s.flags.rst clock e.0 t s)
]
