-- ===== src/Net/Tcp/Resets.antt =====
-- What the events of src/driver/network/protocols/tcp.c never do, and what follows a reset.
use horizon_operating_system.Common.{
  ℕ, ◌≡◌, ◌≢◌, refl, Bool, true, false, ◌⊎◌, some, Option-cases, inl, inr, List, [], ◌∷◌, ap, sym,
  ◌∙◌, arith,
}
use horizon_operating_system.Net.Tcp.{
  TcpState, syn_sent, syn_received, established, fin_wait1, last_ack, closed, Tcp, Clock, Segment,
  live, freed, tcp_reset_conn,
}
use horizon_operating_system.Net.Tcp.Options.{tcp_options_handler}
use horizon_operating_system.Net.Tcp.Receive.{rx_switch, take_rst, tcp_rx_handler}
use horizon_operating_system.Net.Tcp.Events.{
  Event, receive, timeout, shutdown, host_unreachable, net_unreachable, handle, handle_all,
  retransmit, timeout_switch, tcp_timeout_handler, tcp_shutdown, tcp_notify_unreachable,
}
use horizon_operating_system.Net.Tcp.Diagram.{
  Move, passive_open, simultaneous_open, active_open, opened, rcv_fin, fin_acked, fin_crossed,
  fin_answered, closing_acked, last_acked, arrow, stay, reset, the,
}
use horizon_operating_system.Net.Tcp.Target.{tcp_rx_handler-Move}

Move-into_last_ack : {s t : TcpState} → Move s t → t ≡ last_ack → s ≡ last_ack
Move-into_last_ack (arrow passive_open) e = cc
Move-into_last_ack (arrow simultaneous_open) e = cc
Move-into_last_ack (arrow active_open) e = cc
Move-into_last_ack (arrow opened) e = cc
Move-into_last_ack (arrow rcv_fin) e = cc
Move-into_last_ack (arrow fin_acked) e = cc
Move-into_last_ack (arrow fin_crossed) e = cc
Move-into_last_ack (arrow fin_answered) e = cc
Move-into_last_ack (arrow closing_acked) e = cc
Move-into_last_ack (arrow last_acked) e = cc
Move-into_last_ack stay e = e
Move-into_last_ack reset e = cc

retransmit-state :
    (clock : Clock) (limit : ℕ) (t : Tcp)
    → ((retransmit clock limit t).state ≡ t.state) ⊎ ((retransmit clock limit t).state ≡ closed)
unfolding retransmit
retransmit-state clock limit t = ground arith

retransmit-not_last_ack :
    (clock : Clock) (limit : ℕ) (t : Tcp)
    → t.state ≢ last_ack
    → (retransmit clock limit t).state ≢ last_ack
retransmit-not_last_ack clock limit t n e = ground (arith, retransmit-state clock limit t)

timeout_switch-state :
    (state : TcpState) (clock : Clock) (t : Tcp)
    → t.state ≢ last_ack
    → (timeout_switch state clock t).state ≢ last_ack
unfolding timeout_switch
timeout_switch-state syn_sent clock t n e = retransmit-not_last_ack clock 3000 t n e
timeout_switch-state syn_received clock t n e = retransmit-not_last_ack clock 3000 t n e
timeout_switch-state established clock t n e = retransmit-not_last_ack clock 60000 t n e
timeout_switch-state fin_wait1 clock t n e = retransmit-not_last_ack clock 60000 t n e
timeout_switch-state state clock t n e = ground arith

shutdown-not_last_ack :
    (how : ℕ) (clock : Clock) (t : Tcp)
    → t.state ≢ last_ack
    → (tcp_shutdown how clock t).0.state ≢ last_ack
unfolding tcp_shutdown
shutdown-not_last_ack how clock t n e = ground arith

handle-not_last_ack :
    (fuel : ℕ) (e : Event) (t t' : Tcp)
    → t.state ≢ last_ack
    → handle fuel e t ≡ some t'
    → t'.state ≢ last_ack
unfolding handle tcp_timeout_handler tcp_notify_unreachable
handle-not_last_ack fuel (receive clock s) t t' n h e =
    n (Move-into_last_ack (tcp_rx_handler-Move fuel clock t t' s h).1 e)
handle-not_last_ack fuel (timeout clock) t t' n h e =
    ground (arith, timeout_switch-state t.state clock t n)
handle-not_last_ack fuel (shutdown how clock) t t' n h e =
    shutdown-not_last_ack how clock t n (ap (λ (u : Tcp). u.state) (ap (the t) h) ∙ e)
handle-not_last_ack fuel host_unreachable t t' n h e = ground arith
handle-not_last_ack fuel net_unreachable t t' n h e = ground arith

-- No sequence of segments, time-outs, calls of `tcp_shutdown` and unreachable hosts leads into
-- LAST_ACK, from any other state.
pub last_ack_unreachable :
    (fuel : ℕ) (es : List Event) (t t' : Tcp)
    → t.state ≢ last_ack
    → handle_all fuel es t ≡ some t'
    → t'.state ≢ last_ack
unfolding handle_all
last_ack_unreachable fuel [] t t' n h = rw (ap (the t) h) at n
last_ack_unreachable fuel (x ∷ es) t t' n h = elim (Option-cases (handle fuel x t)) [
  | inl e ↦ absurd (ground arith)
  | inr u ↦
      last_ack_unreachable fuel es u.0 t' (handle-not_last_ack fuel x t u.0 n u.1)
        (rw (handle_all, u.1) at h)
]

-- What the handler gives, once the options are read.
rx_closed :
    (b : Bool) (clock : Clock) (index : ℕ) (t : Tcp) (s : Segment)
    → (b ≡ true) ⊎ (t.state ≡ closed)
    → rx_switch (take_rst b t).state clock index (take_rst b t) s ≡ tcp_reset_conn (take_rst b t)
unfolding rx_switch
rx_closed true clock index t s c = refl
rx_closed false clock index t s (inl e) = cc
rx_closed false clock index t s (inr e) = rw e refl

handler_resets :
    (fuel : ℕ) (clock : Clock) (t t' : Tcp) (s : Segment)
    → (s.flags.rst ≡ true) ⊎ (t.state ≡ closed)
    → tcp_rx_handler fuel clock t s ≡ some t'
    → t' ≡ tcp_reset_conn (take_rst s.flags.rst t)
unfolding tcp_rx_handler
handler_resets fuel clock t t' s c h = elim (Option-cases (tcp_options_handler fuel s.options)) [
  | inl e ↦ absurd (ground arith)
  | inr e ↦
      let made : some
            (rx_switch (take_rst s.flags.rst t).state clock e.0 (take_rst s.flags.rst t) s)
          ≡ some t' =
        rw (tcp_rx_handler, e.1) at h in
      sym (ap (the t) made) ∙ rx_closed s.flags.rst clock e.0 t s c
]

reset_rst :
    (b : Bool) (t : Tcp)
    → let t' = tcp_reset_conn (take_rst b t) in
      (t'.state ≡ closed) × (t'.header.flags.rst ≡ true) × (t'.sent ≡ t'.header ∷ t.sent)
unfolding tcp_reset_conn
reset_rst true t = (refl, refl, refl)
reset_rst false t = (refl, refl, refl)

reset_frees :
    (b : Bool) (t : Tcp) (bytes : List ℕ)
    → t.recv_window ≡ live bytes
    → (tcp_reset_conn (take_rst b t)).recv_window ≡ freed
unfolding tcp_reset_conn
reset_frees true t bytes w = rw w refl
reset_frees false t bytes w = rw w refl

reset_faults :
    (b : Bool) (t : Tcp) → t.recv_window ≡ freed → (tcp_reset_conn (take_rst b t)).fault ≡ true
unfolding tcp_reset_conn
reset_faults true t w = ground arith
reset_faults false t w = ground arith

-- A segment with RST is answered by a packet with RST, whatever the state is; the connection is
-- closed then.
pub rst_answered :
    (fuel : ℕ) (clock : Clock) (t t' : Tcp) (s : Segment)
    → s.flags.rst ≡ true
    → tcp_rx_handler fuel clock t s ≡ some t'
    → (t'.state ≡ closed) × (t'.header.flags.rst ≡ true) × (t'.sent ≡ t'.header ∷ t.sent)
rst_answered fuel clock t t' s r h =
    rw (handler_resets fuel clock t t' s (inl r) h) (reset_rst s.flags.rst t)

-- When the receive window is allocated and a segment with RST has come, any further segment whose
-- options are read to an end makes the handler free the window a second time.
pub window_freed_twice :
    (fuel : ℕ) (clock clock' : Clock) (t t' t'' : Tcp) (s s' : Segment) (bytes : List ℕ)
    → t.recv_window ≡ live bytes
    → s.flags.rst ≡ true
    → tcp_rx_handler fuel clock t s ≡ some t'
    → tcp_rx_handler fuel clock' t' s' ≡ some t''
    → t''.fault ≡ true
window_freed_twice fuel clock clock' t t' t'' s s' bytes w r h h' =
    let first = handler_resets fuel clock t t' s (inl r) h in
    let is_closed : t'.state ≡ closed = (rst_answered fuel clock t t' s r h).0 in
    let is_freed : t'.recv_window ≡ freed =
      ap (λ (u : Tcp). u.recv_window) first ∙ reset_frees s.flags.rst t bytes w in
    ap (λ (u : Tcp). u.fault) (handler_resets fuel clock' t' t'' s' (inr is_closed) h')
    ∙ reset_faults s'.flags.rst t' is_freed
