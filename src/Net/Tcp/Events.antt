-- ===== src/Net/Tcp/Events.antt =====
-- The other events of a connection in src/driver/network/protocols/tcp.c: tcp_timeout_handler,
-- tcp_shutdown, and what an unreachable host does; and sequences of events.
use horizon_operating_system.Common.{
  ℕ, ◌*◌, min, true, ◌||◌, ◌==◌, List, [], ◌∷◌, Option, none, some, ltb, inc32, if◌then◌else◌,
}
use horizon_operating_system.Net.TcpRecv.{
  ConnState, conn_state_closing, conn_state_closed, conn_state_host_unreachable,
  conn_state_net_unreachable,
}
use horizon_operating_system.Net.Tcp.{
  TcpState, syn_sent, syn_received, established, fin_wait1, fin_wait2, time_wait, closed, no_flags,
  null, Tcp, Clock, Segment, freed_already, set_timer, tcp_reset_conn, tcp_send_packet,
}
use horizon_operating_system.Net.Protocols.{ProtocolResult, proto_ok, proto_error_unsupport}
use horizon_operating_system.Net.Tcp.Receive.{tcp_rx_handler}

abbrev pub tcp_max_retries : ℕ
tcp_max_retries = 15

-- The back-off of the states that retransmit; the two that wait for a SYN have a lower limit.
unfoldable pub retransmit : Clock → ℕ → Tcp → Tcp
unfolding tcp_reset_conn tcp_send_packet set_timer
retransmit clock limit t =
    let t1 = record t { retry_times = inc32 t.retry_times } in
    let rto = min (min (t1.rto * 2) 60000) limit in
    if ltb t1.retry_times tcp_max_retries
    then tcp_send_packet clock (set_timer (record t1 { rto = rto }) rto)
    else tcp_reset_conn t1

-- `kfree` of the window, and the pointer cleared.
abbrev pub free_recv_window : Tcp → Tcp
free_recv_window t = record t { fault = t.fault || freed_already t.recv_window; recv_window = null }

unfoldable pub timeout_switch : TcpState → Clock → Tcp → Tcp
unfolding retransmit
timeout_switch syn_sent clock t = retransmit clock 3000 t
timeout_switch syn_received clock t = retransmit clock 3000 t
timeout_switch established clock t = retransmit clock 60000 t
timeout_switch fin_wait1 clock t = retransmit clock 60000 t
timeout_switch fin_wait2 clock t = tcp_reset_conn t
timeout_switch time_wait clock t = record (free_recv_window t) {
  state = closed;
  conn_state = conn_state_closed;
}
timeout_switch state clock t = t

unfoldable pub tcp_timeout_handler : Clock → Tcp → Tcp
tcp_timeout_handler clock t = timeout_switch t.state clock t

-- After the wait for the data to be sent.
unfoldable pub tcp_half_close : Clock → Tcp → Tcp
unfolding tcp_send_packet
tcp_half_close clock t = tcp_send_packet clock (record t {
  header = record t.header { flags = record no_flags { fin = true; ack = true } };
  state = fin_wait1;
  conn_state = conn_state_closing;
  fault = t.fault || freed_already t.send_window;
  send_window = null;
})

-- `how` is TCP_SHUT_WR, TCP_SHUT_RD or TCP_SHUT_RDWR.
unfoldable pub tcp_shutdown : ℕ → Clock → Tcp → Tcp × ProtocolResult
unfolding tcp_half_close
tcp_shutdown how clock t =
    if how == 0
    then (tcp_half_close clock t, proto_ok)
    else if how == 1
    then (free_recv_window t, proto_ok)
    else if how == 2
    then (tcp_half_close clock (free_recv_window t), proto_ok)
    else (t, proto_error_unsupport)

-- `tcp_notify_unreachable` on the connection that it finds, for the two codes that it acts on.
unfoldable pub tcp_notify_unreachable : ConnState → Tcp → Tcp
unfolding tcp_reset_conn
tcp_notify_unreachable unreachable t = record (tcp_reset_conn t) { conn_state = unreachable }

pub data Event : Type 0 where
  receive : Clock → Segment → Event
  timeout : Clock → Event
  shutdown : ℕ → Clock → Event
  host_unreachable : Event
  net_unreachable : Event

-- `fuel` is for the options of a segment.
unfoldable pub handle : ℕ → Event → Tcp → Option Tcp
handle fuel (receive clock s) t = tcp_rx_handler fuel clock t s
handle fuel (timeout clock) t = some (tcp_timeout_handler clock t)
handle fuel (shutdown how clock) t = some (tcp_shutdown how clock t).0
handle fuel host_unreachable t = some (tcp_notify_unreachable conn_state_host_unreachable t)
handle fuel net_unreachable t = some (tcp_notify_unreachable conn_state_net_unreachable t)

unfoldable pub handle_all : ℕ → List Event → Tcp → Option Tcp
handle_all fuel [] t = some t
handle_all fuel (e ∷ es) t = elim (handle fuel e t) [
  | none ↦ none
  | some t' ↦ handle_all fuel es t'
]
