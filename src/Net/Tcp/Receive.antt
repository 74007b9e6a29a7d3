-- ===== src/Net/Tcp/Receive.antt =====
-- `tcp_rx_handler` of src/driver/network/protocols/tcp.c: what a segment does to a connection. The
-- addresses and ports, the options of the answers and the clearing of the packet buffer are left out.
use horizon_operating_system.Common.{
  ℕ, ◌+◌, ◌*◌, min, Bool, true, false, ◌&&◌, not, Option, none, some, ltb, ◌==◌, add32,
  if◌then◌else◌,
}
use horizon_operating_system.Net.TcpRecv.{conn_state_opened, conn_state_closing, conn_state_closed}
use horizon_operating_system.Net.Tcp.{
  TcpState, listen, syn_sent, syn_received, established, fin_wait1, fin_wait2, close_wait, closing,
  last_ack, time_wait, closed, no_flags, Tcp, Clock, Segment, set_timer, tcp_reset_conn, tcp_ack,
  tcp_ack_handler,
}
use horizon_operating_system.Net.Tcp.Options.{at, toi_max, tcp_options_handler}

-- `mss` where the option is there: `index` is `indexes[TOI_MSS]`.
unfoldable pub read_mss : ℕ → Segment → ℕ → ℕ
read_mss index s mss =
    if ltb index toi_max then min (at s.options index * 256 + at s.options (index + 1)) mss else mss

unfoldable pub on_listen : Clock → ℕ → Tcp → Segment → Tcp
unfolding read_mss tcp_ack
on_listen clock index t s =
    if s.flags.syn
    then tcp_ack clock
        (record t {
          mss = read_mss index s t.mss;
          send_iss = clock.isn;
          cur_seq = clock.isn;
          recv_irs = s.seq;
          cur_ack = add32 s.seq 1;
          remote_window_size = s.window_size;
          state = syn_received;
        })
        (record no_flags { syn = true })
    else t

-- The test of the acknowledgement of a SYN; both states that wait for one go on so.
abbrev pub wrong_ack : Tcp → Segment → Bool
wrong_ack t s = not (s.ack == add32 t.cur_seq 1)

abbrev pub open_conn : Tcp → Segment → Tcp
open_conn t s = record t { cur_seq = s.ack; conn_state = conn_state_opened; state = established }

unfoldable pub on_syn_sent : Clock → ℕ → Tcp → Segment → Tcp
unfolding read_mss tcp_ack tcp_reset_conn
on_syn_sent clock index t s =
    if not s.flags.syn
    then tcp_reset_conn t
    else let t1 = record t {
      remote_window_size = s.window_size;
      recv_irs = s.seq;
      cur_ack = add32 s.seq 1;
      state = syn_received;
      mss = read_mss index s t.mss;
      timer_enabled = false;
    } in
      if s.flags.ack && wrong_ack t1 s
      then tcp_reset_conn t1
      else tcp_ack clock (if s.flags.ack then open_conn t1 s else t1) no_flags

unfoldable pub on_syn_received : ℕ → Tcp → Segment → Tcp
unfolding read_mss tcp_reset_conn
on_syn_received index t s =
    let t1 = record t { mss = read_mss index s t.mss; timer_enabled = false } in
    if s.flags.ack && wrong_ack t1 s
    then tcp_reset_conn t1
    else if s.flags.ack
    then open_conn t1 s
    else t1

unfoldable pub on_established : Clock → Tcp → Segment → Tcp
unfolding tcp_ack_handler tcp_ack
on_established clock t s =
    let t1 = tcp_ack_handler clock t s in
    if s.flags.fin
    then tcp_ack clock
        (record t1 {
          cur_seq = s.ack;
          cur_ack = add32 t1.cur_ack 1;
          state = close_wait;
          conn_state = conn_state_closing;
        })
        no_flags
    else t1

abbrev pub take_acknowledged : Clock → Tcp → Segment → Tcp
take_acknowledged clock t s = if s.flags.ack then tcp_ack_handler clock t s else t

-- `ack_flag && ack > tcp->cur.fin_seq`.
abbrev pub acks_fin : Tcp → Segment → Bool
acks_fin t s = s.flags.ack && ltb t.fin_seq s.ack

unfoldable pub on_closing : Clock → Tcp → Segment → Tcp
unfolding tcp_ack_handler tcp_ack
on_closing clock t s =
    let t1 = take_acknowledged clock t s in
    if acks_fin t1 s
    then tcp_ack clock (record t1 { cur_seq = s.ack; state = time_wait })
        (record no_flags { fin = true })
    else tcp_ack clock t1 no_flags

abbrev pub tcp_fin_timeout : ℕ
tcp_fin_timeout = 60000

unfoldable pub on_fin_wait1 : Clock → Tcp → Segment → Tcp
unfolding tcp_ack_handler set_timer
on_fin_wait1 clock t s =
    let t1 = take_acknowledged clock t s in
    let t2 =
      if acks_fin t1 s
      then set_timer (record t1 { cur_seq = s.ack; state = fin_wait2 }) tcp_fin_timeout
      else t1 in
    if s.flags.fin then record t2 { cur_ack = add32 t2.cur_ack 1; state = closing } else t2

abbrev pub tcp_msl : ℕ
tcp_msl = 120000

unfoldable pub on_fin_wait2 : Clock → Tcp → Segment → Tcp
unfolding tcp_ack_handler tcp_ack set_timer
on_fin_wait2 clock t s =
    let t1 = take_acknowledged clock t s in
    if s.flags.fin
    then tcp_ack clock
        (set_timer (record t1 { cur_ack = add32 t1.cur_ack 1; state = time_wait }) (2 * tcp_msl))
        (record no_flags { ack = true })
    else t1

unfoldable pub on_last_ack : Tcp → Segment → Tcp
on_last_ack t s =
    if acks_fin t s
    then record t { cur_seq = s.ack; state = closed; conn_state = conn_state_closed }
    else t

-- The switch.
unfoldable pub rx_switch : TcpState → Clock → ℕ → Tcp → Segment → Tcp
rx_switch closed clock index t s = tcp_reset_conn t
rx_switch listen clock index t s = on_listen clock index t s
rx_switch syn_sent clock index t s = on_syn_sent clock index t s
rx_switch syn_received clock index t s = on_syn_received index t s
rx_switch established clock index t s = on_established clock t s
rx_switch closing clock index t s = on_closing clock t s
rx_switch close_wait clock index t s = tcp_reset_conn t
rx_switch fin_wait1 clock index t s = on_fin_wait1 clock t s
rx_switch fin_wait2 clock index t s = on_fin_wait2 clock t s
rx_switch last_ack clock index t s = on_last_ack t s
rx_switch time_wait clock index t s = tcp_reset_conn t

-- The test for RST.
abbrev pub take_rst : Bool → Tcp → Tcp
take_rst true t = record t { state = closed; conn_state = conn_state_closed }
take_rst false t = t

-- `none` if the options are not read to an end on this fuel.
unfoldable pub tcp_rx_handler : ℕ → Clock → Tcp → Segment → Option Tcp
tcp_rx_handler fuel clock t s =
    let t1 = take_rst s.flags.rst t in
    elim (tcp_options_handler fuel s.options) [
      | none ↦ none
      | some index ↦ some (rx_switch t1.state clock index t1 s)
    ]
