-- ===== src/Net/Tcp/Handshake.antt =====
-- The opening of a connection in src/driver/network/protocols/tcp.c, from either side.
use horizon_operating_system.Common.{ℕ, ◌≡◌, true, some, ◌∷◌, add32, arith}
use horizon_operating_system.Net.TcpRecv.{conn_state_opened}
use horizon_operating_system.Net.Tcp.{syn_received, established, Tcp, Clock, Segment, no_flags}
use horizon_operating_system.Net.Tcp.Options.{tcp_options_handler, tcp_options_handler-index}
use horizon_operating_system.Net.Tcp.Receive.{on_listen, on_syn_sent, on_syn_received, read_mss}

-- The MSS option of a segment is never read: whatever the options are, `mss` stays as it is.
pub mss_unread :
    (fuel index : ℕ) (s : Segment) (mss : ℕ)
    → tcp_options_handler fuel s.options ≡ some index
    → read_mss index s mss ≡ mss
unfolding read_mss
mss_unread fuel index s mss e = ground (arith, tcp_options_handler-index fuel s.options index e)

-- In SYN_SENT, a segment with SYN and without RST that acknowledges exactly the SYN opens the
-- connection: the numbers of both sides are those that follow the two SYNs, and they are sent in an
-- ACK without other flags.
pub syn_ack_opens :
    (clock : Clock) (index : ℕ) (t : Tcp) (s : Segment)
    → (s.flags.syn ≡ true) × (s.flags.ack ≡ true) × (s.ack ≡ add32 t.cur_seq 1)
    → let t' = on_syn_sent clock index t s in
      ((t'.state ≡ established) × (t'.conn_state ≡ conn_state_opened))
      × ((t'.cur_seq ≡ s.ack) × (t'.cur_ack ≡ add32 s.seq 1))
      × (t'.sent
          ≡ record { flags = record no_flags { ack = true }; seq = s.ack; ack = add32 s.seq 1 }
            ∷ t.sent)
unfolding on_syn_sent
syn_ack_opens clock index t s h = ground arith

-- A connection that listens, and gets a SYN and then a segment without RST that acknowledges exactly the SYN
-- it sent in between, is open; it expects the number behind the SYN it got.
pub listen_opens :
    (clock : Clock) (index index' : ℕ) (t : Tcp) (s s' : Segment)
    → (s.flags.syn ≡ true) × (s'.flags.ack ≡ true) × (s'.ack ≡ add32 clock.isn 1)
    → let t1 = on_listen clock index t s in
      let t2 = on_syn_received index' t1 s' in
      ((t1.state ≡ syn_received)
        × (t1.sent
            ≡ record {
              flags = record no_flags { syn = true; ack = true };
              seq = clock.isn;
              ack = add32 s.seq 1;
            }
              ∷ t.sent))
      × ((t2.state ≡ established) × (t2.conn_state ≡ conn_state_opened))
      × ((t2.cur_seq ≡ s'.ack) × (t2.cur_ack ≡ add32 s.seq 1))
unfolding on_listen on_syn_received
listen_opens clock index index' t s s' h = ground arith
