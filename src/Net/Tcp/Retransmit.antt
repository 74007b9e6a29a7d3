-- ===== src/Net/Tcp/Retransmit.antt =====
-- The repeated time-outs of a connection in src/driver/network/protocols/tcp.c.
use horizon_operating_system.Common.{
  ℕ, ◌∙◌, suc, ◌+◌, ◌≡◌, ◌≤◌, ◌<◌, ◌⊎◌, inl, inr, refl, ap, List, [], ◌∷◌, length, arith,
}
use horizon_operating_system.Net.Tcp.{
  TcpState, listen, syn_sent, syn_received, established, fin_wait1, fin_wait2, close_wait, closing,
  last_ack, time_wait, closed, Tcp, Clock,
}
use horizon_operating_system.Net.Tcp.Events.{
  tcp_max_retries, retransmit, timeout_switch, tcp_timeout_handler,
}

abbrev pub time_outs : List Clock → Tcp → Tcp
time_outs [] t = t
time_outs (c ∷ cs) t = time_outs cs (tcp_timeout_handler c t)

-- The states that send again after a time-out.
pub data Sends : TcpState → Type 0 where
  sends_syn : Sends syn_sent
  sends_syn_ack : Sends syn_received
  sends_data : Sends established
  sends_fin : Sends fin_wait1

-- One time-out: the connection is closed, or a retry more is counted.
retransmit_step :
    (clock : Clock) (limit : ℕ) (t : Tcp)
    → t.retry_times < tcp_max_retries
    → ((retransmit clock limit t).state ≡ closed)
      ⊎ (((retransmit clock limit t).state ≡ t.state)
          × ((retransmit clock limit t).retry_times ≡ suc t.retry_times)
          × (suc t.retry_times < tcp_max_retries))
unfolding retransmit
retransmit_step clock limit t h = ground arith

timeout_step :
    (state : TcpState) (clock : Clock) (t : Tcp)
    → Sends state
    → t.state ≡ state
    → t.retry_times < tcp_max_retries
    → ((timeout_switch state clock t).state ≡ closed)
      ⊎ (((timeout_switch state clock t).state ≡ state)
          × ((timeout_switch state clock t).retry_times ≡ suc t.retry_times)
          × (suc t.retry_times < tcp_max_retries))
unfolding timeout_switch
timeout_step syn_sent clock t p h l = rw (← h) (retransmit_step clock 3000 t l)
timeout_step syn_received clock t p h l = rw (← h) (retransmit_step clock 3000 t l)
timeout_step established clock t p h l = rw (← h) (retransmit_step clock 60000 t l)
timeout_step fin_wait1 clock t p h l = rw (← h) (retransmit_step clock 60000 t l)
timeout_step listen clock t p h l = elim p [ ]
timeout_step fin_wait2 clock t p h l = elim p [ ]
timeout_step close_wait clock t p h l = elim p [ ]
timeout_step closing clock t p h l = elim p [ ]
timeout_step last_ack clock t p h l = elim p [ ]
timeout_step time_wait clock t p h l = elim p [ ]
timeout_step closed clock t p h l = elim p [ ]

timeout-closed : (c : Clock) (t : Tcp) → t.state ≡ closed → (tcp_timeout_handler c t).state ≡ closed
unfolding tcp_timeout_handler timeout_switch
timeout-closed c t h = ap (λ state. (timeout_switch state c t).state) h ∙ h

time_outs-closed : (cs : List Clock) (t : Tcp) → t.state ≡ closed → (time_outs cs t).state ≡ closed
time_outs-closed [] t h = h
time_outs-closed (c ∷ cs) t h = time_outs-closed cs (tcp_timeout_handler c t) (timeout-closed c t h)

-- A connection that waits for an answer (SYN_SENT, SYN_RCVD, ESTABLISHED or FIN_WAIT1) and gets none
-- is closed by its time-outs: as many of them are enough as `retry_times` is below the limit of 15.
pub time_outs_close :
    (cs : List Clock) (t : Tcp)
    → Sends t.state
    → t.retry_times < tcp_max_retries
    → tcp_max_retries ≤ t.retry_times + length cs
    → (time_outs cs t).state ≡ closed
unfolding tcp_timeout_handler
time_outs_close [] t p l h = absurd (ground arith)
time_outs_close (c ∷ cs) t p l h = elim (timeout_step t.state c t p refl l) [
  | inl e ↦ time_outs-closed cs (tcp_timeout_handler c t) e
  | inr e ↦ time_outs_close cs (tcp_timeout_handler c t) (rw e.0 p) (omega arith) (omega arith)
]
