-- ===== src/Net/Dhcp/Renewal.antt =====
-- What becomes of a lease that is renewed, and of its times, in src/driver/network/protocols/ipv4/dhcp.c.
use horizon_operating_system.Common.{
  ℕ, ◌*◌, ◌/◌, ◌%◌, ◌^◌, ◌≤◌, ◌<◌, ◌≡◌, refl, ap, ◌∙◌, arith, true, none, some, Option, List, [],
  ◌∷◌, u32_mod, ◌==◌,
}
use horizon_operating_system.Net.Dhcp.{
  dhcp_stat_selecting, dhcp_stat_renewing, DhcpClient, is_set, dhcp_set_timers, dhcp_renew_handler,
  message, op_discover, op_request, ipv4_broadcast_addr,
}
use horizon_operating_system.Net.Dhcp.Receive.{
  Indexes, DhcpPacket, dhcp_ack_handler, receive_ack, Event, renew_fires, rebind_fires, lease_fires,
  handle,
}

ack_renewing-leaves :
    (p : DhcpPacket) (idx : Indexes) (c : DhcpClient)
    → c.state ≡ dhcp_stat_renewing
    → receive_ack p idx c ≡ dhcp_set_timers (dhcp_ack_handler p idx c)
unfolding receive_ack
ack_renewing-leaves p idx c e = rw e refl

ack_handler-keeps :
    (p : DhcpPacket) (idx : Indexes) (c : DhcpClient)
    → ((dhcp_ack_handler p idx c).state ≡ c.state)
      × ((dhcp_ack_handler p idx c).lease_timer ≡ c.lease_timer)
unfolding dhcp_ack_handler
ack_handler-keeps p idx c = (refl, refl)

set_timers-relinks :
    (c : DhcpClient)
    → is_set c.lease_timer ≡ true
    → ((dhcp_set_timers c).state ≡ c.state) × ((dhcp_set_timers c).is_relinked ≡ true)
unfolding dhcp_set_timers
set_timers-relinks c h = (refl, ground (arith, h))

renew_fires-idle :
    (c : DhcpClient)
    → c.state ≡ dhcp_stat_renewing
    → handle renew_fires c ≡ some (record c { renew_timer = none })
unfolding handle dhcp_renew_handler
renew_fires-idle c e = rw e refl

-- A server's acknowledgement that reaches a client while it renews its lease, the timer for whose end is
-- set, leaves it in that state and puts a timer in the list of its device that is there already. When the timer for the next renewal fires,
-- the client does nothing.
pub receive_ack-unrenewed :
    (p : DhcpPacket) (idx : Indexes) (c : DhcpClient)
    → c.state ≡ dhcp_stat_renewing
    → is_set c.lease_timer ≡ true
    → ((receive_ack p idx c).state ≡ dhcp_stat_renewing)
      × (((receive_ack p idx c).is_relinked ≡ true)
          × (handle renew_fires (receive_ack p idx c)
              ≡ some (record (receive_ack p idx c) { renew_timer = none })))
receive_ack-unrenewed p idx c e h =
    let c1 = dhcp_ack_handler p idx c in
    let keeps = ack_handler-keeps p idx c in
    let relinks = set_timers-relinks c1 (ap is_set keeps.1 ∙ h) in
    let left = ack_renewing-leaves p idx c e in
    let state : (receive_ack p idx c).state ≡ dhcp_stat_renewing =
      ap (λ d. d.state) left ∙ (relinks.0 ∙ (keeps.0 ∙ e)) in
    (
      state,
      (ap (λ d. d.is_relinked) left ∙ relinks.1, renew_fires-idle (receive_ack p idx c) state),
    )

-- What a sequence of events makes of a client.
abbrev pub run : List Event → DhcpClient → Option DhcpClient
run [] c = some c
run (e ∷ es) c = elim (handle e c) [ none ↦ none | some d ↦ run es d ]

-- The timers of a lease, in their order.
abbrev pub lease_passes : ℕ → List Event
lease_passes random = renew_fires ∷ rebind_fires ∷ lease_fires random ∷ []

-- What has come of the lease of a client.
abbrev pub RanOut : ℕ → DhcpClient → DhcpClient → Type 0
RanOut random c c' =
    (c'.state ≡ dhcp_stat_selecting)
    × (((c'.device_ip ≡ 0) × ((c'.xid ≡ random % u32_mod) × (is_set c'.timeout_timer ≡ true)))
        × ((c'.sent
              ≡ message op_discover 0 ipv4_broadcast_addr
                ∷ message op_request c.ip_addr ipv4_broadcast_addr
                ∷ message op_request c.ip_addr c.server_ip_addr
                ∷ c.sent)
            × (c'.is_relinked ≡ true)))

ack_handler-times :
    (p : DhcpPacket) (idx : Indexes) (c : DhcpClient)
    → idx.renewal_time ≡ 0
    → idx.rebinding_time ≡ 0
    → ((dhcp_ack_handler p idx c).t1 ≡ (dhcp_ack_handler p idx c).t0 / 2)
      × ((dhcp_ack_handler p idx c).t2 ≡ (dhcp_ack_handler p idx c).t0 * 7 % u32_mod / 8)
unfolding dhcp_ack_handler
ack_handler-times p idx c r b =
    let x : (idx.renewal_time == 0) ≡ true = ground (arith, r) in
    let y : (idx.rebinding_time == 0) ≡ true = ground (arith, b) in (rw x refl, rw y refl)

-- The timers of the lease, and what they are set for.
abbrev pub HasTimes : DhcpClient → ℕ → ℕ → ℕ → Type 0
HasTimes c renew rebind lease =
    (c.renew_timer ≡ some renew) × ((c.rebind_timer ≡ some rebind) × (c.lease_timer ≡ some lease))

set_timers-HasTimes :
    (c : DhcpClient)
    → HasTimes
        (dhcp_set_timers c)
        (c.t1 * 1000 % u32_mod)
        (c.t2 * 1000 % u32_mod)
        (c.t0 * 1000 % u32_mod)
unfolding dhcp_set_timers
set_timers-HasTimes c = (refl, (refl, refl))

-- If the server gives only the time of the lease and it is below 2 ^ 32 milliseconds, the counts that a
-- bound or renewed client gives to the timers are in their order: the one for renewing is no greater than
-- the one for rebinding, and this one no greater than the one for the end of the lease, which is that time.
pub set_timers-in_order :
    (p : DhcpPacket) (idx : Indexes) (c : DhcpClient)
    → idx.renewal_time ≡ 0
    → idx.rebinding_time ≡ 0
    → (dhcp_ack_handler p idx c).t0 * 1000 < 2 ^ 32
    → (renew : ℕ) × ((rebind : ℕ) × ((lease : ℕ) × (HasTimes
              (dhcp_set_timers (dhcp_ack_handler p idx c))
              renew
              rebind
              lease
            × ((lease ≡ (dhcp_ack_handler p idx c).t0 * 1000)
                × ((renew ≤ rebind) × (rebind ≤ lease))))))
set_timers-in_order p idx c r b h =
    let d = dhcp_ack_handler p idx c in
    let times = ack_handler-times p idx c r b in
    (
      _,
      (
        _,
        (
          _,
          (
            set_timers-HasTimes d,
            (omega arith, (omega (arith, times.0, times.1), omega (arith, times.0, times.1))),
          ),
        ),
      ),
    )
