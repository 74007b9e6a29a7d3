-- ===== src/Net/Dhcp.antt =====
-- The client of DHCP, src/driver/network/protocols/ipv4/dhcp.c: its states, its four timers and the
-- messages that it sends. An address is its four bytes as one number. A timer is the count that
-- `timer_set_timeout` was given for it, `none` while it is not in the list of its device: when it fires is a
-- matter of that list and of the counter. `is_relinked` is whether a timer has been put in the list while it
-- was there. The list is a circle that is broken then, so from there on the timers tell what was asked of
-- the device and not what fires. What the layers below make of a message, and the hardware address of the
-- server, are left out.
pub mod Receive
pub mod Options
pub mod Renewal
mod Tests
use horizon_operating_system.Common.{
  ℕ, ◌+◌, ◌-◌, ◌*◌, ◌/◌, ◌%◌, ◌^◌, min, List, [], ◌∷◌, Bool, true, false, ◌||◌, Option, none, some,
  ltb, u32_mod, if◌then◌else◌,
}

pub data DhcpClientState : Type 0 where
  dhcp_stat_bound : DhcpClientState
  dhcp_stat_init : DhcpClientState
  dhcp_stat_init_reboot : DhcpClientState
  dhcp_stat_rebinding : DhcpClientState
  dhcp_stat_rebooting : DhcpClientState
  dhcp_stat_renewing : DhcpClientState
  dhcp_stat_requesting : DhcpClientState
  dhcp_stat_selecting : DhcpClientState
  dhcp_failed : DhcpClientState

-- A message with its type and the addresses in it, and where it goes, or the last one again.
pub data DhcpMessage : Type 0 where
  message : ℕ → ℕ → ℕ → DhcpMessage
  again : DhcpMessage

-- The fields of `DhcpClient`, with the addresses of its device and what it has sent, last first.
pub record DhcpClient : Type 0 where
  pub state : DhcpClientState
  pub timeout_timer : Option ℕ
  pub lease_timer : Option ℕ
  pub rebind_timer : Option ℕ
  pub renew_timer : Option ℕ
  pub is_relinked : Bool
  pub t0 : ℕ
  pub t1 : ℕ
  pub t2 : ℕ
  pub xid : ℕ
  pub ip_addr : ℕ
  pub server_ip_addr : ℕ
  pub device_ip : ℕ
  pub subnet_mask : ℕ
  pub gateway_ip : ℕ
  pub retry_times : ℕ
  pub sent : List DhcpMessage

abbrev pub is_set : Option ℕ → Bool
is_set none = false
is_set (some t) = true

-- `timer_set_timeout` and `timer_callback_enable`, for each timer.
abbrev pub set_timeout_timer : ℕ → DhcpClient → DhcpClient
set_timeout_timer t c = record c {
  timeout_timer = some (t % u32_mod);
  is_relinked = c.is_relinked || is_set c.timeout_timer;
}

abbrev pub set_lease_timer : ℕ → DhcpClient → DhcpClient
set_lease_timer t c = record c {
  lease_timer = some (t % u32_mod);
  is_relinked = c.is_relinked || is_set c.lease_timer;
}

abbrev pub set_renew_timer : ℕ → DhcpClient → DhcpClient
set_renew_timer t c = record c {
  renew_timer = some (t % u32_mod);
  is_relinked = c.is_relinked || is_set c.renew_timer;
}

abbrev pub set_rebind_timer : ℕ → DhcpClient → DhcpClient
set_rebind_timer t c = record c {
  rebind_timer = some (t % u32_mod);
  is_relinked = c.is_relinked || is_set c.rebind_timer;
}

-- `DHCP_RETRANSMIT_DELAY`; the shift of an `int` is undefined from 31 places on.
abbrev pub retransmit_delay : ℕ → Option ℕ
retransmit_delay retry_times =
    if ltb retry_times 29 then some (min (2 ^ (retry_times + 2)) 64 * 1000) else none

-- `DHCP_INIT_TIMEOUT` and `DHCP_SET_TIMEOUT` with it.
abbrev pub init_timeout : DhcpClient → DhcpClient
init_timeout c = set_timeout_timer (min (2 ^ 2) 64 * 1000) (record c { retry_times = 0 })

abbrev pub ipv4_broadcast_addr : ℕ
ipv4_broadcast_addr = 0xffffffff

-- Where `dhcp_send` sends to.
abbrev pub destination : DhcpClient → ℕ
destination c = elim c.state [
  | dhcp_stat_selecting ↦ ipv4_broadcast_addr
  | dhcp_stat_requesting ↦ ipv4_broadcast_addr
  | dhcp_stat_rebinding ↦ ipv4_broadcast_addr
  | dhcp_stat_bound ↦ c.server_ip_addr
  | dhcp_stat_init ↦ c.server_ip_addr
  | dhcp_stat_init_reboot ↦ c.server_ip_addr
  | dhcp_stat_rebooting ↦ c.server_ip_addr
  | dhcp_stat_renewing ↦ c.server_ip_addr
  | dhcp_failed ↦ c.server_ip_addr
]

-- `dhcp_create_message` with the client's address `ciaddr`, and `dhcp_send`.
abbrev pub dhcp_send : ℕ → ℕ → DhcpClient → DhcpClient
dhcp_send op ciaddr c = record c { sent = message op ciaddr (destination c) ∷ c.sent }

-- `DHCP_DISCOVER`, `DHCP_REQUEST` and `DHCP_DECLINE`.
abbrev pub op_discover : ℕ
op_discover = 1

abbrev pub op_request : ℕ
op_request = 3

abbrev pub op_decline : ℕ
op_decline = 4

unfoldable pub dhcp_discover : DhcpClient → DhcpClient
dhcp_discover c =
    dhcp_send op_discover 0 (init_timeout (record c { state = dhcp_stat_selecting; ip_addr = 0 }))

unfoldable pub dhcp_select : DhcpClient → DhcpClient
dhcp_select c =
    dhcp_send op_request c.ip_addr (init_timeout (record c { state = dhcp_stat_requesting }))

-- `dhcp_reset`, with the random number for `xid`.
unfoldable pub dhcp_reset : ℕ → DhcpClient → DhcpClient
dhcp_reset random c = record c {
  state = dhcp_stat_init;
  xid = random % u32_mod;
  device_ip = 0;
  ip_addr = 0;
  server_ip_addr = ipv4_broadcast_addr;
}

-- `none` is the undefined shift. `is_sent` is whether NETWORK_SEND succeeds.
unfoldable pub dhcp_retransmit : Bool → DhcpClient → Option DhcpClient
dhcp_retransmit is_sent c =
    let c1 = record c { sent = again ∷ c.sent } in
    if is_sent
    then elim (retransmit_delay c.retry_times) [
      | none ↦ none
      | some t ↦ some (set_timeout_timer t c1)
    ]
    else some c1

unfoldable pub dhcp_timeout_handler : Bool → ℕ → DhcpClient → Option DhcpClient
unfolding dhcp_reset dhcp_discover dhcp_retransmit
dhcp_timeout_handler is_sent random c =
    let c1 = record c { retry_times = c.retry_times + 1 } in
    elim c.state [
      | dhcp_stat_init ↦ some (dhcp_discover (dhcp_reset random c1))
      | dhcp_stat_selecting ↦ dhcp_retransmit is_sent c1
      | dhcp_stat_requesting ↦ dhcp_retransmit is_sent c1
      | dhcp_stat_renewing ↦ dhcp_retransmit is_sent c1
      | dhcp_stat_rebinding ↦ dhcp_retransmit is_sent c1
      | dhcp_stat_bound ↦ some c1
      | dhcp_stat_init_reboot ↦ some c1
      | dhcp_stat_rebooting ↦ some c1
      | dhcp_failed ↦ some c1
    ]

abbrev pub is_bound : DhcpClientState → Bool
is_bound dhcp_stat_bound = true
is_bound s = false

abbrev pub is_renewing : DhcpClientState → Bool
is_renewing dhcp_stat_renewing = true
is_renewing s = false

abbrev pub is_rebinding : DhcpClientState → Bool
is_rebinding dhcp_stat_rebinding = true
is_rebinding s = false

unfoldable pub dhcp_ip_conflict_handler : DhcpClient → DhcpClient
dhcp_ip_conflict_handler c =
    let c1 = dhcp_send op_decline 0 (record c { ip_addr = 0; server_ip_addr = 0 }) in
    if is_bound c.state
    then set_timeout_timer (10 * 1000) (record c1 { state = dhcp_stat_init })
    else c

unfoldable pub dhcp_ip_lease_handler : ℕ → DhcpClient → DhcpClient
unfolding dhcp_reset dhcp_discover
dhcp_ip_lease_handler random c =
    if is_rebinding c.state then dhcp_discover (dhcp_reset random c) else c

unfoldable pub dhcp_renew_handler : DhcpClient → DhcpClient
dhcp_renew_handler c =
    if is_bound c.state
    then dhcp_send op_request c.ip_addr (record (init_timeout c) { state = dhcp_stat_renewing })
    else c

unfoldable pub dhcp_rebind_handler : DhcpClient → DhcpClient
dhcp_rebind_handler c =
    if is_renewing c.state
    then dhcp_send op_request c.ip_addr (record (init_timeout c) { state = dhcp_stat_rebinding })
    else c

-- `dhcp_set_timers`; the products are taken in 32 bits.
unfoldable pub dhcp_set_timers : DhcpClient → DhcpClient
dhcp_set_timers c =
    set_rebind_timer (c.t2 * 1000) (set_renew_timer (c.t1 * 1000) (set_lease_timer (c.t0 * 1000) c))
