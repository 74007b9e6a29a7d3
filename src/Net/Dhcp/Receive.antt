-- ===== src/Net/Dhcp/Receive.antt =====
-- The replies that the client of src/driver/network/protocols/ipv4/dhcp.c receives, and what can happen to
-- it. The options of a packet are the bytes of memory from the field `options` on, whether they belong to
-- the packet or lie behind it.
use horizon_operating_system.Common.{
  ℕ, zero, suc, ◌+◌, ◌-◌, ◌*◌, ◌/◌, ◌%◌, ◌^◌, Bool, true, false, not, ◌||◌, Option, none, some, ltb,
  leb, ◌==◌, u32_mod, if◌then◌else◌,
}
use horizon_operating_system.Net.Dhcp.{
  DhcpClientState, dhcp_stat_bound, dhcp_stat_init, dhcp_stat_init_reboot, dhcp_stat_rebinding,
  dhcp_stat_rebooting, dhcp_stat_renewing, dhcp_stat_requesting, dhcp_stat_selecting, dhcp_failed,
  DhcpClient, dhcp_select, dhcp_reset, dhcp_discover, dhcp_set_timers, dhcp_timeout_handler,
  dhcp_ip_conflict_handler, dhcp_ip_lease_handler, dhcp_renew_handler, dhcp_rebind_handler,
}

-- `indexes[DOI_MAX]`.
pub record Indexes : Type 0 where
  pub subnet_mask : ℕ
  pub router : ℕ
  pub dns : ℕ
  pub server_id : ℕ
  pub ip_lease_time : ℕ
  pub message_type : ℕ
  pub renewal_time : ℕ
  pub rebinding_time : ℕ

abbrev pub no_indexes : Indexes
no_indexes = record {
  subnet_mask = 0;
  router = 0;
  dns = 0;
  server_id = 0;
  ip_lease_time = 0;
  message_type = 0;
  renewal_time = 0;
  rebinding_time = 0;
}

-- The switch of `dhcp_parse_options`.
unfoldable pub note_option : ℕ → ℕ → Indexes → Indexes
note_option option offset idx =
    if option == 1
    then record idx { subnet_mask = offset }
    else if option == 3
    then record idx { router = offset }
    else if option == 6
    then record idx { dns = offset }
    else if option == 51
    then record idx { ip_lease_time = offset }
    else if option == 53
    then record idx { message_type = offset }
    else if option == 54
    then record idx { server_id = offset }
    else if option == 58
    then record idx { renewal_time = offset }
    else if option == 59
    then record idx { rebinding_time = offset }
    else idx

abbrev pub u16_mod : ℕ
u16_mod = 2 ^ 16

-- `*offset` behind an option whose value starts at `offset`; for padding it is taken back by one.
abbrev pub next_offset : ℕ → ℕ → ℕ → ℕ
next_offset option offset length =
    (if option == 0 then (offset + (u16_mod - 1)) % u16_mod + length else offset + length) % u16_mod

-- The loop of `dhcp_parse_options`, with the rounds that it may still take; `none` if it needs more.
unfoldable pub parse_from : ℕ → (ℕ → ℕ) → ℕ → ℕ → Indexes → Option Indexes
unfolding note_option
parse_from zero options end offset idx = none
parse_from (suc rounds) options end offset idx =
    let option = options offset in
    let length = options ((offset + 1) % u16_mod) in
    let value = ((offset + 1) % u16_mod + 1) % u16_mod in
    let rest =
      parse_from rounds options end (next_offset option value length)
        (note_option option value idx) in
    if (option == 255) || leb end offset then some idx else rest

-- `end` is what is left of the packet behind the header, as a `uint16_t`.
unfoldable pub dhcp_parse_options : ℕ → (ℕ → ℕ) → ℕ → Option Indexes
unfolding parse_from
dhcp_parse_options rounds options end = parse_from rounds options end 4 no_indexes

-- A packet: its length, the fields of its header that are tested or read, and its options.
pub record DhcpPacket : Type 0 where
  pub size : ℕ
  pub op : ℕ
  pub is_for_client : Bool
  pub xid : ℕ
  pub yiaddr : ℕ
  pub siaddr : ℕ
  pub options : ℕ → ℕ

-- `sizeof(DhcpHeader)` and `offsetof(DhcpHeader, options)`.
abbrev pub dhcp_header_size : ℕ
dhcp_header_size = 236

-- `*(uint32_t *)&header->options[i]`, and `BE2HOST_DWORD` of it.
abbrev pub load_dword : (ℕ → ℕ) → ℕ → ℕ
load_dword options i =
    options i + options (i + 1) * 2 ^ 8 + options (i + 2) * 2 ^ 16 + options (i + 3) * 2 ^ 24

abbrev pub load_big_dword : (ℕ → ℕ) → ℕ → ℕ
load_big_dword options i =
    options (i + 3) + options (i + 2) * 2 ^ 8 + options (i + 1) * 2 ^ 16 + options i * 2 ^ 24

unfoldable pub dhcp_offer_handler : DhcpPacket → Indexes → DhcpClient → DhcpClient
unfolding dhcp_select
dhcp_offer_handler p idx c =
    if idx.server_id == 0
    then c
    else dhcp_select (record c {
      timeout_timer = none;
      server_ip_addr = load_dword p.options idx.server_id;
      ip_addr = p.yiaddr;
      device_ip = p.yiaddr;
    })

unfoldable pub dhcp_ack_handler : DhcpPacket → Indexes → DhcpClient → DhcpClient
dhcp_ack_handler p idx c =
    let t0 = if idx.ip_lease_time == 0 then c.t0 else load_big_dword p.options idx.ip_lease_time in
    record c {
      subnet_mask = if idx.subnet_mask == 0 then 0 else load_dword p.options idx.subnet_mask;
      gateway_ip = if idx.router == 0 then 0 else load_dword p.options idx.router;
      device_ip = c.ip_addr;
      t0 = t0;
      t1 = if idx.renewal_time == 0 then t0 / 2 else load_big_dword p.options idx.renewal_time;
      t2 =
          if idx.rebinding_time == 0
          then t0 * 7 % u32_mod / 8
          else load_big_dword p.options idx.rebinding_time;
    }

unfoldable pub dhcp_nak_handler : ℕ → DhcpClient → DhcpClient
unfolding dhcp_reset dhcp_discover
dhcp_nak_handler random c = dhcp_discover (dhcp_reset random c)

-- What an acknowledgement does, by the state.
unfoldable pub receive_ack : DhcpPacket → Indexes → DhcpClient → DhcpClient
unfolding dhcp_ack_handler dhcp_set_timers
receive_ack p idx c =
    let bound = record c {
      state = dhcp_stat_bound;
      ip_addr = p.yiaddr;
      server_ip_addr = p.siaddr;
      timeout_timer = none;
    } in
    elim c.state [
      | dhcp_stat_requesting ↦ dhcp_set_timers (dhcp_ack_handler p idx bound)
      | dhcp_stat_rebooting ↦ dhcp_set_timers (dhcp_ack_handler p idx bound)
      | dhcp_stat_renewing ↦ dhcp_set_timers (dhcp_ack_handler p idx c)
      | dhcp_stat_rebinding ↦ dhcp_set_timers (dhcp_ack_handler p idx c)
      | dhcp_stat_bound ↦ c
      | dhcp_stat_init ↦ c
      | dhcp_stat_init_reboot ↦ c
      | dhcp_stat_selecting ↦ c
      | dhcp_failed ↦ c
    ]

unfoldable pub receive_nak : ℕ → DhcpClient → DhcpClient
unfolding dhcp_nak_handler
receive_nak random c = elim c.state [
  | dhcp_stat_requesting ↦ dhcp_nak_handler random c
  | dhcp_stat_rebooting ↦ dhcp_nak_handler random c
  | dhcp_stat_rebinding ↦ dhcp_nak_handler random c
  | dhcp_stat_renewing ↦ dhcp_nak_handler random c
  | dhcp_stat_bound ↦ c
  | dhcp_stat_init ↦ c
  | dhcp_stat_init_reboot ↦ c
  | dhcp_stat_selecting ↦ c
  | dhcp_failed ↦ c
]

abbrev pub is_selecting : DhcpClientState → Bool
is_selecting dhcp_stat_selecting = true
is_selecting s = false

-- `dhcp_rx_handler` behind the options.
unfoldable pub receive : ℕ → DhcpPacket → Indexes → DhcpClient → DhcpClient
unfolding receive_ack receive_nak dhcp_offer_handler
receive random p idx c =
    let msg_type = p.options idx.message_type in
    if msg_type == 5
    then receive_ack p idx c
    else if msg_type == 6
    then receive_nak random c
    else if msg_type == 2
    then (if is_selecting c.state then dhcp_offer_handler p idx c else c)
    else c

abbrev pub received : ℕ → DhcpPacket → DhcpClient → Option Indexes → Option DhcpClient
received random p c none = none
received random p c (some idx) = some (receive random p idx c)

-- `none` if the options take more than `rounds` rounds.
unfoldable pub dhcp_rx_handler : ℕ → ℕ → DhcpPacket → DhcpClient → Option DhcpClient
unfolding dhcp_parse_options receive
dhcp_rx_handler rounds random p c =
    if ltb p.size dhcp_header_size
    then some c
    else if not (p.op == 2)
    then some c
    else if not p.is_for_client
    then some c
    else if not (p.xid == c.xid)
    then some c
    else received random p c
        (dhcp_parse_options rounds p.options ((p.size - dhcp_header_size) % u16_mod))

-- What can happen to a client, with the random number that it takes.
pub data Event : Type 0 where
  timeout_fires : Bool → ℕ → Event
  lease_fires : ℕ → Event
  renew_fires : Event
  rebind_fires : Event
  conflict_found : Event
  packet_comes : ℕ → ℕ → DhcpPacket → Event

-- A timer that fires is out of the list of its device when its handler runs.
unfoldable pub handle : Event → DhcpClient → Option DhcpClient
unfolding dhcp_timeout_handler dhcp_ip_lease_handler dhcp_renew_handler dhcp_rebind_handler
    dhcp_ip_conflict_handler dhcp_rx_handler
handle (timeout_fires is_sent random) c =
    dhcp_timeout_handler is_sent random (record c { timeout_timer = none })
handle (lease_fires random) c =
    some (dhcp_ip_lease_handler random (record c { lease_timer = none }))
handle renew_fires c = some (dhcp_renew_handler (record c { renew_timer = none }))
handle rebind_fires c = some (dhcp_rebind_handler (record c { rebind_timer = none }))
handle conflict_found c = some (dhcp_ip_conflict_handler c)
handle (packet_comes rounds random p) c = dhcp_rx_handler rounds random p c
