-- ===== src/Net/Dhcp/Tests.antt =====
-- The client of src/driver/network/protocols/ipv4/dhcp.c on concrete packets, and the theorems about it
-- there.
use horizon_operating_system.Common.{
  ℕ, zero, suc, ◌*◌, ◌<◌, ◌≤◌, ◌≡◌, refl, List, [], ◌∷◌, Bool, true, false, none, some, arith,
  get_or, inl, ltb, ◌&&◌,
}
use horizon_operating_system.Net.Dhcp.{
  DhcpClient, dhcp_stat_init, dhcp_stat_selecting, dhcp_stat_bound, dhcp_stat_renewing, message,
  again, dhcp_discover, dhcp_select, dhcp_retransmit, dhcp_timeout_handler,
  dhcp_ip_conflict_handler, dhcp_set_timers,
}
use horizon_operating_system.Net.Dhcp.Receive.{
  Indexes, no_indexes, DhcpPacket, note_option, parse_from, dhcp_parse_options, dhcp_offer_handler,
  dhcp_ack_handler, receive_ack, receive, dhcp_rx_handler, timeout_fires, packet_comes, renew_fires,
  handle,
}
use horizon_operating_system.Net.Dhcp.Options.{
  Laid, HasIndexes, dhcp_parse_options-finds, dhcp_parse_options-ends,
}
use horizon_operating_system.Net.Dhcp.Renewal.{HasTimes, receive_ack-unrenewed, set_timers-in_order}

abbrev blank : DhcpClient
blank = record {
  state = dhcp_stat_init;
  timeout_timer = none;
  lease_timer = none;
  rebind_timer = none;
  renew_timer = none;
  is_relinked = false;
  t0 = 0;
  t1 = 0;
  t2 = 0;
  xid = 77;
  ip_addr = 0;
  server_ip_addr = 0xffffffff;
  device_ip = 0;
  subnet_mask = 0;
  gateway_ip = 0;
  retry_times = 0;
  sent = [];
}

-- The client after `dhcp_start`.
abbrev started : DhcpClient
started = record blank {
  state = dhcp_stat_selecting;
  timeout_timer = some 4000;
  sent = message 1 0 0xffffffff ∷ [];
}

starts : dhcp_discover blank ≡ started
unfolding dhcp_discover
starts = refl

-- The magic cookie, an offer or an acknowledgement, the server 10.0.0.1 and a lease of an hour.
abbrev reply : ℕ → List ℕ
reply msg_type =
    99 ∷ 130 ∷ 83 ∷ 99 ∷ 53 ∷ 1 ∷ msg_type ∷ 54 ∷ 4 ∷ 10 ∷ 0 ∷ 0 ∷ 1 ∷ 51 ∷ 4 ∷ 0 ∷ 0 ∷ 14 ∷ 16
    ∷ 255 ∷ []

abbrev options_of : ℕ → ℕ → ℕ
options_of msg_type i = get_or (reply msg_type) i 0

abbrev packet : ℕ → DhcpPacket
packet msg_type = record {
  size = 256;
  op = 2;
  is_for_client = true;
  xid = 77;
  yiaddr = 0x0500000a;
  siaddr = 0x0100000a;
  options = options_of msg_type;
}

abbrev laid : List Laid
laid =
    record { code = 53; len = 1 }
    ∷ record { code = 54; len = 4 }
    ∷ record { code = 51; len = 4 }
    ∷ []

abbrev are_bytes : List ℕ → Bool
are_bytes [] = true
are_bytes (b ∷ bs) = ltb b 256 && are_bytes bs

get_or-byte : (bs : List ℕ) (i : ℕ) → are_bytes bs ≡ true → get_or bs i 0 < 256
get_or-byte [] i h = omega arith
get_or-byte (b ∷ bs) zero h = ground (arith, h)
get_or-byte (b ∷ bs) (suc i) h = get_or-byte bs i (ground (arith, h))

options_of-byte : (i : ℕ) → options_of 5 i < 256
options_of-byte i = get_or-byte (reply 5) i refl

dhcp_parse_options-finds_example :
    (found : Indexes) × ((dhcp_parse_options 4 (options_of 5) 20 ≡ some found)
      × HasIndexes 4 laid found)
dhcp_parse_options-finds_example =
    dhcp_parse_options-finds 4 (options_of 5) 20 laid options_of-byte (omega arith) (omega arith) (
      ((refl, refl), (omega arith, (omega arith, omega arith))),
      (
        ((refl, refl), (omega arith, (omega arith, omega arith))),
        (((refl, refl), (omega arith, (omega arith, omega arith))), inl refl),
      ),
    )

dhcp_parse_options-ends_example :
    (found : Indexes) × (dhcp_parse_options 21 (options_of 5) 20 ≡ some found)
dhcp_parse_options-ends_example =
    dhcp_parse_options-ends (options_of 5) 20 options_of-byte (omega arith)

where_they_are :
    dhcp_parse_options 4 (options_of 5) 20
    ≡ some (record no_indexes { message_type = 6; server_id = 9; ip_lease_time = 15 })
unfolding dhcp_parse_options parse_from note_option
where_they_are = refl

-- A byte of padding before the message's type takes the byte behind it for a length.
abbrev padded : ℕ → ℕ
padded i = get_or (99 ∷ 130 ∷ 83 ∷ 99 ∷ 0 ∷ 53 ∷ 1 ∷ 5 ∷ 255 ∷ []) i 0

loses_type : dhcp_parse_options 10 padded 9 ≡ some no_indexes
unfolding dhcp_parse_options parse_from note_option
loses_type = refl

-- An offer and an acknowledgement.
abbrev bound : DhcpClient
bound = record started {
  state = dhcp_stat_bound;
  timeout_timer = none;
  lease_timer = some 3600000;
  rebind_timer = some 3150000;
  renew_timer = some 1800000;
  t0 = 3600;
  t1 = 1800;
  t2 = 3150;
  ip_addr = 0x0500000a;
  server_ip_addr = 0x0100000a;
  device_ip = 0x0500000a;
  sent = message 3 0x0500000a 0xffffffff ∷ message 1 0 0xffffffff ∷ [];
}

binds :
    (c : DhcpClient) × ((handle (packet_comes 21 1 (packet 2)) started ≡ some c)
      × (handle (packet_comes 21 2 (packet 5)) c ≡ some bound))
unfolding handle dhcp_rx_handler dhcp_parse_options parse_from note_option receive receive_ack
    dhcp_offer_handler dhcp_select dhcp_ack_handler dhcp_set_timers
binds = (_, (refl, refl))

-- A message that declines an address goes to the address 0, without the address that it is about.
declines : dhcp_ip_conflict_handler bound ≡ record bound {
  state = dhcp_stat_init;
  ip_addr = 0;
  server_ip_addr = 0;
  timeout_timer = some 10000;
  sent = message 4 0 0 ∷ message 3 0x0500000a 0xffffffff ∷ message 1 0 0xffffffff ∷ [];
}
unfolding dhcp_ip_conflict_handler
declines = refl

-- A message that cannot be sent leaves no timer.
stops :
    handle (timeout_fires false 1) started
    ≡ some (record started {
      timeout_timer = none;
      retry_times = 1;
      sent = again ∷ message 1 0 0xffffffff ∷ [];
    })
unfolding handle dhcp_timeout_handler dhcp_retransmit
stops = refl

-- The twenty-ninth attempt shifts an int by 31 places.
shifts : handle (timeout_fires true 1) (record started { retry_times = 28 }) ≡ none
unfolding handle dhcp_timeout_handler dhcp_retransmit
shifts = refl

abbrev renewing : DhcpClient
renewing = record bound {
  renew_timer = none;
  state = dhcp_stat_renewing;
  timeout_timer = some 4000;
}

abbrev found : Indexes
found = record no_indexes { message_type = 6; server_id = 9; ip_lease_time = 15 }

receive_ack-unrenewed_example :
    ((receive_ack (packet 5) found renewing).state ≡ dhcp_stat_renewing)
    × (((receive_ack (packet 5) found renewing).is_relinked ≡ true)
        × (handle renew_fires (receive_ack (packet 5) found renewing)
            ≡ some (record (receive_ack (packet 5) found renewing) { renew_timer = none })))
receive_ack-unrenewed_example = receive_ack-unrenewed (packet 5) found renewing refl refl

set_timers-in_order_example :
    (renew : ℕ) × ((rebind : ℕ) × ((lease : ℕ) × (HasTimes
            (dhcp_set_timers (dhcp_ack_handler (packet 5) found renewing))
            renew
            rebind
            lease
          × ((lease ≡ (dhcp_ack_handler (packet 5) found renewing).t0 * 1000)
              × ((renew ≤ rebind) × (rebind ≤ lease))))))
unfolding dhcp_ack_handler
set_timers-in_order_example = set_timers-in_order (packet 5) found renewing refl refl (omega arith)

-- A lease of 50 days ends after 25032704 milliseconds, before it is renewed.
overflows :
    (dhcp_set_timers (record bound { t0 = 4320000; t1 = 2160000; t2 = 3780000 })).lease_timer
    ≡ some 25032704
unfolding dhcp_set_timers
overflows = refl
