-- ===== src/Net/Arp/Tests.antt =====
-- Neighbours and packets of src/driver/network/protocols/ipv4/arp.c and ipv4.c on concrete addresses, and
-- the theorems about them there.
use horizon_operating_system.Common.{
  ℕ, ◌≡◌, refl, List, [], ◌∷◌, ◌++◌, true, false, some, arith, replicate, set, take,
}
use horizon_operating_system.Net.Protocols.{proto_ok, proto_error_cannot_find_route}
use horizon_operating_system.Net.Ipv4.{Ip}
use horizon_operating_system.Net.Neighbour.{
  NeighbourEntry, NeighbourTable, neigh_state_reachable, same_bytes, find_neighbour,
  neighbour_table_try_lookup, neighbour_entry_create, neighbour_table_lookup, ipv4_hash,
  ipv4_neigh_update, ipv4_lookup_mac, resolved, unresolved, waits, null_call, bytes_of,
}
use horizon_operating_system.Net.Neighbour.Update.{ipv4_lookup_mac-update}
use horizon_operating_system.Net.Arp.{
  NetworkDevice, ArpPacket, is_addressed, search_bucket, arp_recv, arp_send_request,
}
use horizon_operating_system.Net.Arp.Learns.{Learned, arp_recv-learns}

abbrev ip : ℕ → Ip
ip n = record { b0 = 192; b1 = 168; b2 = 0; b3 = n }

abbrev mac : ℕ → List ℕ
mac n = 2 ∷ 0 ∷ 0 ∷ 0 ∷ 0 ∷ n ∷ []

abbrev device : NetworkDevice
device = record { is_ethernet = true; mac_addr = mac 1; ip = ip 1 }

abbrev no_neighbours : NeighbourTable
no_neighbours = replicate 32 []

hashed : ipv4_hash (ip 7) ≡ 0
unfolding ipv4_hash
hashed = refl

abbrev mask : Ip
mask = record { b0 = 255; b1 = 255; b2 = 255; b3 = 0 }

abbrev far : Ip
far = record { b0 = 8; b1 = 8; b2 = 8; b3 = 8 }

abbrev nowhere : Ip
nowhere = record { b0 = 0; b1 = 0; b2 = 0; b3 = 0 }

-- An unknown neighbour is asked, and then waited for.
asks : ipv4_lookup_mac true true arp_send_request no_neighbours mask (ip 7) (ip 9) ≡ waits
unfolding ipv4_lookup_mac ipv4_hash neighbour_table_lookup neighbour_table_try_lookup
    neighbour_entry_create find_neighbour
asks = refl

without_memory :
    ipv4_lookup_mac false true arp_send_request no_neighbours mask (ip 7) (ip 9) ≡ null_call
unfolding ipv4_lookup_mac ipv4_hash neighbour_table_lookup neighbour_table_try_lookup
    neighbour_entry_create find_neighbour
without_memory = refl

without_gateway :
    ipv4_lookup_mac true true arp_send_request no_neighbours mask nowhere far
    ≡ unresolved proto_error_cannot_find_route
unfolding ipv4_lookup_mac
without_gateway = refl

ipv4_lookup_mac-update_example :
    (table' : NeighbourTable) × ((ipv4_neigh_update true true no_neighbours (ip 7) (mac 7) 6
        ≡ some table')
      × ((rest : List ℕ) × (ipv4_lookup_mac true true arp_send_request table' mask (ip 7) far
            ≡ resolved (take 6 (mac 7) ++ rest))))
unfolding ipv4_hash find_neighbour
ipv4_lookup_mac-update_example =
    ipv4_lookup_mac-update true true arp_send_request no_neighbours mask (ip 7) far (mac 7) 6 refl
      (λ e. omega (arith, e)) (λ e. omega (arith, e)) (omega arith)
      (λ i e. absurd (ground (arith, e)))

-- A request of neighbour 7 for the address `n`.
abbrev request : ℕ → ArpPacket
request n = record {
  htype = 1;
  ptype = 0x0800;
  hlen = 6;
  plen = 4;
  opcode = 1;
  src_haddr = mac 7;
  src_paddr = ip 7;
  dst_haddr = 0 ∷ 0 ∷ 0 ∷ 0 ∷ 0 ∷ 0 ∷ [];
  dst_paddr = ip n;
}

addressed : (n : ℕ) → is_addressed device (request n) ≡ true
unfolding is_addressed same_bytes
addressed n = refl

for_this : same_bytes 4 (bytes_of (ip 1)) (bytes_of (ip 1)) ≡ true
unfolding same_bytes
for_this = refl

for_another : same_bytes 4 (bytes_of (ip 9)) (bytes_of (ip 1)) ≡ false
unfolding same_bytes
for_another = refl

arp_recv-learns_example :
    Learned device (request 1) (arp_recv true device no_neighbours (request 1))
arp_recv-learns_example =
    arp_recv-learns device no_neighbours (request 1) refl _ (addressed 1, (refl, refl)) for_this

abbrev neighbour : NeighbourEntry
neighbour = record {
  is_locked = false;
  key = 0;
  state = neigh_state_reachable;
  hlen = 6;
  haddr = 2 ∷ 0 ∷ 0 ∷ 0 ∷ 0 ∷ 7 ∷ 0 ∷ 0 ∷ [];
  has_ops = true;
  ip_length = 4;
  ip_addr = bytes_of (ip 7);
}

abbrev one_neighbour : NeighbourTable
one_neighbour = set no_neighbours 0 (neighbour ∷ [])

learned :
    arp_recv true device no_neighbours (request 1)
    ≡ some (record {
      result = proto_ok;
      table = one_neighbour;
      sent = some (record {
        htype = 1;
        ptype = 0x0800;
        hlen = 6;
        plen = 4;
        opcode = 2;
        src_haddr = mac 1;
        src_paddr = ip 1;
        dst_haddr = mac 7;
        dst_paddr = ip 7;
      });
      conflict = false;
    })
unfolding arp_recv is_addressed search_bucket ipv4_hash neighbour_entry_create same_bytes
learned = refl
