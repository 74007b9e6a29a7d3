-- ===== src/Net/Arp.antt =====
-- The receiver of ARP packets, src/driver/network/protocols/ipv4/arp.c, over the table of neighbours. The
-- words of a packet are as BE2HOST_WORD gives them, and its four addresses are lists of bytes.
pub mod Leak
pub mod Learns
mod Tests
use horizon_operating_system.Common.{
  ℕ, zero, suc, ◌+◌, ◌%◌, List, [], ◌∷◌, ◌++◌, Bool, true, false, not, ◌&&◌, ◌||◌, Option, none,
  some, take, drop, length, set, ◌==◌, if◌then◌else◌,
}
use horizon_operating_system.Net.Protocols.{
  ProtocolResult, proto_ok, proto_error_unsupport, proto_error_other,
}
use horizon_operating_system.Net.Ipv4.{Ip}
use horizon_operating_system.Net.Neighbour.{
  NeighbourEntry, Bucket, NeighbourTable, neigh_state_reachable, neigh_state_waiting, same_bytes,
  is_for, bucket_of, change_entry, neighbour_entry_create, neigh_bucket_size, ipv4_hash, bytes_of,
}

-- The fields of the device that are read.
pub record NetworkDevice : Type 0 where
  pub is_ethernet : Bool
  pub mac_addr : List ℕ
  pub ip : Ip

-- `ArpHeader` and the addresses behind it. `src_paddr` is taken as four bytes, which `plen` is tested for.
pub record ArpPacket : Type 0 where
  pub htype : ℕ
  pub ptype : ℕ
  pub hlen : ℕ
  pub plen : ℕ
  pub opcode : ℕ
  pub src_haddr : List ℕ
  pub src_paddr : Ip
  pub dst_haddr : List ℕ
  pub dst_paddr : Ip

abbrev pub eth_broadcast_mac : List ℕ
eth_broadcast_mac = 0xff ∷ 0xff ∷ 0xff ∷ 0xff ∷ 0xff ∷ 0xff ∷ []

abbrev pub eth_null_mac : List ℕ
eth_null_mac = 0 ∷ 0 ∷ 0 ∷ 0 ∷ 0 ∷ 0 ∷ []

-- Whether the hardware addresses are Ethernet's and the packet is for this device, so that `haddr` is set.
unfoldable pub is_addressed : NetworkDevice → ArpPacket → Bool
is_addressed device p =
    (p.htype == 1)
    && device.is_ethernet
    && (p.hlen == 6)
    && (same_bytes p.hlen p.dst_haddr device.mac_addr
        || same_bytes p.hlen p.dst_haddr eth_broadcast_mac
        || same_bytes p.hlen p.dst_haddr eth_null_mac)

-- What the walk over the bucket comes to. It takes the lock of each entry that it looks at, and `blocked`
-- is a lock that is held.
pub data Search : Type 0 where
  blocked : Search
  missing : Search
  found_at : ℕ → Search

abbrev pub one_later : Search → Search
one_later blocked = blocked
one_later missing = missing
one_later (found_at i) = found_at (i + 1)

unfoldable pub search_bucket : Bucket → List ℕ → ℕ → Search
search_bucket [] paddr plen = missing
search_bucket (entry ∷ bucket) paddr plen =
    let later = search_bucket bucket paddr plen in
    if entry.is_locked
    then blocked
    else if is_for paddr plen entry
    then found_at 0
    else one_later later

-- What a call leaves: the table, the packet that it sends, and whether it tells of an address conflict.
pub record Arrived : Type 0 where
  pub result : ProtocolResult
  pub table : NeighbourTable
  pub sent : Option ArpPacket
  pub conflict : Bool

abbrev pub lock_entry : NeighbourEntry → NeighbourEntry
lock_entry entry = record entry { is_locked = true }

-- The entry as the sender tells it, without its lock.
abbrev pub learn : ArpPacket → NeighbourEntry → NeighbourEntry
learn p entry = record entry {
  is_locked = false;
  state = neigh_state_reachable;
  hlen = p.hlen;
  haddr = take p.hlen p.src_haddr ++ drop p.hlen entry.haddr;
}

-- The answer to a request; `haddr` is the address of the device that the packet was for.
abbrev pub reply_to : NetworkDevice → ArpPacket → Option ArpPacket
reply_to device p =
    let haddr =
      if same_bytes p.hlen p.dst_haddr device.mac_addr then p.dst_haddr else device.mac_addr in
    if p.opcode == 1
    then some (record p {
      opcode = 2;
      src_haddr = haddr;
      src_paddr = device.ip;
      dst_haddr = p.src_haddr;
      dst_paddr = p.src_paddr;
    })
    else none

abbrev pub same_ip : Ip → Ip → Bool
same_ip a b = same_bytes 4 (bytes_of a) (bytes_of b)

-- What follows the walk; `none` is the loop that waits for a lock.
abbrev pub arrive : Bool → NetworkDevice → NeighbourTable → ArpPacket → Search → Option Arrived
arrive has_memory device table p blocked = none
arrive has_memory device table p missing =
    let k = ipv4_hash p.src_paddr in
    let conflict = same_ip p.src_paddr device.ip in
    if not (same_ip p.dst_paddr device.ip)
    then some (record { result = proto_ok; table = table; sent = none; conflict = conflict })
    else elim (neighbour_entry_create has_memory device.is_ethernet table k (bytes_of p.src_paddr)
        p.plen) [
          | none ↦ some (record {
            result = proto_error_other;
            table = table;
            sent = none;
            conflict = conflict;
          })
          | some made ↦ some (record {
            result = proto_ok;
            table = change_entry made.0 (k % neigh_bucket_size) made.1 (learn p);
            sent = reply_to device p;
            conflict = conflict;
          })
        ]
arrive has_memory device table p (found_at i) =
    let k = ipv4_hash p.src_paddr in
    let conflict = same_ip p.src_paddr device.ip in
    if not (same_ip p.dst_paddr device.ip)
    then some (record {
      result = proto_ok;
      table = change_entry table (k % neigh_bucket_size) i lock_entry;
      sent = none;
      conflict = conflict;
    })
    else some (record {
      result = proto_ok;
      table = change_entry table (k % neigh_bucket_size) i (learn p);
      sent = reply_to device p;
      conflict = conflict;
    })

unfoldable pub arp_recv : Bool → NetworkDevice → NeighbourTable → ArpPacket → Option Arrived
unfolding is_addressed search_bucket ipv4_hash neighbour_entry_create same_bytes
arp_recv has_memory device table p =
    let unsupported : Arrived = record {
      result = proto_error_unsupport;
      table = table;
      sent = none;
      conflict = false;
    } in
    if not (is_addressed device p)
    then some unsupported
    else if not ((p.ptype == 0x0800) && (p.plen == 4))
    then some unsupported
    else arrive has_memory device table p
        (search_bucket (bucket_of table (ipv4_hash p.src_paddr)) (bytes_of p.src_paddr) p.plen)

-- What `arp_send_request` does to the entry.
abbrev pub arp_send_request : NeighbourEntry → NeighbourEntry
arp_send_request entry = record entry { state = neigh_state_waiting }
