-- ===== src/Net/Neighbour.antt =====
-- The table of neighbours of src/driver/network/neighbour.c, and the two functions of
-- src/driver/network/protocols/ipv4/ipv4.c that use it. An entry is named by its bucket and its place
-- there, as `list_for_each_owner` meets it. The locks of the buckets are left out; that of an entry is
-- whether it is held.
pub mod Lookup
pub mod Update
use horizon_operating_system.Common.{
  ℕ, zero, suc, ◌+◌, ◌-◌, ◌*◌, ◌/◌, ◌%◌, ◌^◌, List, [], ◌∷◌, ◌++◌, Bool, true, false, not, ◌&&◌,
  ◌||◌, Option, none, some, bit_xor, bit_and, take, drop, set, length, get_or, get_elem?, ltb, ◌==◌,
  if◌then◌else◌,
}
use horizon_operating_system.Net.Protocols.{
  ProtocolResult, proto_ok, proto_error_cannot_find_route, proto_error_null_ptr,
}
use horizon_operating_system.Net.Ipv4.{Ip}

pub data NeighbourState : Type 0 where
  neigh_state_none : NeighbourState
  neigh_state_waiting : NeighbourState
  neigh_state_reachable : NeighbourState
  neigh_state_stale : NeighbourState
  neigh_state_failed : NeighbourState

-- `has_ops` is whether `ops` is the table of functions of ARP.
pub record NeighbourEntry : Type 0 where
  pub is_locked : Bool
  pub key : ℕ
  pub state : NeighbourState
  pub hlen : ℕ
  pub haddr : List ℕ
  pub has_ops : Bool
  pub ip_length : ℕ
  pub ip_addr : List ℕ

abbrev pub Bucket : Type 0
Bucket = List NeighbourEntry

-- `NeighbourTable`, its `buckets`.
abbrev pub NeighbourTable : Type 0
NeighbourTable = List Bucket

abbrev pub neigh_bucket_size : ℕ
neigh_bucket_size = 32

abbrev pub bytes_of : Ip → List ℕ
bytes_of ip = ip.b0 ∷ ip.b1 ∷ ip.b2 ∷ ip.b3 ∷ []

-- `memcmp` of `n` bytes, whether it is 0.
unfoldable pub same_bytes : ℕ → List ℕ → List ℕ → Bool
same_bytes zero xs ys = true
same_bytes (suc n) [] [] = true
same_bytes (suc n) [] (y ∷ ys) = false
same_bytes (suc n) (x ∷ xs) [] = false
same_bytes (suc n) (x ∷ xs) (y ∷ ys) = (x == y) && same_bytes n xs ys

-- The test of the loop of `neighbour_table_try_lookup`.
abbrev pub is_for : List ℕ → ℕ → NeighbourEntry → Bool
is_for ip_addr ip_length entry =
    (ip_length == entry.ip_length) && same_bytes ip_length entry.ip_addr ip_addr

-- The loop over a bucket: the place of the first entry for the address.
unfoldable pub find_neighbour : Bucket → List ℕ → ℕ → Option ℕ
find_neighbour [] ip_addr ip_length = none
find_neighbour (entry ∷ bucket) ip_addr ip_length =
    let later = find_neighbour bucket ip_addr ip_length in
    if is_for ip_addr ip_length entry
    then some 0
    else elim later [ none ↦ none | some i ↦ some (i + 1) ]

abbrev pub bucket_of : NeighbourTable → ℕ → Bucket
bucket_of table hash_key = get_or table (hash_key % neigh_bucket_size) []

unfoldable pub neighbour_table_try_lookup : NeighbourTable → ℕ → List ℕ → ℕ → Option ℕ
unfolding find_neighbour
neighbour_table_try_lookup table hash_key ip_addr ip_length =
    find_neighbour (bucket_of table hash_key) ip_addr ip_length

abbrev pub new_entry : Bool → ℕ → List ℕ → ℕ → NeighbourEntry
new_entry is_ethernet hash_key addr length = record {
  is_locked = false;
  key = hash_key % neigh_bucket_size;
  state = neigh_state_none;
  hlen = 0;
  haddr = 0 ∷ 0 ∷ 0 ∷ 0 ∷ 0 ∷ 0 ∷ 0 ∷ 0 ∷ [];
  has_ops = is_ethernet;
  ip_length = length;
  ip_addr = take length addr;
}

-- The table with the new entry, and its place in the bucket; `none` if there is no memory for it.
unfoldable pub neighbour_entry_create :
    Bool → Bool → NeighbourTable → ℕ → List ℕ → ℕ → Option (NeighbourTable × ℕ)
neighbour_entry_create has_memory is_ethernet table hash_key addr ip_length =
    let k = hash_key % neigh_bucket_size in
    let bucket = get_or table k [] in
    if has_memory
    then some (
      set table k (bucket ++ (new_entry is_ethernet hash_key addr ip_length ∷ [])),
      length bucket,
    )
    else none

-- A write through a pointer to an entry.
abbrev pub change_bucket : Bucket → ℕ → (NeighbourEntry → NeighbourEntry) → Bucket
change_bucket [] i f = []
change_bucket (entry ∷ bucket) zero f = f entry ∷ bucket
change_bucket (entry ∷ bucket) (suc i) f = entry ∷ change_bucket bucket i f

abbrev pub change_entry :
    NeighbourTable → ℕ → ℕ → (NeighbourEntry → NeighbourEntry) → NeighbourTable
change_entry table k i f = set table k (change_bucket (get_or table k []) i f)

-- `neighbour_table_lookup`, where `request` is what `ops->request` makes of the entry. `none` is the call
-- through NULL: there is no entry, or no table of functions.
unfoldable pub neighbour_table_lookup :
    Bool
    → Bool
    → (NeighbourEntry → NeighbourEntry)
    → NeighbourTable
    → ℕ
    → List ℕ
    → ℕ
    → Option (NeighbourTable × ℕ)
unfolding neighbour_table_try_lookup neighbour_entry_create
neighbour_table_lookup has_memory is_ethernet request table hash_key ip_addr ip_length =
    elim (neighbour_table_try_lookup table hash_key ip_addr ip_length) [
      | some i ↦ some (table, i)
      | none ↦
          elim (neighbour_entry_create has_memory is_ethernet table hash_key ip_addr ip_length) [
            | none ↦ none
            | some made ↦
                if is_ethernet
                then some
                    (change_entry made.0 (hash_key % neigh_bucket_size) made.1 request, made.1)
                else none
          ]
    ]

-- The address as a number, `*(uint32_t *)ip`.
abbrev pub number_of : Ip → ℕ
number_of ip = ip.b0 + ip.b1 * 2 ^ 8 + ip.b2 * 2 ^ 16 + ip.b3 * 2 ^ 24

unfoldable pub ipv4_hash : Ip → ℕ
ipv4_hash ip = bit_xor (number_of ip) (number_of ip / 2 ^ 16) % neigh_bucket_size

-- `memcpy(entry->haddr, mac, hlen)`, for a reachable neighbour.
abbrev pub reach : List ℕ → ℕ → NeighbourEntry → NeighbourEntry
reach mac hlen entry = record entry {
  state = neigh_state_reachable;
  haddr = take hlen mac ++ drop hlen entry.haddr;
}

-- Whether the lock of the entry at a place is held.
abbrev pub is_held : Bucket → ℕ → Bool
is_held bucket i = elim (get_elem? bucket i) [ none ↦ false | some entry ↦ entry.is_locked ]

-- The entry is written while its lock is taken: `none` is the wait for a lock that is held, or a copy
-- behind the 8 bytes of `haddr`.
abbrev pub reach_entry : NeighbourTable → ℕ → ℕ → Bool → List ℕ → ℕ → Option NeighbourTable
reach_entry table k i held mac hlen =
    if held || ltb 8 hlen
    then none
    else some (change_entry table (k % neigh_bucket_size) i (reach mac hlen))

-- `ipv4_neigh_update`, for the source address of the packet. The lock of a new entry is free.
unfoldable pub ipv4_neigh_update :
    Bool → Bool → NeighbourTable → Ip → List ℕ → ℕ → Option NeighbourTable
unfolding ipv4_hash neighbour_table_try_lookup neighbour_entry_create
ipv4_neigh_update has_memory is_ethernet table ip mac hlen =
    let k = ipv4_hash ip in
    if (number_of ip == 0) || (number_of ip == 0xffffffff)
    then some table
    else elim (neighbour_table_try_lookup table k (bytes_of ip) 4) [
      | some i ↦ reach_entry table k i (is_held (bucket_of table k) i) mac hlen
      | none ↦ elim (neighbour_entry_create has_memory is_ethernet table k (bytes_of ip) 4) [
        | none ↦ some table
        | some made ↦ reach_entry made.0 k made.1 false mac hlen
      ]
    ]

-- How `ipv4_lookup_mac` ends: with a result, with the bytes of `mac`, in the loop that waits for the
-- entry, or through NULL.
pub data Resolved : Type 0 where
  unresolved : ProtocolResult → Resolved
  resolved : List ℕ → Resolved
  waits : Resolved
  null_call : Resolved

abbrev pub read_haddr : Option NeighbourEntry → Resolved
read_haddr none = null_call
read_haddr (some entry) = elim entry.state [
  | neigh_state_waiting ↦ waits
  | neigh_state_none ↦ resolved entry.haddr
  | neigh_state_reachable ↦ resolved entry.haddr
  | neigh_state_stale ↦ resolved entry.haddr
  | neigh_state_failed ↦ resolved entry.haddr
]

-- The entry that a lookup found or made, as it is then.
abbrev pub read_entry : Option (NeighbourTable × ℕ) → ℕ → Resolved
read_entry none k = null_call
read_entry (some found) k = read_haddr (get_elem? (bucket_of found.0 k) found.1)

unfoldable pub ipv4_lookup_mac :
    Bool → Bool → (NeighbourEntry → NeighbourEntry) → NeighbourTable → Ip → Ip → Ip → Resolved
unfolding ipv4_hash neighbour_table_lookup
ipv4_lookup_mac has_memory is_ethernet request table subnet_mask gateway_ip ip =
    let lookup = λ (to : Ip).
      read_entry
        (neighbour_table_lookup has_memory is_ethernet request table (ipv4_hash to) (bytes_of to) 4)
        (ipv4_hash to) in
    let outside =
      if number_of gateway_ip == 0
      then unresolved proto_error_cannot_find_route
      else lookup gateway_ip in
    if bit_and (number_of ip) (number_of subnet_mask)
      == bit_and (number_of gateway_ip) (number_of subnet_mask)
    then lookup ip
    else outside
