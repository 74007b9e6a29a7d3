-- ===== src/Net/Neighbour/Update.antt =====
-- What ipv4_lookup_mac of src/driver/network/protocols/ipv4/ipv4.c answers after ipv4_neigh_update.
use horizon_operating_system.Common.{
  ℕ, ◌%◌, ◌≤◌, ◌≡◌, ◌≢◌, inl, inr, refl, ap, ◌∙◌, List, [], ◌∷◌, ◌++◌, arith, length, length-set,
  get_elem?, set, take, drop, Bool, true, false, none, some, Option-cases, Bool-cases, bit_and, ltb,
  ◌==◌, if◌then◌else◌,
}
use mathlib.Core.Path.{subst⁻¹}
use horizon_operating_system.Net.Ipv4.{Ip}
use horizon_operating_system.Net.Neighbour.{
  NeighbourEntry, NeighbourTable, neigh_state_reachable, is_for, find_neighbour, bucket_of, is_held,
  change_bucket, change_entry, new_entry, neigh_bucket_size, neighbour_table_try_lookup,
  neighbour_entry_create, neighbour_table_lookup, ipv4_hash, number_of, bytes_of, reach,
  ipv4_neigh_update, ipv4_lookup_mac, resolved, read_entry, read_haddr,
}
use horizon_operating_system.Net.Neighbour.Lookup.{
  find_neighbour-change, find_neighbour-append, is_for-new_entry, bucket_of-set,
}

-- The entry that is found for the address, reachable at a hardware address.
abbrev pub IsReached : NeighbourTable → ℕ → List ℕ → List ℕ → Type 0
IsReached table k a mac =
    (i : ℕ) × ((find_neighbour (bucket_of table k) a 4 ≡ some i)
      × ((e : NeighbourEntry) × ((get_elem? (bucket_of table k) i ≡ some e)
            × ((e.state ≡ neigh_state_reachable) × ((rest : List ℕ) × (e.haddr ≡ mac ++ rest))))))

-- Writing to the entry that is found for the address.
pub change_entry-IsReached :
    (table : NeighbourTable) (k i : ℕ) (a mac : List ℕ) (f : NeighbourEntry → NeighbourEntry)
    → length table ≡ neigh_bucket_size
    → ((e : NeighbourEntry) → is_for a 4 (f e) ≡ is_for a 4 e)
    → ((e : NeighbourEntry)
        → ((f e).state ≡ neigh_state_reachable) × ((rest : List ℕ) × ((f e).haddr ≡ mac ++ rest)))
    → find_neighbour (bucket_of table k) a 4 ≡ some i
    → IsReached (change_entry table (k % neigh_bucket_size) i f) k a mac
change_entry-IsReached table k i a mac f l s r h =
    let b = bucket_of table k in
    let there = bucket_of-set table k (change_bucket b i f) l in
    let found = find_neighbour-change b a 4 i f s h in
    subst⁻¹
      (λ t.
        (i : ℕ) × ((find_neighbour t a 4 ≡ some i)
          × ((e : NeighbourEntry) × ((get_elem? t i ≡ some e)
                × ((e.state ≡ neigh_state_reachable)
                    × ((rest : List ℕ) × (e.haddr ≡ mac ++ rest)))))))
      there (i, (found.0, (f found.1.0, (found.1.1, r found.1.0))))

-- Making an entry for an address that has none, and writing to it.
pub create_entry-IsReached :
    (table : NeighbourTable) (is_ethernet : Bool) (k : ℕ) (a mac : List ℕ)
    (f : NeighbourEntry → NeighbourEntry)
    → length table ≡ neigh_bucket_size
    → ((e : NeighbourEntry) → is_for a 4 (f e) ≡ is_for a 4 e)
    → ((e : NeighbourEntry)
        → ((f e).state ≡ neigh_state_reachable) × ((rest : List ℕ) × ((f e).haddr ≡ mac ++ rest)))
    → find_neighbour (bucket_of table k) a 4 ≡ none
    → IsReached
        (change_entry
          (set table
            (k % neigh_bucket_size)
            (bucket_of table k ++ (new_entry is_ethernet k a 4 ∷ [])))
          (k % neigh_bucket_size)
          (length (bucket_of table k))
          f)
        k
        a
        mac
create_entry-IsReached table is_ethernet k a mac f l s r h =
    let b = bucket_of table k ++ (new_entry is_ethernet k a 4 ∷ []) in
    let made = set table (k % neigh_bucket_size) b in
    let found =
      find_neighbour-append (bucket_of table k) a 4 (new_entry is_ethernet k a 4) h
        (is_for-new_entry is_ethernet k a 4) in
    change_entry-IsReached made k (length (bucket_of table k)) a mac f
      (length-set table (k % neigh_bucket_size) b ∙ l) s r
      (ap (λ t. find_neighbour t a 4) (bucket_of-set table k b l) ∙ found)

-- No lock of an entry that the lookup of the address finds is held.
abbrev pub IsFree : NeighbourTable → Ip → Type 0
IsFree table ip =
    (i : ℕ)
    → find_neighbour (bucket_of table (ipv4_hash ip)) (bytes_of ip) 4 ≡ some i
    → is_held (bucket_of table (ipv4_hash ip)) i ≡ false

update-IsReached :
    (is_ethernet : Bool) (table : NeighbourTable) (ip : Ip) (mac : List ℕ) (hlen : ℕ)
    → length table ≡ neigh_bucket_size
    → number_of ip ≢ 0
    → number_of ip ≢ 0xffffffff
    → hlen ≤ 8
    → IsFree table ip
    → (table' : NeighbourTable) × ((ipv4_neigh_update true is_ethernet table ip mac hlen
          ≡ some table')
        × IsReached table' (ipv4_hash ip) (bytes_of ip) (take hlen mac))
unfolding ipv4_neigh_update neighbour_table_try_lookup neighbour_entry_create
update-IsReached is_ethernet table ip mac hlen l n m short free =
    let k = ipv4_hash ip in
    let z : (number_of ip == 0) ≡ false = ground (arith, n) in
    let o : (number_of ip == 0xffffffff) ≡ false = ground (arith, m) in
    let c : ltb 8 hlen ≡ false = ground arith in
    elim (Option-cases (find_neighbour (bucket_of table k) (bytes_of ip) 4)) [
      | inl e ↦ (
        change_entry
            (set table (k % neigh_bucket_size)
              (bucket_of table k ++ (new_entry is_ethernet k (bytes_of ip) 4 ∷ [])))
            (k % neigh_bucket_size) (length (bucket_of table k)) (reach mac hlen),
        (
          rw (z, o, e, c) refl,
          create_entry-IsReached table is_ethernet k (bytes_of ip) (take hlen mac) (reach mac hlen)
              l (λ e. refl) (λ e. (refl, (drop hlen e.haddr, refl))) e,
        ),
      )
      | inr i ↦ (
        change_entry table (k % neigh_bucket_size) i.0 (reach mac hlen),
        (
          rw (z, o, i.1, free i.0 i.1, c) refl,
          change_entry-IsReached table k i.0 (bytes_of ip) (take hlen mac) (reach mac hlen) l
              (λ e. refl) (λ e. (refl, (drop hlen e.haddr, refl))) i.1,
        ),
      )
    ]

table_lookup-found :
    (has_memory is_ethernet : Bool) (request : NeighbourEntry → NeighbourEntry)
    (table : NeighbourTable) (k i : ℕ) (a : List ℕ)
    → find_neighbour (bucket_of table k) a 4 ≡ some i
    → neighbour_table_lookup has_memory is_ethernet request table k a 4 ≡ some (table, i)
unfolding neighbour_table_lookup neighbour_table_try_lookup
table_lookup-found has_memory is_ethernet request table k i a h =
    rw (neighbour_table_lookup, neighbour_table_try_lookup, h) refl

read_haddr-reached :
    (e : NeighbourEntry) → e.state ≡ neigh_state_reachable → read_haddr (some e) ≡ resolved e.haddr
read_haddr-reached e h = rw h refl

-- A neighbour that is reached is found without a request, and is not waited for.
lookup-reached :
    (has_memory is_ethernet : Bool) (request : NeighbourEntry → NeighbourEntry)
    (table : NeighbourTable) (ip : Ip) (mac : List ℕ)
    → IsReached table (ipv4_hash ip) (bytes_of ip) mac
    → (rest : List ℕ) × (read_entry
          (neighbour_table_lookup has_memory is_ethernet request table
            (ipv4_hash ip)
            (bytes_of ip)
            4)
          (ipv4_hash ip)
        ≡ resolved (mac ++ rest))
lookup-reached has_memory is_ethernet request table ip mac r =
    let k = ipv4_hash ip in
    (
      r.1.1.1.1.1.0,
      ap (λ t. read_entry t k)
            (table_lookup-found has_memory is_ethernet request table k r.0 (bytes_of ip) r.1.0)
          ∙ (ap read_haddr r.1.1.1.0
              ∙ (read_haddr-reached r.1.1.0 r.1.1.1.1.0 ∙ ap resolved r.1.1.1.1.1.1)),
    )

-- Where a packet for an address goes first.
abbrev pub is_inside : Ip → Ip → Ip → Bool
is_inside subnet_mask gateway_ip ip =
    bit_and (number_of ip) (number_of subnet_mask)
    == bit_and (number_of gateway_ip) (number_of subnet_mask)

abbrev pub next_hop : Ip → Ip → Ip → Ip
next_hop subnet_mask gateway_ip ip = if is_inside subnet_mask gateway_ip ip then ip else gateway_ip

lookup_mac-next_hop :
    (has_memory is_ethernet : Bool) (request : NeighbourEntry → NeighbourEntry)
    (table : NeighbourTable) (subnet_mask gateway_ip ip : Ip)
    → number_of (next_hop subnet_mask gateway_ip ip) ≢ 0
    → ipv4_lookup_mac has_memory is_ethernet request table subnet_mask gateway_ip ip
      ≡ read_entry
          (neighbour_table_lookup has_memory is_ethernet request table
            (ipv4_hash (next_hop subnet_mask gateway_ip ip))
            (bytes_of (next_hop subnet_mask gateway_ip ip))
            4)
          (ipv4_hash (next_hop subnet_mask gateway_ip ip))
unfolding ipv4_lookup_mac
lookup_mac-next_hop has_memory is_ethernet request table subnet_mask gateway_ip ip n =
    elim (Bool-cases (is_inside subnet_mask gateway_ip ip)) [
      | inl t ↦ rw t refl
      | inr t ↦
          let there : next_hop subnet_mask gateway_ip ip ≡ gateway_ip = rw t refl in
          let z : (number_of gateway_ip == 0) ≡ false = ground (arith, ap number_of there, n) in
          rw (t, z) refl
    ]

-- In a table of 32 buckets, with memory for one more entry, ipv4_neigh_update for the next hop of an
-- address, which is neither 0 nor that of a broadcast, comes to an end if the lock of an entry of this
-- neighbour is not held and the hardware address has 8 bytes at most, and what it notes is what
-- ipv4_lookup_mac gives for the address, without waiting and whatever the request for an unknown neighbour
-- does.
pub ipv4_lookup_mac-update :
    (has_memory is_ethernet : Bool) (request : NeighbourEntry → NeighbourEntry)
    (table : NeighbourTable) (subnet_mask gateway_ip ip : Ip) (mac : List ℕ) (hlen : ℕ)
    → length table ≡ neigh_bucket_size
    → number_of (next_hop subnet_mask gateway_ip ip) ≢ 0
    → number_of (next_hop subnet_mask gateway_ip ip) ≢ 0xffffffff
    → hlen ≤ 8
    → IsFree table (next_hop subnet_mask gateway_ip ip)
    → (table' : NeighbourTable) × ((ipv4_neigh_update true is_ethernet table
            (next_hop subnet_mask gateway_ip ip)
            mac
            hlen
          ≡ some table')
        × ((rest : List ℕ) × (ipv4_lookup_mac has_memory is_ethernet request table' subnet_mask
                gateway_ip ip
              ≡ resolved (take hlen mac ++ rest))))
ipv4_lookup_mac-update has_memory is_ethernet request table subnet_mask gateway_ip ip mac hlen l n m
      short free =
    let hop = next_hop subnet_mask gateway_ip ip in
    let updated = update-IsReached is_ethernet table hop mac hlen l n m short free in
    let found =
      lookup-reached has_memory is_ethernet request updated.0 hop (take hlen mac) updated.1.1 in
    (
      updated.0,
      (
        updated.1.0,
        (
          found.0,
          lookup_mac-next_hop has_memory is_ethernet request updated.0 subnet_mask gateway_ip ip n
              ∙ found.1,
        ),
      ),
    )
