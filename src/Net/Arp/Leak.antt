-- ===== src/Net/Arp/Leak.antt =====
-- The lock that arp_recv of src/driver/network/protocols/ipv4/arp.c keeps.
use horizon_operating_system.Common.{
  ℕ, ◌≡◌, refl, List, ◌∷◌, arith, Bool, true, false, ◌&&◌, ◌==◌, if◌then◌else◌,
}
use horizon_operating_system.Net.Neighbour.{
  NeighbourEntry, Bucket, NeighbourTable, is_for, bucket_of, ipv4_hash, bytes_of,
}
use horizon_operating_system.Net.Arp.{
  NetworkDevice, ArpPacket, Search, blocked, missing, found_at, one_later, search_bucket, arrive,
  arp_recv, is_addressed,
}

pub search_bucket-step :
    (e : NeighbourEntry) (b : Bucket) (a : List ℕ) (n : ℕ)
    → search_bucket (e ∷ b) a n ≡ (
        if e.is_locked
        then blocked
        else if is_for a n e
        then found_at 0
        else one_later (search_bucket b a n))
unfolding search_bucket
search_bucket-step e b a n = refl

abbrev place_or : ℕ → Search → ℕ
place_or d blocked = d
place_or d missing = d
place_or d (found_at i) = i

abbrev is_found : Search → Bool
is_found blocked = false
is_found missing = false
is_found (found_at i) = true

-- A packet for another device, and one that arp_recv looks at.
abbrev pub IsLookedAt : NetworkDevice → ArpPacket → Type 0
IsLookedAt device p = (is_addressed device p ≡ true) × ((p.ptype ≡ 0x0800) × (p.plen ≡ 4))

pub arp_recv-arrive :
    (has_memory : Bool) (device : NetworkDevice) (table : NeighbourTable) (p : ArpPacket)
    → IsLookedAt device p
    → arp_recv has_memory device table p
      ≡ arrive has_memory device table p
          (search_bucket (bucket_of table (ipv4_hash p.src_paddr)) (bytes_of p.src_paddr) 4)
unfolding arp_recv
arp_recv-arrive has_memory device table p l =
    let t : ((p.ptype == 0x0800) && (p.plen == 4)) ≡ true = ground (arith, l.1) in
    rw (l.0, t, l.1.1) refl
