-- ===== src/Net/Arp/Learns.antt =====
-- What arp_recv of src/driver/network/protocols/ipv4/arp.c learns from a packet for this device.
use horizon_operating_system.Common.{
  ℕ, zero, suc, ◌+◌, ◌%◌, ◌≡◌, inl, inr, refl, ap, ◌∙◌, List, [], ◌∷◌, ◌++◌, length, get_or, set,
  take, drop, Bool, true, false, Bool-cases, Option, none, some, Option-cases,
}
use mathlib.Core.Path.{subst⁻¹}
use horizon_operating_system.Net.Protocols.{proto_ok}
use horizon_operating_system.Net.Neighbour.{
  NeighbourEntry, Bucket, NeighbourTable, is_for, find_neighbour, bucket_of, change_bucket,
  change_entry, new_entry, neigh_bucket_size, ipv4_hash, bytes_of, neighbour_entry_create,
}
use horizon_operating_system.Net.Neighbour.Update.{
  IsReached, change_entry-IsReached, create_entry-IsReached,
}
use horizon_operating_system.Net.Arp.{
  NetworkDevice, ArpPacket, Search, missing, found_at, one_later, search_bucket, Arrived, learn,
  reply_to, arrive, arp_recv, same_ip,
}
use horizon_operating_system.Net.Arp.Leak.{IsLookedAt, arp_recv-arrive}

-- No lock of an entry is held.
abbrev pub IsFreeBucket : Bucket → Type 0
IsFreeBucket [] = Unit
IsFreeBucket (e ∷ b) = (e.is_locked ≡ false) × IsFreeBucket b

abbrev pub IsFree : NeighbourTable → Type 0
IsFree [] = Unit
IsFree (b ∷ t) = IsFreeBucket b × IsFree t

get_or-IsFreeBucket : (t : NeighbourTable) (k : ℕ) → IsFree t → IsFreeBucket (get_or t k [])
get_or-IsFreeBucket [] k h = tt
get_or-IsFreeBucket (b ∷ t) zero h = h.0
get_or-IsFreeBucket (b ∷ t) (suc k) h = get_or-IsFreeBucket t k h.1

set-IsFree :
    (t : NeighbourTable) (k : ℕ) (b : Bucket) → IsFree t → IsFreeBucket b → IsFree (set t k b)
set-IsFree [] k b h f = tt
set-IsFree (c ∷ t) zero b h f = (f, h.1)
set-IsFree (c ∷ t) (suc k) b h f = (h.0, set-IsFree t k b h.1 f)

learn-IsFreeBucket :
    (b : Bucket) (i : ℕ) (p : ArpPacket)
    → IsFreeBucket b
    → IsFreeBucket (change_bucket b i (learn p))
learn-IsFreeBucket [] i p h = tt
learn-IsFreeBucket (e ∷ b) zero p h = (refl, h.1)
learn-IsFreeBucket (e ∷ b) (suc i) p h = (h.0, learn-IsFreeBucket b i p h.1)

append-IsFreeBucket :
    (b : Bucket) (e : NeighbourEntry)
    → IsFreeBucket b
    → e.is_locked ≡ false
    → IsFreeBucket (b ++ (e ∷ []))
append-IsFreeBucket [] e h f = (f, tt)
append-IsFreeBucket (c ∷ b) e h f = (h.0, append-IsFreeBucket b e h.1 f)

learn-IsFree :
    (t : NeighbourTable) (k i : ℕ) (p : ArpPacket)
    → IsFree t
    → IsFree (change_entry t k i (learn p))
learn-IsFree t k i p h =
    set-IsFree t k (change_bucket (get_or t k []) i (learn p)) h
      (learn-IsFreeBucket (get_or t k []) i p (get_or-IsFreeBucket t k h))

abbrev search_of : Option ℕ → Search
search_of none = missing
search_of (some i) = found_at i

later-search_of :
    (o : Option ℕ)
    → one_later (search_of o) ≡ search_of (elim o [ none ↦ none | some i ↦ some (i + 1) ])
later-search_of none = refl
later-search_of (some i) = refl

-- Where no lock is held, the walk of `arp_recv` finds what `neighbour_table_try_lookup` finds.
search_bucket-find_neighbour :
    (b : Bucket) (a : List ℕ) (n : ℕ)
    → IsFreeBucket b
    → search_bucket b a n ≡ search_of (find_neighbour b a n)
unfolding search_bucket find_neighbour
search_bucket-find_neighbour [] a n h = refl
search_bucket-find_neighbour (e ∷ b) a n h = elim (Bool-cases (is_for a n e)) [
  | inl t ↦ rw (h.0, t) refl
  | inr t ↦
      rw (h.0, t)
        (ap one_later (search_bucket-find_neighbour b a n h.1)
          ∙ later-search_of (find_neighbour b a n))
]

-- What the packet leaves behind.
abbrev pub Learned : NetworkDevice → ArpPacket → Option Arrived → Type 0
Learned device p o =
    (out : Arrived) × ((o ≡ some out)
      × (((out.result ≡ proto_ok) × (out.sent ≡ reply_to device p))
          × (IsFree out.table
              × IsReached out.table (ipv4_hash p.src_paddr) (bytes_of p.src_paddr)
                  (take p.hlen p.src_haddr))))

arrive-known :
    (has_memory : Bool) (device : NetworkDevice) (table : NeighbourTable) (p : ArpPacket) (i : ℕ)
    → length table ≡ neigh_bucket_size
    → IsFree table
    → same_ip p.dst_paddr device.ip ≡ true
    → find_neighbour (bucket_of table (ipv4_hash p.src_paddr)) (bytes_of p.src_paddr) 4 ≡ some i
    → Learned device p (arrive has_memory device table p (found_at i))
arrive-known has_memory device table p i l f o h =
    let k = ipv4_hash p.src_paddr in
    (
      record {
        result = proto_ok;
        table = change_entry table (k % neigh_bucket_size) i (learn p);
        sent = reply_to device p;
        conflict = same_ip p.src_paddr device.ip;
      },
      (
        rw o refl,
        (
          (refl, refl),
          (
            learn-IsFree table (k % neigh_bucket_size) i p f,
            change_entry-IsReached table k i (bytes_of p.src_paddr) (take p.hlen p.src_haddr)
                (learn p) l (λ e. refl) (λ e. (refl, (drop p.hlen e.haddr, refl))) h,
          ),
        ),
      ),
    )

arrive-unknown :
    (device : NetworkDevice) (table : NeighbourTable) (p : ArpPacket)
    → length table ≡ neigh_bucket_size
    → IsFree table
    → p.plen ≡ 4
    → same_ip p.dst_paddr device.ip ≡ true
    → find_neighbour (bucket_of table (ipv4_hash p.src_paddr)) (bytes_of p.src_paddr) 4 ≡ none
    → Learned device p (arrive true device table p missing)
unfolding neighbour_entry_create
arrive-unknown device table p l f n o h =
    let k = ipv4_hash p.src_paddr in
    let new = new_entry device.is_ethernet k (bytes_of p.src_paddr) 4 in
    let b = bucket_of table k in
    let made = set table (k % neigh_bucket_size) (b ++ (new ∷ [])) in
    (
      record {
        result = proto_ok;
        table = change_entry made (k % neigh_bucket_size) (length b) (learn p);
        sent = reply_to device p;
        conflict = same_ip p.src_paddr device.ip;
      },
      (
        rw (o, n) refl,
        (
          (refl, refl),
          (
            learn-IsFree made (k % neigh_bucket_size) (length b) p (
                set-IsFree table (k % neigh_bucket_size) (b ++ (new ∷ [])) f (
                  append-IsFreeBucket b new (get_or-IsFreeBucket table (k % neigh_bucket_size) f)
                    refl)),
            create_entry-IsReached table device.is_ethernet k (bytes_of p.src_paddr)
                (take p.hlen p.src_haddr) (learn p) l (λ e. refl)
                (λ e. (refl, (drop p.hlen e.haddr, refl))) h,
          ),
        ),
      ),
    )

-- In a table of 32 buckets where no lock of an entry is held, and with memory for one more entry, a packet
-- for this device's address is taken: its sender is found afterwards, reachable at the hardware address of
-- the packet, a request is answered, and still no lock is held.
pub arp_recv-learns :
    (device : NetworkDevice) (table : NeighbourTable) (p : ArpPacket)
    → length table ≡ neigh_bucket_size
    → IsFree table
    → IsLookedAt device p
    → same_ip p.dst_paddr device.ip ≡ true
    → Learned device p (arp_recv true device table p)
arp_recv-learns device table p l f k o =
    let b = bucket_of table (ipv4_hash p.src_paddr) in
    let a = bytes_of p.src_paddr in
    let free = get_or-IsFreeBucket table (ipv4_hash p.src_paddr % neigh_bucket_size) f in
    let runs : (s : Option ℕ)
        → find_neighbour b a 4 ≡ s
        → arp_recv true device table p ≡ arrive true device table p (search_of s) =
      λ s e.
        arp_recv-arrive true device table p k
        ∙ ap (arrive true device table p)
            (search_bucket-find_neighbour b a 4 free ∙ ap search_of e) in
    elim (Option-cases (find_neighbour b a 4)) [
      | inl e ↦
          subst⁻¹ (Learned device p) (runs none e) (arrive-unknown device table p l f k.1.1 o e)
      | inr i ↦
          subst⁻¹ (Learned device p) (runs (some i.0) i.1)
            (arrive-known true device table p i.0 l f o i.1)
    ]
