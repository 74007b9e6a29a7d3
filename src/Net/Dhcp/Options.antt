-- ===== src/Net/Dhcp/Options.antt =====
-- The loop over the options of a packet in src/driver/network/protocols/ipv4/dhcp.c.
use horizon_operating_system.Common.{
  ℕ, zero, suc, ◌+◌, ◌-◌, ◌%◌, ◌^◌, ◌≤◌, ◌<◌, ◌≡◌, ◌⊎◌, inl, inr, refl, ap, ◌∙◌, arith, List, [],
  ◌∷◌, length, true, false, Bool-cases, ◌||◌, leb, ◌==◌, some, if◌then◌else◌,
}
use horizon_operating_system.Net.Dhcp.Receive.{
  Indexes, no_indexes, note_option, next_offset, parse_from, dhcp_parse_options, u16_mod,
}

-- Every round goes on, and none past the end of 16 bits.
next_offset-later :
    (option offset length : ℕ)
    → offset < 0xfeff
    → length < 256
    → (offset < next_offset option (offset + 2) length)
      × (next_offset option (offset + 2) length < 2 ^ 16)
next_offset-later option offset length h k = ground arith

two_later : (offset : ℕ) → offset < 0xfeff → ((offset + 1) % u16_mod + 1) % u16_mod ≡ offset + 2
two_later offset h = omega arith

parse_from-step :
    (rounds : ℕ) (options : ℕ → ℕ) (end offset : ℕ) (idx : Indexes)
    → parse_from (suc rounds) options end offset idx ≡ (
        if (options offset == 255) || leb end offset
        then some idx
        else parse_from rounds options end
            (next_offset
              (options offset)
              (((offset + 1) % u16_mod + 1) % u16_mod)
              (options ((offset + 1) % u16_mod)))
            (note_option (options offset) (((offset + 1) % u16_mod + 1) % u16_mod) idx))
unfolding parse_from
parse_from-step rounds options end offset idx = refl

parse_from-ends :
    (rounds : ℕ) (options : ℕ → ℕ) (end offset : ℕ) (idx : Indexes)
    → ((i : ℕ) → options i < 256)
    → end ≤ 0xfeff
    → end - offset < rounds
    → (found : Indexes) × (parse_from rounds options end offset idx ≡ some found)
parse_from-ends zero options end offset idx b e r = absurd (omega arith)
parse_from-ends (suc rounds) options end offset idx b e r =
    let value = ((offset + 1) % u16_mod + 1) % u16_mod in
    elim (Bool-cases ((options offset == 255) || leb end offset)) [
      | inl t ↦ (idx, rw (parse_from-step, t) refl)
      | inr t ↦
          let inside : offset < end = ground (arith, t) in
          let v = two_later offset (omega arith) in
          let later =
            next_offset-later (options offset) offset (options ((offset + 1) % u16_mod))
              (omega arith) (b _) in
          let goes_on : offset
              < next_offset (options offset) value (options ((offset + 1) % u16_mod)) =
            rw v later.0 in
          let rest =
            parse_from-ends rounds options end
              (next_offset (options offset) value (options ((offset + 1) % u16_mod)))
              (note_option (options offset) value idx) b e (omega arith) in
          (rest.0, rw (parse_from-step, t) rest.1)
    ]

-- The loop of dhcp_parse_options ends: where `end` is at most 0xfeff, it takes no more than end + 1 rounds,
-- whatever bytes the packet and the memory behind it hold.
pub dhcp_parse_options-ends :
    (options : ℕ → ℕ) (end : ℕ)
    → ((i : ℕ) → options i < 256)
    → end ≤ 0xfeff
    → (found : Indexes) × (dhcp_parse_options (end + 1) options end ≡ some found)
unfolding dhcp_parse_options
dhcp_parse_options-ends options end b e =
    parse_from-ends (end + 1) options end 4 no_indexes b e (omega arith)

-- An option as it lies in a packet: its code and the length of its value.
pub record Laid : Type 0 where
  pub code : ℕ
  pub len : ℕ

-- The options lie one behind the other from an offset on, none of them is padding, and the last is
-- followed by the end option or by the end of the packet.
abbrev pub IsLaidOut : (ℕ → ℕ) → ℕ → ℕ → List Laid → Type 0
IsLaidOut options end offset [] = (options offset ≡ 255) ⊎ (end ≤ offset)
IsLaidOut options end offset (o ∷ os) =
    (((options offset ≡ o.code) × (options (offset + 1) ≡ o.len))
      × ((0 < o.code) × ((o.code < 255) × (offset < end))))
    × IsLaidOut options end (offset + 2 + o.len) os

-- Where the value of the last option with a code is; `d` if there is none.
abbrev pub last_or : ℕ → ℕ → List Laid → ℕ → ℕ
last_or code offset [] d = d
last_or code offset (o ∷ os) d =
    last_or code (offset + 2 + o.len) os (if o.code == code then offset + 2 else d)

-- The options that the client reads are those of RFC 2132 with these codes; 0 is for one that is missing.
pub record HasIndexes (offset : ℕ) (os : List Laid) (found : Indexes) : Type 0 where
  pub subnet_mask : found.subnet_mask ≡ last_or 1 offset os 0
  pub router : found.router ≡ last_or 3 offset os 0
  pub dns : found.dns ≡ last_or 6 offset os 0
  pub ip_lease_time : found.ip_lease_time ≡ last_or 51 offset os 0
  pub message_type : found.message_type ≡ last_or 53 offset os 0
  pub server_id : found.server_id ≡ last_or 54 offset os 0
  pub renewal_time : found.renewal_time ≡ last_or 58 offset os 0
  pub rebinding_time : found.rebinding_time ≡ last_or 59 offset os 0

-- What the loop has noted behind the options.
indexes_of : ℕ → List Laid → Indexes → Indexes
indexes_of offset [] idx = idx
indexes_of offset (o ∷ os) idx =
    indexes_of (offset + 2 + o.len) os (note_option o.code (offset + 2) idx)

note-subnet_mask :
    (code offset : ℕ) (idx : Indexes)
    → (note_option code offset idx).subnet_mask ≡ (if code == 1 then offset else idx.subnet_mask)
unfolding note_option
note-subnet_mask code offset idx = ground arith

note-router :
    (code offset : ℕ) (idx : Indexes)
    → (note_option code offset idx).router ≡ (if code == 3 then offset else idx.router)
unfolding note_option
note-router code offset idx = ground arith

note-dns :
    (code offset : ℕ) (idx : Indexes)
    → (note_option code offset idx).dns ≡ (if code == 6 then offset else idx.dns)
unfolding note_option
note-dns code offset idx = ground arith

note-ip_lease_time :
    (code offset : ℕ) (idx : Indexes)
    → (note_option code offset idx).ip_lease_time
      ≡ (if code == 51 then offset else idx.ip_lease_time)
unfolding note_option
note-ip_lease_time code offset idx = ground arith

note-message_type :
    (code offset : ℕ) (idx : Indexes)
    → (note_option code offset idx).message_type ≡ (if code == 53 then offset else idx.message_type)
unfolding note_option
note-message_type code offset idx = ground arith

note-server_id :
    (code offset : ℕ) (idx : Indexes)
    → (note_option code offset idx).server_id ≡ (if code == 54 then offset else idx.server_id)
unfolding note_option
note-server_id code offset idx = ground arith

note-renewal_time :
    (code offset : ℕ) (idx : Indexes)
    → (note_option code offset idx).renewal_time ≡ (if code == 58 then offset else idx.renewal_time)
unfolding note_option
note-renewal_time code offset idx = ground arith

note-rebinding_time :
    (code offset : ℕ) (idx : Indexes)
    → (note_option code offset idx).rebinding_time
      ≡ (if code == 59 then offset else idx.rebinding_time)
unfolding note_option
note-rebinding_time code offset idx = ground arith

-- A field of what is noted that each option sets by its code.
indexes_of-field :
    (field : Indexes → ℕ) (code : ℕ)
    → ((k i : ℕ) (idx : Indexes)
        → field (note_option k i idx) ≡ (if k == code then i else field idx))
    → (offset : ℕ) (os : List Laid) (idx : Indexes)
    → field (indexes_of offset os idx) ≡ last_or code offset os (field idx)
unfolding indexes_of
indexes_of-field field code notes offset [] idx = refl
indexes_of-field field code notes offset (o ∷ os) idx =
    indexes_of-field field code notes (offset + 2 + o.len) os (note_option o.code (offset + 2) idx)
    ∙ ap (last_or code (offset + 2 + o.len) os) (notes o.code (offset + 2) idx)

indexes_of-HasIndexes :
    (offset : ℕ) (os : List Laid) → HasIndexes offset os (indexes_of offset os no_indexes)
indexes_of-HasIndexes offset os = record {
  subnet_mask = indexes_of-field (λ x. x.subnet_mask) 1 note-subnet_mask offset os no_indexes;
  router = indexes_of-field (λ x. x.router) 3 note-router offset os no_indexes;
  dns = indexes_of-field (λ x. x.dns) 6 note-dns offset os no_indexes;
  ip_lease_time =
      indexes_of-field (λ x. x.ip_lease_time) 51 note-ip_lease_time offset os no_indexes;
  message_type = indexes_of-field (λ x. x.message_type) 53 note-message_type offset os no_indexes;
  server_id = indexes_of-field (λ x. x.server_id) 54 note-server_id offset os no_indexes;
  renewal_time = indexes_of-field (λ x. x.renewal_time) 58 note-renewal_time offset os no_indexes;
  rebinding_time =
      indexes_of-field (λ x. x.rebinding_time) 59 note-rebinding_time offset os no_indexes;
}

parse_from-laid_out :
    (rounds : ℕ) (options : ℕ → ℕ) (end offset : ℕ) (idx : Indexes) (os : List Laid)
    → ((i : ℕ) → options i < 256)
    → end ≤ 0xfeff
    → length os < rounds
    → IsLaidOut options end offset os
    → parse_from rounds options end offset idx ≡ some (indexes_of offset os idx)
unfolding indexes_of
parse_from-laid_out zero options end offset idx os b e r l = absurd (omega arith)
parse_from-laid_out (suc rounds) options end offset idx [] b e r l =
    let t : ((options offset == 255) || leb end offset) ≡ true = ground (arith, l) in
    rw (parse_from-step, t) refl
parse_from-laid_out (suc rounds) options end offset idx (o ∷ os) b e r l =
    let t : ((options offset == 255) || leb end offset) ≡ false = ground (arith, l.0) in
    let v = two_later offset (omega (arith, l.0.1.1.1)) in
    let f : (offset + 1) % u16_mod ≡ offset + 1 = omega (arith, l.0.1.1.1) in
    let n : next_offset (options offset) (offset + 2) (options (offset + 1)) ≡ offset + 2 + o.len =
      ground (arith, l.0, b (offset + 1)) in
    rw (parse_from-step, t, v, f, n, l.0.0.0)
      (parse_from-laid_out rounds options end (offset + 2 + o.len)
        (note_option o.code (offset + 2) idx) os b e (omega arith) l.1)

-- If the options of a packet of at most 0xfeff bytes lie one behind the other from the magic cookie on,
-- without padding, dhcp_parse_options ends within one round more than there are options, and it has found
-- for each of the eight codes that the client reads where the value of the last option with the code is, or
-- 0 if there is none.
pub dhcp_parse_options-finds :
    (rounds : ℕ) (options : ℕ → ℕ) (end : ℕ) (os : List Laid)
    → ((i : ℕ) → options i < 256)
    → end ≤ 0xfeff
    → length os < rounds
    → IsLaidOut options end 4 os
    → (found : Indexes) × ((dhcp_parse_options rounds options end ≡ some found)
        × HasIndexes 4 os found)
unfolding dhcp_parse_options
dhcp_parse_options-finds rounds options end os b e r l = (
  indexes_of 4 os no_indexes,
  (parse_from-laid_out rounds options end 4 no_indexes os b e r l, indexes_of-HasIndexes 4 os),
)
