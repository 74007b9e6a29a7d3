-- ===== src/Net/Ipv4/Receive.antt =====
-- Which packets ipv4_recv of src/driver/network/protocols/ipv4/ipv4.c takes: those of ipv4_wrap, and none
-- with a word that does not fit the checksum.
use horizon_operating_system.Common.{
  ℕ, zero, suc, ◌+◌, ◌-◌, ◌/◌, ◌%◌, ◌^◌, ◌≤◌, ◌<◌, ◌≡◌, ◌≢◌, inl, inr, refl, sym, ap, ◌∙◌, List, [],
  ◌∷◌, arith, length, get_or, set, ltb, if◌then◌else◌, true, false, Bool-cases, not, ◌==◌,
}
use horizon_operating_system.Net.Protocols.{proto_error_checksum}
use horizon_operating_system.Net.Buffer.{NetBuffer}
use horizon_operating_system.Net.Ipv4.{
  Ipv4Header, rejected, words, ipv4_checksum, ipv4_recv, ipv4_get_packet_length, accept, swap_word,
  header_size,
}
use horizon_operating_system.Net.Ipv4.Checksum.{
  IsHeader, total, sum_of, sum_of-mod, checksum-sum_of,
}

pub swap_twice : (n : ℕ) → n < 2 ^ 16 → swap_word (swap_word n) ≡ n
swap_twice n h = omega arith

checksum_twice : (h : Ipv4Header) → ipv4_checksum (ipv4_checksum h) ≡ ipv4_checksum h
unfolding ipv4_checksum
checksum_twice h = refl

-- A header of IPv4 in a buffer that is long enough is taken or refused by its checksum.
recv-checks :
    (b : NetBuffer) (h : Ipv4Header)
    → header_size ≤ (b.tail + (2 ^ 64 - b.data_start)) % 2 ^ 32
    → h.ver_len / 2 ^ 4 ≡ 4
    → ipv4_recv b h ≡ (
        if h.checksum == 0
        then accept b h (ipv4_get_packet_length h)
        else if not ((ipv4_checksum h).checksum == h.checksum)
        then rejected proto_error_checksum
        else accept b (ipv4_checksum h) (ipv4_get_packet_length h))
unfolding ipv4_recv
recv-checks b h l v =
    let s : ltb ((b.tail + (2 ^ 64 - b.data_start)) % 2 ^ 32) header_size ≡ false = ground arith in
    let t : (h.ver_len / 2 ^ 4 == 4) ≡ true = ground arith in rw (s, t) refl

-- A header that ipv4_checksum has completed is taken.
pub recv-completed :
    (b : NetBuffer) (h g : Ipv4Header)
    → header_size ≤ (b.tail + (2 ^ 64 - b.data_start)) % 2 ^ 32
    → h.ver_len / 2 ^ 4 ≡ 4
    → h ≡ ipv4_checksum g
    → ipv4_recv b h ≡ accept b h (ipv4_get_packet_length h)
recv-completed b h g l v e =
    let same : ipv4_checksum h ≡ h = ap ipv4_checksum e ∙ (checksum_twice g ∙ sym e) in
    let checked : ((ipv4_checksum h).checksum == h.checksum) ≡ true =
      ground (arith, ap (λ t. t.checksum) same) in
    recv-checks b h l v ∙ elim (Bool-cases (h.checksum == 0)) [
      | inl z ↦ rw z refl
      | inr z ↦ rw (z, checked) (ap (λ t. accept b t (ipv4_get_packet_length h)) same)
    ]

total-set :
    (ws : List ℕ) (k w : ℕ) → k < length ws → total (set ws k w) + get_or ws k 0 ≡ total ws + w
total-set [] k w h = absurd (omega arith)
total-set (v ∷ ws) zero w h = omega arith
total-set (v ∷ ws) (suc k) w h = omega (arith, total-set ws k w (omega arith))

-- If one of the ten words of a header changes on the way, and not just between the two forms of 0 in one's
-- complement, then ipv4_recv rejects the packet for its checksum; the header's version is still 4, the
-- packet is long enough, and its checksum is the one that was sent and not 0.
pub ipv4_recv-rejects :
    (b : NetBuffer) (sent h : Ipv4Header) (k w : ℕ)
    → IsHeader sent
    → IsHeader h
    → header_size ≤ (b.tail + (2 ^ 64 - b.data_start)) % 2 ^ 32
    → h.ver_len / 2 ^ 4 ≡ 4
    → h.checksum ≡ (ipv4_checksum sent).checksum
    → 0 < h.checksum
    → k < 10
    → words (record h { checksum = 0 }) ≡ set (words (record sent { checksum = 0 })) k w
    → w % 0xffff ≢ get_or (words (record sent { checksum = 0 })) k 0 % 0xffff
    → ipv4_recv b h ≡ rejected proto_error_checksum
ipv4_recv-rejects b sent h k w i j l v e z m c d =
    let apart : sum_of sent ≢ sum_of h = λ s. d (
      omega (
        arith,
        (sum_of-mod sent i).0,
        (sum_of-mod h j).0,
        s,
        ap total c,
        total-set (words (record sent { checksum = 0 })) k w (omega arith),
      )) in
    let f : (h.checksum == 0) ≡ false = ground arith in
    let g : ((ipv4_checksum h).checksum == h.checksum) ≡ false =
      ground (arith, apart, checksum-sum_of sent i, checksum-sum_of h j) in
    recv-checks b h l v ∙ rw (f, g) refl
