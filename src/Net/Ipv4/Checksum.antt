-- ===== src/Net/Ipv4/Checksum.antt =====
-- The checksum of src/driver/network/protocols/ipv4/ipv4.c as a sum in one's complement: modulo 65535.
use horizon_operating_system.Common.{ℕ, ◌+◌, ◌%◌, ◌^◌, ◌<◌, ◌≡◌, refl, ap, List, [], ◌∷◌, arith}
use horizon_operating_system.Net.Ipv4.{Ipv4Header, Ip, words, add_word, sum_words, ipv4_checksum}

-- The plain sum.
abbrev pub total : List ℕ → ℕ
total [] = 0
total (w ∷ ws) = w + total ws

abbrev pub AllWords : List ℕ → Type 0
AllWords [] = Unit
AllWords (w ∷ ws) = (w < 2 ^ 16) × AllWords ws

add_word-mod :
    (s w : ℕ)
    → s < 2 ^ 16
    → w < 2 ^ 16
    → (add_word s w % 0xffff ≡ (s + w) % 0xffff) × (add_word s w < 2 ^ 16)
unfolding add_word
add_word-mod s w h k = ground arith

sum_words-mod :
    (ws : List ℕ) (s : ℕ)
    → AllWords ws
    → s < 2 ^ 16
    → (sum_words ws s % 0xffff ≡ (s + total ws) % 0xffff) × (sum_words ws s < 2 ^ 16)
unfolding sum_words
sum_words-mod [] s a h = (omega arith, h)
sum_words-mod (w ∷ ws) s a h =
    let first = add_word-mod s w h a.0 in
    let later = sum_words-mod ws (add_word s w) a.1 first.1 in
    (omega (arith, first.0, later.0), later.1)

-- The fields of a header are bytes and words.
abbrev pub IsIp : Ip → Type 0
IsIp ip = ((ip.b0 < 2 ^ 8) × (ip.b1 < 2 ^ 8)) × ((ip.b2 < 2 ^ 8) × (ip.b3 < 2 ^ 8))

abbrev pub IsHeader : Ipv4Header → Type 0
IsHeader h =
    (((h.ver_len < 2 ^ 8) × (h.tos < 2 ^ 8))
      × ((h.total_len < 2 ^ 16) × ((h.id < 2 ^ 16) × (h.flags_frag_offset < 2 ^ 16))))
    × (((h.ttl < 2 ^ 8) × ((h.protocol < 2 ^ 8) × (h.checksum < 2 ^ 16)))
        × (IsIp h.src_ip × IsIp h.dst_ip))

IsHeader-AllWords : (h : Ipv4Header) → IsHeader h → AllWords (words h)
IsHeader-AllWords h i = (
  omega (arith, i.0.0),
  (
    i.0.1.0,
    (
      i.0.1.1.0,
      (
        i.0.1.1.1,
        (
          omega (arith, i.1.0),
          (
            i.1.0.1.1,
            (
              omega (arith, i.1.1.0),
              (omega (arith, i.1.1.0), (omega (arith, i.1.1.1), (omega (arith, i.1.1.1), tt))),
            ),
          ),
        ),
      ),
    ),
  ),
)

cleared-IsHeader : (h : Ipv4Header) → IsHeader h → IsHeader (record h { checksum = 0 })
cleared-IsHeader h i = (i.0, ((i.1.0.0, (i.1.0.1.0, omega arith)), i.1.1))

-- The sum over the header without its checksum.
abbrev pub sum_of : Ipv4Header → ℕ
sum_of h = sum_words (words (record h { checksum = 0 })) 0

pub sum_of-mod :
    (h : Ipv4Header)
    → IsHeader h
    → (sum_of h % 0xffff ≡ total (words (record h { checksum = 0 })) % 0xffff) × (sum_of h < 2 ^ 16)
sum_of-mod h i =
    let m =
      sum_words-mod (words (record h { checksum = 0 })) 0
        (IsHeader-AllWords (record h { checksum = 0 }) (cleared-IsHeader h i)) (omega arith) in
    (omega (arith, m.0), m.1)

pub checksum-sum_of : (h : Ipv4Header) → IsHeader h → (ipv4_checksum h).checksum + sum_of h ≡ 0xffff
unfolding ipv4_checksum
checksum-sum_of h i = omega (arith, (sum_of-mod h i).1)

total-checksum :
    (h : Ipv4Header) (c : ℕ)
    → total (words (record h { checksum = c })) ≡ total (words (record h { checksum = 0 })) + c
total-checksum h c = omega arith

checked_words :
    (h : Ipv4Header)
    → words (ipv4_checksum h) ≡ words (record h { checksum = (ipv4_checksum h).checksum })
unfolding ipv4_checksum
checked_words h = refl

-- The ten words of a header that ipv4_checksum has completed add up to 0 in one's complement, which is
-- how RFC 791 has it.
pub ipv4_checksum-total :
    (h : Ipv4Header) → IsHeader h → total (words (ipv4_checksum h)) % 0xffff ≡ 0
ipv4_checksum-total h i =
    let c = (ipv4_checksum h).checksum in
    omega (
      arith,
      ap total (checked_words h),
      total-checksum h c,
      (sum_of-mod h i).0,
      checksum-sum_of h i,
    )
