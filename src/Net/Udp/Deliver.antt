-- ===== src/Net/Udp/Deliver.antt =====
-- Where the datagrams of src/driver/network/protocols/udp.c arrive.
use horizon_operating_system.Common.{
  ℕ, zero, suc, ◌+◌, ◌-◌, ◌%◌, ◌^◌, ◌≤◌, ◌<◌, ◌≡◌, ◌⊎◌, inl, inr, refl, sym, ap, ◌∙◌, arith, List,
  [], ◌∷◌, ◌++◌, length, Bool, true, false, Bool-cases, not, ◌&&◌, ◌||◌, Option, ltb, ◌==◌,
}
use horizon_operating_system.Net.Buffer.{NetBuffer, after}
use horizon_operating_system.Net.Ipv4.{Ip, swap_word}
use horizon_operating_system.Net.Neighbour.{same_bytes, bytes_of}
use horizon_operating_system.Net.Udp.{
  UdpHeader, udp_header_size, Socket, udp_wrap, is_socket_for, calls, one_further, deliver_datagram,
  udp_recv,
}

-- A socket is for the datagrams with two ports and an address: it is bound to the second port, its remote
-- port is open or the first one, and its address is the datagram's or open, or the datagram is a broadcast.
abbrev pub IsFor : ℕ → ℕ → Ip → Socket → Type 0
IsFor src_port dst_port dst_ip s =
    (s.local_port ≡ dst_port)
    × (((s.remote_port ≡ 0) ⊎ (s.remote_port ≡ src_port))
        × ((bytes_of s.local_ip ≡ bytes_of dst_ip)
            ⊎ ((bytes_of s.local_ip ≡ 0 ∷ 0 ∷ 0 ∷ 0 ∷ [])
                ⊎ (bytes_of dst_ip ≡ 0xff ∷ 0xff ∷ 0xff ∷ 0xff ∷ []))))

abbrev pub NoneFor : ℕ → ℕ → Ip → List Socket → Type 0
NoneFor src_port dst_port dst_ip [] = Unit
NoneFor src_port dst_port dst_ip (s ∷ sockets) =
    ¬ IsFor src_port dst_port dst_ip s × NoneFor src_port dst_port dst_ip sockets

or-true : (a b : Bool) → (a || b) ≡ true → (a ≡ true) ⊎ (b ≡ true)
or-true true b h = inl refl
or-true false b h = inr h

and-true : (a b : Bool) → (a && b) ≡ true → (a ≡ true) × (b ≡ true)
and-true true b h = (refl, h)
and-true false b h = absurd (ground (arith, h))

same_bytes_self : (xs : List ℕ) → same_bytes (length xs) xs xs ≡ true
unfolding same_bytes
same_bytes_self [] = refl
same_bytes_self (x ∷ xs) = let t : (x == x) ≡ true = ground arith in rw t (same_bytes_self xs)

same_bytes-eq :
    (n : ℕ) (xs ys : List ℕ) → length xs ≡ n → length ys ≡ n → same_bytes n xs ys ≡ true → xs ≡ ys
unfolding same_bytes
same_bytes-eq zero [] [] k l h = refl
same_bytes-eq zero (x ∷ xs) ys k l h = absurd (omega (arith, k))
same_bytes-eq zero [] (y ∷ ys) k l h = absurd (omega (arith, l))
same_bytes-eq (suc n) [] ys k l h = absurd (omega (arith, k))
same_bytes-eq (suc n) (x ∷ xs) [] k l h = absurd (omega (arith, l))
same_bytes-eq (suc n) (x ∷ xs) (y ∷ ys) k l h =
    let t = and-true (x == y) (same_bytes n xs ys) h in
    let e : x ≡ y = ground (arith, t.0) in
    rw e (ap (λ t. y ∷ t) (same_bytes-eq n xs ys (omega (arith, k)) (omega (arith, l)) t.1))

four : (xs ys : List ℕ) → length xs ≡ 4 → xs ≡ ys → same_bytes 4 xs ys ≡ true
four xs ys l e =
    ap (same_bytes 4 xs) (sym e) ∙ (ap (λ n. same_bytes n xs xs) (sym l) ∙ same_bytes_self xs)

-- The tests of the loop are those of `IsFor`, for the ports that the header tells.
module _ (h : UdpHeader) (src_port dst_port : ℕ) (dst_ip : Ip) (s : Socket)
    (from : swap_word h.src_port ≡ src_port) (to : swap_word h.dst_port ≡ dst_port) where
  is_socket_for-IsFor : is_socket_for h dst_ip s ≡ true → IsFor src_port dst_port dst_ip s
  unfolding is_socket_for
  is_socket_for-IsFor t =
      let a = bytes_of s.local_ip in
      let b = bytes_of dst_ip in
      let zeros : List ℕ = 0 ∷ 0 ∷ 0 ∷ 0 ∷ [] in
      let ones : List ℕ = 0xff ∷ 0xff ∷ 0xff ∷ 0xff ∷ [] in
      let port = s.local_port == swap_word h.dst_port in
      let open_remote = s.remote_port == 0 in
      let own_remote = s.remote_port == swap_word h.src_port in
      let own = same_bytes 4 a b || same_bytes 4 a zeros in
      let all = and-true (port && (open_remote || own_remote)) (own || same_bytes 4 b ones) t in
      let ports = and-true port (open_remote || own_remote) all.0 in
      let remote : (s.remote_port ≡ 0) ⊎ (s.remote_port ≡ src_port) =
        elim (or-true open_remote own_remote ports.1) [
          | inl z ↦ inl (ground (arith, z))
          | inr z ↦ inr (ground (arith, z, from))
        ] in
      let address : (a ≡ b) ⊎ ((a ≡ 0 ∷ 0 ∷ 0 ∷ 0 ∷ []) ⊎ (b ≡ 0xff ∷ 0xff ∷ 0xff ∷ 0xff ∷ [])) =
        elim (or-true own (same_bytes 4 b ones) all.1) [
          | inl z ↦ elim (or-true (same_bytes 4 a b) (same_bytes 4 a zeros) z) [
            | inl y ↦ inl (same_bytes-eq 4 a b refl refl y)
            | inr y ↦ inr (inl (same_bytes-eq 4 a zeros refl refl y))
          ]
          | inr z ↦ inr (inr (same_bytes-eq 4 b ones refl refl z))
        ] in
      (ground (arith, ports.0, to), (remote, address))

  IsFor-is_socket_for : IsFor src_port dst_port dst_ip s → is_socket_for h dst_ip s ≡ true
  unfolding is_socket_for
  IsFor-is_socket_for t =
      let a = bytes_of s.local_ip in
      let b = bytes_of dst_ip in
      let port : (s.local_port == swap_word h.dst_port) ≡ true = ground (arith, t.0, to) in
      let remote : ((s.remote_port == 0) || (s.remote_port == swap_word h.src_port)) ≡ true =
        elim t.1.0 [ inl z ↦ ground (arith, z) | inr z ↦ ground (arith, z, from) ] in
      let address : (same_bytes 4 a b
            || same_bytes 4 a (0 ∷ 0 ∷ 0 ∷ 0 ∷ [])
            || same_bytes 4 b (0xff ∷ 0xff ∷ 0xff ∷ 0xff ∷ []))
          ≡ true =
        elim t.1.1 [
          | inl z ↦ ground (arith, four a b refl z)
          | inr (inl z) ↦ ground (arith, four a (0 ∷ 0 ∷ 0 ∷ 0 ∷ []) refl z)
          | inr (inr z) ↦ ground (arith, four b (0xff ∷ 0xff ∷ 0xff ∷ 0xff ∷ []) refl z)
        ] in
      rw (port, remote, address) refl

  not_for : ¬ IsFor src_port dst_port dst_ip s → is_socket_for h dst_ip s ≡ false
  not_for n = elim (Bool-cases (is_socket_for h dst_ip s)) [
    | inl t ↦ absurd (n (is_socket_for-IsFor t))
    | inr t ↦ t
  ]

deliver-first :
    (h : UdpHeader) (src_port dst_port : ℕ) (dst_ip : Ip) (b : NetBuffer) (before : List Socket)
    (s : Socket) (others : List Socket)
    → swap_word h.src_port ≡ src_port
    → swap_word h.dst_port ≡ dst_port
    → NoneFor src_port dst_port dst_ip before
    → IsFor src_port dst_port dst_ip s
    → s.has_callback ≡ true
    → deliver_datagram h dst_ip b (before ++ (s ∷ others)) ≡ calls (length before) b
unfolding deliver_datagram
deliver-first h src_port dst_port dst_ip b [] s others from to n i c =
    rw (IsFor-is_socket_for h src_port dst_port dst_ip s from to i, c) refl
deliver-first h src_port dst_port dst_ip b (r ∷ before) s others from to n i c =
    let later = deliver-first h src_port dst_port dst_ip b before s others from to n.1 i c in
    rw (not_for h src_port dst_port dst_ip r from to n.0)
      (ap one_further later ∙ ap (λ k. calls k b) (omega arith))

recv-unchecked :
    (b : NetBuffer) (h : UdpHeader) (contents : List ℕ) (odd : Option ℕ) (src_ip dst_ip : Ip)
    (sockets : List Socket)
    → h.checksum ≡ 0
    → udp_header_size ≤ swap_word h.length
    → swap_word h.length ≤ (b.tail + (2 ^ 64 - b.data_start)) % 2 ^ 32
    → (b.tail + (2 ^ 64 - b.data_start)) % 2 ^ 32 < 2 ^ 31
    → udp_recv b h contents odd src_ip dst_ip sockets
      ≡ deliver_datagram h dst_ip
          (record b { data_start = after b.data_start udp_header_size })
          sockets
unfolding udp_recv
recv-unchecked b h contents odd src_ip dst_ip sockets z l k m =
    let size = (b.tail + (2 ^ 64 - b.data_start)) % 2 ^ 32 in
    let t : ltb (swap_word h.length) udp_header_size ≡ false = ground arith in
    let u : (ltb size (swap_word h.length) || not (ltb size (2 ^ 31))) ≡ false = ground arith in
    let v : (h.checksum == 0) ≡ true = ground arith in rw (t, u, v) refl

wrap-header :
    (b : NetBuffer) (src_port dst_port size : ℕ)
    → b.head + size ≡ b.tail
    → b.tail < 2 ^ 64
    → udp_header_size + size < 2 ^ 16
    → (src_port < 2 ^ 16) × (dst_port < 2 ^ 16)
    → ((udp_wrap b src_port dst_port).1.checksum ≡ 0)
      × ((swap_word (udp_wrap b src_port dst_port).1.length ≡ udp_header_size + size)
          × ((swap_word (udp_wrap b src_port dst_port).1.src_port ≡ src_port)
              × (swap_word (udp_wrap b src_port dst_port).1.dst_port ≡ dst_port)))
unfolding udp_wrap
wrap-header b src_port dst_port size e k m p =
    (refl, (omega arith, (omega (arith, p.0), omega (arith, p.1))))

-- A datagram that udp_wrap makes, for two ports, of contents which leave room for the header in 16 bits is
-- delivered from every buffer that holds it: to the first socket of the list that is bound to the second
-- port, whose remote port is open or the first one, and whose address is the datagram's or open, if it is
-- not a broadcast, by a call of that socket's callback with the buffer behind the header, whatever is bound
-- after it.
pub udp_recv-wrap :
    (sent b : NetBuffer) (src_port dst_port size : ℕ) (contents : List ℕ) (odd : Option ℕ)
    (src_ip dst_ip : Ip) (before : List Socket) (s : Socket) (others : List Socket)
    → (src_port < 2 ^ 16) × (dst_port < 2 ^ 16)
    → sent.head + size ≡ sent.tail
    → sent.tail < 2 ^ 64
    → udp_header_size + size < 2 ^ 16
    → b.data_start + (udp_header_size + size) ≡ b.tail
    → b.tail < 2 ^ 64
    → NoneFor src_port dst_port dst_ip before
    → IsFor src_port dst_port dst_ip s
    → s.has_callback ≡ true
    → udp_recv b
        (udp_wrap sent src_port dst_port).1
        contents
        odd
        src_ip
        dst_ip
        (before ++ (s ∷ others))
      ≡ calls (length before) (record b { data_start = b.data_start + udp_header_size })
udp_recv-wrap sent b src_port dst_port size contents odd src_ip dst_ip before s others p e k m d t n
      i c =
    let h = (udp_wrap sent src_port dst_port).1 in
    let made = wrap-header sent src_port dst_port size e k m p in
    let behind : after b.data_start udp_header_size ≡ b.data_start + udp_header_size =
      omega arith in
    recv-unchecked b h contents odd src_ip dst_ip (before ++ (s ∷ others)) made.0
      (omega (arith, made.1.0)) (omega (arith, made.1.0)) (omega arith)
    ∙ (deliver-first h src_port dst_port dst_ip
          (record b { data_start = after b.data_start udp_header_size }) before s others made.1.1.0
          made.1.1.1 n i c
        ∙ ap (λ x. calls (length before) (record b { data_start = x })) behind)
