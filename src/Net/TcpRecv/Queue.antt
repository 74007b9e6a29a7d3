-- ===== src/Net/TcpRecv/Queue.antt =====
-- What `tcp_recv_data` of src/driver/network/protocols/tcp.c hands out.
use horizon_operating_system.Common.{
  ℕ, zero, suc, ◌+◌, ◌-◌, ◌%◌, ◌^◌, ◌≡◌, ◌≤◌, ◌<◌, ◌⊎◌, inl, inr, refl, sym, ap, ◌∙◌, append-nil,
  List, [], ◌∷◌, ◌++◌, some, true, false, length, length-drop, take, drop, min, arith, leb, ◌==◌,
  dec_lt, add32, sub32, if◌then◌else◌,
}
use native.Mathlib.Nat.{mod-eq_of_lt, mod-eq-sub-mod}
use horizon_operating_system.Net.TcpRecv.{
  ConnState, RecvSpace, copy, no_data, finish, tcp_recv_data, recv_straight, recv_wrapped,
  copy_both, copy_both,
}
use horizon_operating_system.Net.Protocols.{proto_ok}

-- Both indices are in the window, which has `total_size` bytes, fewer than 2 ^ 31.
abbrev pub IsValid : RecvSpace → List ℕ → Type 0
IsValid r window =
    ((r.next < r.total_size) × (r.read < r.total_size))
    × ((length window ≡ r.total_size) × (r.total_size < 2 ^ 31))

-- The bytes between the indices, as the function takes them.
abbrev contents : RecvSpace → List ℕ → List ℕ
contents r window =
    if leb r.read r.next
    then take (r.next - r.read) (drop r.read window)
    else drop r.read window ++ take r.next window

-- The `n` bytes of the ring that start at `read`.
abbrev pub ring_bytes : RecvSpace → List ℕ → ℕ → List ℕ
ring_bytes r window n = take n (drop r.read window ++ window)

pub take-take : (m n : ℕ) (xs : List ℕ) → take m (take n xs) ≡ take (min m n) xs
take-take zero n xs = let e : min 0 n ≡ 0 = omega arith in rw e refl
take-take (suc m) zero xs = let e : min (suc m) 0 ≡ 0 = omega arith in rw e refl
take-take (suc m) (suc n) [] =
    let e : min (suc m) (suc n) ≡ suc (min m n) = omega arith in rw e refl
take-take (suc m) (suc n) (x ∷ xs) =
    let e : min (suc m) (suc n) ≡ suc (min m n) = omega arith in rw (e, take-take m n xs) refl

take-append :
    (n : ℕ) (xs ys : List ℕ)
    → take n (xs ++ ys) ≡ take (min n (length xs)) xs ++ take (n - min n (length xs)) ys
take-append n [] ys =
    let e : min n 0 ≡ 0 = omega arith in let f : n - 0 ≡ n = omega arith in rw (e, f) refl
take-append zero (x ∷ xs) ys = let e : min 0 (suc (length xs)) ≡ 0 = omega arith in rw e refl
take-append (suc n) (x ∷ xs) ys =
    let e : min (suc n) (suc (length xs)) ≡ suc (min n (length xs)) = omega arith in
    let f : suc n - suc (min n (length xs)) ≡ n - min n (length xs) = omega arith in
    rw (e, f, take-append n xs ys) refl

pub copy-inside :
    (window : List ℕ) (start size : ℕ)
    → start + size ≤ length window
    → copy window start size ≡ some (take size (drop start window))
unfolding copy
copy-inside window start size h = ground arith

straight-copies :
    (r : RecvSpace) (window : List ℕ) (state : ConnState) (len : ℕ)
    → IsValid r window
    → r.read ≤ r.next
    → recv_straight r window state len
      ≡ some (
          finish
            (record r { read = add32 r.read (min len (r.next - r.read)) })
            state
            (min len (r.next - r.read))
            (take (min len (r.next - r.read)) (drop r.read window)))
straight-copies r window state len h le =
    rw
      (
        recv_straight,
        copy-inside window r.read (min len (r.next - r.read)) (omega (arith, h.0.0, h.1.0)),
      )
      refl

tcp_recv_data-straight :
    (r : RecvSpace) (window : List ℕ) (state : ConnState) (len : ℕ)
    → IsValid r window
    → r.read ≤ r.next
    → tcp_recv_data r window state len
      ≡ some (
          finish
            (record r { read = add32 r.read (min len (r.next - r.read)) })
            state
            (min len (r.next - r.read))
            (take (min len (r.next - r.read)) (drop r.read window)))
unfolding tcp_recv_data
tcp_recv_data-straight r window state len h le =
    let t : leb r.read r.next ≡ true = ground arith in
    rw t (straight-copies r window state len h le)

-- How much is left up to the end of the window.
abbrev pub tail_size : RecvSpace → ℕ
tail_size r = r.total_size - r.read

copy_both-inside :
    (r : RecvSpace) (window : List ℕ) (state : ConnState) (size1 size2 : ℕ)
    → r.read + size1 ≤ length window
    → size2 ≤ length window
    → add32 size1 size2 ≡ size1 + size2
    → copy_both r window state size1 size2
      ≡ some (
          finish
            (record r { read = add32 r.read (size1 + size2) })
            state
            (size1 + size2)
            (take size1 (drop r.read window) ++ take size2 window))
unfolding copy_both
copy_both-inside r window state size1 size2 h k e =
    rw (copy_both, copy-inside window r.read size1 h)
      (rw (copy-inside window 0 size2 (omega arith)) (rw e refl))

-- The sizes without the wrap of words.
wrapped-copies :
    (r : RecvSpace) (window : List ℕ) (state : ConnState) (len : ℕ)
    → IsValid r window
    → r.next < r.read
    → len < 2 ^ 31
    → let size1 = min len (tail_size r) in
      let size2 = min (len - size1) r.next in
      recv_wrapped r window state len
      ≡ some (
          finish
            (record r { read = add32 r.read (size1 + size2) })
            state
            (size1 + size2)
            (take size1 (drop r.read window) ++ take size2 window))
wrapped-copies r window state len h lt l =
    let size1 = min len (tail_size r) in
    let size2 = min (len - size1) r.next in
    let e1 : min len (sub32 r.total_size r.read) ≡ size1 = omega arith in
    let e2 : min (sub32 len size1) r.next ≡ size2 = omega arith in
    rw (recv_wrapped, e1)
      (rw e2 (
        copy_both-inside r window state size1 size2 (omega (arith, h.1.0)) (omega (arith, h.1.0))
          (omega arith)))

pub tcp_recv_data-wrapped :
    (r : RecvSpace) (window : List ℕ) (state : ConnState) (len : ℕ)
    → IsValid r window
    → r.next < r.read
    → len < 2 ^ 31
    → let size1 = min len (tail_size r) in
      let size2 = min (len - size1) r.next in
      tcp_recv_data r window state len
      ≡ some (
          finish
            (record r { read = add32 r.read (size1 + size2) })
            state
            (size1 + size2)
            (take size1 (drop r.read window) ++ take size2 window))
unfolding tcp_recv_data
tcp_recv_data-wrapped r window state len h lt l =
    let t : leb r.read r.next ≡ false = ground arith in
    rw t (wrapped-copies r window state len h lt l)

take-length : (xs : List ℕ) → take (length xs) xs ≡ xs
take-length [] = refl
take-length (x ∷ xs) = ap (λ t. x ∷ t) (take-length xs)

contents-straight :
    (r : RecvSpace) (window : List ℕ)
    → r.read ≤ r.next
    → contents r window ≡ take (r.next - r.read) (drop r.read window)
contents-straight r window le = let t : leb r.read r.next ≡ true = ground arith in rw t refl

contents-wrapped :
    (r : RecvSpace) (window : List ℕ)
    → r.next < r.read
    → contents r window ≡ drop r.read window ++ take r.next window
contents-wrapped r window lt = let t : leb r.read r.next ≡ false = ground arith in rw t refl

wrapped-bytes :
    (r : RecvSpace) (window : List ℕ) (len : ℕ)
    → IsValid r window
    → take len (drop r.read window ++ take r.next window)
      ≡ take (min len (tail_size r)) (drop r.read window)
        ++ take (min (len - min len (tail_size r)) r.next) window
wrapped-bytes r window len h =
    let e : length (drop r.read window) ≡ tail_size r =
      omega (arith, length-drop r.read window, h.1.0) in
    rw
      (
        take-append len (drop r.read window) (take r.next window),
        e,
        take-take (len - min len (tail_size r)) r.next window,
      )
      refl

-- The indices tell the bytes of the ring, where it is not full.
contents-ring :
    (r : RecvSpace) (window : List ℕ) (n : ℕ)
    → IsValid r window
    → n < r.total_size
    → (r.read + n < r.total_size) × (r.next ≡ r.read + n)
      ⊎ (r.total_size ≤ r.read + n) × (r.next + r.total_size ≡ r.read + n)
    → contents r window ≡ ring_bytes r window n
contents-ring r window n h l (inl e) =
    let m : r.next - r.read ≡ n = omega (arith, e.1) in
    let small : min n (length (drop r.read window)) ≡ n =
      omega (arith, length-drop r.read window, h.1.0, e.0) in
    let none_left : n - n ≡ 0 = omega arith in
    contents-straight r window (omega (arith, e.1))
    ∙ (ap (λ k. take k (drop r.read window)) m
        ∙ sym (
            rw (take-append n (drop r.read window) window, small, none_left)
              (append-nil (take n (drop r.read window)))))
contents-ring r window n h l (inr e) =
    let whole : min n (length (drop r.read window)) ≡ length (drop r.read window) =
      omega (arith, length-drop r.read window, h.1.0, e.0) in
    let left : n - length (drop r.read window) ≡ r.next =
      omega (arith, length-drop r.read window, h.1.0, e.1) in
    contents-wrapped r window (omega (arith, e.1))
    ∙ sym (
        rw (take-append n (drop r.read window) window, whole, left)
          (ap (λ t. t ++ take r.next window) (take-length (drop r.read window))))

-- The next index is the first one behind the unread bytes, around the end of the window.
next-cases :
    (r : RecvSpace) (window : List ℕ) (n : ℕ)
    → IsValid r window
    → n < r.total_size
    → r.next ≡ (r.read + n) % r.total_size
    → (r.read + n < r.total_size) × (r.next ≡ r.read + n)
      ⊎ (r.total_size ≤ r.read + n) × (r.next + r.total_size ≡ r.read + n)
next-cases r window n h l e = elim (dec_lt (r.read + n) r.total_size) [
  | yes p ↦ inl (p, e ∙ mod-eq_of_lt p)
  | no p ↦
      let once : (r.read + n) % r.total_size ≡ r.read + n - r.total_size =
        mod-eq-sub-mod (omega arith) ∙ mod-eq_of_lt (omega (arith, h.0.1)) in
      inr (omega arith, omega (arith, e, once))
]

-- Where `n` bytes of the window, not all of it, were received and not read yet, the first of them at the
-- index `read`, and fewer than 2 ^ 31 are asked for, `tcp_recv_data` hands out the first of these bytes, as
-- many as are asked for or as there are, moves `read` on by their number, and never reads outside of the
-- window. The result tells of the connection if there is none of them, and is PROTO_OK otherwise.
pub tcp_recv_data-takes :
    (r : RecvSpace) (window : List ℕ) (state : ConnState) (len n : ℕ)
    → IsValid r window
    → n < r.total_size
    → r.next ≡ (r.read + n) % r.total_size
    → len < 2 ^ 31
    → tcp_recv_data r window state len
      ≡ some (record {
        recv = record r { read = r.read + min len n };
        result = if min len n == 0 then no_data state else proto_ok;
        bytes = take len (ring_bytes r window n);
      })
tcp_recv_data-takes r window state len n h b e l =
    let place = next-cases r window n h b e in
    let bytes = contents-ring r window n h b place in
    elim (dec_lt r.next r.read) [
      | yes wrapped ↦
          let size1 = min len (tail_size r) in
          let size = size1 + min (len - size1) r.next in
          let same : size ≡ min len n = elim place [
            | inl p ↦ absurd (omega (arith, p.1))
            | inr p ↦ omega (arith, p.1)
          ] in
          let moved : add32 r.read (min len n) ≡ r.read + min len n = omega (arith, h.0.1, b) in
          tcp_recv_data-wrapped r window state len h wrapped l
          ∙ (sym (
                ap (λ t. some (finish (record r { read = add32 r.read size }) state size t))
                  (ap (take len) (sym bytes ∙ contents-wrapped r window wrapped)
                    ∙ wrapped-bytes r window len h))
              ∙ (ap
                    (λ k. some (
                      finish (record r { read = add32 r.read k }) state k
                        (take len (ring_bytes r window n))))
                    same
                  ∙ ap
                      (λ k. some (record {
                        recv = record r { read = k };
                        result = if min len n == 0 then no_data state else proto_ok;
                        bytes = take len (ring_bytes r window n);
                      }))
                      moved))
      | no straight ↦
          let size = min len (r.next - r.read) in
          let same : size ≡ min len n = elim place [
            | inl p ↦ omega (arith, p.1)
            | inr p ↦ absurd (omega (arith, p.1))
          ] in
          let moved : add32 r.read (min len n) ≡ r.read + min len n = omega (arith, h.0.1, b) in
          tcp_recv_data-straight r window state len h (omega arith)
          ∙ (sym (
                ap (λ t. some (finish (record r { read = add32 r.read size }) state size t))
                  (ap (take len) (sym bytes ∙ contents-straight r window (omega arith))
                    ∙ take-take len (r.next - r.read) (drop r.read window)))
              ∙ (ap
                    (λ k. some (
                      finish (record r { read = add32 r.read k }) state k
                        (take len (ring_bytes r window n))))
                    same
                  ∙ ap
                      (λ k. some (record {
                        recv = record r { read = k };
                        result = if min len n == 0 then no_data state else proto_ok;
                        bytes = take len (ring_bytes r window n);
                      }))
                      moved))
    ]
