-- ===== src/Net/TcpSend/Queue.antt =====
-- What `tcp_send_data` of src/driver/network/protocols/tcp.c sends, as long as the data do not go
-- around the end of the window.
use horizon_operating_system.Common.{
  ℕ, zero, suc, ◌+◌, ◌-◌, ◌^◌, ◌≡◌, ◌≤◌, ◌<◌, refl, sym, ap, ◌∙◌, List, [], ◌∷◌, ◌++◌, some, none,
  true, false, length, take, drop, min, arith, Bool, ltb, add32, sub32, if◌then◌else◌,
}
use native.Mathlib.Nat.{mod-eq_of_lt}
use horizon_operating_system.Net.Protocols.{proto_ok}
use horizon_operating_system.Net.Tcp.{overwrite, int_min}
use horizon_operating_system.Net.TcpRecv.Queue.{take-take, copy-inside}
use horizon_operating_system.Net.TcpSend.{
  SendSpace, Sent, put, enqueue, used_space, send_straight, tcp_send_data,
}

int_min-small : (a b : ℕ) → a < 2 ^ 31 → b < 2 ^ 31 → int_min a b ≡ min a b
unfolding int_min
int_min-small a b h k = ground arith

-- The bytes queued that were not sent yet, as `tcp_send_data` takes its indices, lie between the two indices of the window, which has
-- `total_size` bytes, fewer than 2 ^ 31.
abbrev pub IsStraight : SendSpace → List ℕ → Type 0
IsStraight s ring =
    (s.unack ≤ s.next)
    × (s.next < s.total_size)
    × (length ring ≡ s.total_size)
    × (s.total_size < 2 ^ 31)

abbrev pub queued : SendSpace → List ℕ → List ℕ
queued s ring = take (s.next - s.unack) (drop s.unack ring)

length-overwrite :
    (ring : List ℕ) (n : ℕ) (bytes : List ℕ) → length (overwrite ring n bytes) ≡ length ring
unfolding overwrite
length-overwrite [] n bytes = refl
length-overwrite (w ∷ ws) (suc n) bytes = ap suc (length-overwrite ws n bytes)
length-overwrite (w ∷ ws) zero [] = refl
length-overwrite (w ∷ ws) zero (b ∷ bytes) = ap suc (length-overwrite ws zero bytes)

overwrite-start :
    (ring bytes : List ℕ)
    → length bytes ≤ length ring
    → take (length bytes) (overwrite ring 0 bytes) ≡ bytes
unfolding overwrite
overwrite-start [] [] h = refl
overwrite-start [] (b ∷ bytes) h = absurd (omega arith)
overwrite-start (w ∷ ws) [] h = refl
overwrite-start (w ∷ ws) (b ∷ bytes) h = ap (λ xs. b ∷ xs) (overwrite-start ws bytes (omega arith))

-- The bytes before the index stay, and the new ones follow them.
overwrite-queued :
    (ring : List ℕ) (u m n : ℕ) (bytes : List ℕ)
    → n ≡ u + m
    → n + length bytes ≤ length ring
    → take (m + length bytes) (drop u (overwrite ring n bytes)) ≡ take m (drop u ring) ++ bytes
unfolding overwrite
overwrite-queued ring zero zero zero bytes e h =
    let z : 0 + length bytes ≡ length bytes = omega arith in
    rw z (overwrite-start ring bytes (omega arith))
overwrite-queued ring zero zero (suc n) bytes e h = absurd (omega arith)
overwrite-queued [] zero (suc m) n bytes e h = absurd (omega arith)
overwrite-queued (w ∷ ws) zero (suc m) zero bytes e h = absurd (omega arith)
overwrite-queued (w ∷ ws) zero (suc m) (suc n) bytes e h =
    let z : suc m + length bytes ≡ suc (m + length bytes) = omega arith in
    rw z (ap (λ xs. w ∷ xs) (overwrite-queued ws 0 m n bytes (omega arith) (omega arith)))
overwrite-queued [] (suc u) m n bytes e h = absurd (omega arith)
overwrite-queued (w ∷ ws) (suc u) m zero bytes e h = absurd (omega arith)
overwrite-queued (w ∷ ws) (suc u) m (suc n) bytes e h =
    overwrite-queued ws u m n bytes (omega arith) (omega arith)

drop-nil : (k : ℕ) → drop {A = ℕ} k [] ≡ []
drop-nil zero = refl
drop-nil (suc k) = refl

take-nil : (k : ℕ) → take {A = ℕ} k [] ≡ []
take-nil zero = refl
take-nil (suc k) = refl

drop-take-nil : (k n : ℕ) → take {A = ℕ} n (drop k []) ≡ []
drop-take-nil k n = ap (take n) (drop-nil k) ∙ take-nil n

drop-drop : (k u : ℕ) (xs : List ℕ) → drop k (drop u xs) ≡ drop (u + k) xs
drop-drop k zero xs = let z : 0 + k ≡ k = omega arith in rw z refl
drop-drop k (suc u) [] = drop-nil k ∙ sym (drop-nil (suc u + k))
drop-drop k (suc u) (x ∷ xs) =
    let z : suc u + k ≡ suc (u + k) = omega arith in rw z (drop-drop k u xs)

drop-take : (k n : ℕ) (xs : List ℕ) → drop k (take n xs) ≡ take (n - min k n) (drop (min k n) xs)
drop-take zero n xs =
    let z : min 0 n ≡ 0 = omega arith in let z' : n - 0 ≡ n = omega arith in rw (z, z') refl
drop-take (suc k) zero xs = let z : 0 - min (suc k) 0 ≡ 0 = omega arith in rw z refl
drop-take (suc k) (suc n) [] =
    sym (drop-take-nil (min (suc k) (suc n)) (suc n - min (suc k) (suc n)))
drop-take (suc k) (suc n) (x ∷ xs) =
    let z : min (suc k) (suc n) ≡ suc (min k n) = omega arith in
    let z' : suc n - suc (min k n) ≡ n - min k n = omega arith in rw (z, z') (drop-take k n xs)

pub take_all : (xs : List ℕ) (n : ℕ) → length xs ≤ n → take n xs ≡ xs
take_all [] n h = take-nil n
take_all (x ∷ xs) zero h = absurd (omega arith)
take_all (x ∷ xs) (suc n) h = ap (λ ys. x ∷ ys) (take_all xs n (omega arith))

drop_all : (xs : List ℕ) (n : ℕ) → length xs ≤ n → drop n xs ≡ []
drop_all [] n h = drop-nil n
drop_all (x ∷ xs) zero h = absurd (omega arith)
drop_all (x ∷ xs) (suc n) h = drop_all xs n (omega arith)

put-inside :
    (ring : List ℕ) (n : ℕ) (bytes : List ℕ)
    → n + length bytes ≤ length ring
    → put ring n bytes ≡ some (overwrite ring n bytes)
put-inside ring n bytes h = ground arith

put-nothing : (ring : List ℕ) → put ring 0 [] ≡ some ring
unfolding overwrite
put-nothing [] = put-inside [] 0 [] (omega arith)
put-nothing (w ∷ ws) = put-inside (w ∷ ws) 0 [] (omega arith)

used_space-straight :
    (s : SendSpace) (ring : List ℕ) → IsStraight s ring → used_space s ≡ s.next - s.unack
used_space-straight s ring v = ground arith

-- Both ways to put the bytes, with the sizes that `enqueue` computes.
fits :
    (b : Bool) (ring buf : List ℕ) (n size1 size : ℕ)
    → size1 ≡ length buf
    → size ≡ length buf
    → n + length buf ≤ length ring
    → (if b
        then elim (put ring n (take size1 buf)) [
          | none ↦ none
          | some ring1 ↦ put ring1 0 (drop size1 buf)
        ]
        else put ring n (take size buf))
      ≡ some (overwrite ring n buf)
fits true ring buf n size1 size e1 e2 h =
    let inside : put ring n (take size1 buf) ≡ some (overwrite ring n buf) =
      ap (put ring n) (take_all buf size1 (omega arith)) ∙ put-inside ring n buf h in
    rw (inside, drop_all buf size1 (omega arith)) (put-nothing (overwrite ring n buf))
fits false ring buf n size1 size e1 e2 h =
    ap (put ring n) (take_all buf size (omega arith)) ∙ put-inside ring n buf h

enqueue-straight :
    (s : SendSpace) (ring buf : List ℕ)
    → IsStraight s ring
    → s.next + length buf < s.total_size
    → enqueue s ring buf ≡ some (overwrite ring s.next buf)
unfolding enqueue
enqueue-straight s ring buf v h =
    let used = used_space-straight s ring v in
    fits (ltb s.unack s.next) ring buf s.next (min (length buf) (sub32 s.total_size s.next))
      (min (length buf) (sub32 s.total_size (used_space s))) (omega arith) (rw used (omega arith))
      (omega arith)

-- The bytes queued afterwards, before any of them is sent.
queued-all :
    (s : SendSpace) (ring buf : List ℕ)
    → IsStraight s ring
    → s.next + length buf < s.total_size
    → take (s.next - s.unack + length buf) (drop s.unack (overwrite ring s.next buf))
      ≡ queued s ring ++ buf
queued-all s ring buf v h =
    overwrite-queued ring s.unack (s.next - s.unack) s.next buf (omega arith) (omega arith)

sent-bytes :
    (s : SendSpace) (ring buf : List ℕ) (max : ℕ)
    → IsStraight s ring
    → s.next + length buf < s.total_size
    → take (min max (s.next - s.unack + length buf)) (drop s.unack (overwrite ring s.next buf))
      ≡ take max (queued s ring ++ buf)
sent-bytes s ring buf max v h =
    sym (take-take max (s.next - s.unack + length buf) (drop s.unack (overwrite ring s.next buf)))
    ∙ ap (take max) (queued-all s ring buf v h)

kept-bytes :
    (s : SendSpace) (ring buf : List ℕ) (max : ℕ)
    → IsStraight s ring
    → s.next + length buf < s.total_size
    → let size = min max (s.next - s.unack + length buf) in
      take
        (s.next + length buf - (s.unack + size))
        (drop (s.unack + size) (overwrite ring s.next buf))
      ≡ drop max (queued s ring ++ buf)
kept-bytes s ring buf max v h =
    let used = s.next - s.unack + length buf in
    let size = min max used in
    let ring' = overwrite ring s.next buf in
    let left : s.next + length buf - (s.unack + size) ≡ used - size = omega arith in
    ap (λ n. take n (drop (s.unack + size) ring')) left
    ∙ ap (take (used - size)) (sym (drop-drop size s.unack ring'))
    ∙ sym (drop-take max used (drop s.unack ring'))
    ∙ ap (drop max) (queued-all s ring buf v h)

straight-sends :
    (s : SendSpace) (ring : List ℕ) (size : ℕ)
    → s.unack + size < s.total_size
    → (length ring ≡ s.total_size) × (s.total_size < 2 ^ 31)
    → send_straight s ring size
      ≡ some (record {
        send = record s { unack = s.unack + size };
        ring = ring;
        result = proto_ok;
        bytes = take size (drop s.unack ring);
      })
unfolding send_straight
straight-sends s ring size h v = ground (
  arith,
  copy-inside ring s.unack size (omega arith),
  mod-eq_of_lt {n = add32 s.unack size} {m = s.total_size} (omega arith),
)

-- As long as the data that wait between `unack` and `next` and the new ones do not reach the end of the window,
-- and the smaller one of `mss` and `window` is below 2 ^ 31, `tcp_send_data` puts the new ones behind those
-- that wait, sends the first of them, as many as fit, and moves `unack` behind these: what was sent is not
-- between the indices any more, whether it was acknowledged or not, and the rest still is.
pub tcp_send_data-sends :
    (mss : ℕ) (s : SendSpace) (ring buf : List ℕ)
    → IsStraight s ring
    → 0 < length buf
    → s.next + length buf < s.total_size
    → min mss s.window < 2 ^ 31
    → let all = queued s ring ++ buf in
      let max = min mss s.window in
      (r : Sent) × ((tcp_send_data mss s ring buf ≡ some r)
        × (r.result ≡ proto_ok)
        × (r.bytes ≡ take max all)
        × (queued r.send r.ring ≡ drop max all)
        × IsStraight r.send r.ring)
unfolding tcp_send_data
tcp_send_data-sends mss s ring buf v z h small =
    let len = length buf in
    let ring' = overwrite ring s.next buf in
    let max = min mss s.window in
    let size = min max (s.next - s.unack + len) in
    let s' = record s { unack = s.unack + size; next = s.next + len } in
    (
      record { send = s'; ring = ring'; result = proto_ok; bytes = take size (drop s.unack ring') },
      (
        ground (
          arith,
          used_space-straight s ring v,
          enqueue-straight s ring buf v h,
          int_min-small max (s.next - s.unack + len) small (omega arith),
          mod-eq_of_lt {n = add32 s.next len} {m = s.total_size} (omega arith),
          straight-sends (record s { next = s.next + len }) ring' size (omega arith)
              (omega (arith, length-overwrite ring s.next buf), omega arith),
        ),
        refl,
        sent-bytes s ring buf max v h,
        kept-bytes s ring buf max v h,
        (omega arith, omega arith, omega (arith, length-overwrite ring s.next buf), omega arith),
      ),
    )
