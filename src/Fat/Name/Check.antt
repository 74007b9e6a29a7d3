-- ===== src/Fat/Name/Check.antt =====
-- Which texts `check_short_name` and `check_name` of src/fs/fat/name.c take.
use horizon_operating_system.Common.{
  ℕ, zero, suc, ◌+◌, ◌*◌, ◌/◌, ◌%◌, ◌^◌, ◌≡◌, ◌≢◌, ◌≤◌, ◌<◌, ◌⊎◌, refl, List, [], ◌∷◌, true, false,
  arith, bit_and, bit_or, drop,
}
use horizon_operating_system.Common.Bits.{bit_and_odd, bit_or-halves, bit_and-zero}
use horizon_operating_system.Fat.Utf.{at}
use horizon_operating_system.Fat.Name.{
  is_lower, is_upper, caps_loop, is_available_short_name_char, is_available_long_name_char,
  short_chars, check_short_name,
}

bit_and_0x03 : (a : ℕ) → bit_and a 3 ≡ a % 4
bit_and_0x03 a = omega (arith, bit_and_odd a 1, bit_and_odd (a / 2) 0, bit_and-zero (a / 2 / 2))

-- Setting a bit keeps the two lowest.
or_mod4 : (r k : ℕ) → (r % 4 ≤ bit_or r k % 4) × (k % 4 ≤ bit_or r k % 4)
or_mod4 r k = (
  omega (arith, bit_or-halves r k, bit_or-halves (r / 2) (k / 2)),
  omega (arith, bit_or-halves r k, bit_or-halves (r / 2) (k / 2)),
)

caps-keeps : (text : List ℕ) (n ret flag : ℕ) → 0 < ret % 4 → 0 < caps_loop text n ret flag % 4
unfolding caps_loop
caps-keeps text zero ret flag h = h
caps-keeps text (suc n) ret flag h =
    let a = 1 * 2 ^ flag in
    let b = 2 * 2 ^ flag in
    ground (
      arith,
      caps-keeps (drop 1 text) n ret 2 h,
      caps-keeps (drop 1 text) n ret flag h,
      caps-keeps (drop 1 text) n (bit_or ret a) flag (omega (arith, (or_mod4 ret a).0)),
      caps-keeps (drop 1 text) n (bit_or ret b) flag (omega (arith, (or_mod4 ret b).0)),
    )

abbrev pub IsLetter : ℕ → Type 0
IsLetter c = (is_lower c ≡ true) ⊎ (is_upper c ≡ true)

caps-letter_first :
    (text : List ℕ) (n ret : ℕ) → IsLetter (at text 0) → 0 < caps_loop text (suc n) ret 0 % 4
unfolding caps_loop
caps-letter_first text n ret h = ground (
  arith,
  caps-keeps (drop 1 text) n (bit_or ret 1) 0 (omega (arith, (or_mod4 ret 1).1)),
  caps-keeps (drop 1 text) n (bit_or ret 2) 0 (omega (arith, (or_mod4 ret 2).1)),
)

at-drop : (text : List ℕ) (j : ℕ) → at (drop 1 text) j ≡ at text (suc j)
at-drop [] j = refl
at-drop (c ∷ text) j = refl

caps_loop-other :
    (text : List ℕ) (n ret : ℕ)
    → at text 0 ≢ 0x2e
    → ((r : ℕ) → 0 < caps_loop (drop 1 text) n r 0 % 4)
    → 0 < caps_loop text (suc n) ret 0 % 4
unfolding caps_loop
caps_loop-other text n ret h rest =
    ground (arith, rest ret, rest (bit_or ret 1), rest (bit_or ret 2))

-- A letter that no dot stands before.
caps-letter :
    (text : List ℕ) (n i : ℕ)
    → i < n
    → ((j : ℕ) → j < i → at text j ≢ 0x2e)
    → IsLetter (at text i)
    → (ret : ℕ) → 0 < caps_loop text n ret 0 % 4
caps-letter text zero i h d l ret = absurd (omega arith)
caps-letter text (suc n) zero h d l ret = caps-letter_first text n ret l
caps-letter text (suc n) (suc i) h d l ret = caps_loop-other text n ret (d 0 (omega arith)) (
    caps-letter (drop 1 text) n i (omega arith)
      (λ j m e. d (suc j) (omega (arith, m)) (omega (arith, e, at-drop text j)))
      (rw (at-drop text i) l))

short_chars-rest :
    (text : List ℕ) (n i dot1 : ℕ)
    → short_chars text (suc n) i dot1 ≡ true
    → short_chars text n (suc i) dot1 ≡ true
unfolding short_chars
short_chars-rest text n i dot1 h = ground arith

short_chars-each :
    (text : List ℕ) (n i dot1 : ℕ)
    → short_chars text n i dot1 ≡ true
    → (k : ℕ) → k < n
    → suc (i + k) ≢ dot1
    → is_available_short_name_char (at text (i + k)) ≡ true
unfolding short_chars
short_chars-each text zero i dot1 h k l d = absurd (omega arith)
short_chars-each text (suc n) i dot1 h zero l d =
    let e : i + 0 ≡ i = omega arith in rw e (ground arith)
short_chars-each text (suc n) i dot1 h (suc k) l d =
    let e : i + suc k ≡ suc i + k = omega arith in
    rw e (
      short_chars-each text n (suc i) dot1 (short_chars-rest text n i dot1 h) k (omega arith)
        (λ f. d (omega (arith, f))))

-- A text that `check_short_name` accepts has at most 8 bytes before its dot and at most 2 behind it.
pub check_short_name-lengths :
    (text : List ℕ) (len dot1 : ℕ)
    → check_short_name text len dot1 ≡ true
    → (dot1 ≤ 9) × (len ≤ dot1 + 2)
unfolding check_short_name
check_short_name-lengths text len dot1 h = (ground arith, ground arith)

-- No text with a letter that no dot stands before is accepted.
pub check_short_name-refuses_letter :
    (text : List ℕ) (len dot1 i : ℕ)
    → i < len
    → ((j : ℕ) → j < i → at text j ≢ 0x2e)
    → IsLetter (at text i)
    → check_short_name text len dot1 ≡ false
unfolding check_short_name
check_short_name-refuses_letter text len dot1 i h d l =
    ground (arith, caps-letter text len i h d l 0, bit_and_0x03 (caps_loop text len 0 0))

-- Each byte of a text that `check_short_name` accepts, but for the one at the dot, is one that
-- `is_available_short_name_char` allows.
pub check_short_name-chars :
    (text : List ℕ) (len dot1 : ℕ)
    → check_short_name text len dot1 ≡ true
    → (k : ℕ) → k < len
    → suc k ≢ dot1
    → is_available_short_name_char (at text k) ≡ true
unfolding check_short_name
check_short_name-chars text len dot1 h k l d =
    let e : 0 + k ≡ k = omega arith in
    let all = short_chars-each text len 0 dot1 (ground arith) k l in rw e at all d

-- A character that a short name may hold, a long name may hold, too.
pub short_char-long :
    (c : ℕ) → is_available_short_name_char c ≡ true → is_available_long_name_char c ≡ true
unfolding is_available_short_name_char is_available_long_name_char
short_char-long c h = ground arith
