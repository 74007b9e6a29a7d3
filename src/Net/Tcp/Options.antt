-- ===== src/Net/Tcp/Options.antt =====
-- The options of a segment, `tcp_options_handler` of src/driver/network/protocols/tcp.c.
use horizon_operating_system.Common.{
  ℕ, zero, suc, ◌+◌, ◌≡◌, ◌≢◌, ◌<◌, ◌≤◌, refl, ap, not, List, Option, none, some, length, get_or,
  ltb, leb, ◌==◌, if◌then◌else◌, arith,
}

abbrev pub at : List ℕ → ℕ → ℕ
at options i = get_or options i 0

-- The loop on fuel; `none` is a loop that the fuel does not last for. `mss` is `indexes[TOI_MSS]`.
unfoldable pub options_loop : ℕ → List ℕ → ℕ → ℕ → Option ℕ
options_loop zero options i mss = none
options_loop (suc fuel) options i mss =
    let kind = at options i in
    let len = at options (i + 1) in
    let skipped = options_loop fuel options (i + 1) mss in
    let passed = options_loop fuel options (i + len) (if kind == 2 then i + 2 else mss) in
    if not (ltb i (length options))
    then some mss
    else if kind == 0
    then some mss
    else if kind == 1
    then skipped
    else if leb (length options) (i + 1)
    then some mss
    else if ltb (length options) (i + len)
    then some mss
    else passed

-- `TOI_MAX`, which is what the index is at first.
abbrev pub toi_max : ℕ
toi_max = 1

unfoldable pub tcp_options_handler : ℕ → List ℕ → Option ℕ
tcp_options_handler fuel options = options_loop fuel options 0 toi_max

-- An option other than END and NOP whose length byte is 0 is read again and again: no fuel is enough.
loops :
    (fuel : ℕ) (options : List ℕ) (i mss : ℕ)
    → i + 1 < length options
    → 1 < at options i
    → at options (i + 1) ≡ 0
    → options_loop fuel options i mss ≡ none
unfolding options_loop
loops zero options i mss l k z = refl
loops (suc fuel) options i mss l k z =
    let e : i + at options (i + 1) ≡ i = omega (arith, z) in
    ground (
      arith,
      ap (λ j. options_loop fuel options j (i + 2)) e,
      ap (λ j. options_loop fuel options j mss) e,
      loops fuel options i (i + 2) l k z,
      loops fuel options i mss l k z,
    )

-- If the first option is neither END nor NOP and its length byte is 0, `tcp_options_handler` does not
-- come to an end.
pub zero_length_hangs :
    (fuel : ℕ) (options : List ℕ)
    → 1 < length options
    → 1 < at options 0
    → at options 1 ≡ 0
    → tcp_options_handler fuel options ≡ none
unfolding tcp_options_handler
zero_length_hangs fuel options l k z = loops fuel options 0 toi_max l k z

-- Where the options start: the first byte, the byte behind a NOP, and the byte behind an option of another
-- kind than END.
pub data IsOption (options : List ℕ) : ℕ → Type 0 where
  first : IsOption options 0
  behind_nop : (i j : ℕ) → IsOption options i → at options i ≡ 1 → j ≡ i + 1 → IsOption options j
  behind_option :
      (i j : ℕ)
      → IsOption options i
      → 1 < at options i
      → j ≡ i + at options (i + 1)
      → IsOption options j

-- No option of another kind than END and NOP has a length byte 0.
abbrev pub HasLengths : List ℕ → Type 0
HasLengths options =
    (i : ℕ)
    → IsOption options i
    → i + 1 < length options
    → 1 < at options i
    → at options (i + 1) ≢ 0

loop_ends :
    (fuel : ℕ) (options : List ℕ) (i mss : ℕ)
    → HasLengths options
    → IsOption options i
    → i ≤ length options
    → length options < fuel + i
    → options_loop fuel options i mss ≢ none
unfolding options_loop
loop_ends zero options i mss h o b l = absurd (omega arith)
loop_ends (suc fuel) options i mss h o b l =
    let len = at options (i + 1) in
    let nop = λ (e : at options i ≡ 1). behind_nop i (i + 1) o e refl in
    let option = λ (e : 1 < at options i). behind_option i (i + len) o e refl in
    ground (
      arith,
      h i o,
      λ (e : at options i ≡ 1). loop_ends fuel options (i + 1) mss h (nop e),
      λ (e : 1 < at options i). loop_ends fuel options (i + len) (i + 2) h (option e),
      λ (e : 1 < at options i). loop_ends fuel options (i + len) mss h (option e),
    )

-- `tcp_options_handler` comes to an end on options of which none, where they follow one another, is of
-- another kind than END and NOP and has a length byte 0, on fuel of one more than their size.
pub tcp_options_handler-ends :
    (options : List ℕ)
    → HasLengths options
    → tcp_options_handler (suc (length options)) options ≢ none
unfolding tcp_options_handler
tcp_options_handler-ends options h =
    loop_ends (suc (length options)) options 0 toi_max h first (omega arith) (omega arith)

loop_index :
    (fuel : ℕ) (options : List ℕ) (i mss index : ℕ)
    → toi_max ≤ mss
    → options_loop fuel options i mss ≡ some index
    → toi_max ≤ index
unfolding options_loop
loop_index zero options i mss index m e = absurd (ground arith)
loop_index (suc fuel) options i mss index m e =
    let len = at options (i + 1) in
    ground (
      arith,
      loop_index fuel options (i + 1) mss index m,
      loop_index fuel options (i + len) (i + 2) index (omega arith),
      loop_index fuel options (i + len) mss index m,
    )

pub tcp_options_handler-index :
    (fuel : ℕ) (options : List ℕ) (index : ℕ)
    → tcp_options_handler fuel options ≡ some index
    → toi_max ≤ index
unfolding tcp_options_handler
tcp_options_handler-index fuel options index e =
    loop_index fuel options 0 toi_max index (omega arith) e
