-- ===== src/Fat/Name/Short.antt =====
-- What `short_name_new` of src/fs/fat/name.c stores.
use horizon_operating_system.Common.{
  ℕ, zero, suc, ◌+◌, ◌-◌, ◌≡◌, ◌≤◌, ◌<◌, refl, sym, ap, List, [], Bool-cases, inl, inr, true,
  Option, none, some, get_or, arith,
}
use horizon_operating_system.Fat.Utf.{at}
use horizon_operating_system.Fat.Name.{
  ShortName, check_short_name, short_name_new, last_dot1, upper, fill_field,
}
use horizon_operating_system.Fat.Name.Check.{check_short_name-lengths}

last_dot1-le : (text : List ℕ) (n : ℕ) → last_dot1 text n ≤ n
unfolding last_dot1
last_dot1-le text zero = omega arith
last_dot1-le text (suc n) = ground (arith, last_dot1-le text n)

fill_field-get :
    (text : List ℕ) (n i stop start k : ℕ)
    → k < n
    → i + k < stop
    → get_or (fill_field text n i stop start) k 0 ≡ upper (at text (start + (i + k)))
unfolding fill_field
fill_field-get text zero i stop start k h l = absurd (omega arith)
fill_field-get text (suc n) i stop start zero h l =
    let e : start + (i + 0) ≡ start + i = omega arith in rw e (ground arith)
fill_field-get text (suc n) i stop start (suc k) h l =
    let e : i + suc k ≡ suc i + k = omega arith in
    rw e (fill_field-get text n (suc i) stop start k (omega arith) (omega arith))

abbrev ext_of : Option ShortName → List ℕ
ext_of none = []
ext_of (some s) = s.ext

short_name_new-ext :
    (text : List ℕ) (len : ℕ) (s : ShortName)
    → check_short_name text len (last_dot1 text len) ≡ true
    → short_name_new text len ≡ some s
    → s.ext ≡ fill_field text 3 0 (len + 1 - last_dot1 text len) (last_dot1 text len)
unfolding short_name_new
short_name_new-ext text len s ok h =
    let d = last_dot1 text len in
    let made : some (record {
      base = fill_field text 8 0 (d - 1) 0;
      ext = fill_field text 3 0 (len + 1 - d) d;
    })
        ≡ some s =
      rw ok at h in
    sym (ap ext_of made)

-- Whatever short name `short_name_new` makes, its extension holds the byte behind the text, too: it
-- is stored right behind the extension's own bytes, in capitals.
pub short_name_new-reads_past :
    (text : List ℕ) (len : ℕ) (s : ShortName)
    → short_name_new text len ≡ some s
    → get_or s.ext (len - last_dot1 text len) 0 ≡ upper (at text len)
unfolding short_name_new
short_name_new-reads_past text len s h =
    elim (Bool-cases (check_short_name text len (last_dot1 text len))) [
      | inl ok ↦
          let d = last_dot1 text len in
          let bounds = check_short_name-lengths text len d ok in
          let place : d + (0 + (len - d)) ≡ len = omega (arith, last_dot1-le text len) in
          rw
            (
              short_name_new-ext text len s ok h,
              fill_field-get text 3 0 (len + 1 - d) d (len - d) (omega arith) (omega arith),
              place,
            )
            refl
      | inr refused ↦ absurd (ground arith)
    ]
