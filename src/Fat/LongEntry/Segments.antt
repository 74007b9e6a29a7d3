-- ===== src/Fat/LongEntry/Segments.antt =====
-- What is read back of the entries that `fat_longname_entry_write` of src/fs/fat/entry.c makes.
use horizon_operating_system.Common.{
  ℕ, zero, suc, ◌+◌, ◌-◌, ◌≡◌, ◌≢◌, ◌≤◌, ◌<◌, refl, ap, ◌∙◌, sym, dec_lt, List, [], ◌∷◌, ◌++◌,
  arith, take, drop, length, min, append-nil, append_assoc,
}
use horizon_operating_system.Fat.Utf.{at}
use horizon_operating_system.Fat.LongEntry.{
  read_units, read_long_name, fill_units, last_long_dir, full_long_dir,
}

-- No unit is the terminator or the filler.
abbrev pub AreUnits : List ℕ → Type 0
AreUnits [] = Unit
AreUnits (u ∷ us) = ((u ≢ 0) × (u ≢ 0xffff)) × AreUnits us

read_units-all : (us : List ℕ) → AreUnits us → read_units us ≡ us
read_units-all [] h = refl
read_units-all (u ∷ us) h = ground (arith, read_units-all us h.1)

take-AreUnits : (n : ℕ) (us : List ℕ) → AreUnits us → AreUnits (take n us)
take-AreUnits zero us h = tt
take-AreUnits (suc n) [] h = tt
take-AreUnits (suc n) (u ∷ us) h = (h.0, take-AreUnits n us h.1)

drop-AreUnits : (n : ℕ) (us : List ℕ) → AreUnits us → AreUnits (drop n us)
drop-AreUnits zero us h = h
drop-AreUnits (suc n) [] h = tt
drop-AreUnits (suc n) (u ∷ us) h = drop-AreUnits n us h.1

take-nil : (n : ℕ) → take {A = ℕ} n [] ≡ []
take-nil zero = refl
take-nil (suc n) = refl

drop-nil : (n : ℕ) → drop {A = ℕ} n [] ≡ []
drop-nil zero = refl
drop-nil (suc n) = refl

take-add : (m n : ℕ) (p : List ℕ) → take m p ++ take n (drop m p) ≡ take (m + n) p
take-add zero n p = let e : 0 + n ≡ n = omega arith in rw e refl
take-add (suc m) n [] = let e : suc m + n ≡ suc (m + n) = omega arith in rw e (take-nil n)
take-add (suc m) n (u ∷ p) =
    let e : suc m + n ≡ suc (m + n) = omega arith in rw (e, take-add m n p) refl

drop-drop : (m n : ℕ) (p : List ℕ) → drop n (drop m p) ≡ drop (m + n) p
drop-drop zero n p = let e : 0 + n ≡ n = omega arith in rw e refl
drop-drop (suc m) n [] = let e : suc m + n ≡ suc (m + n) = omega arith in rw e (drop-nil n)
drop-drop (suc m) n (u ∷ p) =
    let e : suc m + n ≡ suc (m + n) = omega arith in rw (e, drop-drop m n p) refl

sixth-eighth : (p : List ℕ) → take 6 (drop 5 p) ++ take 2 (drop 11 p) ≡ take 8 (drop 5 p)
sixth-eighth p = rw (sym (drop-drop 5 6 p)) (take-add 6 2 (drop 5 p))

-- `read_long_name` reads of any other entry the 13 units that it was made of, if none of them is 0
-- or 0xffff.
pub full_long_dir-read :
    (p : List ℕ) (checksum order : ℕ)
    → AreUnits p
    → 13 ≤ length p
    → read_long_name (full_long_dir p checksum order) ≡ take 13 p
unfolding full_long_dir
full_long_dir-read p checksum order h l =
    rw
      (
        read_units-all (take 5 p) (take-AreUnits 5 p h),
        read_units-all (take 6 (drop 5 p)) (take-AreUnits 6 (drop 5 p) (drop-AreUnits 5 p h)),
        read_units-all (take 2 (drop 11 p)) (take-AreUnits 2 (drop 11 p) (drop-AreUnits 11 p h)),
      )
      (ap (λ us. take 5 p ++ us) (sixth-eighth p) ∙ take-add 5 8 p)

drop-cons : (p : List ℕ) (j : ℕ) → j < length p → drop j p ≡ at p j ∷ drop (suc j) p
drop-cons [] j h = absurd (omega arith)
drop-cons (u ∷ p) zero h = refl
drop-cons (u ∷ p) (suc j) h = drop-cons p j (omega arith)

at-AreUnits : (p : List ℕ) (j : ℕ) → AreUnits p → j < length p → (at p j ≢ 0) × (at p j ≢ 0xffff)
at-AreUnits [] j h l = absurd (omega arith)
at-AreUnits (u ∷ p) zero h l = h.0
at-AreUnits (u ∷ p) (suc j) h l = at-AreUnits p j h.1 (omega arith)

-- A field that is filled from the index `j` on.
read_units-fill :
    (p : List ℕ) (n j len : ℕ)
    → AreUnits p
    → len ≤ length p
    → read_units (fill_units p n j len) ≡ take (min n (len - j)) (drop j p)
read_units-fill p zero j len h l = let e : min 0 (len - j) ≡ 0 = omega arith in rw e refl
read_units-fill p (suc n) j len h l = elim (dec_lt j len) [
  | yes inside ↦
      let e : min (suc n) (len - j) ≡ suc (min n (len - suc j)) = omega arith in
      let unit = at-AreUnits p j h (omega arith) in
      rw (e, drop-cons p j (omega arith)) (ground (arith, read_units-fill p n (suc j) len h l))
  | no outside ↦ let e : min (suc n) (len - j) ≡ 0 = omega arith in rw e (ground arith)
]

-- name1 and name2.
name1-name2 :
    (p : List ℕ) (len : ℕ)
    → take (min 5 len) p ++ take (min 6 (len - 5)) (drop 5 p) ≡ take (min 11 len) p
name1-name2 p len = elim (dec_lt 5 len) [
  | yes more ↦
      let a : min 5 len ≡ 5 = omega arith in
      let b : min 11 len ≡ 5 + min 6 (len - 5) = omega arith in
      rw (a, b) (take-add 5 (min 6 (len - 5)) p)
  | no few ↦
      let a : min 5 len ≡ len = omega arith in
      let b : min 11 len ≡ len = omega arith in
      let c : min 6 (len - 5) ≡ 0 = omega arith in rw (a, b, c) (append-nil (take len p))
]

-- `read_long_name` reads of the last entry, made of `len` units none of which is 0 or 0xffff, up to
-- 11 of those units and then up to two of them once more, from the first one on.
pub last_long_dir-read :
    (p : List ℕ) (len checksum count : ℕ)
    → AreUnits p
    → len ≤ length p
    → read_long_name (last_long_dir p len checksum count)
      ≡ take (min 11 len) p ++ take (min 2 len) p
unfolding last_long_dir
last_long_dir-read p len checksum count h l =
    rw (read_units-fill p 5 0 len h l, read_units-fill p 6 5 len h l, read_units-fill p 2 0 len h l)
      (let z : len - 0 ≡ len = omega arith in
        rw
          (
            z,
            sym (
                append_assoc (take (min 5 len) p) (take (min 6 (len - 5)) (drop 5 p))
                  (take (min 2 len) p)),
            name1-name2 p len,
          )
          refl)
