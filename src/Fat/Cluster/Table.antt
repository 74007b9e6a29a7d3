-- ===== src/Fat/Cluster/Table.antt =====
-- The table of src/fs/fat/cluster.c as a map from clusters to entries.
use horizon_operating_system.Common.{
  ℕ, zero, suc, ◌+◌, ◌*◌, ◌/◌, ◌%◌, ◌^◌, ◌≡◌, ◌≢◌, ◌<◌, inl, inr, refl, sym, ap, ◌∙◌, List, [], ◌∷◌,
  Option, none, some, Option-cases, get_elem?, set, length, length-set, arith, ℕ_discrete, true,
  false, ◌==◌, if◌then◌else◌,
}
use native.Mathlib.Nat.{div-add-mod}
use horizon_operating_system.Fat.Name.{
  FatType, fat_type_fat12, fat_type_fat16, fat_type_fat32, fat_type_exfat,
}
use horizon_operating_system.Fat.Cluster.{
  FatInfo, load, store, store32, store16, get_next_cluster, set_cluster, written_on, in_cache,
}

get_elem?-set_self :
    {A : Type 0} (xs : List A) (i : ℕ) (v : A) → i < length xs → get_elem? (set xs i v) i ≡ some v
get_elem?-set_self [] i v h = absurd (omega arith)
get_elem?-set_self (x ∷ xs) zero v h = refl
get_elem?-set_self (x ∷ xs) (suc i) v h = get_elem?-set_self xs i v (omega arith)

get_elem?-set_ne :
    {A : Type 0} (xs : List A) (i j : ℕ) (v : A) → i ≢ j → get_elem? (set xs i v) j ≡ get_elem? xs j
get_elem?-set_ne [] i j v n = refl
get_elem?-set_ne (x ∷ xs) zero zero v n = absurd (n refl)
get_elem?-set_ne (x ∷ xs) zero (suc j) v n = refl
get_elem?-set_ne (x ∷ xs) (suc i) zero v n = refl
get_elem?-set_ne (x ∷ xs) (suc i) (suc j) v n = get_elem?-set_ne xs i j v (λ e. n (ap suc e))

get_elem?-length :
    {A : Type 0} (xs : List A) (i : ℕ) (x : A) → get_elem? xs i ≡ some x → i < length xs
get_elem?-length [] i x e = absurd (cc)
get_elem?-length (y ∷ xs) zero x e = omega arith
get_elem?-length (y ∷ xs) (suc i) x e = omega (arith, get_elem?-length xs i x e)

store16-inv :
    (words words' : List ℕ) (i v : ℕ)
    → store16 words i v ≡ some words'
    → (i < length words) × (set words i (v % 2 ^ 16) ≡ words')
store16-inv words words' i v e = ground arith

unfoldable then_store : (i v : ℕ) → Option (List ℕ) → Option (List ℕ)
then_store i v none = none
then_store i v (some words) = store16 words (2 * i + 1) (v / 2 ^ 16)

store32-then :
    (words : List ℕ) (i v : ℕ) → store32 words i v ≡ then_store i v (store16 words (2 * i) v)
unfolding then_store
store32-then words i v = ground arith

store32-second :
    (words words' low : List ℕ) (i v : ℕ)
    → store16 words (2 * i) v ≡ some low
    → store32 words i v ≡ some words'
    → store16 low (2 * i + 1) (v / 2 ^ 16) ≡ some words'
unfolding then_store
store32-second words words' low i v m e =
    sym (ap (then_store i v) m) ∙ sym (store32-then words i v) ∙ e

store32-inv :
    (words words' : List ℕ) (i v : ℕ)
    → store32 words i v ≡ some words'
    → (2 * i < length words)
      × (2 * i + 1 < length words)
      × (set (set words (2 * i) (v % 2 ^ 16)) (2 * i + 1) (v / 2 ^ 16 % 2 ^ 16) ≡ words')
store32-inv words words' i v e = elim (Option-cases (store16 words (2 * i) v)) [
  | inl n ↦ absurd (ground (arith, e, n))
  | inr m ↦
      let p = store16-inv words m.0 (2 * i) v m.1 in
      let q =
        store16-inv m.0 words' (2 * i + 1) (v / 2 ^ 16)
          (store32-second words words' m.0 i v m.1 e) in
      (p.0, omega (arith, q.0, ap length p.1, length-set words (2 * i) (v % 2 ^ 16)), rw p.1 q.1)
]

-- The values that an entry of a type can hold.
abbrev pub Fits : FatType → ℕ → Type 0
Fits fat_type_fat32 v = v < 2 ^ 32
Fits fat_type_fat16 v = v < 2 ^ 16
Fits t v = v ≡ 0xffffffff

load-store_self :
    (t : FatType) (words words' : List ℕ) (i v : ℕ)
    → Fits t v
    → store t words i v ≡ some words'
    → load t words' i ≡ some v
load-store_self fat_type_fat12 words words' i v f e = ap some (sym f)
load-store_self fat_type_exfat words words' i v f e = ap some (sym f)
load-store_self fat_type_fat16 words words' i v f e =
    let p = store16-inv words words' i v e in
    let z : v % 2 ^ 16 ≡ v = omega arith in rw (← p.1, z) (get_elem?-set_self words i v p.0)
load-store_self fat_type_fat32 words words' i v f e =
    let p = store32-inv words words' i v e in
    let low = set words (2 * i) (v % 2 ^ 16) in
    let high = v / 2 ^ 16 % 2 ^ 16 in
    let e0 : get_elem? words' (2 * i) ≡ some (v % 2 ^ 16) =
      ap (λ ws. get_elem? ws (2 * i)) (sym p.2)
      ∙ get_elem?-set_ne low (2 * i + 1) (2 * i) high (omega arith)
      ∙ get_elem?-set_self words (2 * i) (v % 2 ^ 16) p.0 in
    let e1 : get_elem? words' (2 * i + 1) ≡ some high =
      ap (λ ws. get_elem? ws (2 * i + 1)) (sym p.2)
      ∙ get_elem?-set_self low (2 * i + 1) high
          (omega (arith, p.1, length-set words (2 * i) (v % 2 ^ 16))) in
    ground (arith, e0, e1)

load-store_ne :
    (t : FatType) (words words' : List ℕ) (i j v : ℕ)
    → i ≢ j
    → store t words i v ≡ some words'
    → load t words' j ≡ load t words j
load-store_ne fat_type_fat12 words words' i j v n e = refl
load-store_ne fat_type_exfat words words' i j v n e = refl
load-store_ne fat_type_fat16 words words' i j v n e =
    let p = store16-inv words words' i v e in rw (← p.1) (get_elem?-set_ne words i j (v % 2 ^ 16) n)
load-store_ne fat_type_fat32 words words' i j v n e =
    let p = store32-inv words words' i v e in
    let low = set words (2 * i) (v % 2 ^ 16) in
    let high = v / 2 ^ 16 % 2 ^ 16 in
    let same : (k : ℕ) → k ≢ 2 * i → k ≢ 2 * i + 1 → get_elem? words' k ≡ get_elem? words k =
      λ k n0 n1.
        ap (λ ws. get_elem? ws k) (sym p.2)
        ∙ get_elem?-set_ne low (2 * i + 1) k high (λ x. n1 (sym x))
        ∙ get_elem?-set_ne words (2 * i) k (v % 2 ^ 16) (λ x. n0 (sym x)) in
    ground (
      arith,
      same (2 * j) (λ x. n (omega arith)) (λ x. omega arith),
      same (2 * j + 1) (λ x. omega arith) (λ x. n (omega arith)),
    )

abbrev the_fat : FatInfo → Option FatInfo → FatInfo
the_fat fat none = fat
the_fat fat (some made) = made

set_cluster-inv :
    (fat fat' : FatInfo) (cluster v : ℕ)
    → set_cluster fat cluster v ≡ some fat'
    → let index = cluster / fat.num_count in
      (words : List ℕ) × ((words' : List ℕ) × ((get_elem? fat.table index ≡ some words)
          × (store fat.fat_type (written_on fat index words) (cluster % fat.num_count) v
              ≡ some words')
          × (fat'
              ≡ record (in_cache fat index (index + 1)) { table = set fat.table index words' })))
unfolding set_cluster
set_cluster-inv fat fat' cluster v e =
    let index = cluster / fat.num_count in
    elim (Option-cases (get_elem? fat.table index)) [
      | inl n ↦ absurd (ground (arith, rw (set_cluster, n) at e))
      | inr m ↦
          elim (Option-cases
            (store fat.fat_type (written_on fat index m.0) (cluster % fat.num_count) v)) [
              | inl n ↦ absurd (ground (arith, rw (set_cluster, m.1, n) at e))
              | inr k ↦
                  let made : some (record (in_cache fat index (index + 1)) {
                    table = set fat.table index k.0;
                  })
                      ≡ some fat' =
                    rw (set_cluster, m.1, k.1) at e in
                  (m.0, (k.0, (m.1, k.1, sym (ap (the_fat fat) made))))
            ]
    ]

pub get-at :
    (fat : FatInfo) (cluster : ℕ) (words : List ℕ)
    → get_elem? fat.table (cluster / fat.num_count) ≡ some words
    → get_next_cluster fat cluster ≡ load fat.fat_type words (cluster % fat.num_count)
unfolding get_next_cluster
get-at fat cluster words m = ground (arith, m)

same_place : (n a b : ℕ) → a / n ≡ b / n → a % n ≡ b % n → a ≡ b
same_place n a b e f = omega (arith, div-add-mod a n, div-add-mod b n, ap (λ t. n * t) e)

-- The entry of another cluster than the one that is written: it stays, but for one in the same sector when
-- this is not in the cache.
abbrev pub kept_entry : FatInfo → ℕ → ℕ → Option ℕ
kept_entry fat cluster other =
    let index = cluster / fat.num_count in
    if other / fat.num_count == index
    then elim (fat.left_over index) [
      | none ↦ get_next_cluster fat other
      | some old ↦ load fat.fat_type old (other % fat.num_count)
    ]
    else get_next_cluster fat other

-- What is left of an entry in the sector that was written on.
same_sector :
    (fat : FatInfo) (cluster other : ℕ) (words : List ℕ)
    → other / fat.num_count ≡ cluster / fat.num_count
    → get_elem? fat.table (cluster / fat.num_count) ≡ some words
    → load fat.fat_type (written_on fat (cluster / fat.num_count) words) (other % fat.num_count)
      ≡ kept_entry fat cluster other
same_sector fat cluster other words d there =
    let index = cluster / fat.num_count in
    let t : (other / fat.num_count == index) ≡ true = ground (arith, d) in
    elim (Option-cases (fat.left_over index)) [
      | inl n ↦
          rw (written_on, t, n) (sym (get-at fat other words (ap (get_elem? fat.table) d ∙ there)))
      | inr m ↦ rw (written_on, t, m.1) refl
    ]

-- `set_cluster` writes one entry of the table: what it writes is read back, if the entry can hold it. The
-- entry of every other cluster is kept if it is in another sector, or if the sector is in the cache;
-- otherwise it is what was left in the buffer that the cache gave for the sector.
pub set_cluster-get :
    (fat fat' : FatInfo) (cluster other v : ℕ)
    → Fits fat.fat_type v
    → set_cluster fat cluster v ≡ some fat'
    → other ≢ cluster
    → (get_next_cluster fat' cluster ≡ some v)
      × (get_next_cluster fat' other ≡ kept_entry fat cluster other)
unfolding get_next_cluster
set_cluster-get fat fat' cluster other v f e n =
    let index = cluster / fat.num_count in
    let offset = cluster % fat.num_count in
    let t = set_cluster-inv fat fat' cluster v e in
    let words = t.0 in
    let words' = t.1.0 in
    let there : get_elem? fat.table index ≡ some words = t.1.1.0 in
    let base = written_on fat index words in
    let stored : store fat.fat_type base offset v ≡ some words' = t.1.1.1 in
    let fat2 = record (in_cache fat index (index + 1)) { table = set fat.table index words' } in
    let made : fat' ≡ fat2 = t.1.1.2 in
    let there' =
      get_elem?-set_self fat.table index words' (get_elem?-length fat.table index words there) in
    let own : get_next_cluster fat2 cluster ≡ some v =
      get-at fat2 cluster words' there'
      ∙ load-store_self fat.fat_type base words' offset v f stored in
    let others : get_next_cluster fat2 other ≡ kept_entry fat cluster other =
      elim (ℕ_discrete (other / fat.num_count) index) [
        | yes d ↦
            get-at fat2 other words' (ap (get_elem? fat2.table) d ∙ there')
            ∙ load-store_ne fat.fat_type base words' offset (other % fat.num_count) v
                (λ x. n (same_place fat.num_count other cluster d (sym x))) stored
            ∙ same_sector fat cluster other words d there
        | no d ↦
            let z : (other / fat.num_count == index) ≡ false = ground (arith, d) in
            rw z (
              ground (
                arith,
                get_elem?-set_ne fat.table index (other / fat.num_count) words' (λ x. d (sym x)),
              ))
      ] in
    rw made (own, others)
