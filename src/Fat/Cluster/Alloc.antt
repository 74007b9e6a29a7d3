-- ===== src/Fat/Cluster/Alloc.antt =====
-- What `alloc_cluster` of src/fs/fat/cluster.c finds and what it hands out.
use horizon_operating_system.Common.{
  ℕ, zero, suc, ◌+◌, ◌-◌, ◌*◌, ◌/◌, ◌%◌, ◌≡◌, ◌≤◌, ◌<◌, inl, inr, sym, ap, ◌∙◌, List, Bool, true,
  false, Option, none, some, Option-cases, Bool-cases, get_elem?, ◌==◌, arith, u32_mod,
}
use native.Mathlib.Nat.{
  mul-add-div_right, div-eq_of_lt, add-mul-mod_self_right, mod-eq_of_lt, mod-lt, add-mul,
}
use horizon_operating_system.Fat.Name.{FatType, fat_type_fat32}
use horizon_operating_system.Fat.Cluster.{
  FatInfo, in_cache, load, load32, get_next_cluster, scan_sector, Scan, scan_table, Allocated,
  take_cluster, alloc_cluster,
}
use horizon_operating_system.Fat.Cluster.Table.{get-at}

abbrev the_scan : Scan → Option Scan → Scan
the_scan s none = s
the_scan s (some t) = t

scan_sector-finds :
    (left : ℕ) (words : List ℕ) (i j : ℕ)
    → scan_sector left words i ≡ some (true, j)
    → (load32 words j ≡ some 0) × (i ≤ j) × (j < i + left)
unfolding scan_sector
scan_sector-finds zero words i j e = absurd (ground arith)
scan_sector-finds (suc left) words i j e = elim (Option-cases (load32 words i)) [
  | inl n ↦ absurd (ground (arith, n, e))
  | inr m ↦ elim (Bool-cases (m.0 == 0)) [
    | inl z ↦
        let same : i ≡ j = ground (arith, m.1, z, e) in
        let free : m.0 ≡ 0 = ground (arith, z) in
        (rw (← same) (m.1 ∙ ap some free), omega (arith, same), omega (arith, same))
    | inr z ↦
        let r = scan_sector-finds left words (i + 1) j (ground (arith, m.1, z, e)) in
        (r.0, omega (arith, r.1), omega (arith, r.2))
  ]
]

-- An entry that is free: its sector, and its place in it.
abbrev IsFree : FatInfo → ℕ → ℕ → Type 0
IsFree fat k i =
    (words : List ℕ) × ((get_elem? fat.table k ≡ some words)
      × (load32 words i ≡ some 0)
      × (i < fat.num_count))

scan_table-finds :
    (left : ℕ) (fat : FatInfo) (index offset : ℕ) (before : Option ℕ) (s : Scan)
    → offset < fat.num_count
    → scan_table left fat index offset before ≡ some s
    → s.finded ≡ true
    → (k : ℕ) × ((s.index ≡ k + 1) × IsFree fat k s.i)
unfolding scan_table
scan_table-finds zero fat index offset none s o e f = absurd (ground arith)
scan_table-finds zero fat index offset (some i) s o e f = absurd (ground arith)
scan_table-finds (suc left) fat index offset before s o e f =
    elim (Option-cases (get_elem? fat.table index)) [
      | inl n ↦ absurd (ground (arith, n, e))
      | inr w ↦ elim (Option-cases (scan_sector (fat.num_count - offset) w.0 offset)) [
        | inl n ↦ absurd (ground (arith, w.1, n, e))
        | inr ((true, i), r) ↦
            let index_made : index + 1 ≡ s.index = ground (arith, w.1, r, e) in
            let i_made : i ≡ s.i = ground (arith, w.1, r, e) in
            let found = scan_sector-finds (fat.num_count - offset) w.0 offset i r in
            (
              index,
              (
                sym index_made,
                (w.0, (w.1, rw i_made at found.0, omega (arith, found.1, found.2, i_made))),
              ),
            )
        | inr ((false, i), r) ↦
            scan_table-finds left fat (index + 1) 0 (some i) s (omega arith)
              (ground (arith, w.1, r, e)) f
      ]
    ]

-- The entry of a cluster by its sector and its place.
free-get :
    (fat : FatInfo) (k i : ℕ)
    → fat.fat_type ≡ fat_type_fat32
    → IsFree fat k i
    → get_next_cluster fat (k * fat.num_count + i) ≡ some 0
free-get fat k i t f =
    let p : 0 < fat.num_count = omega (arith, f.1.2) in
    let at : (k * fat.num_count + i) / fat.num_count ≡ k =
      mul-add-div_right p k i ∙ omega (arith, div-eq_of_lt f.1.2) in
    let swap : k * fat.num_count + i ≡ i + k * fat.num_count = omega arith in
    let place : (k * fat.num_count + i) % fat.num_count ≡ i =
      ap (λ n. n % fat.num_count) swap
      ∙ add-mul-mod_self_right i k fat.num_count
      ∙ mod-eq_of_lt f.1.2 in
    get-at fat (k * fat.num_count + i) f.0 (ap (get_elem? fat.table) at ∙ f.1.0)
    ∙ ap (λ (ty : FatType). load ty f.0 ((k * fat.num_count + i) % fat.num_count)) t
    ∙ ap (load32 f.0) place
    ∙ f.1.1

take_cluster-out :
    (fat : FatInfo) (s : Scan) (last_cluster : ℕ) (is_first_cluster : Bool) (a : Allocated)
    (out : ℕ)
    → take_cluster fat s last_cluster is_first_cluster ≡ some a
    → a.out_cluster ≡ some out
    → (s.finded ≡ true) × (out ≡ (s.index * fat.num_count + s.i) % u32_mod)
unfolding take_cluster
take_cluster-out fat s last_cluster is_first_cluster a out e h = ground arith

-- For FAT32, `alloc_cluster` hands out the cluster that lies one sector of entries behind the free one that
-- it found, in 32 bits.
pub alloc_cluster-skips :
    (fat : FatInfo) (last_cluster : ℕ) (is_first_cluster : Bool) (a : Allocated) (out : ℕ)
    → fat.fat_type ≡ fat_type_fat32
    → 0 < fat.num_count
    → alloc_cluster fat last_cluster is_first_cluster ≡ some a
    → a.out_cluster ≡ some out
    → (free : ℕ) × ((get_next_cluster fat free ≡ some 0) × (out ≡ (free + fat.num_count) % u32_mod))
unfolding alloc_cluster
alloc_cluster-skips fat last_cluster is_first_cluster a out t p e h =
    let index = fat.last_cluster / fat.num_count in
    let offset = fat.last_cluster % fat.num_count in
    elim (Option-cases (scan_table (fat.fat_sectors - index) fat index offset none)) [
      | inl n ↦ absurd (ground (arith, n, e))
      | inr q ↦
          let taken =
            take_cluster-out (in_cache fat index q.0.index) q.0 last_cluster is_first_cluster a out
              (ground (arith, q.1, e)) h in
          let f =
            scan_table-finds (fat.fat_sectors - index) fat index offset none q.0
              (mod-lt fat.last_cluster p) q.1 taken.0 in
          (
            f.0 * fat.num_count + q.0.i,
            (
              free-get fat f.0 q.0.i t f.1.1,
              taken.1
                  ∙ ap (λ n. n % u32_mod)
                      (omega
                        (arith, ap (λ n. n * fat.num_count) f.1.0, add-mul f.0 1 fat.num_count)),
            ),
          )
    ]
