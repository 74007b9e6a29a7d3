-- ===== src/Fat/Cluster/Tests.antt =====
-- Runs of src/fs/fat/cluster.c, and the theorems about it there.
use horizon_operating_system.Common.{
  ℕ, ◌+◌, ◌%◌, ◌≡◌, refl, [], ◌∷◌, true, Option, none, some, arith, u32_mod, ◌==◌, if◌then◌else◌,
}
use horizon_operating_system.Fat.Name.{fat_type_fat32}
use horizon_operating_system.Fat.Cluster.{
  FatInfo, get_next_cluster, set_cluster, scan_sector, scan_table, Allocated, take_cluster,
  alloc_cluster,
}
use horizon_operating_system.Fat.Cluster.Table.{set_cluster-get}
use horizon_operating_system.Fat.Cluster.Alloc.{alloc_cluster-skips}

-- Three sectors of two entries; cluster 2 is free, and cluster 4 is in use.
abbrev fat : FatInfo
fat = record {
  fat_type = fat_type_fat32;
  num_count = 2;
  fat_sectors = 3;
  last_cluster = 2;
  table = (1 ∷ 0 ∷ 1 ∷ 0 ∷ []) ∷ (0 ∷ 0 ∷ 7 ∷ 1 ∷ []) ∷ (5 ∷ 0 ∷ 0 ∷ 0 ∷ []) ∷ [];
  left_over = λ i. if i == 2 then none else some (9 ∷ 9 ∷ 9 ∷ 9 ∷ []);
}

abbrev the_fat : Option FatInfo → FatInfo
the_fat none = fat
the_fat (some made) = made

abbrev the_allocated : Option Allocated → Allocated
the_allocated none = record { fat = fat; out_cluster = none }
the_allocated (some a) = a

reads : get_next_cluster fat 3 ≡ some 65543
unfolding get_next_cluster
reads = refl

-- The sector of clusters 4 and 5 is in the cache.
set_cluster-get_example :
    (get_next_cluster (the_fat (set_cluster fat 5 131081)) 5 ≡ some 131081)
    × (get_next_cluster (the_fat (set_cluster fat 5 131081)) 4 ≡ some 5)
unfolding set_cluster get_next_cluster
set_cluster-get_example =
    set_cluster-get fat (the_fat (set_cluster fat 5 131081)) 5 4 131081 (omega arith) refl
      (omega arith)

-- That of clusters 2 and 3 is not: the free cluster 2 gets what was left in the buffer.
overwrites : get_next_cluster (the_fat (set_cluster fat 3 131081)) 2 ≡ some 589833
unfolding set_cluster get_next_cluster
overwrites = refl

-- The chain in cluster 4 is overwritten.
allocates : (the_allocated (alloc_cluster fat 0 true)).out_cluster ≡ some 4
unfolding alloc_cluster scan_table scan_sector take_cluster set_cluster
allocates = refl

alloc_cluster-skips_example :
    (free : ℕ) × ((get_next_cluster fat free ≡ some 0) × (4 ≡ (free + 2) % u32_mod))
unfolding alloc_cluster scan_table scan_sector take_cluster set_cluster
alloc_cluster-skips_example =
    alloc_cluster-skips fat 0 true (the_allocated (alloc_cluster fat 0 true)) 4 refl (omega arith)
      refl refl
