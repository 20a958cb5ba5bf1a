-- ===== src/Morphing/Unallocated/Fat/Map.antt =====
-- The map that `BuildFatBlockMap` builds.
use native.Mathlib.Nat.{mul_comm, mul_assoc, mul-le-mul_right, add-mul}
use xmount.Base.{
  ℕ, zero, suc, ◌+◌, ◌-◌, ◌*◌, ◌/◌, ◌%◌, ◌^◌, ◌≤◌, ◌<◌, ◌≡◌, refl, ap, sym, ◌∙◌, ◌⊎◌, inl, inr,
  Bool, true, false, ◌||◌, Bool-cases, List, [], ◌∷◌, arith,
}
use xmount.Base.{
  ◌==◌, if◌then◌else◌, u32, add64, sub64, mul64, length, get_or, get_elem?-eq-get_or, ok, block-div,
}
use xmount.Morphing.Unallocated.FreeMap.{IsFreeMap, none_left, one_free, one_used}
use xmount.Morphing.Unallocated.Fat.{
  FatVh, data_offset, total_clusters, is_free, cluster_pos, free_clusters, build_fat_block_map,
}

-- An entry of a FAT32, whose four upper bits are reserved, that stands for a free or a bad cluster;
-- and one of another FAT that the code takes for such an entry.
abbrev pub FreeEntry : Bool → ℕ → Type 0
FreeEntry true entry = (high : ℕ) × ((entry ≡ high * 2 ^ 28) ⊎ (entry ≡ high * 2 ^ 28 + 0x0FFFFFF7))
FreeEntry false entry = (high : ℕ) × ((entry ≡ high * 2 ^ 12) ⊎ (entry ≡ high * 2 ^ 12 + 0x0FF7))

-- A FAT volume in sectors: the reserved ones, the FATs, the root directory, and so many whole
-- clusters.
pub record Volume (vh : FatVh) (fats root clusters : ℕ) : Type 0 where
  pub bytes : 0 < vh.bytes_per_sector
  pub sectors : 0 < vh.sectors_per_cluster
  pub fat_sectors :
      ((0 < vh.fat16_sectors) × (fats ≡ vh.fat_count * vh.fat16_sectors))
      ⊎ ((vh.fat16_sectors ≡ 0)
          × (fats ≡ vh.fat_count * vh.fat32_sectors)
          × (vh.fat_count * vh.fat32_sectors < 2 ^ 32))
  pub root_enough : vh.root_entry_count * 32 ≤ root * vh.bytes_per_sector
  pub root_tight : root * vh.bytes_per_sector < vh.root_entry_count * 32 + vh.bytes_per_sector
  pub total : ℕ
  pub total_sectors :
      ((0 < vh.total_sectors_16) × (total ≡ vh.total_sectors_16))
      ⊎ ((vh.total_sectors_16 ≡ 0) × (total ≡ vh.total_sectors_32))
  pub inside : vh.reserved_sectors + fats + root + clusters * vh.sectors_per_cluster ≤ total
  pub all :
      total
      < vh.reserved_sectors
        + fats
        + root
        + clusters * vh.sectors_per_cluster
        + vh.sectors_per_cluster
  pub small : total * vh.bytes_per_sector < 2 ^ 63

abbrev pub start : FatVh → ℕ → ℕ → ℕ
start vh fats root = vh.reserved_sectors + fats + root

-- The position of a cluster in bytes, of which the first one has the number 2.
abbrev pub position : FatVh → ℕ → ℕ → ℕ → ℕ
position vh fats root b =
    (start vh fats root + (b - 2) * vh.sectors_per_cluster) * vh.bytes_per_sector

-- The tests of the code.
is_free-FreeEntry : (fat32 : Bool) (entry : ℕ) → is_free fat32 entry ≡ true → FreeEntry fat32 entry
unfolding is_free
is_free-FreeEntry true entry h = elim (Bool-cases (entry % 2 ^ 28 == 0)) [
  | inl free ↦ (entry / 2 ^ 28, inl (ground arith))
  | inr bad ↦ (entry / 2 ^ 28, inr (ground arith))
]
is_free-FreeEntry false entry h = elim (Bool-cases (entry % 2 ^ 12 == 0)) [
  | inl free ↦ (entry / 2 ^ 12, inl (ground arith))
  | inr bad ↦ (entry / 2 ^ 12, inr (ground arith))
]

FreeEntry-is_free : (fat32 : Bool) (entry : ℕ) → FreeEntry fat32 entry → is_free fat32 entry ≡ true
unfolding is_free
FreeEntry-is_free true entry (high, inl e) = ground arith
FreeEntry-is_free true entry (high, inr e) = ground arith
FreeEntry-is_free false entry (high, inl e) = ground arith
FreeEntry-is_free false entry (high, inr e) = ground arith

module _ (vh : FatVh) {fats root clusters : ℕ} (v : Volume vh fats root clusters) where
  start_small : start vh fats root * vh.bytes_per_sector < 2 ^ 63
  start_small = omega (
    arith,
    mul-le-mul_right {m = start vh fats root} {n = v.total} vh.bytes_per_sector
        (omega (arith, v.inside)),
    v.small,
  )

  data_offset_lem : data_offset vh ≡ start vh fats root * vh.bytes_per_sector
  unfolding data_offset
  data_offset_lem =
      let n = vh.bytes_per_sector in
      let rounded : (vh.root_entry_count * 32 + (n - 1)) / n ≡ root =
        ap (λ k. k / n) (omega (arith, v.root_enough, v.bytes))
        ∙ block-div root n (vh.root_entry_count * 32 + (n - 1) - root * n)
            (omega (arith, v.root_enough, v.root_tight, v.bytes)) in
      rw (rounded, fats_lem) (ap (λ k. mul64 k n) (omega arith) ∙ fits)
    where
      fats_lem :
          (if vh.fat16_sectors == 0
            then u32 (vh.fat_count * vh.fat32_sectors)
            else vh.fat_count * vh.fat16_sectors)
          ≡ fats
      fats_lem = ground (arith, v.fat_sectors)

      fits :
          mul64 (start vh fats root) vh.bytes_per_sector ≡ start vh fats root * vh.bytes_per_sector
      fits = omega (arith, start_small)

  total_clusters_lem : total_clusters vh ≡ clusters + 2
  unfolding total_clusters
  total_clusters_lem =
      let n = vh.bytes_per_sector in
      let first : data_offset vh / n ≡ start vh fats root =
        ap (λ k. k / n) (data_offset_lem ∙ omega arith)
        ∙ block-div (start vh fats root) n 0 v.bytes in
      rw (first, total_lem) (clusters_lem (sub64 v.total (start vh fats root)) rest)
    where
      total_lem :
          (if vh.total_sectors_16 == 0 then vh.total_sectors_32 else vh.total_sectors_16) ≡ v.total
      total_lem = ground (arith, v.total_sectors)

      total_small : v.total < 2 ^ 63
      total_small = omega (
        arith,
        v.small,
        mul-le-mul_right {m = 1} {n = vh.bytes_per_sector} v.total v.bytes,
        mul_comm v.total vh.bytes_per_sector,
      )

      rest : sub64 v.total (start vh fats root) ≡ v.total - start vh fats root
      rest = omega (arith, v.inside, total_small)

      clusters_lem :
          (k : ℕ)
          → k ≡ v.total - start vh fats root
          → add64 (k / vh.sectors_per_cluster) 2 ≡ clusters + 2
      clusters_lem k e =
          let div : k / vh.sectors_per_cluster ≡ clusters =
            ap (λ j. j / vh.sectors_per_cluster) (omega (arith, e, v.inside))
            ∙ block-div clusters vh.sectors_per_cluster
                (v.total - start vh fats root - clusters * vh.sectors_per_cluster)
                (omega (arith, v.all, v.sectors)) in
          let le = mul-le-mul_right {m = 1} {n = vh.sectors_per_cluster} clusters v.sectors in
          let few : clusters < 2 ^ 63 =
            omega (arith, le, mul_comm clusters vh.sectors_per_cluster, v.inside, total_small) in
          rw div (omega (arith, few))

  cluster_pos_lem : (b : ℕ) → b < clusters + 2 → cluster_pos vh b ≡ position vh fats root b
  unfolding cluster_pos
  cluster_pos_lem b lt =
      let n = vh.bytes_per_sector in
      let s = vh.sectors_per_cluster in
      let k : ℕ = b - 2 in
      let whole : position vh fats root b ≡ start vh fats root * n + k * n * s =
        add-mul (start vh fats root) (k * s) n
        ∙ ap (λ x. start vh fats root * n + x)
            (mul_assoc k s n ∙ ap (λ x. k * x) (mul_comm s n) ∙ sym (mul_assoc k n s)) in
      let inside : k * s ≤ clusters * s = mul-le-mul_right {m = k} {n = clusters} s (omega arith) in
      let end : position vh fats root b < 2 ^ 63 = omega (
        arith,
        mul-le-mul_right {m = start vh fats root + k * s} {n = v.total} n
            (omega (arith, v.inside, inside)),
        v.small,
      ) in
      let part : k * n ≤ k * n * s =
        omega (arith, mul-le-mul_right {m = 1} {n = s} (k * n) v.sectors, mul_comm s (k * n)) in
      let small : k * n * s < 2 ^ 63 = omega (arith, end, whole) in
      let once : mul64 k n ≡ k * n = omega (arith, part, small) in
      rw (data_offset_lem, once) (omega (arith, whole, end, small))

free_clusters_lem :
    (vh : FatVh) (fat32 : Bool) (fat : List ℕ) (total left first : ℕ) (pos : ℕ → ℕ)
    → ((b : ℕ) → b < total → cluster_pos vh b ≡ pos b)
    → first + left ≡ total
    → total ≤ length fat
    → (map : List ℕ) × (free_clusters vh fat32 fat left first ≡ ok map)
      × IsFreeMap total (λ b. FreeEntry fat32 (get_or fat b 0)) pos first map
unfolding free_clusters
free_clusters_lem vh fat32 fat total zero first pos at e covered =
    ([], refl, none_left first (omega arith))
free_clusters_lem vh fat32 fat total (suc left) first pos at e covered =
    let (map, done, m) =
      free_clusters_lem vh fat32 fat total left (first + 1) pos at (omega arith) covered in
    let entry = get_elem?-eq-get_or fat first 0 (omega arith) in
    elim (Bool-cases (is_free fat32 (get_or fat first 0))) [
      | inl free ↦ (
        cluster_pos vh first ∷ map,
        rw (entry, free_clusters, done, free) refl,
        one_free first (cluster_pos vh first) map (at first (omega arith)) (omega arith)
            (is_free-FreeEntry fat32 (get_or fat first 0) free) m,
      )
      | inr used ↦ (
        map,
        rw (entry, free_clusters, done, used) refl,
        one_used first map
            (λ free.
              absurd (ground (arith, used, FreeEntry-is_free fat32 (get_or fat first 0) free)))
            m,
      )
    ]

-- On a FAT volume of less than 2 ^ 63 bytes, with so many sectors of FATs, of its root directory and
-- so many clusters, whose FAT has an entry for every cluster, `BuildFatBlockMap` succeeds with the
-- size of a cluster and a map of the positions of just the clusters, from number 2 on, whose entry is
-- free or bad: for a FAT32 in its lower 28 bits, for the others in the lower 12 bits alone.
pub build_fat_block_map_lem :
    (vh : FatVh) (fat32 : Bool) (fat : List ℕ) {fats root clusters : ℕ}
    → Volume vh fats root clusters
    → clusters + 2 ≤ length fat
    → (map : List ℕ) × (build_fat_block_map vh fat32 fat
        ≡ ok (map, vh.bytes_per_sector * vh.sectors_per_cluster))
      × IsFreeMap
          (clusters + 2)
          (λ b. FreeEntry fat32 (get_or fat b 0))
          (position vh fats root)
          2
          map
unfolding build_fat_block_map
build_fat_block_map_lem vh fat32 fat {fats} {root} {clusters} v covered =
    let (map, done, m) =
      free_clusters_lem vh fat32 fat (clusters + 2) clusters 2 (position vh fats root)
        (cluster_pos_lem vh v) (omega arith) covered in
    let sizes : ((vh.bytes_per_sector == 0) || (vh.sectors_per_cluster == 0)) ≡ false =
      ground (arith, v.bytes, v.sectors) in
    let rounds : total_clusters vh - 2 ≡ clusters = omega (arith, total_clusters_lem vh v) in
    (map, rw (sizes, build_fat_block_map, rounds, done) refl, m)
