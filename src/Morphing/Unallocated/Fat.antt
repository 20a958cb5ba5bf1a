-- ===== src/Morphing/Unallocated/Fat.antt =====
-- fat_functions.c: `BuildFatBlockMap`.
pub mod Map
use xmount.Base.{
  ℕ, zero, suc, ◌+◌, ◌-◌, ◌*◌, ◌/◌, ◌%◌, ◌^◌, Bool, true, false, ◌||◌, none, some, List, [], ◌∷◌,
}
use xmount.Base.{◌==◌, if◌then◌else◌, u32, add64, sub64, mul64, get_elem?, Result, ok, fault, ◌>>=◌}
use xmount.Morphing.Unallocated.{UnallocatedError}

-- What `BuildFatBlockMap` uses of `ts_FatVH`.
pub record FatVh : Type 0 where
  pub bytes_per_sector : ℕ
  pub sectors_per_cluster : ℕ
  pub reserved_sectors : ℕ
  pub fat_count : ℕ
  pub root_entry_count : ℕ
  pub total_sectors_16 : ℕ
  pub fat16_sectors : ℕ
  pub total_sectors_32 : ℕ
  pub fat32_sectors : ℕ

-- `data_offset`, where a sector has bytes. The product with `fat32_sectors` is one of 32 bits.
unfoldable pub data_offset : FatVh → ℕ
data_offset vh =
    let root : ℕ = (vh.root_entry_count * 32 + (vh.bytes_per_sector - 1)) / vh.bytes_per_sector in
    let fats : ℕ =
      if vh.fat16_sectors == 0
      then u32 (vh.fat_count * vh.fat32_sectors)
      else vh.fat_count * vh.fat16_sectors in
    mul64 (vh.reserved_sectors + root + fats) vh.bytes_per_sector

-- `total_clusters`, with the two that do not exist, where a cluster has sectors.
unfoldable pub total_clusters : FatVh → ℕ
total_clusters vh =
    let sectors : ℕ =
      if vh.total_sectors_16 == 0 then vh.total_sectors_32 else vh.total_sectors_16 in
    add64 (sub64 sectors (data_offset vh / vh.bytes_per_sector) / vh.sectors_per_cluster) 2

-- The tests on an entry of a FAT32, and of another FAT.
unfoldable pub is_free : Bool → ℕ → Bool
is_free true entry = (entry % 2 ^ 28 == 0) || (entry % 2 ^ 28 == 0x0FFFFFF7)
is_free false entry = (entry % 2 ^ 12 == 0) || (entry % 2 ^ 12 == 0x0FF7)

-- The position of a cluster.
unfoldable pub cluster_pos : FatVh → ℕ → ℕ
cluster_pos vh cur_cluster =
    add64 (data_offset vh)
      (mul64 (mul64 (cur_cluster - 2) vh.bytes_per_sector) vh.sectors_per_cluster)

-- The `for` loop at `cur_cluster`, with `left` rounds to go: the map from there on. A read behind
-- the end of the FAT is a fault.
unfoldable pub free_clusters : FatVh → Bool → List ℕ → ℕ → ℕ → Result UnallocatedError (List ℕ)
free_clusters vh fat32 fat zero cur_cluster = ok []
free_clusters vh fat32 fat (suc left) cur_cluster =
    let rest : Result UnallocatedError (List ℕ) =
      free_clusters vh fat32 fat left (cur_cluster + 1) in
    elim (get_elem? fat cur_cluster) [
      | none ↦ fault
      | some entry ↦
          rest >>= λ map. ok (if is_free fat32 entry then cluster_pos vh cur_cluster ∷ map else map)
    ]

-- `BuildFatBlockMap`, where the memory is there: the map, whose length is its size, and the block
-- size. It divides by the two sizes that are tested first here.
unfoldable pub build_fat_block_map : FatVh → Bool → List ℕ → Result UnallocatedError (List ℕ × ℕ)
build_fat_block_map vh fat32 fat =
    let map : Result UnallocatedError (List ℕ) =
      free_clusters vh fat32 fat (total_clusters vh - 2) 2 in
    if (vh.bytes_per_sector == 0) || (vh.sectors_per_cluster == 0)
    then fault
    else (map >>= λ blocks. ok (blocks, vh.bytes_per_sector * vh.sectors_per_cluster))
