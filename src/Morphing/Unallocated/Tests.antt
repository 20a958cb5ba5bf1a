-- ===== src/Morphing/Unallocated/Tests.antt =====
-- Maps of free blocks, and runs of `UnallocatedRead` over an image of three blocks of four bytes, of which the last and the
-- first are free.
use xmount.Base.{
  ℕ, zero, suc, ◌+◌, ◌*◌, ◌≤◌, ◌<◌, ◌≡◌, refl, Option, none, some, Bool, true, false, List, inl, [],
  ◌∷◌, arith, slice, ok, get_or, length,
}
use xmount.Morphing.Images.{InputFunctions, Image}
use xmount.Morphing.Unallocated.{UnallocatedHandle, size, read}
use xmount.Morphing.Unallocated.FreeMap.{IsFreeMap}
use xmount.Morphing.Unallocated.Hfs.{HfsHandle, build_hfs_block_map}
use xmount.Morphing.Unallocated.Hfs.Map.{bit, IsAllocFile, build_hfs_block_map_lem}
use xmount.Morphing.Unallocated.Fat.{FatVh, build_fat_block_map}
use xmount.Morphing.Unallocated.Fat.Map.{FreeEntry, Volume, position, build_fat_block_map_lem}
use xmount.Morphing.Unallocated.Read.{free_byte, IsUnallocated, read-free_byte, read_inside_block}

abbrev image : Image
image = record { size = 12; byte = λ i. i + 10 }

abbrev reads : ℕ → ℕ → ℕ → Option (List ℕ)
reads zero o n = some (slice image.byte o n)
reads (suc i) o n = none

abbrev io : InputFunctions
io = record { image_count = some 1; size = λ i. some 12; read = reads }

abbrev handle : UnallocatedHandle
handle = record {
  input_functions = some io;
  block_size = 4;
  free_block_map = 8 ∷ 0 ∷ [];
  morphed_image_size = 8;
}

abbrev blocks_inside :
    (b : ℕ) → b < length handle.free_block_map → get_or handle.free_block_map b 0 + 4 ≤ 12
blocks_inside zero lt = omega arith
blocks_inside (suc zero) lt = omega arith
blocks_inside (suc (suc b)) lt = absurd (omega arith)

abbrev handle-IsUnallocated : IsUnallocated image handle
handle-IsUnallocated = record {
  io = io;
  functions = refl;
  serves = λ o n le. refl;
  pos = omega arith;
  inside = blocks_inside;
  sized = refl;
  small = omega arith;
  short = omega arith;
}

read-free_byte_example : read handle (0 * 4) 6 ≡ ok (18 ∷ 19 ∷ 20 ∷ 21 ∷ 10 ∷ 11 ∷ [])
unfolding slice free_byte size
read-free_byte_example = read-free_byte handle 0 6 handle-IsUnallocated (omega arith)

read_inside_block_example : read handle (1 * 4 + 1) 2 ≡ ok (12 ∷ 13 ∷ [])
unfolding slice
read_inside_block_example =
    read_inside_block handle 1 1 2 handle-IsUnallocated (omega arith) (omega arith) (omega arith)
      (omega arith)

-- Blocks 1 and 2 of three are free.
abbrev hfs : HfsHandle
hfs = record { block_size = 4096; total_blocks = 3; alloc_file = 0x80 ∷ [] }

abbrev in_use : ℕ → Bool
in_use zero = true
in_use (suc b) = false

hfs-IsAllocFile : IsAllocFile in_use hfs.alloc_file
hfs-IsAllocFile = record { bytes = at }
  where
    at :
        (i : ℕ)
        → i < 1
        → get_or hfs.alloc_file i 0
          ≡ bit (in_use (8 * i + 0)) * 128
            + bit (in_use (8 * i + 1)) * 64
            + bit (in_use (8 * i + 2)) * 32
            + bit (in_use (8 * i + 3)) * 16
            + bit (in_use (8 * i + 4)) * 8
            + bit (in_use (8 * i + 5)) * 4
            + bit (in_use (8 * i + 6)) * 2
            + bit (in_use (8 * i + 7))
    at zero lt = refl
    at (suc i) lt = absurd (omega arith)

build_hfs_block_map_lem_example :
    (map : List ℕ) × (build_hfs_block_map hfs ≡ ok (map, 4096))
    × IsFreeMap 3 (λ b. in_use b ≡ false) (λ b. b * 4096) 0 map
build_hfs_block_map_lem_example =
    build_hfs_block_map_lem hfs in_use hfs-IsAllocFile (omega arith) (omega arith)

-- A FAT16 of three clusters, of which cluster 3 is free.
abbrev fat_vh : FatVh
fat_vh = record {
  bytes_per_sector = 512;
  sectors_per_cluster = 1;
  reserved_sectors = 1;
  fat_count = 1;
  root_entry_count = 16;
  total_sectors_16 = 6;
  fat16_sectors = 1;
  total_sectors_32 = 0;
  fat32_sectors = 0;
}

abbrev fat : List ℕ
fat = 0xFFF8 ∷ 0xFFFF ∷ 0xFFFF ∷ 0 ∷ 0xFFFF ∷ []

volume : Volume fat_vh 1 1 3
volume = record {
  bytes = omega arith;
  sectors = omega arith;
  fat_sectors = inl (omega arith, refl);
  root_enough = omega arith;
  root_tight = omega arith;
  total = 6;
  total_sectors = inl (omega arith, refl);
  inside = omega arith;
  all = omega arith;
  small = omega arith;
}

build_fat_block_map_lem_example :
    (map : List ℕ) × (build_fat_block_map fat_vh false fat ≡ ok (map, 512))
    × IsFreeMap 5 (λ b. FreeEntry false (get_or fat b 0)) (position fat_vh 1 1) 2 map
build_fat_block_map_lem_example = build_fat_block_map_lem fat_vh false fat volume (omega arith)
