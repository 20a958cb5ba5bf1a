-- ===== src/VirtImage/CacheFile/Tests.antt =====
-- A cache file for ten bytes: laid out, and loaded again.
use xmount.Base.{
  ℕ, ◌+◌, ◌*◌, ◌^◌, ◌≡◌, ◌↔◌, refl, none, some, [], ◌∷◌, arith, slice, ok, Option, false, length,
  get_or,
}
use xmount.Stdio.{File}
use xmount.VirtImage.State.{
  XmountData, Cache, MorphingFunctions, dd, sizeof_cache_header, sizeof_block_index,
}
use xmount.VirtImage.Morphed.{IsMorphed}
use xmount.VirtImage.Get.Content.{image_byte}
use xmount.VirtImage.Get.Whole.{VdiFits}
use xmount.VirtImage.Set.Invariant.{Writable}
use xmount.VirtImage.CacheFile.{
  Mode, rb_plus, wb_plus, init_cache_file, open_cache_file, needed_blocks, load_cache_file,
}
use xmount.VirtImage.CacheFile.Synced.{Loadable}
use xmount.VirtImage.CacheFile.New.{init_cache_file-Writable}
use xmount.VirtImage.CacheFile.Load.{init_cache_file-Loadable}
use xmount.VirtImage.CacheFile.Checked.{IsCacheFile, load_cache_file-IsCacheFile}
use xmount.VirtImage.Vdi.{VdiIds, init_virt_vdi_header}
use xmount.VirtImage.Vdi.Fields.{IsVdiHeader, init_virt_vdi_header-IsVdiHeader}

abbrev image : ℕ → ℕ
image i = i + 1

abbrev morphed : MorphingFunctions
morphed = record { size = some 10; read = λ o n. some (slice image o n) }

abbrev morphed-IsMorphed : IsMorphed morphed 10 image
morphed-IsMorphed = record { sized = refl; reads = λ o n lt le. refl }

abbrev data_dd : XmountData
data_dd = record {
  morphing = morphed;
  cache = none;
  virt_image_type = dd;
  image_size = 0;
  vdi_header_size = 0;
  vdi_header = [];
  vdi_block_map_size = 0;
  vhd_header = [];
}

abbrev empty_file : File
empty_file = record { size = 0; byte = λ i. 0; room = 2 ^ 40 }

abbrev fopen : Mode → Option File
fopen rb_plus = none
fopen wb_plus = some empty_file

init_cache_file-Writable_example :
    (c : Cache) × (init_cache_file data_dd false fopen ≡ ok (record data_dd { cache = some c }))
    × Writable c 10
    × Loadable c
    × (length c.blkidx ≡ 1)
    × (c.file.size ≡ 524)
    × (c.file.room ≡ 2 ^ 40)
    × ((q : ℕ) → image_byte (some c) image q ≡ image q)
unfolding needed_blocks open_cache_file
init_cache_file-Writable_example =
    init_cache_file-Writable data_dd false fopen empty_file morphed-IsMorphed (omega arith) refl
      refl (omega arith) (omega arith)

abbrev made :
    (c : Cache) × (init_cache_file data_dd false fopen ≡ ok (record data_dd { cache = some c }))
    × Writable c 10
    × Loadable c
    × (length c.blkidx ≡ needed_blocks 10)
    × (c.file.size ≡ sizeof_cache_header + needed_blocks 10 * sizeof_block_index)
    × (c.file.room ≡ 2 ^ 40)
    × ((q : ℕ) → image_byte (some c) image q ≡ image q)
unfolding needed_blocks open_cache_file
made =
    init_cache_file-Writable data_dd false fopen empty_file morphed-IsMorphed (omega arith) refl
      refl (omega arith) (omega arith)

abbrev fopen_made : Mode → Option File
fopen_made rb_plus = some made.0.file
fopen_made wb_plus = none

init_cache_file-Loadable_example :
    init_cache_file data_dd false fopen_made ≡ ok (record data_dd { cache = some made.0 })
init_cache_file-Loadable_example =
    init_cache_file-Loadable data_dd made.0 fopen_made morphed-IsMorphed made.3 made.4
      (omega (arith, made.4, made.5)) refl

-- The signature, version 2 and a block size of 1 MiB, and zeros up to the end of the index.
abbrev stored_file : File
stored_file = record {
  size = 524;
  byte = λ i.
      get_or
        (0x78 ∷ 0x6D ∷ 0x6F ∷ 0x75 ∷ 0x6E ∷ 0x74 ∷ 0xFF ∷ 0xFF ∷ 2 ∷ 0 ∷ 0 ∷ 0 ∷ 0 ∷ 0 ∷ 0x10 ∷ [])
        i 0;
  room = 2 ^ 40;
}

load_cache_file-IsCacheFile_example :
    ((c : Cache) × (load_cache_file stored_file 1 ≡ ok c)) ↔ IsCacheFile stored_file 1
load_cache_file-IsCacheFile_example = load_cache_file-IsCacheFile stored_file 1

stored_file-IsCacheFile : IsCacheFile stored_file 1
unfolding slice
stored_file-IsCacheFile = record {
  signature = refl;
  version = refl;
  whole = omega arith;
  block_size = refl;
}

abbrev ids : VdiIds
ids = record {
  file_comment = 60 ∷ [];
  header_comment = 84 ∷ [];
  image_hash_lo = 1;
  image_hash_hi = 2;
  modify_l = 3;
  modify_h = 4;
}

init_virt_vdi_header-IsVdiHeader_example :
    (g' : XmountData) × (init_virt_vdi_header data_dd ids ≡ some g')
    × VdiFits g'
    × (g'.vdi_block_map_size ≡ 4)
    × IsVdiHeader 10 1 g'.vdi_header
init_virt_vdi_header-IsVdiHeader_example =
    init_virt_vdi_header-IsVdiHeader data_dd ids 1 morphed-IsMorphed (omega arith) (omega arith)
      (omega arith) (omega arith) (omega arith) (omega arith)
