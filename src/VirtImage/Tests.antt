-- ===== src/VirtImage/Tests.antt =====
-- Runs over an image of ten bytes with an empty cache.
use xmount.Base.{
  ℕ, zero, suc, ◌+◌, ◌*◌, ◌^◌, ◌≡◌, refl, inl, inr, none, some, List, [], ◌∷◌, arith, slice, ok,
  err, get_or, replicate,
}
use xmount.Fuse.{FuseState, fuse_read, fuse_write}
use xmount.Fuse.Image.{fuse_read-fuse_write}
use xmount.VirtImage.State.{
  XmountData, Cache, CacheFileHeader, free_block, cache_block_size, dd, MorphingFunctions,
}
use xmount.VirtImage.Morphed.{IsMorphed}
use xmount.VirtImage.Get.{read_image, get_virt_image_data}
use xmount.VirtImage.Get.Content.{image_byte, virt_byte, IsCache}
use xmount.VirtImage.Get.Blocks.{Mounted, read_image_lem}
use xmount.VirtImage.Get.Whole.{IsMounted, VhdFits, get_virt_image_data_lem}
use xmount.VirtImage.Set.{write_block, write_image}
use xmount.VirtImage.Set.Store.{set_virt_image_data}
use xmount.VirtImage.Set.Patch.{patched}
use xmount.VirtImage.Set.Block.{Stored}
use xmount.VirtImage.Set.Block.Cached.{write_block_lem}
use xmount.VirtImage.Set.Invariant.{Writable}
use xmount.VirtImage.Set.Loop.{write_image_lem}
use xmount.VirtImage.Set.Written.{Written}
use xmount.VirtImage.Set.AtEnd.{write_image_at_end}
use xmount.VirtImage.Set.Plain.{Request, get_virt_image_data-set_virt_image_data}
use xmount.VirtImage.Vhd.{init_virt_vhd_header, geometry, total_sectors}
use xmount.VirtImage.Vhd.Footer.{IsFooter, init_virt_vhd_header-IsFooter}
use xmount.VirtImage.Vhd.Sectors.{Fits, geometry-total_sectors}

abbrev image : ℕ → ℕ
image i = i + 1

abbrev morphed : MorphingFunctions
morphed = record { size = some 10; read = λ o n. some (slice image o n) }

abbrev morphed-IsMorphed : IsMorphed morphed 10 image
morphed-IsMorphed = record { sized = refl; reads = λ o n lt le. refl }

abbrev header : CacheFileHeader
header = record {
  file_signature = 0xFFFF746E756F6D78;
  cache_file_version = 2;
  block_size = 1048576;
  block_count = 1;
  p_block_index = 512;
  vdi_file_header_cached = 0;
  p_vdi_file_header = 0;
  vmdk_file_cached = 0;
  vmdk_file_size = 0;
  p_vmdk_file = 0;
  vhd_file_header_cached = 0;
  p_vhd_file_header = 0;
  header_padding = replicate 432 0;
}

abbrev cache : Cache
cache = record {
  file = record { size = 524; byte = λ i. 0; room = 2 ^ 40 };
  header = header;
  blkidx = free_block ∷ [];
}

abbrev data_dd : XmountData
data_dd = record {
  morphing = morphed;
  cache = some cache;
  virt_image_type = dd;
  image_size = 0;
  vdi_header_size = 0;
  vdi_header = [];
  vdi_block_map_size = 0;
  vhd_header = [];
}

abbrev none_assigned : (b : ℕ) → (get_or cache.blkidx b free_block).assigned ≡ 0
none_assigned zero = refl
none_assigned (suc b) = refl

abbrev cache-IsCache : IsCache cache 10
cache-IsCache = record {
  within = omega arith;
  small = omega arith;
  indexed = omega arith;
  inside = λ b here. absurd (omega (arith, none_assigned b));
}

abbrev cache-Writable : Writable cache 10
cache-Writable = record {
  cached = cache-IsCache;
  index = omega arith;
  above = λ b here. absurd (omega (arith, none_assigned b));
  apart = λ a b ne here there. absurd (omega (arith, none_assigned a));
}

abbrev data-Mounted : Mounted data_dd 10 image
data-Mounted = record { morphed = morphed-IsMorphed; small = omega arith; cached = cache-IsCache }

abbrev data-IsMounted : IsMounted data_dd 10 image
data-IsMounted = record {
  mounted = data-Mounted;
  typed = omega arith;
  headers_small = omega arith;
  known = inl refl;
}

abbrev bytes : List ℕ
bytes = 100 ∷ 101 ∷ []

abbrev request : Request data_dd cache 10 image 1 3 2
request = record {
  mounted = data-IsMounted;
  opened = refl;
  is_plain = refl;
  writable = cache-Writable;
  starts = omega arith;
  short = omega arith;
  fits = omega arith;
  room = omega arith;
  stops = inl (omega arith);
}

get_virt_image_data_lem_example :
    get_virt_image_data data_dd 7 5 ≡ ok (8 ∷ 9 ∷ 10 ∷ [], record data_dd { image_size = 10 })
unfolding slice virt_byte image_byte
get_virt_image_data_lem_example =
    get_virt_image_data_lem data_dd 7 5 data-IsMounted (omega arith) (omega arith)

get_virt_image_data-set_virt_image_data_example :
    (c' : Cache) × (set_virt_image_data data_dd 3 bytes
      ≡ ok (record data_dd { image_size = 10; cache = some c' }, 2))
    × Writable c' 10
    × (get_virt_image_data (record data_dd { image_size = 10; cache = some c' }) 2 4
        ≡ ok (3 ∷ 100 ∷ 101 ∷ 6 ∷ [], record data_dd { image_size = 10; cache = some c' }))
unfolding slice patched virt_byte image_byte
get_virt_image_data-set_virt_image_data_example =
    get_virt_image_data-set_virt_image_data bytes request 2 4 (omega arith) (omega arith)

read_image_lem_example : read_image data_dd 2 3 ≡ ok (3 ∷ 4 ∷ 5 ∷ [])
unfolding slice image_byte
read_image_lem_example = read_image_lem data-Mounted 2 3 (omega arith)

write_image_lem_example :
    (c' : Cache) × (write_image data_dd 10 cache 3 bytes ≡ ok c')
    × Written cache c' 10 image 1 3 bytes
write_image_lem_example =
    write_image_lem data_dd morphed-IsMorphed (omega arith) 1 cache 3 bytes (omega arith)
      (omega arith) cache-Writable (omega arith) (inl (omega arith))

write_block_lem_example :
    (c' : Cache) × (write_block data_dd 10 cache 0 3 3 bytes ≡ ok c')
    × Stored cache c' 10 image 0 3 bytes
write_block_lem_example =
    write_block_lem data_dd cache 0 3 bytes morphed-IsMorphed (omega arith) cache-IsCache
      (omega arith) (omega arith) (omega arith) (omega arith) (omega arith)
      (inr (inr (omega arith)))

init_virt_vhd_header-IsFooter_example :
    (footer : List ℕ) × (init_virt_vhd_header data_dd 1700000000 1 2
      ≡ some (record data_dd { vhd_header = footer }))
    × VhdFits (record data_dd { vhd_header = footer })
    × IsFooter 10 1700000000 (geometry (total_sectors 10)) footer
init_virt_vhd_header-IsFooter_example =
    init_virt_vhd_header-IsFooter data_dd 1700000000 1 2 morphed-IsMorphed (omega arith)
      (λ here. absurd (omega arith))

geometry-total_sectors_example : Fits (total_sectors 52428800) (geometry (total_sectors 52428800))
geometry-total_sectors_example = geometry-total_sectors 52428800

abbrev ten_bytes : List ℕ
ten_bytes = replicate 10 100

write_image_at_end_example :
    (c' : Cache) × (write_image data_dd 10 cache (0 * cache_block_size) ten_bytes ≡ err c')
write_image_at_end_example =
    write_image_at_end data_dd morphed-IsMorphed (omega arith) cache 0 ten_bytes cache-IsCache
      (λ here. absurd (omega (arith, none_assigned 0))) (omega arith) (omega arith) (omega arith)
      (omega arith)

-- The same image with its path.
abbrev files : FuseState
files = record {
  image = data_dd;
  virtual_image_path = 1 ∷ [];
  info_path = 2 ∷ [];
  info_file = [];
  virtual_vmdk_path = 3 ∷ [];
  vmdk_file = record { content = []; size = 0 };
  vmdk_lockfile_name = none;
  vmdk_lockfile = record { content = []; size = 0 };
}

fuse_read-fuse_write_example :
    (s' : FuseState) × (fuse_write (λ i. 0) files (1 ∷ []) bytes 3 ≡ ok (s', 2))
    × (fuse_read s' (1 ∷ []) 4 2 ≡ ok (3 ∷ 100 ∷ 101 ∷ 6 ∷ [], s'))
unfolding slice patched virt_byte image_byte
fuse_read-fuse_write_example =
    fuse_read-fuse_write (λ i. 0) files (1 ∷ []) bytes 2 4 refl request (omega arith) (omega arith)
