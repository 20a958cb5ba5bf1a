-- ===== src/VirtImage/Set/Header/Tests.antt =====
-- A header of three bytes and a footer that are not cached yet.
use xmount.Base.{
  ℕ, zero, suc, ◌^◌, ◌≡◌, refl, none, some, [], ◌∷◌, arith, List, ok, replicate, get_or,
}
use xmount.VirtImage.State.{
  XmountData, Cache, CacheFileHeader, MorphingFunctions, dd, free_block, vdi_cached, vdi_pos,
  vhd_cached, vhd_pos,
}
use xmount.VirtImage.Set.Store.{set_vdi_file_header_data, set_vhd_file_header_data}
use xmount.VirtImage.Set.Invariant.{Writable}
use xmount.VirtImage.CacheFile.Bytes.{HeaderFields}
use xmount.VirtImage.Set.Header.Write.{
  HeaderWritten, set_vdi_file_header_data_lem, set_vhd_file_header_data_lem,
}

abbrev pub header : CacheFileHeader
header = record {
  file_signature = 0xFFFF746E756F6D78;
  cache_file_version = 2;
  block_size = 1048576;
  block_count = 1;
  p_block_index = 512;
  vdi_file_header_cached = 0;
  p_vdi_file_header = 0;
  vmdk_file_cached = 0;
  vmdk_file_size = 0;
  p_vmdk_file = 0;
  vhd_file_header_cached = 0;
  p_vhd_file_header = 0;
  header_padding = replicate 432 0;
}

abbrev pub header-HeaderFields : HeaderFields header
header-HeaderFields = record {
  file_signature = omega arith;
  cache_file_version = omega arith;
  block_size = omega arith;
  block_count = omega arith;
  p_block_index = omega arith;
  vdi_file_header_cached = omega arith;
  p_vdi_file_header = omega arith;
  vmdk_file_cached = omega arith;
  vmdk_file_size = omega arith;
  p_vmdk_file = omega arith;
  vhd_file_header_cached = omega arith;
  p_vhd_file_header = omega arith;
  header_padding = refl;
}

abbrev cache : Cache
cache = record {
  file = record { size = 524; byte = λ i. 0; room = 2 ^ 40 };
  header = header;
  blkidx = free_block ∷ [];
}

none_assigned : (b : ℕ) → (get_or cache.blkidx b free_block).assigned ≡ 0
none_assigned zero = refl
none_assigned (suc b) = refl

cache-Writable : Writable cache 10
cache-Writable = record {
  cached = record {
    within = omega arith;
    small = omega arith;
    indexed = omega arith;
    inside = λ b here. absurd (omega (arith, none_assigned b));
  };
  index = omega arith;
  above = λ b here. absurd (omega (arith, none_assigned b));
  apart = λ a b ne here there. absurd (omega (arith, none_assigned a));
}

abbrev morphed : MorphingFunctions
morphed = record { size = some 10; read = λ o n. none }

abbrev mounted : XmountData
mounted = record {
  morphing = morphed;
  cache = some cache;
  virt_image_type = dd;
  image_size = 0;
  vdi_header_size = 3;
  vdi_header = 1 ∷ 2 ∷ 3 ∷ [];
  vdi_block_map_size = 0;
  vhd_header = replicate 512 7;
}

abbrev pub bytes : List ℕ
bytes = 90 ∷ 91 ∷ 92 ∷ []

-- Only the two bytes in the header are taken.
set_vdi_file_header_data_lem_example :
    (c' : Cache) × (set_vdi_file_header_data mounted cache 1 bytes ≡ ok (c', 2))
    × HeaderWritten cache c' 10 vdi_cached vdi_pos (1 ∷ 2 ∷ 3 ∷ []) 1 (90 ∷ 91 ∷ [])
set_vdi_file_header_data_lem_example =
    set_vdi_file_header_data_lem mounted cache 1 bytes cache-Writable header-HeaderFields
      (λ e. absurd (omega (arith, e))) refl (omega arith) (omega arith) (omega arith) (omega arith)

set_vhd_file_header_data_lem_example :
    (c' : Cache) × (set_vhd_file_header_data mounted cache 509 bytes ≡ ok (c', 3))
    × HeaderWritten cache c' 10 vhd_cached vhd_pos (replicate 512 7) 509 bytes
set_vhd_file_header_data_lem_example =
    set_vhd_file_header_data_lem mounted cache 509 bytes cache-Writable header-HeaderFields
      (λ e. absurd (omega (arith, e))) refl (omega arith) (omega arith) (omega arith)
