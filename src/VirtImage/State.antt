-- ===== src/VirtImage/State.antt =====
-- The part of `glob_xmount` that the virtual image depends on (src/xmount.h).
use xmount.Base.{ℕ, Option, List}
use xmount.Stdio.{File}

-- `te_VirtImageType`
pub data VirtImageType : Type 0 where
  dd dmg vdi vmdk vmdks vhd : VirtImageType

-- `ts_CacheFileBlockIndex`
pub record CacheFileBlockIndex : Type 0 where
  pub assigned : ℕ
  pub off_data : ℕ

-- `ts_CacheFileHeader`
pub record CacheFileHeader : Type 0 where
  pub file_signature : ℕ
  pub cache_file_version : ℕ
  pub block_size : ℕ
  pub block_count : ℕ
  pub p_block_index : ℕ
  pub vdi_file_header_cached : ℕ
  pub p_vdi_file_header : ℕ
  pub vmdk_file_cached : ℕ
  pub vmdk_file_size : ℕ
  pub p_vmdk_file : ℕ
  pub vhd_file_header_cached : ℕ
  pub p_vhd_file_header : ℕ
  pub header_padding : List ℕ

-- Where the header of the virtual image is cached, by the kind of header.
abbrev pub vdi_cached : CacheFileHeader → ℕ
vdi_cached h = h.vdi_file_header_cached

abbrev pub vdi_pos : CacheFileHeader → ℕ
vdi_pos h = h.p_vdi_file_header

abbrev pub vhd_cached : CacheFileHeader → ℕ
vhd_cached h = h.vhd_file_header_cached

abbrev pub vhd_pos : CacheFileHeader → ℕ
vhd_pos h = h.p_vhd_file_header

-- `ts_CacheData`, when `h_cache_file` is open.
pub record Cache : Type 0 where
  pub file : File
  pub header : CacheFileHeader
  pub blkidx : List CacheFileBlockIndex

-- The functions of the initialised morphing library, applied to its handle. `none` is a return value
-- other than 0; a read gives the bytes that it stored in the buffer.
pub record MorphingFunctions : Type 0 where
  pub size : Option ℕ
  pub read : ℕ → ℕ → Option (List ℕ)

-- `ts_XmountData`
pub record XmountData : Type 0 where
  pub morphing : MorphingFunctions
  pub cache : Option Cache
  pub virt_image_type : VirtImageType
  pub image_size : ℕ
  pub vdi_header_size : ℕ
  pub vdi_header : List ℕ
  pub vdi_block_map_size : ℕ
  pub vhd_header : List ℕ

-- `CACHE_BLOCK_SIZE`
abbrev pub cache_block_size : ℕ
cache_block_size = 1048576

-- `sizeof` of the packed structures.
abbrev pub sizeof_cache_header : ℕ
sizeof_cache_header = 512

abbrev pub sizeof_block_index : ℕ
sizeof_block_index = 12

abbrev pub sizeof_vdi_header : ℕ
sizeof_vdi_header = 512

abbrev pub sizeof_vhd_header : ℕ
sizeof_vhd_header = 512

-- The negated error codes that reads and writes return.
pub data Errno : Type 0 where
  eio enoent : Errno

abbrev pub free_block : CacheFileBlockIndex
free_block = record { assigned = 0; off_data = 0 }
