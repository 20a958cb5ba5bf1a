-- ===== src/VirtImage/CacheFile.antt =====
-- `InitCacheFile` of src/xmount.c: a new cache file is laid out, an existing one is loaded.
pub mod Bytes
pub mod Synced
pub mod New
pub mod Load
pub mod Checked
mod Tests
use xmount.Base.{
  ℕ, zero, suc, ◌+◌, ◌*◌, ◌/◌, ◌%◌, ◌^◌, Bool, true, false, Option, none, some, List, [], ◌∷◌, ◌++◌,
}
use xmount.Base.{
  ltb, leb, ◌==◌, if◌then◌else◌, u32, add32, length, take, drop, replicate, Result, ok, err, ◌>>=◌,
}
use xmount.Stdio.{File, fread, fwrite}
use xmount.VirtImage.State.{
  XmountData, Cache, CacheFileHeader, CacheFileBlockIndex, free_block, cache_block_size,
  sizeof_cache_header, sizeof_block_index,
}
use xmount.VirtImage.Morphed.{get_morphed_image_size}
use xmount.VirtImage.Set.Store.{header_bytes}

-- The modes "rb+" and "wb+" of `fopen`; the latter creates an empty file.
pub data Mode : Type 0 where
  rb_plus wb_plus : Mode

-- Why `InitCacheFile` returns FALSE, by the message in the log.
pub data CacheError : Type 0 where
  cannot_open no_image_size not_cache_file old_version unknown_version corrupt : CacheError
  other_block_size write_failed : CacheError

-- `CACHE_FILE_SIGNATURE` and `CUR_CACHE_FILE_VERSION`
abbrev pub cache_file_signature : ℕ
cache_file_signature = 0xFFFF746E756F6D78

abbrev pub cur_cache_file_version : ℕ
cur_cache_file_version = 2

-- The number of blocks, in the 32 bits of its type.
unfoldable pub needed_blocks : ℕ → ℕ
needed_blocks image_size =
    let blocks : ℕ = u32 (image_size / cache_block_size) in
    if image_size % cache_block_size == 0 then blocks else add32 blocks 1

-- An unsigned number in the byte order of the host (little endian).
unfoldable pub le_value : List ℕ → ℕ
le_value [] = 0
le_value (b ∷ bytes) = b + le_value bytes * 256

-- The packed `ts_CacheFileHeader` in memory.
unfoldable pub parse_header : List ℕ → CacheFileHeader
parse_header buf = record {
  file_signature = le_value (take 8 buf);
  cache_file_version = le_value (take 4 (drop 8 buf));
  block_size = le_value (take 8 (drop 12 buf));
  block_count = le_value (take 8 (drop 20 buf));
  p_block_index = le_value (take 8 (drop 28 buf));
  vdi_file_header_cached = le_value (take 4 (drop 36 buf));
  p_vdi_file_header = le_value (take 8 (drop 40 buf));
  vmdk_file_cached = le_value (take 4 (drop 48 buf));
  vmdk_file_size = le_value (take 8 (drop 52 buf));
  p_vmdk_file = le_value (take 8 (drop 60 buf));
  vhd_file_header_cached = le_value (take 4 (drop 68 buf));
  p_vhd_file_header = le_value (take 8 (drop 72 buf));
  header_padding = take 432 (drop 80 buf);
}

-- Up to `n` elements of the block index: those that lie in memory whole.
unfoldable pub parse_index : ℕ → List ℕ → List CacheFileBlockIndex
parse_index zero buf = []
parse_index (suc n) buf =
    let rest = parse_index n (drop 12 buf) in
    if ltb (length buf) sizeof_block_index
    then []
    else record { assigned = le_value (take 4 buf); off_data = le_value (take 8 (drop 4 buf)) }
      ∷ rest

abbrev pub or_else {ℓ} : {A : Type ℓ} → Option A → CacheError → Result CacheError A
or_else none e = err e
or_else (some a) e = ok a

abbrev pub guard : Bool → CacheError → Result CacheError Bool
guard true e = ok true
guard false e = err e

-- The `switch` on the version.
unfoldable pub check_version : ℕ → Result CacheError Bool
check_version version =
    if version == 1
    then err old_version
    else if version == cur_cache_file_version
    then ok true
    else err unknown_version

-- An existing cache file.
unfoldable pub load_cache_file : File → ℕ → Result CacheError Cache
load_cache_file f blocks = do
  signature ← or_else (fread f 0 8) not_cache_file
  _ ← guard (le_value signature == cache_file_signature) not_cache_file
  version ← or_else (fread f 8 4) not_cache_file
  _ ← check_version (le_value version)
  buf ← or_else (fread f 0 (sizeof_cache_header + blocks * sizeof_block_index)) corrupt
  let header : CacheFileHeader = parse_header buf
  _ ← guard (header.block_size == cache_block_size) other_block_size
  ok (record {
    file = f;
    header = header;
    blkidx = parse_index blocks (drop header.p_block_index buf);
  })

unfoldable pub new_header : ℕ → CacheFileHeader
new_header blocks = record {
  file_signature = cache_file_signature;
  cache_file_version = cur_cache_file_version;
  block_size = cache_block_size;
  block_count = blocks;
  p_block_index = sizeof_cache_header;
  vdi_file_header_cached = 0;
  p_vdi_file_header = 0;
  vmdk_file_cached = 0;
  vmdk_file_size = 0;
  p_vmdk_file = 0;
  vhd_file_header_cached = 0;
  p_vhd_file_header = 0;
  header_padding = replicate 432 0;
}

-- An empty cache file.
unfoldable pub create_cache_file : File → ℕ → Result CacheError Cache
create_cache_file f blocks = do
  let header : CacheFileHeader = new_header blocks
  f' ←
      or_else (fwrite f 0 (header_bytes header ++ replicate (blocks * sizeof_block_index) 0))
        write_failed
  ok (record { file = f'; header = header; blkidx = replicate blocks free_block })

-- `rb+` first, since `wb+` would empty an existing file.
unfoldable pub open_cache_file : Bool → (Mode → Option File) → Result CacheError File
open_cache_file true fopen = or_else (fopen wb_plus) cannot_open
open_cache_file false fopen = elim (fopen rb_plus) [
  | some f ↦ ok f
  | none ↦ or_else (fopen wb_plus) cannot_open
]

-- `InitCacheFile`, over what `FOPEN` makes of the name of the cache file.
unfoldable pub init_cache_file :
    XmountData → Bool → (Mode → Option File) → Result CacheError XmountData
init_cache_file g overwrite_cache fopen = do
  f ← open_cache_file overwrite_cache fopen
  image_size ← or_else (get_morphed_image_size g) no_image_size
  let blocks : ℕ = needed_blocks image_size
  c ← (if ltb 0 f.size then load_cache_file f blocks else create_cache_file f blocks)
  ok (record g { cache = some c })
