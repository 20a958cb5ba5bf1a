-- ===== src/VirtImage/Get/Content.antt =====
-- The bytes that the virtual image has: those in the cache file where it holds a copy, those of the
-- morphed image elsewhere.
use xmount.Base.{ℕ, ◌+◌, ◌*◌, ◌/◌, ◌%◌, ◌^◌, ◌≤◌, ◌<◌, ◌≡◌, Option, none, some, List}
use xmount.Base.{joined, ◌==◌, if◌then◌else◌, get_or, length, arith, block-div, block-mod}
use xmount.VirtImage.State.{
  XmountData, Cache, CacheFileHeader, vdi_cached, vdi_pos, vhd_cached, vhd_pos, CacheFileBlockIndex,
  free_block, cache_block_size, VirtImageType, vdi, vhd,
}

abbrev pub block_of : Option Cache → ℕ → CacheFileBlockIndex
block_of none b = free_block
block_of (some c) b = get_or c.blkidx b free_block

abbrev pub file_byte : Option Cache → ℕ → ℕ
file_byte none i = 0
file_byte (some c) i = c.file.byte i

-- Byte `p` of the image behind the headers, over the bytes of the morphed image.
unfoldable pub image_byte : Option Cache → (ℕ → ℕ) → ℕ → ℕ
image_byte cache byte p =
    let b = block_of cache (p / cache_block_size) in
    if b.assigned == 1 then file_byte cache (b.off_data + p % cache_block_size) else byte p

-- Byte `i` of a header, in the cache file or in memory.
abbrev pub header_byte :
    Option Cache → (CacheFileHeader → ℕ) → (CacheFileHeader → ℕ) → List ℕ → ℕ → ℕ
header_byte none cached pos bytes i = get_or bytes i 0
header_byte (some c) cached pos bytes i =
    if cached c.header == 1 then c.file.byte (pos c.header + i) else get_or bytes i 0

abbrev pub vdi_byte : XmountData → ℕ → ℕ
vdi_byte g = header_byte g.cache vdi_cached vdi_pos g.vdi_header

abbrev pub vhd_byte : XmountData → ℕ → ℕ
vhd_byte g = header_byte g.cache vhd_cached vhd_pos g.vhd_header

-- Byte `p` of the virtual image, over a morphed image of `size` bytes.
unfoldable pub virt_byte : XmountData → VirtImageType → ℕ → (ℕ → ℕ) → ℕ → ℕ
virt_byte g vdi size byte = joined g.vdi_header_size (vdi_byte g) (image_byte g.cache byte)
virt_byte g vhd size byte = joined size (image_byte g.cache byte) (vhd_byte g)
virt_byte g _ size byte = image_byte g.cache byte

pub image_byte-block :
    (cache : Option Cache) (byte : ℕ → ℕ) (b o : ℕ)
    → o < cache_block_size
    → image_byte cache byte (b * cache_block_size + o) ≡ (
        if (block_of cache b).assigned == 1
        then file_byte cache ((block_of cache b).off_data + o)
        else byte (b * cache_block_size + o))
unfolding image_byte
image_byte-block cache byte b o lt =
    rw (image_byte, block-div b cache_block_size o lt, block-mod b cache_block_size o lt)

pub image_byte-at :
    (cache : Option Cache) (byte : ℕ → ℕ) (b o i : ℕ)
    → o + i < cache_block_size
    → image_byte cache byte (b * cache_block_size + o + i) ≡ (
        if (block_of cache b).assigned == 1
        then file_byte cache ((block_of cache b).off_data + o + i)
        else byte (b * cache_block_size + o + i))
image_byte-at cache byte b o i lt =
    let e : b * cache_block_size + o + i ≡ b * cache_block_size + (o + i) = omega arith in
    let e' : (block_of cache b).off_data + o + i ≡ (block_of cache b).off_data + (o + i) =
      omega arith in
    rw (e, e') (image_byte-block cache byte b (o + i) lt)

-- An open cache for an image of `size` bytes: every block has an index entry, and an assigned block
-- lies inside the file.
pub record IsCache (c : Cache) (size : ℕ) : Type 0 where
  pub within : c.file.size ≤ c.file.room
  pub small : c.file.room < 2 ^ 63
  pub indexed : size ≤ length c.blkidx * cache_block_size
  pub inside :
      (b : ℕ)
      → (get_or c.blkidx b free_block).assigned ≡ 1
      → (get_or c.blkidx b free_block).off_data + cache_block_size ≤ c.file.size

abbrev pub CacheFits : Option Cache → ℕ → Type 0
CacheFits none size = 0 ≤ size
CacheFits (some c) size = IsCache c size

-- A cached header lies inside the file.
abbrev pub HeaderFits : Option Cache → (CacheFileHeader → ℕ) → (CacheFileHeader → ℕ) → ℕ → Type 0
HeaderFits none cached pos size = 0 ≤ size
HeaderFits (some c) cached pos size = cached c.header ≡ 1 → pos c.header + size ≤ c.file.size
