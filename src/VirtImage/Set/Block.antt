-- ===== src/VirtImage/Set/Block.antt =====
-- What one round of the block loop leaves in the cache.
pub mod Old
pub mod Fresh
pub mod Cached
use xmount.Base.{ℕ, ◌+◌, ◌*◌, ◌≤◌, ◌<◌, ◌≡◌, ◌≢◌, ◌⊎◌, some, List, length, get_or}
use xmount.VirtImage.State.{Cache, CacheFileBlockIndex, free_block, cache_block_size}
use xmount.VirtImage.State.{sizeof_cache_header, sizeof_block_index}
use xmount.VirtImage.Get.Content.{image_byte}
use xmount.VirtImage.CacheFile.Synced.{Synced}

-- The end of the header and the block index in the cache file.
abbrev pub index_end : Cache → ℕ
index_end c = sizeof_cache_header + length c.blkidx * sizeof_block_index

abbrev pub entry : Cache → ℕ → CacheFileBlockIndex
entry c b = get_or c.blkidx b free_block

-- Block `block` of `c'` has a place of its own in the cache file and is what it was in `c`, but for
-- `bytes` at `o`; everything else behind the index is as it was; and the index in the file follows.
pub record Stored (c c' : Cache) (size : ℕ) (byte : ℕ → ℕ) (block o : ℕ) (bytes : List ℕ)
    : Type 0 where
  pub same_header : c'.header ≡ c.header
  pub same_index : length c'.blkidx ≡ length c.blkidx
  pub same_room : c'.file.room ≡ c.file.room
  pub grown : c.file.size ≤ c'.file.size
  pub bounded : c'.file.size ≤ c.file.size + cache_block_size
  pub assigned : (entry c' block).assigned ≡ 1
  pub others : (b : ℕ) → b ≢ block → entry c' b ≡ entry c b
  pub place :
      (((entry c block).assigned ≡ 1) × ((entry c' block).off_data ≡ (entry c block).off_data))
      ⊎ ((entry c' block).off_data ≡ c.file.size)
  pub inside : (entry c' block).off_data + cache_block_size ≤ c'.file.size
  pub kept :
      (i : ℕ)
      → index_end c ≤ i
      → i < c.file.size
      → (i < (entry c' block).off_data) ⊎ ((entry c' block).off_data + cache_block_size ≤ i)
      → c'.file.byte i ≡ c.file.byte i
  pub written :
      (i : ℕ)
      → i < length bytes
      → c'.file.byte ((entry c' block).off_data + (o + i)) ≡ get_or bytes i 0
  pub around :
      (i : ℕ)
      → i < cache_block_size
      → (i < o) ⊎ (o + length bytes ≤ i)
      → block * cache_block_size + i < size
      → c'.file.byte ((entry c' block).off_data + i)
        ≡ image_byte (some c) byte (block * cache_block_size + i)
  pub synced : index_end c ≤ (entry c' block).off_data → Synced c → Synced c'
