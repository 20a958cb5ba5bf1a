-- ===== src/VirtImage/CacheFile/Synced.antt =====
-- The cache file holds the header and the block index as they are in memory.
use native.Mathlib.Decide.{ℕ_discrete}
use xmount.Base.{ℕ, ◌+◌, ◌*◌, ◌≤◌, ◌<◌, ◌≡◌, ◌≢◌, ◌⊎◌, inl, ap, sym, ◌∙◌, arith, length, get_or}
use xmount.VirtImage.State.{
  Cache, free_block, cache_block_size, sizeof_cache_header, sizeof_block_index,
}
use xmount.VirtImage.Set.{index_bytes}
use xmount.VirtImage.Set.Store.{header_bytes}
use xmount.VirtImage.CacheFile.{cache_file_signature, cur_cache_file_version}
use xmount.VirtImage.CacheFile.Bytes.{HeaderFields, IndexFields}

pub record Synced (c : Cache) : Type 0 where
  pub header :
      (i : ℕ) → i < sizeof_cache_header → c.file.byte i ≡ get_or (header_bytes c.header) i 0
  pub index :
      (b k : ℕ)
      → b < length c.blkidx
      → k < sizeof_block_index
      → c.file.byte (sizeof_cache_header + b * sizeof_block_index + k)
        ≡ get_or (index_bytes (get_or c.blkidx b free_block)) k 0

-- A cache whose file `InitCacheFile` can load again.
pub record Loadable (c : Cache) : Type 0 where
  pub fields : HeaderFields c.header
  pub signature : c.header.file_signature ≡ cache_file_signature
  pub version : c.header.cache_file_version ≡ cur_cache_file_version
  pub block_size : c.header.block_size ≡ cache_block_size
  pub index_at : c.header.p_block_index ≡ sizeof_cache_header
  pub entries : (b : ℕ) → b < length c.blkidx → IndexFields (get_or c.blkidx b free_block)
  pub synced : Synced c

-- The header and the index are as before but for the entry of one block, which is in the file too.
pub Synced-entry :
    (c c' : Cache) (block : ℕ)
    → c'.header ≡ c.header
    → length c'.blkidx ≡ length c.blkidx
    → ((b : ℕ) → b ≢ block → get_or c'.blkidx b free_block ≡ get_or c.blkidx b free_block)
    → ((i : ℕ)
        → i < sizeof_cache_header + length c.blkidx * sizeof_block_index
        → (i < sizeof_cache_header + block * sizeof_block_index)
          ⊎ (sizeof_cache_header + block * sizeof_block_index + sizeof_block_index ≤ i)
        → c'.file.byte i ≡ c.file.byte i)
    → ((k : ℕ)
        → k < sizeof_block_index
        → block < length c.blkidx
        → c'.file.byte (sizeof_cache_header + block * sizeof_block_index + k)
          ≡ get_or (index_bytes (get_or c'.blkidx block free_block)) k 0)
    → Synced c
    → Synced c'
Synced-entry c c' block same_header same_index others kept new s = record {
  header = λ i lt.
      kept i (omega arith) (inl (omega arith))
      ∙ s.header i lt
      ∙ ap (λ h. get_or (header_bytes h) i 0) (sym same_header);
  index = λ b k lt lt'. elim (ℕ_discrete b block) [
    | yes e ↦ rw e (new k lt' (omega (arith, same_index, e)))
    | no ne ↦
        kept (sizeof_cache_header + b * sizeof_block_index + k) (omega (arith, same_index))
          (apart b k ne lt')
        ∙ s.index b k (omega (arith, same_index)) lt'
        ∙ ap (λ x. get_or (index_bytes x) k 0) (sym (others b ne))
  ];
}
  where
    apart :
        (b k : ℕ)
        → b ≢ block
        → k < sizeof_block_index
        → (sizeof_cache_header + b * sizeof_block_index + k
            < sizeof_cache_header + block * sizeof_block_index)
          ⊎ (sizeof_cache_header + block * sizeof_block_index + sizeof_block_index
              ≤ sizeof_cache_header + b * sizeof_block_index + k)
    apart b k ne lt = grind arith
