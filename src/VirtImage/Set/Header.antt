-- ===== src/VirtImage/Set/Header.antt =====
-- What a write to the header or footer of the virtual image leaves in the cache.
pub mod Append
pub mod Write
pub mod Tests
use xmount.Base.{
  ℕ, ◌+◌, ◌*◌, ◌/◌, ◌%◌, ◌≤◌, ◌<◌, ◌≡◌, ◌⊎◌, refl, ap, sym, ◌∙◌, inl, inr, some, arith, length,
  get_or, Bool-cases, ◌==◌, if◌then◌else◌,
}
use xmount.VirtImage.State.{Cache, cache_block_size, sizeof_cache_header, free_block}
use xmount.VirtImage.Get.Content.{image_byte, IsCache}
use xmount.VirtImage.Set.Block.{entry, index_end}
use xmount.VirtImage.Set.Invariant.{Writable, Reserved}

-- `n` bytes at `pos`, behind the index and apart from the blocks, are `content`; everything else
-- behind the header of the cache file is as it was.
pub record HeaderStored (c c' : Cache) (pos n : ℕ) (content : ℕ → ℕ) : Type 0 where
  pub same_blkidx : c'.blkidx ≡ c.blkidx
  pub same_room : c'.file.room ≡ c.file.room
  pub grown : c.file.size ≤ c'.file.size
  pub bounded : c'.file.size ≤ c'.file.room
  pub reserved : Reserved c' pos n
  pub kept :
      (i : ℕ)
      → sizeof_cache_header ≤ i
      → i < c.file.size
      → (i < pos) ⊎ (pos + n ≤ i)
      → c'.file.byte i ≡ c.file.byte i
  pub placed : (i : ℕ) → i < n → c'.file.byte (pos + i) ≡ content i

module _ {c c' : Cache} {pos n size : ℕ} {content : ℕ → ℕ} (s : HeaderStored c c' pos n content)
    (w : Writable c size) where
  same_entry : (b : ℕ) → entry c' b ≡ entry c b
  same_entry b = ap (λ x. get_or x b free_block) s.same_blkidx

  same_length : length c'.blkidx ≡ length c.blkidx
  same_length = ap length s.same_blkidx

  -- The cache is still writable.
  pub HeaderStored-Writable : Writable c' size
  HeaderStored-Writable = record {
    cached = record {
      within = s.bounded;
      small = omega (arith, s.same_room, w.cached.small);
      indexed = omega (arith, w.cached.indexed, same_length);
      inside = λ b here.
          rw (same_entry b) (omega (arith, w.cached.inside b (rw (same_entry b) at here), s.grown));
    };
    index = omega (arith, w.index, same_length, s.grown);
    above = λ b here.
        rw (same_entry b) (omega (arith, w.above b (rw (same_entry b) at here), same_length));
    apart = λ a b ne here there.
        rw (same_entry a, same_entry b)
          (w.apart a b ne (rw (same_entry a) at here) (rw (same_entry b) at there));
  }

  -- A byte of a block is what it was.
  pub block_kept :
      (b i : ℕ)
      → (entry c b).assigned ≡ 1
      → i < cache_block_size
      → c'.file.byte ((entry c b).off_data + i) ≡ c.file.byte ((entry c b).off_data + i)
  block_kept b i here lt =
      let apart = s.reserved.apart b (rw (same_entry b) here) in
      s.kept ((entry c b).off_data + i) (omega (arith, w.above b here))
        (omega (arith, w.cached.inside b here)) (side (rw (same_entry b) at apart))
    where
      side :
          (pos + n ≤ (entry c b).off_data) ⊎ ((entry c b).off_data + cache_block_size ≤ pos)
          → ((entry c b).off_data + i < pos) ⊎ (pos + n ≤ (entry c b).off_data + i)
      side (inl before) = inr (omega arith)
      side (inr behind) = inl (omega arith)

  -- The image is what it was.
  pub HeaderStored-image :
      (byte : ℕ → ℕ) (q : ℕ) → image_byte (some c') byte q ≡ image_byte (some c) byte q
  unfolding image_byte
  HeaderStored-image byte q =
      let b : ℕ = q / cache_block_size in
      elim (Bool-cases ((entry c b).assigned == 1)) [
        | inl here ↦
            rw (same_entry b, here)
              (block_kept b (q % cache_block_size) (ground arith) (omega arith))
        | inr free ↦ rw (same_entry b, free) refl
      ]
