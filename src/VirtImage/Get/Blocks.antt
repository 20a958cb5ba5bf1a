-- ===== src/VirtImage/Get/Blocks.antt =====
-- The block loop of `GetVirtImageData` returns the bytes of the image.
use xmount.Base.{
  ℕ, zero, suc, ◌+◌, ◌-◌, ◌*◌, ◌/◌, ◌%◌, ◌^◌, ◌≤◌, ◌<◌, ◌≡◌, refl, ap, sym, ◌∙◌, ◌⊎◌, inl, inr,
  Option, none, some,
}
use xmount.Base.{
  ltb, ◌==◌, if◌then◌else◌, get_or, get_elem?-eq-get_or, arith, tests, ltb→lt, ltb→le, Bool-cases,
}
use xmount.Base.{slice, slice_ext, slice_split, add64, u32, ok, block_bounds}
use xmount.Stdio.{File, fread-some}
use xmount.VirtImage.State.{XmountData, Cache, free_block, cache_block_size}
use xmount.VirtImage.Morphed.{IsMorphed, get_morphed_image_data-inside}
use xmount.VirtImage.Get.{
  read_cache_file, read_morphed, read_block_from, read_block, read_blocks, read_image,
}
use xmount.VirtImage.Get.Content.{image_byte, image_byte-at, CacheFits}

pub read_cache_file_lem :
    (f : File) (pos n : ℕ)
    → 0 < n
    → pos + n ≤ f.size
    → read_cache_file f pos n ≡ ok (slice f.byte pos n)
unfolding read_cache_file
read_cache_file_lem f pos n p h = rw (read_cache_file, fread-some f pos n p h)

-- A morphed image of `size` bytes under a cache that fits it.
pub record Mounted (g : XmountData) (size : ℕ) (byte : ℕ → ℕ) : Type 0 where
  pub morphed : IsMorphed g.morphing size byte
  pub small : size < 2 ^ 51
  pub cached : CacheFits g.cache size

module _ {g : XmountData} {size : ℕ} {byte : ℕ → ℕ} (m : Mounted g size byte) where
  read_morphed_lem : (o n : ℕ) → 0 < n → o + n ≤ size → read_morphed g o n ≡ ok (slice byte o n)
  unfolding read_morphed
  read_morphed_lem o n p le = ground (
    arith,
    get_morphed_image_data-inside g o n m.morphed (omega (arith, m.small)) (omega arith) le,
  )

  read_block_from_lem :
      (cache : Option Cache) (b o n : ℕ)
      → CacheFits cache size
      → 0 < n
      → o + n ≤ cache_block_size
      → b * cache_block_size + o + n ≤ size
      → read_block_from cache g b o (b * cache_block_size + o) n
        ≡ ok (slice (image_byte cache byte) (b * cache_block_size + o) n)
  unfolding read_block_from
  read_block_from_lem none b o n fits p short le =
      read_morphed_lem (b * cache_block_size + o) n p le
      ∙ ap ok (
          slice_ext byte (image_byte none byte) (b * cache_block_size + o)
            (b * cache_block_size + o) n
            (λ i lt. sym (image_byte-at none byte b o i (omega arith))))
  read_block_from_lem (some c) b o n fits p short le =
      let entry = get_elem?-eq-get_or c.blkidx b free_block (omega (arith, fits.indexed)) in
      let e = get_or c.blkidx b free_block in
      elim (Bool-cases (e.assigned == 1)) [
        | inl here ↦
            let inside : e.off_data + cache_block_size ≤ c.file.size =
              fits.inside b (ground arith) in
            let pos : add64 e.off_data o ≡ e.off_data + o =
              omega (arith, inside, fits.within, fits.small) in
            rw (entry, read_block_from, here, pos)
              (read_cache_file_lem c.file (e.off_data + o) n p (omega (arith, inside))
                ∙ ap ok (
                    slice_ext c.file.byte (image_byte (some c) byte) (e.off_data + o)
                      (b * cache_block_size + o) n
                      (λ i lt.
                        sym (image_byte-at (some c) byte b o i (omega arith) ∙ ground arith))))
        | inr not_here ↦
            rw (entry, read_block_from, not_here)
              (read_morphed_lem (b * cache_block_size + o) n p le
                ∙ ap ok (
                    slice_ext byte (image_byte (some c) byte) (b * cache_block_size + o)
                      (b * cache_block_size + o) n
                      (λ i lt.
                        sym (image_byte-at (some c) byte b o i (omega arith) ∙ ground arith))))
      ]

  -- One round of `cur` bytes, given that the later rounds read the rest.
  read_blocks-suc :
      (fuel b o n cur : ℕ)
      → (if ltb cache_block_size (add64 o n) then cache_block_size - o else n) ≡ cur
      → 0 < n
      → 0 < cur
      → o + cur ≤ cache_block_size
      → cur ≤ n
      → b * cache_block_size + o + n ≤ size
      → (n - cur ≡ 0) ⊎ (o + cur ≡ cache_block_size)
      → ((p : ℕ)
          → p ≡ b * cache_block_size + o + cur
          → (p ≡ (b + 1) * cache_block_size + 0) ⊎ (n - cur ≡ 0)
          → read_blocks g fuel (b + 1) 0 (n - cur) p
            ≡ ok (slice (image_byte g.cache byte) p (n - cur)))
      → read_blocks g (suc fuel) b o n (b * cache_block_size + o)
        ≡ ok (slice (image_byte g.cache byte) (b * cache_block_size + o) n)
  unfolding read_blocks read_block
  read_blocks-suc fuel b o n cur e more some_bytes short le inside at_end ih =
      let next : u32 (b + 1) ≡ b + 1 = omega (arith, m.small) in
      let p = b * cache_block_size + o in
      ground (
        arith,
        next,
        read_block_from_lem g.cache b o cur m.cached some_bytes short (omega arith),
        ih (p + cur) refl (at at_end),
        slice_split (image_byte g.cache byte) p (p + cur) cur n le (inr refl),
      )
    where
      at :
          (n - cur ≡ 0) ⊎ (o + cur ≡ cache_block_size)
          → (b * cache_block_size + o + cur ≡ (b + 1) * cache_block_size + 0) ⊎ (n - cur ≡ 0)
      at (inl z) = inr z
      at (inr z) = inl (omega arith)

  pub read_blocks_lem :
      (fuel b o n p : ℕ)
      → o < cache_block_size
      → n ≤ fuel
      → (p ≡ b * cache_block_size + o) ⊎ (n ≡ 0)
      → p + n ≤ size
      → read_blocks g fuel b o n p ≡ ok (slice (image_byte g.cache byte) p n)
  unfolding read_blocks slice
  read_blocks_lem zero b o n p lt enough at inside = ground arith
  read_blocks_lem (suc fuel) b o zero p lt enough at inside = refl
  read_blocks_lem (suc fuel) b o (suc k) p lt enough (inr z) inside = absurd (omega arith)
  read_blocks_lem (suc fuel) b o (suc k) p lt enough (inl e) inside =
      rw e (elim (Bool-cases (ltb cache_block_size (add64 o (suc k)))) [
        | inl beyond ↦
            read_blocks-suc fuel b o (suc k) (cache_block_size - o) (ground arith) (omega arith)
              (omega arith) (omega arith) (omega (tests, ltb→lt _ _ beyond)) (omega arith)
              (inr (omega arith))
              (λ q here at.
                read_blocks_lem fuel (b + 1) 0 (suc k - (cache_block_size - o)) q (omega arith)
                  (omega arith) at (omega (tests, ltb→lt _ _ beyond)))
        | inr within ↦
            read_blocks-suc fuel b o (suc k) (suc k) (ground arith) (omega arith) (omega arith)
              (omega (tests, ltb→le _ _ within, m.small)) (omega arith) (omega arith)
              (inl (omega arith))
              (λ q here at.
                read_blocks_lem fuel (b + 1) 0 (suc k - suc k) q (omega arith) (omega arith) at
                  (omega arith))
      ])

  -- Over a morphed image of less than 2 ^ 51 bytes and a cache that fits it, if there is one, the
  -- loop returns the bytes of every stretch inside the image: from the cache file for the blocks
  -- that are cached, and from the morphed image for the others.
  pub read_image_lem :
      (p n : ℕ) → p + n ≤ size → read_image g p n ≡ ok (slice (image_byte g.cache byte) p n)
  unfolding read_image
  read_image_lem p zero le = unfold read_blocks slice in refl
  read_image_lem p (suc k) le =
      let split = block_bounds p cache_block_size (omega arith) in
      let block : u32 (p / cache_block_size) ≡ p / cache_block_size = omega (arith, m.small) in
      rw (read_image, block)
        (read_blocks_lem (suc k) (p / cache_block_size) (p % cache_block_size) (suc k) p split.1
          (omega arith) (inl (sym split.0)) le)
