-- ===== src/VirtImage/CacheFile/New.antt =====
-- `InitCacheFile` over an empty file.
use Prim.Native.Nat.{max}
use xmount.Base.{
  ℕ, zero, suc, ◌+◌, ◌*◌, ◌/◌, ◌^◌, ◌≤◌, ◌<◌, ◌≡◌, refl, ap, sym, ◌∙◌, Bool, Option, some, List,
  ◌++◌, ok, arith,
}
use xmount.Base.{
  length, get_or, replicate, length-append, length-replicate, get_or-append_left,
  get_or-append_right, ltb, false,
}
use xmount.Stdio.{File, fwrite-some, overwrite, overwrite-inside}
use xmount.VirtImage.State.{
  XmountData, Cache, free_block, cache_block_size, sizeof_cache_header, sizeof_block_index,
}
use xmount.VirtImage.Morphed.{IsMorphed, get_morphed_image_size_lem}
use xmount.VirtImage.Get.Content.{image_byte}
use xmount.VirtImage.Set.{index_bytes, le_bytes}
use xmount.VirtImage.Set.Store.{header_bytes}
use xmount.VirtImage.Set.Invariant.{Writable}
use xmount.VirtImage.CacheFile.{
  Mode, needed_blocks, new_header, create_cache_file, init_cache_file, open_cache_file,
}
use xmount.VirtImage.CacheFile.Bytes.{HeaderFields, length-header_bytes}
use xmount.VirtImage.CacheFile.Synced.{Synced, Loadable}

get_or-replicate {ℓ} : {A : Type ℓ} (n i : ℕ) (a : A) → get_or (replicate n a) i a ≡ a
get_or-replicate zero i a = refl
get_or-replicate (suc n) zero a = refl
get_or-replicate (suc n) (suc i) a = get_or-replicate n i a

free_bytes : index_bytes free_block ≡ replicate 12 0
unfolding index_bytes le_bytes
free_bytes = refl

-- The blocks cover the image.
pub needed_blocks_lem :
    (image_size : ℕ)
    → image_size < 2 ^ 50
    → (image_size ≤ needed_blocks image_size * cache_block_size)
      × (needed_blocks image_size * cache_block_size < image_size + cache_block_size)
unfolding needed_blocks
needed_blocks_lem image_size small = (ground arith, ground arith)

new_header-fields : (blocks : ℕ) → blocks < 2 ^ 64 → HeaderFields (new_header blocks)
unfolding new_header
new_header-fields blocks small = record {
  file_signature = omega arith;
  cache_file_version = omega arith;
  block_size = omega arith;
  block_count = small;
  p_block_index = omega arith;
  vdi_file_header_cached = omega arith;
  p_vdi_file_header = omega arith;
  vmdk_file_cached = omega arith;
  vmdk_file_size = omega arith;
  p_vmdk_file = omega arith;
  vhd_file_header_cached = omega arith;
  p_vhd_file_header = omega arith;
  header_padding = refl;
}

-- What is written to an empty file.
abbrev layout : ℕ → List ℕ
layout blocks = header_bytes (new_header blocks) ++ replicate (blocks * sizeof_block_index) 0

-- The cache over it.
abbrev new_cache : File → ℕ → Cache
new_cache f blocks = record {
  file = record f {
    size = max f.size (0 + length (layout blocks));
    byte = overwrite f 0 (layout blocks);
  };
  header = new_header blocks;
  blkidx = replicate blocks free_block;
}

module _ (f : File) (blocks : ℕ) (empty : f.size ≡ 0) (few : blocks < 2 ^ 40)
    (room : sizeof_cache_header + blocks * sizeof_block_index ≤ f.room) where
  length-layout : length (layout blocks) ≡ sizeof_cache_header + blocks * sizeof_block_index
  length-layout = omega (
    arith,
    length-append (header_bytes (new_header blocks)) (replicate (blocks * sizeof_block_index) 0),
    length-header_bytes (new_header blocks) (new_header-fields blocks (omega arith)),
    length-replicate {A = ℕ} (blocks * sizeof_block_index) 0,
  )

  create_cache_file_lem : create_cache_file f blocks ≡ ok (new_cache f blocks)
  unfolding create_cache_file
  create_cache_file_lem =
      let w =
        fwrite-some f 0 (layout blocks) (omega (arith, length-layout))
          (omega (arith, length-layout)) in
      rw (w, create_cache_file) refl

  new_cache-Synced : Synced (new_cache f blocks)
  new_cache-Synced =
      let h = header_bytes (new_header blocks) in
      let zeros : List ℕ = replicate (blocks * sizeof_block_index) 0 in
      let front =
        length-header_bytes (new_header blocks) (new_header-fields blocks (omega arith)) in
      let n : length (replicate blocks free_block) ≡ blocks = length-replicate blocks free_block in
      record {
        header = λ i lt.
            ap (overwrite f 0 (layout blocks)) (omega arith)
            ∙ overwrite-inside f 0 (layout blocks) i (omega (arith, length-layout))
            ∙ get_or-append_left h zeros i 0 (omega (arith, front));
        index = λ b k lt lt'.
            let j : ℕ = b * sizeof_block_index + k in
            let at : sizeof_cache_header + b * sizeof_block_index + k ≡ 0 + (length h + j) =
              omega (arith, front) in
            ap (overwrite f 0 (layout blocks)) at
            ∙ overwrite-inside f 0 (layout blocks) (length h + j)
                (omega (arith, length-layout, front, n))
            ∙ get_or-append_right h zeros j 0
            ∙ get_or-replicate (blocks * sizeof_block_index) j 0
            ∙ sym (
                ap (λ x. get_or (index_bytes x) k 0) (get_or-replicate blocks b free_block)
                ∙ ap (λ bytes. get_or bytes k 0) free_bytes
                ∙ get_or-replicate 12 k 0);
      }

  new_cache-Loadable : Loadable (new_cache f blocks)
  unfolding new_header
  new_cache-Loadable = record {
    fields = new_header-fields blocks (omega arith);
    signature = refl;
    version = refl;
    block_size = refl;
    index_at = refl;
    entries = λ b lt.
        rw (get_or-replicate blocks b free_block)
          (record { assigned = omega arith; off_data = omega arith });
    synced = new_cache-Synced;
  }

  none_assigned : (b : ℕ) → (get_or (replicate blocks free_block) b free_block).assigned ≡ 0
  none_assigned b = ap (λ x. x.assigned) (get_or-replicate blocks b free_block)

  new_cache-Writable :
      (size : ℕ)
      → size ≤ blocks * cache_block_size
      → f.room < 2 ^ 63
      → Writable (new_cache f blocks) size
  new_cache-Writable size covers small =
      let n : length (replicate blocks free_block) ≡ blocks = length-replicate blocks free_block in
      record {
        cached = record {
          within = omega (arith, length-layout);
          small = small;
          indexed = omega (arith, n);
          inside = λ b here. absurd (omega (arith, none_assigned b));
        };
        index = omega (arith, length-layout, n);
        above = λ b here. absurd (omega (arith, none_assigned b));
        apart = λ a b ne here there. absurd (omega (arith, none_assigned a));
      }

  new_cache-byte : (byte : ℕ → ℕ) (q : ℕ) → image_byte (some (new_cache f blocks)) byte q ≡ byte q
  unfolding image_byte
  new_cache-byte byte q = ground (arith, none_assigned (q / cache_block_size))

-- Over a morphed image of less than 2 ^ 50 bytes and an empty file with room for the header and the
-- block index, `InitCacheFile` succeeds with a writable cache through which the image is the morphed
-- one, and whose file, which is the header and the index alone, can be loaded again.
pub init_cache_file-Writable :
    (g : XmountData) (overwrite_cache : Bool) (fopen : Mode → Option File) (f : File) {size : ℕ}
    {byte : ℕ → ℕ}
    → IsMorphed g.morphing size byte
    → size < 2 ^ 50
    → open_cache_file overwrite_cache fopen ≡ ok f
    → f.size ≡ 0
    → sizeof_cache_header + needed_blocks size * sizeof_block_index ≤ f.room
    → f.room < 2 ^ 63
    → (c : Cache) × (init_cache_file g overwrite_cache fopen ≡ ok (record g { cache = some c }))
      × Writable c size
      × Loadable c
      × (length c.blkidx ≡ needed_blocks size)
      × (c.file.size ≡ sizeof_cache_header + needed_blocks size * sizeof_block_index)
      × (c.file.room ≡ f.room)
      × ((q : ℕ) → image_byte (some c) byte q ≡ byte q)
unfolding init_cache_file
init_cache_file-Writable g overwrite_cache fopen f {size} {byte} m small opened empty room below =
    let blocks : ℕ = needed_blocks size in
    let (covers, tight) = needed_blocks_lem size small in
    let few : blocks < 2 ^ 40 = omega (arith, tight) in
    let no_bytes : ltb 0 f.size ≡ false = ground arith in
    (
      new_cache f blocks,
      rw
          (
            opened,
            init_cache_file,
            get_morphed_image_size_lem g m,
            no_bytes,
            create_cache_file_lem f blocks empty few room,
          )
          refl,
      new_cache-Writable f blocks empty few room size covers below,
      new_cache-Loadable f blocks empty few room,
      length-replicate blocks free_block,
      omega (arith, length-layout f blocks empty few room),
      refl,
      new_cache-byte f blocks empty few room byte,
    )
