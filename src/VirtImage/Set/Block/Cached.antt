-- ===== src/VirtImage/Set/Block/Cached.antt =====
-- One round, for a cached block and in general.
use Prim.Native.Nat.{max}
use xmount.Base.{
  ℕ, ◌+◌, ◌*◌, ◌^◌, ◌≤◌, ◌<◌, ◌≡◌, refl, ap, sym, ◌∙◌, ◌⊎◌, inl, inr, some, List, ok, arith,
  Bool-cases,
}
use xmount.Base.{length, get_elem?-eq-get_or, ◌==◌, if◌then◌else◌, add64}
use xmount.Stdio.{File, fwrite-some, overwrite, overwrite-inside, overwrite-above, overwrite-below}
use xmount.VirtImage.State.{
  XmountData, Cache, free_block, cache_block_size, sizeof_cache_header, sizeof_block_index,
}
use xmount.VirtImage.Morphed.{IsMorphed}
use xmount.VirtImage.Get.Content.{image_byte-block, IsCache}
use xmount.VirtImage.Set.{write_file, write_block}
use xmount.VirtImage.Set.Block.{Stored, entry, index_end}
use xmount.VirtImage.CacheFile.Synced.{Synced-entry}
use xmount.VirtImage.Set.Block.Fresh.{new_block_lem}

cached_block_lem :
    (c : Cache) {size : ℕ} (byte : ℕ → ℕ) (block o : ℕ) (bytes : List ℕ)
    → IsCache c size
    → (entry c block).assigned ≡ 1
    → 0 < length bytes
    → o + length bytes ≤ cache_block_size
    → (c' : Cache) × (write_file c (add64 (entry c block).off_data o) bytes ≡ ok c')
      × Stored c c' size byte block o bytes
unfolding write_file
cached_block_lem c {size} byte block o bytes fits here some_bytes short =
    let off : ℕ = (entry c block).off_data in
    let inside : off + cache_block_size ≤ c.file.size = fits.inside block here in
    let pos : add64 off o ≡ off + o = omega (arith, inside, fits.within, fits.small) in
    let done = fwrite-some c.file (off + o) bytes some_bytes (omega (arith, inside, fits.within)) in
    let f' : File = record c.file {
      size = max c.file.size (off + o + length bytes);
      byte = overwrite c.file (off + o) bytes;
    } in
    let end : max c.file.size (off + o + length bytes) ≡ c.file.size = omega (arith, inside) in
    (
      record c { file = f' },
      rw (pos, write_file, done) refl,
      record {
        same_header = refl;
        same_index = refl;
        same_room = refl;
        grown = omega (arith, end);
        bounded = omega (arith, end);
        assigned = here;
        others = λ b ne. refl;
        place = inl (here, refl);
        inside = omega (arith, end, inside);
        kept = λ i le lt out. elim out [
          | inl before ↦ overwrite-below c.file (off + o) bytes i (omega arith) lt
          | inr behind ↦ overwrite-above c.file (off + o) bytes i (omega arith) lt
        ];
        written = λ i lt.
            let e : off + (o + i) ≡ off + o + i = omega arith in
            ap (overwrite c.file (off + o) bytes) e ∙ overwrite-inside c.file (off + o) bytes i lt;
        around = λ i lt out inside_image.
            (elim out [
              | inl before ↦
                  overwrite-below c.file (off + o) bytes (off + i) (omega arith)
                    (omega (arith, inside))
              | inr behind ↦
                  overwrite-above c.file (off + o) bytes (off + i) (omega arith)
                    (omega (arith, inside))
            ])
            ∙ sym (image_byte-block (some c) byte block i lt ∙ assigned_lem i);
        synced = λ above s.
            let same : (i : ℕ) → i < index_end c → f'.byte i ≡ c.file.byte i = λ i lt.
              overwrite-below c.file (off + o) bytes i (omega arith) (omega (arith, inside)) in
            Synced-entry c (record c { file = f' }) block refl refl (λ b ne. refl)
              (λ i lt out. same i lt)
              (λ k lt indexed.
                same (sizeof_cache_header + block * sizeof_block_index + k) (omega arith)
                ∙ s.index block k indexed lt)
              s;
      },
    )
  where
    assigned_lem :
        (i : ℕ)
        → (if (entry c block).assigned == 1
            then c.file.byte ((entry c block).off_data + i)
            else byte (block * cache_block_size + i))
          ≡ c.file.byte ((entry c block).off_data + i)
    assigned_lem i = ground arith

-- Over a morphed image of less than 2 ^ 51 bytes and a cache that fits it, has its index inside the
-- file and room for one more block, a round with at least one byte, inside one block and the image,
-- succeeds if the block is cached, or if the bytes end at the end of the block or before the end of
-- the image. Then the block has a place in the cache file with the bytes in it, and is otherwise
-- what it was; the other blocks and all else behind the index are as before; and if the file held
-- header and index as they are in memory, it does so still.
pub write_block_lem :
    (g : XmountData) {size : ℕ} {byte : ℕ → ℕ} (c : Cache) (block o : ℕ) (bytes : List ℕ)
    → IsMorphed g.morphing size byte
    → size < 2 ^ 51
    → IsCache c size
    → index_end c ≤ c.file.size
    → c.file.size + cache_block_size ≤ c.file.room
    → 0 < length bytes
    → o + length bytes ≤ cache_block_size
    → block * cache_block_size + o + length bytes ≤ size
    → ((entry c block).assigned ≡ 1)
      ⊎ ((o + length bytes ≡ cache_block_size)
          ⊎ (block * cache_block_size + o + length bytes < size))
    → (c' : Cache) × (write_block g size c block o (block * cache_block_size + o) bytes ≡ ok c')
      × Stored c c' size byte block o bytes
unfolding write_block
write_block_lem g {size} {byte} c block o bytes m small fits index room some_bytes short inside
      stop =
    let indexed : block < length c.blkidx = omega (arith, fits.indexed) in
    let found = get_elem?-eq-get_or c.blkidx block free_block indexed in
    elim (Bool-cases ((entry c block).assigned == 1)) [
      | inl here ↦
          let (c', w, s) =
            cached_block_lem c byte block o bytes fits (ground arith) some_bytes short in
          (c', rw (found, write_block, here) w, s)
      | inr free ↦
          let (c', w, s) =
            new_block_lem g m small c block o bytes indexed (ground arith) index room fits.small
              some_bytes short inside (ground arith) in
          (c', rw (found, write_block, free) w, s)
    ]
