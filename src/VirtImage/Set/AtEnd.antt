-- ===== src/VirtImage/Set/AtEnd.antt =====
-- Writes that end with the image inside a block that is not cached.
use Prim.Native.Nat.{max}
use xmount.Base.{
  ℕ, zero, suc, ◌+◌, ◌-◌, ◌*◌, ◌/◌, ◌%◌, ◌^◌, ◌≤◌, ◌<◌, ◌≡◌, refl, ap, List, [], ◌∷◌, ◌≢◌, arith,
  false,
}
use xmount.Base.{
  length, get_elem?-eq-get_or, set, ◌==◌, if◌then◌else◌, ltb, take, add64, sub64, ok, err,
}
use xmount.Stdio.{File, fwrite-some, overwrite}
use xmount.VirtImage.State.{XmountData, Cache, CacheFileBlockIndex, free_block, cache_block_size}
use xmount.VirtImage.Morphed.{IsMorphed, get_morphed_image_data-beyond}
use xmount.VirtImage.Get.Content.{IsCache}
use xmount.VirtImage.Set.{
  write_file, read_old, prepend_old, append_old, new_block, write_block, write_blocks, write_image,
}
use xmount.VirtImage.Set.Block.{entry}

write_file-room :
    (c : Cache) (pos : ℕ) (bytes : List ℕ)
    → 0 < length bytes
    → pos + length bytes ≤ c.file.room
    → (c' : Cache) × (write_file c pos bytes ≡ ok c')
unfolding write_file
write_file-room c pos bytes some_bytes fits =
    let f' : File = record c.file {
      size = max c.file.size (pos + length bytes);
      byte = overwrite c.file pos bytes;
    } in
    (record c { file = f' }, rw (fwrite-some c.file pos bytes some_bytes fits, write_file) refl)

take-length : (xs : List ℕ) → take (length xs) xs ≡ xs
take-length [] = refl
take-length (x ∷ xs) = ap (◌∷◌ x) (take-length xs)

module _ (g : XmountData) {size : ℕ} {byte : ℕ → ℕ} (m : IsMorphed g.morphing size byte)
    (small : size < 2 ^ 51) where
  append_old_at_end :
      (c : Cache) (off file_off n : ℕ)
      → 0 < n
      → n < cache_block_size
      → file_off + n ≡ size
      → append_old g size c off 0 file_off n ≡ err c
  unfolding append_old read_old
  append_old_at_end c off file_off n some_bytes short end =
      let beyond =
        get_morphed_image_data-beyond g (file_off + n) (sub64 size (file_off + n)) m
          (omega arith) in
      ground (arith, small, beyond)

  new_block_at_end :
      (c : Cache) (b : CacheFileBlockIndex) (block file_off : ℕ) (bytes : List ℕ)
      → 0 < length bytes
      → length bytes < cache_block_size
      → file_off + length bytes ≡ size
      → c.file.size + length bytes ≤ c.file.room
      → (c' : Cache) × (new_block g size c b block 0 file_off bytes ≡ err c')
  unfolding new_block prepend_old
  new_block_at_end c b block file_off bytes some_bytes short end room =
      let off : ℕ = c.file.size in
      let c1 : Cache = record c { blkidx = set c.blkidx block (record b { off_data = off }) } in
      let (c3, done) = write_file-room c1 (off + 0) bytes some_bytes (omega arith) in
      (
        c3,
        rw (done, new_block, append_old_at_end c3 off file_off (length bytes) some_bytes short end)
            refl,
      )

  -- The loop fails where its first and last round does.
  write_blocks_fails :
      (fuel : ℕ) (c c' : Cache) (block p : ℕ) (bytes : List ℕ)
      → 0 < fuel
      → 0 < length bytes
      → length bytes < cache_block_size
      → write_block g size c block 0 p bytes ≡ err c'
      → write_blocks g size fuel c block 0 p bytes ≡ err c'
  unfolding write_blocks
  write_blocks_fails zero c c' block p bytes some_fuel some_bytes short fails = absurd (omega arith)
  write_blocks_fails (suc fuel) c c' block p bytes some_fuel some_bytes short fails =
      let more : (length bytes == 0) ≡ false = ground arith in
      let now : (if ltb cache_block_size (add64 0 (length bytes))
            then cache_block_size - 0
            else length bytes)
          ≡ length bytes =
        ground arith in
      rw (more, write_blocks, now, take-length bytes, fails) refl

  -- Over a morphed image of less than 2 ^ 51 bytes and a cache that fits it and has room for the
  -- bytes, a write of at least one byte from the start of a block that is not cached to the end of
  -- the image, which lies inside the block, fails.
  pub write_image_at_end :
      (c : Cache) (block : ℕ) (bytes : List ℕ)
      → IsCache c size
      → (entry c block).assigned ≢ 1
      → 0 < length bytes
      → length bytes < cache_block_size
      → block * cache_block_size + length bytes ≡ size
      → c.file.size + length bytes ≤ c.file.room
      → (c' : Cache) × (write_image g size c (block * cache_block_size) bytes ≡ err c')
  unfolding write_image write_block
  write_image_at_end c block bytes fits free some_bytes short end room =
      let p : ℕ = block * cache_block_size in
      let n : ℕ = length bytes in
      let (c', fails) =
        new_block_at_end c (entry c block) block p bytes some_bytes short end room in
      let found = get_elem?-eq-get_or c.blkidx block free_block (omega (arith, fits.indexed)) in
      let not_here : ((entry c block).assigned == 1) ≡ false = ground (arith, free) in
      let round : write_block g size c block 0 p bytes ≡ err c' =
        rw (found, write_block, not_here) fails in
      let at : p / cache_block_size ≡ block = omega arith in
      let start : p % cache_block_size ≡ 0 = omega arith in
      (
        c',
        rw (at, write_image, start)
            (write_blocks_fails n c c' block p bytes some_bytes some_bytes short round),
      )
