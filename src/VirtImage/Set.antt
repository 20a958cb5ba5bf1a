-- ===== src/VirtImage/Set.antt =====
-- `SetVirtImageData` of src/xmount.c: the block loop; the headers and the rest of the function are
-- in `Store`. A failed call leaves a state too, so both results carry one.
pub mod Append
pub mod Patch
pub mod Block
pub mod Invariant
pub mod Round
pub mod Written
pub mod Loop
pub mod Store
pub mod Header
pub mod Parts
pub mod Footed
pub mod Plain
pub mod AtEnd
use xmount.Base.{
  ℕ, zero, suc, ◌+◌, ◌-◌, ◌*◌, ◌/◌, ◌%◌, ◌^◌, Bool, true, false, none, some, List, [], ◌∷◌, ◌++◌,
}
use xmount.Base.{
  ltb, ◌==◌, if◌then◌else◌, add64, sub64, length, get_elem?, set, take, drop, replicate,
}
use xmount.Base.{Result, ok, err, fault, ◌>>=◌}
use xmount.Stdio.{File, fwrite}
use xmount.VirtImage.State.{XmountData, Cache, CacheFileBlockIndex, cache_block_size}
use xmount.VirtImage.State.{sizeof_cache_header, sizeof_block_index}
use xmount.VirtImage.Morphed.{get_morphed_image_data, failed, beyond_end, got}

abbrev pub Step : Type 0
Step = Result Cache Cache

-- `fseeko` and `fwrite` on the cache file.
unfoldable pub write_file : Cache → ℕ → List ℕ → Step
write_file c pos bytes = elim (fwrite c.file pos bytes) [
  | none ↦ err c
  | some f ↦ ok (record c { file = f })
]

-- Old data of the morphed image, all of it.
unfoldable pub read_old : XmountData → Cache → ℕ → ℕ → Result Cache (List ℕ)
read_old g c offset n = elim (get_morphed_image_data g offset n) [
  | failed ↦ err c
  | beyond_end ↦ err c
  | got read bytes ↦ if read == n then ok bytes else err c
]

-- `n` as `w` bytes in the byte order of the host (little endian).
unfoldable pub le_bytes : ℕ → ℕ → List ℕ
le_bytes zero n = []
le_bytes (suc w) n = (n % 2 ^ 8) ∷ le_bytes w (n / 2 ^ 8)

-- The bytes of a packed `ts_CacheFileBlockIndex`.
unfoldable pub index_bytes : CacheFileBlockIndex → List ℕ
index_bytes b = le_bytes 4 b.assigned ++ le_bytes 8 b.off_data

-- The data of a new block in front of the written bytes.
unfoldable pub prepend_old : XmountData → Cache → ℕ → ℕ → ℕ → Step
prepend_old g c off block_off file_off =
    if block_off == 0
    then ok c
    else (read_old g c (file_off - block_off) block_off >>= λ old. write_file c off old)

-- The data of a new block behind them, `n` bytes written at `file_off`. Where the image ends in the
-- block, the bytes behind its end are 0.
unfoldable pub append_old : XmountData → ℕ → Cache → ℕ → ℕ → ℕ → ℕ → Step
append_old g orig_image_size c off block_off file_off n =
    let rest : ℕ = cache_block_size - (block_off + n) in
    if block_off + n == cache_block_size
    then ok c
    else if ltb orig_image_size (add64 (file_off - block_off) cache_block_size)
    then (let left : ℕ = sub64 orig_image_size (file_off + n) in
        read_old g c (file_off + n) left >>= λ old.
        write_file c (off + block_off + n) (old ++ replicate (rest - left) 0))
    else (read_old g c (file_off + n) rest >>= λ old. write_file c (off + block_off + n) old)

-- An uncached block: it is appended to the cache file whole, and then assigned in the index, in
-- memory and in the file.
unfoldable pub new_block : XmountData → ℕ → Cache → CacheFileBlockIndex → ℕ → ℕ → ℕ → List ℕ → Step
new_block g orig_image_size c b block block_off file_off bytes = do
  let off : ℕ = c.file.size
  let c1 : Cache = record c { blkidx = set c.blkidx block (record b { off_data = off }) }
  c2 ← prepend_old g c1 off block_off file_off
  c3 ← write_file c2 (off + block_off) bytes
  c4 ← append_old g orig_image_size c3 off block_off file_off (length bytes)
  let entry : CacheFileBlockIndex = record { assigned = 1; off_data = off }
  write_file (record c4 { blkidx = set c4.blkidx block entry })
      (sizeof_cache_header + block * sizeof_block_index) (index_bytes entry)

-- One round of the loop. An index outside the block index is a fault.
unfoldable pub write_block : XmountData → ℕ → Cache → ℕ → ℕ → ℕ → List ℕ → Step
write_block g orig_image_size c block block_off file_off bytes = elim (get_elem? c.blkidx block) [
  | none ↦ fault
  | some b ↦
      if b.assigned == 1
      then write_file c (add64 b.off_data block_off) bytes
      else new_block g orig_image_size c b block block_off file_off bytes
]

-- The `while` loop; `to_write` is the number of bytes left.
unfoldable pub write_blocks : XmountData → ℕ → ℕ → Cache → ℕ → ℕ → ℕ → List ℕ → Step
write_blocks g orig_image_size zero c block block_off file_off bytes =
    if length bytes == 0 then ok c else fault
write_blocks g orig_image_size (suc fuel) c block block_off file_off bytes =
    elim (length bytes == 0) [
      | true ↦ ok c
      | false ↦
          let now : ℕ =
            if ltb cache_block_size (add64 block_off (length bytes))
            then cache_block_size - block_off
            else length bytes in
          write_block g orig_image_size c block block_off file_off (take now bytes) >>= λ c'.
          write_blocks g orig_image_size fuel c' (block + 1) 0 (file_off + now) (drop now bytes)
    ]

-- The loop, with the block and offset that it starts from. A round writes at least one byte.
unfoldable pub write_image : XmountData → ℕ → Cache → ℕ → List ℕ → Step
write_image g orig_image_size c file_off bytes =
    write_blocks g orig_image_size (length bytes) c (file_off / cache_block_size)
      (file_off % cache_block_size) file_off bytes
