-- ===== src/VirtImage/CacheFile/Load.antt =====
-- `InitCacheFile` over the file of an earlier session.
use xmount.Base.{
  ℕ, suc, ◌+◌, ◌*◌, ◌≤◌, ◌<◌, ◌≡◌, refl, ap, ap₂, sym, ◌∙◌, true, false, Option, some, List, [],
  ◌∷◌, ◌++◌, ok, arith,
}
use xmount.Base.{length, get_or, take, drop, ltb, slice, slice_ext, slice_add, take-drop-eq-slice}
use xmount.Stdio.{File, fread, fread-some}
use xmount.VirtImage.State.{
  XmountData, Cache, CacheFileHeader, CacheFileBlockIndex, free_block, cache_block_size,
  sizeof_cache_header, sizeof_block_index,
}
use xmount.VirtImage.Morphed.{IsMorphed, get_morphed_image_size_lem}
use xmount.VirtImage.Set.{index_bytes, le_bytes}
use xmount.VirtImage.Set.Store.{header_bytes}
use xmount.VirtImage.CacheFile.{
  Mode, rb_plus, needed_blocks, le_value, parse_header, parse_index, check_version, load_cache_file,
  init_cache_file, open_cache_file, cache_file_signature, cur_cache_file_version,
}
use xmount.VirtImage.CacheFile.Bytes.{
  length-header_bytes, le_value-le_bytes, parse_header-header_bytes, parse_index-all_index_bytes,
  all_index_bytes,
}
use xmount.VirtImage.CacheFile.Synced.{Loadable}

slice-all :
    (f : ℕ → ℕ) (o : ℕ) (xs : List ℕ)
    → ((i : ℕ) → i < length xs → f (o + i) ≡ get_or xs i 0)
    → slice f o (length xs) ≡ xs
unfolding slice
slice-all f o [] h = refl
slice-all f o (x ∷ xs) h =
    ap₂ ◌∷◌ (ap f (omega arith) ∙ h 0 (omega arith))
      (slice-all f (o + 1) xs (λ i lt. ap f (omega arith) ∙ h (suc i) (omega arith)))

drop-append : (xs ys : List ℕ) → drop (length xs) (xs ++ ys) ≡ ys
drop-append [] ys = refl
drop-append (x ∷ xs) ys = drop-append xs ys

length-index_bytes : (b : CacheFileBlockIndex) → length (index_bytes b) ≡ sizeof_block_index
unfolding index_bytes le_bytes
length-index_bytes b = refl

slice-all_index_bytes :
    (f : ℕ → ℕ) (o : ℕ) (bs : List CacheFileBlockIndex)
    → ((b k : ℕ)
        → b < length bs
        → k < sizeof_block_index
        → f (o + b * sizeof_block_index + k) ≡ get_or (index_bytes (get_or bs b free_block)) k 0)
    → slice f o (length bs * sizeof_block_index) ≡ all_index_bytes bs
unfolding all_index_bytes
slice-all_index_bytes f o [] h = unfold slice in refl
slice-all_index_bytes f o (b ∷ bs) h =
    let twelve = length-index_bytes b in
    let e : suc (length bs) * sizeof_block_index
        ≡ length (index_bytes b) + length bs * sizeof_block_index =
      omega (arith, twelve) in
    ap (slice f o) e
    ∙ slice_add f o (length (index_bytes b)) (length bs * sizeof_block_index)
    ∙ ap₂ ◌++◌
        (slice-all f o (index_bytes b)
          (λ i lt. ap f (omega arith) ∙ h 0 i (omega arith) (omega (arith, twelve))))
        (ap (λ k. slice f k (length bs * sizeof_block_index)) (omega (arith, twelve))
          ∙ slice-all_index_bytes f (o + 12) bs
              (λ b' k lt lt'. ap f (omega arith) ∙ h (suc b') k (omega arith) lt'))

signature_bytes :
    (h : CacheFileHeader) → take 8 (drop 0 (header_bytes h)) ≡ le_bytes 8 h.file_signature
unfolding header_bytes le_bytes
signature_bytes h = refl

version_bytes :
    (h : CacheFileHeader) → take 4 (drop 8 (header_bytes h)) ≡ le_bytes 4 h.cache_file_version
unfolding header_bytes le_bytes
version_bytes h = refl

module _ {c : Cache} (l : Loadable c) where
  header_length : length (header_bytes c.header) ≡ sizeof_cache_header
  header_length = length-header_bytes c.header l.fields

  -- The header and the index, as they are read into memory.
  slice-buffer :
      slice c.file.byte 0 (sizeof_cache_header + length c.blkidx * sizeof_block_index)
      ≡ header_bytes c.header ++ all_index_bytes c.blkidx
  slice-buffer =
      slice_add c.file.byte 0 sizeof_cache_header (length c.blkidx * sizeof_block_index)
      ∙ ap₂ ◌++◌
          (ap (slice c.file.byte 0) (sym header_length)
            ∙ slice-all c.file.byte 0 (header_bytes c.header) (λ i lt.
              ap c.file.byte (omega arith) ∙ l.synced.header i (omega (arith, header_length))))
          (slice-all_index_bytes c.file.byte (0 + sizeof_cache_header) c.blkidx
            (λ b k lt lt'. ap c.file.byte (omega arith) ∙ l.synced.index b k lt lt'))

  -- Some bytes of the header.
  slice-header :
      (o n : ℕ)
      → o + n ≤ sizeof_cache_header
      → slice c.file.byte o n ≡ take n (drop o (header_bytes c.header))
  slice-header o n le =
      slice_ext c.file.byte (λ i. get_or (header_bytes c.header) i 0) o o n
        (λ i lt. l.synced.header (o + i) (omega arith))
      ∙ sym (take-drop-eq-slice (header_bytes c.header) o n 0 (omega (arith, header_length)))

  signature_lem : le_value (slice c.file.byte 0 8) ≡ cache_file_signature
  signature_lem =
      ap le_value (slice-header 0 8 (omega arith))
      ∙ ap le_value (signature_bytes c.header)
      ∙ le_value-le_bytes 8 c.header.file_signature l.fields.file_signature
      ∙ l.signature

  version_lem : le_value (slice c.file.byte 8 4) ≡ cur_cache_file_version
  version_lem =
      ap le_value (slice-header 8 4 (omega arith))
      ∙ ap le_value (version_bytes c.header)
      ∙ le_value-le_bytes 4 c.header.cache_file_version l.fields.cache_file_version
      ∙ l.version

-- The steps of a load that succeeds.
load_cache_file-step :
    (f : File) (blocks : ℕ) (signature version buf : List ℕ) (header : CacheFileHeader)
    (blkidx : List CacheFileBlockIndex)
    → fread f 0 8 ≡ some signature
    → le_value signature ≡ cache_file_signature
    → fread f 8 4 ≡ some version
    → le_value version ≡ cur_cache_file_version
    → fread f 0 (sizeof_cache_header + blocks * sizeof_block_index) ≡ some buf
    → parse_header buf ≡ header
    → header.block_size ≡ cache_block_size
    → parse_index blocks (drop header.p_block_index buf) ≡ blkidx
    → load_cache_file f blocks ≡ ok (record { file = f; header = header; blkidx = blkidx })
unfolding load_cache_file check_version
load_cache_file-step f blocks signature version buf header blkidx r1 e1 r2 e2 r3 e3 e4 e5 =
    rw (r1, load_cache_file, e1, r2, e2, check_version, r3, e3, e4, e5) refl

-- Over a morphed image, the file of a cache whose header and index it
-- holds, and whose blocks are those of the image, loads to that very cache.
pub init_cache_file-Loadable :
    (g : XmountData) (c : Cache) (fopen : Mode → Option File) {size : ℕ} {byte : ℕ → ℕ}
    → IsMorphed g.morphing size byte
    → Loadable c
    → length c.blkidx ≡ needed_blocks size
    → sizeof_cache_header + length c.blkidx * sizeof_block_index ≤ c.file.size
    → fopen rb_plus ≡ some c.file
    → init_cache_file g false fopen ≡ ok (record g { cache = some c })
unfolding init_cache_file open_cache_file
init_cache_file-Loadable g c fopen {size} m l blocks long found =
    let some_bytes : ltb 0 c.file.size ≡ true = ground (arith, long) in
    let h = c.header in
    let idx = all_index_bytes c.blkidx in
    let behind : drop h.p_block_index (header_bytes h ++ idx) ≡ idx =
      ap (λ k. drop k (header_bytes h ++ idx)) (l.index_at ∙ sym (header_length l))
      ∙ drop-append (header_bytes h) idx in
    let loaded =
      load_cache_file-step c.file (length c.blkidx) (slice c.file.byte 0 8) (slice c.file.byte 8 4)
        (header_bytes h ++ idx) h c.blkidx (fread-some c.file 0 8 (omega arith) (omega arith))
        (signature_lem l) (fread-some c.file 8 4 (omega arith) (omega arith)) (version_lem l)
        (fread-some c.file 0 (sizeof_cache_header + length c.blkidx * sizeof_block_index)
            (omega arith) (omega (arith, long))
          ∙ ap some (slice-buffer l))
        (parse_header-header_bytes h idx l.fields) l.block_size
        (ap (parse_index (length c.blkidx)) behind
          ∙ parse_index-all_index_bytes c.blkidx l.entries) in
    rw
      (
        found,
        init_cache_file,
        open_cache_file,
        get_morphed_image_size_lem g m,
        some_bytes,
        ← blocks,
        loaded,
      )
      refl
