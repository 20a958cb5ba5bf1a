-- ===== src/VirtImage/CacheFile/Checked.antt =====
-- What `InitCacheFile` accepts as an existing cache file.
use xmount.Base.{
  le_at, take, slice_add, ap, sym, ◌∙◌, ◌-◌, ℕ, ◌+◌, ◌*◌, ◌≤◌, ◌≡◌, ◌↔◌, ok, arith, slice, drop,
}
use xmount.Stdio.{File, fread}
use xmount.VirtImage.State.{Cache, sizeof_cache_header, sizeof_block_index}
use xmount.VirtImage.CacheFile.{check_version, le_value, load_cache_file, parse_header, parse_index}

-- The file begins with the signature and the current version, holds the header and the index of so
-- many blocks whole, and names a block size of 1 MiB.
pub record IsCacheFile (f : File) (blocks : ℕ) : Type 0 where
  pub signature : le_at (slice f.byte 0 8) 0 8 ≡ 0xFFFF746E756F6D78
  pub version : le_at (slice f.byte 8 4) 0 4 ≡ 2
  pub whole : sizeof_cache_header + blocks * sizeof_block_index ≤ f.size
  pub block_size : le_at (slice f.byte 12 8) 0 8 ≡ 1048576

-- The numbers that the code reads.
four_bytes : (f : ℕ → ℕ) (p : ℕ) → le_value (slice f p 4) ≡ le_at (slice f p 4) 0 4
unfolding le_value slice
four_bytes f p = omega arith

eight_bytes : (f : ℕ → ℕ) (p : ℕ) → le_value (slice f p 8) ≡ le_at (slice f p 8) 0 8
unfolding le_value slice
eight_bytes f p = omega arith

-- The block size is in the bytes from 12 on.
parse_header-block_size :
    (f : File) (n : ℕ)
    → 20 ≤ n
    → (parse_header (slice f.byte 0 n)).block_size ≡ le_value (slice f.byte 12 8)
unfolding parse_header slice
parse_header-block_size f n le =
    let e : n ≡ 20 + (n - 20) = omega arith in
    ap (λ k. le_value (take 8 (drop 12 (slice f.byte 0 k)))) e
    ∙ ap (λ xs. le_value (take 8 (drop 12 xs))) (slice_add f.byte 0 20 (n - 20))

loaded :
    (f : File) (blocks : ℕ) (c : Cache) → load_cache_file f blocks ≡ ok c → IsCacheFile f blocks
unfolding load_cache_file check_version fread
loaded f blocks c h = record {
  signature = sym (eight_bytes f.byte 0) ∙ ground (arith, h);
  version = sym (four_bytes f.byte 8) ∙ ground (arith, h);
  whole = ground (arith, h);
  block_size =
      sym (eight_bytes f.byte 12)
      ∙ sym (
          parse_header-block_size f (sizeof_cache_header + blocks * sizeof_block_index)
            (omega arith))
      ∙ ground (arith, h);
}

loads :
    (f : File) (blocks : ℕ) → IsCacheFile f blocks → (c : Cache) × (load_cache_file f blocks ≡ ok c)
unfolding load_cache_file check_version fread
loads f blocks h =
    let buf = slice f.byte 0 (sizeof_cache_header + blocks * sizeof_block_index) in
    (
      record {
        file = f;
        header = parse_header buf;
        blkidx = parse_index blocks (drop (parse_header buf).p_block_index buf);
      },
      ground (
        arith,
        eight_bytes f.byte 0 ∙ h.signature,
        four_bytes f.byte 8 ∙ h.version,
        h.whole,
        parse_header-block_size f (sizeof_cache_header + blocks * sizeof_block_index) (omega arith)
            ∙ eight_bytes f.byte 12
            ∙ h.block_size,
      ),
    )

-- An existing file is loaded just if it begins with the signature, has the current version in the
-- four bytes behind it and a block size of 1 MiB in the eight bytes behind that, and holds the header
-- and an index of that many blocks whole.
pub load_cache_file-IsCacheFile :
    (f : File) (blocks : ℕ)
    → ((c : Cache) × (load_cache_file f blocks ≡ ok c)) ↔ IsCacheFile f blocks
load_cache_file-IsCacheFile f blocks = (λ (c, h). loaded f blocks c h, loads f blocks)
