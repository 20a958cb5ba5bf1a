-- ===== src/VirtImage/CacheFile/Bytes.antt =====
-- The bytes of the header and of the block index, and back.
use xmount.Base.{
  ℕ, zero, suc, ◌/◌, ◌^◌, ◌≤◌, ◌<◌, ◌≡◌, refl, ap, ◌∙◌, List, [], ◌∷◌, ◌++◌, arith, length, take,
  drop, get_or,
}
use native.Mathlib.Nat.{pow-suc}
use xmount.VirtImage.State.{CacheFileHeader, CacheFileBlockIndex, free_block, sizeof_block_index}
use xmount.VirtImage.Set.{le_bytes, index_bytes}
use xmount.VirtImage.Set.Store.{header_bytes}
use xmount.VirtImage.CacheFile.{le_value, parse_header, parse_index}

take-append : (xs ys : List ℕ) → take (length xs) (xs ++ ys) ≡ xs
take-append [] ys = refl
take-append (x ∷ xs) ys = ap (◌∷◌ x) (take-append xs ys)

pub le_value-le_bytes : (w n : ℕ) → n < 256 ^ w → le_value (le_bytes w n) ≡ n
unfolding le_value le_bytes
le_value-le_bytes zero n lt = omega arith
le_value-le_bytes (suc w) n lt =
    let small : n / 2 ^ 8 < 256 ^ w = omega (arith, pow-suc 256 w) in
    omega (arith, le_value-le_bytes w (n / 2 ^ 8) small)

-- Values that fit the fields of the packed structures.
pub record HeaderFields (h : CacheFileHeader) : Type 0 where
  pub file_signature : h.file_signature < 2 ^ 64
  pub cache_file_version : h.cache_file_version < 2 ^ 32
  pub block_size : h.block_size < 2 ^ 64
  pub block_count : h.block_count < 2 ^ 64
  pub p_block_index : h.p_block_index < 2 ^ 64
  pub vdi_file_header_cached : h.vdi_file_header_cached < 2 ^ 32
  pub p_vdi_file_header : h.p_vdi_file_header < 2 ^ 64
  pub vmdk_file_cached : h.vmdk_file_cached < 2 ^ 32
  pub vmdk_file_size : h.vmdk_file_size < 2 ^ 64
  pub p_vmdk_file : h.p_vmdk_file < 2 ^ 64
  pub vhd_file_header_cached : h.vhd_file_header_cached < 2 ^ 32
  pub p_vhd_file_header : h.p_vhd_file_header < 2 ^ 64
  pub header_padding : length h.header_padding ≡ 432

pub record IndexFields (b : CacheFileBlockIndex) : Type 0 where
  pub assigned : b.assigned < 2 ^ 32
  pub off_data : b.off_data < 2 ^ 64

four_bytes : (n : ℕ) → n < 2 ^ 32 → le_value (le_bytes 4 n) ≡ n
four_bytes n lt = le_value-le_bytes 4 n lt

eight_bytes : (n : ℕ) → n < 2 ^ 64 → le_value (le_bytes 8 n) ≡ n
eight_bytes n lt = le_value-le_bytes 8 n lt

pub length-header_bytes : (h : CacheFileHeader) → HeaderFields h → length (header_bytes h) ≡ 512
unfolding header_bytes le_bytes
length-header_bytes h f = omega (arith, f.header_padding)

-- The fields of the header that is found in its bytes.
parse_header-fields :
    (h : CacheFileHeader) (rest : List ℕ)
    → parse_header (header_bytes h ++ rest) ≡ record {
      file_signature = le_value (le_bytes 8 h.file_signature);
      cache_file_version = le_value (le_bytes 4 h.cache_file_version);
      block_size = le_value (le_bytes 8 h.block_size);
      block_count = le_value (le_bytes 8 h.block_count);
      p_block_index = le_value (le_bytes 8 h.p_block_index);
      vdi_file_header_cached = le_value (le_bytes 4 h.vdi_file_header_cached);
      p_vdi_file_header = le_value (le_bytes 8 h.p_vdi_file_header);
      vmdk_file_cached = le_value (le_bytes 4 h.vmdk_file_cached);
      vmdk_file_size = le_value (le_bytes 8 h.vmdk_file_size);
      p_vmdk_file = le_value (le_bytes 8 h.p_vmdk_file);
      vhd_file_header_cached = le_value (le_bytes 4 h.vhd_file_header_cached);
      p_vhd_file_header = le_value (le_bytes 8 h.p_vhd_file_header);
      header_padding = take 432 (h.header_padding ++ rest);
    }
unfolding parse_header header_bytes le_bytes
parse_header-fields h rest = refl

-- A header is found again in its bytes.
pub parse_header-header_bytes :
    (h : CacheFileHeader) (rest : List ℕ)
    → HeaderFields h
    → parse_header (header_bytes h ++ rest) ≡ h
parse_header-header_bytes h rest f =
    let padding : take 432 (h.header_padding ++ rest) ≡ h.header_padding =
      rw f.header_padding at (take-append h.header_padding rest) in
    parse_header-fields h rest
    ∙ (rw
        (
          eight_bytes h.file_signature f.file_signature,
          four_bytes h.cache_file_version f.cache_file_version,
          eight_bytes h.block_size f.block_size,
          eight_bytes h.block_count f.block_count,
          eight_bytes h.p_block_index f.p_block_index,
          four_bytes h.vdi_file_header_cached f.vdi_file_header_cached,
          eight_bytes h.p_vdi_file_header f.p_vdi_file_header,
          four_bytes h.vmdk_file_cached f.vmdk_file_cached,
          eight_bytes h.vmdk_file_size f.vmdk_file_size,
          eight_bytes h.p_vmdk_file f.p_vmdk_file,
          four_bytes h.vhd_file_header_cached f.vhd_file_header_cached,
          eight_bytes h.p_vhd_file_header f.p_vhd_file_header,
          padding,
        )
        refl)

-- The bytes of the whole block index.
unfoldable pub all_index_bytes : List CacheFileBlockIndex → List ℕ
all_index_bytes [] = []
all_index_bytes (b ∷ bs) = index_bytes b ++ all_index_bytes bs

parse_index-next :
    (n : ℕ) (buf : List ℕ)
    → sizeof_block_index ≤ length buf
    → parse_index (suc n) buf
      ≡ record { assigned = le_value (take 4 buf); off_data = le_value (take 8 (drop 4 buf)) }
        ∷ parse_index n (drop 12 buf)
unfolding parse_index
parse_index-next n buf le = ground arith

parse_index-suc :
    (n : ℕ) (b : CacheFileBlockIndex) (rest : List ℕ)
    → parse_index (suc n) (index_bytes b ++ rest)
      ≡ record {
        assigned = le_value (le_bytes 4 b.assigned);
        off_data = le_value (le_bytes 8 b.off_data);
      }
        ∷ parse_index n rest
unfolding index_bytes le_bytes
parse_index-suc n b rest = parse_index-next n (index_bytes b ++ rest) (omega arith)

-- A block index is found again in its bytes.
pub parse_index-all_index_bytes :
    (bs : List CacheFileBlockIndex)
    → ((i : ℕ) → i < length bs → IndexFields (get_or bs i free_block))
    → parse_index (length bs) (all_index_bytes bs) ≡ bs
unfolding all_index_bytes
parse_index-all_index_bytes [] f = unfold parse_index in refl
parse_index-all_index_bytes (b ∷ bs) f =
    parse_index-suc (length bs) b (all_index_bytes bs)
    ∙ (rw
        (
          four_bytes b.assigned (f 0 (omega arith)).assigned,
          eight_bytes b.off_data (f 0 (omega arith)).off_data,
        )
        (ap (◌∷◌ b) (parse_index-all_index_bytes bs (λ i lt. f (suc i) (omega arith)))))
