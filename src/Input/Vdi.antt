-- ===== src/Input/Vdi.antt =====
-- libxmount_input_vdi.c: a VDI file, by its header and block map.
pub mod Read
pub mod Own
pub mod Returns
mod Tests
use xmount.Base.{
  ℕ, zero, suc, ◌+◌, ◌-◌, ◌*◌, ◌/◌, ◌%◌, ◌^◌, Bool, true, false, Option, none, some, List, [], ◌∷◌,
  ◌||◌, min,
}
use xmount.Base.{
  ltb, leb, ◌==◌, if◌then◌else◌, add64, mul64, u32, length, take, drop, get_elem?, replicate,
  Result, ok, err, fault, ◌>>=◌,
}
use xmount.Stdio.{File, fread}
use xmount.VirtImage.CacheFile.{le_value}
use xmount.Input.ReadLoop.{read_loop}

-- The error codes that are returned while there is memory.
pub data VdiError : Type 0 where
  file_open_failed cannot_read_data bad_magic_header bad_version read_beyond_end_of_image : VdiError
  invalid_block_size bad_block_map_offset cannot_seek : VdiError

-- The fields of `t_VdiHeader` that are used.
pub record VdiHeader : Type 0 where
  pub signature : ℕ
  pub version : ℕ
  pub offset_bmap : ℕ
  pub offset_data : ℕ
  pub disk_size : ℕ
  pub block_size : ℕ
  pub blocks_in_image : ℕ

-- `t_Vdi`
pub record Vdi : Type 0 where
  pub file : File
  pub header : VdiHeader
  pub bmap : List ℕ

-- `sizeof(t_VdiHeader)`, and `VDI_HEADER_SIGNATURE`, `VDI_HEADER_VERSION_1_1`,
-- `VDI_BLOCK_DISCARDED` and `VDI_BLOCK_UNALLOCATED`.
abbrev pub sizeof_header : ℕ
sizeof_header = 456

abbrev pub vdi_header_signature : ℕ
vdi_header_signature = 0xbeda107f

abbrev pub vdi_header_version_1_1 : ℕ
vdi_header_version_1_1 = 0x00010001

abbrev pub vdi_block_discarded : ℕ
vdi_block_discarded = 0xfffffffe

abbrev pub vdi_block_unallocated : ℕ
vdi_block_unallocated = 0xffffffff

-- `t_VdiHeader` in memory.
unfoldable pub parse_fields : List ℕ → VdiHeader
parse_fields buf = record {
  signature = le_value (take 4 (drop 64 buf));
  version = le_value (take 4 (drop 68 buf));
  offset_bmap = le_value (take 4 (drop 340 buf));
  offset_data = le_value (take 4 (drop 344 buf));
  disk_size = le_value (take 8 (drop 368 buf));
  block_size = le_value (take 4 (drop 376 buf));
  blocks_in_image = le_value (take 4 (drop 384 buf));
}

-- `VdiUtilFileSeek` and `VdiUtilFileRead`; from 2 ^ 63 on a position is negative
unfoldable pub file_read : File → ℕ → ℕ → Result VdiError (List ℕ)
file_read f offset size =
    if leb (2 ^ 63) offset
    then err cannot_seek
    else elim (fread f offset size) [ none ↦ err cannot_read_data | some bytes ↦ ok bytes ]

-- The checks of `VdiParseHeader`.
unfoldable pub check_fields : VdiHeader → Result VdiError VdiHeader
check_fields h =
    if h.signature == vdi_header_signature
    then (if h.version == vdi_header_version_1_1
        then (if h.block_size == 0 then err invalid_block_size else ok h)
        else err bad_version)
    else err bad_magic_header

-- `VdiParseHeader`
unfoldable pub parse_vdi_header : File → Result VdiError VdiHeader
parse_vdi_header f = file_read f 0 sizeof_header >>= λ buf. check_fields (parse_fields buf)

-- The block map in memory.
unfoldable pub parse_bmap : ℕ → List ℕ → List ℕ
parse_bmap zero buf = []
parse_bmap (suc n) buf = le_value (take 4 buf) ∷ parse_bmap n (drop 4 buf)

unfoldable pub open_file : File → Result VdiError Vdi
open_file f = do
  header ← parse_vdi_header f
  buf ← file_read f header.offset_bmap (header.blocks_in_image * 4)
  ok (record { file = f; header = header; bmap = parse_bmap header.blocks_in_image buf })

-- `VdiOpen`; only the first file is used.
unfoldable pub vdi_open : (List ℕ → Option File) → List (List ℕ) → Result VdiError Vdi
vdi_open fopen [] = err file_open_failed
vdi_open fopen (name ∷ names) = elim (fopen name) [
  | none ↦ err file_open_failed
  | some f ↦ open_file f
]

-- `VdiSize`
unfoldable pub vdi_size : Vdi → ℕ
vdi_size v = v.header.disk_size

abbrev pub unused : ℕ → Bool
unused file_block = file_block == vdi_block_discarded || file_block == vdi_block_unallocated

-- A part of a block of the file, or zeros.
unfoldable pub read_file_block : Vdi → ℕ → ℕ → ℕ → Result VdiError (ℕ × List ℕ)
read_file_block v file_block seek_offset count =
    if unused file_block
    then ok (count, replicate count 0)
    else (file_read v.file
          (add64 (add64 v.header.offset_data (mul64 file_block v.header.block_size)) seek_offset)
          count
        >>= λ bytes. ok (count, bytes))

-- `VdiRead0`, with the new `*pCount`. The block map has `blocks_in_image` elements.
unfoldable pub vdi_read0 : Vdi → ℕ → ℕ → Result VdiError (ℕ × List ℕ)
vdi_read0 v seek count =
    if leb v.header.blocks_in_image (seek / v.header.block_size)
    then err bad_block_map_offset
    else elim (get_elem? v.bmap (seek / v.header.block_size)) [
      | none ↦ fault
      | some file_block ↦
          read_file_block v file_block (seek % v.header.block_size)
            (min count (v.header.block_size - seek % v.header.block_size))
    ]

-- `VdiRead`: `*pRead` and the bytes. Only the low 32 bits of `count` are read.
unfoldable pub vdi_read : Vdi → ℕ → ℕ → Result VdiError (ℕ × List ℕ)
vdi_read v seek count =
    if ltb v.header.disk_size (add64 seek count)
    then err read_beyond_end_of_image
    else (read_loop (vdi_read0 v) (suc (u32 count)) seek (u32 count) >>= λ bytes. ok (count, bytes))
