-- ===== src/VirtImage/Vdi.antt =====
-- `InitVirtVdiHeader` of src/xmount.c: the header and the block map of a virtual VDI file.
pub mod Header
pub mod Fields
use xmount.Base.{ℕ, zero, suc, ◌+◌, ◌-◌, ◌*◌, ◌/◌, ◌%◌, Option, none, some, List, [], ◌++◌}
use xmount.Base.{ltb, ◌==◌, if◌then◌else◌, u32, add32, length, replicate}
use xmount.VirtImage.State.{XmountData, sizeof_vdi_header}
use xmount.VirtImage.Morphed.{get_morphed_image_size}
use xmount.VirtImage.Set.{le_bytes}

-- `VDI_IMAGE_BLOCK_SIZE`
abbrev pub vdi_image_block_size : ℕ
vdi_image_block_size = 1048576

-- The number of VDI blocks, in the 32 bits of its type.
unfoldable pub block_entries : ℕ → ℕ
block_entries image_size =
    let entries : ℕ = u32 (image_size / vdi_image_block_size) in
    if image_size % vdi_image_block_size == 0 then entries else add32 entries 1

-- The loop that fills the block map: entry `i` at `offset`, 4 bytes each, on fuel.
unfoldable pub block_map : ℕ → ℕ → ℕ → ℕ → List ℕ
block_map zero map_size offset i = []
block_map (suc fuel) map_size offset i =
    let rest = block_map fuel map_size (offset + 4) (i + 1) in
    if ltb offset map_size then le_bytes 4 i ++ rest else []

-- A text in a field of `width` bytes that was set to 0.
unfoldable pub text_field : ℕ → List ℕ → List ℕ
text_field width text = text ++ replicate (width - length text) 0

-- What the header takes from elsewhere: the texts `VDI_FILE_COMMENT` and `VDI_HEADER_COMMENT`, the
-- latter with the version of the build, the halves of the image hash, and the random numbers.
pub record VdiIds : Type 0 where
  pub file_comment : List ℕ
  pub header_comment : List ℕ
  pub image_hash_lo : ℕ
  pub image_hash_hi : ℕ
  pub modify_l : ℕ
  pub modify_h : ℕ

-- The fields from `u32Signature` to `fFlags`, and those from `offBlocks` on.
unfoldable pub type_fields : List ℕ
type_fields =
    le_bytes 4 0xBEDA107F
    ++ le_bytes 4 0x00010001
    ++ le_bytes 4 0x00000180
    ++ le_bytes 4 2
    ++ le_bytes 4 0

unfoldable pub size_fields : VdiIds → ℕ → ℕ → ℕ → List ℕ
size_fields ids image_size entries header_size =
    le_bytes 4 sizeof_vdi_header
    ++ le_bytes 4 header_size
    ++ le_bytes 4 0
    ++ le_bytes 4 0
    ++ le_bytes 4 0
    ++ le_bytes 4 512
    ++ le_bytes 4 0
    ++ le_bytes 8 image_size
    ++ le_bytes 4 vdi_image_block_size
    ++ le_bytes 4 0
    ++ le_bytes 4 entries
    ++ le_bytes 4 entries
    ++ le_bytes 8 ids.image_hash_lo
    ++ le_bytes 8 ids.image_hash_hi
    ++ le_bytes 8 ids.modify_l
    ++ le_bytes 8 ids.modify_h
    ++ replicate 88 0

-- The bytes of the packed `ts_VdiFileHeader`.
unfoldable pub vdi_header_bytes : VdiIds → ℕ → ℕ → ℕ → List ℕ
vdi_header_bytes ids image_size entries header_size =
    text_field 64 ids.file_comment
    ++ (type_fields
        ++ (text_field 256 ids.header_comment ++ size_fields ids image_size entries header_size))

-- `InitVirtVdiHeader`. The sizes wrap at 32 bits.
unfoldable pub init_virt_vdi_header : XmountData → VdiIds → Option XmountData
init_virt_vdi_header g ids = elim (get_morphed_image_size g) [
  | none ↦ none
  | some image_size ↦
      let entries : ℕ = block_entries image_size in
      let map_size : ℕ = u32 (entries * 4) in
      let header_size : ℕ = u32 (sizeof_vdi_header + map_size) in
      some (record g {
        vdi_block_map_size = map_size;
        vdi_header_size = header_size;
        vdi_header =
            vdi_header_bytes ids image_size entries header_size ++ block_map entries map_size 0 0;
      })
]
