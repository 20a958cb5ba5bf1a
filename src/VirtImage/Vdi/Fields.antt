-- ===== src/VirtImage/Vdi/Fields.antt =====
-- The fields of the header that `InitVirtVdiHeader` builds.
use xmount.Base.{
  ℕ, zero, suc, ◌+◌, ◌*◌, ◌^◌, ◌≤◌, ◌<◌, ◌≡◌, refl, ap, ◌∙◌, some, List, arith, length, get_or,
  le_at,
}
use xmount.VirtImage.State.{XmountData, vdi_cached, vdi_pos}
use xmount.VirtImage.Morphed.{IsMorphed}
use xmount.VirtImage.Get.Content.{HeaderFits}
use xmount.VirtImage.Get.Whole.{VdiFits}
use xmount.VirtImage.Set.{le_bytes}
use xmount.VirtImage.Vdi.{VdiIds, block_entries, type_fields, size_fields, init_virt_vdi_header}
use xmount.VirtImage.Vdi.Header.{FieldsOf, block_entries_lem, init_virt_vdi_header-VdiFits}

-- The header of a VDI file of `size` bytes in so many blocks of 1 MiB, in the byte order of the host:
-- a static image, whose block map is in the bytes from 512 on and puts every block in its own place.
pub record IsVdiHeader (size entries : ℕ) (header : List ℕ) : Type 0 where
  pub signature : le_at header 64 4 ≡ 0xBEDA107F
  pub version : le_at header 68 4 ≡ 0x00010001
  pub header_size : le_at header 72 4 ≡ 0x180
  pub image_type : le_at header 76 4 ≡ 2
  pub offset_blocks : le_at header 340 4 ≡ 512
  pub offset_data : le_at header 344 4 ≡ 512 + entries * 4
  pub sector_size : le_at header 360 4 ≡ 512
  pub disk_size : le_at header 368 8 ≡ size
  pub block_size : le_at header 376 4 ≡ 2 ^ 20
  pub blocks : le_at header 384 4 ≡ entries
  pub allocated : le_at header 388 4 ≡ entries
  pub block_map : (b : ℕ) → b < entries → le_at header (512 + b * 4) 4 ≡ b

le_at_ext :
    (xs ys : List ℕ) (p q w : ℕ)
    → ((i : ℕ) → i < w → get_or xs (p + i) 0 ≡ get_or ys (q + i) 0)
    → le_at xs p w ≡ le_at ys q w
le_at_ext xs ys p q zero h = refl
le_at_ext xs ys p q (suc w) h =
    let here : get_or xs p 0 ≡ get_or ys q 0 =
      ap (λ k. get_or xs k 0) (omega arith)
      ∙ h 0 (omega arith)
      ∙ ap (λ k. get_or ys k 0) (omega arith) in
    let rest = le_at_ext xs ys (p + 1) (q + 1) w (λ i lt.
      ap (λ k. get_or xs k 0) (omega arith)
      ∙ h (suc i) (omega arith)
      ∙ ap (λ k. get_or ys k 0) (omega arith)) in
    omega (arith, here, rest)

module _ (g : XmountData) (ids : VdiIds) (size : ℕ) (f : FieldsOf g ids size) where
  type_at : (o w : ℕ) → o + w ≤ 20 → le_at g.vdi_header (64 + o) w ≡ le_at type_fields o w
  type_at o w le =
      le_at_ext g.vdi_header type_fields (64 + o) o w
        (λ i lt. ap (λ k. get_or g.vdi_header k 0) (omega arith) ∙ f.types (o + i) (omega arith))

  size_at :
      (o w : ℕ)
      → o + w ≤ 172
      → le_at g.vdi_header (340 + o) w
        ≡ le_at (size_fields ids size (block_entries size) (512 + block_entries size * 4)) o w
  size_at o w le =
      le_at_ext g.vdi_header
        (size_fields ids size (block_entries size) (512 + block_entries size * 4)) (340 + o) o w
        (λ i lt. ap (λ k. get_or g.vdi_header k 0) (omega arith) ∙ f.sizes (o + i) (omega arith))

  IsVdiHeader-FieldsOf :
      (entries : ℕ)
      → block_entries size ≡ entries
      → size < 2 ^ 49
      → entries ≤ 2 ^ 29
      → ((b k : ℕ)
          → b < block_entries size
          → k < 4
          → get_or g.vdi_header (512 + (b * 4 + k)) 0 ≡ get_or (le_bytes 4 b) k 0)
      → IsVdiHeader size entries g.vdi_header
  unfolding type_fields size_fields le_bytes
  IsVdiHeader-FieldsOf entries e small few map = record {
    signature = type_at 0 4 (omega arith);
    version = type_at 4 4 (omega arith);
    header_size = type_at 8 4 (omega arith);
    image_type = type_at 12 4 (omega arith);
    offset_blocks = size_at 0 4 (omega arith);
    offset_data = size_at 4 4 (omega arith) ∙ omega (arith, e, few);
    sector_size = size_at 20 4 (omega arith);
    disk_size = size_at 28 8 (omega arith) ∙ omega (arith, small);
    block_size = size_at 36 4 (omega arith);
    blocks = size_at 44 4 (omega arith) ∙ omega (arith, e, few);
    allocated = size_at 48 4 (omega arith) ∙ omega (arith, e, few);
    block_map = λ b lt.
        le_at_ext g.vdi_header (le_bytes 4 b) (512 + b * 4) 0 4 (λ k k_lt.
          ap (λ j. get_or g.vdi_header j 0) (omega arith)
          ∙ map b k (omega (arith, e)) k_lt
          ∙ ap (λ j. get_or (le_bytes 4 b) j 0) (omega arith))
        ∙ omega (arith, few);
  }

-- Over a morphed image of less than 2 ^ 49 bytes, with texts that fit their fields, and a cached
-- header that lies in the cache file if there is one, `InitVirtVdiHeader` succeeds. With so many
-- blocks of 1 MiB as cover the image, the last one with at least one byte of it, the header names the
-- size of the image, that of a block and the number of blocks, and where the block map and the data
-- begin; the block map has each block in its own place; and the header is as reads of a VDI file need
-- it.
pub init_virt_vdi_header-IsVdiHeader :
    (g : XmountData) {size : ℕ} {byte : ℕ → ℕ} (ids : VdiIds) (entries : ℕ)
    → IsMorphed g.morphing size byte
    → size < 2 ^ 49
    → size ≤ entries * 2 ^ 20
    → entries * 2 ^ 20 < size + 2 ^ 20
    → length ids.file_comment ≤ 64
    → length ids.header_comment ≤ 256
    → HeaderFits g.cache vdi_cached vdi_pos (512 + entries * 4)
    → (g' : XmountData) × (init_virt_vdi_header g ids ≡ some g')
      × VdiFits g'
      × (g'.vdi_block_map_size ≡ entries * 4)
      × IsVdiHeader size entries g'.vdi_header
init_virt_vdi_header-IsVdiHeader g {size} ids entries m small covers tight short short' fits =
    let (covers', tight') = block_entries_lem size (omega arith) in
    let e : block_entries size ≡ entries = omega (arith, covers', tight') in
    let (g', done, v, map_size, fields, map) =
      init_virt_vdi_header-VdiFits g ids m small short short' (rw e fits) in
    (
      g',
      done,
      v,
      map_size ∙ ap (λ n. n * 4) e,
      IsVdiHeader-FieldsOf g' ids size fields entries e small (omega arith) map,
    )
