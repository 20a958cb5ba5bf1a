-- ===== src/VirtImage/Vdi/Header.antt =====
-- The header that `InitVirtVdiHeader` builds.
use xmount.Base.{
  ℕ, zero, suc, ◌+◌, ◌-◌, ◌*◌, ◌/◌, ◌^◌, ◌≤◌, ◌<◌, ◌≡◌, refl, ap, ◌∙◌, some, List, ◌++◌, arith,
}
use xmount.Base.{
  length, length-append, length-replicate, replicate, get_or, get_or-append_left,
  get_or-append_right, u32,
}
use xmount.VirtImage.State.{XmountData, sizeof_vdi_header, vdi_cached, vdi_pos}
use xmount.VirtImage.Morphed.{IsMorphed, get_morphed_image_size_lem}
use xmount.VirtImage.Get.Content.{HeaderFits}
use xmount.VirtImage.Get.Whole.{VdiFits}
use xmount.VirtImage.Set.{le_bytes}
use xmount.VirtImage.Vdi.{
  VdiIds, block_entries, block_map, text_field, type_fields, size_fields, vdi_header_bytes,
  init_virt_vdi_header, vdi_image_block_size,
}

text_field_lem :
    (width : ℕ) (text : List ℕ) → length text ≤ width → length (text_field width text) ≡ width
unfolding text_field
text_field_lem width text le = omega (
  arith,
  length-append text (replicate (width - length text) 0),
  length-replicate {A = ℕ} (width - length text) 0,
)

pub length-type_fields : length type_fields ≡ 20
unfolding type_fields le_bytes
length-type_fields = refl

pub length-size_fields :
    (ids : VdiIds) (image_size entries header_size : ℕ)
    → length (size_fields ids image_size entries header_size) ≡ 172
unfolding size_fields le_bytes
length-size_fields ids image_size entries header_size = refl

vdi_header_bytes_lem :
    (ids : VdiIds) (image_size entries header_size : ℕ)
    → length ids.file_comment ≤ 64
    → length ids.header_comment ≤ 256
    → length (vdi_header_bytes ids image_size entries header_size) ≡ sizeof_vdi_header
unfolding vdi_header_bytes
vdi_header_bytes_lem ids image_size entries header_size short short' =
    let sizes = size_fields ids image_size entries header_size in
    let comment = text_field 256 ids.header_comment in
    omega (
      arith,
      length-append (text_field 64 ids.file_comment) (type_fields ++ (comment ++ sizes)),
      length-append type_fields (comment ++ sizes),
      length-append comment sizes,
      text_field_lem 64 ids.file_comment short,
      text_field_lem 256 ids.header_comment short',
      length-type_fields,
      length-size_fields ids image_size entries header_size,
    )

-- Where the fields stand.
vdi_header_bytes-type_fields :
    (ids : VdiIds) (image_size entries header_size i : ℕ) (map : List ℕ)
    → length ids.file_comment ≤ 64
    → i < 20
    → get_or (vdi_header_bytes ids image_size entries header_size ++ map) (64 + i) 0
      ≡ get_or type_fields i 0
unfolding vdi_header_bytes
vdi_header_bytes-type_fields ids image_size entries header_size i map short lt =
    let file = text_field 64 ids.file_comment in
    let comment = text_field 256 ids.header_comment in
    let sizes = size_fields ids image_size entries header_size in
    let at : 64 + i ≡ length file + i = omega (arith, text_field_lem 64 ids.file_comment short) in
    get_or-append_left (file ++ (type_fields ++ (comment ++ sizes))) map (64 + i) 0 (
      omega (
        arith,
        lt,
        length-append file (type_fields ++ (comment ++ sizes)),
        length-append type_fields (comment ++ sizes),
        length-type_fields,
        text_field_lem 64 ids.file_comment short,
      ))
    ∙ ap (λ k. get_or (file ++ (type_fields ++ (comment ++ sizes))) k 0) at
    ∙ get_or-append_right file (type_fields ++ (comment ++ sizes)) i 0
    ∙ get_or-append_left type_fields (comment ++ sizes) i 0 (omega (arith, length-type_fields))

vdi_header_bytes-size_fields :
    (ids : VdiIds) (image_size entries header_size i : ℕ) (map : List ℕ)
    → length ids.file_comment ≤ 64
    → length ids.header_comment ≤ 256
    → i < 172
    → get_or (vdi_header_bytes ids image_size entries header_size ++ map) (340 + i) 0
      ≡ get_or (size_fields ids image_size entries header_size) i 0
unfolding vdi_header_bytes
vdi_header_bytes-size_fields ids image_size entries header_size i map short short' lt =
    let file = text_field 64 ids.file_comment in
    let comment = text_field 256 ids.header_comment in
    let sizes = size_fields ids image_size entries header_size in
    let n = length-size_fields ids image_size entries header_size in
    let n64 = text_field_lem 64 ids.file_comment short in
    let n256 = text_field_lem 256 ids.header_comment short' in
    let at : 340 + i ≡ length file + (length type_fields + (length comment + i)) =
      omega (arith, n64, n256, length-type_fields) in
    get_or-append_left (file ++ (type_fields ++ (comment ++ sizes))) map (340 + i) 0 (
      omega (
        arith,
        lt,
        n,
        n64,
        n256,
        length-append file (type_fields ++ (comment ++ sizes)),
        length-append type_fields (comment ++ sizes),
        length-append comment sizes,
        length-type_fields,
      ))
    ∙ ap (λ k. get_or (file ++ (type_fields ++ (comment ++ sizes))) k 0) at
    ∙ get_or-append_right file (type_fields ++ (comment ++ sizes))
        (length type_fields + (length comment + i)) 0
    ∙ get_or-append_right type_fields (comment ++ sizes) (length comment + i) 0
    ∙ get_or-append_right comment sizes i 0

pub length-le_bytes : (w n : ℕ) → length (le_bytes w n) ≡ w
unfolding le_bytes
length-le_bytes zero n = refl
length-le_bytes (suc w) n = ap suc (length-le_bytes w (n / 2 ^ 8))

-- A round of the loop.
block_map-suc :
    (fuel offset i map_size : ℕ)
    → offset < map_size
    → block_map (suc fuel) map_size offset i
      ≡ le_bytes 4 i ++ block_map fuel map_size (offset + 4) (i + 1)
unfolding block_map
block_map-suc fuel offset i map_size lt = ground arith

block_map_lem :
    (fuel offset i map_size : ℕ)
    → map_size ≡ offset + fuel * 4
    → length (block_map fuel map_size offset i) ≡ fuel * 4
block_map_lem zero offset i map_size e = unfold block_map in omega arith
block_map_lem (suc fuel) offset i map_size e =
    let rest = block_map fuel map_size (offset + 4) (i + 1) in
    ap length (block_map-suc fuel offset i map_size (omega arith))
    ∙ omega (
      arith,
      length-append (le_bytes 4 i) rest,
      length-le_bytes 4 i,
      block_map_lem fuel (offset + 4) (i + 1) map_size (omega arith),
    )

-- Entry `b` of the map is `i + b`.
block_map-entry :
    (fuel offset i b k map_size : ℕ)
    → map_size ≡ offset + fuel * 4
    → b < fuel
    → k < 4
    → get_or (block_map fuel map_size offset i) (b * 4 + k) 0 ≡ get_or (le_bytes 4 (i + b)) k 0
block_map-entry zero offset i b k map_size e lt small = absurd (omega arith)
block_map-entry (suc fuel) offset i zero k map_size e lt small =
    let rest = block_map fuel map_size (offset + 4) (i + 1) in
    let at : 0 * 4 + k ≡ k = omega arith in
    let same : i + 0 ≡ i = omega arith in
    rw (block_map-suc fuel offset i map_size (omega arith), at, same)
      (get_or-append_left (le_bytes 4 i) rest k 0 (omega (arith, length-le_bytes 4 i)))
block_map-entry (suc fuel) offset i (suc b) k map_size e lt small =
    let rest = block_map fuel map_size (offset + 4) (i + 1) in
    let at : suc b * 4 + k ≡ length (le_bytes 4 i) + (b * 4 + k) =
      omega (arith, length-le_bytes 4 i) in
    let same : i + 1 + b ≡ i + suc b = omega arith in
    rw (block_map-suc fuel offset i map_size (omega arith), at)
      (get_or-append_right (le_bytes 4 i) rest (b * 4 + k) 0
        ∙ block_map-entry fuel (offset + 4) (i + 1) b k map_size (omega arith) (omega arith) small
        ∙ ap (λ n. get_or (le_bytes 4 n) k 0) same)

-- The blocks cover the image, the last one with at least one byte.
pub block_entries_lem :
    (image_size : ℕ)
    → image_size < 2 ^ 50
    → (image_size ≤ block_entries image_size * vdi_image_block_size)
      × (block_entries image_size * vdi_image_block_size < image_size + vdi_image_block_size)
unfolding block_entries
block_entries_lem image_size small = (ground arith, ground arith)

-- The fields in the header in memory.
pub record FieldsOf (g : XmountData) (ids : VdiIds) (size : ℕ) : Type 0 where
  pub types : (i : ℕ) → i < 20 → get_or g.vdi_header (64 + i) 0 ≡ get_or type_fields i 0
  pub sizes :
      (i : ℕ)
      → i < 172
      → get_or g.vdi_header (340 + i) 0
        ≡ get_or
            (size_fields ids size (block_entries size) (sizeof_vdi_header + block_entries size * 4))
            i
            0

-- Over a morphed image of less than 2 ^ 49 bytes, with texts that fit their fields, and a cached
-- header that lies in the cache file if there is one, `InitVirtVdiHeader` succeeds. Its block map
-- has an entry for each of the blocks that cover the image, which is the number of the block, in
-- four bytes of the host; its fields stand where the structure has them; and its header is as reads
-- of a VDI file need it.
pub init_virt_vdi_header-VdiFits :
    (g : XmountData) {size : ℕ} {byte : ℕ → ℕ} (ids : VdiIds)
    → IsMorphed g.morphing size byte
    → size < 2 ^ 49
    → length ids.file_comment ≤ 64
    → length ids.header_comment ≤ 256
    → HeaderFits g.cache vdi_cached vdi_pos (sizeof_vdi_header + block_entries size * 4)
    → (g' : XmountData) × (init_virt_vdi_header g ids ≡ some g')
      × VdiFits g'
      × (g'.vdi_block_map_size ≡ block_entries size * 4)
      × FieldsOf g' ids size
      × ((b k : ℕ)
          → b < block_entries size
          → k < 4
          → get_or g'.vdi_header (sizeof_vdi_header + (b * 4 + k)) 0 ≡ get_or (le_bytes 4 b) k 0)
unfolding init_virt_vdi_header
init_virt_vdi_header-VdiFits g {size} ids m small short short' fits =
    let entries : ℕ = block_entries size in
    let (covers, tight) = block_entries_lem size (omega arith) in
    let map_size : u32 (entries * 4) ≡ entries * 4 = omega (arith, tight) in
    let header_size : u32 (sizeof_vdi_header + entries * 4) ≡ sizeof_vdi_header + entries * 4 =
      omega (arith, tight) in
    let front = vdi_header_bytes ids size entries (sizeof_vdi_header + entries * 4) in
    let map = block_map entries (entries * 4) 0 0 in
    let front_length =
      vdi_header_bytes_lem ids size entries (sizeof_vdi_header + entries * 4) short short' in
    let all : length (front ++ map) ≡ sizeof_vdi_header + entries * 4 = omega (
      arith,
      length-append front map,
      front_length,
      block_map_lem entries 0 0 (entries * 4) (omega arith),
    ) in
    (
      record g {
        vdi_block_map_size = entries * 4;
        vdi_header_size = sizeof_vdi_header + entries * 4;
        vdi_header = front ++ map;
      },
      rw (get_morphed_image_size_lem g m, init_virt_vdi_header, map_size, header_size) refl,
      record { sized = refl; in_memory = all; small = omega (arith, tight); in_file = rw all fits },
      refl,
      record {
        types = λ i lt.
            vdi_header_bytes-type_fields ids size entries (sizeof_vdi_header + entries * 4) i map
              short lt;
        sizes = λ i lt.
            vdi_header_bytes-size_fields ids size entries (sizeof_vdi_header + entries * 4) i map
              short short' lt;
      },
      λ b k lt lt'.
          let at : sizeof_vdi_header + (b * 4 + k) ≡ length front + (b * 4 + k) =
            omega (arith, front_length) in
          ap (λ i. get_or (front ++ map) i 0) at
          ∙ get_or-append_right front map (b * 4 + k) 0
          ∙ block_map-entry entries 0 0 b k (entries * 4) (omega arith) lt lt'
          ∙ ap (λ n. get_or (le_bytes 4 n) k 0) (omega arith),
    )
