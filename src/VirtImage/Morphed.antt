-- ===== src/VirtImage/Morphed.antt =====
-- Sizes, and reading the morphed image: `GetMorphedImageSize`, `GetVirtImageSize` and
-- `GetMorphedImageData` of src/xmount.c.
use xmount.Base.{ℕ, ◌+◌, ◌^◌, ◌≤◌, ◌<◌, ◌≡◌, Option, none, some, List, true, false}
use xmount.Base.{ltb, leb, ◌==◌, if◌then◌else◌, add64, sub64, slice, arith}
use xmount.VirtImage.State.{VirtImageType, vdi, vhd, MorphingFunctions, XmountData}
use xmount.VirtImage.State.{sizeof_vdi_header, sizeof_vhd_header}

-- `none` is the FALSE of these functions.
unfoldable pub get_morphed_image_size : XmountData → Option ℕ
get_morphed_image_size g = g.morphing.size

-- What the virtual image has beside the morphed one.
abbrev pub extra_size : XmountData → VirtImageType → ℕ
extra_size g vdi = sizeof_vdi_header + g.vdi_block_map_size
extra_size g vhd = sizeof_vhd_header
extra_size g _ = 0

unfoldable pub get_virt_image_size : XmountData → Option (ℕ × XmountData)
get_virt_image_size g = elim (g.image_size == 0) [
  | false ↦ some (g.image_size, g)
  | true ↦ elim (get_morphed_image_size g) [
    | none ↦ none
    | some n ↦
        let size : ℕ = add64 n (extra_size g g.virt_image_type) in
        some (size, record g { image_size = size })
  ]
]

-- The return value of `GetMorphedImageData`: -EIO; 0 at or beyond the end, where `*p_read` is 0; or
-- TRUE with `*p_read` and the bytes.
pub data MorphedData : Type 0 where
  failed beyond_end : MorphedData
  got : ℕ → List ℕ → MorphedData

unfoldable pub get_morphed_image_data : XmountData → ℕ → ℕ → MorphedData
unfolding get_morphed_image_size
get_morphed_image_data g offset size = elim (get_morphed_image_size g) [
  | none ↦ failed
  | some image_size ↦
      if leb image_size offset
      then beyond_end
      else let to_read : ℕ =
          if ltb image_size (add64 offset size) then sub64 image_size offset else size in
        elim (g.morphing.read offset to_read) [ none ↦ failed | some bytes ↦ got to_read bytes ]
]

-- What the morphing library is expected to do: its image has `size` bytes, and a stretch inside it
-- that begins before the end can be read.
pub record IsMorphed (m : MorphingFunctions) (size : ℕ) (byte : ℕ → ℕ) : Type 0 where
  pub sized : m.size ≡ some size
  pub reads : (o n : ℕ) → o < size → o + n ≤ size → m.read o n ≡ some (slice byte o n)

pub get_morphed_image_size_lem :
    (g : XmountData) {size : ℕ} {byte : ℕ → ℕ}
    → IsMorphed g.morphing size byte
    → get_morphed_image_size g ≡ some size
unfolding get_morphed_image_size
get_morphed_image_size_lem g m = m.sized

pub get_morphed_image_data-inside :
    (g : XmountData) {size : ℕ} {byte : ℕ → ℕ} (o n : ℕ)
    → IsMorphed g.morphing size byte
    → size < 2 ^ 64
    → o < size
    → o + n ≤ size
    → get_morphed_image_data g o n ≡ got n (slice byte o n)
unfolding get_morphed_image_data
get_morphed_image_data-inside g o n m small lt le = ground (arith, m.sized, m.reads o n)

pub get_morphed_image_data-beyond :
    (g : XmountData) {size : ℕ} {byte : ℕ → ℕ} (o n : ℕ)
    → IsMorphed g.morphing size byte
    → size ≤ o
    → get_morphed_image_data g o n ≡ beyond_end
unfolding get_morphed_image_data
get_morphed_image_data-beyond g o n m le = ground (arith, m.sized)
