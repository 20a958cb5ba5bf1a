-- ===== src/Input.antt =====
-- The input images: `GetInputImageData`, the cut at `image_offset` in `main`, and the functions that
-- a morphing library is given (`LibXmount_Morphing_ImageCount`, `..._Size`, `..._Read`) of
-- src/xmount.c.
pub mod Serve
pub mod ReadLoop
pub mod Raw
pub mod Vdi
pub mod Qcow
pub mod Mount
mod Tests
use xmount.Base.{ℕ, ◌+◌, ◌-◌, Bool, true, false, Option, none, some, List, [], ◌∷◌}
use xmount.Base.{ltb, leb, ◌==◌, if◌then◌else◌, add64, sub64, length, get_elem?}
use xmount.Morphing.Images.{InputFunctions}

-- `ts_InputImage`: its size, and the `Read` function of its input library on its handle. `none` is
-- a return value other than 0; a read gives the bytes that it stored.
pub record InputImage : Type 0 where
  pub size : ℕ
  pub read : ℕ → ℕ → Option (List ℕ)

-- The lines of `main` that take `image_offset` off the size of an image, and cut it to
-- `image_size_limit`. `none` ends the program.
unfoldable pub cut_image : ℕ → ℕ → InputImage → Option InputImage
cut_image image_offset image_size_limit p_image =
    if ltb p_image.size image_offset
    then none
    else (let size : ℕ = p_image.size - image_offset in
        if image_size_limit == 0
        then some (record p_image { size = size })
        else if ltb size image_size_limit
        then none
        else some (record p_image { size = image_size_limit }))

-- The bytes that `GetInputImageData` stores where it returns 0.
unfoldable pub get_input_image_data : ℕ → InputImage → ℕ → ℕ → Option (List ℕ)
get_input_image_data image_offset p_image offset size =
    if leb p_image.size offset
    then some []
    else (let to_read : ℕ =
          if ltb p_image.size (add64 offset size) then sub64 p_image.size offset else size in
        p_image.read (add64 offset image_offset) to_read)

unfoldable pub morphing_size : List InputImage → ℕ → Option ℕ
morphing_size pp_images image = elim (get_elem? pp_images image) [
  | none ↦ none
  | some p_image ↦ some p_image.size
]

unfoldable pub morphing_read : List InputImage → ℕ → ℕ → ℕ → ℕ → Option (List ℕ)
morphing_read pp_images image_offset image offset count = elim (get_elem? pp_images image) [
  | none ↦ none
  | some p_image ↦ get_input_image_data image_offset p_image offset count
]

-- `glob_xmount.morphing.input_image_functions`
unfoldable pub input_image_functions : List InputImage → ℕ → InputFunctions
input_image_functions pp_images image_offset = record {
  image_count = some (length pp_images);
  size = morphing_size pp_images;
  read = morphing_read pp_images image_offset;
}
