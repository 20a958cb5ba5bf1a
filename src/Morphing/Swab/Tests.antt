-- ===== src/Morphing/Swab/Tests.antt =====
-- Runs of `SwabMorph` and `SwabRead` over an image of six bytes.
use xmount.Base.{
  ℕ, zero, suc, ◌+◌, ◌≡◌, refl, Option, none, some, List, [], ◌∷◌, true, arith, slice, ok,
}
use xmount.Morphing.Images.{InputFunctions, Image, Serves}
use xmount.Morphing.Swab.{SwabHandle, create_handle, morph, size, read}
use xmount.Morphing.Swab.Read.{swabbed, IsSwab, morph-IsSwab, read-swabbed}

abbrev image : Image
image = record { size = 6; byte = λ i. i + 10 }

abbrev sizes : ℕ → Option ℕ
sizes zero = some 6
sizes (suc i) = none

abbrev reads : ℕ → ℕ → ℕ → Option (List ℕ)
reads zero o n = some (slice image.byte o n)
reads (suc i) o n = none

abbrev io : InputFunctions
io = record { image_count = some 1; size = sizes; read = reads }

abbrev serves : Serves io (image ∷ [])
serves = record { counted = refl; served = (refl, λ o n le. refl, refl) }

abbrev handle : SwabHandle
handle = record {
  debug = true;
  input_images_count = 1;
  input_functions = some io;
  morphed_image_size = 6;
}

abbrev handle-IsSwab : IsSwab image handle
handle-IsSwab = record {
  io = io;
  functions = refl;
  serves = λ o n le. refl;
  sized = refl;
  small = omega arith;
}

morph-IsSwab_example :
    (h : SwabHandle) × (morph (create_handle true) io ≡ ok h)
    × IsSwab image h
    × (size h ≡ image.size)
morph-IsSwab_example = morph-IsSwab true io image serves (omega arith)

read-swabbed_example : read handle 2 4 ≡ ok (13 ∷ 12 ∷ 15 ∷ 14 ∷ [])
unfolding slice swabbed
read-swabbed_example = read-swabbed handle 2 4 handle-IsSwab (omega arith)
