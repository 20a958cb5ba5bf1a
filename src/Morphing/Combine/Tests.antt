-- ===== src/Morphing/Combine/Tests.antt =====
-- Runs of `CombineMorph` and `CombineRead` over two images.
use xmount.Base.{
  ℕ, zero, suc, ◌+◌, ◌≡◌, refl, Option, none, some, List, [], ◌∷◌, true, arith, slice, ok,
}
use xmount.Morphing.Images.{InputFunctions, Image, Serves, total}
use xmount.Morphing.Combine.{CombineHandle, create_handle, morph, size, read}
use xmount.Morphing.Combine.Content.{byte}
use xmount.Morphing.Combine.Read.{IsCombined, morph-IsCombined, read-byte}

abbrev first : Image
first = record { size = 3; byte = λ i. i + 10 }

abbrev second : Image
second = record { size = 2; byte = λ i. i + 20 }

abbrev images : List Image
images = first ∷ second ∷ []

abbrev sizes : ℕ → Option ℕ
sizes zero = some 3
sizes (suc zero) = some 2
sizes (suc (suc i)) = none

abbrev reads : ℕ → ℕ → ℕ → Option (List ℕ)
reads zero o n = some (slice first.byte o n)
reads (suc zero) o n = some (slice second.byte o n)
reads (suc (suc i)) o n = none

abbrev io : InputFunctions
io = record { image_count = some 2; size = sizes; read = reads }

abbrev serves : Serves io images
serves = record { counted = refl; served = (refl, λ o n le. refl, (refl, λ o n le. refl, refl)) }

abbrev handle : CombineHandle
handle = record {
  debug = true;
  input_images_count = 2;
  input_functions = some io;
  morphed_image_size = 5;
}

abbrev handle-IsCombined : IsCombined images handle
handle-IsCombined = record {
  io = io;
  functions = refl;
  serves = serves.served;
  counted = refl;
  sized = refl;
  small = omega arith;
}

morph-IsCombined_example :
    (h : CombineHandle) × (morph (create_handle true) io ≡ ok h)
    × IsCombined images h
    × (size h ≡ total images)
morph-IsCombined_example = morph-IsCombined true io images serves (omega arith)

read-byte_example : read handle 1 4 ≡ ok (11 ∷ 12 ∷ 20 ∷ 21 ∷ [])
unfolding slice byte
read-byte_example = read-byte handle 1 4 handle-IsCombined (omega arith)
