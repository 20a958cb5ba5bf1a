-- ===== src/Input/Tests.antt =====
-- Runs over one input image of six bytes, of which the first two are skipped.
use xmount.Base.{ℕ, ◌+◌, ◌≡◌, refl, some, [], ◌∷◌, true, arith, slice, ok}
use xmount.Morphing.Images.{Serves, total}
use xmount.Morphing.Combine
use xmount.Morphing.Combine.{CombineHandle}
use xmount.Morphing.Combine.Content.{byte}
use xmount.Morphing.Raid
use xmount.Morphing.Raid.{RaidHandle}
use xmount.Morphing.Raid.Content.{striped}
use xmount.VirtImage.Morphed.{IsMorphed}
use xmount.Input.{InputImage, input_image_functions}
use xmount.Input.Serve.{AreInputs, served_images, input_image_functions-Serves}
use xmount.Input.Mount.{
  combine_functions, raid_functions, morph-combine_functions, morph-raid_functions,
}

abbrev stored : ℕ → ℕ
stored i = i + 10

abbrev image : InputImage
image = record { size = 4; read = λ o n. some (slice stored o n) }

abbrev images-AreInputs : AreInputs 2 (image ∷ []) (stored ∷ [])
images-AreInputs = (record { small = omega arith; reads = λ o n le. refl }, omega arith)

input_image_functions-Serves_example :
    Serves (input_image_functions (image ∷ []) 2) (served_images 2 (image ∷ []) (stored ∷ []))
input_image_functions-Serves_example =
    input_image_functions-Serves 2 (image ∷ []) (stored ∷ []) images-AreInputs

morph-combine_functions_example :
    (h : CombineHandle) × (Combine.morph
        (Combine.create_handle true)
        (input_image_functions (image ∷ []) 2)
      ≡ ok h)
    × IsMorphed
        (combine_functions h)
        (total (served_images 2 (image ∷ []) (stored ∷ [])))
        (byte (served_images 2 (image ∷ []) (stored ∷ [])))
morph-combine_functions_example =
    morph-combine_functions true 2 (image ∷ []) (stored ∷ []) images-AreInputs (omega arith)

abbrev handle : RaidHandle
handle = record (Raid.create_handle true) { chunk_size = 2 }

morph-raid_functions_example :
    (h' : RaidHandle) × (Raid.morph handle (input_image_functions (image ∷ []) 2) ≡ ok h')
    × IsMorphed
        (raid_functions h')
        (Raid.size h')
        (striped (served_images 2 (image ∷ []) (stored ∷ [])) h'.chunk_size)
unfolding Raid.create_handle
morph-raid_functions_example =
    morph-raid_functions handle 2 image [] stored [] images-AreInputs refl (omega arith)
      (omega arith, omega arith) (omega arith)
