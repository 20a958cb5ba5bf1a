-- ===== src/Input/Mount.antt =====
-- The input images under a morphing library, as the virtual image sees them
-- (`glob_xmount.morphing.p_functions` of src/xmount.c with the handle).
use xmount.Base.{ℕ, ◌+◌, ◌^◌, ◌<◌, ◌≡◌, refl, ap, Option, none, some, List, ◌∷◌, arith, Bool, true}
use xmount.Base.{ltb, leb, ◌&&◌, Result, ok, err, fault}
use xmount.Morphing.Images.{Image, total}
use xmount.Morphing.Combine
use xmount.Morphing.Combine.{CombineHandle}
use xmount.Morphing.Combine.Content.{byte}
use xmount.Morphing.Combine.Read.{IsCombined, morph-IsCombined}
use xmount.Morphing.Combine.Read as CombineRead
use xmount.Morphing.Raid
use xmount.Morphing.Raid.{RaidHandle}
use xmount.Morphing.Raid.Content.{striped}
use xmount.Morphing.Raid.Capacity.{Usable}
use xmount.Morphing.Raid.Read.{IsRaid, Hold-total, morph-IsRaid}
use xmount.Morphing.Raid.Read as RaidRead
use xmount.VirtImage.State.{MorphingFunctions}
use xmount.VirtImage.Morphed.{IsMorphed}
use xmount.Input.{InputImage, input_image_functions}
use xmount.Input.Serve.{AreInputs, served_image, served_images, input_image_functions-Serves}

-- Any return code but 0 is an error to the caller. (A fault has no return code; below there is none.)
abbrev succeeded : {E A : Type 0} → Result E A → Option A
succeeded (ok a) = some a
succeeded (err e) = none
succeeded fault = none

unfoldable pub combine_functions : CombineHandle → MorphingFunctions
combine_functions h = record {
  size = some (Combine.size h);
  read = λ o n. succeeded (Combine.read h o n);
}

unfoldable pub raid_functions : RaidHandle → MorphingFunctions
raid_functions h = record { size = some (Raid.size h); read = λ o n. succeeded (Raid.read h o n) }

combine_functions-IsMorphed :
    (imgs : List Image) (h : CombineHandle)
    → IsCombined imgs h
    → total imgs < 2 ^ 63
    → IsMorphed (combine_functions h) (total imgs) (byte imgs)
unfolding combine_functions Combine.size
combine_functions-IsMorphed imgs h c small = record {
  sized = ap some c.sized;
  reads = λ o n lt le.
      let inside : (ltb o (total imgs) && leb (o + n) (total imgs)) ≡ true = ground arith in
      rw (CombineRead.read-byte h o n c (omega arith), inside) refl;
}

raid_functions-IsMorphed :
    (imgs : List Image) (chunks : ℕ) (h : RaidHandle)
    → IsRaid imgs chunks h
    → Raid.size h < 2 ^ 63
    → IsMorphed (raid_functions h) (Raid.size h) (striped imgs h.chunk_size)
unfolding raid_functions
raid_functions-IsMorphed imgs chunks h r small = record {
  sized = refl;
  reads = λ o n lt le.
      let inside : (ltb o (Raid.size h) && leb (o + n) (Raid.size h)) ≡ true = ground arith in
      rw (RaidRead.read-striped h o n r (omega arith), inside) refl;
}

-- Over input images that their libraries read, of less than 2 ^ 63 bytes together, `CombineMorph`
-- succeeds, and its library then serves the images from `image_offset` on, one behind the other.
pub morph-combine_functions :
    (debug : Bool) (image_offset : ℕ) (pp_images : List InputImage) (bytes : List (ℕ → ℕ))
    → AreInputs image_offset pp_images bytes
    → total (served_images image_offset pp_images bytes) < 2 ^ 63
    → (h : CombineHandle) × (Combine.morph
          (Combine.create_handle debug)
          (input_image_functions pp_images image_offset)
        ≡ ok h)
      × IsMorphed
          (combine_functions h)
          (total (served_images image_offset pp_images bytes))
          (byte (served_images image_offset pp_images bytes))
morph-combine_functions debug image_offset ps bytes v small =
    let imgs = served_images image_offset ps bytes in
    let (h, done, c, sized) =
      morph-IsCombined debug (input_image_functions ps image_offset) imgs
        (input_image_functions-Serves image_offset ps bytes v) (omega arith) in
    (h, done, combine_functions-IsMorphed imgs h c small)

-- Over at least one input image, that their libraries read, each of at least one chunk from
-- `image_offset` on and all of less than 2 ^ 63 bytes together, `RaidMorph` on a handle with a chunk
-- size that counts no chunks yet succeeds, and its library then serves the stripes of the images.
pub morph-raid_functions :
    (h : RaidHandle) (image_offset : ℕ) (p_image : InputImage) (pp_images : List InputImage)
    (b : ℕ → ℕ) (bytes : List (ℕ → ℕ))
    → AreInputs image_offset (p_image ∷ pp_images) (b ∷ bytes)
    → h.chunks_per_image ≡ 0
    → 0 < h.chunk_size
    → Usable h.chunk_size (served_images image_offset (p_image ∷ pp_images) (b ∷ bytes))
    → total (served_images image_offset (p_image ∷ pp_images) (b ∷ bytes)) < 2 ^ 63
    → (h' : RaidHandle) × (Raid.morph h (input_image_functions (p_image ∷ pp_images) image_offset)
        ≡ ok h')
      × IsMorphed
          (raid_functions h')
          (Raid.size h')
          (striped (served_images image_offset (p_image ∷ pp_images) (b ∷ bytes)) h'.chunk_size)
morph-raid_functions h image_offset p ps b bytes v fresh pos usable small =
    let imgs = served_images image_offset (p ∷ ps) (b ∷ bytes) in
    let (h', chunks, done, r, held, attained, sized) =
      morph-IsRaid h (input_image_functions (p ∷ ps) image_offset) (served_image image_offset p b)
        (served_images image_offset ps bytes)
        (input_image_functions-Serves image_offset (p ∷ ps) (b ∷ bytes) v) fresh pos usable
        (omega arith) in
    (
      h',
      done,
      raid_functions-IsMorphed imgs chunks h' r
          (omega (arith, sized, Hold-total imgs h.chunk_size chunks held)),
    )
