-- ===== src/Morphing/Raid/Tests.antt =====
-- Runs of `RaidMorph` and `RaidRead` over two images with chunks of two bytes.
use xmount.Base.{
  ℕ, zero, suc, ◌+◌, ◌*◌, ◌<◌, ◌≡◌, refl, Option, none, some, List, [], ◌∷◌, true, arith, slice, ok,
  length,
}
use xmount.Morphing.Images.{InputFunctions, Image, Serves}
use xmount.Morphing.Raid.{RaidHandle, morph, size, read}
use xmount.Morphing.Raid.Content.{striped, Hold}
use xmount.Morphing.Raid.Capacity.{Attained}
use xmount.Morphing.Raid.Read.{IsRaid, morph-IsRaid, read-striped, morph_small_first}

abbrev first : Image
first = record { size = 5; byte = λ i. i + 10 }

abbrev second : Image
second = record { size = 4; byte = λ i. i + 20 }

-- Too small for a chunk.
abbrev tiny : Image
tiny = record { size = 1; byte = λ i. i + 30 }

abbrev sizes : ℕ → ℕ → ℕ → Option ℕ
sizes a b zero = some a
sizes a b (suc zero) = some b
sizes a b (suc (suc i)) = none

abbrev reads : Image → Image → ℕ → ℕ → ℕ → Option (List ℕ)
reads a b zero o n = some (slice a.byte o n)
reads a b (suc zero) o n = some (slice b.byte o n)
reads a b (suc (suc i)) o n = none

abbrev io : Image → Image → InputFunctions
io a b = record { image_count = some 2; size = sizes a.size b.size; read = reads a b }

abbrev serves : (a b : Image) → Serves (io a b) (a ∷ b ∷ [])
serves a b = record {
  counted = refl;
  served = (refl, λ o n le. refl, (refl, λ o n le. refl, refl));
}

abbrev fresh : RaidHandle
fresh = record {
  debug = true;
  input_images_count = 0;
  chunk_size = 2;
  chunks_per_image = 0;
  input_functions = none;
  morphed_image_size = 0;
}

abbrev handle : RaidHandle
handle = record {
  debug = true;
  input_images_count = 2;
  chunk_size = 2;
  chunks_per_image = 2;
  input_functions = some (io first second);
  morphed_image_size = 8;
}

abbrev handle-IsRaid : IsRaid (first ∷ second ∷ []) 2 handle
handle-IsRaid = record {
  io = io first second;
  functions = refl;
  striped_over = record {
    serves = (serves first second).served;
    pos = omega arith;
    held = (omega arith, (omega arith, omega arith));
    small = omega arith;
  };
  counted = refl;
  sized = refl;
}

morph-IsRaid_example :
    (h' : RaidHandle) × (chunks : ℕ) × (morph fresh (io first second) ≡ ok h')
    × IsRaid (first ∷ second ∷ []) chunks h'
    × Hold (first ∷ second ∷ []) 2 chunks
    × Attained 2 (first ∷ second ∷ []) chunks
    × (size h' ≡ chunks * length (first ∷ second ∷ []) * 2)
morph-IsRaid_example =
    morph-IsRaid fresh (io first second) first (second ∷ []) (serves first second) refl
      (omega arith) (omega arith, (omega arith, omega arith)) (omega arith)

read-striped_example : read handle 1 5 ≡ ok (11 ∷ 20 ∷ 21 ∷ 12 ∷ 13 ∷ [])
unfolding slice striped size
read-striped_example = read-striped handle 1 5 handle-IsRaid (omega arith)

morph_small_first_example :
    (h' : RaidHandle) × (morph fresh (io tiny second) ≡ ok h') × (0 < size h') × (◌≡◌ {A = ℕ} 0 0)
morph_small_first_example =
    morph_small_first fresh (io tiny second) tiny second 0 (serves tiny second) refl (omega arith)
      (omega arith) (omega arith) (omega arith, (omega arith, omega arith))
