-- ===== src/Morphing/Combine/Read.antt =====
-- `CombineRead` returns the bytes of the images one behind the other.
use xmount.Base.{ℕ, zero, suc, ◌+◌, ◌-◌, ◌^◌, ◌≤◌, ◌<◌, ◌≡◌, refl, ap, inl, inr}
use xmount.Base.{List, [], ◌∷◌, arith, length, slice, length-slice, ok, some, Bool}
use xmount.Base.{
  leb, ◌&&◌, err, tests, ◌⊎◌, ltb→lt, ltb→le, ltb, if◌then◌else◌, add64, sub64, Bool-cases,
  slice_ext,
}
use xmount.Morphing.Images.{InputFunctions, Image, ServesFrom, Serves, total}
use xmount.Morphing.Combine.{
  CombineHandle, create_handle, add_sizes, morph, search_image, read_images, read,
  read_beyond_end_of_image, size,
}
use xmount.Morphing.Combine.Content.{byte, slice-byte_cons}
use xmount.Morphing.Combine.Search.{search_image-Found}

-- The offset lies in the first image, or at its end.
abbrev AtFirst : List Image → ℕ → Type 0
AtFirst [] offset = offset ≡ 0
AtFirst (m ∷ ms) offset = offset ≤ m.size

AtFirst-zero : (imgs : List Image) → AtFirst imgs 0
AtFirst-zero [] = refl
AtFirst-zero (m ∷ ms) = omega arith

-- One round of `cur` bytes, given that the later rounds read the rest.
read_images-suc :
    (io : InputFunctions) (i : ℕ) (m : Image) (ms : List Image) (offset count cur : ℕ)
    → ServesFrom io i (m ∷ ms)
    → (if ltb m.size (add64 offset count) then sub64 m.size offset else count) ≡ cur
    → 0 < count
    → offset + cur ≤ m.size
    → cur ≤ count
    → (count - cur ≡ 0) ⊎ (offset + cur ≡ m.size)
    → read_images io (length ms) (i + 1) 0 (count - cur) ≡ ok (slice (byte ms) 0 (count - cur))
    → read_images io (suc (length ms)) i offset count ≡ ok (slice (byte (m ∷ ms)) offset count)
unfolding read_images
read_images-suc io i m ms offset count cur s e more fits le at_end ih =
    let split : cur + (count - cur) ≡ count = omega arith in
    let joined = slice-byte_cons m ms offset cur (count - cur) fits at_end in
    ground (
      arith,
      s.0,
      s.1 offset cur fits,
      length-slice m.byte offset cur,
      joined,
      ap (slice (byte (m ∷ ms)) offset) split,
    )

-- What `CombineRead` reads from an offset in the first image on.
pub read_images_lem :
    (io : InputFunctions) (i : ℕ) (imgs : List Image) (offset count : ℕ)
    → ServesFrom io i imgs
    → AtFirst imgs offset
    → offset + count ≤ total imgs
    → total imgs < 2 ^ 64
    → read_images io (length imgs) i offset count ≡ ok (slice (byte imgs) offset count)
unfolding read_images slice
read_images_lem io i [] offset count s at fits small = ground arith
read_images_lem io i (m ∷ ms) offset zero s at fits small = refl
read_images_lem io i (m ∷ ms) offset (suc n) s at fits small =
    elim (Bool-cases (ltb m.size (add64 offset (suc n)))) [
      | inl beyond ↦
          read_images-suc io i m ms offset (suc n) (m.size - offset) s (ground arith) (omega arith)
            (omega arith) (omega (tests, ltb→lt _ _ beyond)) (inr (omega arith))
            (read_images_lem io (i + 1) ms 0 (suc n - (m.size - offset)) s.2 (AtFirst-zero ms)
              (omega (tests, ltb→lt _ _ beyond)) (omega arith))
      | inr within ↦
          read_images-suc io i m ms offset (suc n) (suc n) s (ground arith) (omega arith)
            (omega (tests, ltb→le _ _ within)) (omega arith) (inl (omega arith))
            (read_images_lem io (i + 1) ms 0 (suc n - suc n) s.2 (AtFirst-zero ms) (omega arith)
              (omega arith))
    ]

add_sizes_lem :
    (io : InputFunctions) (i acc : ℕ) (imgs : List Image)
    → ServesFrom io i imgs
    → acc + total imgs < 2 ^ 64
    → add_sizes io (length imgs) i acc ≡ ok (acc + total imgs)
unfolding add_sizes
add_sizes_lem io i acc [] s small = ap ok (omega arith)
add_sizes_lem io i acc (m ∷ ms) s small =
    let e : add64 acc m.size ≡ acc + m.size = omega arith in
    rw (s.0, e, add_sizes_lem io (i + 1) (acc + m.size) ms s.2 (omega arith)) (ap ok (omega arith))

-- The handle of a successful `CombineMorph` over the images.
pub record IsCombined (imgs : List Image) (h : CombineHandle) : Type 0 where
  pub io : InputFunctions
  pub functions : h.input_functions ≡ some io
  pub serves : ServesFrom io 0 imgs
  pub counted : h.input_images_count ≡ length imgs
  pub sized : h.morphed_image_size ≡ total imgs
  pub small : total imgs < 2 ^ 64

-- On a fresh handle, `CombineMorph` over images whose sizes add up below 2 ^ 64 succeeds, and the
-- handle is set up for them: `CombineSize` then returns the sum of the sizes.
pub morph-IsCombined :
    (debug : Bool) (io : InputFunctions) (imgs : List Image)
    → Serves io imgs
    → total imgs < 2 ^ 64
    → (h : CombineHandle) × (morph (create_handle debug) io ≡ ok h)
      × IsCombined imgs h
      × (size h ≡ total imgs)
unfolding morph create_handle size
morph-IsCombined debug io imgs s small = (
  record {
    debug = debug;
    input_images_count = length imgs;
    input_functions = some io;
    morphed_image_size = total imgs;
  },
  ground (arith, s.counted, add_sizes_lem io 0 0 imgs s.served (omega arith)),
  record {
    io = io;
    functions = refl;
    serves = s.served;
    counted = refl;
    sized = refl;
    small = small;
  },
  refl,
)

read-inside :
    {imgs : List Image} (h : CombineHandle) (offset count : ℕ)
    → IsCombined imgs h
    → offset < total imgs
    → offset + count ≤ total imgs
    → read h offset count ≡ ok (slice (byte imgs) offset count)
unfolding read
read-inside {imgs} h offset count c inside fits =
    let (f, found) =
      search_image-Found c.io (suc (length imgs)) 0 imgs offset c.serves (omega arith) inside in
    let whole = f.first ∷ f.rest in
    let pieces =
      read_images_lem c.io f.image whole f.image_offset count f.serves (omega (arith, f.inside))
        (omega (arith, f.remaining)) (omega (arith, f.remaining, f.back, c.small)) in
    let left : h.input_images_count - f.image ≡ length whole = omega (arith, c.counted, f.count) in
    let same = slice_ext (byte imgs) (byte whole) offset f.image_offset count (λ i lt. f.bytes i) in
    ground (
      arith,
      c.functions,
      c.sized,
      found,
      ap (λ n. search_image c.io (suc n) 0 offset) c.counted,
      ap (λ n. read_images c.io n f.image f.image_offset count) left,
      pieces,
      same,
    )

-- For offsets and counts whose sum does not wrap, `CombineRead` on a handle that is set up over
-- images returns their bytes, one image behind the other, if the stretch begins and ends inside,
-- and its error code for a read beyond the end otherwise.
pub read-byte :
    {imgs : List Image} (h : CombineHandle) (offset count : ℕ)
    → IsCombined imgs h
    → offset + count < 2 ^ 64
    → read h offset count ≡ (
        if ltb offset (total imgs) && leb (offset + count) (total imgs)
        then ok (slice (byte imgs) offset count)
        else err read_beyond_end_of_image)
unfolding read
read-byte {imgs} h offset count c small =
    elim (Bool-cases (ltb offset (total imgs) && leb (offset + count) (total imgs))) [
      | inl inside ↦
          let within : (offset < total imgs) × (offset + count ≤ total imgs) = ground arith in
          rw inside (read-inside h offset count c within.0 within.1)
      | inr outside ↦ ground (arith, c.sized)
    ]
