-- ===== src/Input/Serve.antt =====
-- The input functions serve the images from `image_offset` on.
use xmount.Base.{
  ℕ, suc, ◌+◌, ◌^◌, ◌≤◌, ◌<◌, ◌≡◌, refl, ap, ◌∙◌, inl, inr, none, some, List, [], ◌∷◌, arith,
  Bool-cases,
}
use xmount.Base.{leb, leb→le, length, get_elem?, slice, slice_ext}
use xmount.Morphing.Images.{Image, Serves, ServesFrom}
use xmount.Input.{
  InputImage, get_input_image_data, morphing_size, morphing_read, input_image_functions,
}

-- An input library reads the bytes of its image: `p_image.size` of them are behind `image_offset`.
pub record IsInput (image_offset : ℕ) (p_image : InputImage) (byte : ℕ → ℕ) : Type 0 where
  pub small : image_offset + p_image.size < 2 ^ 63
  pub reads :
      (o n : ℕ) → o + n ≤ image_offset + p_image.size → p_image.read o n ≡ some (slice byte o n)

-- Bytes for each of the images.
abbrev pub AreInputs : ℕ → List InputImage → List (ℕ → ℕ) → Type 0
AreInputs image_offset [] [] = 0 ≤ image_offset
AreInputs image_offset (p ∷ ps) (b ∷ bs) = IsInput image_offset p b × AreInputs image_offset ps bs
AreInputs image_offset [] (b ∷ bs) = 1 ≤ 0
AreInputs image_offset (p ∷ ps) [] = 1 ≤ 0

-- An image from `image_offset` on.
abbrev pub served_image : ℕ → InputImage → (ℕ → ℕ) → Image
served_image image_offset p_image byte = record {
  size = p_image.size;
  byte = λ i. byte (i + image_offset);
}

abbrev pub served_images : ℕ → List InputImage → List (ℕ → ℕ) → List Image
served_images image_offset [] bs = []
served_images image_offset (p ∷ ps) [] = []
served_images image_offset (p ∷ ps) (b ∷ bs) =
    served_image image_offset p b ∷ served_images image_offset ps bs

-- Inside the size, `GetInputImageData` returns the bytes behind `image_offset`.
get_input_image_data-inside :
    (image_offset : ℕ) (p_image : InputImage) (byte : ℕ → ℕ) (o n : ℕ)
    → IsInput image_offset p_image byte
    → o + n ≤ p_image.size
    → get_input_image_data image_offset p_image o n
      ≡ some (slice (λ i. byte (i + image_offset)) o n)
unfolding get_input_image_data slice
get_input_image_data-inside image_offset p_image byte o n v le =
    elim (Bool-cases (leb p_image.size o)) [
      | inl behind ↦
          let none_left : n ≡ 0 = omega (arith, leb→le _ _ behind) in
          rw (behind, get_input_image_data, none_left) refl
      | inr inside ↦ ground (
        arith,
        v.small,
        v.reads (o + image_offset) n (omega arith),
        slice_ext byte (λ i. byte (i + image_offset)) (o + image_offset) o n
            (λ i lt. ap byte (omega arith)),
      )
    ]

-- From index `i` on, `after` stands in `all`.
ServesFrom-images :
    (image_offset : ℕ) (all : List InputImage) (i : ℕ) (after : List InputImage)
    (bytes : List (ℕ → ℕ))
    → AreInputs image_offset after bytes
    → ((k : ℕ) → get_elem? all (i + k) ≡ get_elem? after k)
    → ServesFrom (input_image_functions all image_offset) i (served_images image_offset after bytes)
unfolding input_image_functions morphing_size morphing_read
ServesFrom-images image_offset all i [] [] v at =
    let e : i + 0 ≡ i = omega arith in
    let none_left : get_elem? all i ≡ none = rw e at (at 0) in rw (none_left, morphing_size) refl
ServesFrom-images image_offset all i (p ∷ after) [] v at = absurd (omega arith)
ServesFrom-images image_offset all i [] (b ∷ bytes) v at = absurd (omega arith)
ServesFrom-images image_offset all i (p ∷ after) (b ∷ bytes) v at =
    let e : i + 0 ≡ i = omega arith in
    let here : get_elem? all i ≡ some p = rw e at (at 0) in
    (
      rw (here, morphing_size) refl,
      λ o n le. rw (here, morphing_read) (get_input_image_data-inside image_offset p b o n v.0 le),
      ServesFrom-images image_offset all (i + 1) after bytes v.1
          (λ k. ap (get_elem? all) (omega arith) ∙ at (suc k)),
    )

length-served_images :
    (image_offset : ℕ) (ps : List InputImage) (bytes : List (ℕ → ℕ))
    → AreInputs image_offset ps bytes
    → length ps ≡ length (served_images image_offset ps bytes)
length-served_images image_offset [] [] v = refl
length-served_images image_offset [] (b ∷ bytes) v = absurd (omega arith)
length-served_images image_offset (p ∷ ps) [] v = absurd (omega arith)
length-served_images image_offset (p ∷ ps) (b ∷ bytes) v =
    ap suc (length-served_images image_offset ps bytes v.1)

-- Over input images whose libraries read them, the functions that a morphing library is given count
-- the images, and for each one return its size and, inside it, its bytes from `image_offset` on.
pub input_image_functions-Serves :
    (image_offset : ℕ) (pp_images : List InputImage) (bytes : List (ℕ → ℕ))
    → AreInputs image_offset pp_images bytes
    → Serves
        (input_image_functions pp_images image_offset)
        (served_images image_offset pp_images bytes)
unfolding input_image_functions
input_image_functions-Serves image_offset ps bytes v = record {
  counted = ap some (length-served_images image_offset ps bytes v);
  served = ServesFrom-images image_offset ps 0 ps bytes v (λ k. ap (get_elem? ps) (omega arith));
}
