-- ===== src/Morphing/Raid/Content.antt =====
-- The bytes of a striped image.
use xmount.Base.{ℕ, zero, suc, ◌+◌, ◌*◌, ◌/◌, ◌%◌, ◌≤◌, ◌<◌, ◌≡◌, ap, some}
use xmount.Base.{List, [], ◌∷◌, arith, get_or, length, slice, slice_ext}
use xmount.Base.{block-div, block-mod}
use xmount.Morphing.Images.{InputFunctions, Image, ServesFrom}

abbrev pub no_image : Image
no_image = record { size = 0; byte = λ p. 0 }

abbrev pub image_at : List Image → ℕ → Image
image_at imgs i = get_or imgs i no_image

-- Byte `p` lies in chunk `p / c`, which is chunk `p / c / n` of image `p / c % n`.
unfoldable pub striped : List Image → ℕ → ℕ → ℕ
striped imgs c p = let n = length imgs in (image_at imgs (p / c % n)).byte (p / c / n * c + p % c)

-- A stretch inside one chunk.
pub slice-striped :
    (imgs : List Image) (c chunk o count : ℕ)
    → o + count ≤ c
    → slice (striped imgs c) (chunk * c + o) count
      ≡ slice (image_at imgs (chunk % length imgs)).byte (chunk / length imgs * c + o) count
unfolding striped
slice-striped imgs c chunk o count fits =
    slice_ext (striped imgs c) (image_at imgs (chunk % length imgs)).byte (chunk * c + o)
      (chunk / length imgs * c + o) count (λ i lt. inside i (omega arith))
  where
    inside :
        (i : ℕ)
        → o + i < c
        → striped imgs c (chunk * c + o + i)
          ≡ (image_at imgs (chunk % length imgs)).byte (chunk / length imgs * c + o + i)
    inside i lt =
        let e : chunk * c + o + i ≡ chunk * c + (o + i) = omega arith in
        rw (e, striped, block-div chunk c (o + i) lt, block-mod chunk c (o + i) lt)
          (ap (image_at imgs (chunk % length imgs)).byte (omega arith))

-- What the input functions do for the image at an index.
pub read-image_at :
    (io : InputFunctions) (i k : ℕ) (imgs : List Image) (o n : ℕ)
    → ServesFrom io i imgs
    → k < length imgs
    → o + n ≤ (image_at imgs k).size
    → io.read (i + k) o n ≡ some (slice (image_at imgs k).byte o n)
read-image_at io i k [] o n s lt fits = absurd (omega arith)
read-image_at io i zero (m ∷ ms) o n s lt fits =
    let e : i + zero ≡ i = omega arith in rw e (s.1 o n fits)
read-image_at io i (suc k) (m ∷ ms) o n s lt fits =
    let e : i + suc k ≡ i + 1 + k = omega arith in
    rw e (read-image_at io (i + 1) k ms o n s.2 (omega arith) fits)

-- Every image holds that many chunks.
abbrev pub Hold : List Image → ℕ → ℕ → Type 0
Hold [] c chunks = 0 ≤ chunks
Hold (m ∷ ms) c chunks = (chunks * c ≤ m.size) × Hold ms c chunks

pub Hold-at :
    (imgs : List Image) (c chunks k : ℕ)
    → Hold imgs c chunks
    → k < length imgs
    → chunks * c ≤ (image_at imgs k).size
Hold-at [] c chunks k h lt = absurd (omega arith)
Hold-at (m ∷ ms) c chunks zero h lt = h.0
Hold-at (m ∷ ms) c chunks (suc k) h lt = Hold-at ms c chunks k h.1 (omega arith)
