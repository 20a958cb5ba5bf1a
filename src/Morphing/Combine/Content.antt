-- ===== src/Morphing/Combine/Content.antt =====
-- The bytes of images that stand one behind the other.
use xmount.Base.{ℕ, ◌+◌, ◌-◌, ◌≤◌, ◌<◌, ◌≡◌, ap, ap₂, ◌∙◌, ◌⊎◌}
use xmount.Base.{List, [], ◌∷◌, ◌++◌, arith, ltb, if◌then◌else◌, slice, slice_add, slice_ext}
use xmount.Morphing.Images.{Image}

unfoldable pub byte : List Image → ℕ → ℕ
byte [] p = 0
byte (m ∷ ms) p = if ltb p m.size then m.byte p else byte ms (p - m.size)

pub byte-lt : (m : Image) (ms : List Image) (p : ℕ) → p < m.size → byte (m ∷ ms) p ≡ m.byte p
unfolding byte
byte-lt m ms p h = ground arith

pub byte-add : (m : Image) (ms : List Image) (p : ℕ) → byte (m ∷ ms) (m.size + p) ≡ byte ms p
unfolding byte
byte-add m ms p = let e : m.size + p - m.size ≡ p = omega arith in ground (arith, ap (byte ms) e)

-- A stretch that begins in the first image, and that ends in it or goes on in the rest.
pub slice-byte_cons :
    (m : Image) (ms : List Image) (o cur rest : ℕ)
    → o + cur ≤ m.size
    → (rest ≡ 0) ⊎ (o + cur ≡ m.size)
    → slice (byte (m ∷ ms)) o (cur + rest) ≡ slice m.byte o cur ++ slice (byte ms) 0 rest
slice-byte_cons m ms o cur rest fits at_end =
    slice_add (byte (m ∷ ms)) o cur rest
    ∙ ap₂ ◌++◌
        (slice_ext (byte (m ∷ ms)) m.byte o o cur (λ i lt. byte-lt m ms (o + i) (omega arith)))
        (slice_ext (byte (m ∷ ms)) (byte ms) (o + cur) 0 rest
          (λ i lt. ap (byte (m ∷ ms)) (omega arith) ∙ byte-add m ms i ∙ ap (byte ms) (omega arith)))
