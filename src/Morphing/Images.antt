-- ===== src/Morphing/Images.antt =====
-- The functions that xmount hands to a morphing library (`ts_LibXmountMorphingInputFunctions`), and
-- what a library may expect of them: that they serve a list of images.
use xmount.Base.{ℕ, ◌+◌, ◌≤◌, ◌≡◌, Option, none, some, List, [], ◌∷◌}
use xmount.Base.{length, slice}

-- `none` is a return value other than 0. A read gives the bytes that it stored in the buffer, so
-- `*p_read` is their number.
pub record InputFunctions : Type 0 where
  pub image_count : Option ℕ
  pub size : ℕ → Option ℕ
  pub read : ℕ → ℕ → ℕ → Option (List ℕ)

-- An input image as its user sees it.
pub record Image : Type 0 where
  pub size : ℕ
  pub byte : ℕ → ℕ

-- From index `i` on, `io` serves the given images and no further one.
abbrev pub ServesFrom : InputFunctions → ℕ → List Image → Type 0
ServesFrom io i [] = io.size i ≡ none
ServesFrom io i (m ∷ ms) =
    (io.size i ≡ some m.size)
    × ((o n : ℕ) → o + n ≤ m.size → io.read i o n ≡ some (slice m.byte o n))
    × ServesFrom io (i + 1) ms

pub record Serves (io : InputFunctions) (imgs : List Image) : Type 0 where
  pub counted : io.image_count ≡ some (length imgs)
  pub served : ServesFrom io 0 imgs

abbrev pub total : List Image → ℕ
total [] = 0
total (m ∷ ms) = m.size + total ms
