-- ===== src/Base/Joined.antt =====
-- Two arrays, one behind the other, given by their bytes' positions.
use Prim.Native.Nat.{ℕ, ◌+◌, ◌-◌, ◌≤◌, ◌<◌}
use mathlib.Core.Path.{◌≡◌, ap, ap₂, ◌∙◌}
use mathlib.Core.Logic.{inr}
use mathlib.Core.List.{◌++◌}
use native.Mathlib.Omega.{arith}
use xmount.Base.Tests.{ltb, if◌then◌else◌}
use xmount.Base.Slice.{slice, slice_ext, slice_split}

module _ {ℓ} {A : Type ℓ} (k : ℕ) (f g : ℕ → A) where
  -- `f` below position `k`, and then `g`.
  unfoldable pub joined : ℕ → A
  joined p = if ltb p k then f p else g (p - k)

  pub joined-lt : (p : ℕ) → p < k → joined p ≡ f p
  unfolding joined
  joined-lt p h = ground arith

  pub joined-le : (p q : ℕ) → p ≡ k + q → joined p ≡ g q
  unfolding joined
  joined-le p q h = let e : p - k ≡ q = omega arith in ground (arith, ap g e)

  pub slice-joined_left : (o n : ℕ) → o + n ≤ k → slice joined o n ≡ slice f o n
  slice-joined_left o n h = slice_ext joined f o o n (λ i lt. joined-lt (o + i) (omega arith))

  pub slice-joined_right : (o n : ℕ) → k ≤ o → slice joined o n ≡ slice g (o - k) n
  slice-joined_right o n h =
      slice_ext joined g o (o - k) n (λ i lt. joined-le (o + i) (o - k + i) (omega arith))

  pub slice-joined_both :
      (o n : ℕ)
      → o ≤ k
      → k ≤ o + n
      → slice joined o n ≡ slice f o (k - o) ++ slice g 0 (n - (k - o))
  slice-joined_both o n h h' =
      slice_split joined o k (k - o) n (omega arith) (inr (omega arith))
      ∙ ap₂ ◌++◌ (slice-joined_left o (k - o) (omega arith))
          (slice_ext joined g k 0 (n - (k - o)) (λ i lt. joined-le (k + i) (0 + i) (omega arith)))
