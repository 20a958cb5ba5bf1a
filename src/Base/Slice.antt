-- ===== src/Base/Slice.antt =====
-- A stretch of an array that is given by its bytes' positions.
use Prim.Native.Nat.{ℕ, zero, suc, ◌+◌, ◌-◌, ◌≤◌, ◌<◌}
use mathlib.Core.Path.{◌≡◌, refl, sym, ap, ap₂, ◌∙◌}
use mathlib.Core.Logic.{◌⊎◌, inl, inr}
use mathlib.Core.List.{List, [], ◌∷◌, ◌++◌}
use native.Mathlib.Omega.{arith}
use xmount.Base.Lists.{length, get_or, take, drop, replicate}

module _ {ℓ} {A : Type ℓ} where
  -- The `n` elements of `f` from position `o` on.
  unfoldable pub slice : (ℕ → A) → ℕ → ℕ → List A
  slice f o zero = []
  slice f o (suc n) = f o ∷ slice f (o + 1) n

  pub length-slice : (f : ℕ → A) (o n : ℕ) → length (slice f o n) ≡ n
  unfolding slice
  length-slice f o zero = refl
  length-slice f o (suc n) = ap suc (length-slice f (o + 1) n)

  pub slice_add : (f : ℕ → A) (o m n : ℕ) → slice f o (m + n) ≡ slice f o m ++ slice f (o + m) n
  unfolding slice
  slice_add f o zero n = ap₂ (slice f) (omega arith) (omega arith)
  slice_add f o (suc m) n =
      let e : suc m + n ≡ suc (m + n) = omega arith in
      let s : o + 1 + m ≡ o + suc m = omega arith in
      ap (slice f o) e
      ∙ ap (◌∷◌ (f o)) (slice_add f (o + 1) m n ∙ ap (λ k. slice f (o + 1) m ++ slice f k n) s)

  pub slice_ext :
      (f g : ℕ → A) (o p n : ℕ)
      → ((i : ℕ) → i < n → f (o + i) ≡ g (p + i))
      → slice f o n ≡ slice g p n
  unfolding slice
  slice_ext f g o p zero h = refl
  slice_ext f g o p (suc n) h =
      ap₂ ◌∷◌ (ap f (omega arith) ∙ h 0 (omega arith) ∙ ap g (omega arith)) (
        slice_ext f g (o + 1) (p + 1) n
          (λ i lt. ap f (omega arith) ∙ h (suc i) (omega arith) ∙ ap g (omega arith)))

  pub get_or-slice : (f : ℕ → A) (o n i : ℕ) (d : A) → i < n → get_or (slice f o n) i d ≡ f (o + i)
  unfolding slice
  get_or-slice f o zero i d h = absurd (omega arith)
  get_or-slice f o (suc n) zero d h = ap f (omega arith)
  get_or-slice f o (suc n) (suc i) d h =
      get_or-slice f (o + 1) n i d (omega arith) ∙ ap f (omega arith)

  -- A stretch of `count` is its first `cur` elements and the rest, which begins at `q` if there is
  -- any.
  pub slice_split :
      (f : ℕ → A) (p q cur count : ℕ)
      → cur ≤ count
      → (count - cur ≡ 0) ⊎ (p + cur ≡ q)
      → slice f p count ≡ slice f p cur ++ slice f q (count - cur)
  unfolding slice
  slice_split f p q cur count le (inl done) =
      let e : count ≡ cur + 0 = omega arith in rw done (ap (slice f p) e ∙ slice_add f p cur 0)
  slice_split f p q cur count le (inr e) =
      let e' : count ≡ cur + (count - cur) = omega arith in
      ap (slice f p) e'
      ∙ slice_add f p cur (count - cur)
      ∙ ap (λ k. slice f p cur ++ slice f k (count - cur)) e

  -- A stretch of one value.
  pub slice-replicate :
      (f : ℕ → A) (a : A) (o n : ℕ)
      → ((i : ℕ) → i < n → f (o + i) ≡ a)
      → slice f o n ≡ replicate n a
  unfolding slice
  slice-replicate f a o zero h = refl
  slice-replicate f a o (suc n) h =
      ap₂ ◌∷◌ (ap f (omega arith) ∙ h 0 (omega arith))
        (slice-replicate f a (o + 1) n (λ i lt. ap f (omega arith) ∙ h (suc i) (omega arith)))

  slice_cons :
      (x : A) (xs : List A) (n : ℕ) (d : A)
      → slice (λ i. get_or (x ∷ xs) i d) 0 (suc n) ≡ x ∷ slice (λ i. get_or xs i d) 0 n
  unfolding slice
  slice_cons x xs n d = ap (◌∷◌ x) (
      slice_ext (λ i. get_or (x ∷ xs) i d) (λ i. get_or xs i d) (0 + 1) 0 n
        (λ i lt. let e : 0 + 1 + i ≡ suc (0 + i) = omega arith in rw e))

  pub take-drop-eq-slice :
      (xs : List A) (o n : ℕ) (d : A)
      → o + n ≤ length xs
      → take n (drop o xs) ≡ slice (λ i. get_or xs i d) o n
  take-drop-eq-slice [] zero zero d h = unfold slice in refl
  take-drop-eq-slice [] zero (suc n) d h = absurd (omega arith)
  take-drop-eq-slice [] (suc o) n d h = absurd (omega arith)
  take-drop-eq-slice (x ∷ xs) zero zero d h = unfold slice in refl
  take-drop-eq-slice (x ∷ xs) zero (suc n) d h =
      ap (◌∷◌ x) (take-drop-eq-slice xs zero n d (omega arith)) ∙ sym (slice_cons x xs n d)
  take-drop-eq-slice (x ∷ xs) (suc o) n d h =
      take-drop-eq-slice xs o n d (omega arith)
      ∙ slice_ext (λ i. get_or xs i d) (λ i. get_or (x ∷ xs) i d) o (suc o) n
          (λ i lt. let e : suc o + i ≡ suc (o + i) = omega arith in rw e)
