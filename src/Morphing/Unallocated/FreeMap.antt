-- ===== src/Morphing/Unallocated/FreeMap.antt =====
-- A map of free blocks, as the file system's functions build it block by block.
use xmount.Base.{ℕ, zero, suc, ◌+◌, ◌≤◌, ◌<◌, ◌≡◌, ap, sym, ◌∙◌, List, [], ◌∷◌, arith}
use xmount.Base.{length, get_or}
use mathlib.Core.Path.{subst}
use native.Mathlib.Decide.{ℕ_discrete}

-- The map holds the positions of the free ones of `total` blocks from `first` on, and no others.
pub record IsFreeMap (total : ℕ) (free : ℕ → Type 0) (pos : ℕ → ℕ) (first : ℕ) (map : List ℕ)
    : Type 0 where
  pub sound :
      (k : ℕ)
      → k < length map
      → (b : ℕ) × (first ≤ b) × (b < total) × free b × (get_or map k 0 ≡ pos b)
  pub complete :
      (b : ℕ)
      → first ≤ b
      → b < total
      → free b
      → (k : ℕ) × (k < length map) × (get_or map k 0 ≡ pos b)

module _ {total : ℕ} {free : ℕ → Type 0} {pos : ℕ → ℕ} where
  pub none_left : (first : ℕ) → total ≤ first → IsFreeMap total free pos first []
  none_left first le = record {
    sound = λ k lt. absurd (omega arith);
    complete = λ b from lt is_free. absurd (omega arith);
  }

  pub one_free :
      (first v : ℕ) (map : List ℕ)
      → v ≡ pos first
      → first < total
      → free first
      → IsFreeMap total free pos (first + 1) map
      → IsFreeMap total free pos first (v ∷ map)
  one_free first v map here lt is_free m = record {
    sound = at;
    complete = λ b from lt' is_free'. elim (ℕ_discrete first b) [
      | yes e ↦ (0, omega arith, here ∙ ap pos e)
      | no ne ↦
          let (k, there, e) = m.complete b (omega (arith, ne)) lt' is_free' in
          (suc k, omega arith, e)
    ];
  }
    where
      at :
          (k : ℕ)
          → k < length (v ∷ map)
          → (b : ℕ) × (first ≤ b) × (b < total) × free b × (get_or (v ∷ map) k 0 ≡ pos b)
      at zero lt' = (first, omega arith, lt, is_free, here)
      at (suc k) lt' =
          let (b, from, lt'', is_free', e) = m.sound k (omega arith) in
          (b, omega arith, lt'', is_free', e)

  pub one_used :
      (first : ℕ) (map : List ℕ)
      → ¬ free first
      → IsFreeMap total free pos (first + 1) map
      → IsFreeMap total free pos first map
  one_used first map used m = record {
    sound =
        λ k lt. let (b, from, lt', is_free, e) = m.sound k lt in (b, omega arith, lt', is_free, e);
    complete = λ b from lt is_free. elim (ℕ_discrete first b) [
      | yes e ↦ absurd (used (subst free (sym e) is_free))
      | no ne ↦ m.complete b (omega (arith, ne)) lt is_free
    ];
  }
