-- ===== src/Base/Blocks.antt =====
-- Positions in blocks of one size: `block * size + offset` with `offset < size`.
use Prim.Native.Nat.{ℕ, suc, ◌+◌, ◌*◌, ◌/◌, ◌%◌, ◌≤◌, ◌<◌}
use mathlib.Core.Path.{◌≡◌, ◌∙◌, ap}
use native.Mathlib.Nat.{
  mul-add-div_right, mul-add-mod_self_right, div-eq_of_lt, mod-eq_of_lt, add-zero,
}
use native.Mathlib.Nat.{mul-le-mul_right, div-add-mod', mod-lt, suc-mul}
use native.Mathlib.Nat.{lt_of_mul-lt-mul_right}
use native.Mathlib.Omega.{arith}

pub block-div : (b s o : ℕ) → o < s → (b * s + o) / s ≡ b
block-div b s o h =
    mul-add-div_right (omega arith) b o ∙ ap (λ k. b + k) (div-eq_of_lt h) ∙ add-zero b

pub block-mod : (b s o : ℕ) → o < s → (b * s + o) % s ≡ o
block-mod b s o h = mul-add-mod_self_right b s o ∙ mod-eq_of_lt h

pub block_bounds : (p s : ℕ) → 0 < s → (p / s * s + p % s ≡ p) × (p % s < s)
block_bounds p s h = (div-add-mod' p s, mod-lt p h)

-- A block that begins before the end of `n` blocks is one of them, and ends in them.
pub block-lt : (b n s p : ℕ) → b * s ≤ p → p < n * s → b < n
block-lt b n s p le lt = lt_of_mul-lt-mul_right s (omega arith)

pub block_end : (b n s : ℕ) → b < n → b * s + s ≤ n * s
block_end b n s h = omega (arith, mul-le-mul_right {m = suc b} {n = n} s h, suc-mul b s)
