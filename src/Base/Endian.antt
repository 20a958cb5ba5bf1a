-- ===== src/Base/Endian.antt =====
-- Numbers in a list of bytes, by their positions.
use Prim.Native.Nat.{ℕ, zero, suc, ◌+◌, ◌*◌, ◌^◌}
use mathlib.Core.List.{List, [], ◌∷◌}
use xmount.Base.Lists.{get_or}

-- The `w` bytes at `pos` in little-endian order.
abbrev pub le_at : List ℕ → ℕ → ℕ → ℕ
le_at xs pos zero = 0
le_at xs pos (suc w) = get_or xs pos 0 + 256 * le_at xs (pos + 1) w

-- In big-endian order.
abbrev pub be_at : List ℕ → ℕ → ℕ → ℕ
be_at xs pos zero = 0
be_at xs pos (suc w) = get_or xs pos 0 * 256 ^ w + be_at xs (pos + 1) w

-- Their sum.
abbrev pub sum : List ℕ → ℕ
sum [] = 0
sum (x ∷ xs) = x + sum xs
