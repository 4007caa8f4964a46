-- ===== src/Base/Division.antt =====
-- Division by a positive number, in the form that the block arithmetic wants.
use Prim.Native.Nat.{ℕ, ◌+◌, ◌*◌, ◌/◌, ◌≤◌, ◌<◌}
use mathlib.Core.Path.{◌≡◌}
use mathlib.Core.Logic.{◌⊎◌, inl, inr}
use native.Mathlib.Omega.{arith}
use native.Mathlib.Nat.{div-add-mod, mod-lt}

pub div_lower : (n k : ℕ) → k * (n / k) ≤ n
div_lower n k = grind (arith, div-add-mod n k)

pub div_upper : (n k : ℕ) → 0 < k → n < k * (n / k) + k
div_upper n k pos = grind (arith, div-add-mod n k, mod-lt n pos)

pub mul_le : (k a b : ℕ) → a ≤ b → k * a ≤ k * b
mul_le k a b h = grind arith

pub mul_next : (k a b : ℕ) → a < b → k * a + k ≤ k * b
mul_next k a b h = omega (arith, mul_le k (a + 1) b (omega arith), mul_suc)
  where
    mul_suc : k * (a + 1) ≡ k * a + k
    mul_suc = grind arith

-- A quotient is below every `b` whose multiple lies above the number.
pub div_lt : (n k b : ℕ) → n < k * b → n / k < b
div_lt n k b h = go (le_or (n / k) b)
  where
    le_or : (x y : ℕ) → (x < y) ⊎ (y ≤ x)
    le_or x y = omega arith

    go : (n / k < b) ⊎ (b ≤ n / k) → n / k < b
    go (inl p) = p
    go (inr q) = absurd (omega (arith, mul_le k b (n / k) q, div_lower n k))
