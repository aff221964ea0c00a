-- ===== src/Prelude/Pow.antt =====
-- Powers of two, which are the weights of bit positions.
use Prim.Native.Nat.{ℕ, zero, suc, ◌+◌, ◌*◌, ◌/◌, ◌^◌, ◌≤◌, ◌<◌}
use mathlib.Core.Path.{◌≡◌, ap, sym, ◌∙◌}
use native.Mathlib.Nat.{
  pow-succ', one-le-pow, pow-le-pow_right, div-div-eq-div-mul, div-lt_iff_lt-mul,
}
use native.Mathlib.Omega.{arith}

pub two-pow-suc : (n : ℕ) → 2 ^ suc n ≡ 2 * 2 ^ n
two-pow-suc n = pow-succ' 2 n

pub two-pow-pos : (n : ℕ) → 1 ≤ 2 ^ n
two-pow-pos n = one-le-pow n 2 (omega arith)

zero_plus : (n : ℕ) → zero + n ≡ n
zero_plus n = omega arith

suc_plus : (m n : ℕ) → suc m + n ≡ suc (m + n)
suc_plus m n = omega arith

pub two-pow-add : (a b : ℕ) → 2 ^ (a + b) ≡ 2 ^ a * 2 ^ b
two-pow-add zero b = omega (arith, ap (λ (k : ℕ). 2 ^ k) (zero_plus b))
two-pow-add (suc a) b = omega (
  arith,
  ap (λ (k : ℕ). 2 ^ k) (suc_plus a b),
  two-pow-suc (a + b),
  ap (λ (t : ℕ). t * 2 ^ b) (two-pow-suc a),
  two-pow-add a b,
)

pub two-pow-le : {a b : ℕ} → a ≤ b → 2 ^ a ≤ 2 ^ b
two-pow-le h = pow-le-pow_right {n = 2} (omega arith) h

-- A value of `a + b` bits is cut at bit `a` into two values that fit.
pub div-pow-lt : (a b v : ℕ) → v < 2 ^ (a + b) → v / 2 ^ a < 2 ^ b
div-pow-lt a b v h = (div-lt_iff_lt-mul (two-pow-pos a)).1 (omega (arith, two-pow-add a b))

pub div-pow-suc : (a v : ℕ) → v / 2 ^ suc a ≡ v / 2 / 2 ^ a
div-pow-suc a v = ap (λ k. v / k) (two-pow-suc a) ∙ sym (div-div-eq-div-mul v 2 (2 ^ a))
