-- ===== src/Prelude/Log.antt =====
-- Bit lengths: what the code gets from `leading_zeros`.
use Prim.Native.Nat.{ℕ, zero, suc, ◌-◌, ◌*◌, ◌/◌, ◌^◌, ◌≤◌, ◌<◌}
use mathlib.Core.Path.{◌≡◌, refl, ap, ◌∙◌}
use mathlib.Core.Logic.{inl, inr}
use mathlib.Core.Bool.{false}
use native.Mathlib.Omega.{arith}
use brutli.Prelude.Tests.{◌==◌, ==→eq, ==→ne, Bool-cases, if◌then◌else◌}
use brutli.Prelude.Pow.{two-pow-suc}

-- `n - v.leading_zeros()` for a value of `n` bits.
unfoldable pub bit_length : ℕ → ℕ → ℕ
bit_length zero v = 0
bit_length (suc n) v = if v == 0 then 0 else suc (bit_length n (v / 2))

pub bit_length-le : (n v : ℕ) → bit_length n v ≤ n
unfolding bit_length
bit_length-le zero v = omega arith
bit_length-le (suc n) v = ground (arith, bit_length-le n (v / 2))

pub lt-bit_length : (n v : ℕ) → v < 2 ^ n → v < 2 ^ bit_length n v
unfolding bit_length
lt-bit_length zero v h = h
lt-bit_length (suc n) v h =
    ground (arith, lt-bit_length n (v / 2), two-pow-suc n, two-pow-suc (bit_length n (v / 2)))

bit_length-zero : (n : ℕ) → bit_length n 0 ≡ 0
unfolding bit_length
bit_length-zero zero = refl
bit_length-zero (suc n) = refl

pub pow-bit_length :
    (n v : ℕ) → 0 < v → v < 2 ^ n → (1 ≤ bit_length n v) × (2 ^ bit_length n v ≤ 2 * v)
unfolding bit_length
pow-bit_length zero v p h = absurd (omega arith)
pow-bit_length (suc n) v p h = elim (Bool-cases (v / 2 == 0)) [
  | inl e ↦ rw (nonzero, ==→eq (v / 2) 0 e, bit_length-zero n) (omega arith, omega arith)
  | inr e ↦
      let (a, b) =
        pow-bit_length n (v / 2) (omega (arith, ==→ne (v / 2) 0 e))
          (omega (arith, two-pow-suc n)) in
      rw nonzero (omega arith, omega (arith, b, two-pow-suc (bit_length n (v / 2))))
]
  where
    nonzero : (v == 0) ≡ false
    nonzero = ground arith

-- The index of the top bit: `2 ^ k ≤ v < 2 ^ (k + 1)` for `k = bit_length n v - 1`.
pub top_bit_bounds :
    (n v : ℕ)
    → 0 < v
    → v < 2 ^ n
    → (2 ^ (bit_length n v - 1) ≤ v) × (v < 2 * 2 ^ (bit_length n v - 1)) × (bit_length n v - 1 < n)
top_bit_bounds n v p h =
    let (a, b) = pow-bit_length n v p h in
    let e : bit_length n v ≡ suc (bit_length n v - 1) = omega arith in
    let double : 2 ^ bit_length n v ≡ 2 * 2 ^ (bit_length n v - 1) =
      ap (λ k. 2 ^ k) e ∙ two-pow-suc (bit_length n v - 1) in
    (omega arith, omega (arith, lt-bit_length n v h), omega (arith, bit_length-le n v))
