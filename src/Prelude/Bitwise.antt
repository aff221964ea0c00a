-- ===== src/Prelude/Bitwise.antt =====
-- The bit operations at the operands that the code gives them: a low mask, and fields that do not
-- overlap. The native operations mean a recursion on binary digits, from which one step is taken.
use Prim.Native.Nat.{
  ℕ, zero, suc, ◌+◌, ◌-◌, ◌*◌, ◌/◌, ◌%◌, ◌^◌, ◌≤◌, ◌<◌, min, max, bit_and, bit_or, digits,
  bit_and-bitwise, bit_or-bitwise,
}
use mathlib.Core.Path.{◌≡◌, refl, ap, sym, ◌∙◌}
use native.Mathlib.Nat.{mod-add-div, mod-lt, mod-eq_of_lt, add-mul-mod_self_left}
use native.Mathlib.Omega.{arith}
use brutli.Prelude.Pow.{two-pow-suc, two-pow-pos}

module _ (stop : ℕ → ℕ) (digit : ℕ → ℕ → ℕ) where
  -- Fuel beyond the number itself changes nothing.
  digits_stable :
      (n a b : ℕ) → a ≤ n → (m : ℕ) → a ≤ m → digits stop digit n a b ≡ digits stop digit m a b
  digits_stable zero zero b h zero k = refl
  digits_stable zero zero b h (suc m) k = refl
  digits_stable (suc n) zero b h zero k = refl
  digits_stable (suc n) zero b h (suc m) k = refl
  digits_stable zero (suc a) b h m k = absurd (omega arith)
  digits_stable (suc n) (suc a) b h zero k = absurd (omega arith)
  digits_stable (suc n) (suc a) b h (suc m) k =
      ap (λ t. t * 2 + digit (suc a % 2) (b % 2))
        (digits_stable n (suc a / 2) (b / 2) (omega arith) m (omega arith))

  digits_step :
      (a b : ℕ)
      → digits stop digit (suc a) (suc a) b
        ≡ digits stop digit (suc a / 2) (suc a / 2) (b / 2) * 2 + digit (suc a % 2) (b % 2)
  digits_step a b =
      ap (λ t. t * 2 + digit (suc a % 2) (b % 2))
        (digits_stable a (suc a / 2) (b / 2) (omega arith) (suc a / 2) (omega arith))

or-zero : (b : ℕ) → bit_or 0 b ≡ b
or-zero b = bit_or-bitwise 0 b

pub or_step : (a b : ℕ) → bit_or a b ≡ bit_or (a / 2) (b / 2) * 2 + max (a % 2) (b % 2)
or_step zero b = omega (arith, or-zero b, or-zero (b / 2))
or_step (suc a) b =
    bit_or-bitwise (suc a) b
    ∙ digits_step (λ y. y) max a b
    ∙ ap (λ t. t * 2 + max (suc a % 2) (b % 2)) (sym (bit_or-bitwise (suc a / 2) (b / 2)))

and-zero : (b : ℕ) → bit_and 0 b ≡ 0
and-zero b = bit_and-bitwise 0 b

pub and_step : (a b : ℕ) → bit_and a b ≡ bit_and (a / 2) (b / 2) * 2 + min (a % 2) (b % 2)
and_step zero b = omega (arith, and-zero b, and-zero (b / 2))
and_step (suc a) b =
    bit_and-bitwise (suc a) b
    ∙ digits_step (λ y. 0) min a b
    ∙ ap (λ t. t * 2 + min (suc a % 2) (b % 2)) (sym (bit_and-bitwise (suc a / 2) (b / 2)))

-- `low | (high << k)` is a sum where `low` has `k` bits.
pub or-shifted : (k low high : ℕ) → low < 2 ^ k → bit_or low (high * 2 ^ k) ≡ low + high * 2 ^ k
or-shifted zero low high h =
    omega (arith, ap (λ (t : ℕ). bit_or t (high * 1)) zero_low, or-zero (high * 1))
  where
    zero_low : low ≡ 0
    zero_low = omega arith
or-shifted (suc k) low high h = omega (
  arith,
  or_step low (high * 2 ^ suc k),
  ap (λ (t : ℕ). high * t) (two-pow-suc k),
  two-pow-suc k,
  ap (λ (t : ℕ). bit_or (low / 2) t) halved,
  or-shifted k (low / 2) high (omega (arith, two-pow-suc k)),
)
  where
    halved : high * 2 ^ suc k / 2 ≡ high * 2 ^ k
    halved = omega (arith, ap (λ (t : ℕ). high * t) (two-pow-suc k))

-- `high << k | low`.
pub shifted-or : (k low high : ℕ) → low < 2 ^ k → bit_or (high * 2 ^ k) low ≡ low + high * 2 ^ k
shifted-or zero low high h =
    omega (arith, any_zero (high * 1), ap (λ (t : ℕ). bit_or (high * 1) t) zero_low)
  where
    zero_low : low ≡ 0
    zero_low = omega arith

    any_zero : (a : ℕ) → bit_or a 0 ≡ a
    any_zero a = or-right a a (omega arith)
      where
        or-right : (n a : ℕ) → a ≤ n → bit_or a 0 ≡ a
        or-right n zero h = or-zero 0
        or-right zero (suc a) h = absurd (omega arith)
        or-right (suc n) (suc a) h =
            omega (arith, or_step (suc a) 0, or-right n (suc a / 2) (omega arith))
shifted-or (suc k) low high h = omega (
  arith,
  or_step (high * 2 ^ suc k) low,
  ap (λ (t : ℕ). high * t) (two-pow-suc k),
  two-pow-suc k,
  ap (λ (t : ℕ). bit_or t (low / 2)) halved,
  shifted-or k (low / 2) high (omega (arith, two-pow-suc k)),
)
  where
    halved : high * 2 ^ suc k / 2 ≡ high * 2 ^ k
    halved = omega (arith, ap (λ (t : ℕ). high * t) (two-pow-suc k))

and-right : (n a : ℕ) → a ≤ n → bit_and a 0 ≡ 0
and-right n zero h = and-zero 0
and-right zero (suc a) h = absurd (omega arith)
and-right (suc n) (suc a) h =
    omega (arith, and_step (suc a) 0, and-right n (suc a / 2) (omega arith))

mod-pow-suc : (k v : ℕ) → v % 2 ^ suc k ≡ v / 2 % 2 ^ k * 2 + v % 2
mod-pow-suc k v =
    ap (λ t. t % 2 ^ suc k) parts
    ∙ add-mul-mod_self_left (v / 2 % 2 ^ k * 2 + v % 2) (2 ^ suc k) (v / 2 / 2 ^ k)
    ∙ mod-eq_of_lt (omega (arith, two-pow-suc k, mod-lt (v / 2) (two-pow-pos k)))
  where
    parts : v ≡ v / 2 % 2 ^ k * 2 + v % 2 + 2 ^ suc k * (v / 2 / 2 ^ k)
    parts =
        omega
          (arith, mod-add-div (v / 2) (2 ^ k), ap (λ (t : ℕ). t * (v / 2 / 2 ^ k)) (two-pow-suc k))

-- `v & ((1 << k) - 1)` is the remainder by `2 ^ k`.
pub and-low_mask : (k v : ℕ) → bit_and v (2 ^ k - 1) ≡ v % 2 ^ k
and-low_mask zero v = omega (arith, and-right v v (omega arith))
and-low_mask (suc k) v = omega (
  arith,
  and_step v (2 ^ suc k - 1),
  two-pow-suc k,
  two-pow-pos k,
  mod-pow-suc k v,
  ap (λ (t : ℕ). bit_and (v / 2) t) halved,
  and-low_mask k (v / 2),
)
  where
    halved : (2 ^ suc k - 1) / 2 ≡ 2 ^ k - 1
    halved = omega (arith, two-pow-suc k, two-pow-pos k)
