-- ===== src/Prelude/Bits.antt =====
-- Bit strings, lowest bit first: the order in which a Brotli stream packs its fields.
use Prim.Native.Nat.{ℕ, zero, suc, ◌+◌, ◌*◌, ◌/◌, ◌%◌, ◌^◌, ◌<◌}
use mathlib.Core.Path.{◌≡◌, refl, ap, ap₂, sym, ◌∙◌}
use mathlib.Core.List.{List, [], ◌∷◌, ◌++◌}
use native.Mathlib.Nat.{mod-add-div}
use native.Mathlib.Omega.{arith}
use brutli.Prelude.Lists.{length, All}
use brutli.Prelude.Pow.{two-pow-suc, two-pow-pos, div-pow-suc}

abbrev pub IsByte : ℕ → Type 0
IsByte b = b < 256

abbrev pub IsBytes : List ℕ → Type 0
IsBytes = All IsByte

-- The `n` low bits of `v`.
unfoldable pub to_bits : ℕ → ℕ → List ℕ
to_bits zero v = []
to_bits (suc n) v = v % 2 ∷ to_bits n (v / 2)

-- The number that a bit string stands for.
unfoldable pub of_bits : List ℕ → ℕ
of_bits [] = 0
of_bits (b ∷ bs) = b + 2 * of_bits bs

-- A sequence of bytes as one bit string.
unfoldable pub byte_bits : List ℕ → List ℕ
byte_bits [] = []
byte_bits (b ∷ bs) = to_bits 8 b ++ byte_bits bs

pub length-to_bits : (n v : ℕ) → length (to_bits n v) ≡ n
unfolding to_bits
length-to_bits zero v = refl
length-to_bits (suc n) v = ap suc (length-to_bits n (v / 2))

-- What stands above the low `n` bits does not matter.
pub to_bits_low : (n x y : ℕ) → to_bits n (x + 2 ^ n * y) ≡ to_bits n x
unfolding to_bits
to_bits_low zero x y = refl
to_bits_low (suc n) x y = ap₂ ◌∷◌ bit (ap (to_bits n) rest ∙ to_bits_low n (x / 2) y)
  where
    bit : (x + 2 ^ suc n * y) % 2 ≡ x % 2
    bit = omega (arith, ap (λ (t : ℕ). t * y) (two-pow-suc n))

    rest : (x + 2 ^ suc n * y) / 2 ≡ x / 2 + 2 ^ n * y
    rest = omega (arith, ap (λ (t : ℕ). t * y) (two-pow-suc n))

pub to_bits-mod : (n v : ℕ) → to_bits n (v % 2 ^ n) ≡ to_bits n v
to_bits-mod n v =
    sym (to_bits_low n (v % 2 ^ n) (v / 2 ^ n)) ∙ ap (to_bits n) (mod-add-div v (2 ^ n))

-- A field of `a + b` bits is its low `a` bits and then the other `b`.
pub to_bits-add : (a b v : ℕ) → to_bits (a + b) v ≡ to_bits a v ++ to_bits b (v / 2 ^ a)
unfolding to_bits
to_bits-add zero b v = ap₂ to_bits (omega arith) (omega arith)
to_bits-add (suc a) b v =
    ap (λ n. to_bits n v) suc_plus
    ∙ ap (◌∷◌ (v % 2))
        (to_bits-add a b (v / 2) ∙ ap (λ t. to_bits a (v / 2) ++ to_bits b t) shifted)
  where
    suc_plus : suc a + b ≡ suc (a + b)
    suc_plus = omega arith

    shifted : v / 2 / 2 ^ a ≡ v / 2 ^ suc a
    shifted = sym (div-pow-suc a v)

-- Two fields side by side.
pub to_bits_join :
    (a b x y : ℕ) → x < 2 ^ a → to_bits (a + b) (x + 2 ^ a * y) ≡ to_bits a x ++ to_bits b y
to_bits_join a b x y h =
    to_bits-add a b (x + 2 ^ a * y) ∙ ap₂ ◌++◌ (to_bits_low a x y) (ap (to_bits b) high)
  where
    high : (x + 2 ^ a * y) / 2 ^ a ≡ y
    high = grind (arith, two-pow-pos a)

pub to_bits-zero : (v : ℕ) → to_bits 0 v ≡ []
unfolding to_bits
to_bits-zero v = refl

pub of_bits-to_bits : (n v : ℕ) → v < 2 ^ n → of_bits (to_bits n v) ≡ v
unfolding of_bits to_bits
of_bits-to_bits zero v h = omega arith
of_bits-to_bits (suc n) v h =
    omega (arith, of_bits-to_bits n (v / 2) (omega (arith, two-pow-suc n)))

-- A field of known width is determined by its bits.
pub to_bits-inj : (n u v : ℕ) → u < 2 ^ n → v < 2 ^ n → to_bits n u ≡ to_bits n v → u ≡ v
to_bits-inj n u v hu hv e = sym (of_bits-to_bits n u hu) ∙ ap of_bits e ∙ of_bits-to_bits n v hv

pub byte_bits-append : (xs ys : List ℕ) → byte_bits (xs ++ ys) ≡ byte_bits xs ++ byte_bits ys
unfolding byte_bits to_bits
byte_bits-append [] ys = refl
byte_bits-append (x ∷ xs) ys = ap (λ t. to_bits 8 x ++ t) (byte_bits-append xs ys)

pub length-byte_bits : (xs : List ℕ) → length (byte_bits xs) ≡ 8 * length xs
unfolding byte_bits to_bits
length-byte_bits [] = refl
length-byte_bits (x ∷ xs) = omega (arith, length-byte_bits xs)
