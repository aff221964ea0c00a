-- ===== src/Codec/MetaBlock/Length.antt =====
-- MLEN - 1 as its nibbles, lowest first.
use brutli.Prelude.{
  ℕ, zero, suc, ◌+◌, ◌*◌, ◌/◌, ◌%◌, ◌^◌, ◌≤◌, ◌<◌, ◌≡◌, sym, ap, ap₂, ◌∙◌, subst, ◌⊎◌, inl, inr,
  Bool, false, ◌&&◌, ltb, List, ◌++◌, append_assoc, arith, ◌==◌, bit_or, shl_u64, Result,
}
use brutli.Prelude.Bits.{to_bits, to_bits-add, to_bits-mod}
use brutli.Prelude.Pow.{two-pow-le, two-pow-add}
use brutli.Prelude.Bitwise.{or-shifted}
use brutli.Decode.Parse.{ParsesTo, read_then-ParsesTo}
use brutli.Decode.MetaBlockHeader.{
  State, MetaBlockHeader, MetaBlockHeaderDecoder, MetaBlockHeaderError, after_data_length,
  data_length_loop,
}
use native.Mathlib.Nat.{mod-eq_of_lt, pow-succ'}

abbrev pub at : State → Bool → ℕ → ℕ → ℕ → MetaBlockHeaderDecoder
at s l w i v = record { state = s; is_last = l; width = w; index = i; value = v }

-- The top nibble of a length of more than four nibbles is not 0.
abbrev pub TopNibble : ℕ → ℕ → ℕ → Type 0
TopNibble w zero x = Unit
TopNibble w (suc zero) x = (w ≤ 4) ⊎ (1 ≤ x)
TopNibble w (suc (suc rounds)) x = TopNibble w (suc rounds) (x / 16)

nibble_weight : (i : ℕ) → 2 ^ (4 * (i + 1)) ≡ 16 * 2 ^ (4 * i)
nibble_weight i = omega (arith, ap (λ (k : ℕ). 2 ^ k) shift, two-pow-add (4 * i) 4)
  where
    shift : 4 * (i + 1) ≡ 4 * i + 4
    shift = omega arith

-- `value |= nibble << 4 * index` adds the nibble at its weight.
or_nibble :
    (v n i : ℕ)
    → v < 2 ^ (4 * i)
    → n < 16
    → i ≤ 5
    → (bit_or v (shl_u64 n (4 * i)) ≡ v + n * 2 ^ (4 * i))
      × (v + n * 2 ^ (4 * i) < 2 ^ (4 * (i + 1)))
or_nibble v n i hv hn hi = (
  ap (λ t. bit_or v t) (mod-eq_of_lt fits) ∙ or-shifted (4 * i) v n hv,
  omega (arith, product, nibble_weight i),
)
  where
    product : n * 2 ^ (4 * i) ≤ 15 * 2 ^ (4 * i)
    product = grind arith

    fits : n * 2 ^ (4 * i) < 2 ^ 64
    fits = omega (arith, product, two-pow-le {a = 4 * i} {b = 20} (omega arith))

minimal :
    (w i rounds x : ℕ)
    → i + suc rounds ≡ w
    → x < 16 ^ suc rounds
    → TopNibble w (suc rounds) x
    → ((i + 1 == w) && (ltb 4 w && (x % 16 == 0))) ≡ false
minimal w i zero x e h (inl p) = ground arith
minimal w i zero x e h (inr p) = ground arith
minimal w i (suc rounds) x e h t = ground arith

split_nibble :
    (rounds x : ℕ)
    → to_bits (4 * suc rounds) x ≡ to_bits 4 (x % 16) ++ to_bits (4 * rounds) (x / 16)
split_nibble rounds x =
    ap (λ k. to_bits k x) width
    ∙ to_bits-add 4 (4 * rounds) x
    ∙ ap (λ t. t ++ to_bits (4 * rounds) (x / 16)) (sym (to_bits-mod 4 x))
  where
    width : 4 * suc rounds ≡ 4 + 4 * rounds
    width = omega arith

next_top : (w rounds x : ℕ) → TopNibble w (suc rounds) x → TopNibble w rounds (x / 16)
next_top w zero x t = tt
next_top w (suc rounds) x t = t

regroup : (v x i : ℕ) → v + x * 2 ^ (4 * i) ≡ v + x % 16 * 2 ^ (4 * i) + x / 16 * 2 ^ (4 * (i + 1))
regroup v x i =
    omega
      (arith, ap (λ (t : ℕ). t * 2 ^ (4 * i)) parts, ap (λ (t : ℕ). x / 16 * t) (nibble_weight i))
  where
    parts : x ≡ x % 16 + 16 * (x / 16)
    parts = omega arith

-- The loop over the nibbles left adds them to the value and goes on behind them.
pub data_length_loop-ParsesTo :
    {t : Result MetaBlockHeaderError MetaBlockHeader} {d : MetaBlockHeaderDecoder} (tail : List ℕ)
    (l : Bool) (w rounds i v x : ℕ) (string : List ℕ)
    → i + rounds ≡ w
    → w ≤ 6
    → v < 2 ^ (4 * i)
    → x < 16 ^ rounds
    → TopNibble w rounds x
    → ParsesTo tail
        (after_data_length (at State.data_length l w w (v + x * 2 ^ (4 * i))))
        t
        d
        string
    → ParsesTo tail
        (data_length_loop rounds (at State.data_length l w i v))
        t
        d
        (to_bits (4 * rounds) x ++ string)
unfolding data_length_loop to_bits
data_length_loop-ParsesTo {t} {d} tail l w zero i v x string e hw hv hx top next =
    subst (λ u. ParsesTo tail (after_data_length u) t d string)
      (ap₂ (λ a b. at State.data_length l w a b) here nothing) next
  where
    here : w ≡ i
    here = omega arith

    nothing : v + x * 2 ^ (4 * i) ≡ v
    nothing = omega (arith, ap (λ (k : ℕ). k * 2 ^ (4 * i)) no_more)
      where
        no_more : x ≡ 0
        no_more = omega arith
data_length_loop-ParsesTo {t} {d} tail l w (suc rounds) i v x string e hw hv hx top next =
    subst (λ s. ParsesTo tail (data_length_loop (suc rounds) (at State.data_length l w i v)) t d s)
      (sym (
        ap (λ b. b ++ string) (split_nibble rounds x)
        ∙ append_assoc (to_bits 4 (x % 16)) (to_bits (4 * rounds) (x / 16)) string))
      (read_then-ParsesTo tail 4 (x % 16) _ _ _ (omega arith) (omega arith) (
        rw
          (minimal w i rounds x e hx top, (or_nibble v (x % 16) i hv (omega arith) (omega arith)).0)
          (data_length_loop-ParsesTo tail l w rounds (i + 1) (v + x % 16 * 2 ^ (4 * i)) (x / 16)
            string (omega arith) hw (or_nibble v (x % 16) i hv (omega arith) (omega arith)).1
            (omega (arith, pow-succ' 16 rounds)) (next_top w rounds x top)
            (subst
              (λ u. ParsesTo tail (after_data_length (at State.data_length l w w u)) t d string)
              (regroup v x i) next))))
