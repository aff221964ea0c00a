-- ===== src/Codec/Distance/Bucket.antt =====
-- The buckets of the long distances: a bucket number, a bit, and two fields of low bits.
use brutli.Prelude.{
  ℕ, suc, ◌+◌, ◌-◌, ◌*◌, ◌/◌, ◌%◌, ◌^◌, ◌≤◌, ◌<◌, ◌≡◌, sym, ap, ◌∙◌, ◌⊎◌, inl, inr, subst, Bool,
  true, false, arith, Bool-cases, ltb, ltb→lt, ltb→le,
}
use brutli.Prelude.Pow.{two-pow-suc, two-pow-le, two-pow-pos}
use brutli.Prelude.Log.{top_bit_bounds}
use brutli.Encode.Distance.{log2_floor_nonzero}
use native.Mathlib.Nat.{div-eq_of_lt-le}

abbrev pub prefix_of : Bool → ℕ
prefix_of true = 1
prefix_of false = 0

-- A number in the upper or the lower half of a bucket of `size` multiples of `2 ^ p`, and what a decoder
-- makes of the fields of its symbol.
pub record Fields (p : ℕ) (upper : Bool) (size e dist : ℕ) : Type 0 where
  pub hcode_lem :
      ((2 * (e - 1) + prefix_of upper) * 2 ^ p + dist % 2 ^ p) / 2 ^ p
      ≡ 2 * (e - 1) + prefix_of upper
  pub lcode_lem : ((2 * (e - 1) + prefix_of upper) * 2 ^ p + dist % 2 ^ p) % 2 ^ p ≡ dist % 2 ^ p
  pub bits_lem : 1 + ((2 * (e - 1) + prefix_of upper) * 2 ^ p + dist % 2 ^ p) / 2 ^ (p + 1) ≡ e
  pub fits : (dist - (2 + prefix_of upper) * (size * 2 ^ p)) / 2 ^ p < size
  pub value_lem :
      ((2 + prefix_of upper) * size - 4 + (dist - (2 + prefix_of upper) * (size * 2 ^ p)) / 2 ^ p)
          * 2 ^ p
        + dist % 2 ^ p
        + 2 ^ (p + 2)
      ≡ dist
  pub symbol_fits : (2 * (e - 1) + prefix_of upper) * 2 ^ p + dist % 2 ^ p < 2 * e * 2 ^ p

module _ (size e dist : ℕ) (some_bits : 1 ≤ e) (wide : 2 ≤ size) where
  abbrev InBucket : ℕ → Bool → Type 0
  InBucket p upper =
      ((2 + prefix_of upper) * (size * 2 ^ p) ≤ dist)
      × (dist < (3 + prefix_of upper) * (size * 2 ^ p))

  no_postfix-Fields : (upper : Bool) → InBucket 0 upper → Fields 0 upper size e dist
  no_postfix-Fields true (l, h) = record {
    hcode_lem = omega arith;
    lcode_lem = omega arith;
    bits_lem = omega arith;
    fits = omega arith;
    value_lem = omega arith;
    symbol_fits = omega arith;
  }
  no_postfix-Fields false (l, h) = record {
    hcode_lem = omega arith;
    lcode_lem = omega arith;
    bits_lem = omega arith;
    fits = omega arith;
    value_lem = omega arith;
    symbol_fits = omega arith;
  }

  one_postfix-Fields : (upper : Bool) → InBucket 1 upper → Fields 1 upper size e dist
  one_postfix-Fields true (l, h) = record {
    hcode_lem = omega arith;
    lcode_lem = omega arith;
    bits_lem = omega arith;
    fits = omega arith;
    value_lem = omega arith;
    symbol_fits = omega arith;
  }
  one_postfix-Fields false (l, h) = record {
    hcode_lem = omega arith;
    lcode_lem = omega arith;
    bits_lem = omega arith;
    fits = omega arith;
    value_lem = omega arith;
    symbol_fits = omega arith;
  }

  two_postfix-Fields : (upper : Bool) → InBucket 2 upper → Fields 2 upper size e dist
  two_postfix-Fields true (l, h) = record {
    hcode_lem = omega arith;
    lcode_lem = omega arith;
    bits_lem = omega arith;
    fits = omega arith;
    value_lem = omega arith;
    symbol_fits = omega arith;
  }
  two_postfix-Fields false (l, h) = record {
    hcode_lem = omega arith;
    lcode_lem = omega arith;
    bits_lem = omega arith;
    fits = omega arith;
    value_lem = omega arith;
    symbol_fits = omega arith;
  }

  three_postfix-Fields : (upper : Bool) → InBucket 3 upper → Fields 3 upper size e dist
  three_postfix-Fields true (l, h) = record {
    hcode_lem = omega arith;
    lcode_lem = omega arith;
    bits_lem = omega arith;
    fits = omega arith;
    value_lem = omega arith;
    symbol_fits = omega arith;
  }
  three_postfix-Fields false (l, h) = record {
    hcode_lem = omega arith;
    lcode_lem = omega arith;
    bits_lem = omega arith;
    fits = omega arith;
    value_lem = omega arith;
    symbol_fits = omega arith;
  }

  pub fields : (p : ℕ) (upper : Bool) → p ≤ 3 → InBucket p upper → Fields p upper size e dist
  fields p upper h inside = go p (below_4 p h) inside
    where
      below_4 : (p : ℕ) → p ≤ 3 → (p ≡ 0) ⊎ (p ≡ 1) ⊎ (p ≡ 2) ⊎ (p ≡ 3)
      below_4 p h = ground arith

      go :
          (p : ℕ)
          → (p ≡ 0) ⊎ (p ≡ 1) ⊎ (p ≡ 2) ⊎ (p ≡ 3)
          → InBucket p upper
          → Fields p upper size e dist
      go p (inl e0) inside =
          subst (λ k. Fields k upper size e dist) (sym e0)
            (no_postfix-Fields upper (subst (λ k. InBucket k upper) e0 inside))
      go p (inr (inl e1)) inside =
          subst (λ k. Fields k upper size e dist) (sym e1)
            (one_postfix-Fields upper (subst (λ k. InBucket k upper) e1 inside))
      go p (inr (inr (inl e2))) inside =
          subst (λ k. Fields k upper size e dist) (sym e2)
            (two_postfix-Fields upper (subst (λ k. InBucket k upper) e2 inside))
      go p (inr (inr (inr e3))) inside =
          subst (λ k. Fields k upper size e dist) (sym e3)
            (three_postfix-Fields upper (subst (λ k. InBucket k upper) e3 inside))

-- The bucket that the code computes, for `dist` of at least `2 ^ (p + 2)`.
pub record IsBucket (p dist bucket : ℕ) : Type 0 where
  pub upper : Bool
  pub above : p + 1 ≤ bucket
  pub below : bucket ≤ 24 + p
  pub prefix_lem : dist / 2 ^ bucket % 2 ≡ prefix_of upper
  pub from : (2 + prefix_of upper) * 2 ^ bucket ≤ dist
  pub to : dist < (3 + prefix_of upper) * 2 ^ bucket

pub log2-IsBucket :
    (p dist : ℕ)
    → p ≤ 3
    → 2 ^ (p + 2) ≤ dist
    → dist < 2 ^ (26 + p)
    → IsBucket p dist (log2_floor_nonzero dist - 1)
log2-IsBucket p dist h low high = elim (Bool-cases (ltb dist (3 * 2 ^ bucket))) [
  | inl lower ↦
      let lt = ltb→lt dist (3 * 2 ^ bucket) lower in
      record {
        upper = false;
        above = above;
        below = below;
        prefix_lem = ap (λ k. k % 2) (quotient 2 (omega (arith, bounds)) (omega arith));
        from = omega (arith, bounds);
        to = omega arith;
      }
  | inr upper ↦
      let le = ltb→le dist (3 * 2 ^ bucket) upper in
      record {
        upper = true;
        above = above;
        below = below;
        prefix_lem = ap (λ k. k % 2) (quotient 3 (omega arith) (omega (arith, bounds)));
        from = omega arith;
        to = omega (arith, bounds);
      }
]
  where
    top : ℕ
    top = log2_floor_nonzero dist

    bucket : ℕ
    bucket = top - 1

    fits : dist < 2 ^ 64
    fits =
        let w : 2 ^ (26 + p) ≤ 2 ^ 64 = two-pow-le {a = 26 + p} {b = 64} (omega arith) in
        omega arith

    tops : (2 ^ top ≤ dist) × (dist < 2 * 2 ^ top) × (top < 64)
    tops = top_bit_bounds 64 dist (omega (arith, two-pow-pos (p + 2))) fits

    above_top : p + 2 ≤ top
    above_top = elim (Bool-cases (ltb top (p + 2))) [
      | inl less ↦
          let lt = ltb→lt top (p + 2) less in
          let le : 2 ^ suc top ≤ 2 ^ (p + 2) = two-pow-le {a = suc top} {b = p + 2} (omega arith) in
          absurd (omega (arith, tops, two-pow-suc top))
      | inr more ↦ ltb→le top (p + 2) more
    ]

    above : p + 1 ≤ bucket
    above = omega (arith, above_top)

    below : bucket ≤ 24 + p
    below = elim (Bool-cases (ltb top (26 + p))) [
      | inl less ↦ omega (arith, ltb→lt top (26 + p) less)
      | inr more ↦
          let le : 2 ^ (26 + p) ≤ 2 ^ top = two-pow-le (ltb→le top (26 + p) more) in
          absurd (omega (arith, tops))
    ]

    bounds : (2 * 2 ^ bucket ≤ dist) × (dist < 4 * 2 ^ bucket)
    bounds =
        let e : top ≡ suc bucket = omega (arith, above_top) in
        let double : 2 ^ top ≡ 2 * 2 ^ bucket = ap (λ k. 2 ^ k) e ∙ two-pow-suc bucket in
        (omega (arith, tops), omega (arith, tops))

    quotient : (n : ℕ) → n * 2 ^ bucket ≤ dist → dist < suc n * 2 ^ bucket → dist / 2 ^ bucket ≡ n
    quotient n a b = div-eq_of_lt-le (2 ^ bucket) a (omega (arith, b))
