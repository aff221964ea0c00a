-- ===== src/Codec/Command/Lengths.antt =====
-- The length codes: rows of the tables that follow one another.
use brutli.Prelude.{
  ℕ, suc, ◌+◌, ◌-◌, ◌%◌, ◌^◌, ◌≤◌, ◌<◌, ◌≡◌, refl, subst, inl, inr, true, false, ◌&&◌, some, List,
  [], ◌∷◌, arith, leb, ltb, Bool-cases, length, get_or,
}
use brutli.Encode.Command.{LengthCode, length_code_from, length_code}

-- The ranges of the rows follow one another, up to `limit`.
abbrev pub Chain : ℕ → List ℕ → List ℕ → Type 0
Chain limit [] es = Unit
Chain limit (b ∷ []) [] = ⊥
Chain limit (b ∷ []) (e ∷ es) = b + 2 ^ e ≡ limit
Chain limit (b ∷ b' ∷ bs) [] = ⊥
Chain limit (b ∷ b' ∷ bs) (e ∷ es) = (b + 2 ^ e ≡ b') × Chain limit (b' ∷ bs) es

-- The row `index` of the tables codes the length.
pub record Codes (len : ℕ) (bases bits : List ℕ) (index : ℕ) (lc : LengthCode) : Type 0 where
  pub in_table : index < length bases
  pub extra_bits : lc.extra_bits ≡ get_or bits index 0
  pub sum : get_or bases index 0 + lc.extra ≡ len
  pub fits : lc.extra < 2 ^ lc.extra_bits

abbrev Found : ℕ → ℕ → List ℕ → List ℕ → Type 0
Found start len bases bits =
    (index : ℕ) × (lc : LengthCode) × (length_code_from start len bases bits ≡ some lc)
    × (lc.code ≡ start + index)
    × Codes len bases bits index lc

hit : (len b e : ℕ) → (leb b len && ltb (len - b) (2 ^ e)) ≡ true → (b ≤ len) × (len - b < 2 ^ e)
hit len b e h = ground arith

miss : (len b e : ℕ) → b ≤ len → (leb b len && ltb (len - b) (2 ^ e)) ≡ false → b + 2 ^ e ≤ len
miss len b e low h = ground arith

length_code_from-Found :
    (limit start len b : ℕ) (bases bits : List ℕ)
    → Chain limit (b ∷ bases) bits
    → b ≤ len
    → len < limit
    → limit ≤ 2 ^ 32
    → Found start len (b ∷ bases) bits
unfolding length_code_from
length_code_from-Found limit start len b [] [] chain low high small = absurd chain
length_code_from-Found limit start len b (b' ∷ bases) [] chain low high small = absurd chain
length_code_from-Found limit start len b [] (e ∷ es) chain low high small = (
  0,
  record { code = start; extra = (len - b) % 2 ^ 32; extra_bits = e },
  (let found : (leb b len && ltb (len - b) (2 ^ e)) ≡ true = ground arith in rw found refl),
  omega arith,
  record { in_table = omega arith; extra_bits = refl; sum = omega arith; fits = omega arith },
)
length_code_from-Found limit start len b (b' ∷ bases) (e ∷ es) chain low high small =
    elim (Bool-cases (leb b len && ltb (len - b) (2 ^ e))) [
      | inl here ↦
          let (p, q) = hit len b e here in
          (
            0,
            record { code = start; extra = (len - b) % 2 ^ 32; extra_bits = e },
            rw here refl,
            omega arith,
            record {
              in_table = omega arith;
              extra_bits = refl;
              sum = omega arith;
              fits = omega arith;
            },
          )
      | inr later ↦
          let further = miss len b e low later in
          let (index, lc, result, code, codes) =
            length_code_from-Found limit (start + 1) len b' bases es chain.1
              (omega (arith, chain.0)) high small in
          (
            suc index,
            lc,
            rw later result,
            omega arith,
            record {
              in_table = omega (arith, codes.in_table);
              extra_bits = codes.extra_bits;
              sum = codes.sum;
              fits = codes.fits;
            },
          )
    ]

pub length_code-Codes :
    (limit len b : ℕ) (bases bits : List ℕ)
    → Chain limit (b ∷ bases) bits
    → b ≤ len
    → len < limit
    → limit ≤ 2 ^ 32
    → (lc : LengthCode) × (length_code len (b ∷ bases) bits ≡ some lc)
      × Codes len (b ∷ bases) bits lc.code lc
unfolding length_code
length_code-Codes limit len b bases bits chain low high small =
    let (index, lc, result, code, codes) =
      length_code_from-Found limit 0 len b bases bits chain low high small in
    let here : index ≡ lc.code = omega arith in
    (lc, result, subst (λ i. Codes len (b ∷ bases) bits i lc) here codes)
