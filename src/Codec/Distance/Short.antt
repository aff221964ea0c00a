-- ===== src/Codec/Distance/Short.antt =====
-- The short distance codes: `compute_code` against `resolve_short`.
use brutli.Prelude.{
  ℕ, suc, ◌+◌, ◌-◌, ◌^◌, ◌≤◌, ◌<◌, ◌≡◌, refl, ap, ◌⊎◌, inl, inr, true, false, some, List, [], ◌∷◌,
  arith, ltb, leb, ◌==◌, ==→eq, Bool-cases, Option-cases, get_or, none, Option, ltb→le, ok,
  if◌then◌else◌,
}
use brutli.Encode.Distance.{
  compute_code, short_offset, offset_or, last_distance_codes, second_last_distance_codes,
}
use brutli.Decode.Distance.{ℤ, RecentDistances, checked_add_signed, nonzero_distance, resolve_short}

module _ (distance : ℕ) (some_distance : 1 ≤ distance) (word : distance < 2 ^ 64) where
  ahead :
      (v n : ℕ) → v + n ≡ distance → nonzero_distance (checked_add_signed v (ℤ.pos n)) ≡ ok distance
  ahead v n e =
      let fits : ltb (v + n) (2 ^ 64) ≡ true = ground arith in
      let nonzero : (v + n == 0) ≡ false = ground arith in rw fits (rw nonzero (ap ok e))

  behind :
      (v n : ℕ)
      → v ≡ distance + suc n
      → nonzero_distance (checked_add_signed v (ℤ.negsuc n)) ≡ ok distance
  behind v n e =
      let fits : ltb n v ≡ true = ground arith in
      let nonzero : (v - suc n == 0) ≡ false = ground arith in
      let difference : v - suc n ≡ distance = omega arith in rw fits (rw nonzero (ap ok difference))

  short_offset_lem :
      (v offset : ℕ)
      → short_offset distance v ≡ some offset
      → (offset < 7) × (v + offset ≡ distance + 3)
  unfolding short_offset
  short_offset_lem v offset e = ground arith

  -- The short code of an offset stands for the cached distance at `index`, changed by the offset less 3.
  module _ (a b c d : ℕ) where
    abbrev recent : RecentDistances
    recent = record { values = a ∷ b ∷ c ∷ d ∷ [] }

    Resolves : ℕ → Type 0
    Resolves code = (code < 16) × (resolve_short recent code ≡ ok distance)

    seven :
        (offset : ℕ)
        → offset < 7
        → (offset ≡ 0)
          ⊎ (offset ≡ 1)
          ⊎ (offset ≡ 2)
          ⊎ (offset ≡ 3)
          ⊎ (offset ≡ 4)
          ⊎ (offset ≡ 5)
          ⊎ (offset ≡ 6)
    seven offset h = ground arith

    last_code-Resolves :
        (offset : ℕ)
        → offset < 7
        → a + offset ≡ distance + 3
        → Resolves (get_or last_distance_codes offset 0)
    unfolding Resolves resolve_short
    last_code-Resolves offset h e = elim (seven offset h) [
      | inl o ↦ rw o (omega arith, behind a 2 (omega arith))
      | inr (inl o) ↦ rw o (omega arith, behind a 1 (omega arith))
      | inr (inr (inl o)) ↦ rw o (omega arith, behind a 0 (omega arith))
      | inr (inr (inr (inl o))) ↦ rw o (omega arith, ahead a 0 (omega arith))
      | inr (inr (inr (inr (inl o)))) ↦ rw o (omega arith, ahead a 1 (omega arith))
      | inr (inr (inr (inr (inr (inl o))))) ↦ rw o (omega arith, ahead a 2 (omega arith))
      | inr (inr (inr (inr (inr (inr o))))) ↦ rw o (omega arith, ahead a 3 (omega arith))
    ]

    second_code-Resolves :
        (offset : ℕ)
        → offset < 7
        → b + offset ≡ distance + 3
        → Resolves (get_or second_last_distance_codes offset 0)
    unfolding Resolves resolve_short
    second_code-Resolves offset h e = elim (seven offset h) [
      | inl o ↦ rw o (omega arith, behind b 2 (omega arith))
      | inr (inl o) ↦ rw o (omega arith, behind b 1 (omega arith))
      | inr (inr (inl o)) ↦ rw o (omega arith, behind b 0 (omega arith))
      | inr (inr (inr (inl o))) ↦ rw o (omega arith, ahead b 0 (omega arith))
      | inr (inr (inr (inr (inl o)))) ↦ rw o (omega arith, ahead b 1 (omega arith))
      | inr (inr (inr (inr (inr (inl o))))) ↦ rw o (omega arith, ahead b 2 (omega arith))
      | inr (inr (inr (inr (inr (inr o))))) ↦ rw o (omega arith, ahead b 3 (omega arith))
    ]

    abbrev Right : Option ℕ → Type 0
    Right none = 2 ^ 64 ≤ distance + 15
    Right (some code) = Resolves code ⊎ (code ≡ distance + 15)

    long-Right : Right (if ltb (distance + 15) (2 ^ 64) then some (distance + 15) else none)
    long-Right = elim (Bool-cases (ltb (distance + 15) (2 ^ 64))) [
      | inl fits ↦ rw fits (inr refl)
      | inr over ↦ rw over (ltb→le (distance + 15) (2 ^ 64) over)
    ]

    offset_or-Right :
        (codes : List ℕ) (v : ℕ) (later : Option ℕ)
        → ((offset : ℕ) → offset < 7 → v + offset ≡ distance + 3 → Resolves (get_or codes offset 0))
        → Right later
        → Right (offset_or codes (short_offset distance v) later)
    offset_or-Right codes v later here next = elim (Option-cases (short_offset distance v)) [
      | inl none_found ↦ rw none_found next
      | inr (offset, found) ↦
          let (h, e) = short_offset_lem v offset found in rw found (inl (here offset h e))
    ]

    older-Right : Right (
        if distance == c
        then some 2
        else if distance == d
        then some 3
        else if ltb (distance + 15) (2 ^ 64)
        then some (distance + 15)
        else none)
    unfolding Resolves resolve_short
    older-Right = elim (Bool-cases (distance == c)) [
      | inl same ↦ rw same (inl (omega arith, ahead c 0 (omega (arith, ==→eq distance c same))))
      | inr other ↦ rw other (elim (Bool-cases (distance == d)) [
        | inl same ↦ rw same (inl (omega arith, ahead d 0 (omega (arith, ==→eq distance d same))))
        | inr other' ↦ rw other' long-Right
      ])
    ]

    compute_code-Right :
        (max_distance : ℕ)
        → Right (compute_code (record { values = a ∷ b ∷ c ∷ d ∷ [] }) distance max_distance)
    unfolding compute_code Resolves resolve_short
    compute_code-Right max_distance = elim (Bool-cases (leb distance max_distance)) [
      | inr far ↦ rw far long-Right
      | inl near ↦ rw near (elim (Bool-cases (distance == a)) [
        | inl same ↦ rw same (inl (omega arith, ahead a 0 (omega (arith, ==→eq distance a same))))
        | inr other ↦ rw other (elim (Bool-cases (distance == b)) [
          | inl same ↦ rw same (inl (omega arith, ahead b 0 (omega (arith, ==→eq distance b same))))
          | inr other' ↦ rw other' (
              offset_or-Right last_distance_codes a _ last_code-Resolves
                (offset_or-Right second_last_distance_codes b _ second_code-Resolves older-Right))
        ])
      ])
    ]

    named :
        (o : Option ℕ)
        → Right o
        → ((code : ℕ) × (o ≡ some code)
            × (((code < 16) × (resolve_short recent code ≡ ok distance)) ⊎ (code ≡ distance + 15)))
          ⊎ ((o ≡ none) × (2 ^ 64 ≤ distance + 15))
    unfolding Resolves
    named none h = inr (refl, h)
    named (some code) h = inl (code, refl, h)

-- Whatever the four recent distances, for any distance but 0 that fits 64 bits, and any limit,
-- `compute_code` gives one of the 16 short codes, which the decoder resolves to the same distance from the
-- same recent distances; or it gives the long code, which is the distance plus 15; or its `expect` fails, and
-- then the distance plus 15 does not fit 64 bits.
pub compute_code-resolve_short :
    (distance a b c d max_distance : ℕ)
    → 1 ≤ distance
    → distance < 2 ^ 64
    → ((code : ℕ) × (compute_code (record { values = a ∷ b ∷ c ∷ d ∷ [] }) distance max_distance
          ≡ some code)
        × (((code < 16)
              × (resolve_short (record { values = a ∷ b ∷ c ∷ d ∷ [] }) code ≡ ok distance))
            ⊎ (code ≡ distance + 15)))
      ⊎ ((compute_code (record { values = a ∷ b ∷ c ∷ d ∷ [] }) distance max_distance ≡ none)
          × (2 ^ 64 ≤ distance + 15))
compute_code-resolve_short distance a b c d max_distance p h =
    named distance p h a b c d _ (compute_code-Right distance p h a b c d max_distance)
