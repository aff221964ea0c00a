-- ===== src/Codec/ContextMap.antt =====
-- The move-to-front transform of the encoder and its inverse in the decoder.
use brutli.Prelude.{
  ℕ, zero, suc, ◌+◌, ◌-◌, ◌≤◌, ◌<◌, ◌≡◌, ◌⊎◌, inl, inr, refl, sym, ap, ap₂, ◌∙◌, arith, Bool-cases,
  ==→eq, ==→ne, max, false, some, List, [], ◌∷◌, ◌++◌, ◌==◌, All, length, get_or, take, drop,
  get_or-append_left,
}
use brutli.Encode.BlockSplit.{
  max_value, range_from, position, remove, push_front, transform_with, move_to_front_transform,
}
use brutli.Decode.ContextMap.{count_from, inverse_with, inverse_move_to_front}

abbrev Mem : ℕ → List ℕ → Type 0
Mem v [] = ⊥
Mem v (x ∷ xs) = (x ≡ v) ⊎ Mem v xs

-- Where a value of a list is found.
record Found (v : ℕ) (xs : List ℕ) : Type 0 where
  index : ℕ
  at : position v xs ≡ some index
  value : get_or xs index 0 ≡ v
  inside : index < length xs

Mem-Found : (v : ℕ) (xs : List ℕ) → Mem v xs → Found v xs
unfolding position
Mem-Found v [] m = elim m [ ]
Mem-Found v (x ∷ xs) m = elim (Bool-cases (x == v)) [
  | inl here ↦ record { index = 0; at = rw here refl; value = ==→eq x v here; inside = omega arith }
  | inr there ↦
      let f = Mem-Found v xs (later m there) in
      record {
        index = suc f.index;
        at = rw (there, f.at) refl;
        value = f.value;
        inside = omega (arith, f.inside);
      }
]
  where
    later : (x ≡ v) ⊎ Mem v xs → (x == v) ≡ false → Mem v xs
    later (inl e) there = absurd (==→ne x v there e)
    later (inr m') there = m'

remove-Mem : (x i : ℕ) (xs : List ℕ) → Mem x xs → (get_or xs i 0 ≡ x) ⊎ Mem x (remove i xs)
unfolding remove
remove-Mem x i [] m = elim m [ ]
remove-Mem x zero (y ∷ ys) m = m
remove-Mem x (suc i) (y ∷ ys) (inl e) = inr (inl e)
remove-Mem x (suc i) (y ∷ ys) (inr m) = elim (remove-Mem x i ys m) [
  | inl e ↦ inl e
  | inr m' ↦ inr (inr m')
]

remove-take-drop : (i : ℕ) (xs : List ℕ) → remove i xs ≡ take i xs ++ drop (suc i) xs
unfolding remove
remove-take-drop zero [] = refl
remove-take-drop (suc i) [] = refl
remove-take-drop zero (x ∷ xs) = refl
remove-take-drop (suc i) (x ∷ xs) = ap (◌∷◌ x) (remove-take-drop i xs)

remove-append : (i : ℕ) (xs ys : List ℕ) → i < length xs → remove i (xs ++ ys) ≡ remove i xs ++ ys
unfolding remove
remove-append i [] ys h = absurd (omega arith)
remove-append zero (x ∷ xs) ys h = refl
remove-append (suc i) (x ∷ xs) ys h = ap (◌∷◌ x) (remove-append i xs ys (omega arith))

-- What one loop writes, the other reads back, with any numbers behind those that the map can hold.
record Inverts (mtf tail map : List ℕ) : Type 0 where
  transformed : List ℕ
  written : transform_with mtf map ≡ some transformed
  back : inverse_with (mtf ++ tail) transformed ≡ map

transformed-cons :
    (mtf map rest : List ℕ) (v index : ℕ)
    → position v mtf ≡ some index
    → transform_with (get_or mtf index 0 ∷ remove index mtf) map ≡ some rest
    → transform_with mtf (v ∷ map) ≡ some (index ∷ rest)
unfolding transform_with
transformed-cons mtf map rest v index found written =
    rw (found, transform_with) (ap (push_front index) written)

module _ (top : ℕ) (tail : List ℕ) where
  transform-Inverts :
      (mtf map : List ℕ)
      → ((x : ℕ) → x ≤ top → Mem x mtf)
      → All (λ v. v ≤ top) map
      → Inverts mtf tail map
  unfolding transform_with inverse_with
  transform-Inverts mtf [] covers below = record { transformed = []; written = refl; back = refl }
  transform-Inverts mtf (v ∷ map) covers below =
      let f = Mem-Found v mtf (covers v below.0) in
      let moved = get_or mtf f.index 0 ∷ remove f.index mtf in
      let rest =
        transform-Inverts moved map
          (λ x le. elim (remove-Mem x f.index mtf (covers x le)) [ inl e ↦ inl e | inr m ↦ inr m ])
          below.1 in
      let same = get_or-append_left mtf tail f.index 0 f.inside in
      record {
        transformed = f.index ∷ rest.transformed;
        written = transformed-cons mtf map rest.transformed v f.index f.at rest.written;
        back = ap₂ ◌∷◌ (same ∙ f.value) (
            ap (λ t. inverse_with t rest.transformed)
              (ap₂ ◌∷◌ same (
                sym (remove-take-drop f.index (mtf ++ tail))
                ∙ remove-append f.index mtf tail f.inside))
            ∙ rest.back);
      }

max_value-All :
    (top first : ℕ) (map : List ℕ)
    → max_value first map ≤ top
    → (first ≤ top) × All (λ v. v ≤ top) map
unfolding max_value
max_value-All top first [] h = (h, tt)
max_value-All top first (v ∷ map) h =
    let (both, rest) = max_value-All top (max first v) map h in (omega arith, (omega arith, rest))

max_value-lt :
    (limit first : ℕ) (map : List ℕ)
    → first < limit
    → All (λ v. v < limit) map
    → max_value first map < limit
unfolding max_value
max_value-lt limit first [] h below = h
max_value-lt limit first (v ∷ map) h below =
    max_value-lt limit (max first v) map (omega (arith, below.0)) below.1

range-Mem : (n first x : ℕ) → first ≤ x → x < first + n → Mem x (range_from n first)
unfolding range_from
range-Mem zero first x low high = absurd (omega arith)
range-Mem (suc n) first x low high = elim (Bool-cases (first == x)) [
  | inl e ↦ inl (==→eq first x e)
  | inr ne ↦
      let differs = ==→ne first x ne in inr (range-Mem n (first + 1) x (omega arith) (omega arith))
]

count-split :
    (a b first : ℕ) → count_from (a + b) first ≡ range_from a first ++ count_from b (first + a)
unfolding count_from range_from
count-split zero b first = ap₂ count_from (omega arith) (omega arith)
count-split (suc a) b first =
    let moved : suc a + b ≡ suc (a + b) = omega arith in
    let shifted : first + 1 + a ≡ first + suc a = omega arith in
    ap (λ n. count_from n first) moved
    ∙ ap (◌∷◌ first)
        (count-split a b (first + 1) ∙ ap (λ m. range_from a (first + 1) ++ count_from b m) shifted)

-- For a map whose entries are bytes, `move_to_front_transform` succeeds, and `inverse_move_to_front` gives the
-- map back from what it returns, though the two sides start from tables of different lengths.
pub move_to_front_round_trip :
    (map : List ℕ)
    → All (λ v. v < 256) map
    → (transformed : List ℕ) × (move_to_front_transform map ≡ some transformed)
      × (inverse_move_to_front transformed ≡ map)
unfolding move_to_front_transform inverse_move_to_front inverse_with
move_to_front_round_trip [] below = ([], refl, refl)
move_to_front_round_trip (first ∷ map) below =
    let top = max_value first map in
    let less = max_value-lt 256 first map below.0 below.1 in
    let all : 256 ≡ top + 1 + (255 - top) = omega arith in
    let behind : 0 + (top + 1) ≡ top + 1 = omega arith in
    let (first_le, rest_le) = max_value-All top first map (omega arith) in
    let r =
      transform-Inverts top (count_from (255 - top) (top + 1)) (range_from (top + 1) 0)
        (first ∷ map) (λ x le. range-Mem (top + 1) 0 x (omega arith) (omega arith))
        (first_le, rest_le) in
    (
      r.transformed,
      r.written,
      ap (λ t. inverse_with t r.transformed)
            (ap (λ n. count_from n 0) all
              ∙ (count-split (top + 1) (255 - top) 0
                  ∙ ap (λ n. range_from (top + 1) 0 ++ count_from (255 - top) n) behind))
          ∙ r.back,
    )
