-- ===== src/Encode/BlockSplit.antt =====
-- src/encode/greedy/block_split.rs: the move-to-front transform of a context map.
use brutli.Prelude.{
  ℕ, zero, suc, ◌+◌, max, Option, none, some, List, [], ◌∷◌, if◌then◌else◌, ◌==◌, get_or,
}

-- `iter().max()`, for the entries behind the first.
unfoldable pub max_value : ℕ → List ℕ → ℕ
max_value first [] = first
max_value first (v ∷ map) = max_value (max first v) map

-- So many numbers from the first on.
unfoldable pub range_from : ℕ → ℕ → List ℕ
range_from zero first = []
range_from (suc n) first = first ∷ range_from n (first + 1)

abbrev pub next_position : Option ℕ → Option ℕ
next_position none = none
next_position (some i) = some (suc i)

-- `iter().position(|&candidate| candidate == value)`
unfoldable pub position : ℕ → List ℕ → Option ℕ
position value [] = none
position value (candidate ∷ rest) =
    let later = position value rest in if candidate == value then some 0 else next_position later

unfoldable pub remove : ℕ → List ℕ → List ℕ
remove i [] = []
remove zero (x ∷ xs) = xs
remove (suc i) (x ∷ xs) = x ∷ remove i xs

abbrev pub push_front : ℕ → Option (List ℕ) → Option (List ℕ)
push_front index none = none
push_front index (some rest) = some (index ∷ rest)

-- The loop over the map; `none` is the failed `expect`.
unfoldable pub transform_with : List ℕ → List ℕ → Option (List ℕ)
transform_with mtf [] = some []
transform_with mtf (value ∷ map) = elim (position value mtf) [
  | none ↦ none
  | some index ↦ push_front index (transform_with (get_or mtf index 0 ∷ remove index mtf) map)
]

unfoldable pub move_to_front_transform : List ℕ → Option (List ℕ)
move_to_front_transform [] = some []
move_to_front_transform (first ∷ map) =
    transform_with (range_from (max_value first map + 1) 0) (first ∷ map)
