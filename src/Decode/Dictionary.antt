-- ===== src/Decode/Dictionary.antt =====
-- src/dictionary.rs: the words of the static dictionary and their transforms. The words themselves are the
-- data file of the dictionary, a parameter of what reads it.
pub mod Total
use brutli.Prelude.{
  ℕ, zero, suc, ◌+◌, ◌-◌, ◌*◌, ◌/◌, ◌^◌, ◌%◌, min, bit_and, bit_xor, Bool, ◌&&◌, ◌||◌, Option, none,
  some, List, [], ◌∷◌, ◌++◌, if◌then◌else◌, ◌==◌, ltb, leb, length, get_or, get_elem?, set, take,
  drop, Result, ok, err,
}

abbrev pub min_word_length : ℕ
min_word_length = 4

abbrev pub max_word_length : ℕ
max_word_length = 24

abbrev pub size_bits_by_length : List ℕ
size_bits_by_length =
    0 ∷ 0 ∷ 0 ∷ 0 ∷ 10 ∷ 10 ∷ 11 ∷ 11 ∷ 10 ∷ 10 ∷ 10 ∷ 10 ∷ 10 ∷ 9 ∷ 9 ∷ 8 ∷ 7 ∷ 7 ∷ 8 ∷ 7 ∷ 7 ∷ 6
    ∷ 6 ∷ 5 ∷ 5 ∷ 0 ∷ 0 ∷ 0 ∷ 0 ∷ 0 ∷ 0 ∷ 0 ∷ []

abbrev pub offsets_by_length : List ℕ
offsets_by_length =
    0 ∷ 0 ∷ 0 ∷ 0 ∷ 0 ∷ 4096 ∷ 9216 ∷ 21504 ∷ 35840 ∷ 44032 ∷ 53248 ∷ 63488 ∷ 74752 ∷ 87040 ∷ 93696
    ∷ 100864 ∷ 104704 ∷ 106752 ∷ 108928 ∷ 113536 ∷ 115968 ∷ 118528 ∷ 119872 ∷ 121280 ∷ 122016
    ∷ 122784 ∷ 122784 ∷ 122784 ∷ 122784 ∷ 122784 ∷ 122784 ∷ 122784 ∷ []

abbrev pub prefix_suffix : List ℕ
prefix_suffix =
    1 ∷ 32 ∷ 2 ∷ 44 ∷ 32 ∷ 8 ∷ 32 ∷ 111 ∷ 102 ∷ 32 ∷ 116 ∷ 104 ∷ 101 ∷ 32 ∷ 4 ∷ 32 ∷ 111 ∷ 102 ∷ 32
    ∷ 2 ∷ 115 ∷ 32 ∷ 1 ∷ 46 ∷ 5 ∷ 32 ∷ 97 ∷ 110 ∷ 100 ∷ 32 ∷ 4 ∷ 32 ∷ 105 ∷ 110 ∷ 32 ∷ 1 ∷ 34 ∷ 4
    ∷ 32 ∷ 116 ∷ 111 ∷ 32 ∷ 2 ∷ 34 ∷ 62 ∷ 1 ∷ 10 ∷ 2 ∷ 46 ∷ 32 ∷ 1 ∷ 93 ∷ 5 ∷ 32 ∷ 102 ∷ 111 ∷ 114
    ∷ 32 ∷ 3 ∷ 32 ∷ 97 ∷ 32 ∷ 6 ∷ 32 ∷ 116 ∷ 104 ∷ 97 ∷ 116 ∷ 32 ∷ 1 ∷ 39 ∷ 6 ∷ 32 ∷ 119 ∷ 105 ∷ 116
    ∷ 104 ∷ 32 ∷ 6 ∷ 32 ∷ 102 ∷ 114 ∷ 111 ∷ 109 ∷ 32 ∷ 4 ∷ 32 ∷ 98 ∷ 121 ∷ 32 ∷ 1 ∷ 40 ∷ 6 ∷ 46 ∷ 32
    ∷ 84 ∷ 104 ∷ 101 ∷ 32 ∷ 4 ∷ 32 ∷ 111 ∷ 110 ∷ 32 ∷ 4 ∷ 32 ∷ 97 ∷ 115 ∷ 32 ∷ 4 ∷ 32 ∷ 105 ∷ 115
    ∷ 32 ∷ 4 ∷ 105 ∷ 110 ∷ 103 ∷ 32 ∷ 2 ∷ 10 ∷ 9 ∷ 1 ∷ 58 ∷ 3 ∷ 101 ∷ 100 ∷ 32 ∷ 2 ∷ 61 ∷ 34 ∷ 4
    ∷ 32 ∷ 97 ∷ 116 ∷ 32 ∷ 3 ∷ 108 ∷ 121 ∷ 32 ∷ 1 ∷ 44 ∷ 2 ∷ 61 ∷ 39 ∷ 5 ∷ 46 ∷ 99 ∷ 111 ∷ 109 ∷ 47
    ∷ 7 ∷ 46 ∷ 32 ∷ 84 ∷ 104 ∷ 105 ∷ 115 ∷ 32 ∷ 5 ∷ 32 ∷ 110 ∷ 111 ∷ 116 ∷ 32 ∷ 3 ∷ 101 ∷ 114 ∷ 32
    ∷ 3 ∷ 97 ∷ 108 ∷ 32 ∷ 4 ∷ 102 ∷ 117 ∷ 108 ∷ 32 ∷ 4 ∷ 105 ∷ 118 ∷ 101 ∷ 32 ∷ 5 ∷ 108 ∷ 101 ∷ 115
    ∷ 115 ∷ 32 ∷ 4 ∷ 101 ∷ 115 ∷ 116 ∷ 32 ∷ 4 ∷ 105 ∷ 122 ∷ 101 ∷ 32 ∷ 2 ∷ 194 ∷ 160 ∷ 4 ∷ 111 ∷ 117
    ∷ 115 ∷ 32 ∷ 5 ∷ 32 ∷ 116 ∷ 104 ∷ 101 ∷ 32 ∷ 2 ∷ 101 ∷ 32 ∷ 0 ∷ []

abbrev pub prefix_suffix_map : List ℕ
prefix_suffix_map =
    0 ∷ 2 ∷ 5 ∷ 14 ∷ 19 ∷ 22 ∷ 24 ∷ 30 ∷ 35 ∷ 37 ∷ 42 ∷ 45 ∷ 47 ∷ 50 ∷ 52 ∷ 58 ∷ 62 ∷ 69 ∷ 71 ∷ 78
    ∷ 85 ∷ 90 ∷ 92 ∷ 99 ∷ 104 ∷ 109 ∷ 114 ∷ 119 ∷ 122 ∷ 124 ∷ 128 ∷ 131 ∷ 136 ∷ 140 ∷ 142 ∷ 145
    ∷ 151 ∷ 159 ∷ 165 ∷ 169 ∷ 173 ∷ 178 ∷ 183 ∷ 189 ∷ 194 ∷ 199 ∷ 202 ∷ 207 ∷ 213 ∷ 216 ∷ []

abbrev pub transforms : List ℕ
transforms =
    49 ∷ 0 ∷ 49 ∷ 49 ∷ 0 ∷ 0 ∷ 0 ∷ 0 ∷ 0 ∷ 49 ∷ 12 ∷ 49 ∷ 49 ∷ 10 ∷ 0 ∷ 49 ∷ 0 ∷ 47 ∷ 0 ∷ 0 ∷ 49 ∷ 4
    ∷ 0 ∷ 0 ∷ 49 ∷ 0 ∷ 3 ∷ 49 ∷ 10 ∷ 49 ∷ 49 ∷ 0 ∷ 6 ∷ 49 ∷ 13 ∷ 49 ∷ 49 ∷ 1 ∷ 49 ∷ 1 ∷ 0 ∷ 0 ∷ 49
    ∷ 0 ∷ 1 ∷ 0 ∷ 10 ∷ 0 ∷ 49 ∷ 0 ∷ 7 ∷ 49 ∷ 0 ∷ 9 ∷ 48 ∷ 0 ∷ 0 ∷ 49 ∷ 0 ∷ 8 ∷ 49 ∷ 0 ∷ 5 ∷ 49 ∷ 0
    ∷ 10 ∷ 49 ∷ 0 ∷ 11 ∷ 49 ∷ 3 ∷ 49 ∷ 49 ∷ 0 ∷ 13 ∷ 49 ∷ 0 ∷ 14 ∷ 49 ∷ 14 ∷ 49 ∷ 49 ∷ 2 ∷ 49 ∷ 49
    ∷ 0 ∷ 15 ∷ 49 ∷ 0 ∷ 16 ∷ 0 ∷ 10 ∷ 49 ∷ 49 ∷ 0 ∷ 12 ∷ 5 ∷ 0 ∷ 49 ∷ 0 ∷ 0 ∷ 1 ∷ 49 ∷ 15 ∷ 49 ∷ 49
    ∷ 0 ∷ 18 ∷ 49 ∷ 0 ∷ 17 ∷ 49 ∷ 0 ∷ 19 ∷ 49 ∷ 0 ∷ 20 ∷ 49 ∷ 16 ∷ 49 ∷ 49 ∷ 17 ∷ 49 ∷ 47 ∷ 0 ∷ 49
    ∷ 49 ∷ 4 ∷ 49 ∷ 49 ∷ 0 ∷ 22 ∷ 49 ∷ 11 ∷ 49 ∷ 49 ∷ 0 ∷ 23 ∷ 49 ∷ 0 ∷ 24 ∷ 49 ∷ 0 ∷ 25 ∷ 49 ∷ 7
    ∷ 49 ∷ 49 ∷ 1 ∷ 26 ∷ 49 ∷ 0 ∷ 27 ∷ 49 ∷ 0 ∷ 28 ∷ 0 ∷ 0 ∷ 12 ∷ 49 ∷ 0 ∷ 29 ∷ 49 ∷ 20 ∷ 49 ∷ 49
    ∷ 18 ∷ 49 ∷ 49 ∷ 6 ∷ 49 ∷ 49 ∷ 0 ∷ 21 ∷ 49 ∷ 10 ∷ 1 ∷ 49 ∷ 8 ∷ 49 ∷ 49 ∷ 0 ∷ 31 ∷ 49 ∷ 0 ∷ 32
    ∷ 47 ∷ 0 ∷ 3 ∷ 49 ∷ 5 ∷ 49 ∷ 49 ∷ 9 ∷ 49 ∷ 0 ∷ 10 ∷ 1 ∷ 49 ∷ 10 ∷ 8 ∷ 5 ∷ 0 ∷ 21 ∷ 49 ∷ 11 ∷ 0
    ∷ 49 ∷ 10 ∷ 10 ∷ 49 ∷ 0 ∷ 30 ∷ 0 ∷ 0 ∷ 5 ∷ 35 ∷ 0 ∷ 49 ∷ 47 ∷ 0 ∷ 2 ∷ 49 ∷ 10 ∷ 17 ∷ 49 ∷ 0 ∷ 36
    ∷ 49 ∷ 0 ∷ 33 ∷ 5 ∷ 0 ∷ 0 ∷ 49 ∷ 10 ∷ 21 ∷ 49 ∷ 10 ∷ 5 ∷ 49 ∷ 0 ∷ 37 ∷ 0 ∷ 0 ∷ 30 ∷ 49 ∷ 0 ∷ 38
    ∷ 0 ∷ 11 ∷ 0 ∷ 49 ∷ 0 ∷ 39 ∷ 0 ∷ 11 ∷ 49 ∷ 49 ∷ 0 ∷ 34 ∷ 49 ∷ 11 ∷ 8 ∷ 49 ∷ 10 ∷ 12 ∷ 0 ∷ 0 ∷ 21
    ∷ 49 ∷ 0 ∷ 40 ∷ 0 ∷ 10 ∷ 12 ∷ 49 ∷ 0 ∷ 41 ∷ 49 ∷ 0 ∷ 42 ∷ 49 ∷ 11 ∷ 17 ∷ 49 ∷ 0 ∷ 43 ∷ 0 ∷ 10
    ∷ 5 ∷ 49 ∷ 11 ∷ 10 ∷ 0 ∷ 0 ∷ 34 ∷ 49 ∷ 10 ∷ 33 ∷ 49 ∷ 0 ∷ 44 ∷ 49 ∷ 11 ∷ 5 ∷ 45 ∷ 0 ∷ 49 ∷ 0 ∷ 0
    ∷ 33 ∷ 49 ∷ 10 ∷ 30 ∷ 49 ∷ 11 ∷ 30 ∷ 49 ∷ 0 ∷ 46 ∷ 49 ∷ 11 ∷ 1 ∷ 49 ∷ 10 ∷ 34 ∷ 0 ∷ 10 ∷ 33 ∷ 0
    ∷ 11 ∷ 30 ∷ 0 ∷ 11 ∷ 1 ∷ 49 ∷ 11 ∷ 33 ∷ 49 ∷ 11 ∷ 21 ∷ 49 ∷ 11 ∷ 12 ∷ 0 ∷ 11 ∷ 5 ∷ 49 ∷ 11 ∷ 34
    ∷ 0 ∷ 11 ∷ 12 ∷ 0 ∷ 10 ∷ 30 ∷ 0 ∷ 11 ∷ 34 ∷ 0 ∷ 10 ∷ 34 ∷ []

abbrev pub transform_count : ℕ
transform_count = 121

pub data DictionaryError : Type 0 where
  bad_copy_length bad_distance bad_transform bad_word : DictionaryError

unfoldable pub size_bits : ℕ → ℕ
size_bits word_length = get_or size_bits_by_length word_length 0

-- `xs.get(start..start + count)`
abbrev pub get_range : List ℕ → ℕ → ℕ → Option (List ℕ)
get_range xs start count =
    if leb (start + count) (length xs) then some (take count (drop start xs)) else none

-- The checked sums and products of lengths below 32 and of indices below 2048 do not overflow.
unfoldable pub word : List ℕ → ℕ → ℕ → Option (List ℕ)
word dictionary word_length word_index =
    let bits = size_bits word_length in
    if (bits == 0) || leb (2 ^ bits) word_index
    then none
    else get_range dictionary (get_or offsets_by_length word_length 0 + word_index * word_length)
        word_length

abbrev pub sized_affix : Option ℕ → ℕ → Option (List ℕ)
sized_affix none start = none
sized_affix (some l) start = get_range prefix_suffix (start + 1) l

abbrev pub affix_at : Option ℕ → Option (List ℕ)
affix_at none = none
affix_at (some start) = sized_affix (get_elem? prefix_suffix start) start

-- `none` is `Err(DictionaryError::Transform)`.
unfoldable pub affix : ℕ → Option (List ℕ)
affix id = affix_at (get_elem? prefix_suffix_map id)

-- The word, and what `offset` moves by.
unfoldable pub uppercase_at : List ℕ → ℕ → List ℕ × ℕ
uppercase_at w offset =
    let first = get_or w offset 0 in
    if ltb first 0xc0
    then (if leb 97 first && leb first 122 then set w offset (bit_xor first 32) else w, 1)
    else if ltb first 0xe0
    then if ltb (offset + 1) (length w)
      then (set w (offset + 1) (bit_xor (get_or w (offset + 1) 0) 32), 2)
      else (w, 1)
    else if ltb (offset + 2) (length w)
    then (set w (offset + 2) (bit_xor (get_or w (offset + 2) 0) 5), 3)
    else (w, length w - offset)

-- The `while` of `UPPERCASE_ALL`: each round moves on by one at least, so `word.len()` rounds do.
unfoldable pub uppercase_all : ℕ → List ℕ → ℕ → List ℕ
uppercase_all zero w offset = w
uppercase_all (suc fuel) w offset =
    let (changed, advance) = uppercase_at w offset in
    let rest = uppercase_all fuel changed (offset + advance) in
    if ltb offset (length w) then rest else w

-- The part of the word that a transform keeps; `none` is an unknown type.
unfoldable pub kept : ℕ → List ℕ → Option (List ℕ)
kept type w =
    if leb 1 type && leb type 9
    then some (take (length w - type) w)
    else if leb 12 type && leb type 20
    then some (drop (min (type - 11) (length w)) w)
    else if (type == 0) || ((type == 10) || (type == 11))
    then some w
    else none

unfoldable pub changed : ℕ → List ℕ → List ℕ
changed type w =
    if (type == 10) && ltb 0 (length w)
    then (uppercase_at w 0).0
    else if type == 11
    then uppercase_all (length w) w 0
    else w

abbrev pub join_affixes :
    ℕ → Option (List ℕ) → Option (List ℕ) → Option (List ℕ) → Result DictionaryError (List ℕ)
join_affixes type (some prefix) (some suffix) (some body) =
    ok (prefix ++ (changed type body ++ suffix))
join_affixes type _ _ _ = err DictionaryError.bad_transform

unfoldable pub transform_word : List ℕ → ℕ → Result DictionaryError (List ℕ)
transform_word w transform_index =
    let base = transform_index * 3 in
    let type = get_or transforms (base + 1) 0 in
    join_affixes type (affix (get_or transforms base 0)) (affix (get_or transforms (base + 2) 0))
      (kept type w)

abbrev pub transform_found : Option (List ℕ) → ℕ → Result DictionaryError (List ℕ)
transform_found none transform_index = err DictionaryError.bad_word
transform_found (some found) transform_index = transform_word found transform_index

unfoldable pub transform : List ℕ → ℕ → ℕ → ℕ → Result DictionaryError (List ℕ)
transform dictionary distance copy_length max_backward_distance =
    let shift = size_bits copy_length in
    let address = distance - max_backward_distance - 1 in
    let word_index = bit_and address (2 ^ shift - 1) in
    let transform_index = address / 2 ^ shift in
    if shift == 0
    then err DictionaryError.bad_copy_length
    else if leb distance max_backward_distance
    then err DictionaryError.bad_distance
    else if leb transform_count transform_index
    then err DictionaryError.bad_transform
    else transform_found (word dictionary copy_length word_index) transform_index
