-- ===== src/Decode/Dictionary/Total.antt =====
-- When a reference to the static dictionary gives a word.
use brutli.Prelude.{
  ℕ, ◌+◌, ◌-◌, ◌*◌, ◌/◌, ◌^◌, ◌≤◌, ◌<◌, ◌≡◌, refl, arith, Bool, true, false, not, ◌&&◌, ◌||◌,
  Option, none, some, List, ◌++◌, ◌==◌, ltb, leb, length, get_or, Result, ok,
}
use native.Mathlib.Nat.{mod-lt}
use brutli.Prelude.Pow.{two-pow-pos}
use brutli.Prelude.Bitwise.{and-low_mask}
use brutli.Prelude.Table.{holds_below, below_holds}
use brutli.Decode.Dictionary.{
  DictionaryError, size_bits, offsets_by_length, transforms, get_range, word, affix, kept, changed,
  join_affixes, transform_word, transform_found, transform,
}

abbrev is_some : Option (List ℕ) → Bool
is_some none = false
is_some (some xs) = true

-- The types of transforms that `transform_word` knows.
abbrev known : ℕ → Bool
known type = leb type 20

row_known : ℕ → Bool
row_known i =
    is_some (affix (get_or transforms (i * 3) 0))
    && (is_some (affix (get_or transforms (i * 3 + 2) 0))
        && known (get_or transforms (i * 3 + 1) 0))

rows-known : (i : ℕ) → i < 121 → row_known i ≡ true
unfolding holds_below row_known affix
rows-known i h = below_holds 121 row_known i refl h

kept-known : (type : ℕ) (w : List ℕ) → known type ≡ true → is_some (kept type w) ≡ true
unfolding kept
kept-known type w h = ground arith

abbrev pub Succeeds : Result DictionaryError (List ℕ) → Type 0
Succeeds r = (bytes : List ℕ) × (r ≡ ok bytes)

joined-Succeeds :
    (type : ℕ) (a b c : Option (List ℕ))
    → is_some a ≡ true
    → is_some b ≡ true
    → is_some c ≡ true
    → Succeeds (join_affixes type a b c)
joined-Succeeds type (some a) (some b) (some c) ha hb hc = (a ++ (changed type c ++ b), refl)
joined-Succeeds type none b c ha hb hc = absurd (ground arith)
joined-Succeeds type (some a) none c ha hb hc = absurd (ground arith)
joined-Succeeds type (some a) (some b) none ha hb hc = absurd (ground arith)

all_three : (a b c : Bool) → (a && (b && c)) ≡ true → (a ≡ true) × (b ≡ true) × (c ≡ true)
all_three a b c h = ground arith

transform_word-Succeeds : (w : List ℕ) (i : ℕ) → i < 121 → Succeeds (transform_word w i)
unfolding transform_word row_known
transform_word-Succeeds w i h =
    let (prefix, suffix, type) = all_three _ _ _ (rows-known i h) in
    joined-Succeeds (get_or transforms (i * 3 + 1) 0) _ _ _ prefix suffix
      (kept-known (get_or transforms (i * 3 + 1) 0) w type)

-- Every word of a length from 4 to 24 lies inside the dictionary.
length_fits : ℕ → Bool
length_fits l =
    ltb l 4
    || (not (size_bits l == 0) && leb (get_or offsets_by_length l 0 + 2 ^ size_bits l * l) 122784)

lengths-fit : (l : ℕ) → l < 25 → length_fits l ≡ true
unfolding holds_below length_fits size_bits
lengths-fit l h = below_holds 25 length_fits l refl h

from_fits :
    (bits offset l : ℕ)
    → (ltb l 4 || (not (bits == 0) && leb (offset + 2 ^ bits * l) 122784)) ≡ true
    → 4 ≤ l
    → ((bits == 0) ≡ false) × (offset + 2 ^ bits * l ≤ 122784)
from_fits bits offset l h low = ground arith

last_word : (n index l : ℕ) → index < n → index * l + l ≤ n * l
last_word n index l h = grind arith

range-Found :
    (xs : List ℕ) (start count : ℕ)
    → start + count ≤ length xs
    → is_some (get_range xs start count) ≡ true
range-Found xs start count h = ground arith

word-Found :
    (dictionary : List ℕ) (l index : ℕ)
    → length dictionary ≡ 122784
    → 4 ≤ l
    → l ≤ 24
    → index < 2 ^ size_bits l
    → is_some (word dictionary l index) ≡ true
unfolding word length_fits
word-Found dictionary l index size low high inside =
    let (nonzero, fits) =
      from_fits (size_bits l) (get_or offsets_by_length l 0) l (lengths-fit l (omega arith)) low in
    let below : leb (2 ^ size_bits l) index ≡ false = ground arith in
    rw (nonzero, below)
      (range-Found dictionary (get_or offsets_by_length l 0 + index * l) l
        (omega (arith, last_word (2 ^ size_bits l) index l inside)))

found-Succeeds :
    (o : Option (List ℕ)) (i : ℕ) → is_some o ≡ true → i < 121 → Succeeds (transform_found o i)
found-Succeeds none i h less = absurd (ground arith)
found-Succeeds (some w) i h less = transform_word-Succeeds w i less

-- A reference by a copy length from 4 to 24 and a distance beyond the window, whose transform is one of the
-- 121, gives bytes: no word is outside the dictionary, and no transform names a missing affix.
pub transform-Succeeds :
    (dictionary : List ℕ) (distance copy_length reach : ℕ)
    → length dictionary ≡ 122784
    → 4 ≤ copy_length
    → copy_length ≤ 24
    → reach < distance
    → (distance - reach - 1) / 2 ^ size_bits copy_length < 121
    → Succeeds (transform dictionary distance copy_length reach)
unfolding transform length_fits
transform-Succeeds dictionary distance copy_length reach size low high beyond less =
    let (nonzero, fits) =
      from_fits (size_bits copy_length) (get_or offsets_by_length copy_length 0) copy_length
        (lengths-fit copy_length (omega arith)) low in
    let pos = two-pow-pos (size_bits copy_length) in
    let masked = and-low_mask (size_bits copy_length) (distance - reach - 1) in
    let beyond' : leb distance reach ≡ false = ground arith in
    let less' : leb 121 ((distance - reach - 1) / 2 ^ size_bits copy_length) ≡ false =
      ground arith in
    rw (nonzero, beyond', less')
      (found-Succeeds _ _
        (word-Found dictionary copy_length _ size low high
          (omega (arith, masked, mod-lt (distance - reach - 1) pos)))
        less)
