-- ===== src/Encode/Distance.antt =====
-- src/encode/distance.rs: the symbol and the extra bits of a distance.
use brutli.Prelude.{
  ℕ, ◌+◌, ◌-◌, ◌*◌, ◌%◌, ◌^◌, bit_and, Option, none, some, List, [], ◌∷◌, if◌then◌else◌, ◌==◌, ltb,
  leb, get_or, take, shr, u16,
}
use brutli.Prelude.Log.{bit_length}
use brutli.Encode.BitWriter.{BitWriter, write_bits}

abbrev pub short_code_count : ℕ
short_code_count = 16

abbrev pub postfix_code_count : ℕ
postfix_code_count = 48

abbrev pub last_distance_codes : List ℕ
last_distance_codes = 8 ∷ 6 ∷ 4 ∷ 0 ∷ 5 ∷ 7 ∷ 9 ∷ []

abbrev pub second_last_distance_codes : List ℕ
second_last_distance_codes = 14 ∷ 12 ∷ 10 ∷ 1 ∷ 11 ∷ 13 ∷ 15 ∷ []

pub record DistanceCode : Type 0 where
  pub symbol : ℕ
  pub extra : ℕ
  pub extra_bits : ℕ

-- An array of four.
pub record RecentDistances : Type 0 where
  pub values : List ℕ

abbrev pub default_recent : RecentDistances
default_recent = record { values = 4 ∷ 11 ∷ 15 ∷ 16 ∷ [] }

unfoldable pub push : RecentDistances → ℕ → RecentDistances
push recent distance = record { values = distance ∷ take 3 recent.values }

abbrev pub restore : RecentDistances → List ℕ → RecentDistances
restore recent snapshot = record { values = snapshot }

-- `distance.checked_add(3).and_then(|value| value.checked_sub(cached)).filter(|&offset| offset < 7)`
unfoldable pub short_offset : ℕ → ℕ → Option ℕ
short_offset distance cached =
    if ltb (distance + 3) (2 ^ 64)
    then if leb cached (distance + 3)
      then if ltb (distance + 3 - cached) 7 then some (distance + 3 - cached) else none
      else none
    else none

-- `if let Some(offset) = ... { return codes[offset] }`, or what follows.
abbrev pub offset_or : List ℕ → Option ℕ → Option ℕ → Option ℕ
offset_or codes none later = later
offset_or codes (some offset) later = some (get_or codes offset 0)

-- `none` is the failed `expect`, of a distance whose sum with 15 does not fit `usize`.
unfoldable pub compute_code : RecentDistances → ℕ → ℕ → Option ℕ
unfolding short_offset
compute_code recent distance max_distance =
    let value = λ (i : ℕ). get_or recent.values i 0 in
    let sum = distance + (short_code_count - 1) in
    let long = if ltb sum (2 ^ 64) then some sum else none in
    if leb distance max_distance
    then if distance == value 0
      then some 0
      else if distance == value 1
      then some 1
      else offset_or last_distance_codes (short_offset distance (value 0)) (
          offset_or second_last_distance_codes (short_offset distance (value 1))
            (if distance == value 2 then some 2 else if distance == value 3 then some 3 else long))
    else long

-- `usize::BITS - 1 - value.leading_zeros()`
abbrev pub log2_floor_nonzero : ℕ → ℕ
log2_floor_nonzero value = bit_length 64 value - 1

abbrev pub alphabet_size : ℕ → ℕ → ℕ
alphabet_size direct_codes postfix_bits =
    short_code_count + direct_codes + postfix_code_count * 2 ^ postfix_bits

-- The code of `dist`, which counts the long distances from `2 ^ (postfix_bits + 2)` on.
unfoldable pub bucket_code : ℕ → ℕ → ℕ → DistanceCode
bucket_code dist direct_codes postfix_bits =
    let bucket = log2_floor_nonzero dist - 1 in
    let postfix = bit_and dist (2 ^ postfix_bits - 1) in
    let prefix = bit_and (shr dist bucket) 1 in
    let offset = (2 + prefix) * 2 ^ bucket in
    let extra_bits = bucket - postfix_bits in
    record {
      symbol =
          short_code_count
          + direct_codes
          + (2 * (extra_bits - 1) + prefix) * 2 ^ postfix_bits
          + postfix;
      extra = shr (dist - offset) postfix_bits % 2 ^ 32;
      extra_bits = extra_bits;
    }

-- `none` is the failed `assert!` on the symbol.
abbrev pub in_alphabet : ℕ → ℕ → DistanceCode → Option DistanceCode
in_alphabet direct_codes postfix_bits c =
    if ltb c.symbol (alphabet_size direct_codes postfix_bits)
    then some (record c { symbol = u16 c.symbol })
    else none

unfoldable pub for_intermediate_code : ℕ → ℕ → ℕ → Option DistanceCode
for_intermediate_code code direct_codes postfix_bits =
    if ltb code (short_code_count + direct_codes)
    then some (record { symbol = u16 code; extra = 0; extra_bits = 0 })
    else in_alphabet direct_codes postfix_bits (
        bucket_code (2 ^ (postfix_bits + 2) + code - short_code_count - direct_codes) direct_codes
          postfix_bits)

unfoldable pub for_code : ℕ → ℕ → ℕ → Option DistanceCode
unfolding for_intermediate_code
for_code code direct_codes postfix_bits =
    if ltb code short_code_count
    then some (record { symbol = u16 code; extra = 0; extra_bits = 0 })
    else for_intermediate_code code direct_codes postfix_bits

unfoldable pub write_extra : DistanceCode → BitWriter → BitWriter
write_extra c writer = write_bits writer c.extra c.extra_bits
