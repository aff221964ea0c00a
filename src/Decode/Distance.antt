-- ===== src/Decode/Distance.antt =====
-- src/decode/distance.rs: the recent distances and the distance codes.
use brutli.Prelude.{
  ℕ, suc, ◌+◌, ◌-◌, ◌*◌, ◌^◌, bit_and, Bool, true, not, Option, none, some, List, [], ◌∷◌,
  if◌then◌else◌, ◌==◌, ltb, get_or, get_elem?, take, Result, ok, err, u8, shr,
}
use brutli.Decode.BitReader.{Source}
use brutli.Decode.Outcome.{Outcome, ready, panicked, read_then}

abbrev pub short_code_count : ℕ
short_code_count = 16

pub data DistanceError : Type 0 where
  invalid_symbol invalid_short_distance : DistanceError

pub record Distance : Type 0 where
  pub value : ℕ
  pub should_push : Bool

-- An array of four.
pub record RecentDistances : Type 0 where
  pub values : List ℕ

abbrev pub default_recent : RecentDistances
default_recent = record { values = 4 ∷ 11 ∷ 15 ∷ 16 ∷ [] }

abbrev pub last : RecentDistances → ℕ
last recent = get_or recent.values 0 0

unfoldable pub push : RecentDistances → ℕ → RecentDistances
push recent distance = record { values = distance ∷ take 3 recent.values }

-- A signed number, as in `isize`.
pub data ℤ : Type 0 where
  pos : ℕ → ℤ
  negsuc : ℕ → ℤ

abbrev pub checked_add_signed : ℕ → ℤ → Option ℕ
checked_add_signed a (ℤ.pos n) = if ltb (a + n) (2 ^ 64) then some (a + n) else none
checked_add_signed a (ℤ.negsuc n) = if ltb n a then some (a - suc n) else none

-- The index and the delta of the short codes, in the order of their symbols.
abbrev pub short_codes : List (ℕ × ℤ)
short_codes =
    (0, ℤ.pos 0)
    ∷ (1, ℤ.pos 0)
    ∷ (2, ℤ.pos 0)
    ∷ (3, ℤ.pos 0)
    ∷ (0, ℤ.negsuc 0)
    ∷ (0, ℤ.pos 1)
    ∷ (0, ℤ.negsuc 1)
    ∷ (0, ℤ.pos 2)
    ∷ (0, ℤ.negsuc 2)
    ∷ (0, ℤ.pos 3)
    ∷ (1, ℤ.negsuc 0)
    ∷ (1, ℤ.pos 1)
    ∷ (1, ℤ.negsuc 1)
    ∷ (1, ℤ.pos 2)
    ∷ (1, ℤ.negsuc 2)
    ∷ (1, ℤ.pos 3)
    ∷ []

-- `filter(|&distance| distance != 0)` and `ok_or`
abbrev pub nonzero_distance : Option ℕ → Result DistanceError ℕ
nonzero_distance none = err DistanceError.invalid_short_distance
nonzero_distance (some distance) =
    if distance == 0 then err DistanceError.invalid_short_distance else ok distance

abbrev pub resolve_code : List ℕ → Option (ℕ × ℤ) → Result DistanceError ℕ
resolve_code values none = err DistanceError.invalid_symbol
resolve_code values (some (index, delta)) =
    nonzero_distance (checked_add_signed (get_or values index 0) delta)

unfoldable pub resolve_short : RecentDistances → ℕ → Result DistanceError ℕ
resolve_short recent symbol = resolve_code recent.values (get_elem? short_codes symbol)

pub data State : Type 0 where
  resolved : Distance → State
  extra : (bits postfix_bits direct_codes hcode lcode : ℕ) → State
  done : State

pub record DistanceDecoder : Type 0 where
  pub state : State

unfoldable pub distance_alphabet_size : ℕ → ℕ → ℕ
distance_alphabet_size postfix_bits direct_codes =
    short_code_count + direct_codes + 48 * 2 ^ postfix_bits

abbrev pub at : State → DistanceDecoder
at state = record { state = state }

abbrev pub short_decoder : ℕ → Result DistanceError ℕ → Result DistanceError DistanceDecoder
short_decoder symbol (err e) = err e
short_decoder symbol (ok value) =
    ok (at (State.resolved (record { value = value; should_push = not (symbol == 0) })))

-- The fields that the symbol of a long code holds.
abbrev pub long_decoder : ℕ → ℕ → ℕ → DistanceDecoder
long_decoder code postfix_bits direct_codes = at (
    State.extra (u8 (1 + shr code (postfix_bits + 1))) postfix_bits direct_codes
      (shr code postfix_bits) (bit_and code (2 ^ postfix_bits - 1)))

unfoldable pub new : ℕ → ℕ → ℕ → RecentDistances → Result DistanceError DistanceDecoder
new symbol postfix_bits direct_codes recent =
    if ltb symbol (distance_alphabet_size postfix_bits direct_codes)
    then if ltb symbol short_code_count
      then short_decoder symbol (resolve_short recent symbol)
      else if ltb symbol (short_code_count + direct_codes)
      then ok (
          at
            (State.resolved (record { value = symbol - short_code_count + 1; should_push = true })))
      else ok (long_decoder (symbol - direct_codes - short_code_count) postfix_bits direct_codes)
    else err DistanceError.invalid_symbol

abbrev pub long_value : (bits postfix_bits direct_codes hcode lcode more : ℕ) → ℕ
long_value bits postfix_bits direct_codes hcode lcode more =
    let offset = (2 + bit_and hcode 1) * 2 ^ bits - 4 in
    (offset + more) * 2 ^ postfix_bits + lcode + direct_codes + 1

unfoldable pub decode : DistanceDecoder → Source → Outcome DistanceDecoder Distance
decode d src = elim d.state [
  | State.resolved distance ↦ ready distance (at State.done) src
  | State.extra bits postfix_bits direct_codes hcode lcode ↦ read_then bits d src λ more src'.
      ready
        (record {
          value = long_value bits postfix_bits direct_codes hcode lcode more;
          should_push = true;
        })
        (at State.done) src'
  | State.done ↦ panicked
]
