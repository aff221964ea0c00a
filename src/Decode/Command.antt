-- ===== src/Decode/Command.antt =====
-- src/decode/command.rs: insert-and-copy commands.
use brutli.Prelude.{
  ℕ, ◌+◌, bit_and, Bool, true, false, Option, none, some, List, [], ◌∷◌, if◌then◌else◌, ◌==◌, ltb,
  get_or, shr,
}
use brutli.Decode.BitReader.{Source}
use brutli.Decode.Outcome.{Outcome, ready, panicked, read_then}

abbrev pub command_symbol_count : ℕ
command_symbol_count = 704

abbrev pub insert_base : List ℕ
insert_base =
    0 ∷ 1 ∷ 2 ∷ 3 ∷ 4 ∷ 5 ∷ 6 ∷ 8 ∷ 10 ∷ 14 ∷ 18 ∷ 26 ∷ 34 ∷ 50 ∷ 66 ∷ 98 ∷ 130 ∷ 194 ∷ 322 ∷ 578
    ∷ 1090 ∷ 2114 ∷ 6210 ∷ 22594 ∷ []

abbrev pub insert_extra_bits : List ℕ
insert_extra_bits =
    0 ∷ 0 ∷ 0 ∷ 0 ∷ 0 ∷ 0 ∷ 1 ∷ 1 ∷ 2 ∷ 2 ∷ 3 ∷ 3 ∷ 4 ∷ 4 ∷ 5 ∷ 5 ∷ 6 ∷ 7 ∷ 8 ∷ 9 ∷ 10 ∷ 12 ∷ 14
    ∷ 24 ∷ []

abbrev pub copy_base : List ℕ
copy_base =
    2 ∷ 3 ∷ 4 ∷ 5 ∷ 6 ∷ 7 ∷ 8 ∷ 9 ∷ 10 ∷ 12 ∷ 14 ∷ 18 ∷ 22 ∷ 30 ∷ 38 ∷ 54 ∷ 70 ∷ 102 ∷ 134 ∷ 198
    ∷ 326 ∷ 582 ∷ 1094 ∷ 2118 ∷ []

abbrev pub copy_extra_bits : List ℕ
copy_extra_bits =
    0 ∷ 0 ∷ 0 ∷ 0 ∷ 0 ∷ 0 ∷ 0 ∷ 0 ∷ 1 ∷ 1 ∷ 2 ∷ 2 ∷ 3 ∷ 3 ∷ 4 ∷ 4 ∷ 5 ∷ 5 ∷ 6 ∷ 7 ∷ 8 ∷ 9 ∷ 10 ∷ 24
    ∷ []

pub record Command : Type 0 where
  pub insert_length : ℕ
  pub copy_length : ℕ
  pub distance_context : ℕ
  pub implicit_distance_zero : Bool

pub record CommandSpec : Type 0 where
  pub insert_base : ℕ
  pub insert_extra_bits : ℕ
  pub copy_base : ℕ
  pub copy_extra_bits : ℕ
  pub implicit_distance_zero : Bool

pub data State : Type 0 where
  insert copy done : State

pub record CommandDecoder : Type 0 where
  pub spec : CommandSpec
  pub state : State
  pub insert_length : ℕ

-- The insert group, the copy group and the implicit distance of the 64 symbols of a range.
unfoldable pub groups : ℕ → Option (ℕ × ℕ × Bool)
groups range =
    if range == 0
    then some (0, 0, true)
    else if range == 1
    then some (0, 8, true)
    else if range == 2
    then some (0, 0, false)
    else if range == 3
    then some (0, 8, false)
    else if range == 4
    then some (8, 0, false)
    else if range == 5
    then some (8, 8, false)
    else if range == 6
    then some (0, 16, false)
    else if range == 7
    then some (16, 0, false)
    else if range == 8
    then some (8, 16, false)
    else if range == 9
    then some (16, 8, false)
    else if range == 10
    then some (16, 16, false)
    else none

abbrev pub spec_of : ℕ → Option (ℕ × ℕ × Bool) → Option CommandSpec
spec_of symbol none = none
spec_of symbol (some (insert_group, copy_group, implicit)) =
    let insert_code = insert_group + bit_and (shr symbol 3) 7 in
    let copy_code = copy_group + bit_and symbol 7 in
    some (record {
      insert_base = get_or insert_base insert_code 0;
      insert_extra_bits = get_or insert_extra_bits insert_code 0;
      copy_base = get_or copy_base copy_code 0;
      copy_extra_bits = get_or copy_extra_bits copy_code 0;
      implicit_distance_zero = implicit;
    })

-- `none` is the failed `assert!` on the symbol, or `unreachable!`.
unfoldable pub from_symbol : ℕ → Option CommandSpec
unfolding groups
from_symbol symbol =
    if ltb symbol command_symbol_count then spec_of symbol (groups (shr symbol 6)) else none

abbrev pub new_of_spec : CommandSpec → CommandDecoder
new_of_spec spec = record { spec = spec; state = State.insert; insert_length = 0 }

abbrev pub new_of : Option CommandSpec → Option CommandDecoder
new_of none = none
new_of (some spec) = some (new_of_spec spec)

unfoldable pub new : ℕ → Option CommandDecoder
new symbol = new_of (from_symbol symbol)

unfoldable pub distance_context : ℕ → ℕ
distance_context copy_length =
    if copy_length == 2
    then 0
    else if copy_length == 3
    then 1
    else if copy_length == 4
    then 2
    else 3

-- `let extra = if bits == 0 { 0 } else { reader.read_bits(bits)? }`
abbrev pub extra_then :
    ℕ
    → CommandDecoder
    → Source
    → (ℕ → Source → Outcome CommandDecoder Command)
    → Outcome CommandDecoder Command
extra_then bits d src k = if bits == 0 then k 0 src else read_then bits d src k

abbrev pub copied : CommandDecoder → ℕ → Source → Outcome CommandDecoder Command
copied d extra src =
    let copy_length = d.spec.copy_base + extra in
    ready
      (record {
        insert_length = d.insert_length;
        copy_length = copy_length;
        distance_context = distance_context copy_length;
        implicit_distance_zero = d.spec.implicit_distance_zero;
      })
      (record d { state = State.done }) src

unfoldable pub copy_arm : CommandDecoder → Source → Outcome CommandDecoder Command
copy_arm d src = extra_then d.spec.copy_extra_bits d src (copied d)

abbrev pub inserted : CommandDecoder → ℕ → Source → Outcome CommandDecoder Command
inserted d extra src =
    copy_arm (record d { insert_length = d.spec.insert_base + extra; state = State.copy }) src

unfoldable pub insert_arm : CommandDecoder → Source → Outcome CommandDecoder Command
insert_arm d src = extra_then d.spec.insert_extra_bits d src (inserted d)

unfoldable pub decode : CommandDecoder → Source → Outcome CommandDecoder Command
decode d src = elim d.state [
  | State.insert ↦ insert_arm d src
  | State.copy ↦ copy_arm d src
  | State.done ↦ panicked
]
