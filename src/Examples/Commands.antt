-- ===== src/Examples/Commands.antt =====
-- A command of 7 literals and a copy of 12 bytes.
use brutli.Prelude.{ℕ, ◌≡◌, refl, List, [], ◌∷◌, arith, some, true, false, not, leb}
use brutli.Prelude.Bits.{to_bits, byte_bits}
use brutli.Encode.BitWriter.{new_writer}
use brutli.Encode.BitWriter.Content.{Writes, new_writer-IsValid}
use brutli.Encode.Command.{
  ExplicitCommand, for_insert_and_copy_code, combine_length_codes, length_code, length_code_from,
  write_extra, requires_distance,
}
use brutli.Decode.Command.{Command, CommandDecoder, new, from_symbol, distance_context, decode}
use brutli.Decode.BitReader.{source_of}
use brutli.Decode.BitReader.Content.{bits, source_of-IsValid}
use brutli.Decode.Parse.{Parsed}
use brutli.Codec.Command.{extra_string, command_total, command_round_trip}
use brutli.Codec.Command.Symbols.{implicit, spec, from_symbol-combine}

abbrev seven_and_twelve : ExplicitCommand
seven_and_twelve = record {
  symbol = 241;
  insert = record { code = 6; extra = 1; extra_bits = 1 };
  copy = record { code = 9; extra = 0; extra_bits = 1 };
}

found : for_insert_and_copy_code 7 12 false ≡ some seven_and_twelve
unfolding for_insert_and_copy_code length_code length_code_from combine_length_codes
found = refl

-- The two extra bits 1 and 0, and six more bits.
abbrev extra_bytes : List ℕ
extra_bytes = 0x05 ∷ []

from_symbol-combine_example :
    (from_symbol (combine_length_codes 6 9 true) ≡ some (spec 6 9 (implicit 6 9 true)))
    × (leb 128 (combine_length_codes 6 9 true) ≡ not (implicit 6 9 true))
from_symbol-combine_example = from_symbol-combine true 6 9 (omega arith) (omega arith)

command_total_example : (c : ExplicitCommand) × (for_insert_and_copy_code 7 12 false ≡ some c)
command_total_example = command_total 7 12 false (omega arith) (omega arith) (omega arith)

command_round_trip_example :
    Writes new_writer (write_extra seven_and_twelve new_writer) (extra_string seven_and_twelve)
    × ((d d' : CommandDecoder) × (answer : Command) × (new seven_and_twelve.symbol ≡ some d)
        × Parsed (decode d (source_of extra_bytes)) answer d' (to_bits 6 1)
        × (answer.insert_length ≡ 7)
        × (answer.copy_length ≡ 12)
        × (answer.distance_context ≡ distance_context 12)
        × (requires_distance seven_and_twelve ≡ not answer.implicit_distance_zero))
unfolding bits byte_bits to_bits
command_round_trip_example =
    command_round_trip 7 12 false seven_and_twelve new_writer (source_of extra_bytes) (to_bits 6 1)
      (omega arith) (omega arith) (omega arith) found new_writer-IsValid
      (source_of-IsValid extra_bytes (omega arith, tt)) refl
