-- ===== src/Examples/Distances.antt =====
-- Distances, contexts, block types and configurations.
use brutli.Prelude.{
  ℕ, ◌+◌, ◌^◌, ◌≤◌, ◌<◌, ◌≡◌, refl, ◌⊎◌, true, none, some, List, [], ◌∷◌, arith, ok,
}
use brutli.Prelude.Bits.{to_bits, byte_bits}
use brutli.Prelude.Log.{bit_length}
use brutli.Encode.BitWriter.{new_writer}
use brutli.Encode.BitWriter.Content.{Writes, new_writer-IsValid}
use brutli.Encode.Distance.{
  DistanceCode, for_code, for_intermediate_code, bucket_code, compute_code, write_extra,
}
use brutli.Decode.BitReader.{source_of}
use brutli.Decode.BitReader.Content.{bits, source_of-IsValid}
use brutli.Decode.Parse.{Parsed}
use brutli.Decode.Distance.{State, DistanceDecoder, default_recent, new, decode, at, resolve_short}
use brutli.Decode.Context.{LiteralContextMode, id, id-lt}
use brutli.Decode.BlockState as Block
use brutli.Decode.BlockPartition.{single}
use brutli.Decode.BlockState.{switch_type}
use brutli.Decode.BlockState.Types.{switch_type-lt}
use brutli.Codec.Distance.{distance_total, distance_round_trip}
use brutli.Codec.Distance.Short.{compute_code-resolve_short}

abbrev hundred : DistanceCode
hundred = record { symbol = 41; extra = 15; extra_bits = 4 }

found : for_code (100 + 15) 12 1 ≡ some hundred
unfolding for_code for_intermediate_code bucket_code bit_length
found = refl

-- The four extra bits, and four more bits.
abbrev extra_bytes : List ℕ
extra_bytes = 0x3f ∷ []

distance_total_example : (c : DistanceCode) × (for_code (100 + 15) 12 1 ≡ some c)
distance_total_example =
    distance_total 100 12 1 (omega arith) (omega arith) (omega arith) (omega arith)

distance_round_trip_example :
    Writes new_writer (write_extra hundred new_writer) (to_bits 4 15)
    × ((d : DistanceDecoder) × (new 41 1 12 default_recent ≡ ok d)
        × Parsed
            (decode d (source_of extra_bytes))
            (record { value = 100; should_push = true })
            (at State.done)
            (to_bits 4 3))
unfolding bits byte_bits to_bits
distance_round_trip_example =
    distance_round_trip 100 12 1 default_recent hundred new_writer (source_of extra_bytes)
      (to_bits 4 3) (omega arith) (omega arith) (omega arith) (omega arith) found new_writer-IsValid
      (source_of-IsValid extra_bytes (omega arith, tt)) refl

compute_code-resolve_short_example :
    ((code : ℕ) × (compute_code (record { values = 4 ∷ 11 ∷ 15 ∷ 16 ∷ [] }) 13 100 ≡ some code)
      × (((code < 16) × (resolve_short (record { values = 4 ∷ 11 ∷ 15 ∷ 16 ∷ [] }) code ≡ ok 13))
          ⊎ (code ≡ 13 + 15)))
    ⊎ ((compute_code (record { values = 4 ∷ 11 ∷ 15 ∷ 16 ∷ [] }) 13 100 ≡ none)
        × (2 ^ 64 ≤ 13 + 15))
compute_code-resolve_short_example =
    compute_code-resolve_short 13 4 11 15 16 100 (omega arith) (omega arith)

id-lt_example : id LiteralContextMode.utf8 101 65 < 64
id-lt_example = id-lt LiteralContextMode.utf8 101 65 (omega arith) (omega arith)

switch_type-lt_example :
    ((switch_type (Block.new single) 3 1).current_type < 3)
    × ((switch_type (Block.new single) 3 1).previous_types.0 < 3)
    × ((switch_type (Block.new single) 3 1).previous_types.1 < 3)
switch_type-lt_example =
    switch_type-lt (Block.new single) 3 1 (omega arith) (omega arith) (omega arith) (omega arith)
