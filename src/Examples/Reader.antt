-- ===== src/Examples/Reader.antt =====
-- The bit reader and the small decoders on two bytes.
use brutli.Prelude.{
  ℕ, ◌<◌, ◌≡◌, refl, ◌⊎◌, List, [], ◌∷◌, ◌++◌, ◌==◌, arith, none, some, length, ◌%◌, ◌^◌,
}
use brutli.Prelude.Bits.{IsBytes, to_bits, byte_bits}
use brutli.Decode.BitReader.{
  Source, source_of, fill, push_byte, read_bits, align_to_byte_with_zero_fill,
}
use brutli.Decode.BitReader.Content.{
  IsValid, bits, Reads, Starves, read_bits_cases, Reads-field, align_lem,
}

abbrev two_bytes : List ℕ
two_bytes = 0xb1 ∷ 0x05 ∷ []

abbrev staged : Source
staged = record { reader = record { buffer = 0x16; buffered = 5 }; rest = 0x05 ∷ [] }

two_bytes-IsBytes : IsBytes two_bytes
two_bytes-IsBytes = (omega arith, (omega arith, tt))

staged-IsValid : IsValid staged
staged-IsValid = record { staged = omega arith; room = omega arith; bytes = (omega arith, tt) }

read_three :
    read_bits 3 (source_of two_bytes)
    ≡ (some 1, record { reader = record { buffer = 0x16; buffered = 5 }; rest = 0x05 ∷ [] })
unfolding read_bits fill push_byte
read_three = refl

read_starved :
    read_bits 20 (source_of two_bytes)
    ≡ (none, record { reader = record { buffer = 0x5b1; buffered = 16 }; rest = [] })
unfolding read_bits fill push_byte
read_starved = refl

read_bits_cases_example :
    ((v : ℕ) × (src' : Source) × Reads 11 v staged src')
    ⊎ ((src' : Source) × Starves 11 staged src')
read_bits_cases_example = read_bits_cases 11 staged (omega arith) staged-IsValid

Reads-field_example : (src' : Source) × Reads 7 54 staged src' × (bits src' ≡ to_bits 6 1)
unfolding bits to_bits byte_bits
Reads-field_example =
    Reads-field 7 54 staged (to_bits 6 1) (omega arith) (omega arith) staged-IsValid refl

align_lem_example :
    (fill_bits : ℕ) × (src' : Source) × (align_to_byte_with_zero_fill staged
      ≡ (fill_bits == 0, src'))
    × (fill_bits < 2 ^ (length (bits staged) % 8))
    × IsValid src'
    × (bits staged ≡ to_bits (length (bits staged) % 8) fill_bits ++ bits src')
align_lem_example = align_lem staged staged-IsValid
