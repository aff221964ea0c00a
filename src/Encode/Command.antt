-- ===== src/Encode/Command.antt =====
-- src/encode/command.rs: the symbol and the extra bits of a command.
use brutli.Prelude.{
  ℕ, ◌+◌, ◌-◌, ◌*◌, ◌%◌, ◌^◌, bit_and, bit_or, Bool, false, ◌&&◌, Option, none, some, List, [], ◌∷◌,
  if◌then◌else◌, leb, ltb, shr, u16,
}
use brutli.Encode.BitWriter.{BitWriter, write_bits}

abbrev pub insert_base : List ℕ
insert_base =
    0 ∷ 1 ∷ 2 ∷ 3 ∷ 4 ∷ 5 ∷ 6 ∷ 8 ∷ 10 ∷ 14 ∷ 18 ∷ 26 ∷ 34 ∷ 50 ∷ 66 ∷ 98 ∷ 130 ∷ 194 ∷ 322 ∷ 578
    ∷ 1090 ∷ 2114 ∷ 6210 ∷ 22594 ∷ []

abbrev pub insert_extra_bits : List ℕ
insert_extra_bits =
    0 ∷ 0 ∷ 0 ∷ 0 ∷ 0 ∷ 0 ∷ 1 ∷ 1 ∷ 2 ∷ 2 ∷ 3 ∷ 3 ∷ 4 ∷ 4 ∷ 5 ∷ 5 ∷ 6 ∷ 7 ∷ 8 ∷ 9 ∷ 10 ∷ 12 ∷ 14
    ∷ 24 ∷ []

abbrev pub copy_base : List ℕ
copy_base =
    2 ∷ 3 ∷ 4 ∷ 5 ∷ 6 ∷ 7 ∷ 8 ∷ 9 ∷ 10 ∷ 12 ∷ 14 ∷ 18 ∷ 22 ∷ 30 ∷ 38 ∷ 54 ∷ 70 ∷ 102 ∷ 134 ∷ 198
    ∷ 326 ∷ 582 ∷ 1094 ∷ 2118 ∷ []

abbrev pub copy_extra_bits : List ℕ
copy_extra_bits =
    0 ∷ 0 ∷ 0 ∷ 0 ∷ 0 ∷ 0 ∷ 0 ∷ 0 ∷ 1 ∷ 1 ∷ 2 ∷ 2 ∷ 3 ∷ 3 ∷ 4 ∷ 4 ∷ 5 ∷ 5 ∷ 6 ∷ 7 ∷ 8 ∷ 9 ∷ 10 ∷ 24
    ∷ []

pub record LengthCode : Type 0 where
  pub code : ℕ
  pub extra : ℕ
  pub extra_bits : ℕ

-- The rows of the two tables from row `code` on; `none` is the failed `expect`.
unfoldable pub length_code_from : ℕ → ℕ → List ℕ → List ℕ → Option LengthCode
length_code_from code length [] bits = none
length_code_from code length (base ∷ bases) [] = none
length_code_from code length (base ∷ bases) (bits ∷ more) =
    if leb base length && ltb (length - base) (2 ^ bits)
    then some (record { code = code; extra = (length - base) % 2 ^ 32; extra_bits = bits })
    else length_code_from (code + 1) length bases more

unfoldable pub length_code : ℕ → List ℕ → List ℕ → Option LengthCode
length_code length bases extra_bits = length_code_from 0 length bases extra_bits

unfoldable pub combine_length_codes : ℕ → ℕ → Bool → ℕ
combine_length_codes insert_code copy_code use_last_distance =
    let low_bits = bit_or (bit_and copy_code 7) (bit_and insert_code 7 * 2 ^ 3) in
    if use_last_distance && (ltb insert_code 8 && ltb copy_code 16)
    then u16 (if ltb copy_code 8 then low_bits else bit_or low_bits 64)
    else (let offset = 2 * (shr copy_code 3 + 3 * shr insert_code 3) in
        let offset' = offset * 2 ^ 5 + 0x40 + bit_and (shr 0x520d40 offset) 0xc0 in
        u16 (bit_or offset' low_bits))

-- `InsertCommand` and `ExplicitCommand` have the same fields.
pub record ExplicitCommand : Type 0 where
  pub symbol : ℕ
  pub insert : LengthCode
  pub copy : LengthCode

abbrev pub combined : Bool → Option LengthCode → Option LengthCode → Option ExplicitCommand
combined use_last_distance (some insert) (some copy) = some (record {
  symbol = combine_length_codes insert.code copy.code use_last_distance;
  insert = insert;
  copy = copy;
})
combined use_last_distance _ _ = none

unfoldable pub for_insert_and_copy_code : ℕ → ℕ → Bool → Option ExplicitCommand
for_insert_and_copy_code insert_length copy_length_code use_last_distance =
    combined use_last_distance (length_code insert_length insert_base insert_extra_bits)
      (length_code copy_length_code copy_base copy_extra_bits)

unfoldable pub for_lengths : ℕ → ℕ → Option ExplicitCommand
for_lengths insert_length copy_length = for_insert_and_copy_code insert_length copy_length false

-- `InsertCommand::for_length`
unfoldable pub for_length : ℕ → Option ExplicitCommand
for_length length = for_insert_and_copy_code length 4 false

unfoldable pub requires_distance : ExplicitCommand → Bool
requires_distance c = leb 128 c.symbol

unfoldable pub extra_bit_count : ExplicitCommand → ℕ
extra_bit_count c = c.insert.extra_bits + c.copy.extra_bits

unfoldable pub write_length_extra : LengthCode → BitWriter → BitWriter
write_length_extra code writer = write_bits writer code.extra code.extra_bits

unfoldable pub write_extra : ExplicitCommand → BitWriter → BitWriter
write_extra c writer = write_length_extra c.copy (write_length_extra c.insert writer)
