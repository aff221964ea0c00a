-- ===== src/Codec/Command.antt =====
-- The encoder's commands against `CommandDecoder`.
pub mod Lengths
pub mod Symbols
use brutli.Prelude.{
  ℕ, zero, suc, ◌+◌, ◌^◌, ◌≤◌, ◌<◌, ◌≡◌, refl, sym, ap, ap₂, ◌∙◌, subst, inl, inr, Bool, true,
  false, not, ◌&&◌, Option, none, some, some-injective, List, [], ◌∷◌, ◌++◌, arith, leb, ◌==◌,
  ==→eq, ltb, Bool-cases, get_or,
}
use brutli.Prelude.Bits.{to_bits}
use brutli.Prelude.Table.{holds_below, below_holds}
use brutli.Encode.BitWriter.{BitWriter}
use brutli.Encode.BitWriter.Content.{IsValid, Writes}
use brutli.Encode.BitWriter.Sequence.{Appends, field-Appends, last_field-Appends}
use brutli.Encode.Command as Encoder
use brutli.Encode.Command.{
  LengthCode, ExplicitCommand, combine_length_codes, for_insert_and_copy_code, length_code,
  combined, write_length_extra, write_extra, requires_distance,
}
use brutli.Decode.BitReader.{Source}
use brutli.Decode.BitReader.Content as Reader
use brutli.Decode.Outcome.{Outcome, ready, read_then}
use brutli.Decode.Parse.{Parsed, Parses, ready-Parses, read_then-Parses}
use brutli.Decode.Command.{
  State, Command, CommandDecoder, CommandSpec, new, new_of, new_of_spec, from_symbol,
  distance_context, extra_then, decode, insert_arm, copy_arm, copied, inserted, insert_base,
  insert_extra_bits, copy_base, copy_extra_bits,
}
use Lengths.{Codes, length_code-Codes}
use Symbols.{implicit, spec, from_symbol-combine}

-- The extra bits of the insert length, and then those of the copy length.
abbrev pub extra_string : ExplicitCommand → List ℕ
extra_string c =
    to_bits c.insert.extra_bits c.insert.extra ++ (to_bits c.copy.extra_bits c.copy.extra ++ [])

-- The lengths that the tables reach.
abbrev pub insert_limit : ℕ
insert_limit = 22594 + 2 ^ 24

abbrev pub copy_limit : ℕ
copy_limit = 2118 + 2 ^ 24

-- A command whose two codes are those of the two lengths.
record IsFor (insert copy : ℕ) (use_last : Bool) (c : ExplicitCommand) : Type 0 where
  insert_codes : Codes insert insert_base insert_extra_bits c.insert.code c.insert
  copy_codes : Codes copy copy_base copy_extra_bits c.copy.code c.copy
  symbol_lem : c.symbol ≡ combine_length_codes c.insert.code c.copy.code use_last

built :
    (insert copy : ℕ) (use_last : Bool)
    → insert < insert_limit
    → 2 ≤ copy
    → copy < copy_limit
    → (c : ExplicitCommand) × (for_insert_and_copy_code insert copy use_last ≡ some c)
      × IsFor insert copy use_last c
unfolding for_insert_and_copy_code
built insert copy use_last hi lo hc =
    let (a, ra, ca) =
      length_code-Codes insert_limit insert 0 _ insert_extra_bits (omega arith) (omega arith) hi
        (omega arith) in
    let (b, rb, cb) =
      length_code-Codes copy_limit copy 2 _ copy_extra_bits (omega arith) lo hc (omega arith) in
    (
      record { symbol = combine_length_codes a.code b.code use_last; insert = a; copy = b },
      ap₂ (combined use_last) ra rb,
      record { insert_codes = ca; copy_codes = cb; symbol_lem = refl },
    )

few_bits :
    (i : ℕ) → i < 24 → (get_or insert_extra_bits i 0 ≤ 24) × (get_or copy_extra_bits i 0 ≤ 24)
unfolding holds_below
few_bits i h =
    let check : ℕ → Bool =
      λ k. leb (get_or insert_extra_bits k 0) 24 && leb (get_or copy_extra_bits k 0) 24 in
    let ok : check i ≡ true = below_holds 24 check i refl h in (ground arith, ground arith)

extra_then-Parses :
    (bits extra : ℕ) (from : CommandDecoder) (k : ℕ → Source → Outcome CommandDecoder Command)
    {t : Command} {d : CommandDecoder} (string : List ℕ)
    → bits ≤ 24
    → extra < 2 ^ bits
    → Parses (k extra) t d string
    → Parses (λ src. extra_then bits from src k) t d (to_bits bits extra ++ string)
extra_then-Parses zero extra from k {t} {d} string hb he next =
    unfold to_bits in
    (let nothing : extra ≡ 0 = omega arith in subst (λ e. Parses (k e) t d string) nothing next)
extra_then-Parses (suc n) extra from k {t} {d} string hb he next =
    let some_left : (suc n == 0) ≡ false = ground arith in
    rw some_left (read_then-Parses (suc n) extra from k string (omega arith) he next)

module _ (insert copy : ℕ) (use_last : Bool) (c : ExplicitCommand)
    (ok : IsFor insert copy use_last c) where
  open ok use {insert_codes, copy_codes, symbol_lem}

  -- The specification behind the symbol.
  abbrev row : CommandSpec
  row = spec c.insert.code c.copy.code (implicit c.insert.code c.copy.code use_last)

  abbrev decoded : Command
  decoded = record {
    insert_length = insert;
    copy_length = copy;
    distance_context = distance_context copy;
    implicit_distance_zero = implicit c.insert.code c.copy.code use_last;
  }

  abbrev final : CommandDecoder
  final = record { spec = row; state = State.done; insert_length = insert }

  insert_bits : c.insert.extra_bits ≤ 24
  insert_bits =
      omega (arith, insert_codes.extra_bits, (few_bits c.insert.code insert_codes.in_table).0)

  copy_bits : c.copy.extra_bits ≤ 24
  copy_bits = omega (arith, copy_codes.extra_bits, (few_bits c.copy.code copy_codes.in_table).1)

  write_extra-Appends : Appends (write_extra c) (extra_string c)
  unfolding write_extra write_length_extra
  write_extra-Appends =
      field-Appends c.insert.extra c.insert.extra_bits _ _ (omega (arith, insert_bits))
        (last_field-Appends c.copy.extra c.copy.extra_bits (omega (arith, copy_bits)))

  -- A row's extra bits are those that the code writes.
  row_then-Parses :
      (lc : LengthCode) (count : ℕ) (from : CommandDecoder)
      (k : ℕ → Source → Outcome CommandDecoder Command) (string : List ℕ)
      → lc.extra_bits ≡ count
      → lc.extra_bits ≤ 24
      → lc.extra < 2 ^ lc.extra_bits
      → Parses (k lc.extra) decoded final string
      → Parses
          (λ src. extra_then count from src k)
          decoded
          final
          (to_bits lc.extra_bits lc.extra ++ string)
  row_then-Parses lc count from k string e small fits next =
      subst
        (λ n.
          Parses (λ src. extra_then n from src k) decoded final
            (to_bits lc.extra_bits lc.extra ++ string))
        e (extra_then-Parses lc.extra_bits lc.extra from k string small fits next)

  answer-Parses :
      (m n : ℕ)
      → m ≡ insert
      → n ≡ copy
      → Parses
          (ready
            (record {
              insert_length = m;
              copy_length = n;
              distance_context = distance_context n;
              implicit_distance_zero = row.implicit_distance_zero;
            })
            (record { spec = row; state = State.done; insert_length = m }))
          decoded
          final
          []
  answer-Parses m n e f tail src v content = record {
    after = src;
    result =
        ap₂
          (λ i j.
            ready
              (record {
                insert_length = i;
                copy_length = j;
                distance_context = distance_context j;
                implicit_distance_zero = row.implicit_distance_zero;
              })
              (record { spec = row; state = State.done; insert_length = i }) src)
          e f;
    valid = v;
    content = content;
  }

  abbrev at_copy : ℕ → CommandDecoder
  at_copy length = record { spec = row; state = State.copy; insert_length = length }

  copy_arm-Parses :
      (length : ℕ)
      → length ≡ insert
      → Parses
          (copy_arm (at_copy length))
          decoded
          final
          (to_bits c.copy.extra_bits c.copy.extra ++ [])
  unfolding copy_arm
  copy_arm-Parses length e =
      row_then-Parses c.copy row.copy_extra_bits (at_copy length) (copied (at_copy length)) []
        copy_codes.extra_bits copy_bits copy_codes.fits
        (answer-Parses length (row.copy_base + c.copy.extra) e copy_codes.sum)

  decode-Parses : Parses (decode (new_of_spec row)) decoded final (extra_string c)
  unfolding decode insert_arm
  decode-Parses =
      row_then-Parses c.insert row.insert_extra_bits (new_of_spec row) (inserted (new_of_spec row))
        (to_bits c.copy.extra_bits c.copy.extra ++ []) insert_codes.extra_bits insert_bits
        insert_codes.fits (copy_arm-Parses (row.insert_base + c.insert.extra) insert_codes.sum)

-- For every insert length below 22594 + 2^24 and every copy length of 2 to 2117 + 2^24,
-- `for_insert_and_copy_code` finds a command: neither `expect` in `length_code` fails.
pub command_total :
    (insert copy : ℕ) (use_last : Bool)
    → insert < insert_limit
    → 2 ≤ copy
    → copy < copy_limit
    → (c : ExplicitCommand) × (for_insert_and_copy_code insert copy use_last ≡ some c)
command_total insert copy use_last hi lo hc =
    let (c, found, is) = built insert copy use_last hi lo hc in (c, found)

-- For a command that `for_insert_and_copy_code` finds for an insert length below 22594 + 2^24 and a copy
-- length of 2 to 2117 + 2^24: `write_extra` appends the extra bits of the two codes to any valid writer; a
-- `CommandDecoder` for the symbol exists; on any valid source that begins with these bits it answers with
-- the two lengths, and leaves what stands behind the bits unread; and it takes the last distance
-- exactly when the encoder asks for no distance.
pub command_round_trip :
    (insert copy : ℕ) (use_last : Bool) (c : ExplicitCommand) (w : BitWriter) (src : Source)
    (tail : List ℕ)
    → insert < insert_limit
    → 2 ≤ copy
    → copy < copy_limit
    → for_insert_and_copy_code insert copy use_last ≡ some c
    → IsValid w
    → Reader.IsValid src
    → Reader.bits src ≡ extra_string c ++ tail
    → Writes w (write_extra c w) (extra_string c)
      × ((d d' : CommandDecoder) × (answer : Command) × (new c.symbol ≡ some d)
          × Parsed (decode d src) answer d' tail
          × (answer.insert_length ≡ insert)
          × (answer.copy_length ≡ copy)
          × (answer.distance_context ≡ distance_context copy)
          × (requires_distance c ≡ not answer.implicit_distance_zero))
unfolding new requires_distance
command_round_trip insert copy use_last c w src tail hi lo hc found valid valid_src content =
    let (c', found', is') = built insert copy use_last hi lo hc in
    let same : c' ≡ c = some-injective c' c (sym found' ∙ found) in
    let is : IsFor insert copy use_last c = subst (IsFor insert copy use_last) same is' in
    let codes =
      from_symbol-combine use_last c.insert.code c.copy.code is.insert_codes.in_table
        is.copy_codes.in_table in
    (
      write_extra-Appends insert copy use_last c is w valid,
      (
        new_of_spec (row insert copy use_last c is),
        final insert copy use_last c is,
        decoded insert copy use_last c is,
        ap new is.symbol_lem ∙ ap new_of codes.0,
        decode-Parses insert copy use_last c is tail src valid_src content,
        refl,
        refl,
        refl,
        ap (leb 128) is.symbol_lem ∙ codes.1,
      ),
    )
