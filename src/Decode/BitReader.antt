-- ===== src/Decode/BitReader.antt =====
-- src/decode/bit_reader.rs. Every decoder takes the reader with `input` and `cursor`, and touches these
-- only through it: here `rest` is `input[cursor..]`, so an advance of the cursor drops a byte.
pub mod Content
pub mod Resume
use brutli.Prelude.{
  ℕ, ◌+◌, ◌-◌, ◌*◌, ◌/◌, ◌%◌, ◌^◌, bit_and, bit_or, Bool, true, Option, none, some, List, [], ◌∷◌,
  ◌++◌, ltb, leb, ◌==◌, if◌then◌else◌,
}

pub record BitReader : Type 0 where
  pub buffer : ℕ
  pub buffered : ℕ

pub record Source : Type 0 where
  pub reader : BitReader
  pub rest : List ℕ

abbrev pub max_read_bits : ℕ
max_read_bits = 56

abbrev pub new_reader : BitReader
new_reader = record { buffer = 0; buffered = 0 }

-- A fresh reader over `input`, with the cursor at 0.
abbrev pub source_of : List ℕ → Source
source_of input = record { reader = new_reader; rest = input }

-- The same decoder called again with more input behind what it has not taken.
abbrev pub feed : Source → List ℕ → Source
feed src more = record { reader = src.reader; rest = src.rest ++ more }

-- `buffer |= u64::from(byte) << buffered; buffered += 8`
unfoldable pub push_byte : BitReader → ℕ → BitReader
push_byte r byte = record {
  buffer = bit_or r.buffer (byte * 2 ^ r.buffered % 2 ^ 64);
  buffered = r.buffered + 8;
}

-- The loop of `read_bits`: whether `count` bits are staged when it ends, and the new state.
unfoldable pub fill : ℕ → BitReader → List ℕ → Bool × Source
fill count r [] = (leb count r.buffered, record { reader = r; rest = [] })
fill count r (byte ∷ rest) =
    let more = fill count (push_byte r byte) rest in
    if ltb r.buffered count then more else (true, record { reader = r; rest = byte ∷ rest })

abbrev pub low_mask : ℕ → ℕ
low_mask count = if count == 0 then 0 else 2 ^ count - 1

abbrev pub shift_out : ℕ → BitReader → BitReader
shift_out count r = record { buffer = r.buffer / 2 ^ count; buffered = r.buffered - count }

-- What follows the loop: the value is cut off and the staged bits move down.
abbrev pub finish_read : ℕ → Bool × Source → Option ℕ × Source
finish_read count (enough, src) =
    if enough
    then (
      some (bit_and src.reader.buffer (low_mask count)),
      record src { reader = shift_out count src.reader },
    )
    else (none, src)

-- The `assert!` on the count stands in the callers' `read_then`.
unfoldable pub read_bits : ℕ → Source → Option ℕ × Source
read_bits count src = finish_read count (fill count src.reader src.rest)

unfoldable pub align_to_byte_with_zero_fill : Source → Bool × Source
align_to_byte_with_zero_fill src =
    let count = src.reader.buffered % 8 in
    if count == 0 then (true, src) else (
      bit_and src.reader.buffer (2 ^ count - 1) == 0,
      record src { reader = shift_out count src.reader },
    )
