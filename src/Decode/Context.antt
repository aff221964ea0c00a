-- ===== src/Decode/Context.antt =====
-- src/decode/context.rs: the literal contexts.
use brutli.Prelude.{
  ℕ, ◌*◌, ◌%◌, ◌<◌, ◌^◌, bit_and, bit_or, refl, Bool, ◌&&◌, ◌||◌, if◌then◌else◌, ◌==◌, leb, ltb,
  ltb→lt, shr, Option, none, some,
}
use brutli.Prelude.{arith}
use brutli.Prelude.Bitwise.{and-low_mask}
use brutli.Prelude.Table.{holds_below, below_holds}

pub data LiteralContextMode : Type 0 where
  lsb6 msb6 utf8 signed : LiteralContextMode

-- `none` is `unreachable!`: the mode is read from two bits.
unfoldable pub from_bits : ℕ → Option LiteralContextMode
from_bits bits =
    if bits == 0
    then some LiteralContextMode.lsb6
    else if bits == 1
    then some LiteralContextMode.msb6
    else if bits == 2
    then some LiteralContextMode.utf8
    else if bits == 3
    then some LiteralContextMode.signed
    else none

abbrev between : ℕ → ℕ → ℕ → Bool
between low high byte = leb low byte && leb byte high

unfoldable pub utf8_previous : ℕ → ℕ
utf8_previous byte =
    if (byte == 0x09) || ((byte == 0x0a) || (byte == 0x0d))
    then 4
    else if byte == 32
    then 8
    else if (byte == 39) || (byte == 34)
    then 16
    else if byte == 37
    then 20
    else if (byte == 40) || ((byte == 60) || ((byte == 91) || (byte == 123)))
    then 24
    else if (byte == 41) || ((byte == 62) || ((byte == 93) || (byte == 125)))
    then 28
    else if (byte == 44) || ((byte == 59) || (byte == 58))
    then 32
    else if byte == 46
    then 36
    else if byte == 61
    then 40
    else if between 48 57 byte
    then 44
    else if (byte == 65) || ((byte == 69) || ((byte == 73) || ((byte == 79) || (byte == 85))))
    then 48
    else if between 65 90 byte
    then 52
    else if (byte == 97) || ((byte == 101) || ((byte == 105) || ((byte == 111) || (byte == 117))))
    then 56
    else if between 97 122 byte
    then 60
    else if between 0x21 0x7e byte
    then 12
    else if between 0x80 0xbf byte
    then bit_and byte 1
    else if between 0xc0 0xff byte
    then bit_or 2 (bit_and byte 1)
    else 0

unfoldable pub utf8_second_previous : ℕ → ℕ
utf8_second_previous byte =
    if between 48 57 byte || between 65 90 byte
    then 2
    else if between 97 122 byte
    then 3
    else if between 0x21 0x7e byte
    then 1
    else if between 0xd0 0xff byte
    then 2
    else 0

unfoldable pub signed_bucket : ℕ → ℕ
signed_bucket byte =
    if byte == 0
    then 0
    else if between 1 15 byte
    then 1
    else if between 16 63 byte
    then 2
    else if between 64 127 byte
    then 3
    else if between 128 191 byte
    then 4
    else if between 192 239 byte
    then 5
    else if between 240 254 byte
    then 6
    else 7

-- The `u8` shift by three of a bucket below eight loses nothing.
unfoldable pub id : LiteralContextMode → ℕ → ℕ → ℕ
id LiteralContextMode.lsb6 previous second_previous = bit_and previous 0x3f
id LiteralContextMode.msb6 previous second_previous = shr previous 2
id LiteralContextMode.utf8 previous second_previous =
    bit_or (utf8_previous previous) (utf8_second_previous second_previous)
id LiteralContextMode.signed previous second_previous =
    bit_or (signed_bucket previous * 2 ^ 3 % 2 ^ 8) (signed_bucket second_previous)

previous-lt : (byte : ℕ) → byte < 256 → utf8_previous byte < 64
unfolding holds_below utf8_previous
previous-lt byte h =
    ltb→lt (utf8_previous byte) 64 (below_holds 256 (λ k. ltb (utf8_previous k) 64) byte refl h)

second_previous-lt : (byte : ℕ) → byte < 256 → utf8_second_previous byte < 4
unfolding holds_below utf8_second_previous
second_previous-lt byte h =
    ltb→lt (utf8_second_previous byte) 4
      (below_holds 256 (λ k. ltb (utf8_second_previous k) 4) byte refl h)

signed_bucket-lt : (byte : ℕ) → byte < 256 → signed_bucket byte < 8
unfolding holds_below signed_bucket
signed_bucket-lt byte h =
    ltb→lt (signed_bucket byte) 8 (below_holds 256 (λ k. ltb (signed_bucket k) 8) byte refl h)

bit_or-lt : (a b : ℕ) → a < 64 → b < 8 → bit_or a b < 64
unfolding holds_below
bit_or-lt a b ha hb = ltb→lt (bit_or a b) 64 (
    below_holds 8 (λ j. ltb (bit_or a j) 64) b
      (below_holds 64 (λ i. holds_below 8 (λ j. ltb (bit_or i j) 64)) a refl ha) hb)

-- In every mode, the context of two bytes is below 64, the number of contexts of a block type.
pub id-lt :
    (mode : LiteralContextMode) (previous second_previous : ℕ)
    → previous < 256
    → second_previous < 256
    → id mode previous second_previous < 64
unfolding id
id-lt LiteralContextMode.lsb6 previous second hp hs = omega (arith, and-low_mask 6 previous)
id-lt LiteralContextMode.msb6 previous second hp hs = omega arith
id-lt LiteralContextMode.utf8 previous second hp hs =
    bit_or-lt (utf8_previous previous) (utf8_second_previous second) (previous-lt previous hp)
      (omega (arith, second_previous-lt second hs))
id-lt LiteralContextMode.signed previous second hp hs =
    bit_or-lt (signed_bucket previous * 2 ^ 3 % 2 ^ 8) (signed_bucket second)
      (omega (arith, signed_bucket-lt previous hp)) (signed_bucket-lt second hs)
