-- ===== src/Codec/VarLen.antt =====
-- `write_var_len_u8` against `VarLenUint8Decoder`.
use native.Mathlib.Decide.{dec_lt}
use brutli.Prelude.{
  subst, ◌%◌, ℕ, ◌+◌, ◌-◌, ◌*◌, ◌^◌, ◌≤◌, ◌<◌, ◌≡◌, sym, ap, inl, inr, false, List, [], ◌++◌, arith,
  ◌==◌, ==→eq, ==→ne, Bool-cases, if◌then◌else◌, u8, u16,
}
use brutli.Prelude.Bits.{to_bits}
use brutli.Prelude.Log.{bit_length, bit_length-le, top_bit_bounds}
use brutli.Prelude.Pow.{two-pow-le}
use brutli.Encode.BitWriter.{BitWriter}
use brutli.Encode.BitWriter.Content.{IsValid, Writes}
use brutli.Encode.BitWriter.Sequence.{Appends, field-Appends, last_field-Appends}
use brutli.Encode.PrefixCode.{write_var_len_u8}
use brutli.Decode.BitReader.{Source}
use brutli.Decode.BitReader.Content as Reader
use brutli.Decode.Outcome.{ready}
use brutli.Decode.Parse.{Parsed, Parses, ready-Parses, read_then-Parses}
use brutli.Decode.VarLenUint8.{State, new_decoder, decode, first_bit_arm, width_arm, value_arm}

-- The bits of a value: a flag, and for a value that is not 0 its top bit's index and the bits below it.
unfoldable pub var_len_bits : ℕ → List ℕ
var_len_bits v =
    let width = bit_length 8 v - 1 in
    if v == 0
    then to_bits 1 0 ++ []
    else if v == 1
    then to_bits 1 1 ++ (to_bits 3 0 ++ [])
    else to_bits 1 1 ++ (to_bits 3 width ++ (to_bits width (v - 2 ^ width) ++ []))

pub write_var_len_u8-Appends : (v : ℕ) → v < 256 → Appends (write_var_len_u8 v) (var_len_bits v)
unfolding write_var_len_u8 var_len_bits
write_var_len_u8-Appends v h = elim (Bool-cases (v == 0)) [
  | inl zero ↦ rw zero (last_field-Appends 0 1 (omega arith))
  | inr nonzero ↦ rw nonzero (elim (Bool-cases (v == 1)) [
    | inl one ↦ rw one (field-Appends 1 1 _ _ (omega arith) (last_field-Appends 0 3 (omega arith)))
    | inr more ↦ rw more (
        field-Appends 1 1 _ _ (omega arith) (
          field-Appends width 3 _ _ (omega arith)
            (last_field-Appends (v - 2 ^ width) width (omega (arith, bit_length-le 8 v)))))
  ])
]
  where
    width : ℕ
    width = bit_length 8 v - 1

module _ (v : ℕ) (h : v < 256) (more : 2 ≤ v) where
  width : ℕ
  width = bit_length 8 v - 1

  bounds : (2 ^ width ≤ v) × (v < 2 * 2 ^ width) × (width < 8)
  unfolding width
  bounds = top_bit_bounds 8 v (omega arith) h

  width_pos : 1 ≤ width
  width_pos = elim (dec_lt 0 width) [
    | yes p ↦ p
    | no p ↦ absurd (omega (arith, bounds, ap (λ (k : ℕ). 2 ^ k) (zero_width p)))
  ]
    where
      zero_width : ¬ (0 < width) → width ≡ 0
      zero_width p = omega arith

  width_pow : 2 ^ width ≤ 128
  width_pow = two-pow-le {a = width} {b = 7} (omega (arith, bounds))

  value_arm-Parses :
      Parses
        (value_arm (record { state = State.value; width = width }))
        v
        new_decoder
        (to_bits width (v - 2 ^ width) ++ [])
  unfolding value_arm
  value_arm-Parses =
      read_then-Parses width (v - 2 ^ width) _ _ [] (omega (arith, bounds)) (omega (arith, bounds))
        (subst (λ t. Parses (ready t new_decoder) v new_decoder []) (sym sum)
          (ready-Parses v new_decoder))
    where
      sum : u8 (u16 (2 ^ width) + u8 (v - 2 ^ width)) ≡ v
      sum = omega (arith, bounds, width_pow)

  width_arm-Parses :
      (w : ℕ)
      → Parses
          (width_arm (record { state = State.width; width = w }))
          v
          new_decoder
          (to_bits 3 width ++ (to_bits width (v - 2 ^ width) ++ []))
  unfolding width_arm
  width_arm-Parses w =
      read_then-Parses 3 width _ _ _ (omega arith) (omega (arith, bounds))
        (rw (small, nonzero) value_arm-Parses)
    where
      small : width % 256 ≡ width
      small = omega (arith, bounds)

      nonzero : (width == 0) ≡ false
      nonzero = ground (arith, width_pos)

-- The decoder takes exactly the string of each byte and returns to its first state.
pub decode-Parses : (v : ℕ) → v < 256 → Parses (decode new_decoder) v new_decoder (var_len_bits v)
unfolding decode first_bit_arm var_len_bits
decode-Parses v h = elim (Bool-cases (v == 0)) [
  | inl zero ↦
      rw (zero, ==→eq v 0 zero)
        (read_then-Parses 1 0 _ _ [] (omega arith) (omega arith) (ready-Parses 0 new_decoder))
  | inr nonzero ↦ rw nonzero (elim (Bool-cases (v == 1)) [
    | inl one ↦
        rw (one, ==→eq v 1 one)
          (read_then-Parses 1 1 _ _ _ (omega arith) (omega arith) (
            unfold width_arm in
            read_then-Parses 3 0 _ _ [] (omega arith) (omega arith) (ready-Parses 1 new_decoder)))
    | inr more ↦ rw more (
        read_then-Parses 1 1 _ _ _ (omega arith) (omega arith) (
          unfold width in
          width_arm-Parses v h (omega (arith, ==→ne v 0 nonzero, ==→ne v 1 more)) 0))
  ])
]

-- For a byte, `write_var_len_u8` appends the string of the byte to any valid writer. From any valid source
-- that begins with the string, a fresh `VarLenUint8Decoder` answers with the same byte, is fresh again,
-- and leaves what stands behind the string unread.
pub var_len_round_trip :
    (v : ℕ) (w : BitWriter) (src : Source) (tail : List ℕ)
    → v < 256
    → IsValid w
    → Reader.IsValid src
    → Reader.bits src ≡ var_len_bits v ++ tail
    → Writes w (write_var_len_u8 v w) (var_len_bits v)
      × Parsed (decode new_decoder src) v new_decoder tail
var_len_round_trip v w src tail h valid valid_src content =
    (write_var_len_u8-Appends v h w valid, decode-Parses v h tail src valid_src content)
