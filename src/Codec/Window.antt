-- ===== src/Codec/Window.antt =====
-- `write_window_bits` of src/encode/mod.rs against `StreamHeaderDecoder` of src/decode/stream_header.rs.
use brutli.Prelude.{
  ℕ, ◌+◌, ◌-◌, ◌%◌, ◌≤◌, ◌<◌, ◌≡◌, refl, some, sym, subst, inl, inr, true, false, List, [], ◌++◌,
  arith, ◌==◌, ==→eq, ◌&&◌, leb, Bool-cases, if◌then◌else◌, ok, Result,
}
use brutli.Prelude.Bits.{to_bits}
use brutli.Encode.BitWriter.{BitWriter, write_bits}
use brutli.Encode.BitWriter.Content.{IsValid, Writes}
use brutli.Encode.BitWriter.Sequence.{Appends, field-Appends, last_field-Appends}
use brutli.Encode.Framing.{write_window_bits}
use brutli.Decode.BitReader.{Source}
use brutli.Decode.BitReader.Content as Reader
use brutli.Decode.Parse.{Parsed, Parses, ready-Parses, read_then-Parses}
use brutli.Decode.StreamHeader.{
  State, StreamHeader, StreamHeaderError, at, new_decoder, decode, found, first_bit_arm,
  upper_range_arm, lower_range_arm,
}

-- The bits of WBITS: one bit for 16, four for 18 to 24, and seven for 17 and for 10 to 15.
unfoldable pub window_string : ℕ → List ℕ
window_string wbits =
    if wbits == 16
    then to_bits 1 0 ++ []
    else if leb 18 wbits && leb wbits 24
    then to_bits 1 1 ++ (to_bits 3 (wbits - 17) ++ [])
    else if wbits == 17
    then to_bits 1 1 ++ (to_bits 3 0 ++ (to_bits 3 0 ++ []))
    else to_bits 1 1 ++ (to_bits 3 0 ++ (to_bits 3 (wbits - 8) ++ []))

module _ (wbits : ℕ) (low : 10 ≤ wbits) (high : wbits ≤ 24) where
  last_range :
      (wbits == 16) ≡ false
      → (leb 18 wbits && leb wbits 24) ≡ false
      → (wbits == 17) ≡ false
      → (leb 10 wbits && leb wbits 15) ≡ true
  last_range a b c = ground arith

  write_window_bits-Writes :
      (w : BitWriter)
      → IsValid w
      → (w' : BitWriter) × (write_window_bits wbits w ≡ some w') × Writes w w' (window_string wbits)
  unfolding write_window_bits window_string
  write_window_bits-Writes w v = elim (Bool-cases (wbits == 16)) [
    | inl a ↦ rw a (_, refl, last_field-Appends 0 1 (omega arith) w v)
    | inr a ↦ rw a (elim (Bool-cases (leb 18 wbits && leb wbits 24)) [
      | inl b ↦ rw b (_, refl, two_fields (wbits - 17) w v)
      | inr b ↦ rw b (elim (Bool-cases (wbits == 17)) [
        | inl c ↦ rw c (_, refl, three_fields 0 w v)
        | inr c ↦ rw (c, last_range a b c) (_, refl, three_fields (wbits - 8) w v)
      ])
    ])
  ]
    where
      two_fields :
          (x : ℕ)
          → Appends (λ w. write_bits (write_bits w 1 1) x 3) (to_bits 1 1 ++ (to_bits 3 x ++ []))
      two_fields x = field-Appends 1 1 _ _ (omega arith) (last_field-Appends x 3 (omega arith))

      three_fields :
          (x : ℕ)
          → Appends
              (λ w. write_bits (write_bits (write_bits w 1 1) 0 3) x 3)
              (to_bits 1 1 ++ (to_bits 3 0 ++ (to_bits 3 x ++ [])))
      three_fields x =
          field-Appends 1 1 _ _ (omega arith)
            (field-Appends 0 3 _ _ (omega arith) (last_field-Appends x 3 (omega arith)))

  abbrev answer : Result StreamHeaderError StreamHeader
  answer = ok (record { window_bits = wbits })

  found-Parses : (n : ℕ) → n ≡ wbits → Parses (found n) answer (at State.done) []
  found-Parses n e =
      subst (λ k. Parses (found n) (ok (record { window_bits = k })) (at State.done) []) e
        (ready-Parses _ _)

  upper_range-Parses :
      (x : ℕ)
      → 1 ≤ x
      → 17 + x ≡ wbits
      → Parses (upper_range_arm (at State.upper_range)) answer (at State.done) (to_bits 3 x ++ [])
  unfolding upper_range_arm
  upper_range-Parses x p e =
      read_then-Parses 3 x _ _ [] (omega arith) (omega arith)
        (rw nonzero (found-Parses (17 + x % 256) (omega arith)))
    where
      nonzero : (x == 0) ≡ false
      nonzero = ground arith

  lower_range_17-Parses :
      wbits ≡ 17
      → Parses (lower_range_arm (at State.lower_range)) answer (at State.done) (to_bits 3 0 ++ [])
  unfolding lower_range_arm
  lower_range_17-Parses e =
      read_then-Parses 3 0 _ _ [] (omega arith) (omega arith) (found-Parses 17 (sym e))

  lower_range-Parses :
      (x : ℕ)
      → 2 ≤ x
      → x < 8
      → 8 + x ≡ wbits
      → Parses (lower_range_arm (at State.lower_range)) answer (at State.done) (to_bits 3 x ++ [])
  unfolding lower_range_arm
  lower_range-Parses x p q e =
      read_then-Parses 3 x _ _ [] (omega arith) q
        (rw (nonzero, not_one, in_range) (found-Parses (8 + x % 256) (omega arith)))
    where
      nonzero : (x == 0) ≡ false
      nonzero = ground arith

      not_one : (x == 1) ≡ false
      not_one = ground arith

      in_range : (leb 2 x && leb x 7) ≡ true
      in_range = ground arith

  to_lower_range-Parses :
      (string : List ℕ)
      → Parses (lower_range_arm (at State.lower_range)) answer (at State.done) string
      → Parses
          (first_bit_arm new_decoder)
          answer
          (at State.done)
          (to_bits 1 1 ++ (to_bits 3 0 ++ string))
  unfolding first_bit_arm upper_range_arm
  to_lower_range-Parses string h =
      read_then-Parses 1 1 _ _ _ (omega arith) (omega arith)
        (read_then-Parses 3 0 _ _ string (omega arith) (omega arith) h)

  decode-Parses : Parses (decode new_decoder) answer (at State.done) (window_string wbits)
  unfolding decode window_string
  decode-Parses = elim (Bool-cases (wbits == 16)) [
    | inl a ↦ rw a (
        unfold first_bit_arm in
        read_then-Parses 1 0 _ _ [] (omega arith) (omega arith)
          (found-Parses 16 (sym (==→eq wbits 16 a))))
    | inr a ↦ rw a (elim (Bool-cases (leb 18 wbits && leb wbits 24)) [
      | inl b ↦ rw b (
          unfold first_bit_arm in
          read_then-Parses 1 1 _ _ _ (omega arith) (omega arith)
            (upper_range-Parses (wbits - 17) (ground arith) (ground arith)))
      | inr b ↦ rw b (elim (Bool-cases (wbits == 17)) [
        | inl c ↦ rw c (to_lower_range-Parses _ (lower_range_17-Parses (==→eq wbits 17 c)))
        | inr c ↦ rw c (
            to_lower_range-Parses _
              (lower_range-Parses (wbits - 8) (omega arith) (ground arith) (omega arith)))
      ])
    ])
  ]

-- For each window size of 10 to 24 bits, `write_window_bits` does not panic, and appends its string to any
-- valid writer. From any valid source that begins with the string, a fresh `StreamHeaderDecoder` answers with the same
-- size, is done, and leaves what stands behind the string unread.
pub window_round_trip :
    (wbits : ℕ) (w : BitWriter) (src : Source) (tail : List ℕ)
    → 10 ≤ wbits
    → wbits ≤ 24
    → IsValid w
    → Reader.IsValid src
    → Reader.bits src ≡ window_string wbits ++ tail
    → ((w' : BitWriter) × (write_window_bits wbits w ≡ some w') × Writes w w' (window_string wbits))
      × Parsed (decode new_decoder src) (ok (record { window_bits = wbits })) (at State.done) tail
window_round_trip wbits w src tail low high valid valid_src content = (
  write_window_bits-Writes wbits low high w valid,
  decode-Parses wbits low high tail src valid_src content,
)
