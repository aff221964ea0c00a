-- ===== src/Codec/MetaBlock.antt =====
-- The metablock headers that the encoder writes against `MetaBlockHeaderDecoder`.
pub mod Length
use brutli.Prelude.{
  ℕ, zero, suc, ◌+◌, ◌-◌, ◌*◌, ◌/◌, ◌%◌, ◌^◌, ◌≤◌, ◌<◌, ◌≡◌, refl, sym, ap, ◌∙◌, subst, inl, inr,
  ◌⊎◌, Bool, true, false, List, [], ◌++◌, arith, ok, leb, ◌&&◌, Bool-cases, length, Result,
  append_assoc, append-nil,
}
use brutli.Prelude.Bits.{to_bits}
use brutli.Encode.BitWriter.{BitWriter}
use brutli.Encode.BitWriter.Content.{IsValid, Writes}
use brutli.Encode.BitWriter.Sequence.{Appends, field-Appends, last_field-Appends, nothing-Appends}
use brutli.Encode.Framing.{
  nibbles_for_length, write_compressed_metablock_header, write_uncompressed_header,
  write_final_empty_metablock,
}
use brutli.Decode.BitReader.{Source}
use brutli.Decode.BitReader.Content as Reader
use brutli.Decode.Outcome.{Outcome, ready, align_then}
use brutli.Decode.Parse.{
  Parsed, Parses, ParsesTo, ready-ParsesTo, read_then-ParsesTo, align_then-zero,
}
use brutli.Decode.MetaBlockHeader.{
  State, MetaBlockHeader, MetaBlockHeaderError, MetaBlockHeaderDecoder, MetaBlockKind, end,
  compressed, uncompressed, new_decoder, decode, finish, after_data_length, nibbles_arm,
  is_last_arm, is_last_empty_arm, is_uncompressed_arm, uncompressed_alignment_arm,
  end_alignment_arm, data_length_arm, data_length_loop,
}
use Length.{at, TopNibble, data_length_loop-ParsesTo}

-- MNIBBLES and MLEN - 1, and the bits behind them.
unfoldable pub size_string : ℕ → List ℕ → List ℕ
size_string len string =
    to_bits 2 (nibbles_for_length len - 4)
    ++ (to_bits (nibbles_for_length len * 4) (len - 1) ++ string)

unfoldable pub compressed_string : ℕ → Bool → List ℕ
compressed_string len true = to_bits 1 1 ++ (to_bits 1 0 ++ size_string len [])
compressed_string len false = to_bits 1 0 ++ size_string len (to_bits 1 0 ++ [])

unfoldable pub uncompressed_string : ℕ → List ℕ
uncompressed_string len = to_bits 1 0 ++ size_string len (to_bits 1 1 ++ [])

nibbles_cases :
    (len : ℕ)
    → 1 ≤ len
    → ((nibbles_for_length len ≡ 4) × (len ≤ 0x1_0000))
      ⊎ ((nibbles_for_length len ≡ 5) × (0x1_0000 < len) × (len ≤ 0x10_0000))
      ⊎ ((nibbles_for_length len ≡ 6) × (0x10_0000 < len))
unfolding nibbles_for_length
nibbles_cases len h = elim (Bool-cases (leb 1 len && leb len 0x1_0000)) [
  | inl four ↦ rw four (inl (refl, ground arith))
  | inr more ↦ rw more (elim (Bool-cases (leb 0x1_0001 len && leb len 0x10_0000)) [
    | inl five ↦ rw five (inr (inl (refl, ground arith, ground arith)))
    | inr six ↦ rw six (inr (inr (refl, ground arith)))
  ])
]

nibbles-le : (len : ℕ) → (4 ≤ nibbles_for_length len) × (nibbles_for_length len ≤ 6)
unfolding nibbles_for_length
nibbles-le len = ground arith

write_compressed-Appends :
    (len : ℕ) (last : Bool)
    → Appends (write_compressed_metablock_header len last) (compressed_string len last)
unfolding write_compressed_metablock_header compressed_string size_string
write_compressed-Appends len true = field-Appends 1 1 _ _ (omega arith) (
    field-Appends 0 1 _ _ (omega arith) (
      field-Appends _ 2 _ _ (omega arith)
        (last_field-Appends (len - 1) _ (omega (arith, nibbles-le len)))))
write_compressed-Appends len false = field-Appends 0 1 _ _ (omega arith) (
    field-Appends _ 2 _ _ (omega arith) (
      field-Appends (len - 1) _ _ _ (omega (arith, nibbles-le len))
        (last_field-Appends 0 1 (omega arith))))

write_uncompressed-Appends :
    (len : ℕ) → Appends (write_uncompressed_header len) (uncompressed_string len)
unfolding write_uncompressed_header uncompressed_string size_string
write_uncompressed-Appends len = field-Appends 0 1 _ _ (omega arith) (
    field-Appends _ 2 _ _ (omega arith) (
      field-Appends (len - 1) _ _ _ (omega (arith, nibbles-le len))
        (last_field-Appends 1 1 (omega arith))))

module _ (len : ℕ) (some_bytes : 1 ≤ len) (fits : len ≤ 2 ^ 24) (l : Bool) (tail : List ℕ) where
  sized-ParsesTo :
      {t : Result MetaBlockHeaderError MetaBlockHeader} {d : MetaBlockHeaderDecoder} (n : ℕ)
      (string : List ℕ)
      → n ≤ 6
      → len - 1 < 16 ^ n
      → TopNibble n n (len - 1)
      → ParsesTo tail (after_data_length (at State.data_length l n n (len - 1))) t d string
      → ParsesTo tail
          (data_length_loop n (at State.data_length l n 0 0))
          t
          d
          (to_bits (4 * n) (len - 1) ++ string)
  sized-ParsesTo {t} {d} n string hn small top next =
      data_length_loop-ParsesTo tail l n n 0 0 (len - 1) string (omega arith) hn (omega arith) small
        top
        (subst (λ u. ParsesTo tail (after_data_length (at State.data_length l n n u)) t d string)
          start next)
    where
      start : len - 1 ≡ 0 + (len - 1) * 2 ^ (4 * 0)
      start = omega arith

  -- The size field, whatever the state before it was, if what follows it is taken at each width.
  nibbles-ParsesTo :
      {t : Result MetaBlockHeaderError MetaBlockHeader} {d : MetaBlockHeaderDecoder} (w i v : ℕ)
      (string : List ℕ)
      → ((n : ℕ)
          → ParsesTo tail (after_data_length (at State.data_length l n n (len - 1))) t d string)
      → ParsesTo tail (nibbles_arm (at State.nibbles l w i v)) t d (size_string len string)
  unfolding nibbles_arm data_length_arm size_string
  nibbles-ParsesTo w i v string next = elim (nibbles_cases len some_bytes) [
    | inl (e, high) ↦ rw e (
        read_then-ParsesTo tail 2 0 _ _ _ (omega arith) (omega arith)
          (sized-ParsesTo 4 string (omega arith) (omega arith) (inl (omega arith)) (next 4)))
    | inr (inl (e, low, high)) ↦ rw e (
        read_then-ParsesTo tail 2 1 _ _ _ (omega arith) (omega arith)
          (sized-ParsesTo 5 string (omega arith) (omega arith) (inr (omega arith)) (next 5)))
    | inr (inr (e, low)) ↦ rw e (
        read_then-ParsesTo tail 2 2 _ _ _ (omega arith) (omega arith)
          (sized-ParsesTo 6 string (omega arith) (omega arith) (inr (omega arith)) (next 6)))
  ]

module _ (len : ℕ) (some_bytes : 1 ≤ len) (fits : len ≤ 2 ^ 24) where
  length_lem : len - 1 + 1 ≡ len
  length_lem = omega arith

  compressed-Parses :
      (last : Bool)
      → Parses
          (decode new_decoder)
          (ok (record { is_last = last; kind = compressed len }))
          new_decoder
          (compressed_string len last)
  unfolding decode is_last_arm is_last_empty_arm compressed_string after_data_length finish
      is_uncompressed_arm
  compressed-Parses true tail = read_then-ParsesTo tail 1 1 _ _ _ (omega arith) (omega arith) (
      read_then-ParsesTo tail 1 0 _ _ _ (omega arith) (omega arith) (
        nibbles-ParsesTo len some_bytes fits true tail 0 0 0 []
          (λ n. rw length_lem (ready-ParsesTo _ _ tail))))
  compressed-Parses false tail = read_then-ParsesTo tail 1 0 _ _ _ (omega arith) (omega arith) (
      nibbles-ParsesTo len some_bytes fits false tail 0 0 0 _ (λ n.
        read_then-ParsesTo tail 1 0 _ _ [] (omega arith) (omega arith)
          (rw length_lem (ready-ParsesTo _ _ tail))))

-- For each length of 1 to 2^24 and either value of ISLAST, `write_compressed_metablock_header` appends its
-- string to any valid writer. From any valid source that begins with the string, a fresh
-- `MetaBlockHeaderDecoder` answers with a compressed metablock of that length and flag, is fresh again, and
-- leaves what stands behind the string unread.
pub compressed_header_round_trip :
    (len : ℕ) (last : Bool) (w : BitWriter) (src : Source) (tail : List ℕ)
    → 1 ≤ len
    → len ≤ 2 ^ 24
    → IsValid w
    → Reader.IsValid src
    → Reader.bits src ≡ compressed_string len last ++ tail
    → Writes w (write_compressed_metablock_header len last w) (compressed_string len last)
      × Parsed
          (decode new_decoder src)
          (ok (record { is_last = last; kind = compressed len }))
          new_decoder
          tail
compressed_header_round_trip len last w src tail low high valid valid_src content = (
  write_compressed-Appends len last w valid,
  compressed-Parses len low high last tail src valid_src content,
)

module _ (pad : ℕ) (tail : List ℕ) (partial : pad < 8) (whole : length tail % 8 ≡ 0) where
  -- The alignment of ISUNCOMPRESSED or ISLASTEMPTY, behind its padding.
  aligned-ParsesTo :
      {D T : Type 0} (k : Bool → Source → Outcome D T) {t : T} {d : D}
      → ParsesTo tail (k true) t d []
      → ParsesTo tail (λ src. align_then src k) t d (to_bits pad 0 ++ [])
  aligned-ParsesTo k next src valid e =
      let (src', result, valid', rest) =
        align_then-zero pad k src tail partial whole valid
          (e ∙ append_assoc (to_bits pad 0) [] tail) in
      let p = next src' valid' rest in
      record { after = p.after; result = result ∙ p.result; valid = p.valid; content = p.content }

  uncompressed-ParsesTo :
      (len : ℕ)
      → 1 ≤ len
      → len ≤ 2 ^ 24
      → ParsesTo tail
          (decode new_decoder)
          (ok (record { is_last = false; kind = uncompressed len }))
          new_decoder
          (to_bits 1 0 ++ size_string len (to_bits 1 1 ++ (to_bits pad 0 ++ [])))
  unfolding decode is_last_arm after_data_length finish is_uncompressed_arm
      uncompressed_alignment_arm
  uncompressed-ParsesTo len low high =
      read_then-ParsesTo tail 1 0 _ _ _ (omega arith) (omega arith) (
        nibbles-ParsesTo len low high false tail 0 0 0 _ (λ n.
          read_then-ParsesTo tail 1 1 _ _ _ (omega arith) (omega arith)
            (aligned-ParsesTo _ (rw (length_lem len low high) (ready-ParsesTo _ _ tail)))))

  end-ParsesTo :
      ParsesTo tail
        (decode new_decoder)
        (ok (record { is_last = true; kind = end }))
        (record new_decoder { is_last = true; state = State.done })
        (to_bits 1 1 ++ (to_bits 1 1 ++ (to_bits pad 0 ++ [])))
  unfolding decode is_last_arm is_last_empty_arm end_alignment_arm
  end-ParsesTo = read_then-ParsesTo tail 1 1 _ _ _ (omega arith) (omega arith) (
      read_then-ParsesTo tail 1 1 _ _ _ (omega arith) (omega arith)
        (aligned-ParsesTo _ (ready-ParsesTo _ _ tail)))

-- For each length of 1 to 2^24, the header part of `write_uncompressed_metablock` appends its string to any
-- valid writer. From any valid source that holds the string, then zero bits up to a byte boundary of the
-- stream, and then `tail`, a fresh `MetaBlockHeaderDecoder` answers with an uncompressed metablock of that
-- length that is not the last, is fresh again, and leaves `tail` unread.
pub uncompressed_header_round_trip :
    (len pad : ℕ) (w : BitWriter) (src : Source) (tail : List ℕ)
    → 1 ≤ len
    → len ≤ 2 ^ 24
    → pad < 8
    → length tail % 8 ≡ 0
    → IsValid w
    → Reader.IsValid src
    → Reader.bits src ≡ (uncompressed_string len ++ to_bits pad 0) ++ tail
    → Writes w (write_uncompressed_header len w) (uncompressed_string len)
      × Parsed
          (decode new_decoder src)
          (ok (record { is_last = false; kind = uncompressed len }))
          new_decoder
          tail
unfolding uncompressed_string size_string
uncompressed_header_round_trip len pad w src tail low high partial whole valid valid_src content = (
  write_uncompressed-Appends len w valid,
  uncompressed-ParsesTo pad tail partial whole len low high src valid_src
      (content ∙ simp (append_assoc, append-nil)),
)

-- `write_final_empty_metablock` appends two bits to any valid writer. From any valid source that holds
-- them, then zero bits up to a byte boundary of the stream, and then `tail`, a fresh
-- `MetaBlockHeaderDecoder` answers with the end of the stream and leaves `tail` unread.
pub end_header_round_trip :
    (pad : ℕ) (w : BitWriter) (src : Source) (tail : List ℕ)
    → pad < 8
    → length tail % 8 ≡ 0
    → IsValid w
    → Reader.IsValid src
    → Reader.bits src ≡ ((to_bits 1 1 ++ to_bits 1 1) ++ to_bits pad 0) ++ tail
    → Writes w (write_final_empty_metablock w) (to_bits 1 1 ++ to_bits 1 1)
      × Parsed
          (decode new_decoder src)
          (ok (record { is_last = true; kind = end }))
          (record new_decoder { is_last = true; state = State.done })
          tail
unfolding write_final_empty_metablock
end_header_round_trip pad w src tail partial whole valid valid_src content = (
  subst (λ s. Writes w (write_final_empty_metablock w) (to_bits 1 1 ++ s))
      (append-nil (to_bits 1 1))
      (field-Appends 1 1 _ _ (omega arith) (last_field-Appends 1 1 (omega arith)) w valid),
  end-ParsesTo pad tail partial whole src valid_src (content ∙ simp (append_assoc, append-nil)),
)
