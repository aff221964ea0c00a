-- ===== src/Decode/MetaBlockHeader/Resume.antt =====
-- `MetaBlockHeaderDecoder` on an input that is cut into slices.
use brutli.Prelude.{
  ℕ, zero, suc, ◌+◌, ◌-◌, ◌≡◌, refl, ap, arith, List, ◌==◌, ltb, ◌&&◌, not, true, false, Bool, u8,
}
use brutli.Decode.BitReader.{Source, feed}
use brutli.Decode.Outcome.{
  Resumed, Resumes, read_then-Resumes, if-Resumes, ready-Resumes, panicked-Resumes,
  align_then-Resumes,
}
use brutli.Decode.MetaBlockHeader.{
  State, MetaBlockHeaderDecoder, decode, finish, end_alignment_arm, metadata_alignment_arm,
  metadata_length_loop, metadata_length_arm, metadata_length_width_arm, metadata_reserved_arm,
  uncompressed_alignment_arm, is_uncompressed_arm, after_data_length, data_length_loop,
  data_length_arm, nibbles_arm, is_last_empty_arm, is_last_arm,
}

abbrev at : State → Bool → ℕ → ℕ → ℕ → MetaBlockHeaderDecoder
at s l w i v = record { state = s; is_last = l; width = w; index = i; value = v }

module _ (l : Bool) (w : ℕ) where
  end_alignment-Resumes :
      (i v : ℕ) → Resumes decode (end_alignment_arm (at State.end_alignment l w i v))
  unfolding end_alignment_arm
  end_alignment-Resumes i v = align_then-Resumes decode _ (λ zero_fill.
      if-Resumes decode (not zero_fill) _ _ (ready-Resumes decode _ _) (ready-Resumes decode _ _))

  metadata_alignment-Resumes :
      (i v : ℕ) → Resumes decode (metadata_alignment_arm (at State.metadata_alignment l w i v))
  unfolding metadata_alignment_arm finish
  metadata_alignment-Resumes i v = align_then-Resumes decode _ (λ zero_fill.
      if-Resumes decode (not zero_fill) _ _ (ready-Resumes decode _ _) (ready-Resumes decode _ _))

  metadata_length-Resumes :
      (rounds i v : ℕ)
      → w - i ≡ rounds
      → Resumes decode (metadata_length_loop rounds (at State.metadata_length l w i v))
  unfolding metadata_length_loop decode metadata_length_arm
  metadata_length-Resumes zero i v h = metadata_alignment-Resumes i (v + 1)
  metadata_length-Resumes (suc rounds) i v h =
      read_then-Resumes decode 8 (at State.metadata_length l w i v) _
        (λ src. ap (λ r. metadata_length_loop r (at State.metadata_length l w i v) src) h)
        (λ byte.
          if-Resumes decode ((i + 1 == w) && (ltb 1 w && (byte == 0))) _ _
            (ready-Resumes decode _ _) (metadata_length-Resumes rounds (i + 1) _ (omega arith)))

  uncompressed_alignment-Resumes :
      (i v : ℕ)
      → Resumes decode (uncompressed_alignment_arm (at State.uncompressed_alignment l w i v))
  unfolding uncompressed_alignment_arm finish
  uncompressed_alignment-Resumes i v = align_then-Resumes decode _ (λ zero_fill.
      if-Resumes decode (not zero_fill) _ _ (ready-Resumes decode _ _) (ready-Resumes decode _ _))

  is_uncompressed-Resumes :
      (i v : ℕ) → Resumes decode (is_uncompressed_arm (at State.is_uncompressed l w i v))
  unfolding is_uncompressed_arm decode finish
  is_uncompressed-Resumes i v =
      read_then-Resumes decode 1 (at State.is_uncompressed l w i v) _ (λ src. refl)
        (λ bit.
          if-Resumes decode (bit == 0) _ _ (ready-Resumes decode _ _)
            (uncompressed_alignment-Resumes i v))

  data_length-Resumes :
      (rounds i v : ℕ)
      → w - i ≡ rounds
      → Resumes decode (data_length_loop rounds (at State.data_length l w i v))
  unfolding data_length_loop decode data_length_arm after_data_length finish
  data_length-Resumes zero i v h =
      if-Resumes decode l _ _ (ready-Resumes decode _ _) (is_uncompressed-Resumes i v)
  data_length-Resumes (suc rounds) i v h =
      read_then-Resumes decode 4 (at State.data_length l w i v) _
        (λ src. ap (λ r. data_length_loop r (at State.data_length l w i v) src) h)
        (λ nibble.
          if-Resumes decode ((i + 1 == w) && (ltb 4 w && (nibble == 0))) _ _
            (ready-Resumes decode _ _) (data_length-Resumes rounds (i + 1) _ (omega arith)))

metadata_length_width-Resumes :
    (l : Bool) (w i v : ℕ)
    → Resumes decode (metadata_length_width_arm (at State.metadata_length_width l w i v))
unfolding metadata_length_width_arm decode metadata_length_arm
metadata_length_width-Resumes l w i v =
    read_then-Resumes decode 2 (at State.metadata_length_width l w i v) _ (λ src. refl)
      (λ bits.
        if-Resumes decode (u8 bits == 0) _ _ (metadata_alignment-Resumes l (u8 bits) 0 0)
          (metadata_length-Resumes l (u8 bits) (u8 bits - 0) 0 0 refl))

metadata_reserved-Resumes :
    (l : Bool) (w i v : ℕ)
    → Resumes decode (metadata_reserved_arm (at State.metadata_reserved l w i v))
unfolding metadata_reserved_arm decode
metadata_reserved-Resumes l w i v =
    read_then-Resumes decode 1 (at State.metadata_reserved l w i v) _ (λ src. refl)
      (λ bit.
        if-Resumes decode (not (bit == 0)) _ _ (ready-Resumes decode _ _)
          (metadata_length_width-Resumes l w i v))

nibbles-Resumes : (l : Bool) (w i v : ℕ) → Resumes decode (nibbles_arm (at State.nibbles l w i v))
unfolding nibbles_arm decode data_length_arm
nibbles-Resumes l w i v =
    read_then-Resumes decode 2 (at State.nibbles l w i v) _ (λ src. refl)
      (λ bits. if-Resumes decode (bits == 0) _ _ (data_length-Resumes l 4 4 0 0 refl) (
        if-Resumes decode (bits == 1) _ _ (data_length-Resumes l 5 5 0 0 refl) (
          if-Resumes decode (bits == 2) _ _ (data_length-Resumes l 6 6 0 0 refl) (
            if-Resumes decode (bits == 3) _ _ (metadata_reserved-Resumes l w 0 0)
              (panicked-Resumes decode)))))

is_last_empty-Resumes :
    (l : Bool) (w i v : ℕ) → Resumes decode (is_last_empty_arm (at State.is_last_empty l w i v))
unfolding is_last_empty_arm decode
is_last_empty-Resumes l w i v =
    read_then-Resumes decode 1 (at State.is_last_empty l w i v) _ (λ src. refl)
      (λ bit.
        if-Resumes decode (not (bit == 0)) _ _ (end_alignment-Resumes l w i v)
          (nibbles-Resumes l w i v))

is_last-Resumes : (l : Bool) (w i v : ℕ) → Resumes decode (is_last_arm (at State.is_last l w i v))
unfolding is_last_arm decode
is_last-Resumes l w i v =
    read_then-Resumes decode 1 (at State.is_last l w i v) _ (λ src. refl)
      (λ bit.
        if-Resumes decode (not (bit == 0)) _ _ (is_last_empty-Resumes true w i v)
          (nibbles-Resumes false w i v))

-- From any state, a call on a slice and a second call on what follows it come to what one call on both
-- together gives: the same header or error, state and unread input.
pub metablock_header-Resumes :
    (d : MetaBlockHeaderDecoder) (src : Source) (more : List ℕ)
    → Resumed decode more (decode d src) (decode d (feed src more))
unfolding decode metadata_length_arm data_length_arm
metablock_header-Resumes d = by_state d.state d.is_last d.width d.index d.value
  where
    by_state : (s : State) (l : Bool) (w i v : ℕ) → Resumes decode (decode (at s l w i v))
    by_state State.is_last = is_last-Resumes
    by_state State.is_last_empty = is_last_empty-Resumes
    by_state State.nibbles = nibbles-Resumes
    by_state State.data_length = λ l w i v. data_length-Resumes l w (w - i) i v refl
    by_state State.is_uncompressed = is_uncompressed-Resumes
    by_state State.uncompressed_alignment = uncompressed_alignment-Resumes
    by_state State.metadata_reserved = metadata_reserved-Resumes
    by_state State.metadata_length_width = metadata_length_width-Resumes
    by_state State.metadata_length = λ l w i v. metadata_length-Resumes l w (w - i) i v refl
    by_state State.metadata_alignment = metadata_alignment-Resumes
    by_state State.end_alignment = end_alignment-Resumes
    by_state State.done = λ l w i v. panicked-Resumes decode
