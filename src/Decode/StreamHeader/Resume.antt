-- ===== src/Decode/StreamHeader/Resume.antt =====
-- `StreamHeaderDecoder` on an input that is cut into slices.
use brutli.Prelude.{ℕ, refl, List, ◌==◌, leb, ◌&&◌}
use brutli.Decode.BitReader.{Source, feed}
use brutli.Decode.Outcome.{
  Resumed, Resumes, read_then-Resumes, if-Resumes, ready-Resumes, panicked-Resumes,
}
use brutli.Decode.StreamHeader.{
  State, StreamHeaderDecoder, at, decode, first_bit_arm, upper_range_arm, lower_range_arm,
}

lower_range_arm-Resumes : Resumes decode (lower_range_arm (at State.lower_range))
unfolding lower_range_arm decode
lower_range_arm-Resumes =
    read_then-Resumes decode 3 (at State.lower_range) _ (λ src. refl)
      (λ bits. if-Resumes decode (bits == 0) _ _ (ready-Resumes decode _ _) (
        if-Resumes decode (bits == 1) _ _ (ready-Resumes decode _ _) (
          if-Resumes decode (leb 2 bits && leb bits 7) _ _ (ready-Resumes decode _ _)
            (panicked-Resumes decode))))

upper_range_arm-Resumes : Resumes decode (upper_range_arm (at State.upper_range))
unfolding upper_range_arm decode
upper_range_arm-Resumes =
    read_then-Resumes decode 3 (at State.upper_range) _ (λ src. refl)
      (λ bits. if-Resumes decode (bits == 0) _ _ lower_range_arm-Resumes (ready-Resumes decode _ _))

first_bit_arm-Resumes : Resumes decode (first_bit_arm (at State.first_bit))
unfolding first_bit_arm decode
first_bit_arm-Resumes =
    read_then-Resumes decode 1 (at State.first_bit) _ (λ src. refl)
      (λ bit. if-Resumes decode (bit == 0) _ _ (ready-Resumes decode _ _) upper_range_arm-Resumes)

-- From any state, a call on a slice and a second call on what follows it come to what one call on both
-- together gives: the same window or error, state and unread input.
pub stream_header-Resumes :
    (d : StreamHeaderDecoder) (src : Source) (more : List ℕ)
    → Resumed decode more (decode d src) (decode d (feed src more))
unfolding decode
stream_header-Resumes d = by_state d.state
  where
    by_state : (s : State) → Resumes decode (decode (at s))
    by_state State.first_bit = first_bit_arm-Resumes
    by_state State.upper_range = upper_range_arm-Resumes
    by_state State.lower_range = lower_range_arm-Resumes
    by_state State.done = panicked-Resumes decode
