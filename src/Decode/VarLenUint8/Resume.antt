-- ===== src/Decode/VarLenUint8/Resume.antt =====
-- `VarLenUint8Decoder` on an input that is cut into slices.
use brutli.Prelude.{ℕ, refl, List, ◌==◌, u8}
use brutli.Decode.BitReader.{Source, feed}
use brutli.Decode.Outcome.{Resumed, Resumes, read_then-Resumes, if-Resumes, ready-Resumes}
use brutli.Decode.VarLenUint8.{
  State, VarLenUint8Decoder, decode, first_bit_arm, width_arm, value_arm,
}

abbrev at : State → ℕ → VarLenUint8Decoder
at s w = record { state = s; width = w }

value_arm-Resumes : (w : ℕ) → Resumes decode (value_arm (at State.value w))
unfolding value_arm decode
value_arm-Resumes w =
    read_then-Resumes decode w (at State.value w) _ (λ src. refl) (λ v. ready-Resumes decode _ _)

width_arm-Resumes : (w : ℕ) → Resumes decode (width_arm (at State.width w))
unfolding width_arm decode
width_arm-Resumes w =
    read_then-Resumes decode 3 (at State.width w) _ (λ src. refl)
      (λ bits.
        if-Resumes decode (u8 bits == 0) _ _ (ready-Resumes decode _ _)
          (value_arm-Resumes (u8 bits)))

first_bit_arm-Resumes : (w : ℕ) → Resumes decode (first_bit_arm (at State.first_bit w))
unfolding first_bit_arm decode
first_bit_arm-Resumes w =
    read_then-Resumes decode 1 (at State.first_bit w) _ (λ src. refl)
      (λ bit. if-Resumes decode (bit == 0) _ _ (ready-Resumes decode _ _) (width_arm-Resumes w))

-- From any state, a call on a slice and a second call on what follows it come to what one call on both
-- together gives: the same value, state and unread input.
pub var_len_uint8-Resumes :
    (d : VarLenUint8Decoder) (src : Source) (more : List ℕ)
    → Resumed decode more (decode d src) (decode d (feed src more))
unfolding decode
var_len_uint8-Resumes d = by_state d.state d.width
  where
    by_state : (s : State) (w : ℕ) → Resumes decode (decode (at s w))
    by_state State.first_bit w = first_bit_arm-Resumes w
    by_state State.width w = width_arm-Resumes w
    by_state State.value w = value_arm-Resumes w
