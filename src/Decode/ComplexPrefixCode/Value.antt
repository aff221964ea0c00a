-- ===== src/Decode/ComplexPrefixCode/Value.antt =====
-- `CodeLengthValueDecoder` on an input that is cut into slices.
use brutli.Prelude.{refl, ◌==◌}
use brutli.Decode.Outcome.{Resumes, read_then-Resumes, if-Resumes, ready-Resumes, panicked-Resumes}
use brutli.Decode.ComplexPrefixCode.{
  CodeLengthValueState, CodeLengthValueDecoder, value_at, fresh_value, first_two_arm, third_arm,
  fourth_arm, decode_value,
}

fourth-Resumes : Resumes decode_value fourth_arm
unfolding fourth_arm decode_value
fourth-Resumes =
    read_then-Resumes decode_value 1 (value_at CodeLengthValueState.fourth) _ (λ src. refl)
      (λ bit. ready-Resumes decode_value _ _)

third-Resumes : Resumes decode_value third_arm
unfolding third_arm decode_value
third-Resumes =
    read_then-Resumes decode_value 1 (value_at CodeLengthValueState.third) _ (λ src. refl)
      (λ bit.
        if-Resumes decode_value (bit == 0) _ _ (ready-Resumes decode_value _ _) fourth-Resumes)

first_two-Resumes : Resumes decode_value first_two_arm
unfolding first_two_arm decode_value
first_two-Resumes =
    read_then-Resumes decode_value 2 fresh_value _ (λ src. refl)
      (λ bits. if-Resumes decode_value (bits == 0) _ _ (ready-Resumes decode_value _ _) (
        if-Resumes decode_value (bits == 1) _ _ (ready-Resumes decode_value _ _) (
          if-Resumes decode_value (bits == 2) _ _ (ready-Resumes decode_value _ _) (
            if-Resumes decode_value (bits == 3) _ _ third-Resumes
              (panicked-Resumes decode_value)))))

pub value-Resumes : (d : CodeLengthValueDecoder) → Resumes decode_value (decode_value d)
unfolding decode_value
value-Resumes d = by_state d.state
  where
    by_state : (s : CodeLengthValueState) → Resumes decode_value (decode_value (value_at s))
    by_state CodeLengthValueState.first_two = first_two-Resumes
    by_state CodeLengthValueState.third = third-Resumes
    by_state CodeLengthValueState.fourth = fourth-Resumes
