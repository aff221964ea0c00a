-- ===== src/Decode/PrefixCodeDecoder/Resume.antt =====
-- `PrefixCodeDecoder` on an input that is cut into slices.
use brutli.Prelude.{refl, ◌==◌, u8}
use brutli.Decode.Outcome.{
  Resumes, read_then-Resumes, if-Resumes, ready-Resumes, panicked-Resumes, try_call-Resumes,
}
use brutli.Decode.SimplePrefixCode as Simple
use brutli.Decode.SimplePrefixCode.{SimplePrefixCodeDecoder}
use brutli.Decode.SimplePrefixCode.Resume.{simple-Resumes}
use brutli.Decode.ComplexPrefixCode as Complex
use brutli.Decode.ComplexPrefixCode.{ComplexPrefixCodeDecoder}
use brutli.Decode.ComplexPrefixCode.Resume.{complex-Resumes}
use brutli.Decode.PrefixCodeDecoder.{
  State, PrefixCodeDecoder, simple_arm, complex_arm, representation_arm, decode,
}

simple_arm-Resumes :
    (d : PrefixCodeDecoder) (inner : SimplePrefixCodeDecoder) → Resumes decode (simple_arm d inner)
unfolding simple_arm decode
simple_arm-Resumes d inner =
    try_call-Resumes decode (λ s. record d { state = State.simple s }) _ Simple.decode
      (Simple.decode inner) _ (simple-Resumes inner) (λ s src. refl)
      (λ code s. ready-Resumes decode _ _)

complex_arm-Resumes :
    (d : PrefixCodeDecoder) (inner : ComplexPrefixCodeDecoder)
    → Resumes decode (complex_arm d inner)
unfolding complex_arm decode
complex_arm-Resumes d inner =
    try_call-Resumes decode (λ s. record d { state = State.complex s }) _ Complex.decode
      (Complex.decode inner) _ (complex-Resumes inner) (λ s src. refl)
      (λ code s. ready-Resumes decode _ _)

-- From any state, a call on a slice and a second call on what follows it come to what one call on both
-- together gives.
pub prefix_code_decoder-Resumes : (d : PrefixCodeDecoder) → Resumes decode (decode d)
unfolding decode representation_arm
prefix_code_decoder-Resumes d = by_state d.state
  where
    by_state : (s : State) → Resumes decode (decode (record d { state = s }))
    by_state State.representation =
        read_then-Resumes decode 2 (record d { state = State.representation }) _ (λ src. refl)
          (λ selector.
            if-Resumes decode (selector == 1) _ _
              (simple_arm-Resumes _ (Simple.new d.alphabet_size))
              (complex_arm-Resumes _ (Complex.new d.alphabet_size (u8 selector))))
    by_state (State.simple inner) =
        simple_arm-Resumes (record d { state = State.simple inner }) inner
    by_state (State.complex inner) =
        complex_arm-Resumes (record d { state = State.complex inner }) inner
    by_state State.done = panicked-Resumes decode
