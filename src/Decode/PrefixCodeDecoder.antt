-- ===== src/Decode/PrefixCodeDecoder.antt =====
-- src/decode/prefix_code_decoder.rs: a prefix code in either of its two representations.
pub mod Resume
use brutli.Prelude.{ℕ, if◌then◌else◌, ◌==◌, u8, Result, ok, err}
use brutli.Decode.BitReader.{Source}
use brutli.Decode.Outcome.{Outcome, ready, panicked, read_then, try_call}
use brutli.Decode.PrefixCode.{PrefixCode}
use brutli.Decode.SimplePrefixCode as Simple
use brutli.Decode.SimplePrefixCode.{SimplePrefixCodeDecoder, SimplePrefixCodeError}
use brutli.Decode.ComplexPrefixCode as Complex
use brutli.Decode.ComplexPrefixCode.{ComplexPrefixCodeDecoder, ComplexPrefixCodeError}

pub data PrefixCodeDecoderError : Type 0 where
  in_simple : SimplePrefixCodeError → PrefixCodeDecoderError
  in_complex : ComplexPrefixCodeError → PrefixCodeDecoderError

pub data State : Type 0 where
  representation : State
  simple : SimplePrefixCodeDecoder → State
  complex : ComplexPrefixCodeDecoder → State
  done : State

pub record PrefixCodeDecoder : Type 0 where
  pub alphabet_size : ℕ
  pub state : State

-- For an alphabet of one symbol at least, as the `assert!` says.
abbrev pub new : ℕ → PrefixCodeDecoder
new alphabet_size = record { alphabet_size = alphabet_size; state = State.representation }

abbrev pub Call : Type 0
Call = Outcome PrefixCodeDecoder (Result PrefixCodeDecoderError PrefixCode)

-- The arms of the loop, last first: each goes on to the arm of the state that it sets.
unfoldable pub simple_arm : PrefixCodeDecoder → SimplePrefixCodeDecoder → Source → Call
simple_arm d inner src =
    try_call (λ s. record d { state = State.simple s }) PrefixCodeDecoderError.in_simple
      (Simple.decode inner src) (λ code s. ready (ok code) (record d { state = State.done }))

unfoldable pub complex_arm : PrefixCodeDecoder → ComplexPrefixCodeDecoder → Source → Call
complex_arm d inner src =
    try_call (λ s. record d { state = State.complex s }) PrefixCodeDecoderError.in_complex
      (Complex.decode inner src) (λ code s. ready (ok code) (record d { state = State.done }))

unfoldable pub representation_arm : PrefixCodeDecoder → Source → Call
representation_arm d src = read_then 2 d src λ selector src'.
    if selector == 1
    then simple_arm d (Simple.new d.alphabet_size) src'
    else complex_arm d (Complex.new d.alphabet_size (u8 selector)) src'

unfoldable pub decode : PrefixCodeDecoder → Source → Call
decode d src = elim d.state [
  | State.representation ↦ representation_arm d src
  | State.simple inner ↦ simple_arm d inner src
  | State.complex inner ↦ complex_arm d inner src
  | State.done ↦ panicked
]
