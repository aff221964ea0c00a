-- ===== src/Decode/StreamHeader.antt =====
-- src/decode/stream_header.rs: WBITS.
pub mod Resume
use brutli.Prelude.{ℕ, ◌+◌, ◌^◌, ◌-◌, if◌then◌else◌, ◌==◌, leb, ◌&&◌, u8, Result, ok, err}
use brutli.Decode.BitReader.{Source}
use brutli.Decode.Outcome.{Outcome, ready, panicked, read_then}

pub record StreamHeader : Type 0 where
  pub window_bits : ℕ

unfoldable pub window_size : StreamHeader → ℕ
window_size h = 2 ^ h.window_bits - 16

pub data StreamHeaderError : Type 0 where
  invalid_window_bits : StreamHeaderError

pub data State : Type 0 where
  first_bit upper_range lower_range done : State

pub record StreamHeaderDecoder : Type 0 where
  pub state : State

abbrev pub at : State → StreamHeaderDecoder
at s = record { state = s }

abbrev pub new_decoder : StreamHeaderDecoder
new_decoder = at State.first_bit

abbrev pub Call : Type 0
Call = Outcome StreamHeaderDecoder (Result StreamHeaderError StreamHeader)

abbrev pub found : ℕ → Source → Call
found bits src = ready (ok (record { window_bits = bits })) (at State.done) src

unfoldable pub lower_range_arm : StreamHeaderDecoder → Source → Call
lower_range_arm d src = read_then 3 d src λ bits src'.
    if bits == 0
    then found 17 src'
    else if bits == 1
    then ready (err invalid_window_bits) d src'
    else if leb 2 bits && leb bits 7
    then found (8 + u8 bits) src'
    else panicked

unfoldable pub upper_range_arm : StreamHeaderDecoder → Source → Call
upper_range_arm d src = read_then 3 d src λ bits src'.
    if bits == 0 then lower_range_arm (at State.lower_range) src' else found (17 + u8 bits) src'

unfoldable pub first_bit_arm : StreamHeaderDecoder → Source → Call
first_bit_arm d src =
    read_then 1 d src λ first src'.
      if first == 0 then found 16 src' else upper_range_arm (at State.upper_range) src'

unfoldable pub decode : StreamHeaderDecoder → Source → Call
decode d src = elim d.state [
  | State.first_bit ↦ first_bit_arm d src
  | State.upper_range ↦ upper_range_arm d src
  | State.lower_range ↦ lower_range_arm d src
  | State.done ↦ panicked
]
