-- ===== src/Decode/VarLenUint8.antt =====
-- src/decode/var_len_uint8.rs: a byte in at most eleven bits.
pub mod Resume
use brutli.Prelude.{ℕ, ◌+◌, ◌^◌, ◌%◌, if◌then◌else◌, ◌==◌, u8, u16}
use brutli.Decode.BitReader.{Source}
use brutli.Decode.Outcome.{Outcome, ready, read_then}

pub data State : Type 0 where
  first_bit width value : State

pub record VarLenUint8Decoder : Type 0 where
  pub state : State
  pub width : ℕ

abbrev pub new_decoder : VarLenUint8Decoder
new_decoder = record { state = State.first_bit; width = 0 }

-- The arms of the loop, last first: each goes on to the arm of the state that it sets.
unfoldable pub value_arm : VarLenUint8Decoder → Source → Outcome VarLenUint8Decoder ℕ
value_arm d src = read_then d.width d src λ extra src'.
    ready (u8 (u16 (2 ^ d.width) + u8 extra)) (record d { state = State.first_bit; width = 0 }) src'

unfoldable pub width_arm : VarLenUint8Decoder → Source → Outcome VarLenUint8Decoder ℕ
width_arm d src = read_then 3 d src λ bits src'.
    if u8 bits == 0
    then ready 1 (record d { state = State.first_bit }) src'
    else value_arm (record d { state = State.value; width = u8 bits }) src'

unfoldable pub first_bit_arm : VarLenUint8Decoder → Source → Outcome VarLenUint8Decoder ℕ
first_bit_arm d src = read_then 1 d src λ bit src'.
    if bit == 0 then ready 0 d src' else width_arm (record d { state = State.width }) src'

unfoldable pub decode : VarLenUint8Decoder → Source → Outcome VarLenUint8Decoder ℕ
decode d src = elim d.state [
  | State.first_bit ↦ first_bit_arm d src
  | State.width ↦ width_arm d src
  | State.value ↦ value_arm d src
]
