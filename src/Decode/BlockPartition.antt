-- ===== src/Decode/BlockPartition.antt =====
-- src/decode/block_partition.rs: block lengths, and the block types of one category of a meta-block.
pub mod Resume
use brutli.Prelude.{
  ℕ, ◌+◌, Option, none, some, List, [], ◌∷◌, if◌then◌else◌, ◌==◌, ltb, get_or, u8, Result, ok,
}
use brutli.Decode.BitReader.{Source}
use brutli.Decode.Outcome.{Outcome, ready, panicked, read_then, call_then, try_call, expect}
use brutli.Decode.PrefixCode as PrefixCode
use brutli.Decode.PrefixCode.{PrefixSymbolDecoder, fresh_symbol}
use brutli.Decode.PrefixCodeDecoder as PrefixCodeDecoder
use brutli.Decode.PrefixCodeDecoder.{PrefixCodeDecoderError}

abbrev pub block_length_offsets : List ℕ
block_length_offsets =
    1 ∷ 5 ∷ 9 ∷ 13 ∷ 17 ∷ 25 ∷ 33 ∷ 41 ∷ 49 ∷ 65 ∷ 81 ∷ 97 ∷ 113 ∷ 145 ∷ 177 ∷ 209 ∷ 241 ∷ 305 ∷ 369
    ∷ 497 ∷ 753 ∷ 1265 ∷ 2289 ∷ 4337 ∷ 8433 ∷ 16625 ∷ []

abbrev pub block_length_extra_bits : List ℕ
block_length_extra_bits =
    2 ∷ 2 ∷ 2 ∷ 2 ∷ 3 ∷ 3 ∷ 3 ∷ 3 ∷ 4 ∷ 4 ∷ 4 ∷ 4 ∷ 5 ∷ 5 ∷ 5 ∷ 5 ∷ 6 ∷ 6 ∷ 7 ∷ 8 ∷ 9 ∷ 10 ∷ 11 ∷ 12
    ∷ 13 ∷ 24 ∷ []

pub record BlockPartition : Type 0 where
  pub num_types : ℕ
  pub type_code : Option PrefixCode.PrefixCode
  pub length_code : Option PrefixCode.PrefixCode
  pub first_length : Option ℕ

-- `BlockPartition::single`
abbrev pub single : BlockPartition
single = record { num_types = 1; type_code = none; length_code = none; first_length = none }

pub record BlockLengthDecoder : Type 0 where
  pub symbol_decoder : PrefixSymbolDecoder
  pub pending_symbol : Option ℕ

abbrev pub fresh_length : BlockLengthDecoder
fresh_length = record { symbol_decoder = fresh_symbol; pending_symbol = none }

-- The tables have 26 entries; an index behind them panics.
unfoldable pub length_of_symbol : ℕ → BlockLengthDecoder → Source → Outcome BlockLengthDecoder ℕ
length_of_symbol symbol d src =
    if ltb symbol 26
    then read_then (get_or block_length_extra_bits symbol 0) d src (λ extra src'.
      ready (get_or block_length_offsets symbol 0 + extra) (record d { pending_symbol = none })
        src')
    else panicked

abbrev pub decode_pending :
    PrefixCode.PrefixCode → BlockLengthDecoder → Option ℕ → Source → Outcome BlockLengthDecoder ℕ
decode_pending code d none src =
    call_then (λ s. record d { symbol_decoder = s }) (PrefixCode.decode code d.symbol_decoder src)
      (λ symbol s.
        length_of_symbol (u8 symbol)
          (record { symbol_decoder = s; pending_symbol = some (u8 symbol) }))
decode_pending code d (some symbol) src = length_of_symbol symbol d src

-- `BlockLengthDecoder::decode`
unfoldable pub decode_length :
    PrefixCode.PrefixCode → BlockLengthDecoder → Source → Outcome BlockLengthDecoder ℕ
decode_length code d src = decode_pending code d d.pending_symbol src

pub data State : Type 0 where
  type_code length_code first_length done : State

pub record BlockPartitionDecoder : Type 0 where
  pub num_types : ℕ
  pub state : State
  pub type_decoder : Option PrefixCodeDecoder.PrefixCodeDecoder
  pub length_decoder : Option PrefixCodeDecoder.PrefixCodeDecoder
  pub type_code : Option PrefixCode.PrefixCode
  pub length_code : Option PrefixCode.PrefixCode
  pub block_length : BlockLengthDecoder

-- For one block type at least, as the `assert!` says.
unfoldable pub new : ℕ → BlockPartitionDecoder
new num_types =
    let multiple = ltb 1 num_types in
    record {
      num_types = num_types;
      state = if multiple then State.type_code else State.done;
      type_decoder = if multiple then some (PrefixCodeDecoder.new (num_types + 2)) else none;
      length_decoder = if multiple then some (PrefixCodeDecoder.new 26) else none;
      type_code = none;
      length_code = none;
      block_length = fresh_length;
    }

abbrev pub Call : Type 0
Call = Outcome BlockPartitionDecoder (Result PrefixCodeDecoderError BlockPartition)

-- The arms of the loop, last first: each goes on to the arm of the state that it sets.
unfoldable pub first_length_arm : BlockPartitionDecoder → Source → Call
first_length_arm d src = expect d.length_code panicked λ code.
    call_then (λ b. record d { block_length = b }) (decode_length code d.block_length src)
      (λ first b.
        ready
          (ok record {
            num_types = d.num_types;
            type_code = d.type_code;
            length_code = d.length_code;
            first_length = some first;
          })
          (record d { block_length = b; state = State.done; type_code = none; length_code = none }))

unfoldable pub length_code_arm : BlockPartitionDecoder → Source → Call
length_code_arm d src = expect d.length_decoder panicked λ decoder.
    try_call (λ s. record d { length_decoder = some s }) (λ e. e)
      (PrefixCodeDecoder.decode decoder src)
      (λ code s.
        first_length_arm (record d {
          length_decoder = some s;
          length_code = some code;
          state = State.first_length;
        }))

unfoldable pub type_code_arm : BlockPartitionDecoder → Source → Call
type_code_arm d src = expect d.type_decoder panicked λ decoder.
    try_call (λ s. record d { type_decoder = some s }) (λ e. e)
      (PrefixCodeDecoder.decode decoder src)
      (λ code s.
        length_code_arm
          (record d { type_decoder = some s; type_code = some code; state = State.length_code }))

unfoldable pub by_state : BlockPartitionDecoder → Source → Call
by_state d src = elim d.state [
  | State.type_code ↦ type_code_arm d src
  | State.length_code ↦ length_code_arm d src
  | State.first_length ↦ first_length_arm d src
  | State.done ↦ panicked
]

unfoldable pub decode : BlockPartitionDecoder → Source → Call
decode d src = if d.num_types == 1 then ready (ok single) d src else by_state d src
