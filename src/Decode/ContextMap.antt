-- ===== src/Decode/ContextMap.antt =====
-- src/decode/context_map.rs: a context map, from a context to the tree that decodes in it.
pub mod Advance
pub mod Resume
use brutli.Prelude.{
  ℕ, zero, suc, ◌+◌, ◌-◌, ◌^◌, Option, none, some, List, [], ◌∷◌, ◌++◌, if◌then◌else◌, ◌==◌, ltb,
  leb, length, take, drop, replicate, get_or, u8, Result, ok, err,
}
use brutli.Decode.BitReader.{Source}
use brutli.Decode.Outcome.{Outcome, ready, panicked, read_then, call_then, try_call, expect}
use brutli.Decode.PrefixCode as PrefixCode
use brutli.Decode.PrefixCode.{PrefixSymbolDecoder, fresh_symbol}
use brutli.Decode.PrefixCodeDecoder as PrefixCodeDecoder
use brutli.Decode.PrefixCodeDecoder.{PrefixCodeDecoderError}

pub data ContextMapError : Type 0 where
  in_prefix_code : PrefixCodeDecoderError → ContextMapError
  repeat_overflow : ContextMapError

pub data State : Type 0 where
  rle_flag rle_value prefix_code entries : State
  repeat : (bits : ℕ) → State
  transform done : State

pub record ContextMapDecoder : Type 0 where
  pub size : ℕ
  pub num_trees : ℕ
  pub state : State
  pub rle_max : ℕ
  pub prefix_decoder : Option PrefixCodeDecoder.PrefixCodeDecoder
  pub prefix_code : Option PrefixCode.PrefixCode
  pub symbol_decoder : PrefixSymbolDecoder
  pub map : List ℕ

-- For one entry at least and 2 to 256 trees, as the `assert!`s say.
abbrev pub new : ℕ → ℕ → ContextMapDecoder
new size num_trees = record {
  size = size;
  num_trees = num_trees;
  state = State.rle_flag;
  rle_max = 0;
  prefix_decoder = none;
  prefix_code = none;
  symbol_decoder = fresh_symbol;
  map = [];
}

abbrev pub Call : Type 0
Call = Outcome ContextMapDecoder (Result ContextMapError (List ℕ))

-- `for (index, value) in mtf.iter_mut().enumerate() { *value = index as u8 }`
unfoldable pub count_from : ℕ → ℕ → List ℕ
count_from zero first = []
count_from (suc n) first = first ∷ count_from n (first + 1)

-- `mtf.copy_within(..index, 1); mtf[0] = value`
abbrev pub move_front : List ℕ → ℕ → List ℕ
move_front mtf index = get_or mtf index 0 ∷ (take index mtf ++ drop (suc index) mtf)

-- The loop over the entries, each below 256.
unfoldable pub inverse_with : List ℕ → List ℕ → List ℕ
inverse_with mtf [] = []
inverse_with mtf (entry ∷ map) = get_or mtf entry 0 ∷ inverse_with (move_front mtf entry) map

unfoldable pub inverse_move_to_front : List ℕ → List ℕ
inverse_move_to_front map = inverse_with (count_from 256 0) map

abbrev pub initialize_prefix_decoder : ContextMapDecoder → ContextMapDecoder
initialize_prefix_decoder d = record d {
  prefix_decoder = some (PrefixCodeDecoder.new (d.num_trees + d.rle_max));
}

-- The arms of the loop, last first: each goes on to the arm of the state that it sets.
unfoldable pub transform_arm : ContextMapDecoder → Source → Call
transform_arm d src = read_then 1 d src λ bit.
    ready (ok (if bit == 0 then d.map else inverse_move_to_front d.map))
      (record d { state = State.done; map = [] })

abbrev pub push_entry : ContextMapDecoder → ℕ → ContextMapDecoder
push_entry d entry = record d { map = d.map ++ (entry ∷ []) }

abbrev pub repeat_arm : (ContextMapDecoder → Source → Call) → ℕ → ContextMapDecoder → Source → Call
repeat_arm rest bits d src = read_then bits d src λ extra src'.
    let count = 2 ^ bits + extra in
    if ltb d.size (length d.map + count)
    then ready (err ContextMapError.repeat_overflow) d src'
    else rest (record d { map = d.map ++ replicate count 0; state = State.entries }) src'

-- What one round of `Entries` does with its symbol, and the rounds after it.
abbrev pub symbol_arm : (ContextMapDecoder → Source → Call) → ℕ → ContextMapDecoder → Source → Call
symbol_arm rest symbol d src =
    if symbol == 0
    then rest (push_entry d 0) src
    else if leb symbol d.rle_max
    then repeat_arm rest (u8 symbol) (record d { state = State.repeat (u8 symbol) }) src
    else rest (push_entry d (u8 (symbol - d.rle_max))) src

abbrev pub entry_round : (ContextMapDecoder → Source → Call) → ContextMapDecoder → Source → Call
entry_round rest d src = expect d.prefix_code panicked λ code.
    call_then (λ s. record d { symbol_decoder = s }) (PrefixCode.decode code d.symbol_decoder src)
      (λ symbol s. symbol_arm rest symbol (record d { symbol_decoder = s }))

-- `Entries`, by the entries that are left at most: each round pushes one at least. A map that is longer than
-- `size` does not arise, and is not run.
unfoldable pub entries_loop : ℕ → ContextMapDecoder → Source → Call
entries_loop zero d src =
    if length d.map == d.size
    then transform_arm (record d { state = State.transform }) src
    else panicked
entries_loop (suc left) d src =
    if length d.map == d.size
    then transform_arm (record d { state = State.transform }) src
    else entry_round (entries_loop left) d src

unfoldable pub entries_arm : ContextMapDecoder → Source → Call
entries_arm d src = entries_loop (d.size - length d.map) d src

unfoldable pub repeat_bits_arm : ℕ → ContextMapDecoder → Source → Call
repeat_bits_arm bits d src = repeat_arm entries_arm bits d src

unfoldable pub prefix_code_arm : ContextMapDecoder → Source → Call
prefix_code_arm d src = expect d.prefix_decoder panicked λ decoder.
    try_call (λ s. record d { prefix_decoder = some s }) ContextMapError.in_prefix_code
      (PrefixCodeDecoder.decode decoder src)
      (λ code s.
        entries_arm
          (record d { prefix_decoder = none; prefix_code = some code; state = State.entries }))

unfoldable pub rle_value_arm : ContextMapDecoder → Source → Call
rle_value_arm d src = read_then 4 d src λ bits.
    prefix_code_arm (record (initialize_prefix_decoder (record d { rle_max = u8 bits + 1 })) {
      state = State.prefix_code;
    })

unfoldable pub rle_flag_arm : ContextMapDecoder → Source → Call
rle_flag_arm d src = read_then 1 d src λ bit src'.
    if bit == 0
    then prefix_code_arm (record (initialize_prefix_decoder d) { state = State.prefix_code }) src'
    else rle_value_arm (record d { state = State.rle_value }) src'

unfoldable pub decode : ContextMapDecoder → Source → Call
decode d src = elim d.state [
  | State.rle_flag ↦ rle_flag_arm d src
  | State.rle_value ↦ rle_value_arm d src
  | State.prefix_code ↦ prefix_code_arm d src
  | State.entries ↦ entries_arm d src
  | State.repeat bits ↦ repeat_bits_arm bits d src
  | State.transform ↦ transform_arm d src
  | State.done ↦ panicked
]
