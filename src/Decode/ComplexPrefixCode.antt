-- ===== src/Decode/ComplexPrefixCode.antt =====
-- src/decode/complex_prefix_code.rs: a prefix code given by its code lengths, which are coded themselves.
-- No call follows one that fails, so the state behind an error is that before the failing step.
pub mod Advance
pub mod Value
pub mod Resume
use brutli.Prelude.{
  ℕ, zero, suc, ◌+◌, ◌-◌, ◌*◌, ◌/◌, ◌^◌, Bool, ◌&&◌, ◌||◌, not, Option, none, some, List, [], ◌∷◌,
  ◌++◌, if◌then◌else◌, ◌==◌, ltb, leb, get_or, set, take, drop, replicate, u8, Result, ok, err,
}
use brutli.Decode.BitReader.{Source}
use brutli.Decode.Outcome.{Outcome, ready, panicked, read_then, call_then, match_result, expect}
use brutli.Decode.PrefixCode as PrefixCode
use brutli.Decode.PrefixCode.{PrefixCodeError, PrefixSymbolDecoder, fresh_symbol, from_code_lengths}

-- The fixed code of the lengths of the code-length alphabet.
pub data CodeLengthValueState : Type 0 where
  first_two third fourth : CodeLengthValueState

pub record CodeLengthValueDecoder : Type 0 where
  pub state : CodeLengthValueState

abbrev pub value_at : CodeLengthValueState → CodeLengthValueDecoder
value_at s = record { state = s }

abbrev pub fresh_value : CodeLengthValueDecoder
fresh_value = value_at CodeLengthValueState.first_two

abbrev pub ValueCall : Type 0
ValueCall = Outcome CodeLengthValueDecoder ℕ

unfoldable pub fourth_arm : Source → ValueCall
fourth_arm src =
    read_then 1 (value_at CodeLengthValueState.fourth) src
      λ bit src'. ready (if bit == 0 then 1 else 5) fresh_value src'

unfoldable pub third_arm : Source → ValueCall
third_arm src =
    read_then 1 (value_at CodeLengthValueState.third) src
      λ bit src'. if bit == 0 then ready 2 fresh_value src' else fourth_arm src'

unfoldable pub first_two_arm : Source → ValueCall
first_two_arm src = read_then 2 fresh_value src λ bits src'.
    if bits == 0
    then ready 0 fresh_value src'
    else if bits == 1
    then ready 4 fresh_value src'
    else if bits == 2
    then ready 3 fresh_value src'
    else if bits == 3
    then third_arm src'
    else panicked

unfoldable pub decode_value : CodeLengthValueDecoder → Source → ValueCall
decode_value d src = elim d.state [
  | CodeLengthValueState.first_two ↦ first_two_arm src
  | CodeLengthValueState.third ↦ third_arm src
  | CodeLengthValueState.fourth ↦ fourth_arm src
]

abbrev pub code_length_order : List ℕ
code_length_order =
    1 ∷ 2 ∷ 3 ∷ 4 ∷ 0 ∷ 5 ∷ 17 ∷ 6 ∷ 16 ∷ 7 ∷ 8 ∷ 9 ∷ 10 ∷ 11 ∷ 12 ∷ 13 ∷ 14 ∷ 15 ∷ []

abbrev pub initial_repeated_code_length : ℕ
initial_repeated_code_length = 8

abbrev pub code_space : ℕ
code_space = 2 ^ 15

pub data ComplexPrefixCodeError : Type 0 where
  invalid_code_length_alphabet repeat_overflow repeat_past_alphabet : ComplexPrefixCodeError
  too_few_symbols unused_code_space : ComplexPrefixCodeError
  invalid_tree : PrefixCodeError → ComplexPrefixCodeError

pub data State : Type 0 where
  code_length_alphabet code_lengths : State
  repeat_extra : (symbol : ℕ) → State
  done : State

pub record ComplexPrefixCodeDecoder : Type 0 where
  pub alphabet_size : ℕ
  pub state : State
  pub fixed_decoder : CodeLengthValueDecoder
  pub code_length_index : ℕ
  pub code_length_lengths : List ℕ
  pub code_length_space : ℕ
  pub code_length_nonzero : ℕ
  pub code_length_code : Option PrefixCode.PrefixCode
  pub code_length_symbol : PrefixSymbolDecoder
  pub lengths : List ℕ
  pub symbol_index : ℕ
  pub previous_nonzero : ℕ
  pub repeat : ℕ
  pub repeat_code_length : ℕ
  pub nonzero_count : ℕ
  pub space : ℕ

-- For an alphabet of one symbol at least, and a skip of 0, 2 or 3.
unfoldable pub new : ℕ → ℕ → ComplexPrefixCodeDecoder
new alphabet_size skip = record {
  alphabet_size = alphabet_size;
  state = State.code_length_alphabet;
  fixed_decoder = fresh_value;
  code_length_index = skip;
  code_length_lengths = replicate 18 0;
  code_length_space = 32;
  code_length_nonzero = 0;
  code_length_code = none;
  code_length_symbol = fresh_symbol;
  lengths = replicate alphabet_size 0;
  symbol_index = 0;
  previous_nonzero = initial_repeated_code_length;
  repeat = 0;
  repeat_code_length = 0;
  nonzero_count = 0;
  space = code_space;
}

-- An error, with the decoder that it leaves.
abbrev pub Failure : Type 0
Failure = ComplexPrefixCodeError × ComplexPrefixCodeDecoder

abbrev pub Pushed : Type 0
Pushed = Result Failure ComplexPrefixCodeDecoder

abbrev pub Call : Type 0
Call = Outcome ComplexPrefixCodeDecoder (Result ComplexPrefixCodeError PrefixCode.PrefixCode)

-- The product is tested against `i32`, whose negative values stand for more than the space there is: they are
-- 0 in the decoder that the error leaves.
unfoldable pub consume_space : ComplexPrefixCodeDecoder → ℕ → ℕ → Pushed
consume_space d count l =
    let used = count * (code_space / 2 ^ l) in
    if leb (2 ^ 31) count || leb (2 ^ 31) used
    then err (ComplexPrefixCodeError.repeat_overflow, d)
    else if ltb d.space used
    then err
        (ComplexPrefixCodeError.invalid_tree PrefixCodeError.oversubscribed, record d { space = 0 })
    else ok (record d { space = d.space - used })

unfoldable pub push_length : ComplexPrefixCodeDecoder → ℕ → Pushed
push_length d l =
    let pushed = record d {
      repeat = 0;
      lengths = set d.lengths d.symbol_index l;
      symbol_index = d.symbol_index + 1;
    } in
    if l == 0
    then ok pushed
    else consume_space (record pushed { previous_nonzero = l; nonzero_count = d.nonzero_count + 1 })
        1 l

-- `self.lengths[start..end].fill(l)`
unfoldable pub fill_lengths : List ℕ → ℕ → ℕ → ℕ → List ℕ
fill_lengths lengths start end l =
    take start lengths ++ (replicate (end - start) l ++ drop end lengths)

-- The new repeat count for the old one: `none` is a count below zero.
unfoldable pub next_repeat : ℕ → ℕ → ℕ → Option ℕ
next_repeat old extra_bits extra =
    if old == 0
    then some (extra + 3)
    else if ltb old 2
    then none
    else some ((old - 2) * 2 ^ extra_bits + (extra + 3))

abbrev pub repeat_to : ComplexPrefixCodeDecoder → ℕ → ℕ → ℕ → Pushed
repeat_to d l old total =
    let delta = total - old in
    let end = d.symbol_index + delta in
    if ltb total old
    then err (ComplexPrefixCodeError.repeat_overflow, d)
    else if ltb d.alphabet_size end
    then err (ComplexPrefixCodeError.repeat_past_alphabet, d)
    else (let filled = record d {
      lengths = fill_lengths d.lengths d.symbol_index end l;
      symbol_index = end;
      repeat = total;
    } in
        if l == 0
        then ok filled
        else consume_space (record filled { nonzero_count = d.nonzero_count + delta }) delta l)

abbrev pub repeat_with : ComplexPrefixCodeDecoder → ℕ → ℕ → Option ℕ → Pushed
repeat_with d l old none = err (ComplexPrefixCodeError.repeat_overflow, d)
repeat_with d l old (some total) = repeat_to d l old total

-- `checked_add` and `checked_shl` on a `usize` do not fail: the repeat count is at most the alphabet's size.
unfoldable pub push_repeat : ComplexPrefixCodeDecoder → ℕ → ℕ → Pushed
push_repeat d symbol extra =
    let l = if symbol == 16 then d.previous_nonzero else 0 in
    let old = if d.repeat_code_length == l then d.repeat else 0 in
    repeat_with (record d { repeat = old; repeat_code_length = l }) l old
      (next_repeat old (symbol - 14) extra)

unfoldable pub finish : ComplexPrefixCodeDecoder → Source → Call
finish d src =
    if ltb d.nonzero_count 2
    then ready (err ComplexPrefixCodeError.too_few_symbols) d src
    else match_result (from_code_lengths d.lengths)
        (λ e. ready (err (ComplexPrefixCodeError.invalid_tree e)) d src)
        (λ code. ready (ok code) (record d { state = State.done }) src)

-- What one round of `CodeLengths` does with its symbol, and the rounds after it.
abbrev pub repeat_arm :
    (ComplexPrefixCodeDecoder → Source → Call) → ℕ → ComplexPrefixCodeDecoder → Source → Call
repeat_arm rest symbol d src = read_then (symbol - 14) d src λ extra src'.
    match_result (push_repeat d symbol extra) (λ f. ready (err f.0) f.1 src')
      (λ pushed. rest (record pushed { state = State.code_lengths }) src')

abbrev pub symbol_arm :
    (ComplexPrefixCodeDecoder → Source → Call) → ℕ → ComplexPrefixCodeDecoder → Source → Call
symbol_arm rest symbol d src =
    if leb symbol 15
    then match_result (push_length d (u8 symbol)) (λ f. ready (err f.0) f.1 src)
        (λ pushed. rest pushed src)
    else if leb symbol 17
    then repeat_arm rest (u8 symbol) (record d { state = State.repeat_extra (u8 symbol) }) src
    else panicked

-- A round that reads a symbol, for a code-length code that is there.
abbrev pub length_round :
    (ComplexPrefixCodeDecoder → Source → Call) → ComplexPrefixCodeDecoder → Source → Call
length_round rest d src = expect d.code_length_code panicked λ code.
    call_then (λ s. record d { code_length_symbol = s })
      (PrefixCode.decode code d.code_length_symbol src)
      (λ symbol s src'. symbol_arm rest symbol (record d { code_length_symbol = s }) src')

-- `CodeLengths`, by the code lengths that are left at most: each round fills in one at least.
unfoldable pub lengths_loop : ℕ → ComplexPrefixCodeDecoder → Source → Call
lengths_loop zero d src =
    if d.space == 0
    then finish d src
    else if d.symbol_index == d.alphabet_size
    then ready (err ComplexPrefixCodeError.unused_code_space) d src
    else panicked
lengths_loop (suc left) d src =
    if d.space == 0
    then finish d src
    else if d.symbol_index == d.alphabet_size
    then ready (err ComplexPrefixCodeError.unused_code_space) d src
    else length_round (lengths_loop left) d src

unfoldable pub lengths_arm : ComplexPrefixCodeDecoder → Source → Call
lengths_arm d src = lengths_loop (d.alphabet_size - d.symbol_index) d src

unfoldable pub after_alphabet : ComplexPrefixCodeDecoder → Source → Call
after_alphabet d src =
    if not (d.code_length_space == 0) && not (d.code_length_nonzero == 1)
    then ready (err ComplexPrefixCodeError.invalid_code_length_alphabet) d src
    else match_result (from_code_lengths d.code_length_lengths)
        (λ e. ready (err (ComplexPrefixCodeError.invalid_tree e)) d src)
        (λ code.
          lengths_arm (record d { code_length_code = some code; state = State.code_lengths }) src)

abbrev pub store_code_length : ComplexPrefixCodeDecoder → ℕ → ComplexPrefixCodeDecoder
store_code_length d l = record d {
  code_length_lengths =
      set d.code_length_lengths (get_or code_length_order d.code_length_index 0) l;
  code_length_index = d.code_length_index + 1;
}

-- The `while` of `CodeLengthAlphabet`, by the code lengths that are left.
unfoldable pub alphabet_loop : ℕ → ComplexPrefixCodeDecoder → Source → Call
alphabet_loop zero d src = after_alphabet d src
alphabet_loop (suc left) d src =
    if d.code_length_space == 0
    then after_alphabet d src
    else call_then (λ f. record d { fixed_decoder = f }) (decode_value d.fixed_decoder src)
        λ l f src'.
          let stored = store_code_length (record d { fixed_decoder = f }) l in
          let counted = record stored {
            code_length_nonzero = d.code_length_nonzero + 1;
            code_length_space = d.code_length_space - 32 / 2 ^ l;
          } in
          let rest_zero = alphabet_loop left stored src' in
          let rest = alphabet_loop left counted src' in
          if l == 0
          then rest_zero
          else if ltb d.code_length_space (32 / 2 ^ l)
          then ready (err ComplexPrefixCodeError.invalid_code_length_alphabet) stored src'
          else rest

unfoldable pub alphabet_arm : ComplexPrefixCodeDecoder → Source → Call
alphabet_arm d src = alphabet_loop (18 - d.code_length_index) d src

unfoldable pub repeat_extra_arm : ℕ → ComplexPrefixCodeDecoder → Source → Call
repeat_extra_arm symbol d src = repeat_arm lengths_arm symbol d src

unfoldable pub decode : ComplexPrefixCodeDecoder → Source → Call
decode d src = elim d.state [
  | State.code_length_alphabet ↦ alphabet_arm d src
  | State.code_lengths ↦ lengths_arm d src
  | State.repeat_extra symbol ↦ repeat_extra_arm symbol d src
  | State.done ↦ panicked
]
