-- ===== src/Decode/SimplePrefixCode.antt =====
-- src/decode/simple_prefix_code.rs: a prefix code given by its one to four symbols.
pub mod Resume
use brutli.Prelude.{
  ℕ, zero, suc, ◌+◌, ◌-◌, Bool, true, false, not, Option, none, some, List, [], ◌∷◌, if◌then◌else◌,
  ◌==◌, ltb, leb, get_or, set, take, replicate, u8, u16, Result, ok, err,
}
use brutli.Prelude.Log.{bit_length}
use brutli.Decode.BitReader.{Source}
use brutli.Decode.Outcome.{Outcome, ready, panicked, read_then, match_result}
use brutli.Decode.PrefixCode.{PrefixCode, PrefixCodeError, from_code_lengths}

pub data SimplePrefixCodeError : Type 0 where
  invalid_symbol duplicate_symbol : SimplePrefixCodeError
  invalid_tree : PrefixCodeError → SimplePrefixCodeError

pub data State : Type 0 where
  symbol_count symbols tree_select : State

-- `symbols` is an array of four.
pub record SimplePrefixCodeDecoder : Type 0 where
  pub alphabet_size : ℕ
  pub alphabet_bits : ℕ
  pub state : State
  pub symbol_count : ℕ
  pub symbols_read : ℕ
  pub symbols : List ℕ

-- For an alphabet of one symbol at least, as the `assert!` says.
unfoldable pub new : ℕ → SimplePrefixCodeDecoder
new alphabet_size = record {
  alphabet_size = alphabet_size;
  alphabet_bits = bit_length 16 (alphabet_size - 1);
  state = State.symbol_count;
  symbol_count = 0;
  symbols_read = 0;
  symbols = replicate 4 0;
}

abbrev pub Call : Type 0
Call = Outcome SimplePrefixCodeDecoder (Result SimplePrefixCodeError PrefixCode)

unfoldable pub contains : List ℕ → ℕ → Bool
contains [] symbol = false
contains (s ∷ held) symbol = let rest = contains held symbol in if s == symbol then true else rest

-- The lengths of the symbols in their order; `none` is `unreachable!`.
abbrev pub shape : ℕ → Bool → Option (List ℕ)
shape count select =
    if count == 2
    then some (1 ∷ 1 ∷ 0 ∷ 0 ∷ [])
    else if count == 3
    then some (1 ∷ 2 ∷ 2 ∷ 0 ∷ [])
    else if count == 4
    then some (if select then 1 ∷ 2 ∷ 3 ∷ 3 ∷ [] else 2 ∷ 2 ∷ 2 ∷ 2 ∷ [])
    else none

-- `for index in 0..count { lengths[symbols[index]] = code_lengths[index] }`
unfoldable pub assign_lengths : List ℕ → List ℕ → List ℕ → List ℕ
assign_lengths [] code_lengths lengths = lengths
assign_lengths (symbol ∷ held) [] lengths = lengths
assign_lengths (symbol ∷ held) (l ∷ code_lengths) lengths =
    assign_lengths held code_lengths (set lengths symbol l)

abbrev pub code_of : SimplePrefixCodeDecoder → List ℕ → Result PrefixCodeError PrefixCode
code_of d code_lengths =
    from_code_lengths
      (assign_lengths (take d.symbol_count d.symbols) code_lengths (replicate d.alphabet_size 0))

abbrev pub reset : SimplePrefixCodeDecoder → SimplePrefixCodeDecoder
reset d = record d {
  state = State.symbol_count;
  symbol_count = 0;
  symbols_read = 0;
  symbols = replicate 4 0;
}

abbrev pub finish_with : SimplePrefixCodeDecoder → Result PrefixCodeError PrefixCode → Source → Call
finish_with d result src =
    match_result result (λ e. ready (err (SimplePrefixCodeError.invalid_tree e)) d src)
      (λ code. ready (ok code) (reset d) src)

abbrev pub finish_shape : SimplePrefixCodeDecoder → Option (List ℕ) → Source → Call
finish_shape d none src = panicked
finish_shape d (some code_lengths) src = finish_with d (code_of d code_lengths) src

unfoldable pub finish : SimplePrefixCodeDecoder → Bool → Source → Call
finish d select src =
    if d.symbol_count == 1
    then ready (ok (PrefixCode.single (get_or d.symbols 0 0))) (reset d) src
    else finish_shape d (shape d.symbol_count select) src

unfoldable pub tree_select_arm : SimplePrefixCodeDecoder → Source → Call
tree_select_arm d src = read_then 1 d src λ bit src'. finish d (not (bit == 0)) src'

unfoldable pub after_symbols : SimplePrefixCodeDecoder → Source → Call
after_symbols d src =
    if d.symbol_count == 4
    then tree_select_arm (record d { state = State.tree_select }) src
    else finish d false src

-- The `while` over the symbols that are left.
unfoldable pub symbols_loop : ℕ → SimplePrefixCodeDecoder → Source → Call
symbols_loop zero d src = after_symbols d src
symbols_loop (suc rounds) d src = read_then d.alphabet_bits d src λ bits src'.
    let next = record d {
      symbols = set d.symbols d.symbols_read (u16 bits);
      symbols_read = d.symbols_read + 1;
    } in
    let rest = symbols_loop rounds next src' in
    if leb d.alphabet_size (u16 bits)
    then ready (err SimplePrefixCodeError.invalid_symbol) d src'
    else if contains (take d.symbols_read d.symbols) (u16 bits)
    then ready (err SimplePrefixCodeError.duplicate_symbol) d src'
    else rest

unfoldable pub symbols_arm : SimplePrefixCodeDecoder → Source → Call
symbols_arm d src = symbols_loop (d.symbol_count - d.symbols_read) d src

unfoldable pub symbol_count_arm : SimplePrefixCodeDecoder → Source → Call
symbol_count_arm d src = read_then 2 d src λ bits src'.
    symbols_arm (record d { symbol_count = u8 bits + 1; symbols_read = 0; state = State.symbols })
      src'

unfoldable pub decode : SimplePrefixCodeDecoder → Source → Call
decode d src = elim d.state [
  | State.symbol_count ↦ symbol_count_arm d src
  | State.symbols ↦ symbols_arm d src
  | State.tree_select ↦ tree_select_arm d src
]
