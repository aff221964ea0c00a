-- ===== src/Decode/PrefixCode.antt =====
-- src/decode/prefix_code.rs: canonical prefix codes from their code lengths.
pub mod Resume
use brutli.Prelude.{
  ℕ, zero, suc, ◌+◌, ◌-◌, ◌*◌, ◌^◌, max, bit_or, Bool, ◌&&◌, not, Option, none, some, List, [], ◌∷◌,
  if◌then◌else◌, ◌==◌, ltb, leb, length, get_or, set, take, drop, replicate, shl_u16, u16, Result,
  ok, err,
}
use brutli.Decode.BitReader.{Source}
use brutli.Decode.Outcome.{Outcome, ready, panicked, read_then}

abbrev pub max_code_bits : ℕ
max_code_bits = 15

pub data PrefixCodeError : Type 0 where
  empty invalid_code_length incomplete oversubscribed : PrefixCodeError

-- `counts`, `first_code` and `first_symbol` are arrays of 16.
pub record CanonicalCode : Type 0 where
  pub counts : List ℕ
  pub first_code : List ℕ
  pub first_symbol : List ℕ
  pub symbols : List ℕ
  pub max_len : ℕ

pub data PrefixCode : Type 0 where
  single : ℕ → PrefixCode
  canonical : CanonicalCode → PrefixCode

pub record PrefixSymbolDecoder : Type 0 where
  pub code : ℕ
  pub length : ℕ

abbrev pub fresh_symbol : PrefixSymbolDecoder
fresh_symbol = record { code = 0; length = 0 }

-- `counts`, `non_zero` and `max_len` after the first loop.
pub record Tally : Type 0 where
  pub counts : List ℕ
  pub non_zero : ℕ
  pub max_len : ℕ

unfoldable pub tally : List ℕ → Tally → Result PrefixCodeError Tally
tally [] t = ok t
tally (l ∷ lengths) t =
    let counted : Tally = record {
      counts = set t.counts l (get_or t.counts l 0 + 1);
      non_zero = t.non_zero + 1;
      max_len = max t.max_len l;
    } in
    let rest = tally lengths (if l == 0 then t else counted) in
    if ltb max_code_bits l then err PrefixCodeError.invalid_code_length else rest

-- The sum over the lengths from `l` on, in units of the longest code.
unfoldable pub used_space : ℕ → List ℕ → ℕ
used_space l [] = 0
used_space l (count ∷ counts) = count * 2 ^ (max_code_bits - l) + used_space (suc l) counts

unfoldable pub first_codes : ℕ → List ℕ → List ℕ
first_codes next [] = []
first_codes next (count ∷ counts) =
    let code = shl_u16 (next + count) 1 in code ∷ first_codes code counts

unfoldable pub first_symbols : ℕ → List ℕ → List ℕ
first_symbols offset [] = []
first_symbols offset (count ∷ counts) = offset ∷ first_symbols (offset + count) counts

-- The last loop: each symbol goes to the next free place of its length.
unfoldable pub place_symbols : ℕ → List ℕ → List ℕ → List ℕ → List ℕ
place_symbols symbol [] next_symbol symbols = symbols
place_symbols symbol (l ∷ lengths) next_symbol symbols =
    let index = get_or next_symbol l 0 in
    if l == 0
    then place_symbols (suc symbol) lengths next_symbol symbols
    else place_symbols (suc symbol) lengths (set next_symbol l (index + 1))
        (set symbols index (u16 symbol))

abbrev pub canonical_of : List ℕ → Tally → CanonicalCode
canonical_of lengths t =
    let starts = 0 ∷ first_symbols 0 (drop 1 t.counts) in
    record {
      counts = t.counts;
      first_code = 0 ∷ first_codes 0 (take max_code_bits t.counts);
      first_symbol = starts;
      symbols = place_symbols 0 lengths starts (replicate t.non_zero 0);
      max_len = t.max_len;
    }

abbrev pub checked : List ℕ → Result PrefixCodeError Tally → Result PrefixCodeError CanonicalCode
checked lengths (err e) = err e
checked lengths (ok t) =
    let used = used_space 1 (drop 1 t.counts) in
    if t.non_zero == 0
    then err PrefixCodeError.empty
    else if ltb used (2 ^ max_code_bits)
    then err PrefixCodeError.incomplete
    else if ltb (2 ^ max_code_bits) used
    then err PrefixCodeError.oversubscribed
    else ok (canonical_of lengths t)

-- `CanonicalCode::from_code_lengths`
unfoldable pub canonical_from_lengths : List ℕ → Result PrefixCodeError CanonicalCode
canonical_from_lengths lengths =
    checked lengths (
      tally lengths
        (record { counts = replicate (max_code_bits + 1) 0; non_zero = 0; max_len = 0 }))

unfoldable pub count_non_zero : List ℕ → ℕ
count_non_zero [] = 0
count_non_zero (l ∷ lengths) =
    if l == 0 then count_non_zero lengths else suc (count_non_zero lengths)

-- `position`, from `index` on, for lengths one of which is not zero.
unfoldable pub position_non_zero : ℕ → List ℕ → ℕ
position_non_zero index [] = index
position_non_zero index (l ∷ lengths) =
    if l == 0 then position_non_zero (suc index) lengths else index

abbrev pub wrap_canonical : Result PrefixCodeError CanonicalCode → Result PrefixCodeError PrefixCode
wrap_canonical (err e) = err e
wrap_canonical (ok c) = ok (PrefixCode.canonical c)

unfoldable pub from_code_lengths : List ℕ → Result PrefixCodeError PrefixCode
from_code_lengths lengths =
    let non_zero = count_non_zero lengths in
    if non_zero == 0
    then err PrefixCodeError.empty
    else if non_zero == 1
    then ok (PrefixCode.single (u16 (position_non_zero 0 lengths)))
    else wrap_canonical (canonical_from_lengths lengths)

-- `count != 0 && state.code >= first && state.code - first < count`
abbrev pub matches : CanonicalCode → ℕ → ℕ → Bool
matches c code l =
    let count = get_or c.counts l 0 in
    let first = get_or c.first_code l 0 in
    not (count == 0) && (leb first code && ltb (code - first) count)

abbrev pub symbol_of : CanonicalCode → ℕ → ℕ → ℕ
symbol_of c code l =
    get_or c.symbols (get_or c.first_symbol l 0 + (code - get_or c.first_code l 0)) 0

abbrev pub next_code : PrefixSymbolDecoder → ℕ → ℕ
next_code state bit = bit_or (shl_u16 state.code 1) bit

-- The loop of `CanonicalCode::decode`, with the lengths that are left: past 15 bits, the index into
-- `counts` is out of bounds.
unfoldable pub decode_canonical :
    ℕ → CanonicalCode → PrefixSymbolDecoder → Source → Outcome PrefixSymbolDecoder ℕ
decode_canonical zero c state src = read_then 1 state src λ bit src'. panicked
decode_canonical (suc lengths) c state src = read_then 1 state src λ bit src'.
    let code = next_code state bit in
    let l = state.length + 1 in
    let rest = decode_canonical lengths c (record { code = code; length = l }) src' in
    if matches c code l then ready (symbol_of c code l) fresh_symbol src' else rest

unfoldable pub decode : PrefixCode → PrefixSymbolDecoder → Source → Outcome PrefixSymbolDecoder ℕ
decode (PrefixCode.single symbol) state src = ready symbol state src
decode (PrefixCode.canonical c) state src =
    decode_canonical (max_code_bits - state.length) c state src
