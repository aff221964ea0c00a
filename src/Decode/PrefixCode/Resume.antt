-- ===== src/Decode/PrefixCode/Resume.antt =====
-- The symbol decoder of prefix codes on an input that is cut into slices.
use brutli.Prelude.{ℕ, zero, suc, ◌+◌, ◌-◌, ◌≡◌, refl, ap, arith, List}
use brutli.Decode.BitReader.{Source, feed}
use brutli.Decode.Outcome.{
  ready, Resumes, Resumed, read_then-Resumes, if-Resumes, ready-Resumes, panicked-Resumes,
}
use brutli.Decode.PrefixCode.{
  PrefixCode, CanonicalCode, PrefixSymbolDecoder, decode_canonical, decode, fresh_symbol, next_code,
  matches, symbol_of,
}

module _ (c : CanonicalCode) where
  decode_canonical-Resumes :
      (lengths : ℕ) (state : PrefixSymbolDecoder)
      → 15 - state.length ≡ lengths
      → Resumes (decode (PrefixCode.canonical c)) (decode_canonical lengths c state)
  unfolding decode_canonical decode
  decode_canonical-Resumes zero state h =
      read_then-Resumes (decode (PrefixCode.canonical c)) 1 state _
        (λ src. ap (λ r. decode_canonical r c state src) h)
        (λ bit. panicked-Resumes (decode (PrefixCode.canonical c)))
  decode_canonical-Resumes (suc lengths) state h =
      read_then-Resumes (decode (PrefixCode.canonical c)) 1 state _
        (λ src. ap (λ r. decode_canonical r c state src) h)
        (λ bit.
          let code = next_code state bit in
          let l = state.length + 1 in
          if-Resumes (decode (PrefixCode.canonical c)) (matches c code l)
            (ready (symbol_of c code l) fresh_symbol)
            (decode_canonical lengths c (record { code = code; length = l }))
            (ready-Resumes (decode (PrefixCode.canonical c)) (symbol_of c code l) fresh_symbol)
            (decode_canonical-Resumes lengths (record { code = code; length = l }) (omega arith)))

-- For any prefix code and from any state of the symbol decoder, a call on a slice and a second call on what
-- follows it come to what one call on both together gives: the same symbol, state and unread input.
pub prefix_code-Resumes :
    (code : PrefixCode) (state : PrefixSymbolDecoder) (src : Source) (more : List ℕ)
    → Resumed (decode code) more (decode code state src) (decode code state (feed src more))
unfolding decode
prefix_code-Resumes (PrefixCode.single symbol) state src more = refl
prefix_code-Resumes (PrefixCode.canonical c) state src more =
    decode_canonical-Resumes c (15 - state.length) state refl src more
