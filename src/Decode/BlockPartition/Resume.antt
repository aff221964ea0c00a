-- ===== src/Decode/BlockPartition/Resume.antt =====
-- Block lengths and `BlockPartitionDecoder` on an input that is cut into slices.
use brutli.Prelude.{
  Bool-cases, inl, inr, ltb, ℕ, ◌≡◌, refl, inl, inr, false, Option, none, some, ◌==◌, u8,
  Bool-cases,
}
use brutli.Decode.BitReader.{Source}
use brutli.Decode.Outcome.{
  Resumes, read_then-Resumes, ready-Resumes, panicked-Resumes, call_then-Resumes, try_call-Resumes,
}
use brutli.Decode.PrefixCode as PrefixCode
use brutli.Decode.PrefixCode.Resume.{prefix_code-Resumes}
use brutli.Decode.PrefixCodeDecoder as PrefixCodeDecoder
use brutli.Decode.PrefixCodeDecoder.Resume.{prefix_code_decoder-Resumes}
use brutli.Decode.BlockPartition.{
  BlockLengthDecoder, length_of_symbol, decode_length, State, BlockPartitionDecoder,
  first_length_arm, length_code_arm, type_code_arm, by_state, decode,
}

length_of_symbol-Resumes :
    (code : PrefixCode.PrefixCode) (symbol : ℕ) (d : BlockLengthDecoder)
    → Resumes
        (decode_length code)
        (length_of_symbol symbol (record d { pending_symbol = some symbol }))
unfolding length_of_symbol decode_length
length_of_symbol-Resumes code symbol d = elim (Bool-cases (ltb symbol 26)) [
  | inl listed ↦ rw listed (
      read_then-Resumes (decode_length code) _ (record d { pending_symbol = some symbol }) _
        (λ src. rw listed refl) (λ extra. ready-Resumes (decode_length code) _ _))
  | inr beyond ↦ rw beyond (panicked-Resumes (decode_length code))
]

-- From any state, `BlockLengthDecoder` on a slice and then on what follows it comes to what one call on both
-- together gives.
pub decode_length-Resumes :
    (code : PrefixCode.PrefixCode) (d : BlockLengthDecoder)
    → Resumes (decode_length code) (decode_length code d)
unfolding decode_length
decode_length-Resumes code d = go d.pending_symbol
  where
    go :
        (o : Option ℕ)
        → Resumes (decode_length code) (decode_length code (record d { pending_symbol = o }))
    go none =
        call_then-Resumes (decode_length code)
          (λ s. record { symbol_decoder = s; pending_symbol = none }) (PrefixCode.decode code)
          (PrefixCode.decode code d.symbol_decoder) _ (prefix_code-Resumes code d.symbol_decoder)
          (λ s src. refl)
          (λ symbol s. length_of_symbol-Resumes code (u8 symbol) (record d { symbol_decoder = s }))
    go (some symbol) = length_of_symbol-Resumes code symbol d

-- The arms for more than one type.
decode-by_state :
    (d : BlockPartitionDecoder) (src : Source)
    → (d.num_types == 1) ≡ false
    → decode d src ≡ by_state d src
unfolding decode
decode-by_state d src multiple = rw multiple refl

first_length-Resumes :
    (d : BlockPartitionDecoder)
    → (d.num_types == 1) ≡ false
    → Resumes decode (first_length_arm (record d { state = State.first_length }))
unfolding first_length_arm by_state
first_length-Resumes d multiple = go d.length_code
  where
    go :
        (o : Option PrefixCode.PrefixCode)
        → Resumes decode
            (first_length_arm (record d { state = State.first_length; length_code = o }))
    go none = panicked-Resumes decode
    go (some code) =
        call_then-Resumes decode
          (λ b. record d { state = State.first_length; length_code = some code; block_length = b })
          (decode_length code) (decode_length code d.block_length) _
          (decode_length-Resumes code d.block_length) (λ b src. decode-by_state _ src multiple)
          (λ first b. ready-Resumes decode _ _)

length_code-Resumes :
    (d : BlockPartitionDecoder)
    → (d.num_types == 1) ≡ false
    → Resumes decode (length_code_arm (record d { state = State.length_code }))
unfolding length_code_arm by_state
length_code-Resumes d multiple = go d.length_decoder
  where
    go :
        (o : Option PrefixCodeDecoder.PrefixCodeDecoder)
        → Resumes decode
            (length_code_arm (record d { state = State.length_code; length_decoder = o }))
    go none = panicked-Resumes decode
    go (some inner) =
        try_call-Resumes decode
          (λ s. record d { state = State.length_code; length_decoder = some s }) (λ e. e)
          PrefixCodeDecoder.decode (PrefixCodeDecoder.decode inner) _
          (prefix_code_decoder-Resumes inner) (λ s src. decode-by_state _ src multiple)
          (λ code s.
            first_length-Resumes (record d { length_decoder = some s; length_code = some code })
              multiple)

type_code-Resumes :
    (d : BlockPartitionDecoder)
    → (d.num_types == 1) ≡ false
    → Resumes decode (type_code_arm (record d { state = State.type_code }))
unfolding type_code_arm by_state
type_code-Resumes d multiple = go d.type_decoder
  where
    go :
        (o : Option PrefixCodeDecoder.PrefixCodeDecoder)
        → Resumes decode (type_code_arm (record d { state = State.type_code; type_decoder = o }))
    go none = panicked-Resumes decode
    go (some inner) =
        try_call-Resumes decode (λ s. record d { state = State.type_code; type_decoder = some s })
          (λ e. e) PrefixCodeDecoder.decode (PrefixCodeDecoder.decode inner) _
          (prefix_code_decoder-Resumes inner) (λ s src. decode-by_state _ src multiple)
          (λ code s.
            length_code-Resumes (record d { type_decoder = some s; type_code = some code })
              multiple)

by_state-Resumes :
    (d : BlockPartitionDecoder) → (d.num_types == 1) ≡ false → Resumes decode (by_state d)
unfolding by_state
by_state-Resumes d multiple = go d.state
  where
    go : (s : State) → Resumes decode (by_state (record d { state = s }))
    go State.type_code = type_code-Resumes d multiple
    go State.length_code = length_code-Resumes d multiple
    go State.first_length = first_length-Resumes d multiple
    go State.done = panicked-Resumes decode

-- From any state, a call on a slice and a second call on what follows it come to what one call on both
-- together gives.
pub partition-Resumes : (d : BlockPartitionDecoder) → Resumes decode (decode d)
unfolding decode
partition-Resumes d = elim (Bool-cases (d.num_types == 1)) [
  | inl one ↦ rw one (ready-Resumes decode _ _)
  | inr multiple ↦ rw multiple (by_state-Resumes d multiple)
]
