-- ===== src/Decode/ContextMap/Resume.antt =====
-- `ContextMapDecoder` on an input that is cut into slices.
use mathlib.Core.Path.{fun_ext}
use brutli.Prelude.{
  ℕ, zero, suc, ◌+◌, ◌-◌, ◌^◌, ◌≤◌, ◌<◌, ◌≡◌, refl, sym, ◌∙◌, subst, inl, inr, arith, false, Option,
  none, some, [], ◌∷◌, ◌++◌, ◌==◌, ltb, leb, Bool-cases, ==→ne, ltb→lt, ltb→le, length, replicate,
  u8,
}
use brutli.Prelude.Pow.{two-pow-pos}
use brutli.Decode.BitReader.{Source}
use brutli.Decode.Outcome.{
  Resumes, read_then-Resumes, if-Resumes, ready-Resumes, panicked-Resumes, call_then-Resumes,
  try_call-Resumes,
}
use brutli.Decode.PrefixCode as PrefixCode
use brutli.Decode.PrefixCode.Resume.{prefix_code-Resumes}
use brutli.Decode.PrefixCodeDecoder as PrefixCodeDecoder
use brutli.Decode.PrefixCodeDecoder.Resume.{prefix_code_decoder-Resumes}
use brutli.Decode.ContextMap.Advance.{
  repeated-length, pushed-length, repeat_arm-agree, entries_loop-enough,
}
use brutli.Decode.ContextMap.{
  State, ContextMapDecoder, ContextMapError, push_entry, transform_arm, repeat_arm, symbol_arm,
  entry_round, entries_loop, entries_arm, repeat_bits_arm, prefix_code_arm, rle_value_arm,
  rle_flag_arm, initialize_prefix_decoder, decode,
}

transform-Resumes :
    (d : ContextMapDecoder) → Resumes decode (transform_arm (record d { state = State.transform }))
unfolding transform_arm decode
transform-Resumes d =
    read_then-Resumes decode 1 (record d { state = State.transform }) _ (λ src. refl)
      (λ bit. ready-Resumes decode _ _)

round-decode :
    (left : ℕ) (d : ContextMapDecoder) (src : Source)
    → (length d.map == d.size) ≡ false
    → length d.map ≤ d.size
    → d.size ≤ length d.map + suc left
    → decode (record d { state = State.entries }) src
      ≡ entry_round (entries_loop left) (record d { state = State.entries }) src
unfolding decode entries_arm entries_loop
round-decode left d src more le enough =
    entries_loop-enough (d.size - length d.map) (suc left) (record d { state = State.entries }) src
      le (omega arith) enough
    ∙ rw more refl

repeat-decode :
    (left bits : ℕ) (d : ContextMapDecoder) (src : Source)
    → d.size ≤ length d.map + suc left
    → decode (record d { state = State.repeat bits }) src
      ≡ repeat_arm (entries_loop left) bits (record d { state = State.repeat bits }) src
unfolding decode repeat_bits_arm entries_arm
repeat-decode left bits d src enough =
    repeat_arm-agree entries_arm (entries_loop left) bits (record d { state = State.repeat bits })
      src
      (λ d' size more inside src'.
        entries_loop-enough (d'.size - length d'.map) left d' src' (omega arith) (omega arith)
          (omega arith))

abbrev LoopResumes : ℕ → Type 0
LoopResumes left =
    (d : ContextMapDecoder)
    → length d.map ≤ d.size
    → d.size ≤ length d.map + left
    → Resumes decode (entries_loop left (record d { state = State.entries }))

repeat-Resumes :
    (left bits : ℕ) (d : ContextMapDecoder)
    → LoopResumes left
    → d.size ≤ length d.map + suc left
    → Resumes decode (repeat_arm (entries_loop left) bits (record d { state = State.repeat bits }))
repeat-Resumes left bits d loop enough =
    read_then-Resumes decode bits (record d { state = State.repeat bits }) _
      (λ src. repeat-decode left bits d src enough)
      (λ extra. elim (Bool-cases (ltb d.size (length d.map + (2 ^ bits + extra)))) [
        | inl past ↦ rw past (ready-Resumes decode _ _)
        | inr fits ↦
            let le = ltb→le d.size (length d.map + (2 ^ bits + extra)) fits in
            let grown = repeated-length d.map (2 ^ bits + extra) in
            let pos = two-pow-pos bits in
            rw fits (
              loop (record d { map = d.map ++ replicate (2 ^ bits + extra) 0 }) (omega arith)
                (omega arith))
      ])

symbol-Resumes :
    (left symbol : ℕ) (d : ContextMapDecoder)
    → LoopResumes left
    → length d.map < d.size
    → d.size ≤ length d.map + suc left
    → Resumes decode (symbol_arm (entries_loop left) symbol (record d { state = State.entries }))
symbol-Resumes left symbol d loop less enough = if-Resumes decode (symbol == 0) _ _ (pushed 0) (
    if-Resumes decode (leb symbol d.rle_max) _ _ (repeat-Resumes left (u8 symbol) d loop enough)
      (pushed (u8 (symbol - d.rle_max))))
  where
    pushed :
        (entry : ℕ)
        → Resumes decode (entries_loop left (push_entry (record d { state = State.entries }) entry))
    pushed entry =
        let grown = pushed-length d.map entry in
        loop (record d { map = d.map ++ (entry ∷ []) }) (omega arith) (omega arith)

round-Resumes :
    (left : ℕ) (d : ContextMapDecoder)
    → LoopResumes left
    → (length d.map == d.size) ≡ false
    → length d.map ≤ d.size
    → d.size ≤ length d.map + suc left
    → Resumes decode (entry_round (entries_loop left) (record d { state = State.entries }))
round-Resumes left d loop more le enough = go d.prefix_code
  where
    go :
        (o : Option PrefixCode.PrefixCode)
        → Resumes decode
            (entry_round (entries_loop left) (record d { state = State.entries; prefix_code = o }))
    go none = panicked-Resumes decode
    go (some code) =
        call_then-Resumes decode
          (λ s. record d { state = State.entries; prefix_code = some code; symbol_decoder = s })
          (PrefixCode.decode code) (PrefixCode.decode code d.symbol_decoder) _
          (prefix_code-Resumes code d.symbol_decoder)
          (λ s src.
            round-decode left (record d { prefix_code = some code; symbol_decoder = s }) src more le
              enough)
          (λ symbol s.
            symbol-Resumes left symbol (record d { prefix_code = some code; symbol_decoder = s })
              loop (let ne = ==→ne (length d.map) d.size more in omega arith) enough)

spent-Resumes :
    (d : ContextMapDecoder)
    → Resumes decode (entries_loop zero (record d { state = State.entries }))
unfolding entries_loop
spent-Resumes d =
    if-Resumes decode (length d.map == d.size) _ _ (transform-Resumes d) (panicked-Resumes decode)

loop-Resumes : (left : ℕ) → LoopResumes left
unfolding entries_loop
loop-Resumes zero d le enough = spent-Resumes d
loop-Resumes (suc left) d le enough = elim (Bool-cases (length d.map == d.size)) [
  | inl full ↦ rw full (transform-Resumes d)
  | inr more ↦ rw more (round-Resumes left d (loop-Resumes left) more le enough)
]

entries-Resumes :
    (d : ContextMapDecoder) → Resumes decode (entries_arm (record d { state = State.entries }))
unfolding entries_arm
entries-Resumes d = elim (Bool-cases (ltb d.size (length d.map))) [
  | inl past ↦
      let less = ltb→lt d.size (length d.map) past in
      let none_left : d.size - length d.map ≡ zero = omega arith in rw none_left (spent-Resumes d)
  | inr inside ↦
      let le = ltb→le d.size (length d.map) inside in
      loop-Resumes (d.size - length d.map) d le (omega arith)
]

repeat_bits-Resumes :
    (bits : ℕ) (d : ContextMapDecoder)
    → Resumes decode (decode (record d { state = State.repeat bits }))
repeat_bits-Resumes bits d =
    let left = d.size - length d.map in
    let enough : d.size ≤ length d.map + suc left = omega arith in
    subst (Resumes decode) (sym (fun_ext λ src. repeat-decode left bits d src enough))
      (repeat-Resumes left bits d (loop-Resumes left) enough)

prefix_code-arm-Resumes :
    (d : ContextMapDecoder)
    → Resumes decode (prefix_code_arm (record d { state = State.prefix_code }))
unfolding prefix_code_arm decode
prefix_code-arm-Resumes d = go d.prefix_decoder
  where
    go :
        (o : Option PrefixCodeDecoder.PrefixCodeDecoder)
        → Resumes decode
            (prefix_code_arm (record d { state = State.prefix_code; prefix_decoder = o }))
    go none = panicked-Resumes decode
    go (some inner) =
        try_call-Resumes decode
          (λ s. record d { state = State.prefix_code; prefix_decoder = some s })
          ContextMapError.in_prefix_code PrefixCodeDecoder.decode (PrefixCodeDecoder.decode inner) _
          (prefix_code_decoder-Resumes inner) (λ s src. refl)
          (λ code s. entries-Resumes (record d { prefix_decoder = none; prefix_code = some code }))

rle_value-Resumes :
    (d : ContextMapDecoder) → Resumes decode (rle_value_arm (record d { state = State.rle_value }))
unfolding rle_value_arm decode
rle_value-Resumes d =
    read_then-Resumes decode 4 (record d { state = State.rle_value }) _ (λ src. refl)
      (λ bits.
        prefix_code-arm-Resumes (initialize_prefix_decoder (record d { rle_max = u8 bits + 1 })))

rle_flag-Resumes :
    (d : ContextMapDecoder) → Resumes decode (rle_flag_arm (record d { state = State.rle_flag }))
unfolding rle_flag_arm decode
rle_flag-Resumes d =
    read_then-Resumes decode 1 (record d { state = State.rle_flag }) _ (λ src. refl)
      (λ bit.
        if-Resumes decode (bit == 0) _ _ (prefix_code-arm-Resumes (initialize_prefix_decoder d))
          (rle_value-Resumes d))

-- From any state, a call on a slice and a second call on what follows it come to what one call on both
-- together gives.
pub context_map-Resumes : (d : ContextMapDecoder) → Resumes decode (decode d)
unfolding decode
context_map-Resumes d = by_state d.state
  where
    by_state : (s : State) → Resumes decode (decode (record d { state = s }))
    by_state State.rle_flag = rle_flag-Resumes d
    by_state State.rle_value = rle_value-Resumes d
    by_state State.prefix_code = prefix_code-arm-Resumes d
    by_state State.entries = entries-Resumes d
    by_state (State.repeat bits) = repeat_bits-Resumes bits d
    by_state State.transform = transform-Resumes d
    by_state State.done = panicked-Resumes decode
