-- ===== src/Decode/ComplexPrefixCode/Resume.antt =====
-- `ComplexPrefixCodeDecoder` on an input that is cut into slices.
use brutli.Prelude.{
  ℕ, zero, suc, ◌+◌, ◌-◌, ◌/◌, ◌^◌, ◌≤◌, ◌<◌, ◌≡◌, refl, ap, sym, ◌∙◌, inl, inr, arith, false, not,
  ◌&&◌, Option, none, some, ◌==◌, ltb, leb, Bool-cases, ==→ne, ltb→lt, ltb→le, subst, u8, ok, err,
}
use mathlib.Core.Path.{fun_ext}
use brutli.Decode.BitReader.{Source}
use brutli.Decode.Outcome.{
  Resumes, match_result, read_then-Resumes, if-Resumes, ready-Resumes, panicked-Resumes,
  call_then-Resumes, match_result-Resumes,
}
use brutli.Decode.PrefixCode as PrefixCode
use brutli.Decode.PrefixCode.{PrefixCodeError, PrefixSymbolDecoder, from_code_lengths}
use brutli.Decode.PrefixCode.Resume.{prefix_code-Resumes}
use brutli.Decode.ComplexPrefixCode.{
  decode_value, State, ComplexPrefixCodeDecoder, Failure, Pushed, Call, push_length, push_repeat,
  finish, repeat_arm, symbol_arm, length_round, lengths_loop, lengths_arm, after_alphabet,
  alphabet_loop, alphabet_arm, repeat_extra_arm, decode,
}
use brutli.Decode.ComplexPrefixCode.Value.{value-Resumes}
use brutli.Decode.ComplexPrefixCode.Advance.{
  OnOk, Advances, push_length-Advances, push_repeat-Advances, repeat_arm-agree, lengths_loop-enough,
}

finish-Resumes : (d : ComplexPrefixCodeDecoder) → Resumes decode (finish d)
unfolding finish
finish-Resumes d = if-Resumes decode (ltb d.nonzero_count 2) _ _ (ready-Resumes decode _ _) (
    match_result-Resumes decode (from_code_lengths d.lengths) _ _ (λ e. ready-Resumes decode _ _)
      (λ code. ready-Resumes decode _ _))

-- A phase that pushes code lengths resumes where the rest does from each state that is pushed.
pushed-Resumes :
    (s : State) {size index : ℕ} (r : Pushed) (f : Failure → Source → Call)
    (k : ComplexPrefixCodeDecoder → Source → Call)
    → OnOk (Advances size index s) r
    → ((e : Failure) → Resumes decode (f e))
    → ((d : ComplexPrefixCodeDecoder) → Advances size index s d → Resumes decode (k d))
    → Resumes decode (λ src. match_result r (λ e. f e src) (λ d. k d src))
pushed-Resumes s (err e) f k h p q = p e
pushed-Resumes s (ok d) f k h p q = q d h

-- A round in the state between two symbols is what `decode` does from there, whatever fuel is enough.
round-decode :
    (left : ℕ) (d : ComplexPrefixCodeDecoder) (src : Source)
    → d.state ≡ State.code_lengths
    → (d.space == 0) ≡ false
    → (d.symbol_index == d.alphabet_size) ≡ false
    → d.symbol_index ≤ d.alphabet_size
    → d.alphabet_size ≤ d.symbol_index + suc left
    → decode d src ≡ length_round (lengths_loop left) d src
unfolding decode lengths_arm lengths_loop
round-decode left d src at_lengths space more le enough =
    ap (λ s. decode (record d { state = s }) src) at_lengths
    ∙ (lengths_loop-enough (d.alphabet_size - d.symbol_index) (suc left)
          (record d { state = State.code_lengths }) src le (omega arith) enough
        ∙ (ap (λ s. lengths_loop (suc left) (record d { state = s }) src) (sym at_lengths)
            ∙ rw (space, more) refl))

repeat-decode :
    (left symbol : ℕ) (d : ComplexPrefixCodeDecoder) (src : Source)
    → d.alphabet_size ≤ d.symbol_index + suc left
    → decode (record d { state = State.repeat_extra symbol }) src
      ≡ repeat_arm (lengths_loop left) symbol (record d { state = State.repeat_extra symbol }) src
unfolding decode repeat_extra_arm lengths_arm
repeat-decode left symbol d src enough =
    repeat_arm-agree lengths_arm (lengths_loop left) symbol
      (record d { state = State.repeat_extra symbol }) src
      (λ d' alphabet more inside src'.
        lengths_loop-enough (d'.alphabet_size - d'.symbol_index) left d' src' (omega arith)
          (omega arith) (omega arith))

LoopResumes : ℕ → Type 0
LoopResumes left =
    (d : ComplexPrefixCodeDecoder)
    → d.state ≡ State.code_lengths
    → d.symbol_index ≤ d.alphabet_size
    → d.alphabet_size ≤ d.symbol_index + left
    → Resumes decode (lengths_loop left d)

repeat-Resumes :
    (left symbol : ℕ) (d : ComplexPrefixCodeDecoder)
    → LoopResumes left
    → d.alphabet_size ≤ d.symbol_index + suc left
    → Resumes decode
        (repeat_arm (lengths_loop left) symbol (record d { state = State.repeat_extra symbol }))
unfolding LoopResumes
repeat-Resumes left symbol d loop enough =
    read_then-Resumes decode (symbol - 14) (record d { state = State.repeat_extra symbol }) _
      (λ src. repeat-decode left symbol d src enough)
      (λ extra.
        pushed-Resumes (State.repeat_extra symbol)
          (push_repeat (record d { state = State.repeat_extra symbol }) symbol extra) _ _
          (push_repeat-Advances _ symbol extra) (λ e. ready-Resumes decode _ _)
          (λ pushed adv.
            loop (record pushed { state = State.code_lengths }) refl
              (omega (arith, adv.alphabet, adv.inside)) (omega (arith, adv.alphabet, adv.more))))

symbol-Resumes :
    (left symbol : ℕ) (d : ComplexPrefixCodeDecoder)
    → LoopResumes left
    → d.state ≡ State.code_lengths
    → d.symbol_index < d.alphabet_size
    → d.alphabet_size ≤ d.symbol_index + suc left
    → Resumes decode (symbol_arm (lengths_loop left) symbol d)
unfolding LoopResumes
symbol-Resumes left symbol d loop at_lengths less enough =
    if-Resumes decode (leb symbol 15) _ _
      (pushed-Resumes d.state (push_length d (u8 symbol)) _ _
        (push_length-Advances d (u8 symbol) less) (λ e. ready-Resumes decode _ _)
        (λ pushed adv.
          loop pushed (adv.phase ∙ at_lengths) (omega (arith, adv.alphabet, adv.inside))
            (omega (arith, adv.alphabet, adv.more))))
      (if-Resumes decode (leb symbol 17) _ _ (repeat-Resumes left (u8 symbol) d loop enough)
        (panicked-Resumes decode))

round-Resumes :
    (left : ℕ) (d : ComplexPrefixCodeDecoder)
    → LoopResumes left
    → d.state ≡ State.code_lengths
    → (d.space == 0) ≡ false
    → (d.symbol_index == d.alphabet_size) ≡ false
    → d.symbol_index ≤ d.alphabet_size
    → d.alphabet_size ≤ d.symbol_index + suc left
    → Resumes decode (length_round (lengths_loop left) d)
round-Resumes left d loop at_lengths space more le enough = go d.code_length_code refl
  where
    go :
        (o : Option PrefixCode.PrefixCode)
        → d.code_length_code ≡ o
        → Resumes decode (length_round (lengths_loop left) (record d { code_length_code = o }))
    go none e = panicked-Resumes decode
    go (some code) e =
        call_then-Resumes decode
          (λ s. record d { code_length_code = some code; code_length_symbol = s })
          (PrefixCode.decode code) (PrefixCode.decode code d.code_length_symbol) _
          (prefix_code-Resumes code d.code_length_symbol)
          (λ s src.
            round-decode left (record d { code_length_code = some code; code_length_symbol = s })
              src at_lengths space more le enough)
          (λ symbol s.
            symbol-Resumes left symbol
              (record d { code_length_code = some code; code_length_symbol = s }) loop at_lengths
              (let ne = ==→ne d.symbol_index d.alphabet_size more in omega arith) enough)

spent-Resumes : (d : ComplexPrefixCodeDecoder) → Resumes decode (lengths_loop zero d)
unfolding lengths_loop
spent-Resumes d = if-Resumes decode (d.space == 0) _ _ (finish-Resumes d) (
    if-Resumes decode (d.symbol_index == d.alphabet_size) _ _ (ready-Resumes decode _ _)
      (panicked-Resumes decode))

loop-Resumes : (left : ℕ) → LoopResumes left
unfolding lengths_loop LoopResumes
loop-Resumes zero d at_lengths le enough = spent-Resumes d
loop-Resumes (suc left) d at_lengths le enough = elim (Bool-cases (d.space == 0)) [
  | inl full ↦ rw full (finish-Resumes d)
  | inr space ↦ elim (Bool-cases (d.symbol_index == d.alphabet_size)) [
    | inl end ↦ rw (space, end) (ready-Resumes decode _ _)
    | inr more ↦
        rw (space, more) (round-Resumes left d (loop-Resumes left) at_lengths space more le enough)
  ]
]

lengths-Resumes :
    (d : ComplexPrefixCodeDecoder) → d.state ≡ State.code_lengths → Resumes decode (lengths_arm d)
unfolding lengths_arm LoopResumes
lengths-Resumes d at_lengths = elim (Bool-cases (ltb d.alphabet_size d.symbol_index)) [
  | inl past ↦
      let less = ltb→lt d.alphabet_size d.symbol_index past in
      let none_left : d.alphabet_size - d.symbol_index ≡ zero = omega arith in
      rw none_left (spent-Resumes d)
  | inr inside ↦
      let le = ltb→le d.alphabet_size d.symbol_index inside in
      loop-Resumes (d.alphabet_size - d.symbol_index) d at_lengths le (omega arith)
]

repeat_extra-Resumes :
    (symbol : ℕ) (d : ComplexPrefixCodeDecoder)
    → Resumes decode (decode (record d { state = State.repeat_extra symbol }))
repeat_extra-Resumes symbol d =
    let left = d.alphabet_size - d.symbol_index in
    let enough : d.alphabet_size ≤ d.symbol_index + suc left = omega arith in
    subst (Resumes decode) (sym (fun_ext λ src. repeat-decode left symbol d src enough))
      (repeat-Resumes left symbol d (loop-Resumes left) enough)

after_alphabet-Resumes : (d : ComplexPrefixCodeDecoder) → Resumes decode (after_alphabet d)
unfolding after_alphabet
after_alphabet-Resumes d =
    if-Resumes decode (not (d.code_length_space == 0) && not (d.code_length_nonzero == 1)) _ _
      (ready-Resumes decode _ _)
      (match_result-Resumes decode (from_code_lengths d.code_length_lengths) _ _
        (λ e. ready-Resumes decode _ _)
        (λ code.
          lengths-Resumes (record d { code_length_code = some code; state = State.code_lengths })
            refl))

alphabet-decode :
    (left : ℕ) (d : ComplexPrefixCodeDecoder) (src : Source)
    → d.state ≡ State.code_length_alphabet
    → 18 - d.code_length_index ≡ left
    → decode d src ≡ alphabet_loop left d src
unfolding alphabet_arm decode
alphabet-decode left d src at_alphabet h =
    ap (λ s. decode (record d { state = s }) src) at_alphabet
    ∙ (ap (λ r. alphabet_loop r (record d { state = State.code_length_alphabet }) src) h
        ∙ ap (λ s. alphabet_loop left (record d { state = s }) src) (sym at_alphabet))

alphabet_loop-Resumes :
    (left : ℕ) (d : ComplexPrefixCodeDecoder)
    → d.state ≡ State.code_length_alphabet
    → 18 - d.code_length_index ≡ left
    → Resumes decode (alphabet_loop left d)
unfolding alphabet_loop alphabet_arm decode
alphabet_loop-Resumes zero d at_alphabet h = after_alphabet-Resumes d
alphabet_loop-Resumes (suc left) d at_alphabet h = elim (Bool-cases (d.code_length_space == 0)) [
  | inl full ↦ rw full (after_alphabet-Resumes d)
  | inr space ↦ rw space (
      call_then-Resumes decode (λ f. record d { fixed_decoder = f }) decode_value
        (decode_value d.fixed_decoder) _ (value-Resumes d.fixed_decoder)
        (λ f src.
          alphabet-decode (suc left) (record d { fixed_decoder = f }) src at_alphabet h
          ∙ rw space refl)
        (λ l f.
          if-Resumes decode (l == 0) _ _ (alphabet_loop-Resumes left _ at_alphabet (omega arith)) (
            if-Resumes decode (ltb d.code_length_space (32 / 2 ^ l)) _ _ (ready-Resumes decode _ _)
              (alphabet_loop-Resumes left _ at_alphabet (omega arith)))))
]

-- From any state, a call on a slice and a second call on what follows it come to what one call on both
-- together gives.
pub complex-Resumes : (d : ComplexPrefixCodeDecoder) → Resumes decode (decode d)
unfolding decode alphabet_arm
complex-Resumes d = by_state d.state
  where
    by_state : (s : State) → Resumes decode (decode (record d { state = s }))
    by_state State.code_length_alphabet =
        alphabet_loop-Resumes (18 - d.code_length_index)
          (record d { state = State.code_length_alphabet }) refl refl
    by_state State.code_lengths = lengths-Resumes (record d { state = State.code_lengths }) refl
    by_state (State.repeat_extra symbol) = repeat_extra-Resumes symbol d
    by_state State.done = panicked-Resumes decode
