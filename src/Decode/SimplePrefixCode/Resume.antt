-- ===== src/Decode/SimplePrefixCode/Resume.antt =====
-- `SimplePrefixCodeDecoder` on an input that is cut into slices.
use brutli.Prelude.{
  ℕ, zero, suc, ◌+◌, ◌-◌, ◌≡◌, refl, ap, arith, List, Bool, Option, none, some, not, ◌==◌, leb,
  take, set, u8, u16,
}
use brutli.Decode.Outcome.{
  Resumes, read_then-Resumes, if-Resumes, ready-Resumes, panicked-Resumes, match_result-Resumes,
}
use brutli.Decode.SimplePrefixCode.{
  State, SimplePrefixCodeDecoder, decode, finish, finish_shape, shape, after_symbols, symbols_loop,
  symbols_arm, symbol_count_arm, tree_select_arm, contains, code_of,
}

finish_shape-Resumes :
    (d : SimplePrefixCodeDecoder) (o : Option (List ℕ)) → Resumes decode (finish_shape d o)
finish_shape-Resumes d none = panicked-Resumes decode
finish_shape-Resumes d (some code_lengths) =
    match_result-Resumes decode (code_of d code_lengths) _ _ (λ e. ready-Resumes decode _ _)
      (λ code. ready-Resumes decode _ _)

finish-Resumes : (d : SimplePrefixCodeDecoder) (b : Bool) → Resumes decode (finish d b)
unfolding finish
finish-Resumes d b =
    if-Resumes decode (d.symbol_count == 1) _ _ (ready-Resumes decode _ _)
      (finish_shape-Resumes d (shape d.symbol_count b))

tree_select-Resumes :
    (d : SimplePrefixCodeDecoder)
    → Resumes decode (tree_select_arm (record d { state = State.tree_select }))
unfolding tree_select_arm decode
tree_select-Resumes d =
    read_then-Resumes decode 1 (record d { state = State.tree_select }) _ (λ src. refl)
      (λ bit. finish-Resumes (record d { state = State.tree_select }) (not (bit == 0)))

symbols_loop-Resumes :
    (rounds : ℕ) (d : SimplePrefixCodeDecoder)
    → d.symbol_count - d.symbols_read ≡ rounds
    → Resumes decode (symbols_loop rounds (record d { state = State.symbols }))
unfolding symbols_loop decode symbols_arm after_symbols
symbols_loop-Resumes zero d h =
    if-Resumes decode (d.symbol_count == 4) _ _ (tree_select-Resumes d)
      (finish-Resumes (record d { state = State.symbols }) _)
symbols_loop-Resumes (suc rounds) d h =
    read_then-Resumes decode d.alphabet_bits (record d { state = State.symbols }) _
      (λ src. ap (λ r. symbols_loop r (record d { state = State.symbols }) src) h)
      (λ bits. if-Resumes decode (leb d.alphabet_size (u16 bits)) _ _ (ready-Resumes decode _ _) (
        if-Resumes decode (contains (take d.symbols_read d.symbols) (u16 bits)) _ _
          (ready-Resumes decode _ _)
          (symbols_loop-Resumes rounds
            (record d {
              symbols = set d.symbols d.symbols_read (u16 bits);
              symbols_read = d.symbols_read + 1;
            })
            (omega arith))))

symbol_count-Resumes :
    (d : SimplePrefixCodeDecoder)
    → Resumes decode (symbol_count_arm (record d { state = State.symbol_count }))
unfolding symbol_count_arm symbols_arm decode
symbol_count-Resumes d =
    read_then-Resumes decode 2 (record d { state = State.symbol_count }) _ (λ src. refl)
      (λ bits.
        symbols_loop-Resumes (u8 bits + 1 - 0)
          (record d { symbol_count = u8 bits + 1; symbols_read = 0 }) refl)

-- From any state, a call on a slice and a second call on what follows it come to what one call on both
-- together gives.
pub simple-Resumes : (d : SimplePrefixCodeDecoder) → Resumes decode (decode d)
unfolding decode symbols_arm
simple-Resumes d = by_state d.state
  where
    by_state : (s : State) → Resumes decode (decode (record d { state = s }))
    by_state State.symbol_count = symbol_count-Resumes d
    by_state State.symbols = symbols_loop-Resumes (d.symbol_count - d.symbols_read) d refl
    by_state State.tree_select = tree_select-Resumes d
