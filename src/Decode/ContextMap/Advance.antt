-- ===== src/Decode/ContextMap/Advance.antt =====
-- What a round of `Entries` pushes, and the fuel of its loop.
use mathlib.Core.Path.{fun_ext}
use brutli.Prelude.{
  ℕ, zero, suc, ◌+◌, ◌-◌, ◌^◌, ◌≤◌, ◌<◌, ◌≡◌, refl, ap, inl, inr, arith, true, List, [], ◌∷◌, ◌++◌,
  ◌==◌, ltb, leb, Bool-cases, ==→ne, ltb→le, if◌then◌else◌, length, length-append, replicate,
  length-replicate, u8,
}
use brutli.Prelude.Pow.{two-pow-pos}
use brutli.Decode.BitReader.{Source}
use brutli.Decode.Outcome.{panicked, read_then, call_then, expect}
use brutli.Decode.PrefixCode as PrefixCode
use brutli.Decode.ContextMap.{
  State, ContextMapDecoder, Call, push_entry, transform_arm, repeat_arm, symbol_arm, entry_round,
  entries_loop,
}

-- Two continuations that agree on the maps that are longer than before, and not too long.
abbrev AgreeFrom :
    (ContextMapDecoder → Source → Call) → (ContextMapDecoder → Source → Call) → ℕ → ℕ → Type 0
AgreeFrom rest rest' size before =
    (d : ContextMapDecoder)
    → d.size ≡ size
    → before < length d.map
    → length d.map ≤ size
    → (src : Source) → rest d src ≡ rest' d src

pub repeated-length :
    (map : List ℕ) (count : ℕ) → length (map ++ replicate count 0) ≡ length map + count
repeated-length map count =
    omega (arith, length-append map (replicate count 0), length-replicate {A = ℕ} count 0)

pub pushed-length : (map : List ℕ) (entry : ℕ) → length (map ++ (entry ∷ [])) ≡ length map + 1
pushed-length map entry = omega (arith, length-append map (entry ∷ []))

module _ (rest rest' : ContextMapDecoder → Source → Call) where
  pub repeat_arm-agree :
      (bits : ℕ) (d : ContextMapDecoder) (src : Source)
      → AgreeFrom rest rest' d.size (length d.map)
      → repeat_arm rest bits d src ≡ repeat_arm rest' bits d src
  repeat_arm-agree bits d src agree = ap (read_then bits d src) (
      fun_ext λ extra. fun_ext λ src'.
        elim (Bool-cases (ltb d.size (length d.map + (2 ^ bits + extra)))) [
          | inl past ↦ rw past refl
          | inr fits ↦
              let le = ltb→le d.size (length d.map + (2 ^ bits + extra)) fits in
              let grown = repeated-length d.map (2 ^ bits + extra) in
              let pos = two-pow-pos bits in
              rw fits (
                agree
                  (record d {
                    map = d.map ++ replicate (2 ^ bits + extra) 0;
                    state = State.entries;
                  })
                  refl (omega arith) (omega arith) src')
        ])

  symbol_arm-agree :
      (symbol : ℕ) (d : ContextMapDecoder) (src : Source)
      → length d.map < d.size
      → AgreeFrom rest rest' d.size (length d.map)
      → symbol_arm rest symbol d src ≡ symbol_arm rest' symbol d src
  symbol_arm-agree symbol d src less agree = λ i.
      if symbol == 0
      then pushed 0 i
      else if leb symbol d.rle_max
      then repeat_arm-agree (u8 symbol) (record d { state = State.repeat (u8 symbol) }) src agree i
      else pushed (u8 (symbol - d.rle_max)) i
    where
      pushed : (entry : ℕ) → rest (push_entry d entry) src ≡ rest' (push_entry d entry) src
      pushed entry =
          let grown = pushed-length d.map entry in
          agree (push_entry d entry) refl (omega arith) (omega arith) src

  entry_round-agree :
      (d : ContextMapDecoder) (src : Source)
      → length d.map < d.size
      → AgreeFrom rest rest' d.size (length d.map)
      → entry_round rest d src ≡ entry_round rest' d src
  entry_round-agree d src less agree = ap (expect d.prefix_code panicked) (
      fun_ext λ code.
        ap
          (call_then (λ s. record d { symbol_decoder = s })
            (PrefixCode.decode code d.symbol_decoder src))
          (fun_ext λ symbol. fun_ext λ s.
            fun_ext
              λ src'. symbol_arm-agree symbol (record d { symbol_decoder = s }) src' less agree))

-- More fuel than the entries that are left changes nothing.
pub entries_loop-enough :
    (n m : ℕ) (d : ContextMapDecoder) (src : Source)
    → length d.map ≤ d.size
    → d.size ≤ length d.map + n
    → d.size ≤ length d.map + m
    → entries_loop n d src ≡ entries_loop m d src
unfolding entries_loop
entries_loop-enough zero zero d src le hn hm = refl
entries_loop-enough zero (suc m) d src le hn hm =
    let full : (length d.map == d.size) ≡ true = ground arith in rw full refl
entries_loop-enough (suc n) zero d src le hn hm =
    let full : (length d.map == d.size) ≡ true = ground arith in rw full refl
entries_loop-enough (suc n) (suc m) d src le hn hm = elim (Bool-cases (length d.map == d.size)) [
  | inl full ↦ rw full refl
  | inr left ↦
      let ne = ==→ne (length d.map) d.size left in
      ap
        (λ o.
          if length d.map == d.size
          then transform_arm (record d { state = State.transform }) src
          else o)
        (entry_round-agree (entries_loop n) (entries_loop m) d src (omega arith)
          (λ d' size more inside src'.
            entries_loop-enough n m d' src' (omega arith) (omega arith) (omega arith)))
]
