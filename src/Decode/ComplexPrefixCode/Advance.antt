-- ===== src/Decode/ComplexPrefixCode/Advance.antt =====
-- What a round of `CodeLengths` fills in, and the fuel of its loop.
use brutli.Prelude.Pow.{two-pow-pos}
use mathlib.Core.Option.{some-ne-none}
use brutli.Prelude.{
  ℕ, zero, suc, ◌+◌, ◌-◌, ◌*◌, ◌/◌, ◌^◌, ◌≤◌, ◌<◌, ◌≡◌, refl, ap, inl, inr, sym, Bool-cases, Bool,
  true, false, ◌||◌, Option, none, some, ok, err, arith, ltb, leb, ◌==◌, ltb→le, ==→ne,
  if◌then◌else◌, u8, some-injective, ==→eq,
}
use mathlib.Core.Path.{fun_ext, ap₂}
use brutli.Decode.BitReader.{Source}
use brutli.Decode.Outcome.{ready, panicked, read_then, call_then, match_result, expect}
use brutli.Decode.PrefixCode as PrefixCode
use brutli.Decode.PrefixCode.{PrefixSymbolDecoder}
use brutli.Decode.ComplexPrefixCode.{
  State, ComplexPrefixCodeDecoder, ComplexPrefixCodeError, Failure, Pushed, Call, code_space,
  consume_space, push_length, push_repeat, next_repeat, finish, repeat_to, repeat_with, repeat_arm,
  symbol_arm, length_round, lengths_loop,
}

abbrev pub OnOk : (ComplexPrefixCodeDecoder → Type 0) → Pushed → Type 0
OnOk P (err e) = Unit
OnOk P (ok d) = P d

pub record Advances (size index : ℕ) (s : State) (d : ComplexPrefixCodeDecoder) : Type 0 where
  pub phase : d.state ≡ s
  pub alphabet : d.alphabet_size ≡ size
  pub more : index < d.symbol_index
  pub inside : d.symbol_index ≤ size

consume_space-OnOk :
    (d : ComplexPrefixCodeDecoder) (count l : ℕ) (P : ComplexPrefixCodeDecoder → Type 0)
    → ((space : ℕ) → P (record d { space = space }))
    → OnOk P (consume_space d count l)
unfolding consume_space
consume_space-OnOk d count l P h =
    elim (Bool-cases (leb (2 ^ 31) count || leb (2 ^ 31) (count * (code_space / 2 ^ l)))) [
      | inl over ↦ rw over tt
      | inr fits ↦ rw fits (elim (Bool-cases (ltb d.space (count * (code_space / 2 ^ l)))) [
        | inl over ↦ rw over tt
        | inr enough ↦ rw enough (h (d.space - count * (code_space / 2 ^ l)))
      ])
    ]

pub push_length-Advances :
    (d : ComplexPrefixCodeDecoder) (l : ℕ)
    → d.symbol_index < d.alphabet_size
    → OnOk (Advances d.alphabet_size d.symbol_index d.state) (push_length d l)
unfolding push_length
push_length-Advances d l h = elim (Bool-cases (l == 0)) [
  | inl z ↦
      rw z (record { phase = refl; alphabet = refl; more = omega arith; inside = omega arith })
  | inr n ↦ rw n (
      consume_space-OnOk _ 1 l (Advances d.alphabet_size d.symbol_index d.state) (λ space. record {
        phase = refl;
        alphabet = refl;
        more = omega arith;
        inside = omega arith;
      }))
]

repeat_to-Advances :
    (d : ComplexPrefixCodeDecoder) (l old total : ℕ)
    → old < total
    → OnOk (Advances d.alphabet_size d.symbol_index d.state) (repeat_to d l old total)
repeat_to-Advances d l old total h =
    let not_less : ltb total old ≡ false = ground arith in
    rw not_less (elim (Bool-cases (ltb d.alphabet_size (d.symbol_index + (total - old)))) [
      | inl past ↦ rw past tt
      | inr fits ↦
          let le = ltb→le d.alphabet_size (d.symbol_index + (total - old)) fits in
          rw fits (elim (Bool-cases (l == 0)) [
            | inl z ↦
                rw z (record { phase = refl; alphabet = refl; more = omega arith; inside = le })
            | inr n ↦ rw n (
                consume_space-OnOk _ (total - old) l
                  (Advances d.alphabet_size d.symbol_index d.state)
                  (λ space. record {
                    phase = refl;
                    alphabet = refl;
                    more = omega arith;
                    inside = le;
                  }))
          ])
    ])

power-le : (k n : ℕ) → n ≤ n * 2 ^ k
power-le k n = let pos = two-pow-pos k in grind arith

next_repeat-lt :
    (old extra_bits extra total : ℕ) → next_repeat old extra_bits extra ≡ some total → old < total
unfolding next_repeat
next_repeat-lt old extra_bits extra total = go (old == 0) (ltb old 2) refl refl
  where
    go :
        (z small : Bool)
        → (old == 0) ≡ z
        → ltb old 2 ≡ small
        → (if z
            then some (extra + 3)
            else if small
            then none
            else some ((old - 2) * 2 ^ extra_bits + (extra + 3)))
          ≡ some total
        → old < total
    go true small hz hs e = omega (arith, ==→eq old 0 hz, some-injective _ total e)
    go false true hz hs e = absurd (some-ne-none total (sym e))
    go false false hz hs e =
        let total_is : (old - 2) * 2 ^ extra_bits + (extra + 3) ≡ total =
          some-injective _ total e in
        omega (arith, ltb→le old 2 hs, power-le extra_bits (old - 2))

pub push_repeat-Advances :
    (d : ComplexPrefixCodeDecoder) (symbol extra : ℕ)
    → OnOk (Advances d.alphabet_size d.symbol_index d.state) (push_repeat d symbol extra)
unfolding push_repeat
push_repeat-Advances d symbol extra = go (if symbol == 16 then d.previous_nonzero else 0)
  where
    from_next :
        (l old : ℕ) (next : Option ℕ)
        → next_repeat old (symbol - 14) extra ≡ next
        → OnOk
            (Advances d.alphabet_size d.symbol_index d.state)
            (repeat_with (record d { repeat = old; repeat_code_length = l }) l old next)
    from_next l old none e = tt
    from_next l old (some total) e =
        repeat_to-Advances (record d { repeat = old; repeat_code_length = l }) l old total
          (next_repeat-lt old (symbol - 14) extra total e)

    go :
        (l : ℕ)
        → OnOk (Advances d.alphabet_size d.symbol_index d.state) (
            let old = if d.repeat_code_length == l then d.repeat else 0 in
            repeat_with
              (record d { repeat = old; repeat_code_length = l })
              l
              old
              (next_repeat old (symbol - 14) extra))
    go l = from_next l (if d.repeat_code_length == l then d.repeat else 0) _ refl

-- Two continuations that agree wherever the alphabet has advanced.
abbrev pub AgreeFrom :
    (ComplexPrefixCodeDecoder → Source → Call)
    → (ComplexPrefixCodeDecoder → Source → Call)
    → ℕ
    → ℕ
    → Type 0
AgreeFrom rest rest' size index =
    (d : ComplexPrefixCodeDecoder)
    → d.alphabet_size ≡ size
    → index < d.symbol_index
    → d.symbol_index ≤ size
    → (src : Source) → rest d src ≡ rest' d src

match-agree :
    (s : State) {size index : ℕ} (r : Pushed) (f : Failure → Call)
    (k k' : ComplexPrefixCodeDecoder → Call)
    → OnOk (Advances size index s) r
    → ((d : ComplexPrefixCodeDecoder)
        → d.alphabet_size ≡ size
        → index < d.symbol_index
        → d.symbol_index ≤ size
        → k d ≡ k' d)
    → match_result r f k ≡ match_result r f k'
match-agree s (err e) f k k' h agree = refl
match-agree s (ok d) f k k' h agree = agree d h.alphabet h.more h.inside

module _ (rest rest' : ComplexPrefixCodeDecoder → Source → Call) where
  pub repeat_arm-agree :
      (symbol : ℕ) (d : ComplexPrefixCodeDecoder) (src : Source)
      → AgreeFrom rest rest' d.alphabet_size d.symbol_index
      → repeat_arm rest symbol d src ≡ repeat_arm rest' symbol d src
  repeat_arm-agree symbol d src agree = ap (read_then (symbol - 14) d src) (
      fun_ext λ extra. fun_ext λ src'.
        match-agree d.state (push_repeat d symbol extra) _ _ _ (push_repeat-Advances d symbol extra)
          (λ pushed alphabet more inside.
            agree (record pushed { state = State.code_lengths }) alphabet more inside src'))

  pub symbol_arm-agree :
      (symbol : ℕ) (d : ComplexPrefixCodeDecoder) (src : Source)
      → d.symbol_index < d.alphabet_size
      → AgreeFrom rest rest' d.alphabet_size d.symbol_index
      → symbol_arm rest symbol d src ≡ symbol_arm rest' symbol d src
  symbol_arm-agree symbol d src h agree =
      ap₂ (λ a b. if leb symbol 15 then a else if leb symbol 17 then b else panicked)
        (match-agree d.state (push_length d (u8 symbol)) _ _ _
          (push_length-Advances d (u8 symbol) h)
          (λ pushed alphabet more inside. agree pushed alphabet more inside src))
        (repeat_arm-agree (u8 symbol) (record d { state = State.repeat_extra (u8 symbol) }) src
          agree)

  pub length_round-agree :
      (d : ComplexPrefixCodeDecoder) (src : Source)
      → d.symbol_index < d.alphabet_size
      → AgreeFrom rest rest' d.alphabet_size d.symbol_index
      → length_round rest d src ≡ length_round rest' d src
  length_round-agree d src h agree = ap (expect d.code_length_code panicked) (
      fun_ext λ code.
        ap
          (call_then (λ s. record d { code_length_symbol = s })
            (PrefixCode.decode code d.code_length_symbol src))
          (fun_ext λ symbol. fun_ext λ s.
            fun_ext
              λ src'. symbol_arm-agree symbol (record d { code_length_symbol = s }) src' h agree))

-- With no more than `alphabet_size` code lengths filled in, and for any two amounts of fuel that are at least
-- the number of code lengths that are left, the loop comes to the same outcome.
pub lengths_loop-enough :
    (n m : ℕ) (d : ComplexPrefixCodeDecoder) (src : Source)
    → d.symbol_index ≤ d.alphabet_size
    → d.alphabet_size ≤ d.symbol_index + n
    → d.alphabet_size ≤ d.symbol_index + m
    → lengths_loop n d src ≡ lengths_loop m d src
unfolding lengths_loop
lengths_loop-enough zero zero d src le hn hm = refl
lengths_loop-enough zero (suc m) d src le hn hm =
    let full : (d.symbol_index == d.alphabet_size) ≡ true = ground arith in rw full refl
lengths_loop-enough (suc n) zero d src le hn hm =
    let full : (d.symbol_index == d.alphabet_size) ≡ true = ground arith in rw full refl
lengths_loop-enough (suc n) (suc m) d src le hn hm =
    elim (Bool-cases (d.symbol_index == d.alphabet_size)) [
      | inl full ↦ rw full refl
      | inr left ↦
          let ne = ==→ne d.symbol_index d.alphabet_size left in
          ap
            (λ o.
              if d.space == 0
              then finish d src
              else if d.symbol_index == d.alphabet_size
              then ready (err ComplexPrefixCodeError.unused_code_space) d src
              else o)
            (length_round-agree (lengths_loop n) (lengths_loop m) d src (omega arith)
              (λ d' alphabet more inside src'.
                lengths_loop-enough n m d' src' (omega arith) (omega arith) (omega arith)))
    ]
