-- ===== src/Codec/Command/Symbols.antt =====
-- The 704 symbols of commands: `combine_length_codes` against `from_symbol`.
use brutli.Prelude.{
  ℕ, ◌+◌, ◌<◌, ◌≡◌, refl, ap, ◌∙◌, bit_and, Bool, true, false, ◌&&◌, not, Option, none, some, arith,
  ltb, leb, ◌==◌, ==→eq, shr, get_or,
}
use brutli.Prelude.Table.{holds_below, below_holds, same, same→eq}
use brutli.Encode.Command.{combine_length_codes}
use brutli.Decode.Command.{
  CommandSpec, groups, from_symbol, insert_base, insert_extra_bits, copy_base, copy_extra_bits,
}

-- Whether a command takes its distance from the symbol.
abbrev pub implicit : ℕ → ℕ → Bool → Bool
implicit insert_code copy_code use_last = use_last && (ltb insert_code 8 && ltb copy_code 16)

agrees : ℕ → ℕ → Bool → ℕ → Option (ℕ × ℕ × Bool) → Bool
agrees jc kc use_last symbol none = false
agrees jc kc use_last symbol (some (ig, cg, imp)) =
    ((ig + bit_and (shr symbol 3) 7 == jc) && (cg + bit_and symbol 7 == kc))
    && (same imp (implicit jc kc use_last) && (ltb symbol 704 && same (leb 128 symbol) (not imp)))

check : Bool → ℕ → ℕ → Bool
check use_last jc kc =
    let symbol = combine_length_codes jc kc use_last in
    agrees jc kc use_last symbol (groups (shr symbol 6))

table : Bool → Bool
table use_last = holds_below 24 (λ jc. holds_below 24 (check use_last jc))

table-true : (use_last : Bool) → table use_last ≡ true
unfolding table check agrees holds_below combine_length_codes groups
table-true true = refl
table-true false = refl

check-true : (use_last : Bool) (jc kc : ℕ) → jc < 24 → kc < 24 → check use_last jc kc ≡ true
unfolding table
check-true use_last jc kc hi hc =
    below_holds 24 (check use_last jc) kc
      (below_holds 24 (λ i. holds_below 24 (check use_last i)) jc (table-true use_last) hi) hc

abbrev pub spec : ℕ → ℕ → Bool → CommandSpec
spec jc kc imp = record {
  insert_base = get_or insert_base jc 0;
  insert_extra_bits = get_or insert_extra_bits jc 0;
  copy_base = get_or copy_base kc 0;
  copy_extra_bits = get_or copy_extra_bits kc 0;
  implicit_distance_zero = imp;
}

-- The specification behind a symbol has the rows of the two codes; the symbols below 128 are those that
-- take the last distance.
pub from_symbol-combine :
    (use_last : Bool) (jc kc : ℕ)
    → jc < 24
    → kc < 24
    → (from_symbol (combine_length_codes jc kc use_last)
        ≡ some (spec jc kc (implicit jc kc use_last)))
      × (leb 128 (combine_length_codes jc kc use_last) ≡ not (implicit jc kc use_last))
from_symbol-combine use_last jc kc hi hc =
    go (combine_length_codes jc kc use_last) (groups (shr (combine_length_codes jc kc use_last) 6))
      refl (unfold check in check-true use_last jc kc hi hc)
  where
    go :
        (symbol : ℕ) (g : Option (ℕ × ℕ × Bool))
        → groups (shr symbol 6) ≡ g
        → agrees jc kc use_last symbol g ≡ true
        → (from_symbol symbol ≡ some (spec jc kc (implicit jc kc use_last)))
          × (leb 128 symbol ≡ not (implicit jc kc use_last))
    go symbol none e h = unfold agrees in cc
    go symbol (some (ig, cg, imp)) e h =
        unfold agrees in
        (let bound : ltb symbol 704 ≡ true = ground arith in
          let insert : (ig + bit_and (shr symbol 3) 7 == jc) ≡ true = ground arith in
          let copy : (cg + bit_and symbol 7 == kc) ≡ true = ground arith in
          let flag : same imp (implicit jc kc use_last) ≡ true = ground arith in
          let low : same (leb 128 symbol) (not imp) ≡ true = ground arith in
          (
            unfold from_symbol in
                rw (bound, e)
                  (λ i. some (
                    spec (==→eq (ig + bit_and (shr symbol 3) 7) jc insert i)
                      (==→eq (cg + bit_and symbol 7) kc copy i)
                      (same→eq imp (implicit jc kc use_last) flag i))),
            same→eq (leb 128 symbol) (not imp) low
                ∙ ap not (same→eq imp (implicit jc kc use_last) flag),
          ))
