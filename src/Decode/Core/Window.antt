-- ===== src/Decode/Core/Window.antt =====
-- The check of the window on the first byte of the input.
use brutli.Prelude.{
  ℕ, ◌-◌, ◌≤◌, ◌<◌, ◌^◌, ◌≡◌, refl, ap, inl, inr, arith, Bool, true, false, ◌&&◌, ◌||◌, List, [],
  ◌∷◌, ◌==◌, leb, ltb, Bool-cases, if◌then◌else◌, length, length-append, Result, ok, err,
}
use brutli.Prelude.Bits.{to_bits, length-to_bits, byte_bits, IsBytes}
use brutli.Decode.BitReader.{Source, source_of}
use brutli.Decode.BitReader.Content.{IsValid, bits, read_bits_cases, source_of-IsValid}
use brutli.Decode.Outcome.{Outcome, pending, ready, panicked, read_then, read_then-Reads}
use brutli.Decode.StreamHeader as StreamHeader
use brutli.Decode.StreamHeader.{
  StreamHeaderDecoder, StreamHeaderError, first_bit_arm, upper_range_arm, lower_range_arm,
}
use brutli.Decode.Core.{CoreDecoder, Check, check_header, check_window_limit}

abbrev IsReady : {D T : Type 0} → Outcome D T → Type 0
IsReady (ready t d src) = Unit
IsReady _ = ⊥

-- The call ends wherever so many bits are there.
abbrev Ends : {D T : Type 0} → ℕ → (Source → Outcome D T) → Type 0
Ends n call = (src : Source) → IsValid src → n ≤ length (bits src) → IsReady (call src)

read_then-Ends :
    {D T : Type 0} (n count : ℕ) (d : D) (k : ℕ → Source → Outcome D T)
    → count ≤ 56
    → count ≤ n
    → ((v : ℕ) → v < 2 ^ count → Ends (n - count) (k v))
    → Ends n (λ src. read_then count d src k)
read_then-Ends n count d k small le next src valid enough =
    elim (read_bits_cases count src small valid) [
      | inl (v, src', r) ↦ rw (read_then-Reads d k small r) (
          next v r.fits src' r.valid (
            omega (
              arith,
              ap (λ (l : List ℕ). length l) r.content,
              length-append (to_bits count v) (bits src'),
              length-to_bits count v,
            )))
      | inr (src', s) ↦ absurd (omega (arith, s.short))
    ]

if-Ends :
    {D T : Type 0} (n : ℕ) (b : Bool) (f g : Source → Outcome D T)
    → (b ≡ true → Ends n f)
    → (b ≡ false → Ends n g)
    → Ends n (λ src. if b then f src else g src)
if-Ends n true f g p q = p refl
if-Ends n false f g p q = q refl

lower-Ends : (d : StreamHeaderDecoder) → Ends 3 (lower_range_arm d)
unfolding lower_range_arm
lower-Ends d = read_then-Ends 3 3 d _ (omega arith) (omega arith) λ v below.
    if-Ends 0 (v == 0) _ _ (λ z src valid le. tt)
      λ nonzero.
        if-Ends 0 (v == 1) _ _ (λ one src valid le. tt)
          λ other.
            if-Ends 0 (leb 2 v && leb v 7) _ _ (λ between src valid le. tt)
              (λ outside. absurd (ground arith))

upper-Ends : (d : StreamHeaderDecoder) → Ends 6 (upper_range_arm d)
unfolding upper_range_arm
upper-Ends d =
    read_then-Ends 6 3 d _ (omega arith) (omega arith)
      λ v below. if-Ends 3 (v == 0) _ _ (λ z. lower-Ends _) (λ nonzero src valid le. tt)

header-Ends : Ends 7 (StreamHeader.decode StreamHeader.new_decoder)
unfolding StreamHeader.decode first_bit_arm
header-Ends =
    read_then-Ends 7 1 StreamHeader.new_decoder _ (omega arith) (omega arith)
      λ v below. if-Ends 6 (v == 0) _ _ (λ z src valid le. tt) (λ nonzero. upper-Ends _)

abbrev pub IsDecided : Check → Type 0
IsDecided (Check.passed d) = Unit
IsDecided (Check.refused e d) = Unit
IsDecided Check.undecided = ⊥

header-IsDecided :
    (d : CoreDecoder)
    (o : Outcome StreamHeaderDecoder (Result StreamHeaderError StreamHeader.StreamHeader))
    → IsReady o
    → IsDecided (check_header d o)
header-IsDecided d (pending _ _) r = elim r [ ]
header-IsDecided d panicked r = elim r [ ]
header-IsDecided d (ready (err e) h src) r = tt
header-IsDecided d (ready (ok header) h src) r =
    elim (Bool-cases (ltb d.max_window_bits header.window_bits)) [
      | inl over ↦ rw over tt
      | inr within ↦ rw within tt
    ]

if-IsDecided : (b : Bool) (x y : Check) → IsDecided x → IsDecided y → IsDecided (if b then x else y)
if-IsDecided true x y p q = p
if-IsDecided false x y p q = q

first_byte-bits : (byte : ℕ) (rest : List ℕ) → 8 ≤ length (bits (source_of (byte ∷ rest)))
unfolding bits byte_bits to_bits
first_byte-bits byte rest =
    omega (arith, length-append (to_bits 8 byte) (byte_bits rest), length-to_bits 8 byte)

-- On any input of bytes, the check of the window passes or refuses: the first byte holds the whole header, so
-- the `expect` does not fail.
pub check-IsDecided :
    (d : CoreDecoder) (input : List ℕ) → IsBytes input → IsDecided (check_window_limit d input)
unfolding check_window_limit
check-IsDecided d [] h = elim (Bool-cases d.window_checked) [
  | inl checked ↦ rw checked tt
  | inr unchecked ↦ rw unchecked tt
]
check-IsDecided d (byte ∷ rest) h =
    if-IsDecided (d.window_checked || (length (byte ∷ rest) == 0)) _ _ tt (
      header-IsDecided d _ (
        header-Ends (source_of (byte ∷ rest)) (source_of-IsValid (byte ∷ rest) h)
          (omega (arith, first_byte-bits byte rest))))
