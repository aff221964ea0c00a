-- ===== src/Decode/BitReader/Resume.antt =====
-- `read_bits` and alignment on an input that is cut into slices.
use brutli.Prelude.{
  ℕ, ◌≡◌, refl, Option, none, some, Bool, true, false, List, [], ◌∷◌, ◌++◌, arith, ltb, leb,
  Bool-cases, inl, inr, ap,
}
use brutli.Decode.BitReader.{
  BitReader, Source, feed, push_byte, fill, finish_read, read_bits, align_to_byte_with_zero_fill,
}

abbrev FillResumes : ℕ → Bool × Source → Bool × Source → List ℕ → Type 0
FillResumes count (true, src) out more = out ≡ (true, feed src more)
FillResumes count (false, src) out more = out ≡ fill count src.reader (src.rest ++ more)

fill_enough :
    (count : ℕ) (r : BitReader) (rest : List ℕ)
    → leb count r.buffered ≡ true
    → fill count r rest ≡ (true, record { reader = r; rest = rest })
unfolding fill
fill_enough count r [] h = rw h
fill_enough count r (byte ∷ rest) h =
    let enough : ltb r.buffered count ≡ false = ground arith in rw enough

fill-FillResumes :
    (count : ℕ) (r : BitReader) (rest more : List ℕ)
    → FillResumes count (fill count r rest) (fill count r (rest ++ more)) more
unfolding fill
fill-FillResumes count r [] more = elim (Bool-cases (leb count r.buffered)) [
  | inl h ↦ rw h (fill_enough count r more h)
  | inr h ↦ rw h refl
]
fill-FillResumes count r (byte ∷ rest) more = elim (Bool-cases (ltb r.buffered count)) [
  | inl h ↦ rw h (fill-FillResumes count (push_byte r byte) rest more)
  | inr h ↦ rw h refl
]

-- How a read goes on when the same source is given `more` bytes: a value already read stands, and a
-- read that ran out takes up from the state it left.
abbrev pub ReadResumes : ℕ → Option ℕ × Source → Option ℕ × Source → List ℕ → Type 0
ReadResumes count (some v, src) out more = out ≡ (some v, feed src more)
ReadResumes count (none, src) out more = out ≡ read_bits count (feed src more)

-- Cutting the input at any byte leaves the outcome of `read_bits` as it is.
pub read_bits-ReadResumes :
    (count : ℕ) (src : Source) (more : List ℕ)
    → ReadResumes count (read_bits count src) (read_bits count (feed src more)) more
unfolding read_bits
read_bits-ReadResumes count src more =
    go (fill count src.reader src.rest) (fill count src.reader (src.rest ++ more))
      (fill-FillResumes count src.reader src.rest more)
  where
    go :
        (a b : Bool × Source)
        → FillResumes count a b more
        → ReadResumes count (finish_read count a) (finish_read count b) more
    go (true, s) b h = ap (finish_read count) h
    go (false, s) b h = ap (finish_read count) h

-- Alignment does not look at the bytes behind the staged ones.
pub align-feed :
    (src : Source) (more : List ℕ)
    → align_to_byte_with_zero_fill (feed src more)
      ≡ ((align_to_byte_with_zero_fill src).0, feed (align_to_byte_with_zero_fill src).1 more)
unfolding align_to_byte_with_zero_fill
align-feed src more = ground arith
