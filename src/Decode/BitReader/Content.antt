-- ===== src/Decode/BitReader/Content.antt =====
-- The bits that a source holds, and what reading does to them.
use brutli.Prelude.{
  ℕ, ◌+◌, ◌-◌, ◌*◌, ◌/◌, ◌%◌, ◌^◌, ◌≤◌, ◌<◌, bit_and, bit_or, ◌≡◌, refl, sym, zero, suc, subst, ap,
  ◌∙◌, ◌⊎◌, inl, inr, Bool, true, false, none, some, List, [], ◌∷◌, ◌++◌, append_assoc, arith, ltb,
  leb, ◌==◌, ==→eq, Bool-cases, length, append-inj, length-append,
}
use brutli.Prelude.Pow.{two-pow-add, two-pow-le, two-pow-pos, div-pow-lt}
use brutli.Prelude.Bitwise.{or-shifted, and-low_mask}
use brutli.Prelude.Bits.{
  IsBytes, to_bits, to_bits-add, to_bits_join, to_bits-mod, to_bits-inj, byte_bits, length-to_bits,
  length-byte_bits,
}
use brutli.Decode.BitReader.{
  BitReader, Source, source_of, push_byte, fill, low_mask, shift_out, read_bits,
  align_to_byte_with_zero_fill, finish_read,
}
use native.Mathlib.Nat.{mod-eq_of_lt, mod-lt}

-- The staging buffer holds `buffered` bits and nothing above them, and leaves room for a byte.
pub record IsValid (src : Source) : Type 0 where
  pub staged : src.reader.buffer < 2 ^ src.reader.buffered
  pub room : src.reader.buffered ≤ 63
  pub bytes : IsBytes src.rest

-- What is still to be read, in order.
unfoldable pub bits : Source → List ℕ
bits src = to_bits src.reader.buffered src.reader.buffer ++ byte_bits src.rest

push_byte-buffer :
    (r : BitReader) (byte : ℕ)
    → r.buffer < 2 ^ r.buffered
    → r.buffered ≤ 55
    → byte < 256
    → ((push_byte r byte).buffer ≡ r.buffer + 2 ^ r.buffered * byte)
      × ((push_byte r byte).buffer < 2 ^ (r.buffered + 8))
unfolding push_byte
push_byte-buffer r byte h room hb = omega (
  arith,
  product,
  mod-eq_of_lt fits,
  ap (λ (t : ℕ). bit_or r.buffer t) (mod-eq_of_lt fits),
  or-shifted r.buffered r.buffer byte h,
  two-pow-add r.buffered 8,
)
  where
    product : byte * 2 ^ r.buffered ≤ 255 * 2 ^ r.buffered
    product = grind arith

    fits : byte * 2 ^ r.buffered < 2 ^ 64
    fits = omega (arith, product, two-pow-le room)

-- Staging a byte moves it from the input to the top of the buffer: the bits stay the same.
push_byte-bits :
    (r : BitReader) (byte : ℕ) (rest : List ℕ)
    → IsValid (record { reader = r; rest = byte ∷ rest })
    → r.buffered ≤ 55
    → IsValid (record { reader = push_byte r byte; rest = rest })
      × (bits (record { reader = push_byte r byte; rest = rest })
          ≡ bits (record { reader = r; rest = byte ∷ rest }))
push_byte-bits r byte rest v h =
    let (sum, fits) = push_byte-buffer r byte v.staged h v.bytes.0 in
    (
      record {
        staged = unfold push_byte in unfold push_byte in fits;
        room = unfold push_byte in omega arith;
        bytes = v.bytes.1;
      },
      unfold bits byte_bits in
          unfold push_byte in
          ap (λ t. t ++ byte_bits rest)
            (ap (to_bits (r.buffered + 8)) sum ∙ to_bits_join r.buffered 8 r.buffer byte v.staged)
          ∙ append_assoc (to_bits r.buffered r.buffer) (to_bits 8 byte) (byte_bits rest),
    )

abbrev FillKeeps : ℕ → Source → Bool × Source → Type 0
FillKeeps count src (true, src') =
    IsValid src' × (bits src' ≡ bits src) × (count ≤ src'.reader.buffered)
FillKeeps count src (false, src') =
    IsValid src' × (bits src' ≡ bits src) × (src'.rest ≡ []) × (src'.reader.buffered < count)

fill-FillKeeps :
    (count : ℕ) (r : BitReader) (rest : List ℕ)
    → count ≤ 56
    → IsValid (record { reader = r; rest = rest })
    → FillKeeps count (record { reader = r; rest = rest }) (fill count r rest)
unfolding fill
fill-FillKeeps count r [] hc v = elim (Bool-cases (leb count r.buffered)) [
  | inl h ↦ rw h (v, refl, ground arith)
  | inr h ↦ rw h (v, refl, refl, ground arith)
]
fill-FillKeeps count r (byte ∷ rest) hc v = elim (Bool-cases (ltb r.buffered count)) [
  | inl h ↦
      let (v', same) = push_byte-bits r byte rest v (ground arith) in
      rw h (
        moved (record { reader = r; rest = byte ∷ rest })
          (record { reader = push_byte r byte; rest = rest }) (fill count (push_byte r byte) rest)
          same (fill-FillKeeps count (push_byte r byte) rest hc v'))
  | inr h ↦ rw h (v, refl, ground arith)
]
  where
    moved :
        (src mid : Source) (out : Bool × Source)
        → bits mid ≡ bits src
        → FillKeeps count mid out
        → FillKeeps count src out
    moved src mid (true, src') e (a, b, c) = (a, b ∙ e, c)
    moved src mid (false, src') e (a, b, c, d) = (a, b ∙ e, c, d)

-- `read_bits` returns the next `count` bits as a number and goes on behind them.
pub record Reads (count v : ℕ) (src src' : Source) : Type 0 where
  pub result : read_bits count src ≡ (some v, src')
  pub fits : v < 2 ^ count
  pub valid : IsValid src'
  pub content : bits src ≡ to_bits count v ++ bits src'

-- `read_bits` asks for more input, with every bit of the source staged and kept.
pub record Starves (count : ℕ) (src src' : Source) : Type 0 where
  pub result : read_bits count src ≡ (none, src')
  pub valid : IsValid src'
  pub content : bits src' ≡ bits src
  pub drained : src'.rest ≡ []
  pub short : length (bits src) < count

low_mask_lem : (count v : ℕ) → bit_and v (low_mask count) ≡ v % 2 ^ count
low_mask_lem zero v = and-low_mask 0 v
low_mask_lem (suc count) v =
    let nonzero : (suc count == 0) ≡ false = ground arith in rw nonzero (and-low_mask (suc count) v)

shift_out-IsValid :
    (count : ℕ) (src : Source)
    → IsValid src
    → count ≤ src.reader.buffered
    → IsValid (record src { reader = shift_out count src.reader })
shift_out-IsValid count src v h = record {
  staged = div-pow-lt count (src.reader.buffered - count) src.reader.buffer (rw parts v.staged);
  room = omega arith;
  bytes = v.bytes;
}
  where
    parts : count + (src.reader.buffered - count) ≡ src.reader.buffered
    parts = omega arith

shift_out-bits :
    (count : ℕ) (src : Source)
    → count ≤ src.reader.buffered
    → bits src
      ≡ to_bits count (src.reader.buffer % 2 ^ count)
        ++ bits (record src { reader = shift_out count src.reader })
unfolding bits
shift_out-bits count src h =
    ap (λ t. to_bits t buffer ++ byte_bits src.rest) parts
    ∙ ap (λ t. t ++ byte_bits src.rest) (to_bits-add count (buffered - count) buffer)
    ∙ append_assoc (to_bits count buffer) (to_bits (buffered - count) (buffer / 2 ^ count))
        (byte_bits src.rest)
    ∙ ap (λ t. t ++ (to_bits (buffered - count) (buffer / 2 ^ count) ++ byte_bits src.rest))
        (sym (to_bits-mod count buffer))
  where
    open src.reader use {buffer, buffered}

    parts : buffered ≡ count + (buffered - count)
    parts = omega arith

length-bits : (src : Source) → length (bits src) ≡ src.reader.buffered + 8 * length src.rest
unfolding bits
length-bits src = omega (
  arith,
  length-append (to_bits src.reader.buffered src.reader.buffer) (byte_bits src.rest),
  length-to_bits src.reader.buffered src.reader.buffer,
  length-byte_bits src.rest,
)

-- Every read of at most 56 bits from a valid source either gets its bits or drains the source.
pub read_bits_cases :
    (count : ℕ) (src : Source)
    → count ≤ 56
    → IsValid src
    → ((v : ℕ) × (src' : Source) × Reads count v src src')
      ⊎ ((src' : Source) × Starves count src src')
read_bits_cases count src hc v =
    go (fill count src.reader src.rest) refl (fill-FillKeeps count src.reader src.rest hc v)
  where
    go :
        (out : Bool × Source)
        → fill count src.reader src.rest ≡ out
        → FillKeeps count src out
        → ((v : ℕ) × (src' : Source) × Reads count v src src')
          ⊎ ((src' : Source) × Starves count src src')
    go (true, s) e (valid, same, enough) = inl (
      s.reader.buffer % 2 ^ count,
      record s { reader = shift_out count s.reader },
      record {
        result =
            unfold read_bits in
            ap (finish_read count) e
            ∙ ap (λ t. (some t, record s { reader = shift_out count s.reader }))
                (low_mask_lem count s.reader.buffer);
        fits = mod-lt s.reader.buffer (two-pow-pos count);
        valid = shift_out-IsValid count s valid enough;
        content = sym same ∙ shift_out-bits count s enough;
      },
    )
    go (false, s) e (valid, same, drained, short) = inr (
      s,
      record {
        result = unfold read_bits in ap (finish_read count) e;
        valid = valid;
        content = same;
        drained = drained;
        short = omega (
          arith,
          ap (λ (l : List ℕ). length l) same,
          length-bits s,
          ap (λ (l : List ℕ). length l) drained,
        );
      },
    )

-- Where the source begins with a field of known value, `read_bits` returns that value.
pub Reads-field :
    (count v : ℕ) (src : Source) (tail : List ℕ)
    → count ≤ 56
    → v < 2 ^ count
    → IsValid src
    → bits src ≡ to_bits count v ++ tail
    → (src' : Source) × Reads count v src src' × (bits src' ≡ tail)
Reads-field count v src tail hc hv valid e = elim (read_bits_cases count src hc valid) [
  | inl (u, src', r) ↦ found u src' r
  | inr (src', s) ↦ absurd (
      omega (
        arith,
        s.short,
        ap (λ (l : List ℕ). length l) e,
        length-append (to_bits count v) tail,
        length-to_bits count v,
      ))
]
  where
    found :
        (u : ℕ) (src' : Source)
        → Reads count u src src'
        → (src' : Source) × Reads count v src src' × (bits src' ≡ tail)
    found u src' r =
        let (same, rest) =
          append-inj (to_bits count u) (to_bits count v)
            (length-to_bits count u ∙ sym (length-to_bits count v)) (sym r.content ∙ e) in
        (src', subst (λ t. Reads count t src src') (to_bits-inj count u v r.fits hv same) r, rest)

-- A fresh reader over bytes.
pub source_of-IsValid : (input : List ℕ) → IsBytes input → IsValid (source_of input)
source_of-IsValid input h = record { staged = omega arith; room = omega arith; bytes = h }

pub bits-source_of : (input : List ℕ) → bits (source_of input) ≡ byte_bits input
unfolding bits to_bits
bits-source_of input = refl

-- `align_to_byte_with_zero_fill` drops the bits up to the next byte boundary of the stream, reads
-- nothing, and reports whether they were zero.
pub align_lem :
    (src : Source)
    → IsValid src
    → (fill_bits : ℕ) × (src' : Source) × (align_to_byte_with_zero_fill src
        ≡ (fill_bits == 0, src'))
      × (fill_bits < 2 ^ (length (bits src) % 8))
      × IsValid src'
      × (bits src ≡ to_bits (length (bits src) % 8) fill_bits ++ bits src')
align_lem src v = elim (Bool-cases (buffered % 8 == 0)) [
  | inl aligned ↦ (
    0,
    src,
    unfold align_to_byte_with_zero_fill in rw aligned refl,
    two-pow-pos (length (bits src) % 8),
    v,
    rw (count_lem ∙ ==→eq (buffered % 8) 0 aligned) (unfold to_bits in refl),
  )
  | inr odd ↦ (
    src.reader.buffer % 2 ^ (buffered % 8),
    record src { reader = shift_out (buffered % 8) src.reader },
    unfold align_to_byte_with_zero_fill in rw (odd, and-low_mask) refl,
    rw count_lem (mod-lt src.reader.buffer (two-pow-pos (buffered % 8))),
    shift_out-IsValid (buffered % 8) src v (omega arith),
    rw count_lem (shift_out-bits (buffered % 8) src (omega arith)),
  )
]
  where
    open src.reader use {buffered}

    count_lem : length (bits src) % 8 ≡ buffered % 8
    count_lem = omega (arith, length-bits src)
