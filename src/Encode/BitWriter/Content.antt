-- ===== src/Encode/BitWriter/Content.antt =====
-- The bit string that a writer holds, and that `write_bits` appends to it.
use brutli.Prelude.{
  ℕ, zero, suc, ◌+◌, ◌-◌, ◌*◌, ◌/◌, ◌%◌, ◌^◌, ◌≤◌, ◌<◌, bit_and, bit_or, ◌≡◌, refl, sym, ap, ap₂,
  ◌∙◌, inl, inr, List, [], ◌++◌, append_assoc, append-nil, arith, leb, ◌==◌, ==→eq, ==→ne,
  Bool-cases, All-append, if◌then◌else◌,
}
use brutli.Prelude.Pow.{two-pow-add, two-pow-le, two-pow-pos}
use brutli.Prelude.Bitwise.{or-shifted, and-low_mask}
use brutli.Prelude.Bits.{
  IsByte, IsBytes, to_bits, to_bits-add, to_bits_join, to_bits-mod, byte_bits, byte_bits-append,
}
use brutli.Encode.BitWriter.{
  BitWriter, new_writer, low_mask, le_bytes, flush_word, stage, write_bits,
}
use native.Mathlib.Nat.{mod-eq_of_lt, mod-lt}

-- The pending word holds `used` bits, fewer than 64, and nothing above them.
pub record IsValid (w : BitWriter) : Type 0 where
  pub pending_fits : w.pending < 2 ^ w.used
  pub partial : w.used ≤ 63
  pub bytes : IsBytes w.bytes

-- What has been written, in order.
unfoldable pub bits : BitWriter → List ℕ
bits w = byte_bits w.bytes ++ to_bits w.used w.pending

pub new_writer-IsValid : IsValid new_writer
new_writer-IsValid = record { pending_fits = omega arith; partial = omega arith; bytes = tt }

pub bits-new_writer : bits new_writer ≡ []
unfolding bits byte_bits to_bits
bits-new_writer = refl

pub le_bytes-IsBytes : (n v : ℕ) → IsBytes (le_bytes n v)
unfolding le_bytes
le_bytes-IsBytes zero v = tt
le_bytes-IsBytes (suc n) v = (omega arith, le_bytes-IsBytes n (v / 256))

pub byte_bits-le_bytes : (n v : ℕ) → byte_bits (le_bytes n v) ≡ to_bits (8 * n) v
unfolding le_bytes byte_bits
byte_bits-le_bytes zero v = unfold to_bits in refl
byte_bits-le_bytes (suc n) v =
    ap₂ ◌++◌ (to_bits-mod 8 v) (byte_bits-le_bytes n (v / 256))
    ∙ sym (to_bits-add 8 (8 * n) v)
    ∙ ap (λ k. to_bits k v) eight
  where
    eight : 8 + 8 * n ≡ 8 * suc n
    eight = omega arith

pub low_mask_lem : (count v : ℕ) → bit_and v (low_mask count) ≡ v % 2 ^ count
low_mask_lem count v = elim (Bool-cases (count == 64)) [
  | inl e ↦ rw e (and-low_mask 64 v ∙ ap (λ k. v % 2 ^ k) (sym (==→eq count 64 e)))
  | inr e ↦ rw e (and-low_mask count v)
]

-- Staging `count` bits that still fit the word appends them.
stage_pending :
    (w : BitWriter) (value count : ℕ)
    → IsValid w
    → w.used + count ≤ 64
    → (stage w value count).pending ≡ w.pending + 2 ^ w.used * (value % 2 ^ count)
unfolding stage
stage_pending w value count v h = omega (
  arith,
  ap (λ (t : ℕ). bit_or w.pending (t * 2 ^ w.used % 2 ^ 64)) (low_mask_lem count value),
  ap (λ (t : ℕ). bit_or w.pending t) (mod-eq_of_lt fits),
  or-shifted w.used w.pending (value % 2 ^ count) v.pending_fits,
)
  where
    fits : value % 2 ^ count * 2 ^ w.used < 2 ^ 64
    fits = grind (
      arith,
      mod-lt value (two-pow-pos count),
      two-pow-add w.used count,
      two-pow-le h,
      two-pow-pos w.used,
    )

stage_fits :
    (w : BitWriter) (value count : ℕ)
    → IsValid w
    → w.used + count ≤ 64
    → (stage w value count).pending < 2 ^ (w.used + count)
stage_fits w value count v h = grind (
  arith,
  stage_pending w value count v h,
  mod-lt value (two-pow-pos count),
  two-pow-add w.used count,
  two-pow-pos w.used,
)

bits-stage :
    (w : BitWriter) (value count : ℕ)
    → IsValid w
    → w.used + count ≤ 64
    → bits (stage w value count) ≡ bits w ++ to_bits count value
unfolding bits byte_bits stage
bits-stage w value count v h =
    ap (λ t. byte_bits w.bytes ++ t) word
    ∙ sym (append_assoc (byte_bits w.bytes) (to_bits w.used w.pending) (to_bits count value))
  where
    word :
        to_bits (w.used + count) (stage w value count).pending
        ≡ to_bits w.used w.pending ++ to_bits count value
    word =
        ap (to_bits (w.used + count)) (stage_pending w value count v h)
        ∙ to_bits_join w.used count w.pending (value % 2 ^ count) v.pending_fits
        ∙ ap (λ t. to_bits w.used w.pending ++ t) (to_bits-mod count value)

-- A writer with nothing pending holds its bytes.
pub bytes_only : (w : BitWriter) → w.used ≡ 0 → byte_bits w.bytes ≡ bits w
unfolding bits to_bits
bytes_only w e =
    sym (append-nil (byte_bits w.bytes))
    ∙ ap (λ k. byte_bits w.bytes ++ to_bits k w.pending) (sym e)

-- A full word moves to the bytes.
bits-flush_word : (w : BitWriter) → w.used ≡ 64 → bits (flush_word w) ≡ bits w
unfolding bits flush_word to_bits
bits-flush_word w full =
    append-nil (byte_bits (w.bytes ++ le_bytes 8 w.pending))
    ∙ byte_bits-append w.bytes (le_bytes 8 w.pending)
    ∙ ap (λ t. byte_bits w.bytes ++ t) (byte_bits-le_bytes 8 w.pending)
    ∙ ap (λ k. byte_bits w.bytes ++ to_bits k w.pending) (sym full)

flush_word-IsValid : (w : BitWriter) → IsBytes w.bytes → IsValid (flush_word w)
unfolding flush_word
flush_word-IsValid w h = record {
  pending_fits = omega arith;
  partial = omega arith;
  bytes = All-append IsByte w.bytes (le_bytes 8 w.pending) h (le_bytes-IsBytes 8 w.pending);
}

-- What a call of `write_bits` promises.
pub record Writes (w w' : BitWriter) (string : List ℕ) : Type 0 where
  pub valid : IsValid w'
  pub content : bits w' ≡ bits w ++ string

write_short :
    (w : BitWriter) (value count : ℕ)
    → IsValid w
    → w.used + count ≤ 64
    → Writes w
        (if (stage w value count).used == 64
          then flush_word (stage w value count)
          else stage w value count)
        (to_bits count value)
unfolding stage
write_short w value count v h = elim (Bool-cases ((stage w value count).used == 64)) [
  | inl full ↦ rw full (record {
    valid = flush_word-IsValid (stage w value count) v.bytes;
    content =
        bits-flush_word (stage w value count) (==→eq _ 64 full) ∙ bits-stage w value count v h;
  })
  | inr partial ↦ rw partial (record {
    valid = record {
      pending_fits = stage_fits w value count v h;
      partial = omega (arith, ==→ne (stage w value count).used 64 partial);
      bytes = v.bytes;
    };
    content = bits-stage w value count v h;
  })
]

-- The word overflows: its top is filled, it moves out, and the other bits start a new word.
write_long :
    (w : BitWriter) (value count : ℕ)
    → IsValid w
    → 64 < w.used + count
    → count ≤ 64
    → Writes w
        (record (flush_word (stage w value (64 - w.used))) {
          pending = bit_and (value / 2 ^ (64 - w.used)) (low_mask (count - (64 - w.used)));
          used = count - (64 - w.used);
        })
        (to_bits count value)
unfolding stage bits byte_bits
write_long w value count v over most = record {
  valid = record {
    pending_fits = rw rest_lem (mod-lt high (two-pow-pos rest));
    partial = omega arith;
    bytes = valid.bytes;
  };
  content =
      ap (λ t. byte_bits (flush_word (stage w value top)).bytes ++ to_bits rest t) rest_lem
      ∙ ap (λ t. byte_bits (flush_word (stage w value top)).bytes ++ t) (to_bits-mod rest high)
      ∙ ap (λ t. t ++ to_bits rest high) flushed
      ∙ append_assoc (bits w) (to_bits top value) (to_bits rest high)
      ∙ ap (λ t. bits w ++ t) (sym (to_bits-add top rest value))
      ∙ ap (λ k. bits w ++ to_bits k value) parts;
}
  where
    top : ℕ
    top = 64 - w.used

    rest : ℕ
    rest = count - top

    high : ℕ
    high = value / 2 ^ top

    parts : top + rest ≡ count
    parts = omega arith

    full : w.used + top ≡ 64
    full = omega arith

    rest_lem : bit_and high (low_mask rest) ≡ high % 2 ^ rest
    rest_lem = low_mask_lem rest high

    valid : IsValid (flush_word (stage w value top))
    valid = flush_word-IsValid (stage w value top) v.bytes

    flushed : byte_bits (flush_word (stage w value top)).bytes ≡ bits w ++ to_bits top value
    flushed =
        bytes_only (flush_word (stage w value top)) (unfold flush_word in refl)
        ∙ bits-flush_word (stage w value top) full
        ∙ bits-stage w value top v (omega arith)

-- `write_bits` appends the `count` low bits of `value`, whatever stands above them.
pub write_bits-Writes :
    (w : BitWriter) (value count : ℕ)
    → IsValid w
    → count ≤ 64
    → Writes w (write_bits w value count) (to_bits count value)
unfolding write_bits to_bits
write_bits-Writes w value count v h = elim (Bool-cases (count == 0)) [
  | inl e ↦ rw e (record {
    valid = v;
    content =
        sym (append-nil (bits w)) ∙ ap (λ k. bits w ++ to_bits k value) (sym (==→eq count 0 e));
  })
  | inr e ↦ rw e (elim (Bool-cases (leb (w.used + count) 64)) [
    | inl short ↦ rw short (write_short w value count v (ground arith))
    | inr long ↦ rw long (write_long w value count v (ground arith) h)
  ])
]

-- Two writes in a row.
pub Writes-trans :
    {w w' w'' : BitWriter} (s t : List ℕ) → Writes w w' s → Writes w' w'' t → Writes w w'' (s ++ t)
Writes-trans {w} s t p q = record {
  valid = q.valid;
  content = q.content ∙ ap (λ u. u ++ t) p.content ∙ append_assoc (bits w) s t;
}
