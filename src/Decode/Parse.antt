-- ===== src/Decode/Parse.antt =====
-- When a call of a decoder takes exactly a given bit string from its source, wherever the string stands.
use brutli.Prelude.{
  ℕ, ◌%◌, ◌^◌, ◌≤◌, ◌<◌, ◌≡◌, refl, sym, ap, ◌∙◌, Bool, true, List, [], ◌++◌, append_assoc, arith,
  length, length-append, append-inj, ◌==◌,
}
use brutli.Prelude.Bits.{to_bits, length-to_bits, to_bits-inj}
use brutli.Prelude.Pow.{two-pow-pos}
use brutli.Decode.BitReader.{Source}
use brutli.Decode.BitReader.Content.{IsValid, bits, Reads-field, align_lem}
use brutli.Decode.Outcome.{Outcome, ready, read_then, read_then-Reads, call_then, align_then}

-- The call answers `t` and leaves the decoder at `d`, with what stood behind the string unread.
pub record Parsed {D T : Type 0} (out : Outcome D T) (t : T) (d : D) (tail : List ℕ) : Type 0 where
  pub after : Source
  pub result : out ≡ ready t d after
  pub valid : IsValid after
  pub content : bits after ≡ tail

module _ {D T : Type 0} where
  -- The call takes `string` from any valid source that holds it with `tail` behind it.
  abbrev pub ParsesTo : List ℕ → (Source → Outcome D T) → T → D → List ℕ → Type 0
  ParsesTo tail call t d string =
      (src : Source) → IsValid src → bits src ≡ string ++ tail → Parsed (call src) t d tail

  abbrev pub Parses : (Source → Outcome D T) → T → D → List ℕ → Type 0
  Parses call t d string = (tail : List ℕ) → ParsesTo tail call t d string

  pub ready-ParsesTo : (t : T) (d : D) (tail : List ℕ) → ParsesTo tail (ready t d) t d []
  ready-ParsesTo t d tail src v e = record { after = src; result = refl; valid = v; content = e }

  pub ready-Parses : (t : T) (d : D) → Parses (ready t d) t d []
  ready-Parses = ready-ParsesTo

  pub read_then-ParsesTo :
      (tail : List ℕ) (count v : ℕ) (from : D) (k : ℕ → Source → Outcome D T) {t : T} {d : D}
      (string : List ℕ)
      → count ≤ 56
      → v < 2 ^ count
      → ParsesTo tail (k v) t d string
      → ParsesTo tail (λ src. read_then count from src k) t d (to_bits count v ++ string)
  read_then-ParsesTo tail count v from k {t} {d} string hc hv next src valid e =
      let (src', r, rest) =
        Reads-field count v src (string ++ tail) hc hv valid
          (e ∙ append_assoc (to_bits count v) string tail) in
      let p = next src' r.valid rest in
      record {
        after = p.after;
        result = read_then-Reads from k hc r ∙ p.result;
        valid = p.valid;
        content = p.content;
      }

  pub read_then-Parses :
      (count v : ℕ) (from : D) (k : ℕ → Source → Outcome D T) {t : T} {d : D} (string : List ℕ)
      → count ≤ 56
      → v < 2 ^ count
      → Parses (k v) t d string
      → Parses (λ src. read_then count from src k) t d (to_bits count v ++ string)
  read_then-Parses count v from k string hc hv next tail =
      read_then-ParsesTo tail count v from k string hc hv (next tail)

  -- Zero bits up to a byte boundary of the stream pass the check of `align_to_byte_with_zero_fill`.
  pub align_then-zero :
      (pad : ℕ) (k : Bool → Source → Outcome D T) (src : Source) (tail : List ℕ)
      → pad < 8
      → length tail % 8 ≡ 0
      → IsValid src
      → bits src ≡ to_bits pad 0 ++ tail
      → (src' : Source) × (align_then src k ≡ k true src') × IsValid src' × (bits src' ≡ tail)
  unfolding align_then
  align_then-zero pad k src tail hp ht valid e =
      let (fill_bits, src', result, fits, valid', content) = align_lem src valid in
      let count : length (bits src) % 8 ≡ pad = omega (
        arith,
        ap (λ (l : List ℕ). length l) e,
        length-append (to_bits pad 0) tail,
        length-to_bits pad 0,
      ) in
      let (same, rest) =
        append-inj (to_bits pad fill_bits) (to_bits pad 0)
          (length-to_bits pad fill_bits ∙ sym (length-to_bits pad 0))
          (sym (rw count at content) ∙ e) in
      let zero_fill : fill_bits ≡ 0 =
        to_bits-inj pad fill_bits 0 (rw count at fits) (two-pow-pos pad) same in
      (
        src',
        ap (λ (p : Bool × Source). k p.0 p.1) result ∙ ap (λ b. k (b == 0) src') zero_fill,
        valid',
        rest,
      )

-- A call of an inner decoder, and what follows it.
pub call_then-Parses :
    {D T D' T' : Type 0} (put : D' → D) (inner : Source → Outcome D' T')
    (k : T' → D' → Source → Outcome D T) {t' : T'} {d' : D'} {t : T} {d : D} (first second : List ℕ)
    → Parses inner t' d' first
    → Parses (k t' d') t d second
    → Parses (λ src. call_then put (inner src) k) t d (first ++ second)
call_then-Parses put inner k first second h next tail src valid e =
    let p = h (second ++ tail) src valid (e ∙ append_assoc first second tail) in
    let q = next tail p.after p.valid p.content in
    record {
      after = q.after;
      result = ap (λ o. call_then put o k) p.result ∙ q.result;
      valid = q.valid;
      content = q.content;
    }
