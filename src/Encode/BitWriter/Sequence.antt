-- ===== src/Encode/BitWriter/Sequence.antt =====
-- Sequences of writes, and the stream that they finish as.
use brutli.Prelude.{ℕ, ◌≤◌, ◌≡◌, sym, ap, ◌∙◌, List, [], ◌++◌, append-nil}
use brutli.Prelude.Bits.{to_bits}
use brutli.Encode.BitWriter.{BitWriter, new_writer, write_bits, finish}
use brutli.Encode.BitWriter.Content.{
  IsValid, bits, Writes, Writes-trans, write_bits-Writes, new_writer-IsValid, bits-new_writer,
}
use brutli.Encode.BitWriter.Append.{padding, finish_lem}
use brutli.Decode.BitReader.{source_of}
use brutli.Decode.BitReader.Content as Reader

-- The operation appends `string` to every valid writer.
abbrev pub Appends : (BitWriter → BitWriter) → List ℕ → Type 0
Appends f string = (w : BitWriter) → IsValid w → Writes w (f w) string

pub nothing-Appends : Appends (λ w. w) []
nothing-Appends w v = record { valid = v; content = sym (append-nil (bits w)) }

-- A field of `count` bits, and what is written after it.
pub field-Appends :
    (value count : ℕ) (next : BitWriter → BitWriter) (string : List ℕ)
    → count ≤ 64
    → Appends next string
    → Appends (λ w. next (write_bits w value count)) (to_bits count value ++ string)
field-Appends value count next string h q w v =
    let first = write_bits-Writes w value count v h in
    Writes-trans (to_bits count value) string first (q (write_bits w value count) first.valid)

pub last_field-Appends :
    (value count : ℕ)
    → count ≤ 64
    → Appends (λ w. write_bits w value count) (to_bits count value ++ [])
last_field-Appends value count h = field-Appends value count (λ w. w) [] h nothing-Appends

pub then-Appends :
    (f next : BitWriter → BitWriter) (first second : List ℕ)
    → Appends f first
    → Appends next second
    → Appends (λ w. next (f w)) (first ++ second)
then-Appends f next first second p q w v =
    let wrote = p w v in Writes-trans first second wrote (q (f w) wrote.valid)

-- The stream that a fresh writer finishes as holds the string, filled up with zeros to a whole byte.
pub finished_source :
    (f : BitWriter → BitWriter) (string : List ℕ)
    → Appends f string
    → Reader.IsValid (source_of (finish (f new_writer)))
      × (Reader.bits (source_of (finish (f new_writer)))
          ≡ string ++ to_bits (padding (f new_writer)) 0)
finished_source f string h =
    let wrote = h new_writer new_writer-IsValid in
    let (content, bytes) = finish_lem (f new_writer) wrote.valid in
    (
      Reader.source_of-IsValid (finish (f new_writer)) bytes,
      Reader.bits-source_of (finish (f new_writer))
          ∙ content
          ∙ ap (λ t. t ++ to_bits (padding (f new_writer)) 0)
              (wrote.content ∙ ap (λ t. t ++ string) bits-new_writer),
    )
