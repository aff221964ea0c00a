-- ===== src/Examples/Writer.antt =====
-- Two writers with bits in them.
use brutli.Prelude.{◌≤◌, ◌≡◌, refl, [], ◌∷◌, ◌++◌, arith, length}
use brutli.Prelude.Bits.{IsBytes, to_bits, byte_bits}
use brutli.Encode.BitWriter.{
  BitWriter, write_bits, append_writer, drain_bytes, finish, le_bytes, stage, flush_word,
}
use brutli.Encode.BitWriter.Content.{IsValid, bits, Writes, write_bits-Writes}
use brutli.Encode.BitWriter.Append.{padding, finish_lem, append_writer-Writes, drain_bytes_lem}

abbrev partial : BitWriter
partial = record { bytes = 7 ∷ []; pending = 0x1b5; used = 9 }

abbrev other : BitWriter
other = record { bytes = 0x80 ∷ 3 ∷ []; pending = 2; used = 3 }

abbrev nearly_full : BitWriter
nearly_full = record { bytes = []; pending = 5; used = 62 }

partial-IsValid : IsValid partial
partial-IsValid = record {
  pending_fits = omega arith;
  partial = omega arith;
  bytes = (omega arith, tt);
}

other-IsValid : IsValid other
other-IsValid = record {
  pending_fits = omega arith;
  partial = omega arith;
  bytes = (omega arith, (omega arith, tt));
}

nearly_full-IsValid : IsValid nearly_full
nearly_full-IsValid = record { pending_fits = omega arith; partial = omega arith; bytes = tt }

written_over_the_word :
    write_bits nearly_full 0xff 4
    ≡ record { bytes = 5 ∷ 0 ∷ 0 ∷ 0 ∷ 0 ∷ 0 ∷ 0 ∷ 0xc0 ∷ []; pending = 3; used = 2 }
unfolding write_bits stage flush_word le_bytes
written_over_the_word = refl

write_bits-Writes_example : Writes nearly_full (write_bits nearly_full 0xff 4) (to_bits 4 0xff)
write_bits-Writes_example = write_bits-Writes nearly_full 0xff 4 nearly_full-IsValid (omega arith)

finish_lem_example :
    (byte_bits (finish partial) ≡ bits partial ++ to_bits (padding partial) 0)
    × IsBytes (finish partial)
finish_lem_example = finish_lem partial partial-IsValid

append_writer-Writes_example : Writes partial (append_writer partial other) (bits other)
append_writer-Writes_example = append_writer-Writes partial other partial-IsValid other-IsValid

drain_bytes_lem_example :
    let (out, w') = drain_bytes 1 partial in
    (byte_bits out ++ bits w' ≡ bits partial) × (length out ≤ 1) × IsBytes out × IsValid w'
drain_bytes_lem_example = drain_bytes_lem 1 partial partial-IsValid
