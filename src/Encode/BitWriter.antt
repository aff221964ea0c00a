-- ===== src/Encode/BitWriter.antt =====
-- src/encode/bit_writer.rs. A method that changes `self` returns the new writer.
pub mod Content
pub mod Append
pub mod Sequence
use brutli.Prelude.{
  ℕ, zero, suc, ◌+◌, ◌-◌, ◌*◌, ◌/◌, ◌%◌, ◌^◌, min, bit_and, bit_or, Bool, true, Option, none, some,
  List, [], ◌∷◌, ◌++◌, ltb, leb, ◌==◌, if◌then◌else◌, shl_u64, length, take, drop,
}

pub record BitWriter : Type 0 where
  pub bytes : List ℕ
  pub pending : ℕ
  pub used : ℕ

abbrev pub new_writer : BitWriter
new_writer = record { bytes = []; pending = 0; used = 0 }

-- `low_mask`: all ones at 64 bits, where `1 << bits` would overflow.
abbrev pub low_mask : ℕ → ℕ
low_mask bits = if bits == 64 then 2 ^ 64 - 1 else 2 ^ bits - 1

-- The `n` low bytes of `u64::to_le_bytes`.
unfoldable pub le_bytes : ℕ → ℕ → List ℕ
le_bytes zero v = []
le_bytes (suc n) v = v % 256 ∷ le_bytes n (v / 256)

unfoldable pub flush_word : BitWriter → BitWriter
flush_word w = record { bytes = w.bytes ++ le_bytes 8 w.pending; pending = 0; used = 0 }

-- `pending |= (value & low_mask(count)) << used; used += count`
unfoldable pub stage : BitWriter → ℕ → ℕ → BitWriter
stage w value count = record w {
  pending = bit_or w.pending (shl_u64 (bit_and value (low_mask count)) w.used);
  used = w.used + count;
}

-- For at most 64 bits, as the `debug_assert!` says.
unfoldable pub write_bits : BitWriter → ℕ → ℕ → BitWriter
write_bits w value count =
    let total = w.used + count in
    let take = 64 - w.used in
    if count == 0
    then w
    else if leb total 64
    then (let staged = stage w value count in
        if staged.used == 64 then flush_word staged else staged)
    else record (flush_word (stage w value take)) {
      pending = bit_and (value / 2 ^ take) (low_mask (count - take));
      used = count - take;
    }

-- `u16::reverse_bits` at width `n`.
unfoldable pub reverse_bits : ℕ → ℕ → ℕ
reverse_bits zero v = 0
reverse_bits (suc n) v = v % 2 * 2 ^ n + reverse_bits n (v / 2)

-- For at most 16 bits, as the `debug_assert!` says.
unfoldable pub write_prefix : BitWriter → ℕ → ℕ → BitWriter
write_prefix w code count =
    if count == 0 then w else write_bits w (reverse_bits 16 code / 2 ^ (16 - count)) count

unfoldable pub bit_len : BitWriter → ℕ
bit_len w = length w.bytes * 8 + w.used

write_each_byte : BitWriter → List ℕ → BitWriter
write_each_byte w [] = w
write_each_byte w (byte ∷ bytes) = write_each_byte (write_bits w byte 8) bytes

unfoldable pub append_writer : BitWriter → BitWriter → BitWriter
unfolding write_each_byte
append_writer w other =
    let w' = write_each_byte w other.bytes in
    if ltb 0 other.used
    then write_bits w' (bit_and other.pending (low_mask other.used)) other.used
    else w'

-- `used & !7` is the whole bytes that are pending.
unfoldable pub flush_complete_pending : BitWriter → BitWriter
flush_complete_pending w =
    let whole_bits = w.used - w.used % 8 in
    if ltb 0 whole_bits
    then record {
      bytes = w.bytes ++ take (whole_bits / 8) (le_bytes 8 w.pending);
      pending = w.pending / 2 ^ whole_bits;
      used = w.used - whole_bits;
    }
    else w

-- The bytes copied into an output of `room` bytes, and the writer that keeps the others.
unfoldable pub drain_bytes : ℕ → BitWriter → List ℕ × BitWriter
drain_bytes room w =
    let flushed = flush_complete_pending w in
    let count = min room (length flushed.bytes) in
    (take count flushed.bytes, record flushed { bytes = drop count flushed.bytes })

unfoldable pub queued_bytes : BitWriter → ℕ × BitWriter
queued_bytes w = let flushed = flush_complete_pending w in (length flushed.bytes, flushed)

unfoldable pub align_to_byte : BitWriter → BitWriter
align_to_byte w = if w.used == 0 then w else record {
  bytes = w.bytes ++ take ((w.used + 7) / 8) (le_bytes 8 w.pending);
  pending = 0;
  used = 0;
}

-- `none` is the failed `assert_eq!` on the alignment.
unfoldable pub write_bytes : BitWriter → List ℕ → Option BitWriter
write_bytes w bytes = if w.used == 0 then some (record w { bytes = w.bytes ++ bytes }) else none

unfoldable pub finish : BitWriter → List ℕ
finish w = (align_to_byte w).bytes
