-- ===== src/Encode/Framing.antt =====
-- src/encode/mod.rs: the stream header, the headers of metablocks, and streams of stored metablocks.
use brutli.Prelude.{
  ℕ, zero, suc, ◌-◌, ◌*◌, ◌^◌, Bool, ◌&&◌, Option, none, some, List, [], ◌∷◌, if◌then◌else◌, ◌==◌,
  leb, length, take, drop, shr,
}
use brutli.Encode.BitWriter.{BitWriter, new_writer, write_bits, align_to_byte, write_bytes, finish}
use brutli.Encode.PrefixCode.{write_var_len_u8}

abbrev pub max_meta_block_size : ℕ
max_meta_block_size = 2 ^ 24

-- `none` is the panic of the last arm.
unfoldable pub write_window_bits : ℕ → BitWriter → Option BitWriter
write_window_bits window_bits writer =
    if window_bits == 16
    then some (write_bits writer 0 1)
    else if leb 18 window_bits && leb window_bits 24
    then some (write_bits (write_bits writer 1 1) (window_bits - 17) 3)
    else if window_bits == 17
    then some (write_bits (write_bits (write_bits writer 1 1) 0 3) 0 3)
    else if leb 10 window_bits && leb window_bits 15
    then some (write_bits (write_bits (write_bits writer 1 1) 0 3) (window_bits - 8) 3)
    else none

-- For a length of 1 to `max_meta_block_size`, as the `debug_assert!` says.
unfoldable pub nibbles_for_length : ℕ → ℕ
nibbles_for_length length =
    if leb 1 length && leb length 0x1_0000
    then 4
    else if leb 0x1_0001 length && leb length 0x10_0000
    then 5
    else 6

abbrev bit_of : Bool → ℕ
bit_of b = if b then 1 else 0

-- For a length of 1 to `max_meta_block_size`, as the `assert!` says.
unfoldable pub write_compressed_metablock_header : ℕ → Bool → BitWriter → BitWriter
write_compressed_metablock_header length is_last writer =
    let nibbles = nibbles_for_length length in
    let last = write_bits writer (bit_of is_last) 1 in
    let not_empty = if is_last then write_bits last 0 1 else last in
    let sized = write_bits (write_bits not_empty (nibbles - 4) 2) (length - 1) (nibbles * 4) in
    if is_last then sized else write_bits sized 0 1

-- The header part of `write_uncompressed_metablock`, up to ISUNCOMPRESSED.
unfoldable pub write_uncompressed_header : ℕ → BitWriter → BitWriter
write_uncompressed_header length writer =
    let nibbles = nibbles_for_length length in
    let last = write_bits writer 0 1 in
    write_bits (write_bits (write_bits last (nibbles - 4) 2) (length - 1) (nibbles * 4)) 1 1

-- For input of 1 to `max_meta_block_size` bytes.
unfoldable pub write_uncompressed_metablock : List ℕ → BitWriter → Option BitWriter
unfolding write_uncompressed_header
write_uncompressed_metablock input writer =
    write_bytes (align_to_byte (write_uncompressed_header (length input) writer)) input

unfoldable pub write_final_empty_metablock : BitWriter → BitWriter
write_final_empty_metablock writer = write_bits (write_bits writer 1 1) 1 1

-- For parameters as the `debug_assert!`s say: at most 3 postfix bits, and a multiple of 2^NPOSTFIX direct codes,
-- at most 15 times it.
unfoldable pub write_simple_compressed_header : ℕ → ℕ → BitWriter → BitWriter
write_simple_compressed_header direct_distance_codes postfix_bits writer =
    let types = write_var_len_u8 0 (write_var_len_u8 0 (write_var_len_u8 0 writer)) in
    let distances =
      write_bits (write_bits types postfix_bits 2) (shr direct_distance_codes postfix_bits) 4 in
    write_var_len_u8 0 (write_var_len_u8 0 (write_bits distances 0 2))

-- `for chunk in input.chunks(MAX_META_BLOCK_SIZE)`, with a bound on the number of chunks.
write_chunks : ℕ → List ℕ → BitWriter → Option BitWriter
write_chunks zero input writer = some writer
write_chunks (suc fuel) [] writer = some writer
write_chunks (suc fuel) (byte ∷ input) writer =
    let chunk = take max_meta_block_size (byte ∷ input) in
    elim (write_uncompressed_metablock chunk writer) [
      | none ↦ none
      | some written ↦ write_chunks fuel (drop max_meta_block_size (byte ∷ input)) written
    ]

-- Every chunk has a byte at least, so there are no more chunks than bytes.
unfoldable pub compress_stored : List ℕ → ℕ → Option (List ℕ)
unfolding write_chunks
compress_stored input window_bits = elim (write_window_bits window_bits new_writer) [
  | none ↦ none
  | some begun ↦ elim (write_chunks (length input) input begun) [
    | none ↦ none
    | some written ↦ some (finish (write_final_empty_metablock written))
  ]
]
