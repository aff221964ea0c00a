-- ===== src/Lib.antt =====
-- Verification of brutli, a Brotli (RFC 7932) encoder and decoder.
--
-- The decoder is a tree of incremental state machines over one bit reader. Each machine is called with a
-- slice of input and a cursor, and returns a value, an error, or a wish for more input; it keeps its state
-- in between. The encoder writes the same fields with one bit writer. The development models both sides,
-- field by field.
--
-- Files and the code they model (paths from the root of the repository):
--   Prelude: lists by native index, machine words, bit strings (`to_bits`, `byte_bits`), bit lengths, tables.
--   Decode/BitReader: src/decode/bit_reader.rs. `Source` is the reader with the input that is not yet taken.
--   Decode/Outcome: what a call of a decoder comes to; `?` and `let ... else` after a read are `read_then`.
--   Decode/Parse: when a call takes exactly a given bit string from its source.
--   Decode/VarLenUint8: src/decode/var_len_uint8.rs.
--   Decode/StreamHeader: src/decode/stream_header.rs.
--   Decode/MetaBlockHeader: src/decode/metablock_header.rs; one arm for each state, and the loop as calls
--     from arm to arm.
--   Decode/Command: src/decode/command.rs.
--   Decode/History: src/decode/history.rs, the ring buffer of the window; Ring, Refine, Slice, Repeat and
--     Copy relate it to the list of all bytes pushed.
--   Decode/Distance: src/decode/distance.rs.
--   Decode/Context: src/decode/context.rs.
--   Decode/PrefixCode: src/decode/prefix_code.rs.
--   Decode/SimplePrefixCode, Decode/ComplexPrefixCode, Decode/PrefixCodeDecoder: simple_prefix_code.rs,
--     complex_prefix_code.rs and prefix_code_decoder.rs of src/decode, the codes as a stream describes them.
--   Decode/BlockPartition, Decode/BlockState: src/decode/block_partition.rs and src/decode/block_state.rs.
--   Decode/ContextMap, Decode/TreeGroup: src/decode/context_map.rs and src/decode/tree_group.rs.
--   Decode/CompressedHeader, Decode/CompressedTrees: src/decode/compressed_header.rs and compressed_trees.rs;
--     an inner decoder is called by `call_then` and `try_call` of Decode/Outcome.
--   Decode/Dictionary: src/dictionary.rs, with the data file of the words as a parameter.
--   Decode/CompressedBlock: src/decode/compressed_block.rs; a round of the loop of `process` is `step`.
--   Decode/CompressedMetaBlock: src/decode/compressed_metablock.rs.
--   Decode/Decoder: src/decode/decoder.rs; a round of the loop of `process` is `step`.
--   Decode/Core: `CoreDecoder` of src/decode/mod.rs.
--   Decode/Facade: `Decoder` and `decompress` of src/lib.rs.
--   The modules Resume relate a call on an input to two calls on the parts of it.
--   Encode/BitWriter: src/encode/bit_writer.rs. Content says which bits a writer holds.
--   Encode/PrefixCode: `write_var_len_u8` of src/encode/prefix_code.rs.
--   Encode/Framing: the headers and stored streams of src/encode/mod.rs.
--   Encode/Command: src/encode/command.rs.
--   Encode/Distance: src/encode/distance.rs.
--   Encode/BlockSplit: the move-to-front transform of src/encode/greedy/block_split.rs.
--   Encode/Config: `EncoderConfig` of src/encode/mod.rs.
--   Codec: the fields of the encoder against the decoders of the same fields.
--   Examples: runs on concrete inputs.
--
-- Numbers are the native naturals. A shift left, a cast and a buffer of 64 bits are cut to their width where
-- the code can reach it; `usize` has 64 bits. A failed `assert!`, `expect` or `unreachable!` is
-- `panicked`, `crashed`, `undecided` or `none`, with these exceptions. A `debug_assert!`, and an `assert!` on the
-- arguments of an operation that returns a writer or makes a decoder, is a condition in the comment above the
-- definition. `entries_loop` panics on a map that is longer than its size, where the code goes on. The
-- code-length space of a decoder that has failed is 0 where the code's is below zero.
--
-- Errors: a step or a call that fails comes with the state and the output that it leaves, up to the decoder of
-- src/lib.rs, which keeps the error. A panic leaves none.
--
-- Loops: `read_bits` recurses on the input; the size fields of a metablock header recurse on the digits
-- left, `width - index`; `push_slice` and the doubling of `copy_into` on a bound, the number of bytes, which
-- is enough because every round takes a byte at least; `compress_stored` likewise on the input's length; a
-- symbol of a prefix code on the code lengths that are left, 15 at most, as the code's arrays have 16 places;
-- the lengths of a described code on the symbols that are left, and the entries of a context map on the entries
-- that are left, as every round fills in one at least; the trees of a group and the context modes on those that
-- are left. The loops of `CompressedBlock::process`, of the stream decoder and of `decompress` run for a given number
-- of rounds; `again`, `unfinished` and `unended` are loops that have not ended by then.
--
-- Not modelled: the search for matches and the choice among encodings (src/encode/greedy.rs, fragment.rs,
-- match_finder.rs, hash_tree.rs, static_dictionary.rs, and src/encode/greedy/block_split.rs but for its
-- move-to-front transform), which are heuristics; the streaming encoder (src/encode/stream.rs); the texts of
-- errors and the interface of the encoder in src/lib.rs; and src/reader.rs, an adapter to the standard library.
pub mod Prelude
pub mod Decode
pub mod Encode
pub mod Codec
pub mod Examples
