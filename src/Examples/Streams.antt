-- ===== src/Examples/Streams.antt =====
-- Whole streams, the header of a compressed meta-block, and its data.
use brutli.Prelude.{
  ℕ, ◌≡◌, refl, arith, false, Option, none, some, List, [], ◌∷◌, replicate, length-replicate, err,
  ok, Result,
}
use brutli.Decode.BitReader.{
  source_of, feed, read_bits, fill, push_byte, align_to_byte_with_zero_fill,
}
use brutli.Decode.StreamHeader as Stream
use brutli.Decode.MetaBlockHeader as MetaBlock
use brutli.Decode.Outcome.{Resumed, read_then, align_then}
use brutli.Decode.PrefixCode.{PrefixCode}
use brutli.Decode.BlockPartition.{BlockPartition, single}
use brutli.Decode.BlockState as BlockState
use brutli.Decode.BlockState.Resume.{block_state-Resumes}
use brutli.Decode.ComplexPrefixCode as Complex
use brutli.Decode.ComplexPrefixCode.Advance.{lengths_loop-enough}
use brutli.Decode.CompressedHeader as Header
use brutli.Decode.CompressedHeader.{CompressedHeader}
use brutli.Decode.CompressedHeader.Resume.{header-Resumes}
use brutli.Decode.CompressedTrees as Trees
use brutli.Decode.CompressedTrees.{CompressedTrees}
use brutli.Decode.CompressedTrees.Resume.{trees-Resumes}
use brutli.Decode.CompressedBlock as Block
use brutli.Decode.CompressedBlock.Inside.{OnStep, IsInside}
use brutli.Decode.CompressedBlock.Bounds.{rounds-OnStep}
use brutli.Decode.Decoder as Decoder
use brutli.Decode.Decoder.Bounds as DecoderBounds
use brutli.Decode.Decoder.Bounds.{process-OnStep}
use brutli.Decode.Dictionary as Dictionary
use brutli.Decode.Dictionary.Total.{Succeeds, transform-Succeeds}
use brutli.Decode.Distance.{default_recent}
use brutli.Decode.History as History
use brutli.Decode.Core as Core
use brutli.Decode.Core.Window.{IsDecided, check-IsDecided}
use brutli.Decode.Facade as Facade
use brutli.Decode.Facade.Limit.{Keeps, process-Keeps}
use brutli.Decode.Facade.Decompress.{IsWithin, decompress-IsWithin}
use brutli.Decode.Facade.Sticky.{errors-Terminal}
use brutli.Encode.BlockSplit.{move_to_front_transform}
use brutli.Decode.ContextMap.{inverse_move_to_front}
use brutli.Codec.ContextMap.{move_to_front_round_trip}

-- "hello" in one stored meta-block, and the final empty one.
abbrev stored_hello : List ℕ
stored_hello = 0x40 ∷ 0x00 ∷ 0x10 ∷ 104 ∷ 101 ∷ 108 ∷ 108 ∷ 111 ∷ 0x03 ∷ []

abbrev room : List ℕ
room = replicate 8 0

-- The same, with a metablock header behind the stored bytes whose reserved bit is set.
abbrev broken_hello : List ℕ
broken_hello = 0x40 ∷ 0x00 ∷ 0x10 ∷ 104 ∷ 101 ∷ 108 ∷ 108 ∷ 111 ∷ 0x0e ∷ []

process-Keeps_example :
    Keeps
      (some 16)
      8
      (Facade.process_inner [] 20 (Facade.with_output_limit 16) broken_hello room false)
process-Keeps_example =
    process-Keeps [] 20 (Facade.with_output_limit 16) broken_hello room false
      (record { fits = tt; under = omega arith })

abbrev answer_of : Facade.Call → Option (Result Facade.DecodeError Facade.DecodeProgress × List ℕ)
answer_of (Facade.called answer d output) = some (answer, output)
answer_of Facade.crashed = none
answer_of Facade.unfinished = none

-- The call fails, with the stored bytes in the output.
broken_test :
    answer_of (Facade.process_inner [] 20 (Facade.with_output_limit 16) broken_hello room false)
    ≡ some (err Facade.DecodeError.invalid_meta_block, 104 ∷ 101 ∷ 108 ∷ 108 ∷ 111 ∷ 0 ∷ 0 ∷ 0 ∷ [])
unfolding Facade.process_inner Facade.advance Facade.of_core Facade.allowed_output Core.process
    Core.check_window_limit Stream.decode Stream.first_bit_arm read_then read_bits fill push_byte
    Decoder.process Decoder.rounds Decoder.step Decoder.stream_header_arm
    Decoder.meta_block_header_arm Decoder.uncompressed_arm Decoder.ask Decoder.need MetaBlock.decode
    MetaBlock.is_last_arm MetaBlock.nibbles_arm MetaBlock.data_length_loop MetaBlock.data_length_arm
    MetaBlock.after_data_length MetaBlock.is_uncompressed_arm MetaBlock.uncompressed_alignment_arm
    MetaBlock.finish align_then align_to_byte_with_zero_fill History.push_slice History.overwrite
    History.write_around MetaBlock.metadata_reserved_arm
broken_test = refl

process-OnStep_example :
    DecoderBounds.OnStep
      (DecoderBounds.IsInside 8)
      (Decoder.process [] 20 Decoder.new_decoder stored_hello room)
process-OnStep_example = process-OnStep 8 [] 20 Decoder.new_decoder stored_hello room tt refl

decompress-IsWithin_example : IsWithin 16 (Facade.decompress [] 20 stored_hello 16)
decompress-IsWithin_example = decompress-IsWithin [] 20 stored_hello 16

hello_test :
    Facade.decompress [] 20 stored_hello 16 ≡ Facade.decoded (ok (104 ∷ 101 ∷ 108 ∷ 108 ∷ 111 ∷ []))
unfolding Facade.decompress Facade.decompress_loop Facade.process Facade.process_inner
    Facade.advance Facade.of_core Facade.allowed_output Facade.status_of Core.process
    Core.check_window_limit Stream.decode Stream.first_bit_arm read_then read_bits fill push_byte
    Decoder.process Decoder.rounds Decoder.step Decoder.stream_header_arm
    Decoder.meta_block_header_arm Decoder.uncompressed_arm Decoder.ask Decoder.need MetaBlock.decode
    MetaBlock.is_last_arm MetaBlock.nibbles_arm MetaBlock.data_length_loop MetaBlock.data_length_arm
    MetaBlock.after_data_length MetaBlock.is_uncompressed_arm MetaBlock.uncompressed_alignment_arm
    MetaBlock.finish MetaBlock.is_last_empty_arm MetaBlock.end_alignment_arm align_then
    align_to_byte_with_zero_fill History.push_slice History.overwrite History.write_around
hello_test = refl

-- A stream header whose window is not one of the format.
abbrev bad_header : List ℕ
bad_header = 0x11 ∷ []

abbrev refused : Facade.Decoder
refused = record (Facade.with_output_limit 3) {
  error = some Facade.DecodeError.invalid_stream_header;
}

bad_header_test :
    Facade.process_inner [] 20 (Facade.with_output_limit 3) bad_header room false
    ≡ Facade.called (err Facade.DecodeError.invalid_stream_header) refused room
unfolding Facade.process_inner Facade.advance Facade.of_core Core.process Core.check_window_limit
    Stream.decode Stream.first_bit_arm Stream.upper_range_arm Stream.lower_range_arm read_then
    read_bits fill push_byte Facade.allowed_output
bad_header_test = refl

errors-Terminal_example :
    (Facade.process [] 20 refused stored_hello room
      ≡ Facade.called (err Facade.DecodeError.invalid_stream_header) refused room)
    × (Facade.finish [] 20 refused room
        ≡ Facade.called (err Facade.DecodeError.invalid_stream_header) refused room)
errors-Terminal_example =
    errors-Terminal [] 20 (Facade.with_output_limit 3) refused bad_header room room false
      Facade.DecodeError.invalid_stream_header bad_header_test stored_hello room

check-IsDecided_example :
    IsDecided (Core.check_window_limit (Core.with_max_window_bits 20) bad_header)
check-IsDecided_example =
    check-IsDecided (Core.with_max_window_bits 20) bad_header (omega arith, tt)

header-Resumes_example :
    Resumed Header.decode stored_hello
      (Header.decode Header.new_decoder (source_of bad_header))
      (Header.decode Header.new_decoder (feed (source_of bad_header) stored_hello))
header-Resumes_example = header-Resumes Header.new_decoder (source_of bad_header) stored_hello

abbrev one_tree_each : Trees.CompressedTreesDecoder
one_tree_each = Trees.from_counts 1 1 1 0 0

trees-Resumes_example :
    Resumed Trees.decode stored_hello
      (Trees.decode one_tree_each (source_of bad_header))
      (Trees.decode one_tree_each (feed (source_of bad_header) stored_hello))
trees-Resumes_example = trees-Resumes one_tree_each (source_of bad_header) stored_hello

abbrev two_types : BlockPartition
two_types = record {
  num_types = 2;
  type_code = some (PrefixCode.single 1);
  length_code = some (PrefixCode.single 3);
  first_length = some 0;
}

block_state-Resumes_example :
    Resumed
      (BlockState.current two_types)
      stored_hello
      (BlockState.current two_types (BlockState.new two_types) (source_of []))
      (BlockState.current two_types (BlockState.new two_types) (feed (source_of []) stored_hello))
block_state-Resumes_example =
    block_state-Resumes two_types (BlockState.new two_types) (source_of []) stored_hello

lengths_loop-enough_example :
    Complex.lengths_loop 4 (Complex.new 4 0) (source_of bad_header)
    ≡ Complex.lengths_loop 9 (Complex.new 4 0) (source_of bad_header)
unfolding Complex.new
lengths_loop-enough_example =
    lengths_loop-enough 4 9 (Complex.new 4 0) (source_of bad_header) (omega arith) (omega arith)
      (omega arith)

abbrev plain_header : CompressedHeader
plain_header = record {
  literal_partition = single;
  command_partition = single;
  distance_partition = single;
  distance_postfix_bits = 0;
  num_direct_distance_codes = 0;
  literal_context_modes = 0 ∷ [];
  num_literal_trees = 1;
  literal_context_map = replicate 64 0;
  num_distance_trees = 1;
  distance_context_map = replicate 4 0;
}

-- The letter A, the command for four literals, and the last distance, in no bits at all.
abbrev plain_trees : CompressedTrees
plain_trees = record {
  literal = PrefixCode.single 65 ∷ [];
  command = PrefixCode.single 32 ∷ [];
  distance = PrefixCode.single 0 ∷ [];
}

abbrev four_letters : Block.Run
four_letters = record {
  block = Block.new plain_header plain_trees 4;
  output = room;
  output_cursor = 0;
  history = History.new 16;
  recent = default_recent;
}

rounds-OnStep_example : OnStep (IsInside 8 4) (Block.rounds [] 12 four_letters (source_of []))
rounds-OnStep_example =
    rounds-OnStep 8 4 [] 12 four_letters (source_of [])
      (record { size = refl; below = omega arith; declared = omega arith; fits = omega arith })

abbrev blank_dictionary : List ℕ
blank_dictionary = replicate 122784 0

transform-Succeeds_example : Succeeds (Dictionary.transform blank_dictionary 5 4 0)
transform-Succeeds_example =
    transform-Succeeds blank_dictionary 5 4 0 (length-replicate {A = ℕ} 122784 0) (omega arith)
      (omega arith) (omega arith) (omega arith)

abbrev small_map : List ℕ
small_map = 3 ∷ 1 ∷ 3 ∷ 0 ∷ []

move_to_front_round_trip_example :
    (transformed : List ℕ) × (move_to_front_transform small_map ≡ some transformed)
    × (inverse_move_to_front transformed ≡ small_map)
move_to_front_round_trip_example =
    move_to_front_round_trip small_map
      (omega arith, (omega arith, (omega arith, (omega arith, tt))))
