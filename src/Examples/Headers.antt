-- ===== src/Examples/Headers.antt =====
-- The headers of an encoder's stream, from a fresh writer to a fresh reader.
use brutli.Prelude.{ℕ, ◌+◌, ◌≡◌, refl, some, List, [], ◌∷◌, ◌++◌, arith, ok, true, false}
use brutli.Prelude.Bits.{to_bits, byte_bits}
use brutli.Encode.BitWriter.{BitWriter, new_writer}
use brutli.Encode.BitWriter.Content.{Writes, new_writer-IsValid}
use brutli.Encode.PrefixCode.{write_var_len_u8}
use brutli.Encode.Framing.{
  write_window_bits, write_compressed_metablock_header, write_uncompressed_header,
  write_final_empty_metablock, nibbles_for_length, write_simple_compressed_header,
}
use brutli.Encode.Config as Config
use brutli.Encode.Config.{EncoderMode, EncoderConfig, direct_distance_codes, distance_postfix_bits}
use brutli.Decode.CompressedHeader as Compressed
use brutli.Codec.SimpleHeader.{simple_string, simple, simple_done, simple_header_round_trip}
use brutli.Decode.BitReader.{source_of}
use brutli.Decode.BitReader.Content.{bits, source_of-IsValid}
use brutli.Decode.Parse.{Parsed}
use brutli.Decode.StreamHeader as Stream
use brutli.Decode.VarLenUint8 as VarLenDecoder
use brutli.Decode.MetaBlockHeader as Header
use brutli.Codec.Window.{window_string, window_round_trip}
use brutli.Codec.VarLen.{var_len_bits, var_len_round_trip}
use brutli.Codec.MetaBlock.{
  size_string, compressed_string, uncompressed_string, compressed_header_round_trip,
  uncompressed_header_round_trip, end_header_round_trip,
}

-- 22 window bits, and four more bits.
abbrev window_bytes : List ℕ
window_bytes = 0x3b ∷ []

-- The byte 6, and two more bits.
abbrev var_len_bytes : List ℕ
var_len_bytes = 0x25 ∷ []

-- A compressed metablock of 300 bytes that is not the last, and four more bits.
abbrev compressed_bytes : List ℕ
compressed_bytes = 0x58 ∷ 0x09 ∷ 0xa0 ∷ []

-- An uncompressed metablock of 300 bytes, and the first of its bytes.
abbrev uncompressed_bytes : List ℕ
uncompressed_bytes = 0x58 ∷ 0x09 ∷ 0x08 ∷ 0x61 ∷ []

abbrev end_bytes : List ℕ
end_bytes = 0x03 ∷ []

window_round_trip_example :
    ((w' : BitWriter) × (write_window_bits 22 new_writer ≡ some w')
      × Writes new_writer w' (window_string 22))
    × Parsed
        (Stream.decode Stream.new_decoder (source_of window_bytes))
        (ok (record { window_bits = 22 }))
        (Stream.at Stream.State.done)
        (to_bits 4 3)
unfolding bits byte_bits to_bits window_string
window_round_trip_example =
    window_round_trip 22 new_writer (source_of window_bytes) (to_bits 4 3) (omega arith)
      (omega arith) new_writer-IsValid (source_of-IsValid window_bytes (omega arith, tt)) refl

var_len_round_trip_example :
    Writes new_writer (write_var_len_u8 6 new_writer) (var_len_bits 6)
    × Parsed
        (VarLenDecoder.decode VarLenDecoder.new_decoder (source_of var_len_bytes))
        6
        VarLenDecoder.new_decoder
        (to_bits 2 0)
unfolding bits byte_bits to_bits var_len_bits brutli.Prelude.Log.bit_length
var_len_round_trip_example =
    var_len_round_trip 6 new_writer (source_of var_len_bytes) (to_bits 2 0) (omega arith)
      new_writer-IsValid (source_of-IsValid var_len_bytes (omega arith, tt)) refl

compressed_header_round_trip_example :
    Writes new_writer
      (write_compressed_metablock_header 300 false new_writer)
      (compressed_string 300 false)
    × Parsed
        (Header.decode Header.new_decoder (source_of compressed_bytes))
        (ok (record { is_last = false; kind = Header.MetaBlockKind.compressed 300 }))
        Header.new_decoder
        (to_bits 4 10)
unfolding bits byte_bits to_bits compressed_string size_string nibbles_for_length
compressed_header_round_trip_example =
    compressed_header_round_trip 300 false new_writer (source_of compressed_bytes) (to_bits 4 10)
      (omega arith) (omega arith) new_writer-IsValid
      (source_of-IsValid compressed_bytes (omega arith, (omega arith, (omega arith, tt)))) refl

uncompressed_header_round_trip_example :
    Writes new_writer (write_uncompressed_header 300 new_writer) (uncompressed_string 300)
    × Parsed
        (Header.decode Header.new_decoder (source_of uncompressed_bytes))
        (ok (record { is_last = false; kind = Header.MetaBlockKind.uncompressed 300 }))
        Header.new_decoder
        (to_bits 8 0x61)
unfolding bits byte_bits to_bits uncompressed_string size_string nibbles_for_length
uncompressed_header_round_trip_example =
    uncompressed_header_round_trip 300 4 new_writer (source_of uncompressed_bytes) (to_bits 8 0x61)
      (omega arith) (omega arith) (omega arith) refl new_writer-IsValid
      (source_of-IsValid uncompressed_bytes
        (omega arith, (omega arith, (omega arith, (omega arith, tt)))))
      refl

end_header_round_trip_example :
    Writes new_writer (write_final_empty_metablock new_writer) (to_bits 1 1 ++ to_bits 1 1)
    × Parsed
        (Header.decode Header.new_decoder (source_of end_bytes))
        (ok (record { is_last = true; kind = Header.MetaBlockKind.end }))
        (record Header.new_decoder { is_last = true; state = Header.State.done })
        []
unfolding bits byte_bits to_bits
end_header_round_trip_example =
    end_header_round_trip 6 new_writer (source_of end_bytes) [] (omega arith) refl
      new_writer-IsValid (source_of-IsValid end_bytes (omega arith, tt)) refl

-- What a font encoder writes, which has 1 postfix bit and 12 direct codes.
abbrev font : EncoderConfig
font = record { window_bits = 22; quality = 5; mode = EncoderMode.font }

abbrev simple_bytes : List ℕ
simple_bytes = 200 ∷ 64 ∷ []

font_test :
    (Config.new 22 5 EncoderMode.font ≡ ok font)
    × (direct_distance_codes font ≡ 12)
    × (distance_postfix_bits font ≡ 1)
unfolding Config.new direct_distance_codes distance_postfix_bits
font_test = (refl, refl, refl)

simple_header_round_trip_example :
    Writes new_writer (write_simple_compressed_header 12 1 new_writer) (simple_string 12 1)
    × Parsed
        (Compressed.decode Compressed.new_decoder (source_of simple_bytes))
        (ok (simple 12 1))
        (simple_done 12 1)
        (to_bits 3 2)
unfolding bits byte_bits to_bits simple_string var_len_bits brutli.Prelude.Log.bit_length
simple_header_round_trip_example =
    simple_header_round_trip 12 1 new_writer (source_of simple_bytes) (to_bits 3 2) (omega arith)
      refl (omega arith) new_writer-IsValid
      (source_of-IsValid simple_bytes (omega arith, (omega arith, tt))) refl
