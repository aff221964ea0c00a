-- ===== src/Examples/Resumes.antt =====
-- The decoders on an input that is cut in two.
use brutli.Prelude.{ℕ, ◌≡◌, refl, List, [], ◌∷◌}
use brutli.Decode.BitReader.{Source, source_of, feed, read_bits}
use brutli.Decode.BitReader.Resume.{ReadResumes, read_bits-ReadResumes}
use brutli.Decode.Outcome.{Resumed, ready}
use brutli.Decode.PrefixCode as Prefix
use brutli.Decode.PrefixCode.Resume.{prefix_code-Resumes}
use brutli.Decode.MetaBlockHeader as Header
use brutli.Decode.MetaBlockHeader.Resume.{metablock_header-Resumes}
use brutli.Decode.StreamHeader as Stream
use brutli.Decode.StreamHeader.Resume.{stream_header-Resumes}

abbrev first_slice : Source
first_slice = source_of (0x58 ∷ [])

abbrev second_slice : List ℕ
second_slice = 0x09 ∷ 0xa0 ∷ []

metablock_header-Resumes_example :
    Resumed Header.decode second_slice
      (Header.decode Header.new_decoder first_slice)
      (Header.decode Header.new_decoder (feed first_slice second_slice))
metablock_header-Resumes_example =
    metablock_header-Resumes Header.new_decoder first_slice second_slice

stream_header-Resumes_example :
    Resumed Stream.decode second_slice
      (Stream.decode Stream.new_decoder (source_of []))
      (Stream.decode Stream.new_decoder (feed (source_of []) second_slice))
stream_header-Resumes_example = stream_header-Resumes Stream.new_decoder (source_of []) second_slice

read_bits-ReadResumes_example :
    ReadResumes 11
      (read_bits 11 first_slice)
      (read_bits 11 (feed first_slice second_slice))
      second_slice
read_bits-ReadResumes_example = read_bits-ReadResumes 11 first_slice second_slice

-- The code of two symbols with a bit each.
abbrev two_symbols : Prefix.PrefixCode
two_symbols = Prefix.PrefixCode.canonical (record {
  counts = 0 ∷ 2 ∷ 0 ∷ [];
  first_code = 0 ∷ 0 ∷ 4 ∷ [];
  first_symbol = 0 ∷ 0 ∷ 2 ∷ [];
  symbols = 0 ∷ 1 ∷ [];
  max_len = 1;
})

prefix_code-Resumes_example :
    Resumed
      (Prefix.decode two_symbols)
      second_slice
      (Prefix.decode two_symbols Prefix.fresh_symbol (source_of []))
      (Prefix.decode two_symbols Prefix.fresh_symbol (feed (source_of []) second_slice))
prefix_code-Resumes_example =
    prefix_code-Resumes two_symbols Prefix.fresh_symbol (source_of []) second_slice

symbol_one :
    Prefix.decode two_symbols Prefix.fresh_symbol (source_of second_slice)
    ≡ ready 1 Prefix.fresh_symbol
        (record { reader = record { buffer = 4; buffered = 7 }; rest = 0xa0 ∷ [] })
unfolding Prefix.decode Prefix.decode_canonical read_bits brutli.Decode.Outcome.read_then
    brutli.Decode.BitReader.fill brutli.Decode.BitReader.push_byte
symbol_one = refl
