-- ===== src/Decode/Decoder.antt =====
-- src/decode/decoder.rs: a whole stream. One round of the loop of `process` is a step; the input that is not
-- yet taken stands with the bit reader, and the caller's `output` is a list.
pub mod Bounds
use brutli.Prelude.{
  ℕ, zero, suc, ◌+◌, ◌-◌, min, Bool, true, false, Option, none, some, List, [], ◌++◌, if◌then◌else◌,
  ◌==◌, length, take, drop, Result, ok, err,
}
use brutli.Decode.BitReader.{BitReader, Source, new_reader, align_to_byte_with_zero_fill}
use brutli.Decode.Outcome.{Outcome, pending, ready, panicked, expect}
use brutli.Decode.StreamHeader as StreamHeader
use brutli.Decode.StreamHeader.{StreamHeaderDecoder, StreamHeaderError}
use brutli.Decode.MetaBlockHeader as MetaBlockHeader
use brutli.Decode.MetaBlockHeader.{MetaBlockHeaderDecoder, MetaBlockHeaderError, MetaBlockKind}
use brutli.Decode.CompressedBlock.{CompressedStatus}
use brutli.Decode.CompressedMetaBlock as Compressed
use brutli.Decode.CompressedMetaBlock.{
  CompressedMetaBlockDecoder, CompressedMetaBlockError, MetaBlockRun, Processed,
}
use brutli.Decode.Distance.{RecentDistances, default_recent}
use brutli.Decode.History as History

pub data ProcessStatus : Type 0 where
  need_input need_output done : ProcessStatus

pub data DecodeError : Type 0 where
  in_stream_header : StreamHeaderError → DecodeError
  in_meta_block_header : MetaBlockHeaderError → DecodeError
  in_compressed : CompressedMetaBlockError → DecodeError
  non_zero_final_padding : DecodeError

pub data Phase : Type 0 where
  stream_header meta_block_header : Phase
  compressed : (is_last : Bool) → Phase
  uncompressed : (remaining : ℕ) → Phase
  metadata : (remaining : ℕ) (is_last : Bool) → Phase
  finished : Phase

pub record Decoder : Type 0 where
  pub reader : BitReader
  pub stream_header : StreamHeaderDecoder
  pub metablock_header : MetaBlockHeaderDecoder
  pub phase : Phase
  pub window_bits : Option ℕ
  pub history : Option History.History
  pub recent_distances : RecentDistances
  pub compressed : Option CompressedMetaBlockDecoder

abbrev pub new_decoder : Decoder
new_decoder = record {
  reader = new_reader;
  stream_header = StreamHeader.new_decoder;
  metablock_header = MetaBlockHeader.new_decoder;
  phase = Phase.stream_header;
  window_bits = none;
  history = none;
  recent_distances = default_recent;
  compressed = none;
}

-- What a call of `process` changes, but for the reader and its input.
pub record Run : Type 0 where
  pub decoder : Decoder
  pub output : List ℕ
  pub output_cursor : ℕ

-- One round of the loop. `unfinished` is an inner loop that has not ended in the rounds that it is given.
pub data Step : Type 0 where
  again : Run → Source → Step
  returned : ProcessStatus → Run → Source → Step
  failed : DecodeError → Run → Source → Step
  crashed unfinished : Step

abbrev pub at_phase : Run → Phase → Run
at_phase r phase = record r { decoder = record r.decoder { phase = phase } }

-- `let Some(header) = decoder.decode(…)? else { return … NeedInput }`
unfoldable pub ask :
    {D E A : Type 0}
    → (D → Run)
    → (E → DecodeError)
    → Outcome D (Result E A)
    → (A → Run → Source → Step)
    → Step
ask put wrap (pending d src) k = returned ProcessStatus.need_input (put d) src
ask put wrap (ready (err e) d src) k = failed (wrap e) (put d) src
ask put wrap (ready (ok a) d src) k = k a (put d) src
ask put wrap panicked k = crashed

unfoldable pub need : {A : Type 0} → Option A → (A → Step) → Step
need o k = expect o crashed k

unfoldable pub stream_header_arm : Run → Source → Step
stream_header_arm r src =
    ask (λ h. record r { decoder = record r.decoder { stream_header = h } })
      DecodeError.in_stream_header (StreamHeader.decode r.decoder.stream_header src)
      λ header r1. again (record r1 {
        decoder = record r1.decoder {
          window_bits = some header.window_bits;
          history = some (History.new header.window_bits);
          phase = Phase.meta_block_header;
        };
      })

-- The decoder for the meta-block that a header announces.
abbrev pub begin_meta_block : Decoder → Bool → MetaBlockKind → Decoder
begin_meta_block d is_last MetaBlockKind.end = record d { phase = Phase.finished }
begin_meta_block d is_last (MetaBlockKind.compressed l) = record d {
  compressed = some (Compressed.new l);
  phase = Phase.compressed is_last;
}
begin_meta_block d is_last (MetaBlockKind.uncompressed l) = record d {
  phase = Phase.uncompressed l;
}
begin_meta_block d is_last (MetaBlockKind.metadata l) = record d {
  phase = Phase.metadata l is_last;
}

unfoldable pub meta_block_header_arm : Run → Source → Step
meta_block_header_arm r src =
    ask (λ h. record r { decoder = record r.decoder { metablock_header = h } })
      DecodeError.in_meta_block_header (MetaBlockHeader.decode r.decoder.metablock_header src)
      λ header r1.
        again (record r1 { decoder = begin_meta_block r1.decoder header.is_last header.kind })

abbrev pub after_padding : Run → Bool × Source → Step
after_padding r (zero_fill, src) =
    if zero_fill
    then again (at_phase r Phase.finished) src
    else failed DecodeError.non_zero_final_padding r src

-- `CompressedStatus::Done`
abbrev pub end_compressed : Bool → Run → Source → Step
end_compressed is_last r src =
    let r' = record r { decoder = record r.decoder { compressed = none } } in
    if is_last
    then after_padding r' (align_to_byte_with_zero_fill src)
    else again (at_phase r' Phase.meta_block_header) src

abbrev pub by_status : Bool → CompressedStatus → Run → Source → Step
by_status is_last CompressedStatus.need_input r src = returned ProcessStatus.need_input r src
by_status is_last CompressedStatus.need_output r src = returned ProcessStatus.need_output r src
by_status is_last CompressedStatus.done r src = end_compressed is_last r src

-- What the meta-block leaves to the decoder, which has produced so many bytes of it.
abbrev pub from_meta_block : Run → ℕ → MetaBlockRun → Run
from_meta_block r produced m = record {
  decoder = record r.decoder {
    compressed = some m.decoder;
    history = some m.history;
    recent_distances = m.recent;
  };
  output = take r.output_cursor r.output ++ m.output;
  output_cursor = r.output_cursor + produced;
}

unfoldable pub of_processed : Bool → Run → Processed → Step
of_processed is_last r (Processed.progressed status m src) =
    by_status is_last status (from_meta_block r m.produced m) src
of_processed is_last r (Processed.failed e m src) =
    failed (DecodeError.in_compressed e) (from_meta_block r 0 m) src
of_processed is_last r Processed.crashed = crashed
of_processed is_last r Processed.unfinished = unfinished

unfoldable pub uncompressed_arm : ℕ → Run → Source → Step
uncompressed_arm remaining r src =
    if remaining == 0
    then again (at_phase r Phase.meta_block_header) src
    else if r.output_cursor == length r.output
    then returned ProcessStatus.need_output r src
    else if length src.rest == 0
    then returned ProcessStatus.need_input r src
    else (let count = min (min remaining (length src.rest)) (length r.output - r.output_cursor) in
        let bytes = take count src.rest in
        need r.decoder.history λ history.
          again
            (record {
              decoder = record r.decoder {
                history = some (History.push_slice history bytes);
                phase = Phase.uncompressed (remaining - count);
              };
              output = History.overwrite r.output r.output_cursor bytes;
              output_cursor = r.output_cursor + count;
            })
            (record src { rest = drop count src.rest }))

unfoldable pub metadata_arm : ℕ → Bool → Run → Source → Step
metadata_arm remaining is_last r src =
    if remaining == 0
    then again (at_phase r (if is_last then Phase.finished else Phase.meta_block_header)) src
    else if length src.rest == 0
    then returned ProcessStatus.need_input r src
    else (let count = min remaining (length src.rest) in
        again (at_phase r (Phase.metadata (remaining - count) is_last))
          (record src { rest = drop count src.rest }))

module _ (words : List ℕ) (fuel : ℕ) where
  unfoldable pub compressed_arm : Bool → Run → Source → Step
  compressed_arm is_last r src = need r.decoder.compressed λ decoder.
      need r.decoder.history λ history. of_processed is_last r (
        Compressed.process words fuel decoder (drop r.output_cursor r.output) history
          r.decoder.recent_distances src)

  -- A round of the loop of `process`.
  unfoldable pub step : Run → Source → Step
  step r src = elim r.decoder.phase [
    | Phase.stream_header ↦ stream_header_arm r src
    | Phase.meta_block_header ↦ meta_block_header_arm r src
    | Phase.compressed is_last ↦ compressed_arm is_last r src
    | Phase.uncompressed remaining ↦ uncompressed_arm remaining r src
    | Phase.metadata remaining is_last ↦ metadata_arm remaining is_last r src
    | Phase.finished ↦ returned ProcessStatus.done r src
  ]

-- The rounds that follow one.
abbrev pub resume : (Run → Source → Step) → Step → Step
resume rest (again r src) = rest r src
resume rest (returned status r src) = returned status r src
resume rest (failed e r src) = failed e r src
resume rest crashed = crashed
resume rest unfinished = unfinished

-- The loop, for so many rounds at most: `again` is a loop that has not ended by then.
unfoldable pub rounds : List ℕ → ℕ → ℕ → Run → Source → Step
rounds words fuel zero r src = again r src
rounds words fuel (suc left) r src = resume (rounds words fuel left) (step words fuel r src)

unfoldable pub process : List ℕ → ℕ → Decoder → List ℕ → List ℕ → Step
process words fuel d input output =
    rounds words fuel fuel (record { decoder = d; output = output; output_cursor = 0 })
      (record { reader = d.reader; rest = input })
