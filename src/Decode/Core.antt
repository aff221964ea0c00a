-- ===== src/Decode/Core.antt =====
-- src/decode/mod.rs: the decoder that the crate's interface drives, with the limit on the window.
pub mod Window
use brutli.Prelude.{
  ℕ, ◌-◌, Bool, true, false, ◌||◌, Option, none, some, List, [], if◌then◌else◌, ◌==◌, ltb, length,
  Result, ok, err,
}
use brutli.Decode.BitReader.{Source, source_of}
use brutli.Decode.Outcome.{Outcome, pending, ready, panicked}
use brutli.Decode.StreamHeader as StreamHeader
use brutli.Decode.StreamHeader.{StreamHeaderDecoder, StreamHeaderError}
use brutli.Decode.Decoder as Decoder
use brutli.Decode.Decoder.{DecodeError, ProcessStatus}

pub data CoreStatus : Type 0 where
  need_input need_output done : CoreStatus

pub record CoreProgress : Type 0 where
  pub consumed : ℕ
  pub produced : ℕ
  pub status : CoreStatus

pub data CoreError : Type 0 where
  invalid_stream_header invalid_meta_block invalid_compressed_data non_zero_padding : CoreError
  window_limit_exceeded : (window_bits max_window_bits : ℕ) → CoreError

pub record CoreDecoder : Type 0 where
  pub inner : Decoder.Decoder
  pub max_window_bits : ℕ
  pub window_checked : Bool

abbrev pub with_max_window_bits : ℕ → CoreDecoder
with_max_window_bits max_window_bits = record {
  inner = Decoder.new_decoder;
  max_window_bits = max_window_bits;
  window_checked = false;
}

-- A call: its progress or its error, with the decoder and the output that it leaves.
pub data CoreCall : Type 0 where
  progressed : CoreProgress → CoreDecoder → List ℕ → CoreCall
  failed : CoreError → CoreDecoder → List ℕ → CoreCall
  crashed unfinished : CoreCall

abbrev pub map_error : DecodeError → CoreError
map_error (DecodeError.in_stream_header e) = CoreError.invalid_stream_header
map_error (DecodeError.in_meta_block_header e) = CoreError.invalid_meta_block
map_error (DecodeError.in_compressed e) = CoreError.invalid_compressed_data
map_error DecodeError.non_zero_final_padding = CoreError.non_zero_padding

abbrev pub map_status : ProcessStatus → CoreStatus
map_status ProcessStatus.need_input = CoreStatus.need_input
map_status ProcessStatus.need_output = CoreStatus.need_output
map_status ProcessStatus.done = CoreStatus.done

-- What the check of the window comes to: it passes or is an error, with the decoder after it, or the `expect`
-- fails.
pub data Check : Type 0 where
  passed : CoreDecoder → Check
  refused : CoreError → CoreDecoder → Check
  undecided : Check

abbrev pub check_header :
    CoreDecoder
    → Outcome StreamHeaderDecoder (Result StreamHeaderError StreamHeader.StreamHeader)
    → Check
check_header d (pending h src) = undecided
check_header d (ready (err e) h src) = refused CoreError.invalid_stream_header d
check_header d (ready (ok header) h src) =
    if ltb d.max_window_bits header.window_bits
    then refused (CoreError.window_limit_exceeded header.window_bits d.max_window_bits) d
    else passed (record d { window_checked = true })
check_header d panicked = undecided

unfoldable pub check_window_limit : CoreDecoder → List ℕ → Check
check_window_limit d input =
    if d.window_checked || (length input == 0)
    then passed d
    else check_header d (StreamHeader.decode StreamHeader.new_decoder (source_of input))

-- The decoder that the loop leaves, with the reader.
abbrev pub after_run : CoreDecoder → Decoder.Run → Source → CoreDecoder
after_run d r src = record d { inner = record r.decoder { reader = src.reader } }

abbrev pub of_step : CoreDecoder → ℕ → Decoder.Step → CoreCall
of_step d given (Decoder.again r src) = unfinished
of_step d given (Decoder.returned status r src) =
    progressed
      (record {
        consumed = given - length src.rest;
        produced = r.output_cursor;
        status = map_status status;
      })
      (after_run d r src) r.output
of_step d given (Decoder.failed e r src) = failed (map_error e) (after_run d r src) r.output
of_step d given Decoder.crashed = crashed
of_step d given Decoder.unfinished = unfinished

abbrev pub after_check : List ℕ → ℕ → List ℕ → List ℕ → Check → CoreCall
after_check words fuel input output (passed d) =
    of_step d (length input) (Decoder.process words fuel d.inner input output)
after_check words fuel input output (refused e d) = failed e d output
after_check words fuel input output undecided = crashed

unfoldable pub process : List ℕ → ℕ → CoreDecoder → List ℕ → List ℕ → CoreCall
process words fuel d input output = after_check words fuel input output (check_window_limit d input)
