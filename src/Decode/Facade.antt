-- ===== src/Decode/Facade.antt =====
-- src/lib.rs: the `Decoder` of the crate, with its limits and its sticky errors.
pub mod Limit
pub mod Sticky
pub mod Decompress
use brutli.Prelude.{
  ℕ, ◌+◌, ◌-◌, ◌^◌, min, Bool, true, false, ◌&&◌, Option, none, some, List, [], ◌++◌, if◌then◌else◌,
  leb, length, take, drop, Result, ok, err, zero, suc, ◌==◌, ltb, replicate,
}
use brutli.Decode.Core as Core
use brutli.Decode.Core.{CoreCall, CoreDecoder, CoreError, CoreProgress, CoreStatus}

pub data DecodeStatus : Type 0 where
  need_input need_output done : DecodeStatus

pub record DecodeProgress : Type 0 where
  pub consumed : ℕ
  pub produced : ℕ
  pub status : DecodeStatus

pub data DecodeError : Type 0 where
  invalid_stream_header invalid_meta_block invalid_compressed_data non_zero_padding : DecodeError
  window_limit_exceeded : (window_bits max_window_bits : ℕ) → DecodeError
  unexpected_eof : DecodeError
  output_limit_exceeded : (limit : ℕ) → DecodeError
  output_size_overflow : DecodeError
  trailing_data : (remaining : ℕ) → DecodeError

pub record Decoder : Type 0 where
  pub core : CoreDecoder
  pub output_limit : Option ℕ
  pub total_output : ℕ
  pub error : Option DecodeError

-- `with_limits`; the other constructors are calls of it.
abbrev pub with_limits : Option ℕ → ℕ → Decoder
with_limits max_output_size max_window_bits = record {
  core = Core.with_max_window_bits max_window_bits;
  output_limit = max_output_size;
  total_output = 0;
  error = none;
}

abbrev pub with_output_limit : ℕ → Decoder
with_output_limit limit = with_limits (some limit) 24

abbrev pub with_max_window_bits : ℕ → Decoder
with_max_window_bits max_window_bits = with_limits none max_window_bits

abbrev pub map_core_error : CoreError → DecodeError
map_core_error CoreError.invalid_stream_header = DecodeError.invalid_stream_header
map_core_error CoreError.invalid_meta_block = DecodeError.invalid_meta_block
map_core_error CoreError.invalid_compressed_data = DecodeError.invalid_compressed_data
map_core_error CoreError.non_zero_padding = DecodeError.non_zero_padding
map_core_error (CoreError.window_limit_exceeded window_bits max_window_bits) =
    DecodeError.window_limit_exceeded window_bits max_window_bits

-- A call: its result, and the decoder and the output after it.
pub data Call : Type 0 where
  called : Result DecodeError DecodeProgress → Decoder → List ℕ → Call
  crashed unfinished : Call

abbrev pub usize_limit : ℕ
usize_limit = 2 ^ 64

unfoldable pub allowed_output : Option ℕ → ℕ → ℕ → ℕ
allowed_output none total room = room
allowed_output (some limit) total room = min room (limit - total)

abbrev pub at_limit : Option ℕ → ℕ → Result DecodeError DecodeStatus
at_limit none total = ok DecodeStatus.need_output
at_limit (some limit) total =
    if leb limit total
    then err (DecodeError.output_limit_exceeded limit)
    else ok DecodeStatus.need_output

unfoldable pub status_of : Option ℕ → ℕ → Bool → CoreStatus → Result DecodeError DecodeStatus
status_of limit total end_of_input CoreStatus.need_input =
    if end_of_input then err DecodeError.unexpected_eof else ok DecodeStatus.need_input
status_of limit total end_of_input CoreStatus.need_output = at_limit limit total
status_of limit total end_of_input CoreStatus.done = ok DecodeStatus.done

abbrev pub progress_of :
    CoreProgress → Result DecodeError DecodeStatus → Result DecodeError DecodeProgress
progress_of p (err e) = err e
progress_of p (ok status) =
    ok record { consumed = p.consumed; produced = p.produced; status = status }

-- `tail` is what stands behind `output[..allowed_output]`. A core that fails has changed and may have written.
unfoldable pub of_core : Decoder → List ℕ → Bool → CoreCall → Call
of_core d tail end_of_input (CoreCall.progressed p core written) =
    if leb usize_limit (d.total_output + p.produced)
    then called (err DecodeError.output_size_overflow) (record d { core = core }) (written ++ tail)
    else (let total = d.total_output + p.produced in
        called (progress_of p (status_of d.output_limit total end_of_input p.status))
          (record d { core = core; total_output = total }) (written ++ tail))
of_core d tail end_of_input (CoreCall.failed e core written) =
    called (err (map_core_error e)) (record d { core = core }) (written ++ tail)
of_core d tail end_of_input CoreCall.crashed = crashed
of_core d tail end_of_input CoreCall.unfinished = unfinished

module _ (words : List ℕ) (fuel : ℕ) where
  unfoldable pub advance : Decoder → List ℕ → List ℕ → Bool → Call
  advance d input output end_of_input =
      let allowed = allowed_output d.output_limit d.total_output (length output) in
      of_core d (drop allowed output) end_of_input
        (Core.process words fuel d.core input (take allowed output))

  -- `self.error = Some(error)`
  abbrev pub remember : Call → Call
  remember (called (err e) d output) = called (err e) (record d { error = some e }) output
  remember (called (ok p) d output) = called (ok p) d output
  remember crashed = crashed
  remember unfinished = unfinished

  abbrev pub unless_failed : Option DecodeError → Decoder → List ℕ → List ℕ → Bool → Call
  unless_failed (some e) d input output end_of_input = called (err e) d output
  unless_failed none d input output end_of_input = remember (advance d input output end_of_input)

  unfoldable pub process_inner : Decoder → List ℕ → List ℕ → Bool → Call
  process_inner d input output end_of_input = unless_failed d.error d input output end_of_input

  unfoldable pub process : Decoder → List ℕ → List ℕ → Call
  process d input output = process_inner d input output false

  unfoldable pub finish : Decoder → List ℕ → Call
  finish d output = process_inner d [] output true

pub data Decompressed : Type 0 where
  decoded : Result DecodeError (List ℕ) → Decompressed
  stopped unended : Decompressed

-- What the loop of `decompress` does with the progress of a call, and the rounds after it.
abbrev pub after_status :
    (Bool → Decompressed) → ℕ → ℕ → List ℕ → DecodeStatus → Bool → Decompressed
after_status rest size offset output DecodeStatus.need_output finishing = rest finishing
after_status rest size offset output DecodeStatus.need_input finishing =
    if offset == size then rest true else decoded (err DecodeError.invalid_compressed_data)
after_status rest size offset output DecodeStatus.done finishing =
    if offset == size
    then decoded (ok output)
    else decoded (err (DecodeError.trailing_data (size - offset)))

abbrev pub next_offset : Bool → ℕ → ℕ → ℕ
next_offset finishing offset consumed = if finishing then offset else offset + consumed

abbrev pub after_call :
    (Decoder → ℕ → List ℕ → Bool → Decompressed) → ℕ → ℕ → List ℕ → Bool → Call → Decompressed
after_call rest size offset output finishing (called (err e) d buffer) = decoded (err e)
after_call rest size offset output finishing (called (ok p) d buffer) =
    let offset' = next_offset finishing offset p.consumed in
    let output' = output ++ take p.produced buffer in
    if ltb size offset'
    then decoded (err DecodeError.invalid_compressed_data)
    else after_status (rest d offset' output') size offset' output' p.status finishing
after_call rest size offset output finishing crashed = stopped
after_call rest size offset output finishing unfinished = unended

module _ (words : List ℕ) (fuel : ℕ) (input : List ℕ) where
  -- The loop, for so many rounds at most; `unended` is a loop that has not ended by then.
  unfoldable pub decompress_loop : ℕ → Decoder → ℕ → List ℕ → Bool → Decompressed
  decompress_loop zero d offset output finishing = unended
  decompress_loop (suc left) d offset output finishing =
      after_call (decompress_loop left) (length input) offset output finishing (
        if finishing
        then finish words fuel d (replicate 8192 0)
        else process words fuel d (drop offset input) (replicate 8192 0))

  unfoldable pub decompress : ℕ → Decompressed
  decompress max_output_size = decompress_loop fuel (with_output_limit max_output_size) 0 [] false
