-- ===== src/Decode/Facade/Limit.antt =====
-- The limit on the decoded output.
use brutli.Prelude.{
  ℕ, ◌+◌, ◌≤◌, ◌≡◌, refl, inl, inr, arith, ◌||◌, ◌==◌, ltb, Bool, Option, none, some, List, leb,
  Bool-cases, length, take, drop, length-append, length-take, length-drop, Result, ok, err,
}
use brutli.Decode.BitReader.{source_of}
use brutli.Decode.Outcome.{Outcome, pending, ready, panicked}
use brutli.Decode.StreamHeader as StreamHeader
use brutli.Decode.StreamHeader.{StreamHeaderDecoder, StreamHeaderError}
use brutli.Decode.Decoder as Decoder
use brutli.Decode.Decoder.Bounds.{MetaBlockFits, OnStep, IsInside, process-OnStep}
use brutli.Decode.Core as Core
use brutli.Decode.Core.{
  CoreCall, CoreDecoder, Check, check_header, check_window_limit, of_step, after_check,
}
use brutli.Decode.Facade.{
  Decoder, DecodeError, Call, called, crashed, unfinished, usize_limit, allowed_output, of_core,
  advance, remember, process_inner,
}

-- A call of the core on an output of `room` bytes keeps its length, produces no more than that, and leaves the
-- inner decoder inside its bounds, also where it fails.
abbrev OnCore : ℕ → CoreCall → Type 0
OnCore room (CoreCall.progressed p core output) =
    MetaBlockFits core.inner.compressed × (length output ≡ room) × (p.produced ≤ room)
OnCore room (CoreCall.failed e core output) =
    MetaBlockFits core.inner.compressed × (length output ≡ room)
OnCore room CoreCall.crashed = Unit
OnCore room CoreCall.unfinished = Unit

-- The check of the window leaves the inner decoder.
abbrev Leaves : CoreDecoder → Check → Type 0
Leaves d (Check.passed d') = MetaBlockFits d'.inner.compressed
Leaves d (Check.refused e d') = MetaBlockFits d'.inner.compressed
Leaves d Check.undecided = Unit

check-Leaves :
    (d : CoreDecoder) (input : List ℕ)
    → MetaBlockFits d.inner.compressed
    → Leaves d (check_window_limit d input)
unfolding check_window_limit
check-Leaves d input h = elim (Bool-cases (d.window_checked || (length input == 0))) [
  | inl skipped ↦ rw skipped h
  | inr checked ↦ rw checked (go (StreamHeader.decode StreamHeader.new_decoder (source_of input)))
]
  where
    go :
        (o : Outcome StreamHeaderDecoder (Result StreamHeaderError StreamHeader.StreamHeader))
        → Leaves d (check_header d o)
    go (pending s src) = tt
    go (ready (err e) s src) = h
    go (ready (ok header) s src) = elim (Bool-cases (ltb d.max_window_bits header.window_bits)) [
      | inl over ↦ rw over h
      | inr within ↦ rw within h
    ]
    go panicked = tt

module _ (words : List ℕ) (fuel : ℕ) where
  of_step-OnCore :
      (room : ℕ) (d : CoreDecoder) (given : ℕ) (s : Decoder.Step)
      → OnStep (IsInside room) s
      → OnCore room (of_step d given s)
  of_step-OnCore room d given (Decoder.again r src) h = tt
  of_step-OnCore room d given (Decoder.returned status r src) h = (h.fits, h.size, h.below)
  of_step-OnCore room d given (Decoder.failed e r src) h = (h.fits, h.size)
  of_step-OnCore room d given Decoder.crashed h = tt
  of_step-OnCore room d given Decoder.unfinished h = tt

  check-OnCore :
      (room : ℕ) (d : CoreDecoder) (input output : List ℕ) (c : Check)
      → Leaves d c
      → length output ≡ room
      → OnCore room (after_check words fuel input output c)
  check-OnCore room d input output (Check.passed d') fits size =
      of_step-OnCore room d' (length input) (Decoder.process words fuel d'.inner input output)
        (process-OnStep room words fuel d'.inner input output fits size)
  check-OnCore room d input output (Check.refused e d') fits size = (fits, size)
  check-OnCore room d input output Check.undecided fits size = tt

  core-OnCore :
      (room : ℕ) (d : CoreDecoder) (input output : List ℕ)
      → MetaBlockFits d.inner.compressed
      → length output ≡ room
      → OnCore room (Core.process words fuel d input output)
  unfolding Core.process
  core-OnCore room d input output fits size =
      check-OnCore room d input output (check_window_limit d input) (check-Leaves d input fits) size

-- A decoder whose output limit, if it has one, is kept so far.
abbrev pub UnderLimit : Option ℕ → ℕ → Type 0
UnderLimit none total = Unit
UnderLimit (some limit) total = total ≤ limit

pub record IsSound (d : Decoder) : Type 0 where
  pub fits : MetaBlockFits d.core.inner.compressed
  pub under : UnderLimit d.output_limit d.total_output

-- What a call leaves: a sound decoder with the same limit, and an output of the same length.
abbrev pub Keeps : Option ℕ → ℕ → Call → Type 0
Keeps limit room (called r d output) = IsSound d × (d.output_limit ≡ limit) × (length output ≡ room)
Keeps limit room crashed = Unit
Keeps limit room unfinished = Unit

allowed-le : (limit : Option ℕ) (total room : ℕ) → allowed_output limit total room ≤ room
unfolding allowed_output
allowed-le none total room = omega arith
allowed-le (some limit) total room = omega arith

allowed-UnderLimit :
    (limit : Option ℕ) (total room produced : ℕ)
    → UnderLimit limit total
    → produced ≤ allowed_output limit total room
    → UnderLimit limit (total + produced)
unfolding allowed_output
allowed-UnderLimit none total room produced under le = tt
allowed-UnderLimit (some limit) total room produced under le = omega arith

module _ (words : List ℕ) (fuel : ℕ) where
  of_core-Keeps :
      (d : Decoder) (tail : List ℕ) (end_of_input : Bool) (room allowed : ℕ) (c : CoreCall)
      → IsSound d
      → allowed ≡ allowed_output d.output_limit d.total_output room
      → allowed + length tail ≡ room
      → OnCore allowed c
      → Keeps d.output_limit room (of_core d tail end_of_input c)
  unfolding of_core
  of_core-Keeps d tail end_of_input room allowed (CoreCall.progressed p core written) sound
        is_allowed split (fits, kept, le) =
      let joined = length-append written tail in
      elim (Bool-cases (leb usize_limit (d.total_output + p.produced))) [
        | inl over ↦ rw over (record { fits = fits; under = sound.under }, refl, omega arith)
        | inr within ↦ rw within (
          record {
            fits = fits;
            under =
                allowed-UnderLimit d.output_limit d.total_output room p.produced sound.under
                  (omega arith);
          },
          refl,
          omega arith,
        )
      ]
  of_core-Keeps d tail end_of_input room allowed (CoreCall.failed e core written) sound is_allowed
        split (fits, kept) =
      let joined = length-append written tail in
      (record { fits = fits; under = sound.under }, refl, omega arith)
  of_core-Keeps d tail end_of_input room allowed CoreCall.crashed sound is_allowed split h = tt
  of_core-Keeps d tail end_of_input room allowed CoreCall.unfinished sound is_allowed split h = tt

  advance-Keeps :
      (d : Decoder) (input output : List ℕ) (end_of_input : Bool)
      → IsSound d
      → Keeps d.output_limit (length output) (advance words fuel d input output end_of_input)
  unfolding advance
  advance-Keeps d input output end_of_input sound =
      let allowed = allowed_output d.output_limit d.total_output (length output) in
      let le = allowed-le d.output_limit d.total_output (length output) in
      of_core-Keeps d (drop allowed output) end_of_input (length output) allowed _ sound refl
        (omega (arith, length-drop allowed output))
        (core-OnCore words fuel allowed d.core input (take allowed output) sound.fits
          (omega (arith, length-take allowed output)))

  remember-Keeps :
      (limit : Option ℕ) (room : ℕ) (c : Call)
      → Keeps limit room c
      → Keeps limit room (remember words fuel c)
  remember-Keeps limit room (called (err e) d output) (sound, same, size) =
      (record { fits = sound.fits; under = sound.under }, same, size)
  remember-Keeps limit room (called (ok p) d output) h = h
  remember-Keeps limit room crashed h = tt
  remember-Keeps limit room unfinished h = tt

  -- From a decoder whose total output is within its limit, if it has one, and whose compressed meta-block, if
  -- it has one, has room for what it still has to write: whatever a call is given, and whether it succeeds or
  -- fails, it leaves such a decoder, with the same limit, and an output of the same length. The decoder and the
  -- output behind an error are those that the failing core leaves.
  pub process-Keeps :
      (d : Decoder) (input output : List ℕ) (end_of_input : Bool)
      → IsSound d
      → Keeps d.output_limit (length output) (process_inner words fuel d input output end_of_input)
  unfolding process_inner
  process-Keeps d input output end_of_input sound = go d.error
    where
      go :
          (o : Option DecodeError)
          → Keeps d.output_limit
              (length output)
              (process_inner words fuel (record d { error = o }) input output end_of_input)
      go (some e) = (record { fits = sound.fits; under = sound.under }, refl, refl)
      go none = remember-Keeps d.output_limit (length output) _ (
          advance-Keeps (record d { error = none }) input output end_of_input
            (record { fits = sound.fits; under = sound.under }))
