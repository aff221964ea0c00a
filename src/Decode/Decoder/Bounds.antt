-- ===== src/Decode/Decoder/Bounds.antt =====
-- What a call of the decoder writes.
use brutli.Prelude.{
  ℕ, zero, suc, ◌+◌, ◌-◌, ◌≤◌, ◌≡◌, arith, min, Bool, true, false, Option, none, some, List,
  if◌then◌else◌, ◌==◌, length, length-append, length-take, length-drop, take, drop, Result, ok, err,
}
use brutli.Decode.BitReader.{Source, align_to_byte_with_zero_fill}
use brutli.Decode.Outcome.{Outcome, pending, ready, panicked}
use brutli.Decode.MetaBlockHeader.{MetaBlockKind}
use brutli.Decode.CompressedBlock.{CompressedStatus}
use brutli.Decode.CompressedMetaBlock.{CompressedMetaBlockDecoder, MetaBlockRun, Processed}
use brutli.Decode.CompressedMetaBlock.Bounds.{BlockFits, OnProcessed, IsWithin, process-OnProcessed}
use brutli.Decode.History.Repeat.{length-overwrite}
use brutli.Decode.Decoder.{
  Decoder, DecodeError, Phase, Run, Step, again, returned, failed, crashed, unfinished, at_phase,
  ask, need, stream_header_arm, begin_meta_block, meta_block_header_arm, after_padding, by_status,
  from_meta_block, of_processed, uncompressed_arm, metadata_arm, compressed_arm, step, resume,
  rounds, process,
}

-- The compressed meta-block under way, if there is one, has room for what it still has to write.
abbrev pub MetaBlockFits : Option CompressedMetaBlockDecoder → Type 0
MetaBlockFits none = Unit
MetaBlockFits (some d) = BlockFits d.block

pub record Within (room : ℕ) (compressed : Option CompressedMetaBlockDecoder) (output : List ℕ)
    (cursor : ℕ) : Type 0 where
  pub fits : MetaBlockFits compressed
  pub size : length output ≡ room
  pub below : cursor ≤ room

abbrev pub OnStep : (Run → Type 0) → Step → Type 0
OnStep P (again r src) = P r
OnStep P (returned status r src) = P r
OnStep P (failed e r src) = P r
OnStep P crashed = Unit
OnStep P unfinished = Unit

module _ (room : ℕ) where
  abbrev pub IsInside : Run → Type 0
  IsInside r = Within room r.decoder.compressed r.output r.output_cursor

  ask-OnStep :
      {D E A : Type 0} (put : D → Run) (wrap : E → DecodeError) (o : Outcome D (Result E A))
      (k : A → Run → Source → Step)
      → ((d : D) → IsInside (put d))
      → ((a : A) (d : D) (src : Source) → OnStep IsInside (k a (put d) src))
      → OnStep IsInside (ask put wrap o k)
  unfolding ask
  ask-OnStep put wrap (pending d src) k p q = p d
  ask-OnStep put wrap (ready (err e) d src) k p q = p d
  ask-OnStep put wrap (ready (ok a) d src) k p q = q a d src
  ask-OnStep put wrap panicked k p q = tt

  need-OnStep :
      {A : Type 0} (o : Option A) (k : A → Step)
      → ((a : A) → OnStep IsInside (k a))
      → OnStep IsInside (need o k)
  unfolding need
  need-OnStep none k q = tt
  need-OnStep (some a) k q = q a

  if-OnStep :
      (b : Bool) (x y : Step)
      → OnStep IsInside x
      → OnStep IsInside y
      → OnStep IsInside (if b then x else y)
  if-OnStep true x y p q = p
  if-OnStep false x y p q = q

  stream_header-OnStep :
      (r : Run) (src : Source) → IsInside r → OnStep IsInside (stream_header_arm r src)
  unfolding stream_header_arm
  stream_header-OnStep r src h = ask-OnStep _ _ _ _ (λ s. h) (λ header s src1. h)

  begin-Within :
      (d : Decoder) (is_last : Bool) (kind : MetaBlockKind) (output : List ℕ) (cursor : ℕ)
      → Within room d.compressed output cursor
      → Within room (begin_meta_block d is_last kind).compressed output cursor
  begin-Within d is_last MetaBlockKind.end output cursor h = h
  begin-Within d is_last (MetaBlockKind.compressed l) output cursor h = record {
    fits = tt;
    size = h.size;
    below = h.below;
  }
  begin-Within d is_last (MetaBlockKind.uncompressed l) output cursor h = h
  begin-Within d is_last (MetaBlockKind.metadata l) output cursor h = h

  meta_block_header-OnStep :
      (r : Run) (src : Source) → IsInside r → OnStep IsInside (meta_block_header_arm r src)
  unfolding meta_block_header_arm
  meta_block_header-OnStep r src h =
      ask-OnStep _ _ _ _ (λ s. h)
        (λ header s src1.
          begin-Within (record r.decoder { metablock_header = s }) header.is_last header.kind
            r.output r.output_cursor h)

  uncompressed-OnStep :
      (remaining : ℕ) (r : Run) (src : Source)
      → IsInside r
      → OnStep IsInside (uncompressed_arm remaining r src)
  unfolding uncompressed_arm
  uncompressed-OnStep remaining r src h =
      let count = min (min remaining (length src.rest)) (length r.output - r.output_cursor) in
      let taken = length-take count src.rest in
      if-OnStep (remaining == 0) _ _ h (
        if-OnStep (r.output_cursor == length r.output) _ _ h (
          if-OnStep (length src.rest == 0) _ _ h (
            need-OnStep r.decoder.history _ λ history. record {
              fits = h.fits;
              size = omega (
                arith,
                length-overwrite r.output r.output_cursor (take count src.rest)
                    (omega (arith, h.size, h.below)),
                h.size,
              );
              below = omega (arith, h.size, h.below);
            })))

  metadata-OnStep :
      (remaining : ℕ) (is_last : Bool) (r : Run) (src : Source)
      → IsInside r
      → OnStep IsInside (metadata_arm remaining is_last r src)
  unfolding metadata_arm
  metadata-OnStep remaining is_last r src h =
      if-OnStep (remaining == 0) _ _ h (if-OnStep (length src.rest == 0) _ _ h h)

  padding-OnStep : (r : Run) (a : Bool × Source) → IsInside r → OnStep IsInside (after_padding r a)
  padding-OnStep r (true, src) h = h
  padding-OnStep r (false, src) h = h

  status-OnStep :
      (is_last : Bool) (status : CompressedStatus) (r : Run) (src : Source)
      → IsInside r
      → OnStep IsInside (by_status is_last status r src)
  status-OnStep is_last CompressedStatus.need_input r src h = h
  status-OnStep is_last CompressedStatus.need_output r src h = h
  status-OnStep true CompressedStatus.done r src h =
      padding-OnStep (record r { decoder = record r.decoder { compressed = none } })
        (align_to_byte_with_zero_fill src) (record { fits = tt; size = h.size; below = h.below })
  status-OnStep false CompressedStatus.done r src h = record {
    fits = tt;
    size = h.size;
    below = h.below;
  }

  from_meta_block-IsInside :
      (r : Run) (produced : ℕ) (m : MetaBlockRun)
      → IsInside r
      → IsWithin (room - r.output_cursor) m
      → r.output_cursor + produced ≤ room
      → IsInside (from_meta_block r produced m)
  from_meta_block-IsInside r produced m h w below =
      let kept = length-take r.output_cursor r.output in
      record {
        fits = w.fits;
        size = omega (
          arith,
          length-append (take r.output_cursor r.output) m.output,
          w.size,
          h.size,
          h.below,
        );
        below = below;
      }

  processed-OnStep :
      (is_last : Bool) (r : Run) (o : Processed)
      → IsInside r
      → OnProcessed (IsWithin (room - r.output_cursor)) o
      → OnStep IsInside (of_processed is_last r o)
  unfolding of_processed
  processed-OnStep is_last r (Processed.progressed status m src) h w =
      status-OnStep is_last status _ src
        (from_meta_block-IsInside r m.produced m h w (omega (arith, w.below, h.below)))
  processed-OnStep is_last r (Processed.failed e m src) h w =
      from_meta_block-IsInside r 0 m h w (omega (arith, h.below))
  processed-OnStep is_last r Processed.crashed h w = tt
  processed-OnStep is_last r Processed.unfinished h w = tt

  module _ (words : List ℕ) (fuel : ℕ) where
    compressed-OnStep :
        (is_last : Bool) (r : Run) (src : Source)
        → IsInside r
        → OnStep IsInside (compressed_arm words fuel is_last r src)
    unfolding compressed_arm need
    compressed-OnStep is_last r src h = go r.decoder.compressed h.fits
      where
        go :
            (o : Option CompressedMetaBlockDecoder)
            → MetaBlockFits o
            → OnStep IsInside (
                compressed_arm words fuel is_last
                  (record r { decoder = record r.decoder { compressed = o } })
                  src)
        go none fits = tt
        go (some decoder) fits = need-OnStep r.decoder.history _ λ history.
            processed-OnStep is_last
              (record r { decoder = record r.decoder { compressed = some decoder } }) _
              (record { fits = fits; size = h.size; below = h.below })
              (process-OnProcessed (room - r.output_cursor) words fuel decoder
                (drop r.output_cursor r.output) history r.decoder.recent_distances src fits
                (omega (arith, length-drop r.output_cursor r.output, h.size)))

    step-OnStep : (r : Run) (src : Source) → IsInside r → OnStep IsInside (step words fuel r src)
    unfolding step
    step-OnStep r src h = go r.decoder.phase
      where
        go : (p : Phase) → OnStep IsInside (step words fuel (at_phase r p) src)
        go Phase.stream_header = stream_header-OnStep _ src h
        go Phase.meta_block_header = meta_block_header-OnStep _ src h
        go (Phase.compressed is_last) = compressed-OnStep is_last _ src h
        go (Phase.uncompressed remaining) = uncompressed-OnStep remaining _ src h
        go (Phase.metadata remaining is_last) = metadata-OnStep remaining is_last _ src h
        go Phase.finished = h

    resume-OnStep :
        (rest : Run → Source → Step) (s : Step)
        → ((r : Run) (src : Source) → IsInside r → OnStep IsInside (rest r src))
        → OnStep IsInside s
        → OnStep IsInside (resume rest s)
    resume-OnStep rest (again r src) q h = q r src h
    resume-OnStep rest (returned status r src) q h = h
    resume-OnStep rest (failed e r src) q h = h
    resume-OnStep rest crashed q h = tt
    resume-OnStep rest unfinished q h = tt

    rounds-OnStep :
        (left : ℕ) (r : Run) (src : Source)
        → IsInside r
        → OnStep IsInside (rounds words fuel left r src)
    unfolding rounds
    rounds-OnStep zero r src h = h
    rounds-OnStep (suc left) r src h =
        resume-OnStep (rounds words fuel left) (step words fuel r src)
          (λ r' src'. rounds-OnStep left r' src') (step-OnStep r src h)

    -- A call of the decoder, and one that fails too, keeps the length of the output, never writes past its end, and leaves a compressed
    -- meta-block that has room for what it still has to write.
    pub process-OnStep :
        (d : Decoder) (input output : List ℕ)
        → MetaBlockFits d.compressed
        → length output ≡ room
        → OnStep IsInside (process words fuel d input output)
    unfolding process
    process-OnStep d input output fits size =
        rounds-OnStep fuel _ _ (record { fits = fits; size = size; below = omega arith })
