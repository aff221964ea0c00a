-- ===== src/Decode/CompressedMetaBlock/Bounds.antt =====
-- What a call of a compressed meta-block writes.
use brutli.Prelude.{ℕ, ◌≤◌, ◌≡◌, arith, Option, none, some, List, length, Result, ok, err}
use brutli.Decode.BitReader.{Source}
use brutli.Decode.Outcome.{Outcome, pending, ready, panicked}
use brutli.Decode.CompressedBlock.{CompressedBlock, Step}
use brutli.Decode.CompressedBlock.Inside.{IsInside, OnStep, phase_left}
use brutli.Decode.CompressedBlock.Bounds.{rounds-OnStep}
use brutli.Decode.Distance.{RecentDistances}
use brutli.Decode.History.{History}
use brutli.Decode.CompressedMetaBlock.{
  CompressedMetaBlockError, State, CompressedMetaBlockDecoder, MetaBlockRun, Processed, progressed,
  failed, crashed, unfinished, ask, need, of_block, data_arm, trees_arm, header_arm, by_state,
  process,
}

-- What the phase of the block still has to write fits into what remains of it.
abbrev pub BlockFits : Option CompressedBlock → Type 0
BlockFits none = Unit
BlockFits (some block) = phase_left block.phase block.dictionary_output ≤ block.remaining

pub record Within (room : ℕ) (block : Option CompressedBlock) (output : List ℕ) (produced : ℕ)
    : Type 0 where
  pub fits : BlockFits block
  pub size : length output ≡ room
  pub below : produced ≤ room

abbrev pub OnProcessed : (MetaBlockRun → Type 0) → Processed → Type 0
OnProcessed P (progressed status m src) = P m
OnProcessed P (failed e m src) = P m
OnProcessed P crashed = Unit
OnProcessed P unfinished = Unit

module _ (room : ℕ) where
  abbrev pub IsWithin : MetaBlockRun → Type 0
  IsWithin m = Within room m.decoder.block m.output m.produced

  ask-OnProcessed :
      {D E A : Type 0} (put : D → MetaBlockRun) (wrap : E → CompressedMetaBlockError)
      (o : Outcome D (Result E A)) (k : A → MetaBlockRun → Source → Processed)
      → ((d : D) → IsWithin (put d))
      → ((a : A) (d : D) (src : Source) → OnProcessed IsWithin (k a (put d) src))
      → OnProcessed IsWithin (ask put wrap o k)
  unfolding ask
  ask-OnProcessed put wrap (pending d src) k p q = p d
  ask-OnProcessed put wrap (ready (err e) d src) k p q = p d
  ask-OnProcessed put wrap (ready (ok a) d src) k p q = q a d src
  ask-OnProcessed put wrap panicked k p q = tt

  need-OnProcessed :
      {A : Type 0} (o : Option A) (k : A → Processed)
      → ((a : A) → OnProcessed IsWithin (k a))
      → OnProcessed IsWithin (need o k)
  unfolding need
  need-OnProcessed none k q = tt
  need-OnProcessed (some a) k q = q a

  of_block-OnProcessed :
      (total : ℕ) (d : CompressedMetaBlockDecoder) (s : Step)
      → OnStep (IsInside room total) s
      → OnProcessed IsWithin (of_block d s)
  unfolding of_block
  of_block-OnProcessed total d (Step.again r src) h = tt
  of_block-OnProcessed total d (Step.returned status r src) h = record {
    fits = h.fits;
    size = h.size;
    below = h.below;
  }
  of_block-OnProcessed total d (Step.failed e r src) h = record {
    fits = h.fits;
    size = h.size;
    below = h.below;
  }
  of_block-OnProcessed total d Step.crashed h = tt

  module _ (words : List ℕ) (fuel : ℕ) where
    data-OnProcessed :
        (m : MetaBlockRun) (src : Source)
        → IsWithin m
        → OnProcessed IsWithin (data_arm words fuel m src)
    unfolding data_arm need
    data-OnProcessed m src h = go m.decoder.block h.fits
      where
        go :
            (o : Option CompressedBlock)
            → BlockFits o
            → OnProcessed IsWithin
                (data_arm words fuel (record m { decoder = record m.decoder { block = o } }) src)
        go none fits = tt
        go (some block) fits = of_block-OnProcessed block.remaining _ _ (
            rounds-OnStep room block.remaining words fuel _ src
              (record { size = h.size; below = omega arith; declared = omega arith; fits = fits }))

    trees-OnProcessed :
        (m : MetaBlockRun) (src : Source)
        → IsWithin m
        → OnProcessed IsWithin (trees_arm words fuel m src)
    unfolding trees_arm
    trees-OnProcessed m src h = need-OnProcessed _ _ λ decoder.
        ask-OnProcessed _ _ _ _ (λ t. h)
          λ trees t src1. need-OnProcessed _ _ λ header.
            data-OnProcessed _ src1 (record { fits = omega arith; size = h.size; below = h.below })

    header-OnProcessed :
        (m : MetaBlockRun) (src : Source)
        → IsWithin m
        → OnProcessed IsWithin (header_arm words fuel m src)
    unfolding header_arm
    header-OnProcessed m src h =
        ask-OnProcessed _ _ _ _ (λ t. h) λ header t src1. trees-OnProcessed _ src1 h

    -- A call of a compressed meta-block keeps the length of the output, produces no more bytes than it has room
    -- for, and leaves a block whose pending literals, copy or word fit into what remains of it.
    pub process-OnProcessed :
        (d : CompressedMetaBlockDecoder) (output : List ℕ) (history : History)
        (recent : RecentDistances) (src : Source)
        → BlockFits d.block
        → length output ≡ room
        → OnProcessed IsWithin (process words fuel d output history recent src)
    unfolding process by_state
    process-OnProcessed d output history recent src fits size = go d.state
      where
        go :
            (s : State)
            → OnProcessed IsWithin
                (process words fuel (record d { state = s }) output history recent src)
        go State.header =
            header-OnProcessed _ src (record { fits = fits; size = size; below = omega arith })
        go State.trees =
            trees-OnProcessed _ src (record { fits = fits; size = size; below = omega arith })
        go State.data_state =
            data-OnProcessed _ src (record { fits = fits; size = size; below = omega arith })
        go State.done = record { fits = fits; size = size; below = omega arith }
