-- ===== src/Decode/CompressedMetaBlock.antt =====
-- src/decode/compressed_metablock.rs: a compressed meta-block, from its header to its last byte.
pub mod Bounds
use brutli.Prelude.{ℕ, Option, none, some, List, Result, ok, err}
use brutli.Decode.BitReader.{Source}
use brutli.Decode.Outcome.{Outcome, pending, ready, panicked, match_result, expect}
use brutli.Decode.PrefixCodeDecoder.{PrefixCodeDecoderError}
use brutli.Decode.CompressedHeader as Header
use brutli.Decode.CompressedHeader.{
  CompressedHeader, CompressedHeaderDecoder, CompressedHeaderError,
}
use brutli.Decode.CompressedTrees as Trees
use brutli.Decode.CompressedTrees.{CompressedTreesDecoder}
use brutli.Decode.CompressedBlock as Block
use brutli.Decode.CompressedBlock.{
  CompressedBlock, CompressedBlockError, CompressedStatus, Run, Step,
}
use brutli.Decode.Distance.{RecentDistances}
use brutli.Decode.History.{History}

pub data CompressedMetaBlockError : Type 0 where
  in_header : CompressedHeaderError → CompressedMetaBlockError
  in_trees : PrefixCodeDecoderError → CompressedMetaBlockError
  in_data : CompressedBlockError → CompressedMetaBlockError

pub data State : Type 0 where
  header trees data_state done : State

pub record CompressedMetaBlockDecoder : Type 0 where
  pub length : ℕ
  pub state : State
  pub header_decoder : CompressedHeaderDecoder
  pub header : Option CompressedHeader
  pub trees_decoder : Option CompressedTreesDecoder
  pub block : Option CompressedBlock

-- For a length of one byte at least, as the `assert!` says.
abbrev pub new : ℕ → CompressedMetaBlockDecoder
new l = record {
  length = l;
  state = State.header;
  header_decoder = Header.new_decoder;
  header = none;
  trees_decoder = none;
  block = none;
}

-- What a call changes, with the bytes that it has produced so far.
pub record MetaBlockRun : Type 0 where
  pub decoder : CompressedMetaBlockDecoder
  pub output : List ℕ
  pub produced : ℕ
  pub history : History
  pub recent : RecentDistances

-- `unfinished` is a loop that has not ended in the rounds that it is given.
pub data Processed : Type 0 where
  progressed : CompressedStatus → MetaBlockRun → Source → Processed
  failed : CompressedMetaBlockError → MetaBlockRun → Source → Processed
  crashed unfinished : Processed

-- `let Some(a) = decoder.decode(…)? else { return … NeedInput }`
unfoldable pub ask :
    {D E A : Type 0}
    → (D → MetaBlockRun)
    → (E → CompressedMetaBlockError)
    → Outcome D (Result E A)
    → (A → MetaBlockRun → Source → Processed)
    → Processed
ask put wrap (pending d src) k = progressed CompressedStatus.need_input (put d) src
ask put wrap (ready (err e) d src) k = failed (wrap e) (put d) src
ask put wrap (ready (ok a) d src) k = k a (put d) src
ask put wrap panicked k = crashed

unfoldable pub need : {A : Type 0} → Option A → (A → Processed) → Processed
need o k = expect o crashed k

abbrev pub state_after : CompressedStatus → State
state_after CompressedStatus.done = State.done
state_after _ = State.data_state

-- What the block leaves to the meta-block, in the state that the call sets.
abbrev pub from_run : CompressedMetaBlockDecoder → State → Run → MetaBlockRun
from_run d state r = record {
  decoder = record d { block = some r.block; state = state };
  output = r.output;
  produced = r.output_cursor;
  history = r.history;
  recent = r.recent;
}

unfoldable pub of_block : CompressedMetaBlockDecoder → Step → Processed
of_block d (Step.returned status r src) = progressed status (from_run d (state_after status) r) src
of_block d (Step.again r src) = unfinished
of_block d (Step.failed e r src) =
    failed (CompressedMetaBlockError.in_data e) (from_run d State.data_state r) src
of_block d Step.crashed = crashed

module _ (words : List ℕ) (fuel : ℕ) where
  -- The arms of the loop, last first: each goes on to the arm of the state that it sets.
  unfoldable pub data_arm : MetaBlockRun → Source → Processed
  data_arm m src = need m.decoder.block λ block. of_block m.decoder (
      Block.rounds words fuel
        (record {
          block = block;
          output = m.output;
          output_cursor = 0;
          history = m.history;
          recent = m.recent;
        })
        src)

  unfoldable pub trees_arm : MetaBlockRun → Source → Processed
  trees_arm m src = need m.decoder.trees_decoder λ decoder.
      ask (λ t. record m { decoder = record m.decoder { trees_decoder = some t } })
        CompressedMetaBlockError.in_trees (Trees.decode decoder src)
        λ trees m1 src1. need m1.decoder.header λ header.
          data_arm
            (record m1 {
              decoder = record m1.decoder {
                header = none;
                trees_decoder = none;
                block = some (Block.new header trees m1.decoder.length);
                state = State.data_state;
              };
            })
            src1

  unfoldable pub header_arm : MetaBlockRun → Source → Processed
  header_arm m src =
      ask (λ h. record m { decoder = record m.decoder { header_decoder = h } })
        CompressedMetaBlockError.in_header (Header.decode m.decoder.header_decoder src)
        λ header m1 src1.
          trees_arm
            (record m1 {
              decoder = record m1.decoder {
                trees_decoder = some (Trees.new header);
                header = some header;
                state = State.trees;
              };
            })
            src1

  unfoldable pub by_state : MetaBlockRun → Source → Processed
  by_state m src = elim m.decoder.state [
    | State.header ↦ header_arm m src
    | State.trees ↦ trees_arm m src
    | State.data_state ↦ data_arm m src
    | State.done ↦ progressed CompressedStatus.done m src
  ]

  unfoldable pub process :
      CompressedMetaBlockDecoder → List ℕ → History → RecentDistances → Source → Processed
  process d output history recent src =
      by_state
        (record { decoder = d; output = output; produced = 0; history = history; recent = recent })
        src
