-- ===== src/Decode/CompressedBlock.antt =====
-- src/decode/compressed_block.rs: the commands of a compressed meta-block. One round of the loop of `process`
-- is a step; the caller's `output` is a list, and the window and the recent distances are part of a run.
pub mod Inside
pub mod Bounds
use brutli.Prelude.{
  ℕ, zero, suc, ◌+◌, ◌-◌, ◌*◌, min, Bool, true, false, ◌&&◌, Option, none, some, List, [], ◌∷◌,
  ◌++◌, if◌then◌else◌, ◌==◌, ltb, length, get_elem?, set, take, drop, u8, Result, ok, err,
}
use brutli.Decode.BitReader.{Source}
use brutli.Decode.Outcome.{Outcome, pending, ready, panicked, match_result, expect}
use brutli.Decode.PrefixCode as PrefixCode
use brutli.Decode.PrefixCode.{PrefixSymbolDecoder, fresh_symbol}
use brutli.Decode.BlockState as BlockState
use brutli.Decode.Command as Command
use brutli.Decode.Command.{CommandDecoder}
use brutli.Decode.CompressedHeader.{CompressedHeader}
use brutli.Decode.CompressedTrees.{CompressedTrees}
use brutli.Decode.Context as Context
use brutli.Decode.Dictionary as Dictionary
use brutli.Decode.Dictionary.{DictionaryError}
use brutli.Decode.Distance as Distance
use brutli.Decode.Distance.{DistanceDecoder, DistanceError, RecentDistances}
use brutli.Decode.History as History
use brutli.Decode.History.{HistoryError}

pub data CompressedStatus : Type 0 where
  need_input need_output done : CompressedStatus

pub data CompressedBlockError : Type 0 where
  meta_block_overflow : CompressedBlockError
  in_distance : DistanceError → CompressedBlockError
  in_history : HistoryError → CompressedBlockError
  in_dictionary : DictionaryError → CompressedBlockError

pub record DictionaryOutput : Type 0 where
  pub bytes : List ℕ
  pub offset : ℕ

pub data Phase : Type 0 where
  command command_extra : Phase
  literals : (remaining copy_length : ℕ) (implicit_distance_zero : Bool) → Phase
  distance : (copy_length : ℕ) → Phase
  distance_extra : (copy_length : ℕ) → Phase
  copy : (remaining distance : ℕ) → Phase
  dictionary finished : Phase

pub record CompressedBlock : Type 0 where
  pub header : CompressedHeader
  pub trees : CompressedTrees
  pub literal_blocks : BlockState.BlockState
  pub command_blocks : BlockState.BlockState
  pub distance_blocks : BlockState.BlockState
  pub literal_symbol : PrefixSymbolDecoder
  pub command_symbol : PrefixSymbolDecoder
  pub distance_symbol : PrefixSymbolDecoder
  pub command_decoder : Option CommandDecoder
  pub distance_decoder : Option DistanceDecoder
  pub dictionary_output : Option DictionaryOutput
  pub remaining : ℕ
  pub phase : Phase

abbrev pub new : CompressedHeader → CompressedTrees → ℕ → CompressedBlock
new header trees l = record {
  header = header;
  trees = trees;
  literal_blocks = BlockState.new header.literal_partition;
  command_blocks = BlockState.new header.command_partition;
  distance_blocks = BlockState.new header.distance_partition;
  literal_symbol = fresh_symbol;
  command_symbol = fresh_symbol;
  distance_symbol = fresh_symbol;
  command_decoder = none;
  distance_decoder = none;
  dictionary_output = none;
  remaining = l;
  phase = Phase.command;
}

-- What a call of `process` changes, but for the reader and its input.
pub record Run : Type 0 where
  pub block : CompressedBlock
  pub output : List ℕ
  pub output_cursor : ℕ
  pub history : History.History
  pub recent : RecentDistances

-- One round of the loop: it goes round again, returns a status, fails, or panics. A round that fails leaves
-- what it has changed by then.
pub data Step : Type 0 where
  again : Run → Source → Step
  returned : CompressedStatus → Run → Source → Step
  failed : CompressedBlockError → Run → Source → Step
  crashed : Step

abbrev pub at_phase : Run → Phase → Run
at_phase r phase = record r { block = record r.block { phase = phase } }

-- `let Some(t) = decoder.decode(…) else { return Ok(progress(output_cursor, NeedInput)) }`: `put` stores the
-- state that the decoder is left in.
unfoldable pub ask : {D T : Type 0} → (D → Run) → Outcome D T → (T → Run → Source → Step) → Step
ask put (pending d src) k = returned CompressedStatus.need_input (put d) src
ask put (ready t d src) k = k t (put d) src
ask put panicked k = crashed

-- `expect`, and an index that is out of range.
unfoldable pub need : {A : Type 0} → Option A → (A → Step) → Step
need o k = expect o crashed k

-- `?` on a result that `wrap` turns into the error of the block.
unfoldable pub attempt :
    {A E : Type 0} → (E → CompressedBlockError) → Run → Source → Result E A → (A → Step) → Step
attempt wrap r src result k = match_result result (λ e. failed (wrap e) r src) k

-- The end of `begin_copy`, for the bytes of a word.
abbrev pub begin_word : Run → Source → List ℕ → (Bool → Run → Step) → Step
begin_word r src bytes k =
    if ltb r.block.remaining (length bytes)
    then failed CompressedBlockError.meta_block_overflow r src
    else k false (record r {
      block = record r.block {
        dictionary_output = some record { bytes = bytes; offset = 0 };
        phase = Phase.dictionary;
      };
    })

-- `self.remaining -= produced`, and the rest of the round.
unfoldable pub spend : Run → ℕ → (ℕ → Step) → Step
spend r produced k =
    if ltb r.block.remaining produced then crashed else k (r.block.remaining - produced)

unfoldable pub command_arm : Run → Source → Step
command_arm r src =
    if r.block.remaining == 0
    then again (at_phase r Phase.finished) src
    else ask (λ s. record r { block = record r.block { command_blocks = s } })
        (BlockState.current r.block.header.command_partition r.block.command_blocks src)
        λ type r1 src1. need (get_elem? r.block.trees.command type) λ tree.
          ask (λ s. record r1 { block = record r1.block { command_symbol = s } })
            (PrefixCode.decode tree r1.block.command_symbol src1)
            λ symbol r2 src2.
              need (BlockState.consume r.block.header.command_partition 1 r2.block.command_blocks)
                λ blocks. need (Command.new symbol) λ decoder.
                  again
                    (record r2 {
                      block = record r2.block {
                        command_blocks = blocks;
                        command_decoder = some decoder;
                        phase = Phase.command_extra;
                      };
                    })
                    src2

unfoldable pub command_extra_arm : Run → Source → Step
command_extra_arm r src = need r.block.command_decoder λ decoder.
    ask (λ s. record r { block = record r.block { command_decoder = some s } })
      (Command.decode decoder src)
      λ found r1 src1.
        if ltb r1.block.remaining found.insert_length
        then failed CompressedBlockError.meta_block_overflow
            (record r1 { block = record r1.block { command_decoder = none } }) src1
        else again
            (record r1 {
              block = record r1.block {
                command_decoder = none;
                phase =
                    Phase.literals found.insert_length found.copy_length
                      found.implicit_distance_zero;
              };
            })
            src1

-- The literal that `process` decodes and writes.
unfoldable pub write_literal : ℕ → ℕ → Bool → ℕ → Run → Source → Step
write_literal left copy_length implicit symbol r src =
    need (BlockState.consume r.block.header.literal_partition 1 r.block.literal_blocks) λ blocks.
      spend r 1 λ remaining.
        again
          (record {
            block = record r.block {
              literal_blocks = blocks;
              remaining = remaining;
              phase = Phase.literals (left - 1) copy_length implicit;
            };
            output = set r.output r.output_cursor (u8 symbol);
            output_cursor = r.output_cursor + 1;
            history = History.push r.history (u8 symbol);
            recent = r.recent;
          })
          src

unfoldable pub literal_round : ℕ → ℕ → Bool → Run → Source → Step
literal_round left copy_length implicit r src =
    ask (λ s. record r { block = record r.block { literal_blocks = s } })
      (BlockState.current r.block.header.literal_partition r.block.literal_blocks src)
      λ type r1 src1. need (get_elem? r.block.header.literal_context_modes type) λ bits.
        need (Context.from_bits bits) λ mode.
          let context = Context.id mode r.history.previous r.history.second_previous in
          need (get_elem? r.block.header.literal_context_map (type * 64 + context)) λ index.
            need (get_elem? r.block.trees.literal index) λ tree.
              ask (λ s. record r1 { block = record r1.block { literal_symbol = s } })
                (PrefixCode.decode tree r1.block.literal_symbol src1)
                (write_literal left copy_length implicit)

unfoldable pub distance_arm : ℕ → Run → Source → Step
distance_arm copy_length r src =
    ask (λ s. record r { block = record r.block { distance_blocks = s } })
      (BlockState.current r.block.header.distance_partition r.block.distance_blocks src)
      λ type r1 src1.
        need
          (get_elem? r.block.header.distance_context_map
            (type * 4 + Command.distance_context copy_length))
          λ index. need (get_elem? r.block.trees.distance index) λ tree.
            ask (λ s. record r1 { block = record r1.block { distance_symbol = s } })
              (PrefixCode.decode tree r1.block.distance_symbol src1)
              λ symbol r2 src2.
                need
                  (BlockState.consume r.block.header.distance_partition 1 r2.block.distance_blocks)
                  λ blocks.
                    attempt CompressedBlockError.in_distance
                      (record r2 { block = record r2.block { distance_blocks = blocks } }) src2
                      (Distance.new symbol r.block.header.distance_postfix_bits
                        r.block.header.num_direct_distance_codes r.recent)
                      (λ decoder.
                        again
                          (record r2 {
                            block = record r2.block {
                              distance_blocks = blocks;
                              distance_decoder = some decoder;
                              phase = Phase.distance_extra copy_length;
                            };
                          })
                          src2)

unfoldable pub copy_arm : ℕ → ℕ → Run → Source → Step
copy_arm left back r src =
    if left == 0
    then again (at_phase r Phase.command) src
    else if r.output_cursor == length r.output
    then returned CompressedStatus.need_output r src
    else attempt CompressedBlockError.in_history r src
        (History.copy_into r.history back left (drop r.output_cursor r.output))
        (λ copied. spend r copied.0 λ remaining.
          again
            (record {
              block = record r.block {
                remaining = remaining;
                phase = Phase.copy (left - copied.0) back;
              };
              output = take r.output_cursor r.output ++ copied.1;
              output_cursor = r.output_cursor + copied.0;
              history = copied.2;
              recent = r.recent;
            })
            src)

unfoldable pub dictionary_arm : Run → Source → Step
dictionary_arm r src =
    if r.output_cursor == length r.output
    then returned CompressedStatus.need_output r src
    else need r.block.dictionary_output λ word.
      let produced = min (length word.bytes - word.offset) (length r.output - r.output_cursor) in
      let end = word.offset + produced in
      let bytes = take produced (drop word.offset word.bytes) in
      let drained = end == length word.bytes in
      spend r produced λ remaining.
        again
          (record {
            block = record r.block {
              remaining = remaining;
              dictionary_output =
                  if drained then none else some record { bytes = word.bytes; offset = end };
              phase = if drained then Phase.command else Phase.dictionary;
            };
            output = History.overwrite r.output r.output_cursor bytes;
            output_cursor = r.output_cursor + produced;
            history = History.push_slice r.history bytes;
            recent = r.recent;
          })
          src

-- The rounds that follow one.
abbrev pub resume : (Run → Source → Step) → Step → Step
resume rest (again r src) = rest r src
resume rest (returned status r src) = returned status r src
resume rest (failed e r src) = failed e r src
resume rest crashed = crashed

module _ (words : List ℕ) where
  -- What follows takes whether the copy is from the window.
  unfoldable pub begin_copy : Run → Source → ℕ → ℕ → (Bool → Run → Step) → Step
  begin_copy r src copy_length back k =
      let reach = History.max_backward_distance r.history in
      if ltb reach back
      then attempt CompressedBlockError.in_dictionary r src
          (Dictionary.transform words back copy_length reach) (λ bytes. begin_word r src bytes k)
      else if ltb r.block.remaining copy_length
      then failed CompressedBlockError.meta_block_overflow r src
      else k true (at_phase r (Phase.copy copy_length back))

  unfoldable pub literals_arm : ℕ → ℕ → Bool → Run → Source → Step
  literals_arm left copy_length implicit r src =
      if left == 0
      then if r.block.remaining == 0
        then again (at_phase r Phase.finished) src
        else if implicit
        then begin_copy r src copy_length (Distance.last r.recent) (λ is_lz77 r'. again r' src)
        else again (at_phase r (Phase.distance copy_length)) src
      else if r.output_cursor == length r.output
      then returned CompressedStatus.need_output r src
      else literal_round left copy_length implicit r src

  unfoldable pub distance_extra_arm : ℕ → Run → Source → Step
  distance_extra_arm copy_length r src = need r.block.distance_decoder λ decoder.
      ask (λ s. record r { block = record r.block { distance_decoder = some s } })
        (Distance.decode decoder src)
        λ found r1 src1.
          begin_copy (record r1 { block = record r1.block { distance_decoder = none } }) src1
            copy_length found.value
            λ is_lz77 r2.
              again
                (if found.should_push && is_lz77
                  then record r2 { recent = Distance.push r2.recent found.value }
                  else r2)
                src1

  -- A round of the loop of `process`.
  unfoldable pub step : Run → Source → Step
  step r src = elim r.block.phase [
    | Phase.command ↦ command_arm r src
    | Phase.command_extra ↦ command_extra_arm r src
    | Phase.literals left copy_length implicit ↦ literals_arm left copy_length implicit r src
    | Phase.distance copy_length ↦ distance_arm copy_length r src
    | Phase.distance_extra copy_length ↦ distance_extra_arm copy_length r src
    | Phase.copy left back ↦ copy_arm left back r src
    | Phase.dictionary ↦ dictionary_arm r src
    | Phase.finished ↦ returned CompressedStatus.done r src
  ]

  -- The loop, for so many rounds at most: `again` is a loop that has not ended by then.
  unfoldable pub rounds : ℕ → Run → Source → Step
  rounds zero r src = again r src
  rounds (suc fuel) r src = resume (rounds fuel) (step r src)
