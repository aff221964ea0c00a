-- ===== src/Decode/BlockState.antt =====
-- src/decode/block_state.rs: the block types and lengths of one category as its symbols are decoded.
pub mod Types
pub mod Resume
use brutli.Prelude.{
  ℕ, ◌+◌, ◌-◌, Bool, true, false, not, Option, none, some, if◌then◌else◌, ◌==◌, leb,
}
use brutli.Decode.BitReader.{Source}
use brutli.Decode.Outcome.{Outcome, ready, panicked, call_then}
use brutli.Decode.PrefixCode as PrefixCode
use brutli.Decode.PrefixCode.{PrefixSymbolDecoder, fresh_symbol}
use brutli.Decode.BlockPartition.{BlockPartition, BlockLengthDecoder, fresh_length, decode_length}

-- `previous_types` is an array of two.
pub record BlockState : Type 0 where
  pub current_type : ℕ
  pub previous_types : ℕ × ℕ
  pub remaining : Option ℕ
  pub type_decoder : PrefixSymbolDecoder
  pub length_decoder : BlockLengthDecoder
  pub switch_pending : Bool

abbrev pub new : BlockPartition → BlockState
new partition = record {
  current_type = 0;
  previous_types = (1, 0);
  remaining = partition.first_length;
  type_decoder = fresh_symbol;
  length_decoder = fresh_length;
  switch_pending = false;
}

unfoldable pub resolve_type : ℕ → ℕ → ℕ × ℕ → ℕ
resolve_type symbol num_types (older, newer) =
    let block_type = if symbol == 0 then older else if symbol == 1 then newer + 1 else symbol - 2 in
    if leb num_types block_type then block_type - num_types else block_type

abbrev pub has_remaining : Option ℕ → Bool
has_remaining none = false
has_remaining (some remaining) = not (remaining == 0)

-- The second half of `current`; a partition without the code is a failed `expect`.
abbrev pub switch_length : Option PrefixCode.PrefixCode → BlockState → Source → Outcome BlockState ℕ
switch_length none b src = panicked
switch_length (some code) b src =
    call_then (λ d. record b { length_decoder = d }) (decode_length code b.length_decoder src)
      (λ length d.
        ready b.current_type
          (record b { length_decoder = d; remaining = some length; switch_pending = false }))

-- `self.current_type = ...; self.previous_types = ...; self.switch_pending = true`
unfoldable pub switch_type : BlockState → ℕ → ℕ → BlockState
switch_type b num_types symbol =
    let resolved = resolve_type symbol num_types b.previous_types in
    record b {
      current_type = resolved;
      previous_types = (b.previous_types.1, resolved);
      switch_pending = true;
    }

abbrev pub decode_type :
    BlockPartition → Option PrefixCode.PrefixCode → BlockState → Source → Outcome BlockState ℕ
decode_type partition none b src = panicked
decode_type partition (some code) b src =
    call_then (λ s. record b { type_decoder = s }) (PrefixCode.decode code b.type_decoder src)
      (λ symbol s.
        switch_length partition.length_code
          (switch_type (record b { type_decoder = s }) partition.num_types symbol))

unfoldable pub current : BlockPartition → BlockState → Source → Outcome BlockState ℕ
current partition b src =
    if partition.num_types == 1
    then ready 0 b src
    else if has_remaining b.remaining
    then ready b.current_type b src
    else if not b.switch_pending
    then decode_type partition partition.type_code b src
    else switch_length partition.length_code b src

abbrev pub take_from : BlockState → ℕ → Option ℕ → Option BlockState
take_from b count none = none
take_from b count (some remaining) =
    if leb count remaining then some (record b { remaining = some (remaining - count) }) else none

-- `none` is the failed `expect`, or the failed `assert!`.
unfoldable pub consume : BlockPartition → ℕ → BlockState → Option BlockState
consume partition count b =
    if partition.num_types == 1 then some b else take_from b count b.remaining
