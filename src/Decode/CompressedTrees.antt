-- ===== src/Decode/CompressedTrees.antt =====
-- src/decode/compressed_trees.rs: the three groups of prefix codes of a compressed meta-block.
pub mod Resume
use brutli.Prelude.{ℕ, ◌+◌, ◌*◌, ◌^◌, List, [], Result, ok}
use brutli.Decode.BitReader.{Source}
use brutli.Decode.Outcome.{Outcome, ready, panicked, try_call}
use brutli.Decode.PrefixCode.{PrefixCode}
use brutli.Decode.PrefixCodeDecoder.{PrefixCodeDecoderError}
use brutli.Decode.TreeGroup as TreeGroup
use brutli.Decode.TreeGroup.{TreeGroupDecoder}
use brutli.Decode.CompressedHeader.{CompressedHeader}

abbrev pub literal_alphabet_size : ℕ
literal_alphabet_size = 256

abbrev pub command_alphabet_size : ℕ
command_alphabet_size = 704

abbrev pub distance_short_codes : ℕ
distance_short_codes = 16

abbrev pub max_distance_bits : ℕ
max_distance_bits = 24

-- For at most 3 postfix bits and 120 direct codes, as the `debug_assert!`s say.
unfoldable pub distance_alphabet_size : ℕ → ℕ → ℕ
distance_alphabet_size postfix_bits direct_codes =
    distance_short_codes + direct_codes + max_distance_bits * 2 ^ (postfix_bits + 1)

pub record CompressedTrees : Type 0 where
  pub literal : List PrefixCode
  pub command : List PrefixCode
  pub distance : List PrefixCode

pub data State : Type 0 where
  literal command distance done : State

pub record CompressedTreesDecoder : Type 0 where
  pub state : State
  pub current : TreeGroupDecoder
  pub command_tree_count : ℕ
  pub distance_tree_count : ℕ
  pub distance_alphabet_size : ℕ
  pub literal : List PrefixCode
  pub command : List PrefixCode

unfoldable pub from_counts : ℕ → ℕ → ℕ → ℕ → ℕ → CompressedTreesDecoder
from_counts literal_tree_count command_tree_count distance_tree_count postfix_bits direct_codes =
    record {
      state = State.literal;
      current = TreeGroup.new literal_alphabet_size literal_tree_count;
      command_tree_count = command_tree_count;
      distance_tree_count = distance_tree_count;
      distance_alphabet_size = distance_alphabet_size postfix_bits direct_codes;
      literal = [];
      command = [];
    }

abbrev pub new : CompressedHeader → CompressedTreesDecoder
new header =
    from_counts header.num_literal_trees header.command_partition.num_types
      header.num_distance_trees header.distance_postfix_bits header.num_direct_distance_codes

abbrev pub Call : Type 0
Call = Outcome CompressedTreesDecoder (Result PrefixCodeDecoderError CompressedTrees)

-- The arms of the loop, last first: each goes on to the arm of the state that it sets.
unfoldable pub distance_arm : CompressedTreesDecoder → Source → Call
distance_arm d src =
    try_call (λ g. record d { current = g }) (λ e. e) (TreeGroup.decode d.current src)
      (λ trees g.
        ready (ok record { literal = d.literal; command = d.command; distance = trees })
          (record d { current = g; state = State.done; literal = []; command = [] }))

unfoldable pub command_arm : CompressedTreesDecoder → Source → Call
command_arm d src =
    try_call (λ g. record d { current = g }) (λ e. e) (TreeGroup.decode d.current src)
      (λ trees g. distance_arm (record d {
        command = trees;
        current = TreeGroup.new d.distance_alphabet_size d.distance_tree_count;
        state = State.distance;
      }))

unfoldable pub literal_arm : CompressedTreesDecoder → Source → Call
literal_arm d src =
    try_call (λ g. record d { current = g }) (λ e. e) (TreeGroup.decode d.current src)
      (λ trees g. command_arm (record d {
        literal = trees;
        current = TreeGroup.new command_alphabet_size d.command_tree_count;
        state = State.command;
      }))

unfoldable pub decode : CompressedTreesDecoder → Source → Call
decode d src = elim d.state [
  | State.literal ↦ literal_arm d src
  | State.command ↦ command_arm d src
  | State.distance ↦ distance_arm d src
  | State.done ↦ panicked
]
