-- ===== src/Decode/CompressedHeader.antt =====
-- src/decode/compressed_header.rs: the header of a compressed meta-block.
pub mod Resume
use brutli.Prelude.{
  ℕ, zero, suc, ◌+◌, ◌-◌, ◌*◌, ◌^◌, Option, none, some, List, [], ◌∷◌, ◌++◌, if◌then◌else◌, ◌==◌,
  length, replicate, u8, u16, Result, ok,
}
use brutli.Decode.BitReader.{Source}
use brutli.Decode.Outcome.{Outcome, ready, panicked, read_then, call_then, try_call, expect}
use brutli.Decode.PrefixCodeDecoder.{PrefixCodeDecoderError}
use brutli.Decode.VarLenUint8 as VarLenUint8
use brutli.Decode.VarLenUint8.{VarLenUint8Decoder}
use brutli.Decode.BlockPartition as Partition
use brutli.Decode.BlockPartition.{BlockPartition, BlockPartitionDecoder}
use brutli.Decode.ContextMap as ContextMap
use brutli.Decode.ContextMap.{ContextMapDecoder, ContextMapError}

pub record CompressedHeader : Type 0 where
  pub literal_partition : BlockPartition
  pub command_partition : BlockPartition
  pub distance_partition : BlockPartition
  pub distance_postfix_bits : ℕ
  pub num_direct_distance_codes : ℕ
  pub literal_context_modes : List ℕ
  pub num_literal_trees : ℕ
  pub literal_context_map : List ℕ
  pub num_distance_trees : ℕ
  pub distance_context_map : List ℕ

pub data CompressedHeaderError : Type 0 where
  in_prefix_code : PrefixCodeDecoderError → CompressedHeaderError
  in_context_map : ContextMapError → CompressedHeaderError

pub data State : Type 0 where
  literal_type_count literal_partition : State
  command_type_count command_partition : State
  distance_type_count distance_partition : State
  distance_postfix direct_distance context_modes : State
  literal_tree_count literal_context_map : State
  distance_tree_count distance_context_map : State
  done : State

pub record CompressedHeaderDecoder : Type 0 where
  pub state : State
  pub count_decoder : VarLenUint8Decoder
  pub partition_decoder : Option BlockPartitionDecoder
  pub context_map_decoder : Option ContextMapDecoder
  pub literal_partition : Option BlockPartition
  pub command_partition : Option BlockPartition
  pub distance_partition : Option BlockPartition
  pub distance_postfix_bits : ℕ
  pub num_direct_distance_codes : ℕ
  pub literal_context_modes : List ℕ
  pub num_literal_trees : ℕ
  pub literal_context_map : List ℕ
  pub num_distance_trees : ℕ
  pub distance_context_map : List ℕ

abbrev pub new_decoder : CompressedHeaderDecoder
new_decoder = record {
  state = State.literal_type_count;
  count_decoder = VarLenUint8.new_decoder;
  partition_decoder = none;
  context_map_decoder = none;
  literal_partition = none;
  command_partition = none;
  distance_partition = none;
  distance_postfix_bits = 0;
  num_direct_distance_codes = 0;
  literal_context_modes = [];
  num_literal_trees = 0;
  literal_context_map = [];
  num_distance_trees = 0;
  distance_context_map = [];
}

abbrev pub Call : Type 0
Call = Outcome CompressedHeaderDecoder (Result CompressedHeaderError CompressedHeader)

abbrev pub Phase : Type 0
Phase = CompressedHeaderDecoder → Source → Call

-- The fields that `take` empties are taken.
abbrev pub taken : CompressedHeaderDecoder → CompressedHeaderDecoder
taken d = record d {
  state = State.done;
  literal_partition = none;
  command_partition = none;
  distance_partition = none;
  literal_context_modes = [];
  literal_context_map = [];
  distance_context_map = [];
}

unfoldable pub finish : Phase
finish d src = expect d.literal_partition panicked λ literal.
    expect d.command_partition panicked λ command. expect d.distance_partition panicked λ distance.
      ready
        (ok record {
          literal_partition = literal;
          command_partition = command;
          distance_partition = distance;
          distance_postfix_bits = d.distance_postfix_bits;
          num_direct_distance_codes = d.num_direct_distance_codes;
          literal_context_modes = d.literal_context_modes;
          num_literal_trees = d.num_literal_trees;
          literal_context_map = d.literal_context_map;
          num_distance_trees = d.num_distance_trees;
          distance_context_map = d.distance_context_map;
        })
        (taken d) src

-- `self.count_decoder.decode(…)`, whose byte `k` takes.
abbrev pub count_then :
    CompressedHeaderDecoder → (ℕ → CompressedHeaderDecoder → Source → Call) → Source → Call
count_then d k src =
    call_then (λ v. record d { count_decoder = v }) (VarLenUint8.decode d.count_decoder src)
      (λ encoded v. k encoded (record d { count_decoder = v }))

abbrev pub partition_then :
    CompressedHeaderDecoder
    → (BlockPartition → CompressedHeaderDecoder → Source → Call)
    → Source
    → Call
partition_then d k src = expect d.partition_decoder panicked λ decoder.
    try_call (λ p. record d { partition_decoder = some p }) CompressedHeaderError.in_prefix_code
      (Partition.decode decoder src)
      (λ partition p. k partition (record d { partition_decoder = none }))

abbrev pub context_map_then :
    CompressedHeaderDecoder → (List ℕ → CompressedHeaderDecoder → Source → Call) → Source → Call
context_map_then d k src = expect d.context_map_decoder panicked λ decoder.
    try_call (λ c. record d { context_map_decoder = some c }) CompressedHeaderError.in_context_map
      (ContextMap.decode decoder src) (λ map c. k map (record d { context_map_decoder = none }))

-- The arms of the loop, last first: each goes on to the arm of the state that it sets.
unfoldable pub distance_context_map_arm : Phase
distance_context_map_arm d =
    context_map_then d λ map d'. finish (record d' { distance_context_map = map })

abbrev pub distance_trees_counted : ℕ → Phase
distance_trees_counted encoded d src =
    let num_distance_trees = encoded + 1 in
    let counted = record d { num_distance_trees = num_distance_trees } in
    expect d.distance_partition panicked λ partition.
      if num_distance_trees == 1
      then finish (record counted { distance_context_map = replicate (partition.num_types * 4) 0 })
          src
      else distance_context_map_arm
          (record counted {
            context_map_decoder =
                some (ContextMap.new (partition.num_types * 4) num_distance_trees);
            state = State.distance_context_map;
          })
          src

unfoldable pub distance_tree_count_arm : Phase
distance_tree_count_arm d = count_then d distance_trees_counted

unfoldable pub literal_context_map_arm : Phase
literal_context_map_arm d = context_map_then d λ map d'.
    distance_tree_count_arm
      (record d' { literal_context_map = map; state = State.distance_tree_count })

abbrev pub literal_trees_counted : ℕ → Phase
literal_trees_counted encoded d src =
    let num_literal_trees = encoded + 1 in
    let counted = record d { num_literal_trees = num_literal_trees } in
    expect d.literal_partition panicked λ partition.
      if num_literal_trees == 1
      then distance_tree_count_arm
          (record counted {
            literal_context_map = replicate (partition.num_types * 64) 0;
            state = State.distance_tree_count;
          })
          src
      else literal_context_map_arm
          (record counted {
            context_map_decoder =
                some (ContextMap.new (partition.num_types * 64) num_literal_trees);
            state = State.literal_context_map;
          })
          src

unfoldable pub literal_tree_count_arm : Phase
literal_tree_count_arm d = count_then d literal_trees_counted

-- The `while` of `ContextModes`, by the modes that are left: each round pushes one.
unfoldable pub modes_loop : ℕ → Phase
modes_loop zero d src = literal_tree_count_arm (record d { state = State.literal_tree_count }) src
modes_loop (suc left) d src = read_then 2 d src λ mode.
    modes_loop left (record d { literal_context_modes = d.literal_context_modes ++ (u8 mode ∷ []) })

unfoldable pub context_modes_arm : Phase
context_modes_arm d src =
    expect d.literal_partition panicked
      λ partition. modes_loop (partition.num_types - length d.literal_context_modes) d src

unfoldable pub direct_distance_arm : Phase
direct_distance_arm d src = read_then 4 d src λ value. context_modes_arm (record d {
  num_direct_distance_codes = u16 (u16 value * 2 ^ d.distance_postfix_bits);
  state = State.context_modes;
})

unfoldable pub distance_postfix_arm : Phase
distance_postfix_arm d src = read_then 2 d src λ bits.
    direct_distance_arm
      (record d { distance_postfix_bits = u8 bits; state = State.direct_distance })

unfoldable pub distance_partition_arm : Phase
distance_partition_arm d = partition_then d λ partition d'.
    distance_postfix_arm
      (record d' { distance_partition = some partition; state = State.distance_postfix })

unfoldable pub distance_type_count_arm : Phase
distance_type_count_arm d = count_then d λ encoded d'. distance_partition_arm (record d' {
  partition_decoder = some (Partition.new (encoded + 1));
  state = State.distance_partition;
})

unfoldable pub command_partition_arm : Phase
command_partition_arm d = partition_then d λ partition d'.
    distance_type_count_arm
      (record d' { command_partition = some partition; state = State.distance_type_count })

unfoldable pub command_type_count_arm : Phase
command_type_count_arm d = count_then d λ encoded d'. command_partition_arm (record d' {
  partition_decoder = some (Partition.new (encoded + 1));
  state = State.command_partition;
})

unfoldable pub literal_partition_arm : Phase
literal_partition_arm d = partition_then d λ partition d'.
    command_type_count_arm
      (record d' { literal_partition = some partition; state = State.command_type_count })

unfoldable pub literal_type_count_arm : Phase
literal_type_count_arm d = count_then d λ encoded d'. literal_partition_arm (record d' {
  partition_decoder = some (Partition.new (encoded + 1));
  state = State.literal_partition;
})

unfoldable pub decode : Phase
decode d src = elim d.state [
  | State.literal_type_count ↦ literal_type_count_arm d src
  | State.literal_partition ↦ literal_partition_arm d src
  | State.command_type_count ↦ command_type_count_arm d src
  | State.command_partition ↦ command_partition_arm d src
  | State.distance_type_count ↦ distance_type_count_arm d src
  | State.distance_partition ↦ distance_partition_arm d src
  | State.distance_postfix ↦ distance_postfix_arm d src
  | State.direct_distance ↦ direct_distance_arm d src
  | State.context_modes ↦ context_modes_arm d src
  | State.literal_tree_count ↦ literal_tree_count_arm d src
  | State.literal_context_map ↦ literal_context_map_arm d src
  | State.distance_tree_count ↦ distance_tree_count_arm d src
  | State.distance_context_map ↦ distance_context_map_arm d src
  | State.done ↦ panicked
]
