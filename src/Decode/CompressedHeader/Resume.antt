-- ===== src/Decode/CompressedHeader/Resume.antt =====
-- `CompressedHeaderDecoder` on an input that is cut into slices.
use brutli.Prelude.{
  ℕ, zero, suc, ◌+◌, ◌-◌, ◌*◌, ◌^◌, ◌≡◌, refl, ap, arith, Option, none, some, List, [], ◌∷◌, ◌++◌,
  ◌==◌, length, length-append, replicate, u8, u16,
}
use brutli.Decode.BitReader.{Source, feed}
use brutli.Decode.Outcome.{
  Resumes, Resumed, read_then-Resumes, if-Resumes, ready-Resumes, panicked-Resumes,
  call_then-Resumes, try_call-Resumes, expect-Resumes,
}
use brutli.Decode.VarLenUint8 as VarLenUint8
use brutli.Decode.VarLenUint8.Resume.{var_len_uint8-Resumes}
use brutli.Decode.BlockPartition as Partition
use brutli.Decode.BlockPartition.{BlockPartition, BlockPartitionDecoder}
use brutli.Decode.BlockPartition.Resume.{partition-Resumes}
use brutli.Decode.ContextMap as ContextMap
use brutli.Decode.ContextMap.{ContextMapDecoder}
use brutli.Decode.ContextMap.Resume.{context_map-Resumes}
use brutli.Decode.CompressedHeader.{
  State, CompressedHeaderDecoder, CompressedHeaderError, Call, Phase, finish, count_then,
  partition_then, context_map_then, modes_loop, distance_trees_counted, literal_trees_counted,
  decode, literal_type_count_arm, literal_partition_arm, command_type_count_arm,
  command_partition_arm, distance_type_count_arm, distance_partition_arm, distance_postfix_arm,
  direct_distance_arm, context_modes_arm, literal_tree_count_arm, literal_context_map_arm,
  distance_tree_count_arm, distance_context_map_arm,
}

-- An arm as the loop comes to it, in its state.
abbrev ArmResumes : State → Phase → Type 0
ArmResumes s arm = (d : CompressedHeaderDecoder) → Resumes decode (arm (record d { state = s }))

abbrev IsArm : State → Phase → Type 0
IsArm s arm =
    (d : CompressedHeaderDecoder) (src : Source)
    → decode (record d { state = s }) src ≡ arm (record d { state = s }) src

count_then-Resumes :
    (s : State) (k : ℕ → CompressedHeaderDecoder → Source → Call)
    → IsArm s (λ d. count_then d k)
    → ((encoded : ℕ) (d : CompressedHeaderDecoder)
        → Resumes decode (k encoded (record d { state = s })))
    → ArmResumes s (λ d. count_then d k)
count_then-Resumes s k is_arm next d =
    call_then-Resumes decode (λ v. record d { state = s; count_decoder = v }) VarLenUint8.decode
      (VarLenUint8.decode d.count_decoder) _ (var_len_uint8-Resumes d.count_decoder)
      (λ v src. is_arm (record d { count_decoder = v }) src)
      (λ encoded v. next encoded (record d { count_decoder = v }))

partition_then-Resumes :
    (s : State) (k : BlockPartition → CompressedHeaderDecoder → Source → Call)
    → IsArm s (λ d. partition_then d k)
    → ((partition : BlockPartition) (d : CompressedHeaderDecoder)
        → Resumes decode (k partition (record d { state = s })))
    → ArmResumes s (λ d. partition_then d k)
partition_then-Resumes s k is_arm next d = go d.partition_decoder
  where
    go :
        (o : Option BlockPartitionDecoder)
        → Resumes decode (partition_then (record d { state = s; partition_decoder = o }) k)
    go none = panicked-Resumes decode
    go (some inner) =
        try_call-Resumes decode (λ p. record d { state = s; partition_decoder = some p })
          CompressedHeaderError.in_prefix_code Partition.decode (Partition.decode inner) _
          (partition-Resumes inner) (λ p src. is_arm (record d { partition_decoder = some p }) src)
          (λ partition p. next partition (record d { partition_decoder = none }))

context_map_then-Resumes :
    (s : State) (k : List ℕ → CompressedHeaderDecoder → Source → Call)
    → IsArm s (λ d. context_map_then d k)
    → ((map : List ℕ) (d : CompressedHeaderDecoder)
        → Resumes decode (k map (record d { state = s })))
    → ArmResumes s (λ d. context_map_then d k)
context_map_then-Resumes s k is_arm next d = go d.context_map_decoder
  where
    go :
        (o : Option ContextMapDecoder)
        → Resumes decode (context_map_then (record d { state = s; context_map_decoder = o }) k)
    go none = panicked-Resumes decode
    go (some inner) =
        try_call-Resumes decode (λ c. record d { state = s; context_map_decoder = some c })
          CompressedHeaderError.in_context_map ContextMap.decode (ContextMap.decode inner) _
          (context_map-Resumes inner)
          (λ c src. is_arm (record d { context_map_decoder = some c }) src)
          (λ map c. next map (record d { context_map_decoder = none }))

finish-Resumes : (d : CompressedHeaderDecoder) → Resumes decode (finish d)
unfolding finish
finish-Resumes d =
    expect-Resumes decode d.literal_partition _ _ (panicked-Resumes decode) (λ literal.
      expect-Resumes decode d.command_partition _ _ (panicked-Resumes decode) (λ command.
        expect-Resumes decode d.distance_partition _ _ (panicked-Resumes decode)
          (λ distance. ready-Resumes decode _ _)))

distance_context_map-Resumes : ArmResumes State.distance_context_map distance_context_map_arm
unfolding distance_context_map_arm decode
distance_context_map-Resumes =
    context_map_then-Resumes State.distance_context_map
      (λ map d. finish (record d { distance_context_map = map })) (λ d src. refl)
      (λ map d.
        finish-Resumes
          (record d { state = State.distance_context_map; distance_context_map = map }))

distance_tree_count-Resumes : ArmResumes State.distance_tree_count distance_tree_count_arm
unfolding distance_tree_count_arm decode
distance_tree_count-Resumes =
    count_then-Resumes State.distance_tree_count distance_trees_counted (λ d src. refl)
      λ encoded d.
        expect-Resumes decode d.distance_partition _ _ (panicked-Resumes decode) λ partition.
          if-Resumes decode (encoded + 1 == 1) _ _ (finish-Resumes _) (
            distance_context_map-Resumes (record d {
              num_distance_trees = encoded + 1;
              context_map_decoder = some (ContextMap.new (partition.num_types * 4) (encoded + 1));
            }))

literal_context_map-Resumes : ArmResumes State.literal_context_map literal_context_map_arm
unfolding literal_context_map_arm decode
literal_context_map-Resumes =
    context_map_then-Resumes State.literal_context_map
      (λ map d.
        distance_tree_count_arm
          (record d { literal_context_map = map; state = State.distance_tree_count }))
      (λ d src. refl)
      (λ map d. distance_tree_count-Resumes (record d { literal_context_map = map }))

literal_tree_count-Resumes : ArmResumes State.literal_tree_count literal_tree_count_arm
unfolding literal_tree_count_arm decode
literal_tree_count-Resumes =
    count_then-Resumes State.literal_tree_count literal_trees_counted (λ d src. refl)
      λ encoded d.
        expect-Resumes decode d.literal_partition _ _ (panicked-Resumes decode) λ partition.
          if-Resumes decode (encoded + 1 == 1) _ _
            (distance_tree_count-Resumes (record d {
              num_literal_trees = encoded + 1;
              literal_context_map = replicate (partition.num_types * 64) 0;
            }))
            (literal_context_map-Resumes (record d {
              num_literal_trees = encoded + 1;
              context_map_decoder = some (ContextMap.new (partition.num_types * 64) (encoded + 1));
            }))

modes_loop-Resumes :
    (partition : BlockPartition) (left : ℕ) (d : CompressedHeaderDecoder)
    → partition.num_types - length d.literal_context_modes ≡ left
    → Resumes decode (
        modes_loop left
          (record d { state = State.context_modes; literal_partition = some partition }))
unfolding modes_loop context_modes_arm decode
modes_loop-Resumes partition zero d h =
    literal_tree_count-Resumes (record d { literal_partition = some partition })
modes_loop-Resumes partition (suc left) d h =
    read_then-Resumes decode 2
      (record d { state = State.context_modes; literal_partition = some partition }) _
      (λ src.
        ap
          (λ r.
            modes_loop r
              (record d { state = State.context_modes; literal_partition = some partition }) src)
          h)
      (λ mode.
        let grown = length-append d.literal_context_modes (u8 mode ∷ []) in
        modes_loop-Resumes partition left
          (record d { literal_context_modes = d.literal_context_modes ++ (u8 mode ∷ []) })
          (omega arith))

context_modes-Resumes : ArmResumes State.context_modes context_modes_arm
unfolding context_modes_arm
context_modes-Resumes d = go d.literal_partition
  where
    go :
        (o : Option BlockPartition)
        → Resumes decode
            (context_modes_arm (record d { state = State.context_modes; literal_partition = o }))
    go none = panicked-Resumes decode
    go (some partition) =
        modes_loop-Resumes partition (partition.num_types - length d.literal_context_modes) d refl

direct_distance-Resumes : ArmResumes State.direct_distance direct_distance_arm
unfolding direct_distance_arm decode
direct_distance-Resumes d =
    read_then-Resumes decode 4 (record d { state = State.direct_distance }) _ (λ src. refl)
      (λ value.
        context_modes-Resumes
          (record d { num_direct_distance_codes = u16 (u16 value * 2 ^ d.distance_postfix_bits) }))

distance_postfix-Resumes : ArmResumes State.distance_postfix distance_postfix_arm
unfolding distance_postfix_arm decode
distance_postfix-Resumes d =
    read_then-Resumes decode 2 (record d { state = State.distance_postfix }) _ (λ src. refl)
      (λ bits. direct_distance-Resumes (record d { distance_postfix_bits = u8 bits }))

distance_partition-Resumes : ArmResumes State.distance_partition distance_partition_arm
unfolding distance_partition_arm decode
distance_partition-Resumes =
    partition_then-Resumes State.distance_partition
      (λ partition d.
        distance_postfix_arm
          (record d { distance_partition = some partition; state = State.distance_postfix }))
      (λ d src. refl)
      (λ partition d. distance_postfix-Resumes (record d { distance_partition = some partition }))

distance_type_count-Resumes : ArmResumes State.distance_type_count distance_type_count_arm
unfolding distance_type_count_arm decode
distance_type_count-Resumes =
    count_then-Resumes State.distance_type_count
      (λ encoded d. distance_partition_arm (record d {
        partition_decoder = some (Partition.new (encoded + 1));
        state = State.distance_partition;
      }))
      (λ d src. refl)
      (λ encoded d.
        distance_partition-Resumes
          (record d { partition_decoder = some (Partition.new (encoded + 1)) }))

command_partition-Resumes : ArmResumes State.command_partition command_partition_arm
unfolding command_partition_arm decode
command_partition-Resumes =
    partition_then-Resumes State.command_partition
      (λ partition d.
        distance_type_count_arm
          (record d { command_partition = some partition; state = State.distance_type_count }))
      (λ d src. refl)
      (λ partition d. distance_type_count-Resumes (record d { command_partition = some partition }))

command_type_count-Resumes : ArmResumes State.command_type_count command_type_count_arm
unfolding command_type_count_arm decode
command_type_count-Resumes =
    count_then-Resumes State.command_type_count
      (λ encoded d. command_partition_arm (record d {
        partition_decoder = some (Partition.new (encoded + 1));
        state = State.command_partition;
      }))
      (λ d src. refl)
      (λ encoded d.
        command_partition-Resumes
          (record d { partition_decoder = some (Partition.new (encoded + 1)) }))

literal_partition-Resumes : ArmResumes State.literal_partition literal_partition_arm
unfolding literal_partition_arm decode
literal_partition-Resumes =
    partition_then-Resumes State.literal_partition
      (λ partition d.
        command_type_count_arm
          (record d { literal_partition = some partition; state = State.command_type_count }))
      (λ d src. refl)
      (λ partition d. command_type_count-Resumes (record d { literal_partition = some partition }))

literal_type_count-Resumes : ArmResumes State.literal_type_count literal_type_count_arm
unfolding literal_type_count_arm decode
literal_type_count-Resumes =
    count_then-Resumes State.literal_type_count
      (λ encoded d. literal_partition_arm (record d {
        partition_decoder = some (Partition.new (encoded + 1));
        state = State.literal_partition;
      }))
      (λ d src. refl)
      (λ encoded d.
        literal_partition-Resumes
          (record d { partition_decoder = some (Partition.new (encoded + 1)) }))

-- From any state, a call on a slice and a second call on what follows it come to what one call on both
-- together gives.
pub header-Resumes :
    (d : CompressedHeaderDecoder) (src : Source) (more : List ℕ)
    → Resumed decode more (decode d src) (decode d (feed src more))
unfolding decode
header-Resumes d src more = by_state d.state src more
  where
    by_state : (s : State) → Resumes decode (decode (record d { state = s }))
    by_state State.literal_type_count = literal_type_count-Resumes d
    by_state State.literal_partition = literal_partition-Resumes d
    by_state State.command_type_count = command_type_count-Resumes d
    by_state State.command_partition = command_partition-Resumes d
    by_state State.distance_type_count = distance_type_count-Resumes d
    by_state State.distance_partition = distance_partition-Resumes d
    by_state State.distance_postfix = distance_postfix-Resumes d
    by_state State.direct_distance = direct_distance-Resumes d
    by_state State.context_modes = context_modes-Resumes d
    by_state State.literal_tree_count = literal_tree_count-Resumes d
    by_state State.literal_context_map = literal_context_map-Resumes d
    by_state State.distance_tree_count = distance_tree_count-Resumes d
    by_state State.distance_context_map = distance_context_map-Resumes d
    by_state State.done = panicked-Resumes decode
