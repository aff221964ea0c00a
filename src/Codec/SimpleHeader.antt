-- ===== src/Codec/SimpleHeader.antt =====
-- `write_simple_compressed_header` of src/encode/mod.rs against `CompressedHeaderDecoder` of
-- src/decode/compressed_header.rs.
use brutli.Prelude.{
  ℕ, ◌*◌, ◌/◌, ◌%◌, ◌^◌, ◌≤◌, ◌<◌, ◌≡◌, zero, suc, subst, List, [], ◌∷◌, ◌++◌, arith, replicate, ok,
  u8, u16, shr,
}
use brutli.Prelude.Bits.{to_bits}
use brutli.Encode.BitWriter.{BitWriter}
use brutli.Encode.BitWriter.Content.{IsValid, Writes}
use brutli.Encode.BitWriter.Sequence.{Appends, nothing-Appends, field-Appends, then-Appends}
use brutli.Encode.PrefixCode.{write_var_len_u8}
use brutli.Encode.Framing.{write_simple_compressed_header}
use brutli.Decode.BitReader.{Source}
use brutli.Decode.BitReader.Content as Reader
use brutli.Decode.Parse.{Parsed, Parses, ready-Parses, read_then-Parses, call_then-Parses}
use brutli.Decode.VarLenUint8 as VarLenUint8
use brutli.Decode.BlockPartition as Partition
use brutli.Decode.BlockPartition.{single}
use brutli.Decode.CompressedHeader.{
  State, CompressedHeader, CompressedHeaderDecoder, new_decoder, decode, literal_type_count_arm,
  literal_partition_arm, command_type_count_arm, command_partition_arm, distance_type_count_arm,
  distance_partition_arm, distance_postfix_arm, direct_distance_arm, context_modes_arm, modes_loop,
  literal_tree_count_arm, distance_tree_count_arm, finish,
}
use brutli.Codec.VarLen.{var_len_bits, write_var_len_u8-Appends, decode-Parses}

-- A count of one: of the types of a block, or of trees.
abbrev one : List ℕ
one = var_len_bits 0

-- Three counts of block types, NPOSTFIX, NDIRECT, one context mode, and two counts of trees.
unfoldable pub simple_string : ℕ → ℕ → List ℕ
simple_string direct p =
    one
    ++ (one
        ++ (one
            ++ (to_bits 2 p
                ++ (to_bits 4 (direct / 2 ^ p) ++ (to_bits 2 0 ++ (one ++ (one ++ [])))))))

-- The header with one type of each block, one literal and one distance tree, and the first context mode.
abbrev pub simple : ℕ → ℕ → CompressedHeader
simple direct p = record {
  literal_partition = single;
  command_partition = single;
  distance_partition = single;
  distance_postfix_bits = p;
  num_direct_distance_codes = direct;
  literal_context_modes = 0 ∷ [];
  num_literal_trees = 1;
  literal_context_map = replicate 64 0;
  num_distance_trees = 1;
  distance_context_map = replicate 4 0;
}

-- The decoder that has given this header.
abbrev pub simple_done : ℕ → ℕ → CompressedHeaderDecoder
simple_done direct p = record new_decoder {
  state = State.done;
  distance_postfix_bits = p;
  num_direct_distance_codes = direct;
  num_literal_trees = 1;
  num_distance_trees = 1;
}

write_one-Appends : Appends (write_var_len_u8 0) one
write_one-Appends = write_var_len_u8-Appends 0 (omega arith)

write_simple-Appends :
    (direct p : ℕ) → Appends (write_simple_compressed_header direct p) (simple_string direct p)
unfolding write_simple_compressed_header simple_string
write_simple-Appends direct p = then-Appends (write_var_len_u8 0) _ one _ write_one-Appends (
    then-Appends (write_var_len_u8 0) _ one _ write_one-Appends (
      then-Appends (write_var_len_u8 0) _ one _ write_one-Appends (
        field-Appends p 2 _ _ (omega arith) (
          field-Appends (shr direct p) 4 _ _ (omega arith) (
            field-Appends 0 2 _ _ (omega arith) (
              then-Appends (write_var_len_u8 0) _ one _ write_one-Appends (
                then-Appends (write_var_len_u8 0) (λ w. w) one [] write_one-Appends
                  nothing-Appends)))))))

count_then-Parses :
    Parses (VarLenUint8.decode VarLenUint8.new_decoder) 0 VarLenUint8.new_decoder one
count_then-Parses = decode-Parses 0 (omega arith)

-- The decoder on the string of two fields, as it stores them.
stored-Parses :
    (value p : ℕ)
    → p < 4
    → value < 16
    → Parses
        (decode new_decoder)
        (ok (simple (u16 (u16 value * 2 ^ u8 p)) (u8 p)))
        (simple_done (u16 (u16 value * 2 ^ u8 p)) (u8 p))
        (one
          ++ (one
              ++ (one
                  ++ (to_bits 2 p ++ (to_bits 4 value ++ (to_bits 2 0 ++ (one ++ (one ++ []))))))))
unfolding decode literal_type_count_arm literal_partition_arm command_type_count_arm
    command_partition_arm distance_type_count_arm distance_partition_arm distance_postfix_arm
    direct_distance_arm context_modes_arm modes_loop literal_tree_count_arm distance_tree_count_arm
    finish Partition.decode Partition.new
stored-Parses value p narrow few = call_then-Parses _ _ _ one _ count_then-Parses (
    call_then-Parses _ _ _ one _ count_then-Parses (
      call_then-Parses _ _ _ one _ count_then-Parses (
        read_then-Parses 2 p _ _ _ (omega arith) (omega arith) (
          read_then-Parses 4 value _ _ _ (omega arith) (omega arith) (
            read_then-Parses 2 0 _ _ _ (omega arith) (omega arith) (
              call_then-Parses _ _ _ one _ count_then-Parses
                (call_then-Parses _ _ _ one [] count_then-Parses (ready-Parses _ _))))))))

direct-same :
    (direct p : ℕ)
    → p ≤ 3
    → direct % 2 ^ p ≡ 0
    → direct / 2 ^ p ≤ 15
    → u16 (u16 (direct / 2 ^ p) * 2 ^ p) ≡ direct
direct-same direct zero narrow whole few = omega arith
direct-same direct (suc zero) narrow whole few = omega arith
direct-same direct (suc (suc zero)) narrow whole few = omega arith
direct-same direct (suc (suc (suc zero))) narrow whole few = omega arith
direct-same direct (suc (suc (suc (suc p)))) narrow whole few = absurd (omega arith)

-- For at most 3 postfix bits, and a multiple of 2^NPOSTFIX direct codes, at most 15 times it, as the
-- `debug_assert!`s say: `write_simple_compressed_header` appends its string to any valid writer. From any
-- valid source that begins with the string, a fresh `CompressedHeaderDecoder` answers with the header of one
-- type of each block, one literal and one distance tree and these distance parameters, and leaves what stands
-- behind the string unread.
pub simple_header_round_trip :
    (direct p : ℕ) (w : BitWriter) (src : Source) (tail : List ℕ)
    → p ≤ 3
    → direct % 2 ^ p ≡ 0
    → direct / 2 ^ p ≤ 15
    → IsValid w
    → Reader.IsValid src
    → Reader.bits src ≡ simple_string direct p ++ tail
    → Writes w (write_simple_compressed_header direct p w) (simple_string direct p)
      × Parsed (decode new_decoder src) (ok (simple direct p)) (simple_done direct p) tail
unfolding simple_string
simple_header_round_trip direct p w src tail narrow whole few valid valid_src content = (
  write_simple-Appends direct p w valid,
  rw⁻¹ same (
      subst
        (λ q.
          Parsed (decode new_decoder src) (ok (simple (u16 (u16 (direct / 2 ^ p) * 2 ^ q)) q))
            (simple_done (u16 (u16 (direct / 2 ^ p) * 2 ^ q)) q) tail)
        small
        (stored-Parses (direct / 2 ^ p) p (omega arith) (omega arith) tail src valid_src content)),
)
  where
    small : u8 p ≡ p
    small = omega arith

    same : u16 (u16 (direct / 2 ^ p) * 2 ^ p) ≡ direct
    same = direct-same direct p narrow whole few
