-- ===== src/Decode/MetaBlockHeader.antt =====
-- src/decode/metablock_header.rs: ISLAST, ISLASTEMPTY, MNIBBLES, MLEN, ISUNCOMPRESSED, and metadata.
pub mod Resume
use brutli.Prelude.{
  ℕ, zero, suc, ◌+◌, ◌-◌, ◌*◌, bit_or, Bool, true, false, not, ◌&&◌, ltb, if◌then◌else◌, ◌==◌, u8,
  shl_u64, Result, ok, err,
}
use brutli.Decode.BitReader.{Source}
use brutli.Decode.Outcome.{Outcome, ready, panicked, read_then, align_then}

pub data MetaBlockKind : Type 0 where
  end : MetaBlockKind
  compressed uncompressed metadata : ℕ → MetaBlockKind

pub record MetaBlockHeader : Type 0 where
  pub is_last : Bool
  pub kind : MetaBlockKind

pub data MetaBlockHeaderError : Type 0 where
  padding_not_zero reserved_bit_set length_not_minimal : MetaBlockHeaderError

pub data State : Type 0 where
  is_last is_last_empty nibbles data_length is_uncompressed uncompressed_alignment : State
  metadata_reserved metadata_length_width metadata_length metadata_alignment : State
  end_alignment done : State

pub record MetaBlockHeaderDecoder : Type 0 where
  pub state : State
  pub is_last : Bool
  pub width : ℕ
  pub index : ℕ
  pub value : ℕ

abbrev pub new_decoder : MetaBlockHeaderDecoder
new_decoder = record { state = State.is_last; is_last = false; width = 0; index = 0; value = 0 }

abbrev pub Call : Type 0
Call = Outcome MetaBlockHeaderDecoder (Result MetaBlockHeaderError MetaBlockHeader)

-- `Ok(Some(self.finish(kind)))`: the header, and the decoder reset for the next one.
unfoldable pub finish : MetaBlockHeaderDecoder → MetaBlockKind → Source → Call
finish d kind src = ready (ok (record { is_last = d.is_last; kind = kind })) new_decoder src

unfoldable pub end_alignment_arm : MetaBlockHeaderDecoder → Source → Call
end_alignment_arm d src = align_then src λ zero_fill src'.
    if not zero_fill
    then ready (err padding_not_zero) d src'
    else ready (ok (record { is_last = true; kind = end })) (record d { state = State.done }) src'

unfoldable pub metadata_alignment_arm : MetaBlockHeaderDecoder → Source → Call
metadata_alignment_arm d src = align_then src λ zero_fill src'.
    if not zero_fill then ready (err padding_not_zero) d src' else finish d (metadata d.value) src'

-- The loop `while self.index < self.width` with the rounds left as its first argument.
unfoldable pub metadata_length_loop : ℕ → MetaBlockHeaderDecoder → Source → Call
metadata_length_loop zero d src =
    metadata_alignment_arm (record d { state = State.metadata_alignment; value = d.value + 1 }) src
metadata_length_loop (suc rounds) d src = read_then 8 d src λ byte src'.
    let next = record d {
      value = bit_or d.value (shl_u64 byte (8 * d.index));
      index = d.index + 1;
    } in
    let rest = metadata_length_loop rounds next src' in
    if (d.index + 1 == d.width) && (ltb 1 d.width && (byte == 0))
    then ready (err length_not_minimal) d src'
    else rest

unfoldable pub metadata_length_arm : MetaBlockHeaderDecoder → Source → Call
metadata_length_arm d src = metadata_length_loop (d.width - d.index) d src

unfoldable pub metadata_length_width_arm : MetaBlockHeaderDecoder → Source → Call
metadata_length_width_arm d src = read_then 2 d src λ bits src'.
    let next = record d { width = u8 bits; index = 0; value = 0 } in
    if u8 bits == 0
    then metadata_alignment_arm (record next { state = State.metadata_alignment }) src'
    else metadata_length_arm (record next { state = State.metadata_length }) src'

unfoldable pub metadata_reserved_arm : MetaBlockHeaderDecoder → Source → Call
metadata_reserved_arm d src = read_then 1 d src λ bit src'.
    if not (bit == 0)
    then ready (err reserved_bit_set) d src'
    else metadata_length_width_arm (record d { state = State.metadata_length_width }) src'

unfoldable pub uncompressed_alignment_arm : MetaBlockHeaderDecoder → Source → Call
uncompressed_alignment_arm d src = align_then src λ zero_fill src'.
    if not zero_fill
    then ready (err padding_not_zero) d src'
    else finish d (uncompressed (d.value + 1)) src'

unfoldable pub is_uncompressed_arm : MetaBlockHeaderDecoder → Source → Call
is_uncompressed_arm d src = read_then 1 d src λ bit src'.
    if bit == 0
    then finish d (compressed (d.value + 1)) src'
    else uncompressed_alignment_arm (record d { state = State.uncompressed_alignment }) src'

unfoldable pub after_data_length : MetaBlockHeaderDecoder → Source → Call
after_data_length d src =
    if d.is_last
    then finish d (compressed (d.value + 1)) src
    else is_uncompressed_arm (record d { state = State.is_uncompressed }) src

unfoldable pub data_length_loop : ℕ → MetaBlockHeaderDecoder → Source → Call
data_length_loop zero d src = after_data_length d src
data_length_loop (suc rounds) d src = read_then 4 d src λ nibble src'.
    let next = record d {
      value = bit_or d.value (shl_u64 nibble (4 * d.index));
      index = d.index + 1;
    } in
    let rest = data_length_loop rounds next src' in
    if (d.index + 1 == d.width) && (ltb 4 d.width && (nibble == 0))
    then ready (err length_not_minimal) d src'
    else rest

unfoldable pub data_length_arm : MetaBlockHeaderDecoder → Source → Call
data_length_arm d src = data_length_loop (d.width - d.index) d src

unfoldable pub nibbles_arm : MetaBlockHeaderDecoder → Source → Call
nibbles_arm d src = read_then 2 d src λ bits src'.
    let fresh = record d { index = 0; value = 0 } in
    let counted =
      λ (n : ℕ). data_length_arm (record fresh { state = State.data_length; width = n }) src' in
    if bits == 0
    then counted 4
    else if bits == 1
    then counted 5
    else if bits == 2
    then counted 6
    else if bits == 3
    then metadata_reserved_arm (record fresh { state = State.metadata_reserved }) src'
    else panicked

unfoldable pub is_last_empty_arm : MetaBlockHeaderDecoder → Source → Call
is_last_empty_arm d src = read_then 1 d src λ bit src'.
    if not (bit == 0)
    then end_alignment_arm (record d { state = State.end_alignment }) src'
    else nibbles_arm (record d { state = State.nibbles }) src'

unfoldable pub is_last_arm : MetaBlockHeaderDecoder → Source → Call
is_last_arm d src = read_then 1 d src λ bit src'.
    if not (bit == 0)
    then is_last_empty_arm (record d { is_last = true; state = State.is_last_empty }) src'
    else nibbles_arm (record d { is_last = false; state = State.nibbles }) src'

unfoldable pub decode : MetaBlockHeaderDecoder → Source → Call
decode d src = elim d.state [
  | State.is_last ↦ is_last_arm d src
  | State.is_last_empty ↦ is_last_empty_arm d src
  | State.nibbles ↦ nibbles_arm d src
  | State.data_length ↦ data_length_arm d src
  | State.is_uncompressed ↦ is_uncompressed_arm d src
  | State.uncompressed_alignment ↦ uncompressed_alignment_arm d src
  | State.metadata_reserved ↦ metadata_reserved_arm d src
  | State.metadata_length_width ↦ metadata_length_width_arm d src
  | State.metadata_length ↦ metadata_length_arm d src
  | State.metadata_alignment ↦ metadata_alignment_arm d src
  | State.end_alignment ↦ end_alignment_arm d src
  | State.done ↦ panicked
]
