-- ===== src/Decode/BlockState/Types.antt =====
-- Block types and their range.
use brutli.Prelude.{ℕ, ◌+◌, ◌≤◌, ◌<◌, arith}
use brutli.Decode.BlockState.{BlockState, resolve_type, switch_type}

-- With at least two types, both remembered types in range, and a symbol of the block-type alphabet of
-- `num_types + 2` symbols, a switch gives a type in range, and the remembered types are again in range: the
-- single subtraction of `resolve_type` is enough.
pub switch_type-lt :
    (b : BlockState) (num_types symbol : ℕ)
    → 2 ≤ num_types
    → symbol < num_types + 2
    → b.previous_types.0 < num_types
    → b.previous_types.1 < num_types
    → ((switch_type b num_types symbol).current_type < num_types)
      × ((switch_type b num_types symbol).previous_types.0 < num_types)
      × ((switch_type b num_types symbol).previous_types.1 < num_types)
unfolding switch_type resolve_type
switch_type-lt b num_types symbol h s older newer = ground arith
