-- ===== src/Encode/PrefixCode.antt =====
-- src/encode/prefix_code.rs: the variable-length encoding of a byte.
use brutli.Prelude.{ℕ, ◌-◌, ◌^◌, if◌then◌else◌, ◌==◌}
use brutli.Prelude.Log.{bit_length}
use brutli.Encode.BitWriter.{BitWriter, write_bits}

-- `width` is `u8::BITS - value.leading_zeros() - 1`.
unfoldable pub write_var_len_u8 : ℕ → BitWriter → BitWriter
write_var_len_u8 value writer =
    let width = bit_length 8 value - 1 in
    if value == 0
    then write_bits writer 0 1
    else if value == 1
    then write_bits (write_bits writer 1 1) 0 3
    else write_bits (write_bits (write_bits writer 1 1) width 3) (value - 2 ^ width) width
