-- ===== src/Encode/Config.antt =====
-- src/encode/mod.rs: the configuration, and what it fixes for the search and the distances.
use brutli.Prelude.{ℕ, ◌-◌, ◌^◌, Bool, true, false, ◌&&◌, if◌then◌else◌, leb, ltb, Result, ok, err}

pub data EncoderMode : Type 0 where
  generic text font : EncoderMode

pub data EncodeError : Type 0 where
  invalid_quality : (quality : ℕ) → EncodeError
  invalid_window_bits : (window_bits : ℕ) → EncodeError

pub record EncoderConfig : Type 0 where
  pub window_bits : ℕ
  pub quality : ℕ
  pub mode : EncoderMode

unfoldable pub new : ℕ → ℕ → EncoderMode → Result EncodeError EncoderConfig
new window_bits quality mode =
    if ltb 11 quality
    then err (EncodeError.invalid_quality quality)
    else if leb 10 window_bits && leb window_bits 24
    then ok (record { window_bits = window_bits; quality = quality; mode = mode })
    else err (EncodeError.invalid_window_bits window_bits)

unfoldable pub max_backward_distance : EncoderConfig → ℕ
max_backward_distance config = 2 ^ config.window_bits - 16

unfoldable pub search_depth : EncoderConfig → ℕ
search_depth config =
    if leb config.quality 1
    then 1
    else if leb config.quality 2
    then 4
    else if leb config.quality 4
    then 8
    else 16

unfoldable pub max_lazy_delays : EncoderConfig → ℕ
max_lazy_delays config = if leb 5 config.quality then 4 else 0

abbrev pub is_font : EncoderMode → Bool
is_font EncoderMode.font = true
is_font _ = false

unfoldable pub distance_postfix_bits : EncoderConfig → ℕ
distance_postfix_bits config = if is_font config.mode && leb 4 config.quality then 1 else 0

unfoldable pub direct_distance_codes : EncoderConfig → ℕ
direct_distance_codes config = if is_font config.mode && leb 4 config.quality then 12 else 0
