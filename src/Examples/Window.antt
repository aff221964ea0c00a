-- ===== src/Examples/Window.antt =====
-- A history of the smallest window with three bytes in it.
use brutli.Prelude.{ℕ, ◌≡◌, refl, List, [], ◌∷◌, ◌++◌, arith, ok, min, length, drop, ◌↔◌, err}
use brutli.Decode.History.{History, HistoryError, new, push, push_slice, copy_into}
use brutli.Decode.History.Refine.{Holds, new-Holds, push-Holds}
use brutli.Decode.History.Slice.{push_slice-Holds}
use brutli.Decode.History.Repeat.{lz77_copy}
use brutli.Decode.History.Copy.{copy_into_lem}
use brutli.Encode.Config.{EncoderMode, EncoderConfig}
use brutli.Codec.Reach.{IsOutside, copy_into-max_backward_distance}

abbrev abc : List ℕ
abc = 97 ∷ 98 ∷ 99 ∷ []

abbrev small : History
small = push_slice (new 10) abc

small-Holds : Holds 10 small abc
small-Holds = push_slice-Holds 10 (new 10) [] abc (new-Holds 10 (omega arith))

abbrev eight : List ℕ
eight = 0 ∷ 0 ∷ 0 ∷ 0 ∷ 0 ∷ 0 ∷ 0 ∷ 0 ∷ []

overlapping : lz77_copy abc 2 7 ≡ 98 ∷ 99 ∷ 98 ∷ 99 ∷ 98 ∷ 99 ∷ 98 ∷ []
unfolding lz77_copy
overlapping = refl

push-Holds_example : Holds 10 (push small 100) (abc ++ (100 ∷ []))
push-Holds_example = push-Holds 10 small abc 100 small-Holds

push_slice-Holds_example : Holds 10 (push_slice small (1 ∷ 2 ∷ [])) (abc ++ (1 ∷ 2 ∷ []))
push_slice-Holds_example = push_slice-Holds 10 small abc (1 ∷ 2 ∷ []) small-Holds

copy_into_lem_example :
    (h' : History) × (copy_into small 2 7 eight
      ≡ ok (
        min 7 (length eight),
        lz77_copy abc 2 (min 7 (length eight)) ++ drop (min 7 (length eight)) eight,
        h',
      ))
    × Holds 10 h' (abc ++ lz77_copy abc 2 (min 7 (length eight)))
copy_into_lem_example =
    copy_into_lem 10 small abc eight 2 7 small-Holds (omega arith)
      (omega (arith, small-Holds.count, small-Holds.window))

abbrev small_config : EncoderConfig
small_config = record { window_bits = 10; quality = 5; mode = EncoderMode.generic }

copy_into-max_backward_distance_example :
    (copy_into small 4 7 eight ≡ err HistoryError.invalid_distance) ↔ IsOutside small_config abc 4
copy_into-max_backward_distance_example =
    copy_into-max_backward_distance small_config small abc small-Holds 4 7 eight
