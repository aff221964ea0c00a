-- ===== src/Codec/Reach.antt =====
-- `EncoderConfig::max_backward_distance` of src/encode/mod.rs against the distances that `copy_into` of
-- src/decode/history.rs takes.
use brutli.Prelude.{
  ℕ, ◌≤◌, ◌<◌, ◌≡◌, refl, inl, inr, arith, min, ◌⊎◌, ◌↔◌, ◌≢◌, List, length, ◌==◌, ==→eq, ==→ne,
  ltb, ltb→lt, ltb→le, Bool-cases, err,
}
use brutli.Decode.History.{History, HistoryError, copy_into}
use brutli.Decode.History.Refine.{Holds}
use brutli.Encode.Config.{EncoderConfig, max_backward_distance}

-- The distances that a copy of a stream may not have: none at all, further than the stream, and further than
-- the encoder's window reaches.
abbrev pub IsOutside : EncoderConfig → List ℕ → ℕ → Type 0
IsOutside config past distance =
    (distance ≡ 0) ⊎ (length past < distance) ⊎ (max_backward_distance config < distance)

-- For a history of the configuration's window that stands for `past`, `copy_into` fails exactly on a distance
-- that is 0, or greater than the length of `past`, or greater than the encoder's `max_backward_distance`.
pub copy_into-max_backward_distance :
    (config : EncoderConfig) (h : History) (past : List ℕ)
    → Holds config.window_bits h past
    → (distance count : ℕ) (output : List ℕ)
    → (copy_into h distance count output ≡ err HistoryError.invalid_distance)
      ↔ IsOutside config past distance
unfolding copy_into max_backward_distance
copy_into-max_backward_distance config h past v distance count output =
    elim (Bool-cases (distance == 0)) [
      | inl none ↦ rw none ((λ e. inl (==→eq distance 0 none)), (λ c. refl))
      | inr some ↦ elim (Bool-cases (ltb (min h.available h.window_size) distance)) [
        | inl far ↦ rw (some, far) ((λ e. beyond (ltb→lt _ distance far)), (λ c. refl))
        | inr near ↦
            rw (some, near)
              ((λ e. cc), (λ c. absurd (inside (==→ne distance 0 some) (ltb→le _ distance near) c)))
      ]
    ]
  where
    beyond : min h.available h.window_size < distance → IsOutside config past distance
    beyond far = ground (arith, v.count, v.window)

    inside :
        distance ≢ 0 → distance ≤ min h.available h.window_size → ¬ IsOutside config past distance
    inside a b (inl e) = a e
    inside a b (inr (inl l)) = omega (arith, v.count, v.window)
    inside a b (inr (inr l)) = omega (arith, v.count, v.window)
