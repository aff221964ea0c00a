-- ===== src/Decode/BlockState/Resume.antt =====
-- `BlockState::current` on an input that is cut into slices.
use brutli.Prelude.{
  ℕ, ◌≡◌, refl, ap, inl, inr, Bool, true, false, not, Option, none, some, List, ◌==◌, Bool-cases,
  if◌then◌else◌,
}
use brutli.Decode.BitReader.{Source, feed}
use brutli.Decode.Outcome.{Resumes, Resumed, ready-Resumes, panicked-Resumes, call_then-Resumes}
use brutli.Decode.PrefixCode as PrefixCode
use brutli.Decode.PrefixCode.Resume.{prefix_code-Resumes}
use brutli.Decode.BlockPartition.{BlockPartition, decode_length}
use brutli.Decode.BlockPartition.Resume.{decode_length-Resumes}
use brutli.Decode.BlockState.{
  BlockState, has_remaining, switch_length, switch_type, decode_type, current,
}

module _ (partition : BlockPartition) (multiple : (partition.num_types == 1) ≡ false) where
  switch_length-Resumes :
      (b : BlockState)
      → has_remaining b.remaining ≡ false
      → Resumes
          (current partition)
          (switch_length partition.length_code (record b { switch_pending = true }))
  unfolding current
  switch_length-Resumes b none_left = go partition.length_code refl
    where
      go :
          (o : Option PrefixCode.PrefixCode)
          → partition.length_code ≡ o
          → Resumes (current partition) (switch_length o (record b { switch_pending = true }))
      go none e = panicked-Resumes (current partition)
      go (some code) e =
          call_then-Resumes (current partition)
            (λ d. record b { switch_pending = true; length_decoder = d }) (decode_length code)
            (decode_length code b.length_decoder) _ (decode_length-Resumes code b.length_decoder)
            (λ d src.
              rw (multiple, none_left)
                (ap
                  (λ o.
                    switch_length o (record b { switch_pending = true; length_decoder = d }) src)
                  e))
            (λ l d. ready-Resumes (current partition) _ _)

  decode_type-Resumes :
      (b : BlockState)
      → has_remaining b.remaining ≡ false
      → Resumes
          (current partition)
          (decode_type partition partition.type_code (record b { switch_pending = false }))
  unfolding current switch_type
  decode_type-Resumes b none_left = go partition.type_code refl
    where
      go :
          (o : Option PrefixCode.PrefixCode)
          → partition.type_code ≡ o
          → Resumes
              (current partition)
              (decode_type partition o (record b { switch_pending = false }))
      go none e = panicked-Resumes (current partition)
      go (some code) e =
          call_then-Resumes (current partition)
            (λ s. record b { switch_pending = false; type_decoder = s }) (PrefixCode.decode code)
            (PrefixCode.decode code b.type_decoder) _ (prefix_code-Resumes code b.type_decoder)
            (λ s src.
              rw (multiple, none_left)
                (ap
                  (λ o.
                    decode_type partition o (record b { switch_pending = false; type_decoder = s })
                      src)
                  e))
            (λ symbol s.
              switch_length-Resumes
                (switch_type (record b { type_decoder = s }) partition.num_types symbol) none_left)

-- From any state of the blocks, a call on a slice and a second call on what follows it come to what one call
-- on both together gives.
pub block_state-Resumes :
    (partition : BlockPartition) (b : BlockState) (src : Source) (more : List ℕ)
    → Resumed
        (current partition)
        more
        (current partition b src)
        (current partition b (feed src more))
unfolding current
block_state-Resumes partition b src more = elim (Bool-cases (partition.num_types == 1)) [
  | inl one ↦ rw one refl
  | inr multiple ↦ elim (Bool-cases (has_remaining b.remaining)) [
    | inl left ↦ rw (multiple, left) refl
    | inr none_left ↦ rw (multiple, none_left) (go multiple none_left b.switch_pending src more)
  ]
]
  where
    go :
        (partition.num_types == 1) ≡ false
        → has_remaining b.remaining ≡ false
        → (p : Bool)
        → Resumes (current partition) (λ src.
          if not p
          then decode_type partition partition.type_code (record b { switch_pending = p }) src
          else switch_length partition.length_code (record b { switch_pending = p }) src)
    go multiple none_left true = switch_length-Resumes partition multiple b none_left
    go multiple none_left false = decode_type-Resumes partition multiple b none_left
