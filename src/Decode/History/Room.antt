-- ===== src/Decode/History/Room.antt =====
-- What `copy_into` reports and leaves of the output, for any window.
use brutli.Prelude.{
  ℕ, zero, suc, ◌+◌, ◌-◌, ◌≤◌, ◌≡◌, refl, ◌∙◌, inl, inr, arith, min, List, ◌++◌, ◌==◌, ◌||◌, subst,
  Result, ltb, Bool-cases, length, length-append, length-take, take, drop, ok, err,
}
use brutli.Decode.History.Repeat.{length-overwrite}
use brutli.Decode.History.{
  History, HistoryError, overwrite, copy_history_prefix, repeat_filled, copied, copy_within_reach,
  copy_into, max_backward_distance,
}

filled-length :
    (fuel produced filled : ℕ) (output : List ℕ)
    → filled ≤ produced
    → produced ≤ length output
    → length (repeat_filled fuel produced filled output) ≡ length output
unfolding repeat_filled
filled-length zero produced filled output h room = refl
filled-length (suc fuel) produced filled output h room = elim (Bool-cases (ltb filled produced)) [
  | inl more ↦
      let chunk = min (produced - filled) filled in
      let taken = length-take chunk output in
      let same = length-overwrite output filled (take chunk output) (omega arith) in
      rw more (
        filled-length fuel produced (filled + chunk) (overwrite output filled (take chunk output))
          (omega arith) (omega arith)
        ∙ same)
  | inr full ↦ rw full refl
]

pieces-length : (xs ys : List ℕ) (a b n : ℕ) → a + b ≤ n → length (take a xs ++ take b ys) ≤ n
pieces-length xs ys a b n h =
    omega (arith, length-append (take a xs) (take b ys), length-take a xs, length-take b ys)

prefix-length : (h : History) (distance n : ℕ) → length (copy_history_prefix h distance n) ≤ n
unfolding copy_history_prefix
prefix-length h distance n = elim (Bool-cases (ltb (length h.buffer) h.ring_size)) [
  | inl growing ↦
      rw growing (omega (arith, length-take n (drop (length h.buffer - distance) h.buffer)))
  | inr full ↦ rw full (pieces-length _ _ _ _ n (omega arith))
]

copied-length :
    (h : History) (distance produced : ℕ) (output : List ℕ)
    → produced ≤ length output
    → length (copied h distance produced output) ≡ length output
copied-length h distance produced output room =
    let short = prefix-length h distance (min produced distance) in
    filled-length produced produced (min produced distance) _ (omega arith) (
      omega (
        arith,
        length-overwrite output 0 (copy_history_prefix h distance (min produced distance))
            (omega arith),
      ))
    ∙ length-overwrite output 0 (copy_history_prefix h distance (min produced distance))
        (omega arith)

-- What a copy reports is at most what was asked for and what there is room for, and the output keeps its
-- length.
pub record Fits (count : ℕ) (output : List ℕ) (copy : ℕ × List ℕ × History) : Type 0 where
  pub asked : copy.0 ≤ count
  pub room : copy.0 ≤ length output
  pub same : length copy.1 ≡ length output

within_reach-Fits :
    (h : History) (distance count : ℕ) (output : List ℕ)
    → Fits count output (copy_within_reach h distance (min count (length output)) output)
within_reach-Fits h distance count output = elim (Bool-cases (min count (length output) == 0)) [
  | inl none_asked ↦ rw none_asked (record { asked = omega arith; room = omega arith; same = refl })
  | inr some_asked ↦ rw some_asked (record {
    asked = omega arith;
    room = omega arith;
    same = copied-length h distance (min count (length output)) output (omega arith);
  })
]

abbrev OnOk : ℕ → List ℕ → Result HistoryError (ℕ × List ℕ × History) → Type 0
OnOk count output (err e) = Unit
OnOk count output (ok copy) = Fits count output copy

copy_into-OnOk :
    (h : History) (distance count : ℕ) (output : List ℕ)
    → OnOk count output (copy_into h distance count output)
unfolding copy_into
copy_into-OnOk h distance count output =
    elim (Bool-cases ((distance == 0) || ltb (max_backward_distance h) distance)) [
      | inl invalid ↦ rw invalid tt
      | inr valid ↦ rw valid (within_reach-Fits h distance count output)
    ]

pub copy_into-Fits :
    (h : History) (distance count : ℕ) (output : List ℕ) (copy : ℕ × List ℕ × History)
    → copy_into h distance count output ≡ ok copy
    → Fits count output copy
copy_into-Fits h distance count output copy e =
    subst (OnOk count output) e (copy_into-OnOk h distance count output)
