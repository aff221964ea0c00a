-- ===== src/Decode/CompressedBlock/Inside.antt =====
-- What it is for a run of a compressed meta-block to be inside its bounds, and steps that stay there.
use brutli.Prelude.{
  ℕ, ◌+◌, ◌-◌, ◌≤◌, ◌≡◌, refl, Bool, true, false, Option, none, some, List, ltb, ltb→le,
  if◌then◌else◌, length, Result, ok, err,
}
use brutli.Decode.BitReader.{Source}
use brutli.Decode.Outcome.{Outcome, pending, ready, panicked}
use brutli.Decode.CompressedBlock.{
  CompressedBlockError, DictionaryOutput, Phase, Run, Step, again, returned, failed, crashed, ask,
  need, attempt, spend,
}

-- What a word that is being written, or nothing, still has to write.
abbrev pub word_left : Option DictionaryOutput → ℕ
word_left none = 0
word_left (some word) = length word.bytes - word.offset

-- The bytes that a phase has yet to write before the next command.
abbrev pub phase_left : Phase → Option DictionaryOutput → ℕ
phase_left (Phase.literals left copy_length implicit) word = left
phase_left (Phase.copy left back) word = left
phase_left Phase.dictionary word = word_left word
phase_left _ word = 0

pub record Inside (room total : ℕ) (output : List ℕ) (cursor remaining : ℕ) (phase : Phase)
    (word : Option DictionaryOutput) : Type 0 where
  pub size : length output ≡ room
  pub below : cursor ≤ room
  pub declared : cursor + remaining ≡ total
  pub fits : phase_left phase word ≤ remaining

-- A run whose output has `room` bytes, in a block that has `total` bytes to write into it and later ones.
abbrev pub IsInside : ℕ → ℕ → Run → Type 0
IsInside room total r =
    Inside room total r.output r.output_cursor r.block.remaining r.block.phase
      r.block.dictionary_output

abbrev pub OnStep : (Run → Type 0) → Step → Type 0
OnStep P (again r src) = P r
OnStep P (returned status r src) = P r
OnStep P (failed e r src) = P r
OnStep P crashed = Unit

module _ (P : Run → Type 0) where
  pub ask-OnStep :
      {D T : Type 0} (put : D → Run) (o : Outcome D T) (k : T → Run → Source → Step)
      → ((d : D) → P (put d))
      → ((t : T) (d : D) (src : Source) → OnStep P (k t (put d) src))
      → OnStep P (ask put o k)
  unfolding ask
  ask-OnStep put (pending d src) k p q = p d
  ask-OnStep put (ready t d src) k p q = q t d src
  ask-OnStep put panicked k p q = tt

  pub need-OnStep :
      {A : Type 0} (o : Option A) (k : A → Step) → ((a : A) → OnStep P (k a)) → OnStep P (need o k)
  unfolding need
  need-OnStep none k q = tt
  need-OnStep (some a) k q = q a

  pub attempt-OnStep :
      {A E : Type 0} (r : Run) (src : Source) (result : Result E A) (f : E → CompressedBlockError)
      (k : A → Step)
      → P r
      → ((a : A) → result ≡ ok a → OnStep P (k a))
      → OnStep P (attempt f r src result k)
  unfolding attempt
  attempt-OnStep r src (err e) f k p q = p
  attempt-OnStep r src (ok a) f k p q = q a refl

  pub if-OnStep :
      (b : Bool) (x y : Step)
      → (b ≡ true → OnStep P x)
      → (b ≡ false → OnStep P y)
      → OnStep P (if b then x else y)
  if-OnStep true x y p q = p refl
  if-OnStep false x y p q = q refl

  pub spend-OnStep :
      (r : Run) (produced : ℕ) (k : ℕ → Step)
      → (produced ≤ r.block.remaining → OnStep P (k (r.block.remaining - produced)))
      → OnStep P (spend r produced k)
  unfolding spend
  spend-OnStep r produced k q =
      if-OnStep (ltb r.block.remaining produced) crashed (k (r.block.remaining - produced))
        (λ over. tt) (λ enough. q (ltb→le r.block.remaining produced enough))
