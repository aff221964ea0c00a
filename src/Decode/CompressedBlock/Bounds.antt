-- ===== src/Decode/CompressedBlock/Bounds.antt =====
-- What a compressed meta-block writes, against its declared length and the room of the output.
use brutli.Prelude.{
  ℕ, zero, suc, ◌+◌, ◌-◌, ◌≤◌, ◌<◌, ◌≡◌, refl, inl, inr, arith, min, Bool, true, false, ◌&&◌,
  Option, none, some, List, ◌++◌, ◌==◌, ltb, ltb→le, ==→ne, Bool-cases, if◌then◌else◌, length,
  length-set, length-append, length-take, length-drop, take, drop, set, u8,
}
use brutli.Decode.BitReader.{Source}
use brutli.Decode.Distance as Distance
use brutli.Decode.Dictionary as Dictionary
use brutli.Decode.History as History
use brutli.Decode.History.Repeat.{length-overwrite}
use brutli.Decode.History.Room.{copy_into-Fits}
use brutli.Decode.CompressedBlock.{
  DictionaryOutput, Phase, Run, Step, again, returned, failed, crashed, at_phase, need, command_arm,
  command_extra_arm, write_literal, literal_round, distance_arm, copy_arm, dictionary_arm,
  begin_copy, literals_arm, distance_extra_arm, step, resume, rounds,
}
use brutli.Decode.CompressedBlock.Inside.{
  word_left, phase_left, Inside, IsInside, OnStep, ask-OnStep, need-OnStep, attempt-OnStep,
  if-OnStep, spend-OnStep,
}

module _ (room total : ℕ) where
  rephased :
      {output : List ℕ} {cursor remaining : ℕ} {phase : Phase} {word : Option DictionaryOutput}
      → Inside room total output cursor remaining phase word
      → (phase' : Phase) → phase_left phase' word ≤ remaining
      → Inside room total output cursor remaining phase' word
  rephased h phase' le = record { size = h.size; below = h.below; declared = h.declared; fits = le }

  idle :
      {output : List ℕ} {cursor remaining : ℕ} {phase : Phase} {word : Option DictionaryOutput}
      → Inside room total output cursor remaining phase word
      → (phase' : Phase) → phase_left phase' word ≡ 0
      → Inside room total output cursor remaining phase' word
  idle h phase' none_left = rephased h phase' (omega (arith, none_left))

  -- A round that writes `count` bytes.
  wrote :
      {output : List ℕ} {cursor remaining : ℕ} {phase : Phase} {word : Option DictionaryOutput}
      → Inside room total output cursor remaining phase word
      → (output' : List ℕ) (count : ℕ) (phase' : Phase) (word' : Option DictionaryOutput)
      → length output' ≡ length output
      → cursor + count ≤ length output
      → count ≤ remaining
      → phase_left phase' word' ≤ remaining - count
      → Inside room total output' (cursor + count) (remaining - count) phase' word'
  wrote h output' count phase' word' same fits enough le = record {
    size = omega (arith, h.size);
    below = omega (arith, h.size);
    declared = omega (arith, h.declared);
    fits = le;
  }

  command-OnStep :
      (r : Run) (src : Source)
      → IsInside room total r
      → OnStep (IsInside room total) (command_arm r src)
  unfolding command_arm
  command-OnStep r src h = elim (Bool-cases (r.block.remaining == 0)) [
    | inl z ↦ rw z (idle h Phase.finished refl)
    | inr n ↦ rw n (
        ask-OnStep (IsInside room total) _ _ _ (λ s. h)
          λ type s src1. need-OnStep (IsInside room total) _ _ λ tree.
            ask-OnStep (IsInside room total) _ _ _ (λ s'. h)
              λ symbol s' src2. need-OnStep (IsInside room total) _ _ λ blocks.
                need-OnStep (IsInside room total) _ _ λ decoder. idle h Phase.command_extra refl)
  ]

  command_extra-OnStep :
      (r : Run) (src : Source)
      → IsInside room total r
      → OnStep (IsInside room total) (command_extra_arm r src)
  unfolding command_extra_arm
  command_extra-OnStep r src h = need-OnStep (IsInside room total) _ _ λ decoder.
      ask-OnStep (IsInside room total) _ _ _ (λ s. h)
        λ found s src1.
          if-OnStep (IsInside room total) (ltb r.block.remaining found.insert_length) _ _
            (λ over. h)
            (λ fits.
              rephased h
                (Phase.literals found.insert_length found.copy_length found.implicit_distance_zero)
                (ltb→le r.block.remaining found.insert_length fits))

  distance-OnStep :
      (copy_length : ℕ) (r : Run) (src : Source)
      → IsInside room total r
      → OnStep (IsInside room total) (distance_arm copy_length r src)
  unfolding distance_arm
  distance-OnStep copy_length r src h =
      ask-OnStep (IsInside room total) _ _ _ (λ s. h)
        λ type s src1. need-OnStep (IsInside room total) _ _ λ index.
          need-OnStep (IsInside room total) _ _ λ tree.
            ask-OnStep (IsInside room total) _ _ _ (λ s'. h)
              λ symbol s' src2. need-OnStep (IsInside room total) _ _ λ blocks.
                attempt-OnStep (IsInside room total) _ src2 _ _ _ h
                  λ decoder e. idle h (Phase.distance_extra copy_length) refl

  literal-OnStep :
      (left copy_length : ℕ) (implicit : Bool) (r : Run) (src : Source)
      → IsInside room total r
      → left ≤ r.block.remaining
      → r.output_cursor < length r.output
      → OnStep (IsInside room total) (literal_round left copy_length implicit r src)
  unfolding literal_round write_literal
  literal-OnStep left copy_length implicit r src h le below =
      ask-OnStep (IsInside room total) _ _ _ (λ s. h)
        λ type s src1. need-OnStep (IsInside room total) _ _ λ bits.
          need-OnStep (IsInside room total) _ _ λ mode.
            need-OnStep (IsInside room total) _ _ λ index.
              need-OnStep (IsInside room total) _ _ λ tree.
                ask-OnStep (IsInside room total) _ _ _ (λ s'. h)
                  λ symbol s' src2. need-OnStep (IsInside room total) _ _ λ blocks.
                    spend-OnStep (IsInside room total) _ 1 _ λ enough.
                      wrote h (set r.output r.output_cursor (u8 symbol)) 1
                        (Phase.literals (left - 1) copy_length implicit) r.block.dictionary_output
                        (length-set r.output r.output_cursor (u8 symbol)) (omega arith) enough
                        (omega arith)

  begin-OnStep :
      (words : List ℕ) (r : Run) (src : Source) (copy_length back : ℕ) (k : Bool → Run → Step)
      → IsInside room total r
      → ((is_lz77 : Bool) (r' : Run)
          → IsInside room total r'
          → OnStep (IsInside room total) (k is_lz77 r'))
      → OnStep (IsInside room total) (begin_copy words r src copy_length back k)
  unfolding begin_copy
  begin-OnStep words r src copy_length back k h q =
      if-OnStep (IsInside room total) (ltb (History.max_backward_distance r.history) back) _ _
        (λ far.
          attempt-OnStep (IsInside room total) r src
            (Dictionary.transform words back copy_length (History.max_backward_distance r.history))
            _ _ h
            (λ bytes e.
              if-OnStep (IsInside room total) (ltb r.block.remaining (length bytes)) _ _ (λ over. h)
                (λ fits. q false _ record {
                  size = h.size;
                  below = h.below;
                  declared = h.declared;
                  fits = omega (arith, ltb→le r.block.remaining (length bytes) fits);
                })))
        (λ near.
          if-OnStep (IsInside room total) (ltb r.block.remaining copy_length) _ _ (λ over. h)
            (λ fits. q true _ (
              rephased h (Phase.copy copy_length back)
                (ltb→le r.block.remaining copy_length fits))))

  copy-OnStep :
      (left back : ℕ) (r : Run) (src : Source)
      → IsInside room total r
      → left ≤ r.block.remaining
      → OnStep (IsInside room total) (copy_arm left back r src)
  unfolding copy_arm
  copy-OnStep left back r src h le =
      if-OnStep (IsInside room total) (left == 0) _ _ (λ z. idle h Phase.command refl)
        λ more.
          if-OnStep (IsInside room total) (r.output_cursor == length r.output) _ _ (λ full. h)
            λ free.
              attempt-OnStep (IsInside room total) r src
                (History.copy_into r.history back left (drop r.output_cursor r.output)) _ _ h
                λ copy e.
                  let f =
                    copy_into-Fits r.history back left (drop r.output_cursor r.output) copy e in
                  let cut = length-drop r.output_cursor r.output in
                  let kept = length-take r.output_cursor r.output in
                  spend-OnStep (IsInside room total) _ copy.0 _ λ enough.
                    wrote h (take r.output_cursor r.output ++ copy.1) copy.0
                      (Phase.copy (left - copy.0) back) r.block.dictionary_output
                      (omega (
                        arith,
                        length-append (take r.output_cursor r.output) copy.1,
                        f.same,
                        h.size,
                        h.below,
                      ))
                      (omega (arith, f.room, h.size, h.below)) enough (omega arith)

  drained-le :
      (drained : Bool) (bytes : List ℕ) (offset remaining : ℕ)
      → length bytes - offset ≤ remaining
      → phase_left
          (if drained then Phase.command else Phase.dictionary)
          (if drained then none else some record { bytes = bytes; offset = offset })
        ≤ remaining
  drained-le true bytes offset remaining h = omega arith
  drained-le false bytes offset remaining h = h

  word-OnStep :
      (r : Run) (src : Source)
      → IsInside room total r
      → word_left r.block.dictionary_output ≤ r.block.remaining
      → OnStep (IsInside room total) (dictionary_arm r src)
  unfolding dictionary_arm need
  word-OnStep r src h le = go r.block.dictionary_output h le
    where
      go :
          (o : Option DictionaryOutput)
          → Inside room total r.output r.output_cursor r.block.remaining r.block.phase o
          → word_left o ≤ r.block.remaining
          → OnStep
              (IsInside room total)
              (dictionary_arm (record r { block = record r.block { dictionary_output = o } }) src)
      go none h le =
          if-OnStep (IsInside room total) (r.output_cursor == length r.output) _ _ (λ full. h)
            (λ free. tt)
      go (some word) h le =
          let produced =
            min (length word.bytes - word.offset) (length r.output - r.output_cursor) in
          let bytes = take produced (drop word.offset word.bytes) in
          let count = length-take produced (drop word.offset word.bytes) in
          let cut = length-drop word.offset word.bytes in
          if-OnStep (IsInside room total) (r.output_cursor == length r.output) _ _ (λ full. h)
            λ free. spend-OnStep (IsInside room total) _ produced _ λ enough.
              wrote h (History.overwrite r.output r.output_cursor bytes) produced
                (if word.offset + produced == length word.bytes
                  then Phase.command
                  else Phase.dictionary)
                (if word.offset + produced == length word.bytes
                  then none
                  else some record { bytes = word.bytes; offset = word.offset + produced })
                (length-overwrite r.output r.output_cursor bytes (omega (arith, h.size, h.below)))
                (omega (arith, h.size, h.below)) enough
                (drained-le (word.offset + produced == length word.bytes) word.bytes
                  (word.offset + produced) (r.block.remaining - produced) (omega arith))

  literals-OnStep :
      (words : List ℕ) (left copy_length : ℕ) (implicit : Bool) (r : Run) (src : Source)
      → IsInside room total r
      → left ≤ r.block.remaining
      → OnStep (IsInside room total) (literals_arm words left copy_length implicit r src)
  unfolding literals_arm
  literals-OnStep words left copy_length implicit r src h le =
      if-OnStep (IsInside room total) (left == 0) _ _
        (λ z.
          if-OnStep (IsInside room total) (r.block.remaining == 0) _ _
            (λ end. idle h Phase.finished refl)
            (λ more.
              if-OnStep (IsInside room total) implicit _ _
                (λ yes.
                  begin-OnStep words r src copy_length (Distance.last r.recent) _ h (λ b r' h'. h'))
                (λ no. idle h (Phase.distance copy_length) refl)))
        (λ nonzero.
          if-OnStep (IsInside room total) (r.output_cursor == length r.output) _ _ (λ full. h)
            (λ free.
              let ne = ==→ne r.output_cursor (length r.output) free in
              literal-OnStep left copy_length implicit r src h le (omega (arith, h.size, h.below))))

  pushed-IsInside :
      (b : Bool) (r : Run) (value : ℕ)
      → IsInside room total r
      → IsInside room total (if b then record r { recent = Distance.push r.recent value } else r)
  pushed-IsInside true r value h = h
  pushed-IsInside false r value h = h

  distance_extra-OnStep :
      (words : List ℕ) (copy_length : ℕ) (r : Run) (src : Source)
      → IsInside room total r
      → OnStep (IsInside room total) (distance_extra_arm words copy_length r src)
  unfolding distance_extra_arm
  distance_extra-OnStep words copy_length r src h = need-OnStep (IsInside room total) _ _ λ decoder.
      ask-OnStep (IsInside room total) _ _ _ (λ s. h)
        λ found s src1.
          begin-OnStep words _ src1 copy_length found.value _ h
            λ is_lz77 r' h'. pushed-IsInside (found.should_push && is_lz77) r' found.value h'

  step-OnStep :
      (words : List ℕ) (r : Run) (src : Source)
      → IsInside room total r
      → OnStep (IsInside room total) (step words r src)
  unfolding step
  step-OnStep words r src h = go r.block.phase h
    where
      go :
          (p : Phase)
          → Inside room total r.output r.output_cursor r.block.remaining p r.block.dictionary_output
          → OnStep (IsInside room total) (step words (at_phase r p) src)
      go Phase.command h = command-OnStep _ src h
      go Phase.command_extra h = command_extra-OnStep _ src h
      go (Phase.literals left copy_length implicit) h =
          literals-OnStep words left copy_length implicit _ src h h.fits
      go (Phase.distance copy_length) h = distance-OnStep copy_length _ src h
      go (Phase.distance_extra copy_length) h = distance_extra-OnStep words copy_length _ src h
      go (Phase.copy left back) h = copy-OnStep left back _ src h h.fits
      go Phase.dictionary h = word-OnStep _ src h h.fits
      go Phase.finished h = h

  resume-OnStep :
      (rest : Run → Source → Step) (s : Step)
      → ((r : Run) (src : Source)
          → IsInside room total r
          → OnStep (IsInside room total) (rest r src))
      → OnStep (IsInside room total) s
      → OnStep (IsInside room total) (resume rest s)
  resume-OnStep rest (again r src) q h = q r src h
  resume-OnStep rest (returned status r src) q h = h
  resume-OnStep rest (failed e r src) q h = h
  resume-OnStep rest crashed q h = tt

  -- However many rounds the loop runs, and where it fails too: the output keeps its length, the cursor stays inside it, the bytes that
  -- are written and those that remain are the declared ones together, and the pending literals, copy or word
  -- fit into what remains.
  pub rounds-OnStep :
      (words : List ℕ) (fuel : ℕ) (r : Run) (src : Source)
      → IsInside room total r
      → OnStep (IsInside room total) (rounds words fuel r src)
  unfolding rounds
  rounds-OnStep words zero r src h = h
  rounds-OnStep words (suc fuel) r src h =
      resume-OnStep (rounds words fuel) (step words r src)
        (λ r' src'. rounds-OnStep words fuel r' src') (step-OnStep words r src h)
