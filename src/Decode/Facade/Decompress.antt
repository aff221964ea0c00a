-- ===== src/Decode/Facade/Decompress.antt =====
-- The output of `decompress`, against its limit.
use brutli.Prelude.{
  ℕ, zero, suc, ◌+◌, ◌≤◌, ◌≡◌, refl, subst, inl, inr, arith, Bool, true, false, Option, none, some,
  List, [], ◌++◌, ◌==◌, leb, ltb, Bool-cases, length, length-append, length-take, take, drop,
  replicate, Result, ok, err,
}
use brutli.Decode.Core.{CoreCall, CoreProgress}
use brutli.Decode.Facade.{
  Decoder, DecodeError, DecodeStatus, Call, called, crashed, unfinished, usize_limit, status_of,
  progress_of, of_core, advance, remember, process_inner, process, finish, with_output_limit,
  Decompressed, decoded, after_status, next_offset, after_call, decompress_loop, decompress,
}
use brutli.Decode.Facade.Limit.{IsSound, Keeps, UnderLimit, process-Keeps}

-- A call that succeeds adds the bytes that it reports to the total.
abbrev Counts : ℕ → Call → Type 0
Counts total (called (ok p) d output) = d.total_output ≡ total + p.produced
Counts total _ = Unit

progress-Counts :
    (p : CoreProgress) (r : Result DecodeError DecodeStatus) (d : Decoder) (output : List ℕ)
    (total : ℕ)
    → d.total_output ≡ total + p.produced
    → Counts total (called (progress_of p r) d output)
progress-Counts p (err e) d output total h = tt
progress-Counts p (ok status) d output total h = h

of_core-Counts :
    (d : Decoder) (tail : List ℕ) (end_of_input : Bool) (c : CoreCall)
    → Counts d.total_output (of_core d tail end_of_input c)
unfolding of_core
of_core-Counts d tail end_of_input (CoreCall.progressed p core written) =
    elim (Bool-cases (leb usize_limit (d.total_output + p.produced))) [
      | inl over ↦ rw over tt
      | inr within ↦ rw within (
          progress-Counts p
            (status_of d.output_limit (d.total_output + p.produced) end_of_input p.status) _ _
            d.total_output refl)
    ]
of_core-Counts d tail end_of_input (CoreCall.failed e core written) = tt
of_core-Counts d tail end_of_input CoreCall.crashed = tt
of_core-Counts d tail end_of_input CoreCall.unfinished = tt

module _ (words : List ℕ) (fuel : ℕ) where
  remember-Counts : (total : ℕ) (c : Call) → Counts total c → Counts total (remember words fuel c)
  remember-Counts total (called (err e) d output) h = tt
  remember-Counts total (called (ok p) d output) h = h
  remember-Counts total crashed h = tt
  remember-Counts total unfinished h = tt

  process-Counts :
      (d : Decoder) (input output : List ℕ) (end_of_input : Bool)
      → Counts d.total_output (process_inner words fuel d input output end_of_input)
  unfolding process_inner advance
  process-Counts d input output end_of_input = go d.error
    where
      go :
          (o : Option DecodeError)
          → Counts d.total_output
              (process_inner words fuel (record d { error = o }) input output end_of_input)
      go (some e) = tt
      go none =
          remember-Counts d.total_output _
            (of_core-Counts (record d { error = none }) _ end_of_input _)

-- A whole output that is within the limit.
abbrev pub IsWithin : ℕ → Decompressed → Type 0
IsWithin limit (decoded (ok output)) = length output ≤ limit
IsWithin limit _ = Unit

status-IsWithin :
    (limit : ℕ) (rest : Bool → Decompressed) (size offset : ℕ) (output : List ℕ)
    (status : DecodeStatus) (finishing : Bool)
    → length output ≤ limit
    → ((b : Bool) → IsWithin limit (rest b))
    → IsWithin limit (after_status rest size offset output status finishing)
status-IsWithin limit rest size offset output DecodeStatus.need_output finishing h q = q finishing
status-IsWithin limit rest size offset output DecodeStatus.need_input finishing h q =
    elim (Bool-cases (offset == size)) [ inl all ↦ rw all (q true) | inr left ↦ rw left tt ]
status-IsWithin limit rest size offset output DecodeStatus.done finishing h q =
    elim (Bool-cases (offset == size)) [ inl all ↦ rw all h | inr left ↦ rw left tt ]

-- A decoder under the limit that has given out at least the bytes of the output.
record Under (limit : ℕ) (d : Decoder) (output : List ℕ) : Type 0 where
  sound : IsSound d
  same : d.output_limit ≡ some limit
  counted : length output ≤ d.total_output

Under-le :
    (limit : ℕ) (d : Decoder) (output : List ℕ) → Under limit d output → length output ≤ limit
Under-le limit d output u =
    let total : d.total_output ≤ limit =
      subst (λ o. UnderLimit o d.total_output) u.same u.sound.under in
    omega (arith, u.counted)

call-IsWithin :
    (limit total : ℕ) (rest : Decoder → ℕ → List ℕ → Bool → Decompressed) (size offset room : ℕ)
    (output : List ℕ) (finishing : Bool) (c : Call)
    → Keeps (some limit) room c
    → Counts total c
    → length output ≤ total
    → ((d : Decoder) (o : ℕ) (output : List ℕ) (b : Bool)
        → Under limit d output
        → IsWithin limit (rest d o output b))
    → IsWithin limit (after_call rest size offset output finishing c)
call-IsWithin limit total rest size offset room output finishing (called (err e) d buffer) keeps
      counts h q =
    tt
call-IsWithin limit total rest size offset room output finishing (called (ok p) d buffer)
      (sound, same, kept) counts h q =
    elim (Bool-cases (ltb size (next_offset finishing offset p.consumed))) [
      | inl over ↦ rw over tt
      | inr within ↦
          let longer = length-append output (take p.produced buffer) in
          let taken = length-take p.produced buffer in
          let u : Under limit d (output ++ take p.produced buffer) = record {
            sound = sound;
            same = same;
            counted = omega (arith, counts);
          } in
          rw within (
            status-IsWithin limit _ size _ _ p.status finishing (Under-le limit d _ u) (λ b.
              q d (next_offset finishing offset p.consumed) (output ++ take p.produced buffer) b u))
    ]
call-IsWithin limit total rest size offset room output finishing crashed keeps counts h q = tt
call-IsWithin limit total rest size offset room output finishing unfinished keeps counts h q = tt

abbrev buffer : List ℕ
buffer = replicate 8192 0

module _ (words : List ℕ) (fuel : ℕ) (input : List ℕ) (limit : ℕ) where
  loop-IsWithin :
      (left : ℕ) (d : Decoder) (offset : ℕ) (output : List ℕ) (finishing : Bool)
      → Under limit d output
      → IsWithin limit (decompress_loop words fuel input left d offset output finishing)
  unfolding decompress_loop process finish
  loop-IsWithin zero d offset output finishing u = tt
  loop-IsWithin (suc left) d offset output true u =
      call-IsWithin limit d.total_output _ (length input) offset (length buffer) output true _
        (subst (λ o. Keeps o (length buffer) (process_inner words fuel d [] buffer true)) u.same
          (process-Keeps words fuel d [] buffer true u.sound))
        (process-Counts words fuel d [] buffer true) u.counted
        (λ d' o output' b u'. loop-IsWithin left d' o output' b u')
  loop-IsWithin (suc left) d offset output false u =
      call-IsWithin limit d.total_output _ (length input) offset (length buffer) output false _
        (subst
          (λ o.
            Keeps o (length buffer) (process_inner words fuel d (drop offset input) buffer false))
          u.same (process-Keeps words fuel d (drop offset input) buffer false u.sound))
        (process-Counts words fuel d (drop offset input) buffer false) u.counted
        (λ d' o output' b u'. loop-IsWithin left d' o output' b u')

-- For any input and any limit, an output that `decompress` returns is within the limit.
pub decompress-IsWithin :
    (words : List ℕ) (fuel : ℕ) (input : List ℕ) (limit : ℕ)
    → IsWithin limit (decompress words fuel input limit)
unfolding decompress
decompress-IsWithin words fuel input limit =
    loop-IsWithin words fuel input limit fuel (with_output_limit limit) 0 [] false record {
      sound = record { fits = tt; under = omega arith };
      same = refl;
      counted = omega arith;
    }
