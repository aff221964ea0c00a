-- ===== src/Decode/Facade/Sticky.antt =====
-- Calls of the decoder after an error.
use brutli.Prelude.{
  ◌≡◌, refl, ap, subst, ℕ, Bool, true, false, Option, none, some, List, [], ok, err,
}
use brutli.Decode.Facade.{
  Decoder, DecodeError, Call, called, crashed, unfinished, advance, remember, unless_failed,
  process_inner, process, finish,
}

-- What a call that fails leaves: the decoder holds the error.
abbrev Remembers : Call → Type 0
Remembers (called (err e) d output) = d.error ≡ some e
Remembers _ = Unit

module _ (words : List ℕ) (fuel : ℕ) where
  remember-Remembers : (c : Call) → Remembers (remember words fuel c)
  remember-Remembers (called (err e) d output) = refl
  remember-Remembers (called (ok p) d output) = tt
  remember-Remembers crashed = tt
  remember-Remembers unfinished = tt

  process-Remembers :
      (d : Decoder) (input output : List ℕ) (end_of_input : Bool)
      → Remembers (process_inner words fuel d input output end_of_input)
  unfolding process_inner
  process-Remembers d input output end_of_input = go d.error
    where
      go :
          (o : Option DecodeError)
          → Remembers (process_inner words fuel (record d { error = o }) input output end_of_input)
      go (some e) = refl
      go none =
          remember-Remembers
            (advance words fuel (record d { error = none }) input output end_of_input)

  -- After a call that fails, whatever it was given, every later `process` and `finish` gives the same error and
  -- changes neither the decoder nor the output.
  pub errors-Terminal :
      (d d' : Decoder) (input output output' : List ℕ) (end_of_input : Bool) (e : DecodeError)
      → process_inner words fuel d input output end_of_input ≡ called (err e) d' output'
      → (more room : List ℕ)
      → (process words fuel d' more room ≡ called (err e) d' room)
        × (finish words fuel d' room ≡ called (err e) d' room)
  unfolding process finish process_inner
  errors-Terminal d d' input output output' end_of_input e fails more room =
      let held = subst Remembers fails (process-Remembers d input output end_of_input) in
      (
        ap (λ o. unless_failed words fuel o d' more room false) held,
        ap (λ o. unless_failed words fuel o d' [] room true) held,
      )
