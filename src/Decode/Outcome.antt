-- ===== src/Decode/Outcome.antt =====
-- What a call of an incremental decoder comes to. A `decode` of the source is a loop over a state; it
-- returns as soon as a read gets no bits, with the state and the reader as they stand.
use brutli.Prelude.{
  true, false, if◌then◌else◌, ℕ, ◌≤◌, leb, arith, ◌≡◌, refl, ap, sym, subst, ◌∙◌, Option, none,
  some, Bool, List, Result, ok, err,
}
use brutli.Decode.BitReader.{Source, max_read_bits, feed, read_bits, align_to_byte_with_zero_fill}
use brutli.Decode.BitReader.Resume.{ReadResumes, read_bits-ReadResumes, align-feed}
use brutli.Decode.BitReader.Content.{Reads}

-- `pending` is `None` or `Ok(None)`; a decoder that can fail is `ready` with a `Result`. `panicked` is
-- `unreachable!`, a failed `assert!` or a failed `expect`.
pub data Outcome (D T : Type 0) : Type 0 where
  pending : D → Source → Outcome D T
  ready : T → D → Source → Outcome D T
  panicked : Outcome D T

-- How `whole`, a call on the input with `more` bytes behind it, relates to `part`, the same call on the
-- input alone: it is the same answer, or what a second call by `entry` on the further bytes gives.
abbrev pub Resumed :
    {D T : Type 0} → (D → Source → Outcome D T) → List ℕ → Outcome D T → Outcome D T → Type 0
Resumed entry more (pending d src) whole = whole ≡ entry d (feed src more)
Resumed entry more (ready t d src) whole = whole ≡ ready t d (feed src more)
Resumed entry more panicked whole = whole ≡ panicked

module _ {D T : Type 0} where
  abbrev pub on_read : D → (ℕ → Source → Outcome D T) → Option ℕ × Source → Outcome D T
  on_read d k (none, src) = pending d src
  on_read d k (some v, src) = k v src

  -- `let Some(v) = reader.read_bits(input, cursor, count) else { return … }`, with the `assert!` of `read_bits`
  -- on the count.
  unfoldable pub read_then : ℕ → D → Source → (ℕ → Source → Outcome D T) → Outcome D T
  read_then count d src k =
      if leb count max_read_bits then on_read d k (read_bits count src) else panicked

  pub read_then-Reads :
      {count v : ℕ} {src src' : Source} (d : D) (k : ℕ → Source → Outcome D T)
      → count ≤ max_read_bits
      → Reads count v src src'
      → read_then count d src k ≡ k v src'
  unfolding read_then
  read_then-Reads {count} d k h r =
      let fits : leb count max_read_bits ≡ true = ground arith in
      rw fits (ap (on_read d k) r.result)

  -- `if !reader.align_to_byte_with_zero_fill() { … }`
  unfoldable pub align_then : Source → (Bool → Source → Outcome D T) → Outcome D T
  align_then src k = let (zero_fill, src') = align_to_byte_with_zero_fill src in k zero_fill src'

  abbrev pub Resumes : (D → Source → Outcome D T) → (Source → Outcome D T) → Type 0
  Resumes entry phase =
      (src : Source) (more : List ℕ) → Resumed entry more (phase src) (phase (feed src more))

  -- A phase that begins with a read resumes where the entry comes back to that phase.
  pub read_then-Resumes :
      (entry : D → Source → Outcome D T) (count : ℕ) (d : D) (k : ℕ → Source → Outcome D T)
      → ((src : Source) → entry d src ≡ read_then count d src k)
      → ((v : ℕ) → Resumes entry (k v))
      → Resumes entry (λ src. read_then count d src k)
  unfolding read_then
  read_then-Resumes entry count d k back next src more = guarded (leb count max_read_bits) refl
    where
      go :
          (a b : Option ℕ × Source)
          → leb count max_read_bits ≡ true
          → ReadResumes count a b more
          → Resumed entry more (on_read d k a) (on_read d k b)
      go (some v, src') b fits e =
          subst (λ t. Resumed entry more (k v src') (on_read d k t)) (sym e) (next v src' more)
      go (none, src') b fits e =
          ap (on_read d k) e
          ∙ sym (
              back (feed src' more)
              ∙ ap (λ c. if c then on_read d k (read_bits count (feed src' more)) else panicked)
                  fits)

      guarded :
          (fits : Bool)
          → leb count max_read_bits ≡ fits
          → Resumed entry more
              (if fits then on_read d k (read_bits count src) else panicked)
              (if fits then on_read d k (read_bits count (feed src more)) else panicked)
      guarded true fits =
          go (read_bits count src) (read_bits count (feed src more)) fits
            (read_bits-ReadResumes count src more)
      guarded false over = refl

  pub align_then-Resumes :
      (entry : D → Source → Outcome D T) (k : Bool → Source → Outcome D T)
      → ((zero_fill : Bool) → Resumes entry (k zero_fill))
      → Resumes entry (λ src. align_then src k)
  unfolding align_then
  align_then-Resumes entry k next src more =
      subst (λ t. Resumed entry more (k a.0 a.1) (k t.0 t.1)) (sym (align-feed src more))
        (next a.0 a.1 more)
    where
      a : Bool × Source
      a = align_to_byte_with_zero_fill src

  pub if-Resumes :
      (entry : D → Source → Outcome D T) (b : Bool) (f g : Source → Outcome D T)
      → Resumes entry f
      → Resumes entry g
      → Resumes entry (λ src. if b then f src else g src)
  if-Resumes entry true f g p q = p
  if-Resumes entry false f g p q = q

  pub ready-Resumes : (entry : D → Source → Outcome D T) (t : T) (d : D) → Resumes entry (ready t d)
  ready-Resumes entry t d src more = refl

  pub panicked-Resumes : (entry : D → Source → Outcome D T) → Resumes entry (λ src. panicked)
  panicked-Resumes entry src more = refl

module _ {D D' T T' : Type 0} where
  -- A call of a decoder inside another: `put` stores the state that the inner one is left in.
  abbrev pub call_then : (D' → D) → Outcome D' T' → (T' → D' → Source → Outcome D T) → Outcome D T
  call_then put (pending d src) k = pending (put d) src
  call_then put (ready t d src) k = k t d src
  call_then put panicked k = panicked

  -- A phase that begins with an inner call resumes where the inner decoder does, and where the entry comes
  -- back to that phase from each state that the inner decoder waits in.
  pub call_then-Resumes :
      (entry : D → Source → Outcome D T) (put : D' → D) (inner : D' → Source → Outcome D' T')
      (call : Source → Outcome D' T') (k : T' → D' → Source → Outcome D T)
      → Resumes inner call
      → ((d : D') (src : Source) → entry (put d) src ≡ call_then put (inner d src) k)
      → ((t : T') (d : D') → Resumes entry (k t d))
      → Resumes entry (λ src. call_then put (call src) k)
  call_then-Resumes entry put inner call k inner_resumes back next src more =
      go (call src) (call (feed src more)) (inner_resumes src more)
    where
      go :
          (a b : Outcome D' T')
          → Resumed inner more a b
          → Resumed entry more (call_then put a k) (call_then put b k)
      go (pending d s) b e = ap (λ o. call_then put o k) e ∙ sym (back d (feed s more))
      go (ready t d s) b e =
          subst (λ o. Resumed entry more (k t d s) (call_then put o k)) (sym e) (next t d s more)
      go panicked b e = ap (λ o. call_then put o k) e

-- `?` on a result.
abbrev pub match_result : {E A B : Type 0} → Result E A → (E → B) → (A → B) → B
match_result (err e) f k = f e
match_result (ok a) f k = k a

-- An `Option` that the code expects to hold a value.
abbrev pub expect : {A B : Type 0} → Option A → B → (A → B) → B
expect none otherwise k = otherwise
expect (some a) otherwise k = k a

module _ {E A D T : Type 0} where
  pub match_result-Resumes :
      (entry : D → Source → Outcome D T) (r : Result E A) (f : E → Source → Outcome D T)
      (k : A → Source → Outcome D T)
      → ((e : E) → Resumes entry (f e))
      → ((a : A) → Resumes entry (k a))
      → Resumes entry (λ src. match_result r (λ e. f e src) (λ a. k a src))
  match_result-Resumes entry (err e) f k p q = p e
  match_result-Resumes entry (ok a) f k p q = q a

module _ {A D T : Type 0} where
  pub expect-Resumes :
      (entry : D → Source → Outcome D T) (o : Option A) (f : Source → Outcome D T)
      (k : A → Source → Outcome D T)
      → Resumes entry f
      → ((a : A) → Resumes entry (k a))
      → Resumes entry (λ src. expect o (f src) (λ a. k a src))
  expect-Resumes entry none f k p q = p
  expect-Resumes entry (some a) f k p q = q a

-- `let Some(a) = inner.decode(reader, input, cursor)? else { return Ok(None) }`: a failure is wrapped.
abbrev pub try_call :
    {D D' A B E F : Type 0}
    → (D' → D)
    → (E → F)
    → Outcome D' (Result E A)
    → (A → D' → Source → Outcome D (Result F B))
    → Outcome D (Result F B)
try_call put wrap o k =
    call_then put o
      λ r d src. match_result r (λ e. ready (err (wrap e)) (put d) src) (λ a. k a d src)

module _ {D D' A B E F : Type 0} where
  pub try_call-Resumes :
      (entry : D → Source → Outcome D (Result F B)) (put : D' → D) (wrap : E → F)
      (inner : D' → Source → Outcome D' (Result E A)) (call : Source → Outcome D' (Result E A))
      (k : A → D' → Source → Outcome D (Result F B))
      → Resumes inner call
      → ((d : D') (src : Source) → entry (put d) src ≡ try_call put wrap (inner d src) k)
      → ((a : A) (d : D') → Resumes entry (k a d))
      → Resumes entry (λ src. try_call put wrap (call src) k)
  try_call-Resumes entry put wrap inner call k inner_resumes back next =
      call_then-Resumes entry put inner call _ inner_resumes back
        (λ r d. match_result-Resumes entry r _ _ (λ e. ready-Resumes entry _ _) (λ a. next a d))
