-- ===== src/Decode/History/Repeat.antt =====
-- What an LZ77 copy means byte by byte, and the doubling that the code does instead.
use brutli.Prelude.{
  ℕ, zero, suc, ◌+◌, ◌-◌, ◌*◌, ◌≤◌, ◌<◌, min, ◌≡◌, refl, sym, ap, ap₂, ◌∙◌, ◌⊎◌, inl, inr, List, [],
  ◌∷◌, ◌++◌, append-nil, append_assoc, arith, ltb, ltb→lt, ltb→le, lt→ltb, le→ltb, Bool-cases,
  length, get_or, take, drop, length-append, length-take, length-drop, take-append, drop-append,
  drop-append_of_le, take-take, drop-get_or, drop-drop,
}
use brutli.Decode.History.{overwrite, repeat_filled}

-- Each byte is the one that then stands `distance` bytes before the end of the stream.
unfoldable pub lz77_copy : List ℕ → ℕ → ℕ → List ℕ
lz77_copy past distance zero = []
lz77_copy past distance (suc n) =
    let byte = get_or past (length past - distance) 0 in
    byte ∷ lz77_copy (past ++ (byte ∷ [])) distance n

-- The seed again and again.
unfoldable pub repeats : List ℕ → ℕ → List ℕ
repeats seed zero = []
repeats [] (suc n) = []
repeats (x ∷ xs) (suc n) = x ∷ repeats (xs ++ (x ∷ [])) n

pub lz77_copy-repeats :
    (n distance : ℕ) (past : List ℕ)
    → 1 ≤ distance
    → distance ≤ length past
    → lz77_copy past distance n ≡ repeats (drop (length past - distance) past) n
unfolding lz77_copy repeats
lz77_copy-repeats zero distance past p h = refl
lz77_copy-repeats (suc n) distance past p h =
    ap (◌∷◌ byte) (
      lz77_copy-repeats n distance (past ++ (byte ∷ [])) p (omega (arith, longer))
      ∙ ap (λ t. repeats t n) next)
    ∙ ap (λ t. repeats t (suc n)) (sym cut)
  where
    start : ℕ
    start = length past - distance

    byte : ℕ
    byte = get_or past start 0

    longer : length (past ++ (byte ∷ [])) ≡ length past + 1
    longer = length-append past (byte ∷ [])

    cut : drop start past ≡ byte ∷ drop (suc start) past
    cut = drop-get_or start past 0 (omega arith)

    next :
        drop (length (past ++ (byte ∷ [])) - distance) (past ++ (byte ∷ []))
        ≡ drop (suc start) past ++ (byte ∷ [])
    next =
        let e : length (past ++ (byte ∷ [])) - distance ≡ suc start = omega (arith, longer) in
        ap (λ k. drop k (past ++ (byte ∷ []))) e
        ∙ drop-append_of_le (suc start) past (byte ∷ []) (omega arith)

repeats-turn :
    (xs ys : List ℕ) (n : ℕ) → repeats (xs ++ ys) (length xs + n) ≡ xs ++ repeats (ys ++ xs) n
unfolding repeats
repeats-turn [] ys n =
    let e : 0 + n ≡ n = omega arith in
    ap (repeats ys) e ∙ ap (λ t. repeats t n) (sym (append-nil ys))
repeats-turn (x ∷ xs) ys n =
    let e : suc (length xs) + n ≡ suc (length xs + n) = omega arith in
    ap (repeats (x ∷ xs ++ ys)) e
    ∙ ap (◌∷◌ x) (
        ap (λ t. repeats t (length xs + n)) (append_assoc xs ys (x ∷ []))
        ∙ repeats-turn xs (ys ++ (x ∷ [])) n
        ∙ ap (λ t. xs ++ repeats t n) (append_assoc ys (x ∷ []) xs))

-- After whole rounds of the seed it begins again.
repeats-whole :
    (seed : List ℕ) (rounds n : ℕ)
    → repeats seed (length seed * rounds + n)
      ≡ repeats seed (length seed * rounds) ++ repeats seed n
unfolding repeats
repeats-whole seed zero n =
    let e : length seed * 0 + n ≡ n = omega arith in
    let z : 0 ≡ length seed * 0 = omega arith in
    ap (repeats seed) e ∙ ap (λ k. repeats seed k ++ repeats seed n) z
repeats-whole seed (suc rounds) n =
    one (length seed * suc rounds + n) (length seed * rounds + n) (grind arith)
    ∙ ap (λ t. seed ++ t) (repeats-whole seed rounds n)
    ∙ sym (append_assoc seed (repeats seed (length seed * rounds)) (repeats seed n))
    ∙ ap (λ t. t ++ repeats seed n)
        (sym (one (length seed * suc rounds) (length seed * rounds) (grind arith)))
  where
    one : (m k : ℕ) → m ≡ length seed + k → repeats seed m ≡ seed ++ repeats seed k
    one m k e =
        ap (repeats seed) e
        ∙ ap (λ t. repeats t (length seed + k)) (sym (append-nil seed))
        ∙ repeats-turn seed [] k

pub length-repeats : (seed : List ℕ) (n : ℕ) → 1 ≤ length seed → length (repeats seed n) ≡ n
unfolding repeats
length-repeats seed zero p = refl
length-repeats [] (suc n) p = absurd (omega arith)
length-repeats (x ∷ xs) (suc n) p =
    ap suc (length-repeats (xs ++ (x ∷ [])) n (omega (arith, length-append xs (x ∷ []))))

pub take-repeats : (seed : List ℕ) (k n : ℕ) → k ≤ n → take k (repeats seed n) ≡ repeats seed k
unfolding repeats
take-repeats seed zero n h = refl
take-repeats seed (suc k) zero h = absurd (omega arith)
take-repeats [] (suc k) (suc n) h = refl
take-repeats (x ∷ xs) (suc k) (suc n) h =
    ap (◌∷◌ x) (take-repeats (xs ++ (x ∷ [])) k n (omega arith))

-- Up to the length of the seed, it is the seed's own beginning.
pub repeats-take : (seed : List ℕ) (n : ℕ) → n ≤ length seed → repeats seed n ≡ take n seed
repeats-take seed n h = sym (take-repeats seed n (length seed) h) ∙ ap (take n) once
  where
    once : repeats seed (length seed) ≡ seed
    once =
        let e : length seed ≡ length seed + 0 = omega arith in
        ap (repeats seed) e
        ∙ ap (λ t. repeats t (length seed + 0)) (sym (append-nil seed))
        ∙ repeats-turn seed [] 0
        ∙ unfold repeats in append-nil seed

-- Bytes written into a buffer with room for them.
module _ (xs : List ℕ) (start : ℕ) (ys : List ℕ) (room : start + length ys ≤ length xs) where
  abbrev front : List ℕ
  front = take start xs ++ ys

  length-front : length front ≡ start + length ys
  length-front = omega (arith, length-append (take start xs) ys, length-take start xs)

  split : overwrite xs start ys ≡ front ++ drop (start + length ys) xs
  unfolding overwrite
  split = sym (append_assoc (take start xs) ys (drop (start + length ys) xs))

  pub length-overwrite : length (overwrite xs start ys) ≡ length xs
  length-overwrite = omega (
    arith,
    ap (λ (l : List ℕ). length l) split,
    length-append front (drop (start + length ys) xs),
    length-front,
    length-drop (start + length ys) xs,
  )

  pub take-overwrite : take (start + length ys) (overwrite xs start ys) ≡ take start xs ++ ys
  take-overwrite =
      ap₂ take (sym length-front) split ∙ take-append front (drop (start + length ys) xs)

  pub drop-overwrite : (n : ℕ) → start + length ys ≤ n → drop n (overwrite xs start ys) ≡ drop n xs
  drop-overwrite n h =
      let e : n ≡ length front + (n - (start + length ys)) = omega (arith, length-front) in
      let e' : start + length ys + (n - (start + length ys)) ≡ n = omega arith in
      ap₂ drop e split
      ∙ sym (
          drop-drop (n - (start + length ys)) (length front) (front ++ drop (start + length ys) xs))
      ∙ ap (drop (n - (start + length ys))) (drop-append front (drop (start + length ys) xs))
      ∙ drop-drop (n - (start + length ys)) (start + length ys) xs
      ∙ ap (λ k. drop k xs) e'

-- The front of the output is the seed, repeated; the rest is as it was.
pub record Filled (seed : List ℕ) (n : ℕ) (before after : List ℕ) : Type 0 where
  pub front_lem : take n after ≡ repeats seed n
  pub length_lem : length after ≡ length before
  pub behind : drop n after ≡ drop n before

stops :
    (fuel produced filled : ℕ) (output : List ℕ)
    → produced ≤ filled
    → repeat_filled fuel produced filled output ≡ output
unfolding repeat_filled
stops zero produced filled output h = refl
stops (suc fuel) produced filled output h = rw (le→ltb filled produced h) refl

-- Whole rounds of the seed stand at the front, or all that is asked for.
abbrev Progress : ℕ → List ℕ → ℕ → Type 0
Progress produced seed filled =
    (filled ≡ produced) ⊎ ((filled < produced) × ((rounds : ℕ) × (filled ≡ length seed * rounds)))

module _ (produced filled rounds : ℕ) (seed output : List ℕ) (less : filled < produced)
    (whole : filled ≡ length seed * rounds) (room : produced ≤ length output)
    (begun : take filled output ≡ repeats seed filled) where
  abbrev chunk : ℕ
  chunk = min (produced - filled) filled

  length-chunk : length (take chunk output) ≡ chunk
  length-chunk = omega (arith, length-take chunk output)

  chunk_lem : take chunk output ≡ repeats seed chunk
  chunk_lem =
      sym (take-take chunk filled output (omega arith))
      ∙ ap (take chunk) begun
      ∙ take-repeats seed chunk filled (omega arith)

  abbrev doubled : List ℕ
  doubled = overwrite output filled (take chunk output)

  doubled-begun : take (filled + chunk) doubled ≡ repeats seed (filled + chunk)
  doubled-begun =
      ap (λ k. take (filled + k) doubled) (sym length-chunk)
      ∙ take-overwrite output filled (take chunk output) (omega (arith, length-chunk))
      ∙ ap₂ ◌++◌ (begun ∙ ap (repeats seed) whole) chunk_lem
      ∙ sym (repeats-whole seed rounds chunk)
      ∙ ap (λ k. repeats seed (k + chunk)) (sym whole)

  doubled-length : length doubled ≡ length output
  doubled-length = length-overwrite output filled (take chunk output) (omega (arith, length-chunk))

  doubled-behind : drop produced doubled ≡ drop produced output
  doubled-behind =
      drop-overwrite output filled (take chunk output) (omega (arith, length-chunk)) produced
        (omega (arith, length-chunk))

  progress : Progress produced seed (filled + chunk)
  progress = elim (Bool-cases (ltb filled (produced - filled))) [
    | inl more ↦
        let below = ltb→lt filled (produced - filled) more in
        let e : length seed * (rounds + rounds) ≡ length seed * rounds + length seed * rounds =
          grind arith in
        inr (omega arith, (rounds + rounds, omega arith))
    | inr last ↦ let above = ltb→le filled (produced - filled) last in inl (omega arith)
  ]

pub repeat_filled-Filled :
    (fuel produced filled : ℕ) (seed output : List ℕ)
    → 1 ≤ filled
    → Progress produced seed filled
    → produced ≤ length output
    → produced ≤ filled + fuel
    → take filled output ≡ repeats seed filled
    → Filled seed produced output (repeat_filled fuel produced filled output)
unfolding repeat_filled
repeat_filled-Filled fuel produced filled seed output p (inl e) room enough begun =
    rw (stops fuel produced filled output (omega arith)) (record {
      front_lem = ap (λ k. take k output) (sym e) ∙ begun ∙ ap (repeats seed) e;
      length_lem = refl;
      behind = refl;
    })
repeat_filled-Filled zero produced filled seed output p (inr (less, _)) room enough begun =
    absurd (omega arith)
repeat_filled-Filled (suc fuel) produced filled seed output p (inr (less, (rounds, whole))) room
      enough begun =
    let length_lem = doubled-length produced filled rounds seed output less whole room begun in
    let rest =
      repeat_filled-Filled fuel produced
        (filled + chunk produced filled rounds seed output less whole room begun) seed
        (doubled produced filled rounds seed output less whole room begun) (omega arith)
        (progress produced filled rounds seed output less whole room begun)
        (omega (arith, length_lem)) (omega arith)
        (doubled-begun produced filled rounds seed output less whole room begun) in
    rw (lt→ltb filled produced less) (record {
      front_lem = rest.front_lem;
      length_lem = rest.length_lem ∙ length_lem;
      behind =
          rest.behind ∙ doubled-behind produced filled rounds seed output less whole room begun;
    })
