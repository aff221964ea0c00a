-- ===== src/Decode/History/Ring.antt =====
-- The ring under the window: read from its write position on, it is the last bytes of the stream.
use brutli.Prelude.{
  ℕ, ◌+◌, ◌-◌, ◌%◌, ◌≤◌, ◌<◌, ◌≡◌, sym, ap, ap₂, ◌∙◌, ◌⊎◌, inl, inr, List, [], ◌++◌, append-nil,
  append_assoc, arith, ltb, ltb→lt, ltb→le, Bool-cases, length, take, drop, length-append,
  length-take, length-drop, take-append, drop-append, drop-append_of_le, drop-drop, drop_all,
}
use brutli.Decode.History.{overwrite}
use native.Mathlib.Nat.{mod-eq_of_lt, mod_self}

-- The last `n` bytes, or all of them where there are fewer.
abbrev pub latest : ℕ → List ℕ → List ℕ
latest n past = drop (length past - n) past

abbrev pub unroll : ℕ → List ℕ → List ℕ
unroll write buffer = drop write buffer ++ take write buffer

pub record Full (size : ℕ) (buffer : List ℕ) (write : ℕ) (past : List ℕ) : Type 0 where
  pub long : size ≤ length past
  pub count : length buffer ≡ size
  pub inside : write < size
  pub content : unroll write buffer ≡ latest size past

-- The buffer grows up to its size, and is a ring from then on.
abbrev pub Stored : ℕ → List ℕ → ℕ → List ℕ → Type 0
Stored size buffer write past =
    ((length past < size) × (buffer ≡ past)) ⊎ Full size buffer write past

pub latest-append :
    (size : ℕ) (past xs : List ℕ)
    → size ≤ length past
    → length xs ≤ size
    → drop (length xs) (latest size past ++ xs) ≡ latest size (past ++ xs)
latest-append size past xs long fits =
    let e : length past - size + length xs ≡ length (past ++ xs) - size =
      omega (arith, length-append past xs) in
    ap (drop (length xs)) (sym (drop-append_of_le (length past - size) past xs (omega arith)))
    ∙ drop-drop (length xs) (length past - size) (past ++ xs)
    ∙ ap (λ k. drop k (past ++ xs)) e

module _ (size : ℕ) (buffer : List ℕ) (write : ℕ) (xs : List ℕ) where
  module _ (count : length buffer ≡ size) (fits : write + length xs ≤ size) where
    abbrev front : List ℕ
    front = take write buffer ++ xs

    abbrev back : List ℕ
    back = drop (write + length xs) buffer

    length-front : length front ≡ write + length xs
    length-front = omega (arith, length-append (take write buffer) xs, length-take write buffer)

    overwritten : overwrite buffer write xs ≡ front ++ back
    unfolding overwrite
    overwritten = sym (append_assoc (take write buffer) xs back)

    length-overwritten : length (overwrite buffer write xs) ≡ size
    length-overwritten = omega (
      arith,
      ap (λ (l : List ℕ). length l) overwritten,
      length-append front back,
      length-front,
      length-drop (write + length xs) buffer,
    )

    shifted : drop (length xs) (unroll write buffer ++ xs) ≡ back ++ front
    shifted =
        ap (drop (length xs)) (append_assoc (drop write buffer) (take write buffer) xs)
        ∙ drop-append_of_le (length xs) (drop write buffer) front
            (omega (arith, length-drop write buffer))
        ∙ ap (λ t. t ++ front) (drop-drop (length xs) write buffer)

    unroll-overwrite :
        (end : ℕ)
        → ((end ≡ write + length xs) × (end < size)) ⊎ ((write + length xs ≡ size) × (end ≡ 0))
        → unroll end (overwrite buffer write xs) ≡ drop (length xs) (unroll write buffer ++ xs)
    unroll-overwrite end (inl (e, _)) =
        let at : end ≡ length front = e ∙ sym length-front in
        ap₂ unroll at overwritten
        ∙ ap₂ ◌++◌ (drop-append front back) (take-append front back)
        ∙ sym shifted
    unroll-overwrite end (inr (full, e)) =
        let none_left : back ≡ [] = drop_all (write + length xs) buffer (omega arith) in
        ap₂ unroll e overwritten
        ∙ append-nil (front ++ back)
        ∙ ap (λ t. front ++ t) none_left
        ∙ append-nil front
        ∙ sym (ap (λ t. t ++ front) none_left)
        ∙ sym shifted

-- Where the write position goes.
pub wrapped :
    (size n : ℕ)
    → n ≤ size
    → 0 < size
    → ((n % size ≡ n) × (n % size < size)) ⊎ ((n ≡ size) × (n % size ≡ 0))
wrapped size n h p = elim (Bool-cases (ltb n size)) [
  | inl below ↦
      let e = mod-eq_of_lt (ltb→lt n size below) in inl (e, omega (arith, e, ltb→lt n size below))
  | inr at ↦
      let same : n ≡ size = omega (arith, ltb→le n size at) in
      inr (same, ap (λ k. k % size) same ∙ mod_self size)
]

-- Bytes that fit up to the end of the ring take the place of the oldest ones.
pub overwrite-Full :
    (size : ℕ) (buffer : List ℕ) (write : ℕ) (past xs : List ℕ)
    → Full size buffer write past
    → write + length xs ≤ size
    → Full size (overwrite buffer write xs) ((write + length xs) % size) (past ++ xs)
overwrite-Full size buffer write past xs f fits =
    let goes = wrapped size (write + length xs) fits (omega (arith, f.inside)) in
    record {
      long = omega (arith, f.long, length-append past xs);
      count = length-overwritten size buffer write xs f.count fits;
      inside = elim goes [ inl (e, h) ↦ h | inr (e, h) ↦ omega (arith, f.inside) ];
      content =
          unroll-overwrite size buffer write xs f.count fits ((write + length xs) % size) goes
          ∙ ap (λ t. drop (length xs) (t ++ xs)) f.content
          ∙ latest-append size past xs f.long (omega arith);
    }
