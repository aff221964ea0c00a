-- ===== src/Decode/History/Copy.antt =====
-- `copy_into` against the byte-by-byte copy.
use brutli.Prelude.{
  ℕ, zero, suc, ◌+◌, ◌-◌, ◌*◌, ◌%◌, ◌^◌, ◌≤◌, ◌<◌, min, ◌≡◌, refl, sym, ap, ap₂, ◌∙◌, ◌⊎◌, inl, inr,
  subst, List, ◌++◌, append-nil, arith, ltb, ltb→lt, ltb→le, ◌==◌, false, ok, Bool-cases, length,
  take, drop, length-take, length-drop, take_all, drop_all, take-append_cut, drop-append_cut,
  drop-append_of_le, take-take, drop-take, drop-drop, take-append-drop, ◌||◌,
}
use brutli.Prelude.Pow.{two-pow-le}
use brutli.Decode.History.{
  History, overwrite, copy_history_prefix, copied, copy_into, copy_within_reach,
  max_backward_distance, push_slice,
}
use brutli.Decode.History.Ring.{unroll}
use brutli.Decode.History.Refine.{Holds, masked, growing, full}
use brutli.Decode.History.Slice.{push_slice-Holds}
use brutli.Decode.History.Repeat.{
  lz77_copy, lz77_copy-repeats, repeats, repeats-take, Filled, repeat_filled-Filled,
  length-overwrite, take-overwrite, drop-overwrite,
}
use native.Mathlib.Nat.{mod-eq_of_lt, add-mod_right}

-- The two parts that are read from the ring, from `start` on.
abbrev pieces : ℕ → List ℕ → ℕ → ℕ → List ℕ
pieces size buffer n start =
    let first = min n (size - start) in take first (drop start buffer) ++ take (n - first) buffer

module _ (size : ℕ) (buffer : List ℕ) (write distance n : ℕ) (count : length buffer ≡ size)
    (inside : write < size) (fits : n ≤ distance) (near : distance < size) where
  straight :
      distance ≤ write
      → pieces size buffer n (write - distance)
        ≡ take n (drop (size - distance) (unroll write buffer))
  straight h =
      let e : min n (size - (write - distance)) ≡ n = omega arith in
      let z : n - n ≡ 0 = omega arith in
      let m : write - distance + distance ≡ write = omega arith in
      let c : size - distance - length (drop write buffer) ≡ write - distance =
        omega (arith, length-drop write buffer) in
      ap (λ k. take k (drop (write - distance) buffer) ++ take (n - k) buffer) e
      ∙ ap (λ k. take n (drop (write - distance) buffer) ++ take k buffer) z
      ∙ append-nil (take n (drop (write - distance) buffer))
      ∙ sym (take-take n distance (drop (write - distance) buffer) fits)
      ∙ ap (take n) (
          sym (drop-take (write - distance) distance buffer)
          ∙ ap (λ k. drop (write - distance) (take k buffer)) m
          ∙ ap (λ k. drop k (take write buffer)) (sym c)
          ∙ ap (λ t. t ++ drop (size - distance - length (drop write buffer)) (take write buffer))
              (sym (
                drop_all (size - distance) (drop write buffer)
                  (omega (arith, length-drop write buffer))))
          ∙ sym (drop-append_cut (size - distance) (drop write buffer) (take write buffer)))

  around :
      write < distance
      → pieces size buffer n (write + size - distance)
        ≡ take n (drop (size - distance) (unroll write buffer))
  around h =
      let start : ℕ = write + size - distance in
      let far : List ℕ = drop start buffer in
      let length-far : length far ≡ size - start = omega (arith, length-drop start buffer) in
      let e : write + (size - distance) ≡ start = omega arith in
      let rest : n - min n (size - start) ≡ n - length far = omega arith in
      ap₂ ◌++◌ (take-min n (size - start) far (omega arith))
        (ap (λ k. take k buffer) rest ∙ sym (take-take (n - length far) write buffer (omega arith)))
      ∙ sym (take-append_cut n far (take write buffer))
      ∙ ap (λ k. take n (drop k buffer ++ take write buffer)) (sym e)
      ∙ ap (λ t. take n (t ++ take write buffer)) (sym (drop-drop (size - distance) write buffer))
      ∙ ap (take n) (
          sym (
            drop-append_of_le (size - distance) (drop write buffer) (take write buffer)
              (omega (arith, length-drop write buffer))))
    where
      take-min : (n m : ℕ) (xs : List ℕ) → length xs ≤ m → take (min n m) xs ≡ take n xs
      take-min n m xs h = elim (Bool-cases (ltb m n)) [
        | inl less ↦
            let lt = ltb→lt m n less in
            take_all (min n m) xs (omega arith) ∙ sym (take_all n xs (omega arith))
        | inr more ↦
            let le = ltb→le m n more in let e : min n m ≡ n = omega arith in ap (λ k. take k xs) e
      ]

  start_cases :
      ((distance ≤ write) × ((write + size - distance) % size ≡ write - distance))
      ⊎ ((write < distance) × ((write + size - distance) % size ≡ write + size - distance))
  start_cases = elim (Bool-cases (ltb write distance)) [
    | inl h ↦ let lt = ltb→lt write distance h in inr (lt, mod-eq_of_lt (omega arith))
    | inr h ↦
        let le = ltb→le write distance h in
        let e : write + size - distance ≡ write - distance + size = omega arith in
        inl (
          le,
          ap (λ k. k % size) e ∙ add-mod_right (write - distance) size ∙ mod-eq_of_lt (omega arith),
        )
  ]

  pieces_lem :
      pieces size buffer n ((write + size - distance) % size)
      ≡ take n (drop (size - distance) (unroll write buffer))
  pieces_lem = elim start_cases [
    | inl (h, e) ↦ ap (pieces size buffer n) e ∙ straight h
    | inr (h, e) ↦ ap (pieces size buffer n) e ∙ around h
  ]

-- What is copied out of the ring is the part of the stream that begins `distance` bytes before its end.
pub copy_history_prefix_lem :
    (bits : ℕ) (h : History) (past : List ℕ) (distance n : ℕ)
    → Holds bits h past
    → n ≤ distance
    → distance ≤ max_backward_distance h
    → copy_history_prefix h distance n ≡ take n (drop (length past - distance) past)
unfolding copy_history_prefix
copy_history_prefix_lem bits h past distance n v fits near =
    elim (Bool-cases (ltb (length h.buffer) h.ring_size)) [
      | inl room ↦ rw room (
          ap (λ t. take n (drop (length t - distance) t))
            (growing (2 ^ bits) h.buffer h.write past v.stored
              (omega (arith, v.size, ltb→lt (length h.buffer) h.ring_size room))))
      | inr packed ↦ rw packed (
          let f =
            full (2 ^ bits) h.buffer h.write past v.stored
              (omega (arith, v.size, ltb→le (length h.buffer) h.ring_size packed)) in
          let below : distance < 2 ^ bits = omega (arith, v.count, v.window, two-pow-le v.wide) in
          let cut : length past - 2 ^ bits + (2 ^ bits - distance) ≡ length past - distance =
            omega (arith, f.long) in
          ap (pieces h.ring_size h.buffer n)
            (masked bits h.ring_mask (h.write + h.ring_size - distance) v.mask)
          ∙ ap (λ k. pieces k h.buffer n ((h.write + k - distance) % 2 ^ bits)) v.size
          ∙ pieces_lem (2 ^ bits) h.buffer h.write distance n f.count f.inside fits below
          ∙ ap (λ t. take n (drop (2 ^ bits - distance) t)) f.content
          ∙ ap (take n) (drop-drop (2 ^ bits - distance) (length past - 2 ^ bits) past)
          ∙ ap (λ k. take n (drop k past)) cut)
    ]

module _ (bits : ℕ) (h : History) (past output : List ℕ) (distance produced : ℕ)
    (v : Holds bits h past) (some_distance : 1 ≤ distance)
    (near : distance ≤ max_backward_distance h) (some_bytes : 1 ≤ produced)
    (room : produced ≤ length output) where
  abbrev seed : List ℕ
  seed = drop (length past - distance) past

  within : distance ≤ length past
  within = omega (arith, v.count)

  length-seed : length seed ≡ distance
  length-seed = omega (arith, length-drop (length past - distance) past, within)

  abbrev seed_len : ℕ
  seed_len = min produced distance

  prefix : copy_history_prefix h distance seed_len ≡ take seed_len seed
  prefix = copy_history_prefix_lem bits h past distance seed_len v (omega arith) near

  length-prefix : length (copy_history_prefix h distance seed_len) ≡ seed_len
  length-prefix =
      omega (arith, ap (λ (l : List ℕ). length l) prefix, length-take seed_len seed, length-seed)

  abbrev begun : List ℕ
  begun = overwrite output 0 (copy_history_prefix h distance seed_len)

  prefix_room : 0 + length (copy_history_prefix h distance seed_len) ≤ length output
  prefix_room = omega (arith, length-prefix)

  begun_lem : take seed_len begun ≡ repeats seed seed_len
  begun_lem =
      let e : seed_len ≡ 0 + length (copy_history_prefix h distance seed_len) =
        omega (arith, length-prefix) in
      ap (λ k. take k begun) e
      ∙ take-overwrite output 0 (copy_history_prefix h distance seed_len) prefix_room
      ∙ prefix
      ∙ sym (repeats-take seed seed_len (omega (arith, length-seed)))

  copied-Filled : Filled seed produced output (copied h distance produced output)
  copied-Filled =
      let length_lem =
        length-overwrite output 0 (copy_history_prefix h distance seed_len) prefix_room in
      let f =
        repeat_filled-Filled produced produced seed_len seed begun (omega arith) progress
          (omega (arith, length_lem)) (omega arith) begun_lem in
      record {
        front_lem = f.front_lem;
        length_lem = f.length_lem ∙ length_lem;
        behind =
            f.behind
            ∙ drop-overwrite output 0 (copy_history_prefix h distance seed_len) prefix_room produced
                (omega (arith, length-prefix));
      }
    where
      progress :
          (seed_len ≡ produced)
          ⊎ ((seed_len < produced) × ((rounds : ℕ) × (seed_len ≡ length seed * rounds)))
      progress = elim (Bool-cases (ltb distance produced)) [
        | inl more ↦
            let lt = ltb→lt distance produced more in
            inr (omega arith, (1, omega (arith, length-seed)))
        | inr last ↦ let le = ltb→le distance produced last in inl (omega arith)
      ]

  abbrev answer : List ℕ
  answer = lz77_copy past distance produced

  copied_front : take produced (copied h distance produced output) ≡ answer
  copied_front =
      copied-Filled.front_lem ∙ sym (lz77_copy-repeats produced distance past some_distance within)

  copied_lem : copied h distance produced output ≡ answer ++ drop produced output
  copied_lem =
      sym (take-append-drop produced (copied h distance produced output))
      ∙ ap₂ ◌++◌ copied_front copied-Filled.behind

copy_within_reach_lem :
    (bits : ℕ) (h : History) (past output : List ℕ) (distance produced : ℕ)
    → Holds bits h past
    → 1 ≤ distance
    → distance ≤ max_backward_distance h
    → produced ≤ length output
    → (h' : History) × (copy_within_reach h distance produced output
        ≡ (produced, lz77_copy past distance produced ++ drop produced output, h'))
      × Holds bits h' (past ++ lz77_copy past distance produced)
copy_within_reach_lem bits h past output distance zero v p near room =
    unfold lz77_copy in (h, refl, rw (append-nil past) v)
copy_within_reach_lem bits h past output distance (suc n) v p near room =
    let nonzero : (suc n == 0) ≡ false = ground arith in
    let bytes = copied_front bits h past output distance (suc n) v p near (omega arith) room in
    (
      push_slice h (take (suc n) (copied h distance (suc n) output)),
      rw nonzero (
          ap (λ t. (suc n, t, push_slice h (take (suc n) (copied h distance (suc n) output))))
            (copied_lem bits h past output distance (suc n) v p near (omega arith) room)),
      subst
          (λ t.
            Holds bits (push_slice h (take (suc n) (copied h distance (suc n) output))) (past ++ t))
          bytes (push_slice-Holds bits h past (take (suc n) (copied h distance (suc n) output)) v),
    )

-- For a history that stands for `past`, a distance of 1 to `max_backward_distance`, and any count and
-- output buffer, `copy_into` succeeds. With n the smaller of the count and the output's length, it returns
-- n; the output then begins with the n bytes of the byte-by-byte LZ77 copy, which may overlap its own
-- source, and is unchanged behind them; and the new history stands for `past` with these bytes appended.
pub copy_into_lem :
    (bits : ℕ) (h : History) (past output : List ℕ) (distance count : ℕ)
    → Holds bits h past
    → 1 ≤ distance
    → distance ≤ max_backward_distance h
    → (h' : History) × (copy_into h distance count output
        ≡ ok (
          min count (length output),
          lz77_copy past distance (min count (length output))
              ++ drop (min count (length output)) output,
          h',
        ))
      × Holds bits h' (past ++ lz77_copy past distance (min count (length output)))
unfolding copy_into
copy_into_lem bits h past output distance count v p near =
    let in_reach : ((distance == 0) || ltb (max_backward_distance h) distance) ≡ false =
      ground arith in
    let (h', result, holds) =
      copy_within_reach_lem bits h past output distance (min count (length output)) v p near
        (omega arith) in
    (h', rw in_reach (ap ok result), holds)
