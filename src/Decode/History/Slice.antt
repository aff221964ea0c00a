-- ===== src/Decode/History/Slice.antt =====
-- `push_slice`: the growing part, and the loop around the ring.
use brutli.Prelude.{
  ℕ, zero, suc, ◌+◌, ◌-◌, ◌%◌, ◌^◌, ◌≤◌, ◌<◌, min, bit_and, ◌≡◌, refl, sym, ap, ap₂, ◌∙◌, ◌⊎◌, inl,
  inr, subst, List, [], ◌∷◌, ◌++◌, append-nil, append_assoc, arith, ltb, ltb→lt, ltb→le, ◌==◌,
  Bool-cases, false, length, take, drop, length-append, length-take, length-drop, take-append-drop,
}
use brutli.Prelude.Pow.{two-pow-pos}
use brutli.Decode.History.{History, overwrite, count_slice, write_around, grow, push_slice}
use brutli.Decode.History.Ring.{Stored, Full, overwrite-Full}
use brutli.Decode.History.Refine.{
  back, Holds, Moves, HasRing, growing, full, grow-Stored, masked, back-append, back-snoc,
}

record Rounds (bits : ℕ) (h h' : History) (past : List ℕ) : Type 0 where
  buffer : List ℕ
  write : ℕ
  result : h' ≡ record h { buffer = buffer; write = write }
  ring : Full (2 ^ bits) buffer write past

abbrev part : History → List ℕ → ℕ
part h remaining = min (length remaining) (h.ring_size - h.write)

abbrev next_round : History → List ℕ → History
next_round h remaining = record h {
  buffer = overwrite h.buffer h.write (take (part h remaining) remaining);
  write = bit_and (h.write + part h remaining) h.ring_mask;
}

next_round-Full :
    (bits : ℕ) (h : History) (past remaining : List ℕ)
    → h.ring_size ≡ 2 ^ bits
    → h.ring_mask ≡ 2 ^ bits - 1
    → Full (2 ^ bits) h.buffer h.write past
    → Full
        (2 ^ bits)
        (next_round h remaining).buffer
        (next_round h remaining).write
        (past ++ take (part h remaining) remaining)
next_round-Full bits h past remaining size mask f =
    let taken = take (part h remaining) remaining in
    let length-taken : length taken ≡ part h remaining =
      omega (arith, length-take (part h remaining) remaining) in
    subst (λ w. Full (2 ^ bits) (overwrite h.buffer h.write taken) w (past ++ taken))
      (ap (λ n. (h.write + n) % 2 ^ bits) length-taken
        ∙ sym (masked bits h.ring_mask (h.write + part h remaining) mask))
      (overwrite-Full (2 ^ bits) h.buffer h.write past taken f
        (omega (arith, f.inside, size, length-taken)))

-- With one round of fuel for each byte, the loop ends with every byte in the ring.
write_around-Rounds :
    (fuel bits : ℕ) (h : History) (past remaining : List ℕ)
    → h.ring_size ≡ 2 ^ bits
    → h.ring_mask ≡ 2 ^ bits - 1
    → Full (2 ^ bits) h.buffer h.write past
    → length remaining ≤ fuel
    → Rounds bits h (write_around fuel h remaining) (past ++ remaining)
unfolding write_around
write_around-Rounds zero bits h past [] size mask f enough = record {
  buffer = h.buffer;
  write = h.write;
  result = refl;
  ring = rw (append-nil past) f;
}
write_around-Rounds zero bits h past (byte ∷ bytes) size mask f enough = absurd (omega arith)
write_around-Rounds (suc fuel) bits h past [] size mask f enough = record {
  buffer = h.buffer;
  write = h.write;
  result = refl;
  ring = rw (append-nil past) f;
}
write_around-Rounds (suc fuel) bits h past (byte ∷ bytes) size mask f enough =
    let remaining : List ℕ = byte ∷ bytes in
    let n : ℕ = part h remaining in
    let further =
      write_around-Rounds fuel bits (next_round h remaining) (past ++ take n remaining)
        (drop n remaining) size mask (next_round-Full bits h past remaining size mask f)
        (omega (arith, length-drop n remaining, f.inside, size)) in
    let joined =
      append_assoc past (take n remaining) (drop n remaining)
      ∙ ap (λ t. past ++ t) (take-append-drop n remaining) in
    record {
      buffer = further.buffer;
      write = further.write;
      result = further.result;
      ring = subst (Full (2 ^ bits) further.buffer further.write) joined further.ring;
    }

-- What is left after the growing part goes around the ring, which is full if anything is left.
rest-Moves :
    (bits : ℕ) (h : History) (past remaining : List ℕ)
    → HasRing bits h past
    → (length remaining ≡ 0) ⊎ (2 ^ bits ≤ length h.buffer)
    → Moves bits h (write_around (length remaining) h remaining) (past ++ remaining)
rest-Moves bits h past [] r e = record {
  buffer = h.buffer;
  write = h.write;
  result = unfold write_around in refl;
  stored = rw (append-nil past) r.stored;
}
rest-Moves bits h past (byte ∷ bytes) r (inl e) = absurd (omega arith)
rest-Moves bits h past (byte ∷ bytes) r (inr packed) =
    let rounds =
      write_around-Rounds (length (byte ∷ bytes)) bits h past (byte ∷ bytes) r.size r.mask
        (full (2 ^ bits) h.buffer h.write past r.stored packed) (omega arith) in
    record {
      buffer = rounds.buffer;
      write = rounds.write;
      result = rounds.result;
      stored = inr rounds.ring;
    }

abbrev grown : History → List ℕ → History
grown h xs = record h {
  buffer = h.buffer ++ xs;
  write = bit_and (length (h.buffer ++ xs)) h.ring_mask;
}

grown-HasRing :
    (bits : ℕ) (h : History) (past xs : List ℕ)
    → HasRing bits h past
    → length h.buffer < h.ring_size
    → length (h.buffer ++ xs) ≤ 2 ^ bits
    → HasRing bits (grown h xs) (past ++ xs)
grown-HasRing bits h past xs r room fits = record {
  size = r.size;
  mask = r.mask;
  stored =
      subst (λ w. Stored (2 ^ bits) (h.buffer ++ xs) w (past ++ xs))
        (sym (masked bits h.ring_mask (length (h.buffer ++ xs)) r.mask))
        (grow-Stored (2 ^ bits) h.buffer past xs (two-pow-pos bits)
          (growing (2 ^ bits) h.buffer h.write past r.stored (omega (arith, r.size))) fits);
}

-- The growing part and the loop together.
abbrev around : History → List ℕ → History
around h bytes = write_around (length (grow h bytes).1) (grow h bytes).0 (grow h bytes).1

ring-Moves :
    (bits : ℕ) (h : History) (past bytes : List ℕ)
    → HasRing bits h past
    → Moves bits h (around h bytes) (past ++ bytes)
ring-Moves bits h past bytes r = elim (Bool-cases (ltb (length h.buffer) h.ring_size)) [
  | inr packed ↦ rw packed (
      rest-Moves bits h past bytes r
        (inr (omega (arith, r.size, ltb→le (length h.buffer) h.ring_size packed))))
  | inl room ↦ rw room (
      let n : ℕ = min (length bytes) (h.ring_size - length h.buffer) in
      let below = ltb→lt (length h.buffer) h.ring_size room in
      let total : length (h.buffer ++ take n bytes) ≡ length h.buffer + n =
        omega (arith, length-append h.buffer (take n bytes), length-take n bytes) in
      let m =
        rest-Moves bits (grown h (take n bytes)) (past ++ take n bytes) (drop n bytes)
          (grown-HasRing bits h past (take n bytes) r below (omega (arith, total, r.size)))
          (split n total refl) in
      record {
        buffer = m.buffer;
        write = m.write;
        result = m.result;
        stored =
            subst (Stored (2 ^ bits) m.buffer m.write)
              (append_assoc past (take n bytes) (drop n bytes)
                ∙ ap (λ t. past ++ t) (take-append-drop n bytes))
              m.stored;
      })
]
  where
    split :
        (n : ℕ)
        → length (h.buffer ++ take n bytes) ≡ length h.buffer + n
        → n ≡ min (length bytes) (h.ring_size - length h.buffer)
        → (length (drop n bytes) ≡ 0) ⊎ (2 ^ bits ≤ length (h.buffer ++ take n bytes))
    split n total e = elim (Bool-cases (ltb n (length bytes))) [
      | inl less ↦ inr (omega (arith, ltb→lt n (length bytes) less, r.size))
      | inr all ↦ inl (omega (arith, ltb→le n (length bytes) all, length-drop n bytes))
    ]

abbrev counted : History → List ℕ → ℕ → ℕ → History
counted h bytes previous second = record h {
  available = min (h.available + length bytes) h.window_size;
  previous = previous;
  second_previous = second;
}

count_slice-back :
    (bits : ℕ) (h : History) (past : List ℕ) (byte : ℕ) (bytes : List ℕ)
    → Holds bits h past
    → count_slice h (byte ∷ bytes)
      ≡ counted h (byte ∷ bytes) (back (past ++ (byte ∷ bytes)) 1) (back (past ++ (byte ∷ bytes)) 2)
count_slice-back bits h past byte [] v =
    ap₂ (counted h (byte ∷ [])) (sym (back-append past (byte ∷ []) 1 (omega arith) (omega arith)))
      (v.last ∙ sym (back-snoc past byte))
count_slice-back bits h past byte (byte' ∷ bytes) v =
    let several : (length (byte ∷ byte' ∷ bytes) == 1) ≡ false = ground arith in
    rw several (
      ap₂ (counted h (byte ∷ byte' ∷ bytes))
        (sym (back-append past (byte ∷ byte' ∷ bytes) 1 (omega arith) (omega arith)))
        (sym (back-append past (byte ∷ byte' ∷ bytes) 2 (omega arith) (omega arith))))

-- Pushing a slice appends all of its bytes to the stream, however often they go around the ring.
pub push_slice-Holds :
    (bits : ℕ) (h : History) (past bytes : List ℕ)
    → Holds bits h past
    → Holds bits (push_slice h bytes) (past ++ bytes)
unfolding push_slice
push_slice-Holds bits h past [] v = rw (append-nil past) v
push_slice-Holds bits h past (byte ∷ bytes) v =
    let h' =
      counted h (byte ∷ bytes) (back (past ++ (byte ∷ bytes)) 1)
        (back (past ++ (byte ∷ bytes)) 2) in
    let m =
      ring-Moves bits h' past (byte ∷ bytes)
        (record { size = v.size; mask = v.mask; stored = v.stored }) in
    let longer = length-append past (byte ∷ bytes) in
    let is : push_slice h (byte ∷ bytes) ≡ record h' { buffer = m.buffer; write = m.write } =
      ap (λ c. around c (byte ∷ bytes)) (count_slice-back bits h past byte bytes v) ∙ m.result in
    subst (λ g. Holds bits g (past ++ (byte ∷ bytes))) (sym is)
      (record {
        wide = v.wide;
        size = v.size;
        mask = v.mask;
        window = v.window;
        stored = m.stored;
        count = omega (arith, v.count, v.window);
        last = refl;
        before_last = refl;
      })
