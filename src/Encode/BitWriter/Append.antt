-- ===== src/Encode/BitWriter/Append.antt =====
-- The methods of the writer that hand its bits on: finishing, draining, and appending to another.
use brutli.Prelude.{
  ℕ, zero, suc, ◌+◌, ◌-◌, ◌*◌, ◌/◌, ◌%◌, ◌^◌, ◌≤◌, ◌<◌, min, ◌≡◌, refl, sym, ap, ap₂, ◌∙◌, inl, inr,
  List, [], ◌∷◌, ◌++◌, append_assoc, append-nil, arith, ltb, ◌==◌, ==→eq, ltb→le, Bool-cases,
  length, take, drop, true, drop_all, All-append, All-drop, All-take, length-take, take-append-drop,
}
use brutli.Prelude.Pow.{div-pow-lt}
use brutli.Prelude.Bits.{
  IsByte, IsBytes, to_bits, to_bits-add, to_bits_join, to_bits-mod, byte_bits, byte_bits-append,
}
use brutli.Encode.BitWriter.{
  BitWriter, le_bytes, write_bits, write_each_byte, append_writer, flush_complete_pending,
  drain_bytes, align_to_byte, finish,
}
use brutli.Encode.BitWriter.Content.{
  IsValid, bits, Writes, Writes-trans, write_bits-Writes, le_bytes-IsBytes, byte_bits-le_bytes,
  low_mask_lem, bytes_only,
}

take-le_bytes : (k n v : ℕ) → k ≤ n → take k (le_bytes n v) ≡ le_bytes k v
unfolding le_bytes
take-le_bytes zero n v h = refl
take-le_bytes (suc k) zero v h = absurd (omega arith)
take-le_bytes (suc k) (suc n) v h = ap (◌∷◌ (v % 256)) (take-le_bytes k n (v / 256) (omega arith))

-- The zero bits that `finish` puts behind the last bit.
abbrev pub padding : BitWriter → ℕ
padding w = (8 - w.used % 8) % 8

pending_bytes :
    (w : BitWriter)
    → IsValid w
    → byte_bits (take ((w.used + 7) / 8) (le_bytes 8 w.pending))
      ≡ to_bits w.used w.pending ++ to_bits (padding w) 0
pending_bytes w v =
    ap byte_bits (take-le_bytes count 8 w.pending (omega arith))
    ∙ byte_bits-le_bytes count w.pending
    ∙ ap₂ to_bits whole low
    ∙ to_bits_join w.used (padding w) w.pending 0 v.pending_fits
  where
    count : ℕ
    count = (w.used + 7) / 8

    whole : 8 * count ≡ w.used + padding w
    whole = omega arith

    low : w.pending ≡ w.pending + 2 ^ w.used * 0
    low = omega arith

align_to_byte-bits :
    (w : BitWriter)
    → IsValid w
    → (byte_bits (align_to_byte w).bytes ≡ bits w ++ to_bits (padding w) 0)
      × IsBytes (align_to_byte w).bytes
      × ((align_to_byte w).used ≡ 0)
unfolding align_to_byte to_bits bits byte_bits
align_to_byte-bits w v = elim (Bool-cases (w.used == 0)) [
  | inl e ↦ rw e (bytes_only w (==→eq w.used 0 e) ∙ nothing e, v.bytes, ==→eq w.used 0 e)
  | inr e ↦ rw e (
    byte_bits-append w.bytes (take ((w.used + 7) / 8) (le_bytes 8 w.pending))
        ∙ ap (λ t. byte_bits w.bytes ++ t) (pending_bytes w v)
        ∙ sym (append_assoc (byte_bits w.bytes) (to_bits w.used w.pending) (to_bits (padding w) 0)),
    All-append IsByte w.bytes (take ((w.used + 7) / 8) (le_bytes 8 w.pending)) v.bytes
        (All-take IsByte ((w.used + 7) / 8) (le_bytes 8 w.pending) (le_bytes-IsBytes 8 w.pending)),
    refl,
  )
]
  where
    nothing : (w.used == 0) ≡ true → bits w ≡ bits w ++ to_bits (padding w) 0
    nothing e = sym (append-nil (bits w)) ∙ ap (λ k. bits w ++ to_bits k 0) none_left
      where
        none_left : 0 ≡ padding w
        none_left = omega (arith, ==→eq w.used 0 e)

-- The bytes of a finished writer are its bits, filled up with zeros to a whole byte.
pub finish_lem :
    (w : BitWriter)
    → IsValid w
    → (byte_bits (finish w) ≡ bits w ++ to_bits (padding w) 0) × IsBytes (finish w)
unfolding finish
finish_lem w v = let (a, b, c) = align_to_byte-bits w v in (a, b)

write_each_byte-Writes :
    (w : BitWriter) (bytes : List ℕ)
    → IsValid w
    → Writes w (write_each_byte w bytes) (byte_bits bytes)
unfolding write_each_byte byte_bits
write_each_byte-Writes w [] v = record { valid = v; content = sym (append-nil (bits w)) }
write_each_byte-Writes w (byte ∷ bytes) v =
    let first = write_bits-Writes w byte 8 v (omega arith) in
    Writes-trans (to_bits 8 byte) (byte_bits bytes) first
      (write_each_byte-Writes (write_bits w byte 8) bytes first.valid)

-- `append_writer` appends every bit of the other writer, at any alignment of either.
pub append_writer-Writes :
    (w other : BitWriter)
    → IsValid w
    → IsValid other
    → Writes w (append_writer w other) (bits other)
unfolding append_writer bits
append_writer-Writes w other v o = elim (Bool-cases (ltb 0 other.used)) [
  | inl some_left ↦
      rw (some_left, low_mask_lem other.used other.pending)
        (Writes-trans (byte_bits other.bytes) (to_bits other.used other.pending) whole (
          rw (to_bits-mod other.used other.pending) at (
            write_bits-Writes (write_each_byte w other.bytes) (other.pending % 2 ^ other.used)
              other.used whole.valid (omega arith))))
  | inr nothing ↦ rw nothing (record {
    valid = whole.valid;
    content =
        whole.content
        ∙ ap (λ t. bits w ++ t) (bytes_only other (omega (arith, ltb→le 0 other.used nothing)));
  })
]
  where
    whole : Writes w (write_each_byte w other.bytes) (byte_bits other.bytes)
    whole = write_each_byte-Writes w other.bytes v

flush_complete_pending-bits :
    (w : BitWriter)
    → IsValid w
    → IsValid (flush_complete_pending w)
      × (bits (flush_complete_pending w) ≡ bits w)
      × ((flush_complete_pending w).used < 8)
unfolding flush_complete_pending
flush_complete_pending-bits w v = elim (Bool-cases (ltb 0 whole)) [
  | inl h ↦ rw h (
    record {
      pending_fits = div-pow-lt whole (w.used - whole) w.pending (rw parts v.pending_fits);
      partial = omega arith;
      bytes =
          All-append IsByte w.bytes (take (whole / 8) (le_bytes 8 w.pending)) v.bytes
            (All-take IsByte (whole / 8) (le_bytes 8 w.pending) (le_bytes-IsBytes 8 w.pending));
    },
    unfold bits in
        ap (λ t. t ++ to_bits (w.used - whole) (w.pending / 2 ^ whole)) moved
        ∙ append_assoc (byte_bits w.bytes) (to_bits whole w.pending)
            (to_bits (w.used - whole) (w.pending / 2 ^ whole))
        ∙ ap (λ t. byte_bits w.bytes ++ t)
            (sym (to_bits-add whole (w.used - whole) w.pending)
              ∙ ap (λ k. to_bits k w.pending) parts),
    omega arith,
  )
  | inr h ↦ rw h (v, refl, omega (arith, ltb→le 0 whole h))
]
  where
    whole : ℕ
    whole = w.used - w.used % 8

    parts : whole + (w.used - whole) ≡ w.used
    parts = omega arith

    moved :
        byte_bits (w.bytes ++ take (whole / 8) (le_bytes 8 w.pending))
        ≡ byte_bits w.bytes ++ to_bits whole w.pending
    moved =
        byte_bits-append w.bytes (take (whole / 8) (le_bytes 8 w.pending))
        ∙ ap (λ t. byte_bits w.bytes ++ t)
            (ap byte_bits (take-le_bytes (whole / 8) 8 w.pending (omega arith))
              ∙ byte_bits-le_bytes (whole / 8) w.pending
              ∙ ap (λ k. to_bits k w.pending) eighth)
      where
        eighth : 8 * (whole / 8) ≡ whole
        eighth = omega arith

-- `drain_bytes` gives out at most `room` bytes, which are the first that were written; the writer keeps
-- all the other bits, in order.
pub drain_bytes_lem :
    (room : ℕ) (w : BitWriter)
    → IsValid w
    → let (out, w') = drain_bytes room w in
      (byte_bits out ++ bits w' ≡ bits w) × (length out ≤ room) × IsBytes out × IsValid w'
unfolding drain_bytes
drain_bytes_lem room w v =
    let (valid, same, small) = flush_complete_pending-bits w v in
    (
      unfold bits in
          sym (append_assoc (byte_bits (take count queue)) (byte_bits (drop count queue)) partial)
          ∙ ap (λ t. t ++ partial)
              (sym (byte_bits-append (take count queue) (drop count queue))
                ∙ ap byte_bits (take-append-drop count queue))
          ∙ same,
      omega (arith, length-take count queue),
      All-take IsByte count queue valid.bytes,
      record {
        pending_fits = valid.pending_fits;
        partial = valid.partial;
        bytes = All-drop IsByte count queue valid.bytes;
      },
    )
  where
    queue : List ℕ
    queue = (flush_complete_pending w).bytes

    count : ℕ
    count = min room (length queue)

    partial : List ℕ
    partial = to_bits (flush_complete_pending w).used (flush_complete_pending w).pending

-- With room to spare, no whole byte stays behind.
pub drain_bytes_empties :
    (room : ℕ) (w : BitWriter)
    → IsValid w
    → length (drain_bytes room w).0 < room
    → ((drain_bytes room w).1.bytes ≡ []) × ((drain_bytes room w).1.used < 8)
unfolding drain_bytes
drain_bytes_empties room w v h =
    let (valid, same, small) = flush_complete_pending-bits w v in
    (drop_all count queue (omega (arith, length-take count queue, h)), small)
  where
    queue : List ℕ
    queue = (flush_complete_pending w).bytes

    count : ℕ
    count = min room (length queue)
