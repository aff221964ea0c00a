-- ===== src/Decode/History/Refine.antt =====
-- The stream of bytes that a history stands for, and `push`.
use brutli.Prelude.{
  ℕ, ◌+◌, ◌-◌, ◌%◌, ◌^◌, ◌≤◌, ◌<◌, min, bit_and, ◌≡◌, refl, sym, ap, ap₂, ◌∙◌, inl, inr, List, [],
  ◌∷◌, ◌++◌, append-nil, arith, ltb, ltb→lt, ltb→le, Bool-cases, length, get_or, drop,
  length-append, get_or-append_right, get_or-append_left, set-overwrite,
}
use brutli.Prelude.Pow.{two-pow-pos}
use brutli.Prelude.Bitwise.{and-low_mask}
use brutli.Decode.History.{History, new, overwrite, store, push}
use brutli.Decode.History.Ring.{Stored, Full, unroll, wrapped, overwrite-Full}

-- The byte `n` positions before the end of the stream that began with two zeros.
abbrev pub back : List ℕ → ℕ → ℕ
back past n = get_or (0 ∷ 0 ∷ past) (length past + 2 - n) 0

pub record Holds (bits : ℕ) (h : History) (past : List ℕ) : Type 0 where
  pub wide : 10 ≤ bits
  pub size : h.ring_size ≡ 2 ^ bits
  pub mask : h.ring_mask ≡ 2 ^ bits - 1
  pub window : h.window_size ≡ 2 ^ bits - 16
  pub stored : Stored (2 ^ bits) h.buffer h.write past
  pub count : h.available ≡ min (length past) (2 ^ bits - 16)
  pub last : h.previous ≡ back past 1
  pub before_last : h.second_previous ≡ back past 2

pub new-Holds : (bits : ℕ) → 10 ≤ bits → Holds bits (new bits) []
new-Holds bits wide = record {
  wide = wide;
  size = refl;
  mask = refl;
  window = refl;
  stored = inl (two-pow-pos bits, refl);
  count = omega arith;
  last = refl;
  before_last = refl;
}

-- A buffer that is not full yet is the stream itself.
pub growing :
    (size : ℕ) (buffer : List ℕ) (write : ℕ) (past : List ℕ)
    → Stored size buffer write past
    → length buffer < size
    → buffer ≡ past
growing size buffer write past (inl (_, e)) h = e
growing size buffer write past (inr f) h = absurd (omega (arith, f.count))

pub full :
    (size : ℕ) (buffer : List ℕ) (write : ℕ) (past : List ℕ)
    → Stored size buffer write past
    → size ≤ length buffer
    → Full size buffer write past
full size buffer write past (inl (short, e)) h =
    absurd (omega (arith, ap (λ (l : List ℕ). length l) e))
full size buffer write past (inr f) h = f

pub grow-Stored :
    (size : ℕ) (buffer past xs : List ℕ)
    → 0 < size
    → buffer ≡ past
    → length (buffer ++ xs) ≤ size
    → Stored size (buffer ++ xs) (length (buffer ++ xs) % size) (past ++ xs)
grow-Stored size buffer past xs p e fits = elim (wrapped size (length (buffer ++ xs)) fits p) [
  | inl (same, h) ↦
      inl (omega (arith, ap (λ (l : List ℕ). length (l ++ xs)) e), ap (λ t. t ++ xs) e)
  | inr (filled, zeroed) ↦ inr (record {
    long = omega (arith, ap (λ (l : List ℕ). length (l ++ xs)) e);
    count = filled;
    inside = omega arith;
    content =
        let start : 0 ≡ length (past ++ xs) - size =
          omega (arith, ap (λ (l : List ℕ). length (l ++ xs)) e) in
        ap (λ k. unroll k (buffer ++ xs)) zeroed
        ∙ append-nil (buffer ++ xs)
        ∙ ap (λ t. t ++ xs) e
        ∙ ap (λ k. drop k (past ++ xs)) start;
  })
]

pub back-append :
    (past bytes : List ℕ) (n : ℕ)
    → 1 ≤ n
    → n ≤ length bytes
    → back (past ++ bytes) n ≡ get_or bytes (length bytes - n) 0
back-append past bytes n p h =
    let e : length (past ++ bytes) + 2 - n ≡ length (0 ∷ 0 ∷ past) + (length bytes - n) =
      omega (arith, length-append past bytes) in
    ap (λ k. get_or (0 ∷ 0 ∷ past ++ bytes) k 0) e
    ∙ get_or-append_right (0 ∷ 0 ∷ past) bytes (length bytes - n) 0

-- `h'` differs from `h` in the ring only, which now stands for `past`.
pub record Moves (bits : ℕ) (h h' : History) (past : List ℕ) : Type 0 where
  pub buffer : List ℕ
  pub write : ℕ
  pub result : h' ≡ record h { buffer = buffer; write = write }
  pub stored : Stored (2 ^ bits) buffer write past

pub masked : (bits mask v : ℕ) → mask ≡ 2 ^ bits - 1 → bit_and v mask ≡ v % 2 ^ bits
masked bits mask v e = ap (bit_and v) e ∙ and-low_mask bits v

-- The ring of a history, whatever its counters say.
pub record HasRing (bits : ℕ) (h : History) (past : List ℕ) : Type 0 where
  pub size : h.ring_size ≡ 2 ^ bits
  pub mask : h.ring_mask ≡ 2 ^ bits - 1
  pub stored : Stored (2 ^ bits) h.buffer h.write past

store-Moves :
    (bits : ℕ) (h : History) (past : List ℕ) (byte : ℕ)
    → HasRing bits h past
    → Moves bits h (store h byte) (past ++ (byte ∷ []))
store-Moves bits h past byte r = elim (Bool-cases (ltb (length h.buffer) h.ring_size)) [
  | inl room ↦
      let short = ltb→lt (length h.buffer) h.ring_size room in
      let longer = length-append h.buffer (byte ∷ []) in
      record {
        buffer = h.buffer ++ (byte ∷ []);
        write = length (h.buffer ++ (byte ∷ [])) % 2 ^ bits;
        result = rw room (
            ap (λ w. record h { buffer = h.buffer ++ (byte ∷ []); write = w })
              (masked bits h.ring_mask (length (h.buffer ++ (byte ∷ []))) r.mask));
        stored =
            grow-Stored (2 ^ bits) h.buffer past (byte ∷ []) (two-pow-pos bits)
              (growing (2 ^ bits) h.buffer h.write past r.stored (omega (arith, r.size)))
              (omega (arith, r.size));
      }
  | inr packed ↦
      let f =
        full (2 ^ bits) h.buffer h.write past r.stored
          (omega (arith, r.size, ltb→le (length h.buffer) h.ring_size packed)) in
      record {
        buffer = overwrite h.buffer h.write (byte ∷ []);
        write = (h.write + 1) % 2 ^ bits;
        result = rw packed (
            ap₂ (λ b w. record h { buffer = b; write = w })
              (unfold overwrite in
                set-overwrite h.buffer h.write byte (omega (arith, f.inside, f.count)))
              (masked bits h.ring_mask (h.write + 1) r.mask));
        stored = inr (
            overwrite-Full (2 ^ bits) h.buffer h.write past (byte ∷ []) f
              (omega (arith, f.inside)));
      }
]

-- The last byte before a stream's last byte.
pub back-snoc : (past : List ℕ) (byte : ℕ) → back (past ++ (byte ∷ [])) 2 ≡ back past 1
back-snoc past byte =
    let e : length (past ++ (byte ∷ [])) + 2 - 2 ≡ length past + 2 - 1 =
      omega (arith, length-append past (byte ∷ [])) in
    ap (λ k. get_or (0 ∷ 0 ∷ past ++ (byte ∷ [])) k 0) e
    ∙ get_or-append_left (0 ∷ 0 ∷ past) (byte ∷ []) (length past + 2 - 1) 0 (omega arith)

-- Pushing a byte appends it to the stream.
pub push-Holds :
    (bits : ℕ) (h : History) (past : List ℕ) (byte : ℕ)
    → Holds bits h past
    → Holds bits (push h byte) (past ++ (byte ∷ []))
unfolding push
push-Holds bits h past byte v =
    let m =
      store-Moves bits h past byte (record { size = v.size; mask = v.mask; stored = v.stored }) in
    let longer = length-append past (byte ∷ []) in
    rw m.result (record {
      wide = v.wide;
      size = v.size;
      mask = v.mask;
      window = v.window;
      stored = m.stored;
      count = omega (arith, v.count, v.window);
      last = sym (back-append past (byte ∷ []) 1 (omega arith) (omega arith));
      before_last = v.last ∙ sym (back-snoc past byte);
    })
