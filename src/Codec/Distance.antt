-- ===== src/Codec/Distance.antt =====
-- Distance codes of the encoder against `DistanceDecoder`.
pub mod Bucket
pub mod Short
use brutli.Prelude.{
  ℕ, zero, suc, ◌+◌, ◌-◌, ◌*◌, ◌/◌, ◌%◌, ◌^◌, ◌≤◌, ◌<◌, ◌≡◌, refl, sym, ap, ap₂, ◌∙◌, inl, inr,
  subst, bit_and, Bool, true, false, not, Option, none, some, some-injective, List, [], ◌++◌,
  append-nil, arith, ltb, ltb→lt, ltb→le, lt→ltb, le→ltb, Bool-cases, u16, u8, ok,
}
use brutli.Prelude.Bits.{to_bits}
use brutli.Prelude.Bitwise.{and-low_mask}
use brutli.Prelude.Pow.{two-pow-add, two-pow-le, two-pow-pos}
use brutli.Encode.BitWriter.{BitWriter}
use brutli.Encode.BitWriter.Content.{IsValid, Writes, write_bits-Writes}
use brutli.Encode.Distance.{
  DistanceCode, bucket_code, for_code, for_intermediate_code, in_alphabet, log2_floor_nonzero,
  write_extra,
}
use brutli.Decode.BitReader.{Source}
use brutli.Decode.BitReader.Content as Reader
use brutli.Decode.Outcome.{ready}
use brutli.Decode.Parse.{Parsed, ParsesTo, ready-ParsesTo, read_then-ParsesTo}
use brutli.Decode.Distance.{
  State, distance_alphabet_size, DistanceDecoder, Distance, DistanceError, RecentDistances, new,
  decode, at, long_decoder, long_value,
}
use Bucket.{prefix_of, Fields, fields, IsBucket, log2-IsBucket}
use native.Mathlib.Nat.{mod-eq_of_lt}

-- `MAX_DISTANCE` of src/encode/mod.rs.
abbrev pub max_distance : ℕ
max_distance = 0x3ff_fffc

module _ (distance direct p : ℕ) (some_distance : 1 ≤ distance) (near : distance ≤ max_distance)
    (few : direct ≤ 120) (narrow : p ≤ 3) (long : direct < distance) where
  abbrev dist : ℕ
  dist = 2 ^ (p + 2) + (distance + 15) - 16 - direct

  widths : (2 ^ (p + 2) ≤ 32) × (2 ^ 2 ≤ 2 ^ (p + 2)) × (2 ^ (26 + p) ≡ 2 ^ 24 * 2 ^ (p + 2))
  widths =
      let e : 26 + p ≡ 24 + (p + 2) = omega arith in
      (
        two-pow-le {a = p + 2} {b = 5} (omega arith),
        two-pow-le {a = 2} {b = p + 2} (omega arith),
        ap (λ k. 2 ^ k) e ∙ two-pow-add 24 (p + 2),
      )

  bucket : IsBucket p dist (log2_floor_nonzero dist - 1)
  bucket = log2-IsBucket p dist narrow (omega arith) (omega (arith, widths))

  abbrev e : ℕ
  e = log2_floor_nonzero dist - 1 - p

  abbrev pre : ℕ
  pre = prefix_of bucket.upper

  size_lem : 2 ^ (log2_floor_nonzero dist - 1) ≡ 2 ^ e * 2 ^ p
  size_lem =
      let k : log2_floor_nonzero dist - 1 ≡ e + p = omega (arith, bucket.above) in
      ap (λ n. 2 ^ n) k ∙ two-pow-add e p

  facts : Fields p bucket.upper (2 ^ e) e dist
  facts =
      let two : 2 ^ 1 ≤ 2 ^ e = two-pow-le {a = 1} {b = e} (omega (arith, bucket.above)) in
      fields (2 ^ e) e dist (omega (arith, bucket.above)) (omega arith) p bucket.upper narrow (
        subst (λ n. ((2 + pre) * n ≤ dist) × (dist < (3 + pre) * n)) size_lem
          (bucket.from, bucket.to))

  -- The symbol behind the direct codes, and the extra bits.
  abbrev code : ℕ
  code = (2 * (e - 1) + pre) * 2 ^ p + dist % 2 ^ p

  abbrev more : ℕ
  more = (dist - (2 + pre) * (2 ^ e * 2 ^ p)) / 2 ^ p

  abbrev coded : DistanceCode
  coded = record { symbol = 16 + direct + code; extra = more; extra_bits = e }

  bits_bound : e ≤ 24
  bits_bound = omega (arith, bucket.below)

  code_fits : code < 48 * 2 ^ p
  code_fits =
      let b = bits_bound in
      let most : 2 * e * 2 ^ p ≤ 48 * 2 ^ p = grind arith in omega (arith, facts.symbol_fits)

  postfix_size : 2 ^ p ≤ 8
  postfix_size = two-pow-le {a = p} {b = 3} narrow

  bucket_code-coded : bucket_code dist direct p ≡ coded
  unfolding bucket_code
  bucket_code-coded =
      let prefix : bit_and (dist / 2 ^ (log2_floor_nonzero dist - 1)) 1 ≡ pre =
        and-low_mask 1 (dist / 2 ^ (log2_floor_nonzero dist - 1)) ∙ bucket.prefix_lem in
      let small : more < 2 ^ 32 =
        omega (arith, facts.fits, two-pow-le {a = e} {b = 24} bits_bound) in
      ap₂
        (λ f x. record {
          symbol = 16 + direct + (2 * (e - 1) + x) * 2 ^ p + f;
          extra = (dist - (2 + x) * 2 ^ (log2_floor_nonzero dist - 1)) / 2 ^ p % 2 ^ 32;
          extra_bits = e;
        })
        (and-low_mask p dist) prefix
      ∙ ap
          (λ n. record {
            symbol = 16 + direct + (2 * (e - 1) + pre) * 2 ^ p + dist % 2 ^ p;
            extra = (dist - (2 + pre) * n) / 2 ^ p % 2 ^ 32;
            extra_bits = e;
          })
          size_lem
      ∙ ap₂ (λ s x. record { symbol = s; extra = x; extra_bits = e }) (omega arith)
          (mod-eq_of_lt small)

  for_code-coded : for_code (distance + 15) direct p ≡ some coded
  unfolding for_code for_intermediate_code
  for_code-coded =
      let not_short : ltb (distance + 15) 16 ≡ false = le→ltb (distance + 15) 16 (omega arith) in
      let not_direct : ltb (distance + 15) (16 + direct) ≡ false =
        le→ltb (distance + 15) (16 + direct) (omega arith) in
      let inside : ltb (16 + direct + code) (16 + direct + 48 * 2 ^ p) ≡ true =
        lt→ltb (16 + direct + code) (16 + direct + 48 * 2 ^ p) (omega (arith, code_fits)) in
      rw (not_short, not_direct)
        (ap (in_alphabet direct p) bucket_code-coded
          ∙ rw inside (
              ap (λ s. some (record { symbol = s; extra = more; extra_bits = e }))
                (mod-eq_of_lt (omega (arith, code_fits, postfix_size)))))

  new_lem :
      (recent : RecentDistances)
      → new coded.symbol p direct recent
        ≡ ok (at (State.extra e p direct (code / 2 ^ p) (bit_and code (2 ^ p - 1))))
  unfolding new distance_alphabet_size
  new_lem recent =
      let inside : ltb (16 + direct + code) (16 + direct + 48 * 2 ^ p) ≡ true =
        lt→ltb (16 + direct + code) (16 + direct + 48 * 2 ^ p) (omega (arith, code_fits)) in
      let not_short : ltb (16 + direct + code) 16 ≡ false =
        le→ltb (16 + direct + code) 16 (omega arith) in
      let not_direct : ltb (16 + direct + code) (16 + direct) ≡ false =
        le→ltb (16 + direct + code) (16 + direct) (omega arith) in
      let rest : 16 + direct + code - direct - 16 ≡ code = omega arith in
      let width : u8 (1 + code / 2 ^ (p + 1)) ≡ e =
        ap u8 facts.bits_lem ∙ mod-eq_of_lt (omega (arith, bits_bound)) in
      rw (inside, not_short, not_direct)
        (ap (λ c. ok (long_decoder c p direct)) rest
          ∙ ap (λ b. ok (at (State.extra b p direct (code / 2 ^ p) (bit_and code (2 ^ p - 1)))))
              width)

  value_lem : long_value e p direct (code / 2 ^ p) (bit_and code (2 ^ p - 1)) more ≡ distance
  value_lem =
      let half : bit_and (code / 2 ^ p) 1 ≡ pre =
        ap (λ h. bit_and h 1) facts.hcode_lem ∙ and-low_mask 1 (2 * (e - 1) + pre) ∙ parity in
      ap₂ (λ h l. ((2 + h) * 2 ^ e - 4 + more) * 2 ^ p + l + direct + 1) half
        (and-low_mask p code ∙ facts.lcode_lem)
      ∙ omega (arith, facts.value_lem, widths)
    where
      parity : (2 * (e - 1) + pre) % 2 ≡ pre
      parity = go bucket.upper
        where
          go : (b : Bool) → (2 * (e - 1) + prefix_of b) % 2 ≡ prefix_of b
          go true = omega arith
          go false = omega arith

-- What a code must be, for the decoder to find the distance again.
record Decodes (distance direct p : ℕ) (recent : RecentDistances) (c : DistanceCode) : Type 0 where
  small : c.extra_bits ≤ 24
  start : DistanceDecoder
  start_lem : new c.symbol p direct recent ≡ ok start
  parses :
      (tail : List ℕ)
      → ParsesTo tail
          (decode start)
          (record { value = distance; should_push = true })
          (at State.done)
          (to_bits c.extra_bits c.extra ++ [])

module _ (distance direct p : ℕ) (some_distance : 1 ≤ distance) (near : distance ≤ max_distance)
    (few : direct ≤ 120) (narrow : p ≤ 3) (recent : RecentDistances) where
  long_code-Decodes :
      (long : direct < distance)
      → Decodes distance direct p recent
          (coded distance direct p some_distance near few narrow long)
  unfolding decode
  long_code-Decodes long =
      let f = facts distance direct p some_distance near few narrow long in
      let small = bits_bound distance direct p some_distance near few narrow long in
      record {
        small = small;
        start = _;
        start_lem = new_lem distance direct p some_distance near few narrow long recent;
        parses = λ tail. read_then-ParsesTo tail _ _ _ _ [] (omega (arith, small)) f.fits (
            rw (value_lem distance direct p some_distance near few narrow long)
              (ready-ParsesTo _ _ tail));
      }

  -- A direct code has no extra bits.
  direct_code : DistanceCode
  direct_code = record { symbol = distance + 15; extra = 0; extra_bits = 0 }

  direct_code_lem : distance ≤ direct → for_code (distance + 15) direct p ≡ some direct_code
  unfolding for_code for_intermediate_code direct_code
  direct_code_lem h =
      let not_short : ltb (distance + 15) 16 ≡ false = le→ltb (distance + 15) 16 (omega arith) in
      let is_direct : ltb (distance + 15) (16 + direct) ≡ true =
        lt→ltb (distance + 15) (16 + direct) (omega arith) in
      let word : (distance + 15) % 2 ^ 16 ≡ distance + 15 = mod-eq_of_lt (omega arith) in
      rw (not_short, is_direct)
        (ap (λ s. some (record { symbol = s; extra = 0; extra_bits = 0 })) word)

  direct_code-Decodes : distance ≤ direct → Decodes distance direct p recent direct_code
  unfolding decode new distance_alphabet_size to_bits direct_code
  direct_code-Decodes h =
      let inside : ltb (distance + 15) (16 + direct + 48 * 2 ^ p) ≡ true =
        lt→ltb (distance + 15) (16 + direct + 48 * 2 ^ p) (omega arith) in
      let not_short : ltb (distance + 15) 16 ≡ false = le→ltb (distance + 15) 16 (omega arith) in
      let is_direct : ltb (distance + 15) (16 + direct) ≡ true =
        lt→ltb (distance + 15) (16 + direct) (omega arith) in
      let back : distance + 15 - 16 + 1 ≡ distance = omega arith in
      record {
        small = omega arith;
        start = at (State.resolved (record { value = distance; should_push = true }));
        start_lem =
            rw (inside, not_short, is_direct)
              (ap (λ v. ok (at (State.resolved (record { value = v; should_push = true })))) back);
        parses = λ tail. ready-ParsesTo _ _ tail;
      }

  found :
      (c : DistanceCode) × (for_code (distance + 15) direct p ≡ some c)
      × Decodes distance direct p recent c
  found = elim (Bool-cases (ltb direct distance)) [
    | inl l ↦
        let long = ltb→lt direct distance l in
        (
          coded distance direct p some_distance near few narrow long,
          for_code-coded distance direct p some_distance near few narrow long,
          long_code-Decodes long,
        )
    | inr d ↦
        let le = ltb→le direct distance d in
        (direct_code, direct_code_lem le, direct_code-Decodes le)
  ]

-- For every distance of 1 to `MAX_DISTANCE`, at most 120 direct codes and at most 3 postfix bits, the code
-- of the distance exists: the `assert!` on the alphabet holds.
pub distance_total :
    (distance direct p : ℕ)
    → 1 ≤ distance
    → distance ≤ max_distance
    → direct ≤ 120
    → p ≤ 3
    → (c : DistanceCode) × (for_code (distance + 15) direct p ≡ some c)
distance_total distance direct p low high few narrow =
    let (c, result, d) = found distance direct p low high few narrow (record { values = [] }) in
    (c, result)

-- For a distance of 1 to `MAX_DISTANCE`, at most 120 direct codes and at most 3 postfix bits, and the code
-- that `for_code` gives for it: `write_extra` appends the code's extra bits to any valid writer; whatever the
-- recent distances, a `DistanceDecoder` for the symbol exists; on any valid source that begins with these
-- bits it answers with the distance, asks for it to be remembered, and leaves what stands behind the bits
-- unread.
pub distance_round_trip :
    (distance direct p : ℕ) (recent : RecentDistances) (c : DistanceCode) (w : BitWriter)
    (src : Source) (tail : List ℕ)
    → 1 ≤ distance
    → distance ≤ max_distance
    → direct ≤ 120
    → p ≤ 3
    → for_code (distance + 15) direct p ≡ some c
    → IsValid w
    → Reader.IsValid src
    → Reader.bits src ≡ to_bits c.extra_bits c.extra ++ tail
    → Writes w (write_extra c w) (to_bits c.extra_bits c.extra)
      × ((d : DistanceDecoder) × (new c.symbol p direct recent ≡ ok d)
          × Parsed
              (decode d src)
              (record { value = distance; should_push = true })
              (at State.done)
              tail)
unfolding write_extra
distance_round_trip distance direct p recent c w src tail low high few narrow result valid valid_src
      content =
    let (c', result', d') = found distance direct p low high few narrow recent in
    let d : Decodes distance direct p recent c =
      subst (Decodes distance direct p recent) (some-injective c' c (sym result' ∙ result)) d' in
    (
      write_bits-Writes w c.extra c.extra_bits valid (omega (arith, d.small)),
      (
        d.start,
        d.start_lem,
        d.parses tail src valid_src
            (content ∙ ap (λ s. s ++ tail) (sym (append-nil (to_bits c.extra_bits c.extra)))),
      ),
    )
