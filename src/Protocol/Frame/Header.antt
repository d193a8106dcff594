-- ===== src/Protocol/Frame/Header.antt =====
-- frame.rs: a buffer with a whole header, taken apart, and what the two decoders do with it.
use oakterm.Prelude.{
  ℕ, suc, ◌+◌, ◌≤◌, ◌≡◌, refl, ap, ◌∙◌, false, not, ◌&&◌, none, some, List, [], ◌∷◌, if◌then◌else◌,
  ◌==◌, ltb, length, take, drop, arith, inl, inr, Bool-cases,
}
use oakterm.Protocol.Bytes.{from_le}
use oakterm.Protocol.Frame.{Frame, ok, err, ErrorKind, decode_from_slice, decode, max_payload}

-- The thirteen bytes of a header, and the bytes behind them.
pub record Header (bytes : List ℕ) : Type 0 where
  pub a : ℕ
  pub b : ℕ
  pub fl : ℕ
  pub t0 : ℕ
  pub t1 : ℕ
  pub s0 : ℕ
  pub s1 : ℕ
  pub s2 : ℕ
  pub s3 : ℕ
  pub l0 : ℕ
  pub l1 : ℕ
  pub l2 : ℕ
  pub l3 : ℕ
  pub rest : List ℕ
  pub is : bytes ≡ a ∷ b ∷ fl ∷ t0 ∷ t1 ∷ s0 ∷ s1 ∷ s2 ∷ s3 ∷ l0 ∷ l1 ∷ l2 ∷ l3 ∷ rest

pub Header-of : (bytes : List ℕ) → 13 ≤ length bytes → Header bytes
Header-of [] h = absurd (omega (arith, h))
Header-of (a ∷ []) h = absurd (omega (arith, h))
Header-of (a ∷ b ∷ []) h = absurd (omega (arith, h))
Header-of (a ∷ b ∷ fl ∷ []) h = absurd (omega (arith, h))
Header-of (a ∷ b ∷ fl ∷ t0 ∷ []) h = absurd (omega (arith, h))
Header-of (a ∷ b ∷ fl ∷ t0 ∷ t1 ∷ []) h = absurd (omega (arith, h))
Header-of (a ∷ b ∷ fl ∷ t0 ∷ t1 ∷ s0 ∷ []) h = absurd (omega (arith, h))
Header-of (a ∷ b ∷ fl ∷ t0 ∷ t1 ∷ s0 ∷ s1 ∷ []) h = absurd (omega (arith, h))
Header-of (a ∷ b ∷ fl ∷ t0 ∷ t1 ∷ s0 ∷ s1 ∷ s2 ∷ []) h = absurd (omega (arith, h))
Header-of (a ∷ b ∷ fl ∷ t0 ∷ t1 ∷ s0 ∷ s1 ∷ s2 ∷ s3 ∷ []) h = absurd (omega (arith, h))
Header-of (a ∷ b ∷ fl ∷ t0 ∷ t1 ∷ s0 ∷ s1 ∷ s2 ∷ s3 ∷ l0 ∷ []) h = absurd (omega (arith, h))
Header-of (a ∷ b ∷ fl ∷ t0 ∷ t1 ∷ s0 ∷ s1 ∷ s2 ∷ s3 ∷ l0 ∷ l1 ∷ []) h = absurd (omega (arith, h))
Header-of (a ∷ b ∷ fl ∷ t0 ∷ t1 ∷ s0 ∷ s1 ∷ s2 ∷ s3 ∷ l0 ∷ l1 ∷ l2 ∷ []) h =
    absurd (omega (arith, h))
Header-of (a ∷ b ∷ fl ∷ t0 ∷ t1 ∷ s0 ∷ s1 ∷ s2 ∷ s3 ∷ l0 ∷ l1 ∷ l2 ∷ l3 ∷ rest) h = record {
  a = a;
  b = b;
  fl = fl;
  t0 = t0;
  t1 = t1;
  s0 = s0;
  s1 = s1;
  s2 = s2;
  s3 = s3;
  l0 = l0;
  l1 = l1;
  l2 = l2;
  l3 = l3;
  rest = rest;
  is = refl;
}

abbrev pub size_field : ℕ → ℕ → ℕ → ℕ → ℕ
size_field l0 l1 l2 l3 = from_le (l0 ∷ l1 ∷ l2 ∷ l3 ∷ [])

abbrev pub frame : ℕ → ℕ → ℕ → ℕ → ℕ → ℕ → ℕ → List ℕ → Frame
frame fl t0 t1 s0 s1 s2 s3 payload = record {
  flags = fl;
  msg_type = from_le (t0 ∷ t1 ∷ []);
  serial = from_le (s0 ∷ s1 ∷ s2 ∷ s3 ∷ []);
  payload = payload;
}

module _ (a b fl t0 t1 s0 s1 s2 s3 l0 l1 l2 l3 : ℕ) (rest : List ℕ) where
  abbrev pub whole : List ℕ
  whole = a ∷ b ∷ fl ∷ t0 ∷ t1 ∷ s0 ∷ s1 ∷ s2 ∷ s3 ∷ l0 ∷ l1 ∷ l2 ∷ l3 ∷ rest

  behind :
      (n : ℕ)
      → 13 + n ≡ suc (suc (suc (suc (suc (suc (suc (suc (suc (suc (suc (suc (suc n))))))))))))
  behind n = omega arith

  pub drop-whole : (n : ℕ) → drop (13 + n) whole ≡ drop n rest
  drop-whole n = ap (λ m. drop m whole) (behind n)

  long : ltb (length whole) 13 ≡ false
  long = ground arith

  sized :
      ltb (length whole) (13 + size_field l0 l1 l2 l3) ≡ ltb (length rest) (size_field l0 l1 l2 l3)
  sized = ground arith

  pub decode_from_slice-whole :
      let size = size_field l0 l1 l2 l3 in
      decode_from_slice whole ≡ (
        if not ((a == 79) && (b == 84))
        then err ErrorKind.invalid_data
        else if ltb max_payload size
        then err ErrorKind.invalid_data
        else if ltb (length rest) size
        then err ErrorKind.unexpected_eof
        else ok (frame fl t0 t1 s0 s1 s2 s3 (take size rest), 13 + size))
  unfolding decode_from_slice
  decode_from_slice-whole = rw (long, sized) refl

  pub decode-whole :
      let size = size_field l0 l1 l2 l3 in
      decode whole ≡ (
        if not ((a == 79) && (b == 84))
        then ([], err ErrorKind.invalid_data)
        else if ltb max_payload size
        then ([], err ErrorKind.invalid_data)
        else if ltb (length rest) size
        then (whole, ok none)
        else (drop size rest, ok (some (frame fl t0 t1 s0 s1 s2 s3 (take size rest)))))
  unfolding decode
  decode-whole = rw (long, sized) refl

pub take-whole :
    (a b fl t0 t1 s0 s1 s2 s3 l0 l1 l2 l3 : ℕ) (rest : List ℕ) (n : ℕ)
    → take (13 + n) (whole a b fl t0 t1 s0 s1 s2 s3 l0 l1 l2 l3 rest)
      ≡ whole a b fl t0 t1 s0 s1 s2 s3 l0 l1 l2 l3 (take n rest)
take-whole a b fl t0 t1 s0 s1 s2 s3 l0 l1 l2 l3 rest n =
    ap (λ m. take m (whole a b fl t0 t1 s0 s1 s2 s3 l0 l1 l2 l3 rest))
      (behind a b fl t0 t1 s0 s1 s2 s3 l0 l1 l2 l3 rest n)

-- The three ways in which the decoders answer.
pub data Answer (bytes : List ℕ) : Type 0 where
  waits :
      decode_from_slice bytes ≡ err ErrorKind.unexpected_eof
      → decode bytes ≡ (bytes, ok none)
      → Answer bytes
  refuses :
      decode_from_slice bytes ≡ err ErrorKind.invalid_data
      → decode bytes ≡ ([], err ErrorKind.invalid_data)
      → Answer bytes
  reads :
      (fl t0 t1 s0 s1 s2 s3 l0 l1 l2 l3 : ℕ) (rest : List ℕ)
      → bytes ≡ whole 79 84 fl t0 t1 s0 s1 s2 s3 l0 l1 l2 l3 rest
      → size_field l0 l1 l2 l3 ≤ max_payload
      → size_field l0 l1 l2 l3 ≤ length rest
      → decode_from_slice bytes
        ≡ ok (
          frame fl t0 t1 s0 s1 s2 s3 (take (size_field l0 l1 l2 l3) rest),
          13 + (size_field l0 l1 l2 l3),
        )
      → decode bytes ≡ (
        drop (size_field l0 l1 l2 l3) rest,
        ok (some (frame fl t0 t1 s0 s1 s2 s3 (take (size_field l0 l1 l2 l3) rest))),
      )
      → Answer bytes

module _ (a b fl t0 t1 s0 s1 s2 s3 l0 l1 l2 l3 : ℕ) (rest : List ℕ) where
  abbrev size : ℕ
  size = size_field l0 l1 l2 l3

  Answer-whole : Answer (whole a b fl t0 t1 s0 s1 s2 s3 l0 l1 l2 l3 rest)
  Answer-whole =
      let slice = decode_from_slice-whole a b fl t0 t1 s0 s1 s2 s3 l0 l1 l2 l3 rest in
      let codec = decode-whole a b fl t0 t1 s0 s1 s2 s3 l0 l1 l2 l3 rest in
      elim (Bool-cases ((a == 79) && (b == 84))) [
        | inr other ↦ refuses (slice ∙ rw other refl) (codec ∙ rw other refl)
        | inl good ↦ elim (Bool-cases (ltb max_payload size)) [
          | inl large ↦ refuses (slice ∙ rw (good, large) refl) (codec ∙ rw (good, large) refl)
          | inr small ↦ elim (Bool-cases (ltb (length rest) size)) [
            | inl early ↦
                waits (slice ∙ rw (good, small, early) refl) (codec ∙ rw (good, small, early) refl)
            | inr there ↦
                let first : a ≡ 79 = ground arith in
                let second : b ≡ 84 = ground arith in
                reads fl t0 t1 s0 s1 s2 s3 l0 l1 l2 l3 rest (rw (first, second) refl) (ground arith)
                  (ground arith) (slice ∙ rw (good, small, there) refl)
                  (codec ∙ rw (good, small, there) refl)
          ]
        ]
      ]

pub Answer-of : (bytes : List ℕ) → Answer bytes
unfolding decode_from_slice decode
Answer-of bytes = elim (Bool-cases (ltb (length bytes) 13)) [
  | inl short ↦ waits (rw short refl) (rw short refl)
  | inr enough ↦
      let r = Header-of bytes (ground arith) in
      rw r.is (Answer-whole r.a r.b r.fl r.t0 r.t1 r.s0 r.s1 r.s2 r.s3 r.l0 r.l1 r.l2 r.l3 r.rest)
]
