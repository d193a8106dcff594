-- ===== src/Protocol/Wire/Safety.antt =====
-- message.rs: reads behind a guard that is large enough find their bytes, so that no index is out
-- of range.
use oakterm.Prelude.{
  ℕ, zero, suc, ◌+◌, ◌≤◌, ◌<◌, ◌≡◌, refl, Bool, false, List, [], ◌∷◌, ltb, length, drop, take,
  arith, Bool-cases, inl, inr, not, ◌==◌,
}
use oakterm.Prelude.Totals.{get_of_lt}
use oakterm.Prelude.Integers.{ℤ, of_twos}
use oakterm.Protocol.Bytes.{from_le}
use oakterm.Protocol.Utf8.{is_utf8}
use oakterm.Protocol.Wire.Offsets.{length-drop}
use oakterm.Protocol.Frame.{IoResult, ok, err, panicked, ErrorKind, ◌>>=◌, byte_at, u16_at, u32_at}
use oakterm.Protocol.Wire.{
  u64_at, i16_at, i32_at, i64_at, bool_at, slice, slice_from, at_least, from_utf8, text_in,
  decode_str, decode_each,
}

-- What answers with a value answers with one that has the property.
abbrev pub AnswersWith : {A : Type 0} → (A → Type 0) → IoResult A → Type 0
AnswersWith P (ok a) = P a
AnswersWith P (err ErrorKind.invalid_input) = ⊥
AnswersWith P (err ErrorKind.invalid_data) = Unit {0}
AnswersWith P (err ErrorKind.unexpected_eof) = Unit {0}
AnswersWith P panicked = ⊥

abbrev pub Answers : {A : Type 0} → IoResult A → Type 0
Answers r = AnswersWith (λ _. Unit {0}) r

module _ {A B : Type 0} (Q : B → Type 0) where
  pub bind-Answers :
      (P : A → Type 0) (r : IoResult A) (k : A → IoResult B)
      → AnswersWith P r
      → ((a : A) → P a → AnswersWith Q (k a))
      → AnswersWith Q (r >>= k)
  bind-Answers P (ok a) k h next = next a h
  bind-Answers P (err ErrorKind.invalid_input) k h next = absurd h
  bind-Answers P (err ErrorKind.invalid_data) k h next = tt
  bind-Answers P (err ErrorKind.unexpected_eof) k h next = tt
  bind-Answers P panicked k h next = absurd h

  pub found-Answers :
      {r : IoResult A} (k : A → IoResult B)
      → (a : A) × (r ≡ ok a)
      → ((a : A) → AnswersWith Q (k a))
      → AnswersWith Q (r >>= k)
  found-Answers k (a, e) next = rw e (next a)

module _ (bytes : List ℕ) where
  pub at_least-Answers :
      {A : Type 0} (Q : A → Type 0) (n : ℕ) (r : IoResult A)
      → (n ≤ length bytes → AnswersWith Q r)
      → AnswersWith Q (at_least n bytes r)
  at_least-Answers Q n r h = elim (Bool-cases (ltb (length bytes) n)) [
    | inl short ↦ rw (at_least, short) tt
    | inr long ↦ rw (at_least, long) (h (ground (arith, long)))
  ]

  pub byte_at-found : (i : ℕ) → i < length bytes → (b : ℕ) × (byte_at bytes i ≡ ok b)
  byte_at-found i h = let (b, e) = get_of_lt bytes i h in (b, rw (byte_at, e) refl)

  pub u16_at-found : (i : ℕ) → i + 1 < length bytes → (n : ℕ) × (u16_at bytes i ≡ ok n)
  u16_at-found i h =
      let (a, e) = byte_at-found i (omega (arith, h)) in
      let (b, e') = byte_at-found (i + 1) h in (from_le (a ∷ b ∷ []), rw (u16_at, e, e') refl)

  pub u32_at-found : (i : ℕ) → i + 3 < length bytes → (n : ℕ) × (u32_at bytes i ≡ ok n)
  u32_at-found i h =
      let (a, ea) = byte_at-found i (omega (arith, h)) in
      let (b, eb) = byte_at-found (i + 1) (omega (arith, h)) in
      let (c, ec) = byte_at-found (i + 2) (omega (arith, h)) in
      let (d, ed) = byte_at-found (i + 3) h in
      (from_le (a ∷ b ∷ c ∷ d ∷ []), rw (u32_at, ea, eb, ec, ed) refl)

  pub u64_at-found : (i : ℕ) → i + 7 < length bytes → (n : ℕ) × (u64_at bytes i ≡ ok n)
  u64_at-found i h =
      let (a, ea) = byte_at-found i (omega (arith, h)) in
      let (b, eb) = byte_at-found (i + 1) (omega (arith, h)) in
      let (c, ec) = byte_at-found (i + 2) (omega (arith, h)) in
      let (d, ed) = byte_at-found (i + 3) (omega (arith, h)) in
      let (e, ee) = byte_at-found (i + 4) (omega (arith, h)) in
      let (f, ef) = byte_at-found (i + 5) (omega (arith, h)) in
      let (g, eg) = byte_at-found (i + 6) (omega (arith, h)) in
      let (j, ej) = byte_at-found (i + 7) h in
      (
        from_le (a ∷ b ∷ c ∷ d ∷ e ∷ f ∷ g ∷ j ∷ []),
        rw (u64_at, ea, eb, ec, ed, ee, ef, eg, ej) refl,
      )

  pub i16_at-found : (i : ℕ) → i + 1 < length bytes → (z : ℤ) × (i16_at bytes i ≡ ok z)
  i16_at-found i h = let (n, e) = u16_at-found i h in (of_twos 32768 n, rw (i16_at, e) refl)

  pub i32_at-found : (i : ℕ) → i + 3 < length bytes → (z : ℤ) × (i32_at bytes i ≡ ok z)
  i32_at-found i h = let (n, e) = u32_at-found i h in (of_twos 2147483648 n, rw (i32_at, e) refl)

  pub i64_at-found : (i : ℕ) → i + 7 < length bytes → (z : ℤ) × (i64_at bytes i ≡ ok z)
  i64_at-found i h =
      let (n, e) = u64_at-found i h in (of_twos 9223372036854775808 n, rw (i64_at, e) refl)

  pub bool_at-found : (i : ℕ) → i < length bytes → (b : Bool) × (bool_at bytes i ≡ ok b)
  bool_at-found i h = let (n, e) = byte_at-found i h in (not (n == 0), rw (bool_at, e) refl)

  pub slice-found :
      (start n : ℕ) → start + n ≤ length bytes → (s : List ℕ) × (slice bytes start n ≡ ok s)
  slice-found start n h =
      let e : ltb (length bytes) (start + n) ≡ false = ground (arith, h) in
      (take n (drop start bytes), rw (slice, e) refl)

  slice_from-found :
      (start : ℕ) → start ≤ length bytes → slice_from bytes start ≡ ok (drop start bytes)
  slice_from-found start h =
      let e : ltb (length bytes) start ≡ false = ground (arith, h) in rw (slice_from, e) refl

pub from_utf8-Answers : (bytes : List ℕ) → Answers (from_utf8 bytes)
from_utf8-Answers bytes = elim (Bool-cases (is_utf8 bytes)) [
  | inl good ↦ rw (from_utf8, good) tt
  | inr bad ↦ rw (from_utf8, bad) tt
]

-- A decoder that also tells how many bytes it took does not take more than there are.
abbrev pub Consumes : {A : Type 0} → List ℕ → IoResult (A × ℕ) → Type 0
Consumes bytes r = AnswersWith (λ q. q.1 ≤ length bytes) r

module _ (bytes : List ℕ) where
  pub text_in-Answers : (o n : ℕ) → AnswersWith (λ _. o + n ≤ length bytes) (text_in bytes o n)
  text_in-Answers o n = at_least-Answers bytes _ (o + n) _ λ h.
      found-Answers _ _ (slice-found bytes o n h)
        λ raw. elim (Bool-cases (is_utf8 raw)) [ inl good ↦ rw good h | inr bad ↦ rw bad tt ]

  pub decode_str-Answers : (o : ℕ) → AnswersWith (λ q. o + q.1 ≤ length bytes) (decode_str bytes o)
  unfolding decode_str
  decode_str-Answers o = at_least-Answers bytes _ (o + 2) _ λ h.
      found-Answers _ _ (u16_at-found bytes o (omega (arith, h))) λ n.
        bind-Answers _ (λ _. o + 2 + n ≤ length bytes) _ _ (text_in-Answers (o + 2) n)
          λ s within. omega (arith, within)

  pub decode_each-Answers :
      {A : Type 0} (decode : List ℕ → IoResult (A × ℕ))
      → ((b : List ℕ) → Consumes b (decode b))
      → (count o : ℕ) → o ≤ length bytes
      → Consumes bytes (decode_each decode count bytes o)
  unfolding decode_each
  decode_each-Answers decode h zero o within = within
  decode_each-Answers decode h (suc count) o within = rw (slice_from-found bytes o within) (
      bind-Answers _ (λ q. q.1 ≤ length (drop o bytes)) _ _ (h (drop o bytes))
        λ r took.
          bind-Answers _ (λ q. q.1 ≤ length bytes) _ _
            (decode_each-Answers decode h count (o + r.1)
              (omega (arith, within, took, length-drop o bytes)))
            λ q ends. ends)
