-- ===== src/Protocol/Wire/Offsets.antt =====
-- message.rs: reading behind an offset is reading the bytes that lie behind it.
use oakterm.Prelude.{
  append_assoc, append-nil, ℕ, zero, suc, ◌+◌, ◌-◌, ◌<◌, ◌≡◌, refl, sym, ap, ◌∙◌, true, false, List,
  [], ◌∷◌, ◌++◌, ltb, if◌then◌else◌, length, drop, get_elem?, length-append, arith,
}
use oakterm.Protocol.Bytes.{to_le, from_le-two}
use oakterm.Protocol.Frame.{IoResult, ok, err, panicked, ErrorKind, ◌>>=◌, byte_at, u16_at, u32_at}
use oakterm.Protocol.Frame.RoundTrip.{take-append, drop-append}
use oakterm.Protocol.Utf8.{is_utf8}
use oakterm.Protocol.Wire.{i32_at, slice, at_least, from_utf8, text_in, encode_str, decode_str}
use oakterm.Protocol.Wire.Laws.{IsText}

module _ {A : Type 0} where
  drop-nothing : (n : ℕ) → drop {A = A} n [] ≡ []
  drop-nothing zero = refl
  drop-nothing (suc n) = refl

  pub drop-sum : (o i : ℕ) (xs : List A) → drop (o + i) xs ≡ drop i (drop o xs)
  drop-sum zero i xs = let e : zero + i ≡ i = omega arith in ap (λ k. drop k xs) e
  drop-sum (suc o) i [] = drop-nothing (suc o + i) ∙ sym (drop-nothing i)
  drop-sum (suc o) i (x ∷ xs) =
      let e : suc o + i ≡ suc (o + i) = omega arith in ap (λ k. drop k (x ∷ xs)) e ∙ drop-sum o i xs

  pub length-drop : (o : ℕ) (xs : List A) → length (drop o xs) ≡ length xs - o
  length-drop zero xs = omega arith
  length-drop (suc o) [] = omega arith
  length-drop (suc o) (x ∷ xs) = omega (arith, length-drop o xs)

  get-drop : (o i : ℕ) (xs : List A) → get_elem? xs (o + i) ≡ get_elem? (drop o xs) i
  get-drop zero i xs = ap (get_elem? xs) (omega arith)
  get-drop (suc o) i [] = refl
  get-drop (suc o) i (x ∷ xs) =
      let e : suc o + i ≡ suc (o + i) = omega arith in ap (get_elem? (x ∷ xs)) e ∙ get-drop o i xs

bind-cong :
    {A B : Type 0} {r r' : IoResult A} {k k' : A → IoResult B}
    → r ≡ r'
    → ((a : A) → k a ≡ k' a)
    → (r >>= k) ≡ (r' >>= k')
bind-cong {r' = ok a} e h = rw e (h a)
bind-cong {r' = err x} e h = rw e refl
bind-cong {r' = panicked} e h = rw e refl

module _ (bytes : List ℕ) (o : ℕ) where
  pub byte_at-drop : (i : ℕ) → byte_at bytes (o + i) ≡ byte_at (drop o bytes) i
  byte_at-drop i = rw (byte_at, get-drop o i bytes) refl

  byte_at-next : (i k : ℕ) → byte_at bytes (o + i + k) ≡ byte_at (drop o bytes) (i + k)
  byte_at-next i k =
      let e : o + i + k ≡ o + (i + k) = omega arith in ap (byte_at bytes) e ∙ byte_at-drop (i + k)

  pub u16_at-drop : (i : ℕ) → u16_at bytes (o + i) ≡ u16_at (drop o bytes) i
  u16_at-drop i = rw (u16_at, byte_at-drop i, byte_at-next i 1) refl

  pub u32_at-drop : (i : ℕ) → u32_at bytes (o + i) ≡ u32_at (drop o bytes) i
  u32_at-drop i =
      rw (u32_at, byte_at-drop i, byte_at-next i 1, byte_at-next i 2, byte_at-next i 3) refl

  pub i32_at-drop : (i : ℕ) → i32_at bytes (o + i) ≡ i32_at (drop o bytes) i
  i32_at-drop i = rw (i32_at, u32_at-drop i) refl

  pub ltb-drop : (i : ℕ) → 0 < i → ltb (length bytes) (o + i) ≡ ltb (length (drop o bytes)) i
  ltb-drop i h = ground (arith, length-drop o bytes, h)

  pub slice-drop : (i n : ℕ) → 0 < i + n → slice bytes (o + i) n ≡ slice (drop o bytes) i n
  slice-drop i n h =
      let e : o + i + n ≡ o + (i + n) = omega arith in
      rw (slice, e, ltb-drop (i + n) h, drop-sum o i bytes) refl

  pub text_in-drop : (i n : ℕ) → 0 < i + n → text_in bytes (o + i) n ≡ text_in (drop o bytes) i n
  text_in-drop i n h =
      let e : o + i + n ≡ o + (i + n) = omega arith in
      rw (at_least, text_in, e, ltb-drop (i + n) h, drop-sum o i bytes) refl

  decode_str-drop : (i : ℕ) → decode_str bytes (o + i) ≡ decode_str (drop o bytes) i
  unfolding decode_str
  decode_str-drop i =
      let two : o + i + 2 ≡ o + (i + 2) = omega arith in
      rw (at_least, two, ltb-drop (i + 2) (omega arith))
        (ap (λ r. if ltb (length (drop o bytes)) (i + 2) then err ErrorKind.unexpected_eof else r)
          (bind-cong (u16_at-drop i)
            (λ n. ap (λ r. r >>= λ s. ok (s, 2 + n)) (text_in-drop (i + 2) n (omega arith)))))

module _ (pre xs rest : List ℕ) where
  fits : ltb (length (pre ++ (xs ++ rest))) (length pre + length xs) ≡ false
  fits = ground (arith, length-append pre (xs ++ rest), length-append xs rest)

  pub slice-front : slice (pre ++ (xs ++ rest)) (length pre) (length xs) ≡ ok xs
  slice-front = rw (slice, fits, drop-append pre (xs ++ rest), take-append xs rest) refl

  pub text_in-front :
      is_utf8 xs ≡ true → text_in (pre ++ (xs ++ rest)) (length pre) (length xs) ≡ ok xs
  text_in-front h =
      rw (text_in, at_least, fits, drop-append pre (xs ++ rest), take-append xs rest, from_utf8, h)
        refl

-- A text in its place is read back, whatever bytes follow.
decode_str-front :
    (s rest : List ℕ)
    → IsText s
    → decode_str (to_le 2 (length s) ++ (s ++ rest)) 0 ≡ ok (s, 2 + length s)
unfolding decode_str
decode_str-front s rest h =
    let bytes = to_le 2 (length s) ++ (s ++ rest) in
    let size : ltb (length bytes) (0 + 2) ≡ false = ground arith in
    rw
      (
        at_least,
        size,
        from_le-two (length s) h.size,
        text_in-front (to_le 2 (length s)) s rest h.utf8,
      )
      refl

pub encode_str-ok :
    (buf s : List ℕ) → IsText s → encode_str buf s ≡ ok (buf ++ (to_le 2 (length s) ++ s))
unfolding encode_str
encode_str-ok buf s h = let e : ltb (length s) 65536 ≡ true = ground (arith, h.size) in rw e refl

-- Texts behind bytes `pre`: one at the end, and two in a row.
module _ (pre s : List ℕ) (h : IsText s) where
  pub decode_str-then :
      (rest : List ℕ)
      → decode_str (pre ++ (to_le 2 (length s) ++ (s ++ rest))) (length pre) ≡ ok (s, 2 + length s)
  decode_str-then rest =
      let bytes = pre ++ (to_le 2 (length s) ++ (s ++ rest)) in
      let o : length pre ≡ length pre + 0 = omega arith in
      ap (decode_str bytes) o
      ∙ decode_str-drop bytes (length pre) 0
      ∙ ap (λ b. decode_str b 0) (drop-append pre (to_le 2 (length s) ++ (s ++ rest)))
      ∙ decode_str-front s rest h

  pub decode_str-last :
      decode_str (pre ++ (to_le 2 (length s) ++ s)) (length pre) ≡ ok (s, 2 + length s)
  decode_str-last =
      ap (λ b. decode_str (pre ++ (to_le 2 (length s) ++ b)) (length pre)) (sym (append-nil s))
      ∙ decode_str-then []

-- Two texts in a row, the second at the end.
module _ (pre a b : List ℕ) (h : IsText b) where
  abbrev first : List ℕ
  first = pre ++ (to_le 2 (length a) ++ a)

  joined :
      first ++ (to_le 2 (length b) ++ b)
      ≡ pre ++ (to_le 2 (length a) ++ (a ++ (to_le 2 (length b) ++ b)))
  joined = append_assoc pre (to_le 2 (length a) ++ a) (to_le 2 (length b) ++ b)

  pub encode_str-second :
      encode_str (pre ++ (to_le 2 (length a) ++ a)) b
      ≡ ok (pre ++ (to_le 2 (length a) ++ (a ++ (to_le 2 (length b) ++ b))))
  encode_str-second = encode_str-ok first b h ∙ ap ok joined

  pub decode_str-second :
      decode_str
        (pre ++ (to_le 2 (length a) ++ (a ++ (to_le 2 (length b) ++ b))))
        (length pre + (2 + length a))
      ≡ ok (b, 2 + length b)
  decode_str-second =
      let e : length pre + (2 + length a) ≡ length first =
        omega (arith, length-append pre (to_le 2 (length a) ++ a)) in
      ap (decode_str (pre ++ (to_le 2 (length a) ++ (a ++ (to_le 2 (length b) ++ b))))) e
      ∙ ap (λ bytes. decode_str bytes (length first)) (sym joined)
      ∙ decode_str-last first b h
