-- ===== src/Protocol/Wire/Behind.antt =====
-- message.rs: reads and guards at an offset, when the bytes from there on are known.
use oakterm.Prelude.{
  append-nil, ℕ, ◌+◌, ◌≤◌, ◌<◌, ◌≡◌, refl, sym, ap, ◌∙◌, true, false, List, [], ◌∷◌, ◌++◌, ltb,
  length, drop, take, arith,
}
use oakterm.Protocol.Frame.{ok, byte_at, u16_at, u32_at}
use oakterm.Protocol.Frame.RoundTrip.{drop-append}
use oakterm.Protocol.Utf8.{is_utf8}
use oakterm.Protocol.Wire.{i32_at, slice, text_in, u16_len, u32_len}
use oakterm.Protocol.Wire.Offsets.{
  byte_at-drop, u16_at-drop, u32_at-drop, i32_at-drop, slice-drop, text_in-drop, ltb-drop,
  text_in-front, drop-sum,
}

module _ (bytes : List ℕ) (o : ℕ) (ys : List ℕ) (e : drop o bytes ≡ ys) where
  pub byte_at-behind : (i : ℕ) → byte_at bytes (o + i) ≡ byte_at ys i
  byte_at-behind i = byte_at-drop bytes o i ∙ ap (λ b. byte_at b i) e

  pub u16_at-behind : (i : ℕ) → u16_at bytes (o + i) ≡ u16_at ys i
  u16_at-behind i = u16_at-drop bytes o i ∙ ap (λ b. u16_at b i) e

  pub u32_at-behind : (i : ℕ) → u32_at bytes (o + i) ≡ u32_at ys i
  u32_at-behind i = u32_at-drop bytes o i ∙ ap (λ b. u32_at b i) e

  pub i32_at-behind : (i : ℕ) → i32_at bytes (o + i) ≡ i32_at ys i
  i32_at-behind i = i32_at-drop bytes o i ∙ ap (λ b. i32_at b i) e

  here : o ≡ o + 0
  here = omega arith

  pub byte_at-here : byte_at bytes o ≡ byte_at ys 0
  byte_at-here = ap (byte_at bytes) here ∙ byte_at-behind 0

  pub u16_at-here : u16_at bytes o ≡ u16_at ys 0
  u16_at-here = ap (u16_at bytes) here ∙ u16_at-behind 0

  pub u32_at-here : u32_at bytes o ≡ u32_at ys 0
  u32_at-here = ap (u32_at bytes) here ∙ u32_at-behind 0

  pub slice-behind : (i n : ℕ) → 0 < i + n → slice bytes (o + i) n ≡ slice ys i n
  slice-behind i n h = slice-drop bytes o i n h ∙ ap (λ b. slice b i n) e

  pub text_in-behind : (i n : ℕ) → 0 < i + n → text_in bytes (o + i) n ≡ text_in ys i n
  text_in-behind i n h = text_in-drop bytes o i n h ∙ ap (λ b. text_in b i n) e

  -- The guard of `i` bytes behind the offset lets the decoder go on.
  pub ltb-behind : (i : ℕ) → 0 < i → i ≤ length ys → ltb (length bytes) (o + i) ≡ false
  ltb-behind i h there =
      let f : ltb (length ys) i ≡ false = ground (arith, there) in
      ltb-drop bytes o i h ∙ ap (λ b. ltb (length b) i) e ∙ f

module _ (pre xs : List ℕ) where
  pub text_in-last : is_utf8 xs ≡ true → text_in (pre ++ xs) (length pre) (length xs) ≡ ok xs
  text_in-last h =
      ap (λ b. text_in (pre ++ b) (length pre) (length xs)) (sym (append-nil xs))
      ∙ text_in-front pre xs [] h

module _ {A : Type 0} (xs : List A) where
  pub u16_len-ok : length xs < 65536 → u16_len xs ≡ ok (length xs)
  u16_len-ok h = let e : ltb (length xs) 65536 ≡ true = ground (arith, h) in rw (u16_len, e) refl

  pub u32_len-ok : length xs < 4294967296 → u32_len xs ≡ ok (length xs)
  u32_len-ok h =
      let e : ltb (length xs) 4294967296 ≡ true = ground (arith, h) in rw (u32_len, e) refl

pub drop-past : (pre xs ys : List ℕ) → drop (length pre + length xs) (pre ++ (xs ++ ys)) ≡ ys
drop-past pre xs ys =
    drop-sum (length pre) (length xs) (pre ++ (xs ++ ys))
    ∙ ap (drop (length xs)) (drop-append pre (xs ++ ys))
    ∙ drop-append xs ys

pub take-all : (xs : List ℕ) → take (length xs) xs ≡ xs
take-all [] = refl
take-all (x ∷ xs) = ap (◌∷◌ x) (take-all xs)
