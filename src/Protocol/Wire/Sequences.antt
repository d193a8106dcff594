-- ===== src/Protocol/Wire/Sequences.antt =====
-- message.rs, render.rs: the loops over the values that a message lists. What a value's own
-- functions promise is promised of the whole list.
use oakterm.Prelude.{
  append_assoc, ℕ, ◌+◌, ◌≤◌, ◌≡◌, refl, ap, ◌∙◌, List, [], ◌∷◌, ◌++◌, ltb, false, length, drop,
  length-append, arith,
}
use oakterm.Prelude.Totals.{All}
use oakterm.Protocol.Frame.{IoResult, ok}
use oakterm.Protocol.Frame.RoundTrip.{drop-append}
use oakterm.Protocol.Wire.{encode_each, decode_each}
use oakterm.Protocol.Wire.Offsets.{drop-sum, length-drop}

-- What a value of a list is on the wire: the encoder writes `wire x`, and the decoder reads it
-- back in front of any bytes.
pub record Carried {A : Type 0} (encode : A → IoResult (List ℕ))
    (decode : List ℕ → IoResult (A × ℕ)) (wire : A → List ℕ) (x : A) : Type 0 where
  pub written : encode x ≡ ok (wire x)
  pub taken : (rest : List ℕ) → decode (wire x ++ rest) ≡ ok (x, length (wire x))

abbrev pub wires : {A : Type 0} → (A → List ℕ) → List A → List ℕ
wires wire [] = []
wires wire (x ∷ xs) = wire x ++ wires wire xs

module _ {A : Type 0} (encode : A → IoResult (List ℕ)) (decode : List ℕ → IoResult (A × ℕ))
    (wire : A → List ℕ) where
  pub encode_each-wires :
      (xs : List A)
      → All (Carried encode decode wire) xs
      → encode_each encode xs ≡ ok (wires wire xs)
  unfolding encode_each
  encode_each-wires [] h = refl
  encode_each-wires (x ∷ xs) h = rw (h.0.written, encode_each-wires xs h.1) refl

  pub decode_each-wires :
      (xs : List A) (bytes : List ℕ) (o : ℕ) (rest : List ℕ)
      → All (Carried encode decode wire) xs
      → o ≤ length bytes
      → drop o bytes ≡ wires wire xs ++ rest
      → decode_each decode (length xs) bytes o ≡ ok (xs, o + length (wires wire xs))
  unfolding decode_each
  decode_each-wires [] bytes o rest h within e =
      let same : o ≡ o + 0 = omega arith in ap (λ k. ok ([], k)) same
  decode_each-wires (x ∷ xs) bytes o rest h within e =
      let front : drop o bytes ≡ wire x ++ (wires wire xs ++ rest) =
        e ∙ append_assoc (wire x) (wires wire xs) rest in
      let there : ltb (length bytes) o ≡ false = ground (arith, within) in
      let next : drop (o + length (wire x)) bytes ≡ wires wire xs ++ rest =
        drop-sum o (length (wire x)) bytes
        ∙ ap (drop (length (wire x))) front
        ∙ drop-append (wire x) (wires wire xs ++ rest) in
      let enough : o + length (wire x) ≤ length bytes = omega (
        arith,
        within,
        length-drop o bytes,
        ap length front,
        length-append (wire x) (wires wire xs ++ rest),
      ) in
      let all : o + length (wire x) + length (wires wire xs) ≡ o + length (wires wire (x ∷ xs)) =
        omega (arith, length-append (wire x) (wires wire xs)) in
      rw
        (
          there,
          front,
          h.0.taken (wires wire xs ++ rest),
          decode_each-wires xs bytes (o + length (wire x)) rest h.1 enough next,
          all,
        )
        refl
