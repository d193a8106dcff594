-- ===== src/Protocol/Utf8.antt =====
-- The check of `String::from_utf8`: the well-formed byte sequences of the Unicode standard. A text
-- is the list of its bytes.
use oakterm.Prelude.{
  ℕ, Bool, true, false, ◌&&◌, Option, none, some, List, [], ◌∷◌, if◌then◌else◌, ◌==◌, leb,
}

abbrev between : ℕ → ℕ × ℕ → Bool
between b range = leb range.0 b && leb b range.1

abbrev continuation : ℕ × ℕ
continuation = (128, 191)

-- The ranges of the bytes that must follow a first byte.
abbrev following : ℕ → Option (List (ℕ × ℕ))
following b =
    if leb b 127
    then some []
    else if between b (194, 223)
    then some (continuation ∷ [])
    else if b == 224
    then some ((160, 191) ∷ continuation ∷ [])
    else if b == 237
    then some ((128, 159) ∷ continuation ∷ [])
    else if between b (225, 239)
    then some (continuation ∷ continuation ∷ [])
    else if b == 240
    then some ((144, 191) ∷ continuation ∷ continuation ∷ [])
    else if between b (241, 243)
    then some (continuation ∷ continuation ∷ continuation ∷ [])
    else if b == 244
    then some ((128, 143) ∷ continuation ∷ continuation ∷ [])
    else none

scan : List (ℕ × ℕ) → List ℕ → Bool
scan [] [] = true
scan (_ ∷ _) [] = false
scan (range ∷ ranges) (b ∷ bytes) = between b range && scan ranges bytes
scan [] (b ∷ bytes) = elim (following b) [ none ↦ false | some ranges ↦ scan ranges bytes ]

unfoldable pub is_utf8 : List ℕ → Bool
unfolding scan
is_utf8 bytes = scan [] bytes
