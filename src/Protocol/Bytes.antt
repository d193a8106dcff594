-- ===== src/Protocol/Bytes.antt =====
-- Bytes as numbers below 256, and the little-endian encodings `to_le_bytes` and `from_le_bytes`.
use oakterm.Prelude.{ℕ, zero, suc, ◌+◌, ◌*◌, ◌/◌, ◌%◌, ◌<◌, ◌≡◌, refl, List, [], ◌∷◌, arith}
use oakterm.Prelude.Totals.{All}

abbrev pub IsByte : ℕ → Type 0
IsByte b = b < 256

abbrev pub AreBytes : List ℕ → Type 0
AreBytes bs = All IsByte bs

-- The number's low bytes, as many as asked for, the lowest first.
abbrev pub to_le : ℕ → ℕ → List ℕ
to_le zero n = []
to_le (suc k) n = n % 256 ∷ to_le k (n / 256)

abbrev pub from_le : List ℕ → ℕ
from_le [] = 0
from_le (b ∷ bs) = b + 256 * from_le bs

pub from_le-two : (n : ℕ) → n < 65536 → from_le (to_le 2 n) ≡ n
from_le-two n h = omega arith

pub from_le-four : (n : ℕ) → n < 4294967296 → from_le (to_le 4 n) ≡ n
from_le-four n h = omega arith

pub to_le-two : (a b : ℕ) → a < 256 → b < 256 → to_le 2 (from_le (a ∷ b ∷ [])) ≡ a ∷ b ∷ []
to_le-two a b h k =
    let e : from_le (a ∷ b ∷ []) % 256 ≡ a = omega arith in
    let g : from_le (a ∷ b ∷ []) / 256 % 256 ≡ b = omega arith in rw (e, g) refl

pub to_le-four :
    (a b c d : ℕ)
    → a < 256
    → b < 256
    → c < 256
    → d < 256
    → to_le 4 (from_le (a ∷ b ∷ c ∷ d ∷ [])) ≡ a ∷ b ∷ c ∷ d ∷ []
to_le-four a b c d h k l m =
    let n = from_le (a ∷ b ∷ c ∷ d ∷ []) in
    let e : n % 256 ≡ a = omega arith in
    let g : n / 256 % 256 ≡ b = omega arith in
    let i : n / 256 / 256 % 256 ≡ c = omega arith in
    let j : n / 256 / 256 / 256 % 256 ≡ d = omega arith in rw (e, g, i, j) refl
