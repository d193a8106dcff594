-- ===== src/Prelude/Counts.antt =====
-- How often a number stands in a list. Membership is a positive count, and a list without
-- duplicates has no count above one: both are read by linear arithmetic.
use oakterm.Prelude.Tests.{◌==◌, if◌then◌else◌}
use oakterm.Prelude.Lists.{head?, last?}
use Prim.Native.Nat.{ℕ, ◌+◌, ◌≤◌, ◌<◌}
use mathlib.Core.Path.{◌≡◌}
use mathlib.Core.Option.{some}
use mathlib.Core.List.{List, [], ◌∷◌, ◌++◌}
use native.Mathlib.Omega.{arith}

abbrev pub single : ℕ → ℕ → ℕ
single a x = if x == a then 1 else 0

abbrev pub count : ℕ → List ℕ → ℕ
count a [] = 0
count a (x ∷ xs) = single a x + count a xs

-- The list holds the number.
abbrev pub Has : ℕ → List ℕ → Type 0
Has a xs = 0 < count a xs

-- No number stands twice in the list.
abbrev pub IsUnique : List ℕ → Type 0
IsUnique xs = (a : ℕ) → count a xs ≤ 1

-- Counts add up over an append.
pub count-append :
    (p : ℕ) (front back : List ℕ) → count p (front ++ back) ≡ count p front + count p back
count-append p [] back = omega arith
count-append p (x ∷ front) back = let rest = count-append p front back in omega (arith, rest)

pub single_self : (a : ℕ) → single a a ≡ 1
single_self a = ground arith

pub head?-Has : (a : ℕ) (xs : List ℕ) → head? xs ≡ some a → Has a xs
head?-Has a [] h = absurd (ground arith)
head?-Has a (x ∷ xs) h = ground arith

pub last?-Has : (a : ℕ) (xs : List ℕ) → last? xs ≡ some a → Has a xs
last?-Has a [] h = absurd (ground arith)
last?-Has a (x ∷ []) h = ground arith
last?-Has a (x ∷ y ∷ xs) h = omega (arith, last?-Has a (y ∷ xs) h)
