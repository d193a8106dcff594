-- ===== src/Prelude/Totals.antt =====
-- Sums over a list and predicates of all its elements, under the changes of an element, an erasure
-- and an append.
use Prim.Native.Nat.{ℕ, zero, suc, ◌+◌, ◌≤◌, ◌<◌}
use mathlib.Core.Path.{◌≡◌, refl, ap, subst}
use mathlib.Core.Bool.{Bool, true, false}
use mathlib.Core.List.{List, [], ◌∷◌, ◌++◌}
use mathlib.Core.Option.{none, some}
use native.Mathlib.Omega.{arith}
use oakterm.Prelude.Tests.{Bool-cases, Option-cases, ◌==◌}
use oakterm.Prelude.Lists.{length, get_elem?, set, erase_idx, insert_idx, position}
use mathlib.Core.Logic.{inl, inr}

module _ {ℓ} {A : Type ℓ} where
  abbrev pub total : (A → ℕ) → List A → ℕ
  total g [] = 0
  total g (x ∷ xs) = g x + total g xs

  abbrev pub All {κ} : (A → Type κ) → List A → Type κ
  All P [] = Unit
  All P (x ∷ xs) = P x × All P xs

  pub total-set :
      (g : A → ℕ) (xs : List A) (i : ℕ) {x : A} (y : A)
      → get_elem? xs i ≡ some x
      → total g (set xs i y) + g x ≡ total g xs + g y
  total-set g [] i y h = absurd (ground arith)
  total-set g (z ∷ xs) zero {x} y h = let e : z ≡ x = ground arith in rw e (omega arith)
  total-set g (z ∷ xs) (suc i) y h = omega (arith, total-set g xs i y h)

  pub total-erase_idx :
      (g : A → ℕ) (xs : List A) (i : ℕ) {x : A}
      → get_elem? xs i ≡ some x
      → total g xs ≡ total g (erase_idx xs i) + g x
  total-erase_idx g [] i h = absurd (ground arith)
  total-erase_idx g (z ∷ xs) zero {x} h = let e : z ≡ x = ground arith in rw e (omega arith)
  total-erase_idx g (z ∷ xs) (suc i) h = omega (arith, total-erase_idx g xs i h)

  pub total-append : (g : A → ℕ) (xs ys : List A) → total g (xs ++ ys) ≡ total g xs + total g ys
  total-append g [] ys = omega arith
  total-append g (x ∷ xs) ys = omega (arith, total-append g xs ys)

  pub total-insert_idx :
      (g : A → ℕ) (xs : List A) (i : ℕ) (y : A) → total g (insert_idx xs i y) ≡ total g xs + g y
  total-insert_idx g [] zero y = omega arith
  total-insert_idx g [] (suc i) y = omega arith
  total-insert_idx g (x ∷ xs) zero y = omega arith
  total-insert_idx g (x ∷ xs) (suc i) y = omega (arith, total-insert_idx g xs i y)

  pub total-get :
      (g : A → ℕ) (xs : List A) (i : ℕ) {x : A} → get_elem? xs i ≡ some x → g x ≤ total g xs
  total-get g xs i h = omega (arith, total-erase_idx g xs i h)

  pub length-erase_idx :
      (xs : List A) (i : ℕ) {x : A}
      → get_elem? xs i ≡ some x
      → length xs ≡ suc (length (erase_idx xs i))
  length-erase_idx [] i h = absurd (ground arith)
  length-erase_idx (z ∷ xs) zero h = refl
  length-erase_idx (z ∷ xs) (suc i) h = ap suc (length-erase_idx xs i h)

  pub length-insert_idx :
      (xs : List A) (i : ℕ) (y : A) → length (insert_idx xs i y) ≡ suc (length xs)
  length-insert_idx [] zero y = refl
  length-insert_idx [] (suc i) y = refl
  length-insert_idx (x ∷ xs) zero y = refl
  length-insert_idx (x ∷ xs) (suc i) y = ap suc (length-insert_idx xs i y)

  pub lt_of_get : (xs : List A) (i : ℕ) {x : A} → get_elem? xs i ≡ some x → i < length xs
  lt_of_get [] i h = absurd (ground arith)
  lt_of_get (z ∷ xs) zero h = omega arith
  lt_of_get (z ∷ xs) (suc i) h = omega (arith, lt_of_get xs i h)

  pub get_of_lt : (xs : List A) (i : ℕ) → i < length xs → (x : A) × (get_elem? xs i ≡ some x)
  get_of_lt [] i h = absurd (omega arith)
  get_of_lt (z ∷ xs) zero h = (z, refl)
  get_of_lt (z ∷ xs) (suc i) h = get_of_lt xs i (omega arith)

  pub get-position :
      (p : A → Bool) (xs : List A) {i : ℕ}
      → position p xs ≡ some i
      → (x : A) × (get_elem? xs i ≡ some x) × (p x ≡ true)
  get-position p [] h = absurd (ground arith)
  get-position p (z ∷ xs) {i} h = elim (Bool-cases (p z)) [
    | inl here ↦ let e : 0 ≡ i = ground arith in (z, rw (← e), here)
    | inr other ↦ elim (Option-cases (position p xs)) [
      | inl nowhere ↦ absurd (ground arith)
      | inr (j, at) ↦
          let e : suc j ≡ i = ground arith in
          let (x, got, good) = get-position p xs at in (x, rw (← e) got, good)
    ]
  ]

  -- Where no element passes the test, a sum of numbers that only such elements have is zero.
  pub total-position-none :
      (p : A → Bool) (g : A → ℕ) (xs : List A)
      → ((x : A) → p x ≡ false → g x ≡ 0)
      → position p xs ≡ none
      → total g xs ≡ 0
  total-position-none p g [] k h = refl
  total-position-none p g (x ∷ xs) k h = elim (Bool-cases (p x)) [
    | inl here ↦ absurd (ground arith)
    | inr other ↦ omega (arith, k x other, total-position-none p g xs k (ground arith))
  ]

  module _ {κ} (P : A → Type κ) where
    pub All-get : (xs : List A) (i : ℕ) {x : A} → All P xs → get_elem? xs i ≡ some x → P x
    All-get [] i a h = absurd (ground arith)
    All-get (z ∷ xs) zero {x} a h = let e : z ≡ x = ground arith in subst P e (a.0)
    All-get (z ∷ xs) (suc i) a h = All-get xs i a.1 h

    pub All-set : (xs : List A) (i : ℕ) (y : A) → All P xs → P y → All P (set xs i y)
    All-set [] i y a h = tt
    All-set (z ∷ xs) zero y a h = (h, a.1)
    All-set (z ∷ xs) (suc i) y a h = (a.0, All-set xs i y a.1 h)

    pub All-erase_idx : (xs : List A) (i : ℕ) → All P xs → All P (erase_idx xs i)
    All-erase_idx [] i a = tt
    All-erase_idx (z ∷ xs) zero a = a.1
    All-erase_idx (z ∷ xs) (suc i) a = (a.0, All-erase_idx xs i a.1)

    pub All-insert_idx : (xs : List A) (i : ℕ) (y : A) → All P xs → P y → All P (insert_idx xs i y)
    All-insert_idx [] zero y a h = (h, tt)
    All-insert_idx [] (suc i) y a h = (h, tt)
    All-insert_idx (x ∷ xs) zero y a h = (h, a)
    All-insert_idx (x ∷ xs) (suc i) y a h = (a.0, All-insert_idx xs i y a.1 h)

    pub All-append : (xs ys : List A) → All P xs → All P ys → All P (xs ++ ys)
    All-append [] ys a b = b
    All-append (x ∷ xs) ys a b = (a.0, All-append xs ys a.1 b)

  pub get_elem?-set_self :
      (xs : List A) (i : ℕ) (y : A) → i < length xs → get_elem? (set xs i y) i ≡ some y
  get_elem?-set_self [] i y h = absurd (omega arith)
  get_elem?-set_self (x ∷ xs) zero y h = refl
  get_elem?-set_self (x ∷ xs) (suc i) y h = get_elem?-set_self xs i y (omega arith)

  pub get_elem?-set_ne :
      (xs : List A) (i j : ℕ) (y : A) → (i == j) ≡ false → get_elem? (set xs i y) j ≡ get_elem? xs j
  get_elem?-set_ne [] i j y h = refl
  get_elem?-set_ne (x ∷ xs) zero zero y h = absurd (ground arith)
  get_elem?-set_ne (x ∷ xs) zero (suc j) y h = refl
  get_elem?-set_ne (x ∷ xs) (suc i) zero y h = refl
  get_elem?-set_ne (x ∷ xs) (suc i) (suc j) y h = get_elem?-set_ne xs i j y (ground arith)

  pub get_elem?-insert_idx :
      (xs : List A) (i : ℕ) (y : A) → i ≤ length xs → get_elem? (insert_idx xs i y) i ≡ some y
  get_elem?-insert_idx [] zero y h = refl
  get_elem?-insert_idx [] (suc i) y h = absurd (omega arith)
  get_elem?-insert_idx (x ∷ xs) zero y h = refl
  get_elem?-insert_idx (x ∷ xs) (suc i) y h = get_elem?-insert_idx xs i y (omega arith)

pub All-all :
    {A : Type 0} {P Q : A → Type 0} (xs : List A) → ((x : A) → P x → Q x) → All P xs → All Q xs
All-all [] f h = tt
All-all (x ∷ xs) f h = (f x h.0, All-all xs f h.1)
