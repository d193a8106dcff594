-- ===== src/Prelude/Integers.antt =====
-- Integers over the native numbers, and their two's complement.
use mathlib.Core.Bool.{Bool, true, false}
use Prim.Native.Nat.{zero, ◌%◌, ℕ, suc, ◌+◌, ◌-◌, ◌<◌}
use mathlib.Core.Path.{◌≡◌, refl}
use native.Mathlib.Omega.{arith}
use oakterm.Prelude.Tests.{ltb, if◌then◌else◌}

-- `negsuc n` is -(n + 1).
pub data ℤ : Type 0 where
  pos : ℕ → ℤ
  negsuc : ℕ → ℤ

-- The pattern of an integer with the given half of the word's range, and the integer of a pattern.
abbrev pub to_twos : ℕ → ℤ → ℕ
to_twos half (pos n) = n
to_twos half (negsuc n) = half + half - suc n

abbrev pub of_twos : ℕ → ℕ → ℤ
of_twos half n = if ltb n half then pos n else negsuc (half + half - suc n)

abbrev pub IsSigned : ℕ → ℤ → Type 0
IsSigned half (pos n) = n < half
IsSigned half (negsuc n) = n < half

pub of_twos-to_twos : (half : ℕ) (z : ℤ) → IsSigned half z → of_twos half (to_twos half z) ≡ z
of_twos-to_twos half (pos n) h = ground arith
of_twos-to_twos half (negsuc n) h = ground arith

pub to_twos-lt : (half : ℕ) (z : ℤ) → IsSigned half z → to_twos half z < half + half
to_twos-lt half (pos n) h = omega (arith, h)
to_twos-lt half (negsuc n) h = omega (arith, h)

-- `a < b`, and the sum as a word wraps it.
abbrev pub ltb_ℤ : ℤ → ℤ → Bool
ltb_ℤ (pos a) (pos b) = ltb a b
ltb_ℤ (pos a) (negsuc b) = false
ltb_ℤ (negsuc a) (pos b) = true
ltb_ℤ (negsuc a) (negsuc b) = ltb b a

abbrev pub add_wrapping : ℕ → ℤ → ℤ → ℤ
add_wrapping half a b = of_twos half ((to_twos half a + to_twos half b) % (half + half))

abbrev pub negated : ℤ → ℤ
negated (pos zero) = pos zero
negated (pos (suc n)) = negsuc n
negated (negsuc n) = pos (suc n)

-- The place of an integer from the smallest one of its word on.
abbrev pub rank : ℕ → ℤ → ℕ
rank half (pos n) = half + n
rank half (negsuc n) = half - suc n

pub ltb_ℤ-rank :
    (half : ℕ) (a b : ℤ)
    → IsSigned half a
    → IsSigned half b
    → ltb_ℤ a b ≡ ltb (rank half a) (rank half b)
ltb_ℤ-rank half (pos a) (pos b) h k = ground arith
ltb_ℤ-rank half (pos a) (negsuc b) h k = ground arith
ltb_ℤ-rank half (negsuc a) (pos b) h k = ground arith
ltb_ℤ-rank half (negsuc a) (negsuc b) h k = ground arith

abbrev pub i64_half : ℕ
i64_half = 9223372036854775808

abbrev pub IsI64 : ℤ → Type 0
IsI64 z = IsSigned i64_half z

pub add_one :
    (z : ℤ)
    → IsI64 z
    → rank i64_half z + 1 < i64_half + i64_half
    → IsI64 (add_wrapping i64_half z (pos 1))
      × (rank i64_half (add_wrapping i64_half z (pos 1)) ≡ rank i64_half z + 1)
add_one (pos n) h room =
    let e : (n + 1) % (i64_half + i64_half) ≡ n + 1 = omega (arith, room) in
    let f : ltb (n + 1) i64_half ≡ true = ground (arith, room) in
    rw (e, f) (omega (arith, room), omega arith)
add_one (negsuc zero) h room = (omega arith, refl)
add_one (negsuc (suc n)) h room =
    let e : (i64_half + i64_half - suc (suc n) + 1) % (i64_half + i64_half)
        ≡ i64_half + i64_half - suc n =
      omega (arith, h) in
    let f : ltb (i64_half + i64_half - suc n) i64_half ≡ false = ground (arith, h) in
    let g : i64_half + i64_half - suc (i64_half + i64_half - suc n) ≡ n = omega (arith, h) in
    rw (e, f, g) (omega (arith, h), omega (arith, h))

pub sub_one :
    (z : ℤ)
    → IsI64 z
    → 0 < rank i64_half z
    → IsI64 (add_wrapping i64_half z (negsuc 0))
      × (rank i64_half (add_wrapping i64_half z (negsuc 0)) + 1 ≡ rank i64_half z)
sub_one (pos zero) h room = (omega arith, refl)
sub_one (pos (suc n)) h room =
    let e : (suc n + (i64_half + i64_half - 1)) % (i64_half + i64_half) ≡ n = omega (arith, h) in
    let f : ltb n i64_half ≡ true = ground (arith, h) in rw (e, f) (omega (arith, h), omega arith)
sub_one (negsuc n) h room =
    let e : (i64_half + i64_half - suc n + (i64_half + i64_half - 1)) % (i64_half + i64_half)
        ≡ i64_half + i64_half - suc (suc n) =
      omega (arith, h, room) in
    let f : ltb (i64_half + i64_half - suc (suc n)) i64_half ≡ false = ground (arith, h, room) in
    let g : i64_half + i64_half - suc (i64_half + i64_half - suc (suc n)) ≡ suc n =
      omega (arith, h, room) in
    rw (e, f, g) (omega (arith, h, room), omega (arith, h, room))
