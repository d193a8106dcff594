-- ===== src/Mux/Examples/Fixed.antt =====
-- Decimal weights in millionths, with a value for NaN: numbers to run the model on.
use oakterm.Prelude.{
  ℕ, suc, ◌+◌, ◌-◌, ◌*◌, ◌/◌, ◌^◌, Bool, true, false, if◌then◌else◌, ◌==◌, ltb, leb, ◌≡◌, refl,
  arith,
}
use oakterm.F32.{F32}
use oakterm.Mux.Ops.Resize.{ClampOrder}

-- `minus n` is -(n + 1) millionths.
pub data Fixed : Type 0 where
  plus : ℕ → Fixed
  minus : ℕ → Fixed
  nan : Fixed

abbrev one : ℕ
one = 1000000

abbrev pub pos_part : Fixed → ℕ
pos_part (plus n) = n
pos_part _ = 0

abbrev pub neg_part : Fixed → ℕ
neg_part (minus n) = suc n
neg_part _ = 0

abbrev pub is_number : Fixed → Bool
is_number nan = false
is_number _ = true

abbrev pub diff : ℕ → ℕ → Fixed
diff a b = if leb b a then plus (a - b) else minus (b - a - 1)

-- An operation on numbers, NaN on NaN.
abbrev pub lift : (Fixed → Fixed → Fixed) → Fixed → Fixed → Fixed
lift g nan y = nan
lift g (plus n) nan = nan
lift g (minus n) nan = nan
lift g (plus n) (plus m) = g (plus n) (plus m)
lift g (plus n) (minus m) = g (plus n) (minus m)
lift g (minus n) (plus m) = g (minus n) (plus m)
lift g (minus n) (minus m) = g (minus n) (minus m)

abbrev pub negate : Fixed → Fixed
negate nan = nan
negate (plus n) = diff 0 n
negate (minus n) = plus (suc n)

abbrev pub add_numbers : Fixed → Fixed → Fixed
add_numbers x y = diff (pos_part x + pos_part y) (neg_part x + neg_part y)

abbrev pub scaled : (ℕ → ℕ → ℕ) → Fixed → Fixed → Fixed
scaled g x y =
    diff (g (pos_part x) (pos_part y) + g (neg_part x) (neg_part y))
      (g (pos_part x) (neg_part y) + g (neg_part x) (pos_part y))

abbrev pub divide : Fixed → Fixed → Fixed
divide x y = if pos_part y + neg_part y == 0 then nan else scaled (λ a b. a * one / b) x y

abbrev pub less : Fixed → Fixed → Bool
less nan y = false
less (plus n) nan = false
less (minus n) nan = false
less (plus n) (plus m) = ltb n m
less (plus n) (minus m) = false
less (minus n) (plus m) = true
less (minus n) (minus m) = ltb m n

abbrev pub at_most : Fixed → Fixed → Bool
at_most nan y = false
at_most (plus n) nan = false
at_most (minus n) nan = false
at_most (plus n) (plus m) = leb n m
at_most (plus n) (minus m) = false
at_most (minus n) (plus m) = true
at_most (minus n) (minus m) = leb m n

abbrev pub larger : Fixed → Fixed → Fixed
larger nan y = y
larger (plus n) nan = plus n
larger (minus n) nan = minus n
larger (plus n) (plus m) = if ltb n m then plus m else plus n
larger (plus n) (minus m) = plus n
larger (minus n) (plus m) = plus m
larger (minus n) (minus m) = if ltb n m then minus n else minus m

instance abbrev pub fixed : F32 Fixed
fixed = record {
  of_ℕ = λ n. plus (n * one);
  literal = λ digits places. plus (digits * one / 10 ^ places);
  add = lift add_numbers;
  sub = λ x y. lift add_numbers x (negate y);
  mul = lift (scaled (λ a b. a * b / one));
  div = lift divide;
  neg = negate;
  abs = λ x. if less x (plus 0) then negate x else x;
  lt = less;
  le = at_most;
  is_finite = is_number;
  maximum = larger;
  minimum = λ x y. negate (larger (negate x) (negate y));
}

larger-zero : (x : Fixed) → (n : ℕ) × (larger x (plus 0) ≡ plus n)
larger-zero nan = (0, refl)
larger-zero (plus n) = (n, ground arith)
larger-zero (minus n) = (0, refl)

negate-at_most : (n m : ℕ) → at_most (negate (plus n)) (plus m) ≡ true
negate-at_most n m = ground arith

-- The clamp of `resize` has its ends in order.
pub fixed-ClampOrder : ClampOrder Fixed
fixed-ClampOrder x y =
    let (n, e) = larger-zero x in let (m, k) = larger-zero y in rw (e, k) (negate-at_most n m)
