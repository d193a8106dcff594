-- ===== src/Mux/Outcome.antt =====
-- The results of the layout operations: `LayoutError` of crates/oakterm-mux/src/ops.rs, and the
-- three ways in which a call can end. `panicked` is an `expect`, an `unreachable!` or an index out
-- of range.
use oakterm.Prelude.{ℕ, ◌≡◌, refl, Option, none, some, Bool, true, false, if◌then◌else◌, arith}

pub data LayoutError : Type 0 where
  pane_not_found : ℕ → LayoutError
  pane_already_present : ℕ → LayoutError
  not_adjacent_siblings : ℕ → ℕ → LayoutError
  invalid_resize_param : LayoutError

pub data Outcome {ℓ} (A : Type ℓ) : Type ℓ where
  ok : A → Outcome A
  err : LayoutError → Outcome A
  panicked : Outcome A

infixl 5 ◌>>=◌
abbrev pub ◌>>=◌ {ℓ κ} : {A : Type ℓ} {B : Type κ} → Outcome A → (A → Outcome B) → Outcome B
ok a >>= k = k a
err e >>= k = err e
panicked >>= k = panicked

-- `Option::expect`
abbrev pub expect {ℓ} : {A : Type ℓ} → Option A → Outcome A
expect none = panicked
expect (some a) = ok a

-- The two parts of a successful chain.
pub >>=-eq-ok {ℓ κ} :
    {A : Type ℓ} {B : Type κ} (m : Outcome A) (k : A → Outcome B) {b : B}
    → (m >>= k) ≡ ok b
    → (a : A) × (m ≡ ok a) × (k a ≡ ok b)
>>=-eq-ok (ok a) k h = (a, refl, h)
>>=-eq-ok (err e) k h = absurd (ground arith)
>>=-eq-ok panicked k h = absurd (ground arith)

-- A result past a test that would have returned an error.
pub if-eq-ok {ℓ} :
    {A : Type ℓ} (b : Bool) (e : LayoutError) {r : Outcome A} {a : A}
    → (if b then err e else r) ≡ ok a
    → r ≡ ok a
if-eq-ok true e h = absurd (ground arith)
if-eq-ok false e h = h

pub ok-injective {ℓ} : {A : Type ℓ} {a b : A} → ok a ≡ ok b → a ≡ b
ok-injective h = cc
