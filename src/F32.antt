-- ===== src/F32.antt =====
-- Rust's `f32`, as far as the layout code uses it: a type of values with its operations. Nothing
-- is assumed of them here, so what is proved over `F32` holds whatever the rounding, NaN included.
use oakterm.Prelude.{ℕ, Bool}

pub record F32 (W : Type 0) : Type 0 where
  -- `n as f32`, and the literals `1.0`, `2.0`, …
  pub of_ℕ : ℕ → W
  -- The decimal literal `digits * 10^(-places)`: `0.5` is `literal 5 1`.
  pub literal : ℕ → ℕ → W
  pub add : W → W → W
  pub sub : W → W → W
  pub mul : W → W → W
  pub div : W → W → W
  pub neg : W → W
  pub abs : W → W
  pub lt : W → W → Bool
  pub le : W → W → Bool
  pub is_finite : W → Bool
  -- `f32::max` and `f32::min`
  pub maximum : W → W → W
  pub minimum : W → W → W
