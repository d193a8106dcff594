-- ===== src/Mux/Layout/Validate.antt =====
-- `validate` of layout.rs, against the canonical form written out as a predicate.
use oakterm.Prelude.{ℕ, suc, ◌≤◌, ◌≡◌, refl, ◌↔◌, true, false, none, some, arith}
use oakterm.F32.{F32}
use oakterm.Mux.Layout.{
  SplitDirection, LayoutNode, Children, leaf, container, nil, cons, size, Violation, or_else,
  check_weights, check_nesting, weight_sum_tolerance, validate, validate_children, is_canonical,
  flatten, Apart, IsFlat, AreFlat,
}
use oakterm.Mux.Layout.Flatten.{flatten_of_IsFlat}

module _ {W : Type 0} ⦃f : F32 W⦄ where
  open f use {of_ℕ, add, sub, abs, le, is_finite}

  -- The weights from the running sum on: each finite and positive, the total near one.
  abbrev pub WeightsFrom : W → Children W → Type 0
  WeightsFrom sum nil = le weight_sum_tolerance (abs (sub sum (of_ℕ 1))) ≡ false
  WeightsFrom sum (cons _ w cs) =
      (is_finite w ≡ true) × (le w (of_ℕ 0) ≡ false) × WeightsFrom (add sum w) cs

-- Every container has at least two children, with finite positive weights whose sum is within the
-- tolerance of one, and none of its own direction.
abbrev mutual
  pub IsCanonical : {W : Type 0} ⦃f : F32 W⦄ → LayoutNode W → Type 0
  IsCanonical (leaf _) = Unit {0}
  IsCanonical ⦃f⦄ (container d cs) = (2 ≤ size cs) × WeightsFrom (f.of_ℕ 0) cs × AreCanonical d cs

  pub AreCanonical : {W : Type 0} ⦃f : F32 W⦄ → SplitDirection → Children W → Type 0
  AreCanonical d nil = Unit {0}
  AreCanonical d (cons n _ cs) = Apart d n × IsCanonical n × AreCanonical d cs

module _ {W : Type 0} where
  or_else_left : (u v : Violation W) → or_else u v ≡ none → u ≡ none
  or_else_left none v h = refl
  or_else_left (some e) v h = h

  or_else_right : (u v : Violation W) → or_else u v ≡ none → v ≡ none
  or_else_right none v h = h
  or_else_right (some e) v h = absurd (ground arith)

module _ {W : Type 0} ⦃f : F32 W⦄ where
  weights_sound :
      (i : ℕ) (sum : W) (cs : Children W) → check_weights i sum cs ≡ none → WeightsFrom sum cs
  unfolding check_weights
  weights_sound i sum nil h = ground arith
  weights_sound i sum (cons n w cs) h = ground (arith, weights_sound (suc i) (f.add sum w) cs)

  weights_complete :
      (i : ℕ) (sum : W) (cs : Children W) → WeightsFrom sum cs → check_weights i sum cs ≡ none
  unfolding check_weights
  weights_complete i sum nil h = ground arith
  weights_complete i sum (cons n w cs) h =
      ground (arith, weights_complete (suc i) (f.add sum w) cs h.2)

  nesting_sound : (d : SplitDirection) (n : LayoutNode W) → check_nesting d n ≡ none → Apart d n
  nesting_sound d (leaf _) h = tt
  nesting_sound d (container e _) h = ground arith

  nesting_complete : (d : SplitDirection) (n : LayoutNode W) → Apart d n → check_nesting d n ≡ none
  nesting_complete d (leaf _) h = refl
  nesting_complete d (container e _) h = ground arith

mutual
  unfolding validate

  sound : {W : Type 0} ⦃f : F32 W⦄ (t : LayoutNode W) → validate t ≡ none → IsCanonical t
  sound (leaf _) h = tt
  sound ⦃f⦄ (container d cs) h =
      let weights = check_weights 0 (f.of_ℕ 0) cs in
      let rest : or_else weights (validate_children d cs) ≡ none = ground arith in
      (
        ground arith,
        weights_sound 0 (f.of_ℕ 0) cs (or_else_left weights (validate_children d cs) rest),
        sound_children d cs (or_else_right weights (validate_children d cs) rest),
      )

  sound_children :
      {W : Type 0} ⦃f : F32 W⦄ (d : SplitDirection) (cs : Children W)
      → validate_children d cs ≡ none
      → AreCanonical d cs
  sound_children d nil h = tt
  sound_children d (cons n w cs) h =
      let later = or_else_right (check_nesting d n) _ h in
      (
        nesting_sound d n (or_else_left (check_nesting d n) _ h),
        sound n (or_else_left (validate n) (validate_children d cs) later),
        sound_children d cs (or_else_right (validate n) (validate_children d cs) later),
      )

mutual
  unfolding validate

  complete : {W : Type 0} ⦃f : F32 W⦄ (t : LayoutNode W) → IsCanonical t → validate t ≡ none
  complete (leaf _) h = refl
  complete ⦃f⦄ (container d cs) h =
      ground (arith, weights_complete 0 (f.of_ℕ 0) cs h.1, complete_children d cs h.2)

  complete_children :
      {W : Type 0} ⦃f : F32 W⦄ (d : SplitDirection) (cs : Children W)
      → AreCanonical d cs
      → validate_children d cs ≡ none
  complete_children d nil h = refl
  complete_children d (cons n w cs) h =
      ground (arith, nesting_complete d n h.0, complete n h.1, complete_children d cs h.2)

mutual
  flat : {W : Type 0} ⦃f : F32 W⦄ (t : LayoutNode W) → IsCanonical t → IsFlat t
  flat (leaf _) h = tt
  flat (container d cs) h = (omega (arith, h.0), flat_children d cs h.2)

  flat_children :
      {W : Type 0} ⦃f : F32 W⦄ (d : SplitDirection) (cs : Children W)
      → AreCanonical d cs
      → AreFlat d cs
  flat_children d nil h = tt
  flat_children d (cons n w cs) h = (h.0, flat n h.1, flat_children d cs h.2)

module _ {W : Type 0} ⦃f : F32 W⦄ (t : LayoutNode W) where
  -- `validate` succeeds exactly on the trees in canonical form: at least two children in every
  -- container, weights that are finite, positive and sum to one within the tolerance, and no
  -- container directly inside one of its own direction.
  pub validate_iff : (validate t ≡ none) ↔ IsCanonical t
  validate_iff = (sound t, complete t)

  pub IsFlat-of_IsCanonical : IsCanonical t → IsFlat t
  IsFlat-of_IsCanonical h = flat t h

  -- What `is_canonical` accepts, `flatten` returns unchanged.
  pub flatten_of_is_canonical : is_canonical t ≡ true → flatten t ≡ t
  flatten_of_is_canonical h = flatten_of_IsFlat t (flat t (sound t (ground arith)))
