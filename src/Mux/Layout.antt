-- ===== src/Mux/Layout.antt =====
-- crates/oakterm-mux/src/layout.rs: the split tree, its traversals and its canonical form.
-- A `Vec<Child>` is `Children`, each child a node with its weight; a pane id is the number in
-- `PaneId`. The children's `push` onto a fresh vector is `cons` on the way back.
pub mod Members
pub mod Flatten
pub mod Shape
pub mod Tiled
pub mod Validate
use oakterm.Prelude.{
  ℕ, suc, ◌+◌, ◌≤◌, ◌≡◌, ◌≢◌, Bool, true, false, ◌||◌, Option, none, some, List, [], ◌∷◌, ◌++◌,
  if◌then◌else◌, ◌==◌, ltb, leb,
}
use oakterm.F32.{F32}

pub data SplitDirection : Type 0 where
  horizontal vertical : SplitDirection

abbrev pub same_direction : SplitDirection → SplitDirection → Bool
same_direction SplitDirection.horizontal SplitDirection.horizontal = true
same_direction SplitDirection.vertical SplitDirection.vertical = true
same_direction _ _ = false

mutual
  pub data LayoutNode (W : Type 0) : Type 0 where
    leaf : ℕ → LayoutNode W
    container : SplitDirection → Children W → LayoutNode W

  pub data Children (W : Type 0) : Type 0 where
    nil : Children W
    cons : LayoutNode W → W → Children W → Children W

pub data InvariantViolation (W : Type 0) : Type 0 where
  too_few_children : ℕ → InvariantViolation W
  non_finite_weight : ℕ → InvariantViolation W
  non_positive_weight : ℕ → W → InvariantViolation W
  weights_sum_out_of_tolerance : W → InvariantViolation W
  same_direction_nesting : InvariantViolation W

module _ {W : Type 0} where
  abbrev pub is_leaf : LayoutNode W → Bool
  is_leaf (leaf _) = true
  is_leaf (container _ _) = false

  abbrev pub is_container : LayoutNode W → Bool
  is_container (leaf _) = false
  is_container (container _ _) = true

  -- `children.len()`
  abbrev pub size : Children W → ℕ
  size nil = 0
  size (cons _ _ cs) = suc (size cs)

  -- `Vec::extend`
  abbrev pub join : Children W → Children W → Children W
  join nil ds = ds
  join (cons n w cs) ds = cons n w (join cs ds)

unfoldable mutual
  pub pane_ids : {W : Type 0} → LayoutNode W → List ℕ
  pane_ids (leaf id) = id ∷ []
  pane_ids (container _ cs) = children_ids cs

  pub children_ids : {W : Type 0} → Children W → List ℕ
  children_ids nil = []
  children_ids (cons n _ cs) = pane_ids n ++ children_ids cs

unfoldable mutual
  pub contains : {W : Type 0} → LayoutNode W → ℕ → Bool
  contains (leaf id) target = id == target
  contains (container _ cs) target = any_contains cs target

  pub any_contains : {W : Type 0} → Children W → ℕ → Bool
  any_contains nil target = false
  any_contains (cons n _ cs) target = contains n target || any_contains cs target

module _ {W : Type 0} ⦃f : F32 W⦄ where
  open f use {of_ℕ, literal, add, sub, mul, div, abs, lt, le, is_finite}

  -- Each child of a new container has the weight `1.0 / children.len() as f32`.
  abbrev with_weight : W → List (LayoutNode W) → Children W
  with_weight w [] = nil
  with_weight w (n ∷ ns) = cons n w (with_weight w ns)

  abbrev count_nodes : List (LayoutNode W) → ℕ
  count_nodes [] = 0
  count_nodes (n ∷ ns) = suc (count_nodes ns)

  -- `none` is the panic on fewer than two children.
  pub even : SplitDirection → List (LayoutNode W) → Option (LayoutNode W)
  even d ns =
      if ltb (count_nodes ns) 2
      then none
      else some (container d (with_weight (div (of_ℕ 1) (of_ℕ (count_nodes ns))) ns))

  -- The grandchildren of a merged container, their weights scaled by its own.
  abbrev pub scale : W → Children W → Children W
  scale w nil = nil
  scale w (cons n v cs) = cons n (mul v w) (scale w cs)

  -- One round of the loop of `flatten_container`, on a child that is flattened already.
  abbrev pub push_flat : SplitDirection → LayoutNode W → W → Children W → Children W
  push_flat d (leaf id) w cs = cons (leaf id) w cs
  push_flat d (container e inner) w cs =
      if same_direction e d then join (scale w inner) cs else cons (container e inner) w cs

  -- A container with one child is replaced by it.
  abbrev pub collapse : SplitDirection → Children W → LayoutNode W
  collapse d (cons n w nil) = n
  collapse d nil = container d nil
  collapse d (cons n w (cons m v cs)) = container d (cons n w (cons m v cs))

unfoldable mutual
  pub flatten : {W : Type 0} ⦃f : F32 W⦄ → LayoutNode W → LayoutNode W
  flatten (leaf id) = leaf id
  flatten (container d cs) = collapse d (flatten_children d cs)

  pub flatten_children : {W : Type 0} ⦃f : F32 W⦄ → SplitDirection → Children W → Children W
  flatten_children d nil = nil
  flatten_children d (cons n w cs) = push_flat d (flatten n) w (flatten_children d cs)

-- `Result<(), InvariantViolation>`: `none` is `Ok(())`.
abbrev pub Violation : Type 0 → Type 0
Violation W = Option (InvariantViolation W)

abbrev pub or_else : {W : Type 0} → Violation W → Violation W → Violation W
or_else none v = v
or_else (some e) v = some e

module _ {W : Type 0} ⦃f : F32 W⦄ where
  open f use {of_ℕ, literal, add, sub, abs, lt, le, is_finite}

  abbrev pub weight_sum_tolerance : W
  weight_sum_tolerance = literal 1 3

  -- The loop over the weights from `index` on, and the test of their sum behind it.
  unfoldable pub check_weights : ℕ → W → Children W → Violation W
  check_weights index sum nil =
      if le weight_sum_tolerance (abs (sub sum (of_ℕ 1)))
      then some (weights_sum_out_of_tolerance sum)
      else none
  check_weights index sum (cons _ w cs) =
      if is_finite w
      then if le w (of_ℕ 0)
        then some (non_positive_weight index w)
        else check_weights (suc index) (add sum w) cs
      else some (non_finite_weight index)

  abbrev pub check_nesting : SplitDirection → LayoutNode W → Violation W
  check_nesting d (leaf _) = none
  check_nesting d (container e _) = if same_direction e d then some same_direction_nesting else none

unfoldable mutual
  pub validate : {W : Type 0} ⦃f : F32 W⦄ → LayoutNode W → Violation W
  validate (leaf _) = none
  validate ⦃f⦄ (container d cs) =
      if ltb (size cs) 2
      then some (too_few_children (size cs))
      else or_else (check_weights 0 (f.of_ℕ 0) cs) (validate_children d cs)

  pub validate_children : {W : Type 0} ⦃f : F32 W⦄ → SplitDirection → Children W → Violation W
  validate_children d nil = none
  validate_children d (cons n _ cs) =
      or_else (check_nesting d n) (or_else (validate n) (validate_children d cs))

abbrev pub is_canonical : {W : Type 0} ⦃f : F32 W⦄ → LayoutNode W → Bool
is_canonical t = elim (validate t) [ none ↦ true | some _ ↦ false ]

-- The structural form that `flatten` restores: no container has a single child, and none stands
-- directly in one of its own direction.
abbrev pub Apart : {W : Type 0} → SplitDirection → LayoutNode W → Type 0
Apart d (leaf _) = Unit {0}
Apart d (container e _) = same_direction e d ≡ false

abbrev mutual
  pub IsFlat : {W : Type 0} → LayoutNode W → Type 0
  IsFlat (leaf _) = Unit {0}
  IsFlat (container d cs) = (size cs ≢ 1) × AreFlat d cs

  pub AreFlat : {W : Type 0} → SplitDirection → Children W → Type 0
  AreFlat d nil = Unit {0}
  AreFlat d (cons n _ cs) = Apart d n × IsFlat n × AreFlat d cs
