-- ===== src/Mux/Layout/Members.antt =====
-- `contains` of ops.rs against the list of panes, and the trees without the weights.
use oakterm.Prelude.{ℕ, ◌≤◌, ◌≡◌, refl, ◌↔◌, true, false, ltb, arith}
use oakterm.Prelude.Counts.{count, Has, count-append}
use oakterm.Mux.Layout.{
  SplitDirection, LayoutNode, Children, leaf, container, nil, cons, size, pane_ids, children_ids,
  contains, any_contains, Apart,
}

mutual
  unfolding pane_ids contains

  pub by_count :
      {W : Type 0} (t : LayoutNode W) (p : ℕ) → contains t p ≡ ltb 0 (count p (pane_ids t))
  by_count (leaf id) p = ground arith
  by_count (container d cs) p = by_count_children cs p

  by_count_children :
      {W : Type 0} (cs : Children W) (p : ℕ) → any_contains cs p ≡ ltb 0 (count p (children_ids cs))
  by_count_children nil p = refl
  by_count_children (cons n w cs) p =
      ground
        (arith, count-append p (pane_ids n) (children_ids cs), by_count n p, by_count_children cs p)

module _ {W : Type 0} (t : LayoutNode W) (p : ℕ) where
  -- `contains` is true exactly of the panes that `pane_ids` lists.
  pub contains_iff : (contains t p ≡ true) ↔ Has p (pane_ids t)
  contains_iff = (λ h. ground (arith, by_count t p), λ h. ground (arith, by_count t p))

  pub not_contains : contains t p ≡ false → count p (pane_ids t) ≡ 0
  not_contains h = ground (arith, by_count t p)

pub any_contains_iff :
    {W : Type 0} (cs : Children W) (p : ℕ) → (any_contains cs p ≡ true) ↔ Has p (children_ids cs)
any_contains_iff cs p =
    (λ h. ground (arith, by_count_children cs p), λ h. ground (arith, by_count_children cs p))

-- The canonical form but for the weights: every container has at least two children, and none of
-- its own direction.
abbrev mutual
  pub IsTiled : {W : Type 0} → LayoutNode W → Type 0
  IsTiled (leaf _) = Unit {0}
  IsTiled (container d cs) = (2 ≤ size cs) × AreTiled d cs

  pub AreTiled : {W : Type 0} → SplitDirection → Children W → Type 0
  AreTiled d nil = Unit {0}
  AreTiled d (cons n _ cs) = Apart d n × IsTiled n × AreTiled d cs
