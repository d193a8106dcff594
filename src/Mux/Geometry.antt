-- ===== src/Mux/Geometry.antt =====
-- crates/oakterm-mux/src/geometry.rs: where panes sit in the tree, and the sites and borders at
-- which the operations of ops.rs work. A loop that descends by `node = &children[i].node` is a
-- recursion into the child at `i`; the path it collects is consed on the way back.
pub mod Borders
pub mod Preview
use oakterm.Prelude.{
  ℕ, zero, suc, ◌+◌, ◌-◌, Bool, true, false, not, ◌&&◌, ◌||◌, Option, none, some, List, [], ◌∷◌,
  ◌++◌, if◌then◌else◌, ◌==◌, ltb, is_some,
}
use mathlib.Core.Option
use oakterm.F32.{F32}
use oakterm.Mux.Outcome.{
  LayoutError, Outcome, ok, err, panicked, pane_not_found, not_adjacent_siblings, ◌>>=◌, expect,
}
use oakterm.Mux.Layout.{
  SplitDirection, LayoutNode, Children, horizontal, vertical, leaf, container, nil, cons,
  same_direction, size, pane_ids, contains,
}

pub data SplitSite : Type 0 where
  sibling : List ℕ → ℕ → SplitSite
  halve : List ℕ → SplitSite

pub data Edge : Type 0 where
  leading trailing : Edge

pub record UnitRect (W : Type 0) : Type 0 where
  pub x0 : W
  pub x1 : W
  pub y0 : W
  pub y1 : W

module _ {W : Type 0} where
  abbrev pub is_leaf_of : LayoutNode W → ℕ → Bool
  is_leaf_of (leaf id) target = id == target
  is_leaf_of (container _ _) target = false

  -- `position(|ch| matches!(ch.node, Leaf(id) if id == target))`
  abbrev pub position_leaf : Children W → ℕ → Option ℕ
  position_leaf nil target = none
  position_leaf (cons n _ cs) target =
      if is_leaf_of n target then some 0 else Option.map suc (position_leaf cs target)

  -- `position(|ch| ch.node.contains(target))`
  abbrev pub position_contains : Children W → ℕ → Option ℕ
  position_contains nil target = none
  position_contains (cons n _ cs) target =
      if contains n target then some 0 else Option.map suc (position_contains cs target)

  -- `&children[i].node` and `children[i].weight`
  abbrev pub node_get : Children W → ℕ → Outcome (LayoutNode W)
  node_get nil i = panicked
  node_get (cons n _ cs) zero = ok n
  node_get (cons _ _ cs) (suc i) = node_get cs i

  abbrev pub weight_get : Children W → ℕ → Outcome W
  weight_get nil i = panicked
  weight_get (cons _ w cs) zero = ok w
  weight_get (cons _ _ cs) (suc i) = weight_get cs i

  abbrev pub required : Edge → Children W → ℕ
  required Edge.leading cs = 0
  required Edge.trailing cs = size cs - 1

  unfoldable pub node_at : LayoutNode W → List ℕ → Outcome (LayoutNode W)
  node_at n [] = ok n
  node_at (leaf _) (i ∷ path) = panicked
  node_at (container _ cs) (i ∷ path) = node_get cs i >>= λ n. node_at n path

abbrev pub descend : ℕ → SplitSite → SplitSite
descend i (sibling path target_pos) = sibling (i ∷ path) target_pos
descend i (halve path) = halve (i ∷ path)

abbrev pub map_site : (SplitSite → SplitSite) → Outcome SplitSite → Outcome SplitSite
map_site g m = m >>= λ s. ok (g s)

abbrev pub site_here : {W : Type 0} → SplitDirection → SplitDirection → Children W → ℕ → Option ℕ
site_here e d cs target = if same_direction e d then position_leaf cs target else none

unfoldable mutual
  pub locate_split_site : {W : Type 0} → LayoutNode W → ℕ → SplitDirection → Outcome SplitSite
  locate_split_site (leaf _) target d = ok (halve [])
  locate_split_site (container e cs) target d = elim (site_here e d cs target) [
    | some target_pos ↦ ok (sibling [] target_pos)
    | none ↦ elim (position_contains cs target) [
      | none ↦ panicked
      | some next ↦ map_site (descend next) (locate_split_at cs next target d)
    ]
  ]

  pub locate_split_at : {W : Type 0} → Children W → ℕ → ℕ → SplitDirection → Outcome SplitSite
  locate_split_at nil i target d = panicked
  locate_split_at (cons n _ cs) zero target d = locate_split_site n target d
  locate_split_at (cons _ _ cs) (suc i) target d = locate_split_at cs i target d

unfoldable mutual
  pub touches_edge : {W : Type 0} → LayoutNode W → ℕ → SplitDirection → Edge → Bool
  touches_edge (leaf id) target axis edge = id == target
  touches_edge (container e cs) target axis edge = elim (position_contains cs target) [
    | none ↦ false
    | some pos ↦
        if same_direction e axis && not (pos == required edge cs)
        then false
        else touches_edge_at cs pos target axis edge
  ]

  pub touches_edge_at : {W : Type 0} → Children W → ℕ → ℕ → SplitDirection → Edge → Bool
  touches_edge_at nil i target axis edge = false
  touches_edge_at (cons n _ cs) zero target axis edge = touches_edge n target axis edge
  touches_edge_at (cons _ _ cs) (suc i) target axis edge = touches_edge_at cs i target axis edge

module _ {W : Type 0} ⦃f : F32 W⦄ where
  open f use {of_ℕ, add, mul}

  abbrev pub unit_rect : UnitRect W
  unit_rect = record { x0 = of_ℕ 0; x1 = of_ℕ 1; y0 = of_ℕ 0; y1 = of_ℕ 1 }

  abbrev pub place : SplitDirection → W → W → UnitRect W → UnitRect W
  place horizontal start span r = record r {
    x0 = add start (mul r.x0 span);
    x1 = add start (mul r.x1 span);
  }
  place vertical start span r = record r {
    y0 = add start (mul r.y0 span);
    y1 = add start (mul r.y1 span);
  }

unfoldable mutual
  pub pane_rect : {W : Type 0} ⦃f : F32 W⦄ → LayoutNode W → ℕ → Option (UnitRect W)
  pane_rect (leaf id) target = if id == target then some unit_rect else none
  pane_rect ⦃f⦄ (container d cs) target = pane_rect_from d (f.of_ℕ 0) cs target

  pub pane_rect_from :
      {W : Type 0} ⦃f : F32 W⦄ → SplitDirection → W → Children W → ℕ → Option (UnitRect W)
  pane_rect_from d start nil target = none
  pane_rect_from ⦃f⦄ d start (cons n w cs) target =
      let end = f.add start w in
      elim (pane_rect n target) [
        | some r ↦ some (place d start (f.sub end start) r)
        | none ↦ pane_rect_from d end cs target
      ]
