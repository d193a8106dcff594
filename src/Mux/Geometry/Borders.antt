-- ===== src/Mux/Geometry/Borders.antt =====
-- crates/oakterm-mux/src/geometry.rs: the border between two panes, its position and extents.
pub mod Acceptance
use oakterm.Prelude.{
  ℕ, zero, suc, ◌+◌, Bool, false, not, ◌||◌, Option, none, some, List, [], ◌∷◌, if◌then◌else◌, ◌==◌,
  ltb,
}
use oakterm.F32.{F32}
use oakterm.Mux.Outcome.{
  Outcome, ok, err, panicked, pane_not_found, not_adjacent_siblings, ◌>>=◌, expect,
}
use oakterm.Mux.Layout.{
  SplitDirection, LayoutNode, Children, horizontal, vertical, leaf, container, nil, cons, contains,
}
use oakterm.Mux.Geometry.{
  UnitRect, Edge, position_contains, node_get, weight_get, touches_edge, pane_rect,
}

pub record BorderPath : Type 0 where
  pub path : List ℕ
  pub pane_idx : ℕ
  pub neighbor_idx : ℕ

pub record BorderExtents (W : Type 0) : Type 0 where
  pub axis : SplitDirection
  pub pane_extent : W
  pub container_extent : W

abbrev pub adjacent : ℕ → ℕ → Bool
adjacent i j = (i + 1 == j) || (j + 1 == i)

abbrev pub along : {A : Type 0} → SplitDirection → A → A → A
along horizontal a b = a
along vertical a b = b

module _ {W : Type 0} ⦃f : F32 W⦄ where
  open f use {of_ℕ, literal, sub, mul, lt, maximum, minimum}

  abbrev pub border_overlap_epsilon : W
  border_overlap_epsilon = literal 1 6

  abbrev pub cross_overlap : SplitDirection → UnitRect W → UnitRect W → W
  cross_overlap horizontal a b = sub (minimum a.y1 b.y1) (maximum a.y0 b.y0)
  cross_overlap vertical a b = sub (minimum a.x1 b.x1) (maximum a.x0 b.x0)

  -- The two panes in the order of their subtrees.
  abbrev pub shares_border_in_order : SplitDirection → Children W → ℕ → ℕ → ℕ → Outcome Bool
  shares_border_in_order d cs first_idx first_id second_id = node_get cs first_idx >>= λ first_node.
      node_get cs (first_idx + 1) >>= λ second_node.
      if not (touches_edge first_node first_id d Edge.trailing)
        || not (touches_edge second_node second_id d Edge.leading)
      then ok false
      else (expect (pane_rect first_node first_id) >>= λ first.
          expect (pane_rect second_node second_id) >>= λ second.
          ok (lt border_overlap_epsilon (cross_overlap d first second)))

  unfoldable pub panes_share_border : SplitDirection → Children W → ℕ → ℕ → ℕ → ℕ → Outcome Bool
  panes_share_border d cs pane_idx pane neighbor_idx neighbor =
      if ltb pane_idx neighbor_idx
      then shares_border_in_order d cs pane_idx pane neighbor
      else shares_border_in_order d cs neighbor_idx neighbor pane

  -- The last part of a round of `locate_border`, where the panes part ways.
  abbrev pub border_here : SplitDirection → Children W → ℕ → ℕ → ℕ → ℕ → Outcome BorderPath
  border_here d cs pane_idx pane neighbor_idx neighbor =
      if adjacent pane_idx neighbor_idx
      then (panes_share_border d cs pane_idx pane neighbor_idx neighbor >>= λ shared.
          if shared
          then ok (record { path = []; pane_idx = pane_idx; neighbor_idx = neighbor_idx })
          else err (not_adjacent_siblings pane neighbor))
      else err (not_adjacent_siblings pane neighbor)

abbrev pub descend_border : ℕ → Outcome BorderPath → Outcome BorderPath
descend_border i m = m >>= λ b. ok (record b { path = i ∷ b.path })

-- On a leaf both panes are that leaf, and there is no border.
unfoldable mutual
  pub locate_border : {W : Type 0} ⦃f : F32 W⦄ → LayoutNode W → ℕ → ℕ → Outcome BorderPath
  locate_border (leaf _) pane neighbor = err (not_adjacent_siblings pane neighbor)
  locate_border (container d cs) pane neighbor = elim (position_contains cs pane) [
    | none ↦ panicked
    | some pane_idx ↦ elim (position_contains cs neighbor) [
      | none ↦ panicked
      | some neighbor_idx ↦
          let inside = descend_border pane_idx (locate_border_at cs pane_idx pane neighbor) in
          if pane_idx == neighbor_idx
          then inside
          else border_here d cs pane_idx pane neighbor_idx neighbor
    ]
  ]

  pub locate_border_at : {W : Type 0} ⦃f : F32 W⦄ → Children W → ℕ → ℕ → ℕ → Outcome BorderPath
  locate_border_at nil i pane neighbor = panicked
  locate_border_at (cons n _ cs) zero pane neighbor = locate_border n pane neighbor
  locate_border_at (cons _ _ cs) (suc i) pane neighbor = locate_border_at cs i pane neighbor

module _ {W : Type 0} ⦃f : F32 W⦄ where
  open f use {of_ℕ, literal, add, sub, mul, div}

  abbrev pub grow_width : SplitDirection → W → W → W
  grow_width horizontal width w = mul width w
  grow_width vertical width w = width

  abbrev pub grow_height : SplitDirection → W → W → W
  grow_height horizontal height w = height
  grow_height vertical height w = mul height w

  -- The loop of `border_container_extent`, from the width and height reached.
  unfoldable pub extent_from : LayoutNode W → List ℕ → W → W → Outcome (SplitDirection × W)
  extent_from (leaf _) path width height = panicked
  extent_from (container d cs) [] width height = ok (d, along d width height)
  extent_from (container d cs) (i ∷ path) width height = weight_get cs i >>= λ w.
      node_get cs i >>= λ n. extent_from n path (grow_width d width w) (grow_height d height w)

  unfoldable pub border_extents : LayoutNode W → ℕ → ℕ → Outcome (BorderExtents W)
  border_extents t pane neighbor =
      if not (contains t pane)
      then err (pane_not_found pane)
      else if not (contains t neighbor)
      then err (pane_not_found neighbor)
      else (locate_border t pane neighbor >>= λ b. extent_from t b.path (of_ℕ 1) (of_ℕ 1) >>= λ e.
          elim (pane_rect t pane) [
            | none ↦ err (pane_not_found pane)
            | some r ↦ ok (record {
              axis = e.0;
              pane_extent = along e.0 (sub r.x1 r.x0) (sub r.y1 r.y0);
              container_extent = e.1;
            })
          ])
