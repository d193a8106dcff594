-- ===== src/Mux/Geometry/Preview.antt =====
-- crates/oakterm-mux/src/geometry.rs: the extents that a split would produce.
pub mod Answers
use oakterm.Prelude.{ℕ, zero, suc, List, [], ◌++◌, not, if◌then◌else◌}
use oakterm.F32.{F32}
use oakterm.Mux.Outcome.{Outcome, ok, err, panicked, pane_not_found, ◌>>=◌}
use oakterm.Mux.Layout.{
  SplitDirection, LayoutNode, Children, leaf, container, nil, cons, size, pane_ids, children_ids,
  contains,
}
use oakterm.Mux.Geometry.{SplitSite, sibling, halve, weight_get, node_at, locate_split_site}

pub record SplitPreview (W : Type 0) : Type 0 where
  pub new_pane_fraction : W
  pub target_fraction : W
  pub shrunk_siblings : List ℕ

module _ {W : Type 0} ⦃f : F32 W⦄ where
  open f use {of_ℕ, literal, add, mul, div}

  -- The panes of the children other than the one at `i`.
  abbrev pub ids_except : Children W → ℕ → List ℕ
  ids_except nil i = []
  ids_except (cons _ _ cs) zero = children_ids cs
  ids_except (cons n _ cs) (suc i) = pane_ids n ++ ids_except cs i

  abbrev pub preview_sibling : LayoutNode W → ℕ → Outcome (SplitPreview W)
  preview_sibling (leaf _) target_pos = panicked
  preview_sibling (container _ cs) target_pos =
      let n = of_ℕ (size cs) in
      weight_get cs target_pos >>= λ w. ok (record {
        new_pane_fraction = div (of_ℕ 1) (mul (add n (of_ℕ 1)) w);
        target_fraction = div n (add n (of_ℕ 1));
        shrunk_siblings = ids_except cs target_pos;
      })

  abbrev pub preview_at : LayoutNode W → SplitSite → Outcome (SplitPreview W)
  preview_at t (halve _) = ok (record {
    new_pane_fraction = literal 5 1;
    target_fraction = literal 5 1;
    shrunk_siblings = [];
  })
  preview_at t (sibling path target_pos) = node_at t path >>= λ n. preview_sibling n target_pos

  unfoldable pub split_preview : LayoutNode W → ℕ → SplitDirection → Outcome (SplitPreview W)
  split_preview t target d =
      if not (contains t target)
      then err (pane_not_found target)
      else (locate_split_site t target d >>= λ site. preview_at t site)
