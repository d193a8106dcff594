-- ===== src/Mux/Ops/Split.antt =====
-- crates/oakterm-mux/src/ops.rs: what `split` does to the panes and to the canonical form.
mod Inserting
mod Descent
use oakterm.Prelude.{
  ℕ, zero, suc, ◌+◌, ◌≡◌, refl, ap, List, [], ◌∷◌, ◌++◌, append_assoc, arith, true, false, inl, inr,
  Bool-cases, some, none, Option-cases, ◌↔◌, ◌⊎◌,
}
use native.Mathlib.Numerals.{add-one}
use oakterm.Prelude.Counts.{Has, count, single, count-append}
use oakterm.F32.{F32}
use oakterm.Mux.Outcome.{
  Outcome, LayoutError, ok, err, panicked, pane_not_found, pane_already_present, ◌>>=◌,
}
use oakterm.Mux.Layout.{
  SplitDirection, LayoutNode, Children, leaf, container, nil, cons, same_direction, size, pane_ids,
  children_ids, contains, any_contains, is_leaf, Apart,
}
use oakterm.Mux.Layout.Members.{IsTiled, AreTiled, contains_iff, not_contains}
use oakterm.Mux.Geometry.{
  SplitSite, sibling, halve, descend, map_site, position_leaf, position_contains, site_here,
  node_get, is_leaf_of, locate_split_site, locate_split_at,
}
use oakterm.Mux.Ops.{
  node_set, insert_child, map_weights, change_at, split_at, split_in, split, insert_sibling, halved,
}
use oakterm.Mux.Ops.Indices.{
  Around-of_get, size-node_set, AreTiled-get, AreTiled-node_set, AreTiled-map_weights,
  size-map_weights, children_ids-map_weights, pane_ids_of_leaf,
}
pub use oakterm.Mux.Ops.Split.Inserting.{InsertedAfter, count-InsertedAfter, position_of_contains}
use oakterm.Mux.Ops.Split.Inserting.{Splits}
use oakterm.Mux.Ops.Split.Descent.{splits}

module _ {W : Type 0} ⦃f : F32 W⦄ (t : LayoutNode W) (target new_pane : ℕ)
    (d : SplitDirection) where
  Splits-or_fails :
      contains t new_pane ≡ false
      → contains t target ≡ true
      → (u : LayoutNode W) × (split t target new_pane d ≡ ok u) × Splits target new_pane d t u
  unfolding split split_in
  Splits-or_fails fresh here =
      let (u, done, good) = splits t target new_pane d here in (u, rw (fresh, here) done, good)

  -- Splitting next to a pane of the tree by a pane that it does not hold succeeds, with no panic:
  -- the new pane stands directly behind the target in the left-to-right order, every other pane
  -- keeps its place, and a tree whose containers have at least two children and do not nest in one
  -- direction stays so.
  pub split_lem :
      contains t new_pane ≡ false
      → contains t target ≡ true
      → (u : LayoutNode W) × (split t target new_pane d ≡ ok u)
        × InsertedAfter target new_pane (pane_ids t) (pane_ids u)
        × (IsTiled t → IsTiled u)
  split_lem fresh here =
      let (u, done, good) = Splits-or_fails fresh here in (u, done, good.ids, good.tiled)

  split_cases :
      (Has new_pane (pane_ids t)
        × (split t target new_pane d ≡ err (pane_already_present new_pane)))
      ⊎ ((¬ Has new_pane (pane_ids t))
          × (¬ Has target (pane_ids t))
          × (split t target new_pane d ≡ err (pane_not_found target)))
      ⊎ ((¬ Has new_pane (pane_ids t))
          × Has target (pane_ids t)
          × ((u : LayoutNode W) × (split t target new_pane d ≡ ok u)))
  unfolding split
  split_cases = elim (Bool-cases (contains t new_pane)) [
    | inl old ↦ inl ((contains_iff t new_pane).0 old, rw old)
    | inr fresh ↦
        let lacks : ¬ Has new_pane (pane_ids t) =
          λ k. omega (arith, not_contains t new_pane fresh) in
        elim (Bool-cases (contains t target)) [
          | inr nowhere ↦
              inr (
                inl (lacks, λ k. omega (arith, not_contains t target nowhere), rw (fresh, nowhere)))
          | inl here ↦
              let (u, done, good) = Splits-or_fails fresh here in
              inr (inr (lacks, (contains_iff t target).0 here, (u, done)))
        ]
  ]

  -- A split never panics, and it has two errors and no others: that the tree holds the new pane
  -- already, and, if it does not, that it does not hold the target either.
  pub split-eq-err :
      (¬ (split t target new_pane d ≡ panicked))
      × ((e : LayoutError)
          → (split t target new_pane d ≡ err e
              ↔ (Has new_pane (pane_ids t) × (e ≡ pane_already_present new_pane))
                ⊎ ((¬ Has new_pane (pane_ids t))
                    × (¬ Has target (pane_ids t))
                    × (e ≡ pane_not_found target))))
  split-eq-err = elim split_cases [
    | inl (has, r) ↦ (
      λ h. absurd (ground arith),
      λ e. (
        λ h. inl (has, ground arith),
        λ h. elim h [ inl (_, same) ↦ ground arith | inr (lacks, _, _) ↦ absurd (lacks has) ],
      ),
    )
    | inr (inl (no_new, no_target, r)) ↦ (
      λ h. absurd (ground arith),
      λ e. (
        λ h. inr (no_new, no_target, ground arith),
        λ h. elim h [ inl (old, _) ↦ absurd (no_new old) | inr (_, _, same) ↦ ground arith ],
      ),
    )
    | inr (inr (no_new, has, (u, r))) ↦ (
      λ h. absurd (ground arith),
      λ e. (
        λ h. absurd (ground arith),
        λ h. elim h [
          | inl (old, _) ↦ absurd (no_new old)
          | inr (_, no_target, _) ↦ absurd (no_target has)
        ],
      ),
    )
  ]

  -- A split that succeeds was of a pane of the tree by a new one.
  pub split-eq-ok :
      {u : LayoutNode W}
      → split t target new_pane d ≡ ok u
      → InsertedAfter target new_pane (pane_ids t) (pane_ids u) × (IsTiled t → IsTiled u)
  unfolding split
  split-eq-ok {u} h = elim (Bool-cases (contains t new_pane)) [
    | inl old ↦ absurd (ground arith)
    | inr fresh ↦ elim (Bool-cases (contains t target)) [
      | inr nowhere ↦ absurd (ground arith)
      | inl here ↦
          let (v, done, ids, tiled) = split_lem fresh here in
          let e : v ≡ u = ground arith in rw (← e) (ids, tiled)
    ]
  ]
