-- ===== src/Mux/Ops/Close.antt =====
-- crates/oakterm-mux/src/ops.rs: what `close` removes, what it keeps, and its focus hint.
mod Leaves
use oakterm.Prelude.{
  ℕ, suc, ◌≡◌, refl, ap, List, arith, true, false, ◌&&◌, inl, inr, Bool-cases, Option, some, none,
  Option-cases, ◌↔◌, ==-self,
}
use oakterm.Prelude.Counts.{Has, single, count-append}
use oakterm.F32.{F32}
use oakterm.Mux.Outcome.{ok, err, pane_not_found}
use oakterm.Mux.Layout.{
  SplitDirection, LayoutNode, Children, leaf, container, nil, cons, size, pane_ids, children_ids,
  contains, any_contains, is_leaf, flatten,
}
use oakterm.Mux.Layout.Flatten.{pane_ids-flatten}
use oakterm.Mux.Layout.Members.{IsTiled, AreTiled, contains_iff, not_contains}
use oakterm.Mux.Layout.Tiled.{
  IsGrown, AreGrown, IsGrown-of_IsTiled, AreGrown-of_AreTiled, flatten-IsTiled,
}
use oakterm.Mux.Geometry.{is_leaf_of, position_leaf}
use oakterm.Mux.Ops.{
  remove_child, hint_at, CloseOutcome, last_pane, removed, not_found, found, renormalize, sum_from,
  remove_leaf, remove_in, close, unwrap_or, or_some, ids_head,
}
use oakterm.Mux.Ops.Indices.{children_ids-map_weights, size-map_weights}
use oakterm.Mux.Ops.Removal.{
  Without, Without-behind, Without-before, HintIn, AreGrown-map_weights, Without-remove_child,
  HintIn-hint_at, position_leaf-lt,
}
use oakterm.Mux.Ops.Close.Leaves.{present, absent}

unwrap_or-HintIn :
    (hint fallback : Option ℕ) (target : ℕ) (xs : List ℕ)
    → HintIn hint xs
    → Has (unwrap_or (or_some hint fallback) target) xs
unwrap_or-HintIn hint fallback target xs (h, e, within) = rw e within

close_container :
    {W : Type 0} ⦃f : F32 W⦄ (t : LayoutNode W) (target : ℕ)
    → is_leaf t ≡ false
    → contains t target ≡ true
    → (u : LayoutNode W) × (hint : ℕ) × (close t target ≡ ok (u, removed hint))
      × Without target (pane_ids t) (pane_ids u)
      × (IsTiled t → IsTiled u × Has hint (pane_ids u))
unfolding close
close_container (leaf id) target k h = absurd (ground arith)
close_container (container d cs) target k h =
    let (hint, n, gone, good) = present (container d cs) target h k in
    (
      flatten n,
      unwrap_or (or_some hint (ids_head (flatten n))) target,
      rw gone,
      rw (pane_ids-flatten n) good.ids,
      λ t. (
        flatten-IsTiled n (good.grown t),
        rw (pane_ids-flatten n)
            (unwrap_or-HintIn hint (ids_head n) target (pane_ids n) (good.hinted t)),
      ),
    )

module _ {W : Type 0} ⦃f : F32 W⦄ (t : LayoutNode W) (target : ℕ) where
  -- Closing a pane of a tree with several panes succeeds: exactly one occurrence of the pane goes
  -- and all others keep their order. If every container of the tree has at least two children and
  -- none of its own direction, so it is afterwards, and the focus hint is a pane that remains.
  pub close-removed :
      is_leaf t ≡ false
      → contains t target ≡ true
      → (u : LayoutNode W) × (hint : ℕ) × (close t target ≡ ok (u, removed hint))
        × Without target (pane_ids t) (pane_ids u)
        × (IsTiled t → IsTiled u × Has hint (pane_ids u))
  close-removed = close_container t target

err_of_absent :
    {W : Type 0} ⦃f : F32 W⦄ (t : LayoutNode W) (target : ℕ)
    → contains t target ≡ false
    → close t target ≡ err (pane_not_found target)
unfolding close contains
err_of_absent (leaf id) target h = ground arith
err_of_absent (container d cs) target h = rw (absent (container d cs) target h)

last_of_leaf :
    {W : Type 0} ⦃f : F32 W⦄ (t : LayoutNode W) (target : ℕ)
    → is_leaf t ≡ true
    → contains t target ≡ true
    → (close t target ≡ ok (t, last_pane)) × (t ≡ leaf target)
unfolding close contains
last_of_leaf (leaf id) target k h = (ground arith, ap leaf (ground arith))
last_of_leaf (container d cs) target k h = absurd (ground arith)

contains_self :
    {W : Type 0} (t : LayoutNode W) (p : ℕ)
    → t ≡ leaf p
    → (contains t p ≡ true) × (is_leaf t ≡ true)
unfolding contains
contains_self t p e = rw e (==-self p, refl)

abbrev pub Closed : {W : Type 0} → LayoutNode W → ℕ → LayoutNode W → CloseOutcome → Type 0
Closed t target u last_pane = (u ≡ t) × (t ≡ leaf target)
Closed t target u (removed hint) =
    Without target (pane_ids t) (pane_ids u) × (IsTiled t → IsTiled u × Has hint (pane_ids u))

module _ {W : Type 0} ⦃f : F32 W⦄ (t : LayoutNode W) (target : ℕ) where
  -- `close` fails exactly for a pane that is not in the tree, and then with that pane's error.
  pub close-eq-err : (close t target ≡ err (pane_not_found target)) ↔ (¬ Has target (pane_ids t))
  close-eq-err = elim (Bool-cases (contains t target)) [
    | inr gone ↦
        (λ _ k. omega (arith, not_contains t target gone), λ _. err_of_absent t target gone)
    | inl here ↦ (
      λ h. elim (Bool-cases (is_leaf t)) [
        | inl single ↦ absurd (ground (arith, (last_of_leaf t target single here).0))
        | inr branch ↦ absurd (ground (arith, (close_container t target branch here).2))
      ],
      λ h. absurd (h ((contains_iff t target).0 here)),
    )
  ]

  -- `close` reports the last pane, and returns the tree unchanged, exactly when the tree is the leaf
  -- of that pane.
  pub close-last_pane : (close t target ≡ ok (t, last_pane)) ↔ (t ≡ leaf target)
  close-last_pane = (
    λ h. elim (Bool-cases (contains t target)) [
      | inr gone ↦ absurd (ground (arith, err_of_absent t target gone))
      | inl here ↦ elim (Bool-cases (is_leaf t)) [
        | inl single ↦ (last_of_leaf t target single here).1
        | inr branch ↦ absurd (ground (arith, (close_container t target branch here).2))
      ]
    ],
    λ e. let (here, single) = contains_self t target e in (last_of_leaf t target single here).0,
  )

  -- What a close that succeeds has done.
  pub close-eq-ok :
      {u : LayoutNode W} {outcome : CloseOutcome}
      → close t target ≡ ok (u, outcome)
      → Closed t target u outcome
  close-eq-ok {u} {outcome} h = elim (Bool-cases (contains t target)) [
    | inr gone ↦ absurd (ground (arith, err_of_absent t target gone))
    | inl here ↦ elim (Bool-cases (is_leaf t)) [
      | inl single ↦
          let (done, e) = last_of_leaf t target single here in
          let o : last_pane ≡ outcome = ground arith in
          let same : t ≡ u = ground arith in rw (← o, ← same) (refl, e)
      | inr branch ↦
          let (v, hint, done, out, kept) = close_container t target branch here in
          let o : removed hint ≡ outcome = ground arith in
          let same : v ≡ u = ground arith in rw (← o, ← same) (out, kept)
    ]
  ]

  -- A pane of the tree can be closed.
  pub close-total :
      contains t target ≡ true → (r : LayoutNode W × CloseOutcome) × (close t target ≡ ok r)
  close-total here = elim (Bool-cases (is_leaf t)) [
    | inl single ↦ ((t, last_pane), (last_of_leaf t target single here).0)
    | inr branch ↦
        let (u, hint, done, _, _) = close_container t target branch here in
        ((u, removed hint), done)
  ]
