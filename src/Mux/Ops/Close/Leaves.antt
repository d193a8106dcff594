-- ===== src/Mux/Ops/Close/Leaves.antt =====
-- ops.rs: `remove_leaf` on a tree that has the pane, and on one that has not.
use oakterm.Prelude.{
  ℕ, suc, ◌≡◌, refl, ap, arith, true, false, ◌&&◌, inl, inr, Bool-cases, Option, some, none,
  Option-cases,
}
use oakterm.Prelude.Counts.{count-append}
use oakterm.F32.{F32}
use oakterm.Mux.Layout.{
  SplitDirection, LayoutNode, Children, leaf, container, nil, cons, size, pane_ids, children_ids,
  contains, any_contains, is_leaf,
}
use oakterm.Mux.Layout.Members.{IsTiled, AreTiled}
use oakterm.Mux.Layout.Tiled.{IsGrown, AreGrown, IsGrown-of_IsTiled, AreGrown-of_AreTiled}
use oakterm.Mux.Geometry.{is_leaf_of, position_leaf}
use oakterm.Mux.Ops.{
  remove_child, hint_at, not_found, found, renormalize, sum_from, remove_leaf, remove_in,
}
use oakterm.Mux.Ops.Indices.{children_ids-map_weights, size-map_weights}
use oakterm.Mux.Ops.Removal.{
  Without, Without-behind, Without-before, HintIn, AreGrown-map_weights, Without-remove_child,
  HintIn-hint_at, position_leaf-lt,
}

-- What a removal promises of a node; its hint is only sure in a tree with two children everywhere.
pub record Removes {W : Type 0} (target : ℕ) (t u : LayoutNode W) (hint : Option ℕ) : Type 0 where
  pub ids : Without target (pane_ids t) (pane_ids u)
  pub grown : IsTiled t → IsGrown u
  pub hinted : IsTiled t → HintIn hint (pane_ids u)

record RemovesIn {W : Type 0} (target : ℕ) (cs ds : Children W) (hint : Option ℕ) : Type 0 where
  pub ids : Without target (children_ids cs) (children_ids ds)
  same : size ds ≡ size cs
  pub grown : (d : SplitDirection) → AreTiled d cs → AreGrown ds
  pub hinted : (d : SplitDirection) → AreTiled d cs → HintIn hint (children_ids ds)

module _ {W : Type 0} ⦃f : F32 W⦄ where
  renormalize_keeps :
      (cs : Children W)
      → (children_ids (renormalize cs) ≡ children_ids cs)
        × (size (renormalize cs) ≡ size cs)
        × (AreGrown cs → AreGrown (renormalize cs))
  unfolding renormalize
  renormalize_keeps cs =
      elim (Bool-cases
        (f.is_finite (sum_from (f.of_ℕ 0) cs) && f.lt (f.of_ℕ 0) (sum_from (f.of_ℕ 0) cs))) [
          | inl good ↦
              rw good
                (children_ids-map_weights _ cs, size-map_weights _ cs, AreGrown-map_weights _ cs)
          | inr bad ↦
              rw bad
                (children_ids-map_weights _ cs, size-map_weights _ cs, AreGrown-map_weights _ cs)
        ]

  Removes-here :
      (d : SplitDirection) (cs : Children W) (target i : ℕ)
      → position_leaf cs target ≡ some i
      → Removes target
          (container d cs)
          (container d (renormalize (remove_child cs i)))
          (hint_at cs i)
  unfolding pane_ids
  Removes-here d cs target i at =
      let (out, less, grown) = Without-remove_child cs target i at in
      let (same, size', grown') = renormalize_keeps (remove_child cs i) in
      record {
        ids = rw same out;
        grown =
            λ t. (omega (arith, less, size', t.0), grown' (grown (AreGrown-of_AreTiled d cs t.1)));
        hinted = λ t. rw same (
            HintIn-hint_at cs i (AreGrown-of_AreTiled d cs t.1) t.0
              (position_leaf-lt cs target i at));
      }

  Removes-inside :
      (d : SplitDirection) (cs ds : Children W) (target : ℕ) (hint : Option ℕ)
      → RemovesIn target cs ds hint
      → Removes target (container d cs) (container d ds) hint
  unfolding pane_ids
  Removes-inside d cs ds target hint r = record {
    ids = r.ids;
    grown = λ t. (omega (arith, r.same, t.0), r.grown d t.1);
    hinted = λ t. r.hinted d t.1;
  }

  RemovesIn-first :
      (n m : LayoutNode W) (w : W) (cs : Children W) (target : ℕ) (hint : Option ℕ)
      → Removes target n m hint
      → RemovesIn target (cons n w cs) (cons m w cs) hint
  unfolding pane_ids
  RemovesIn-first n m w cs target hint r = record {
    ids = Without-before (children_ids cs) r.ids;
    same = refl;
    grown = λ d t. (r.grown t.1, AreGrown-of_AreTiled d cs t.2);
    hinted = λ d t.
        let (h, e, within) = r.hinted t.1 in
        (h, e, omega (arith, count-append h (pane_ids m) (children_ids cs), within));
  }

  RemovesIn-later :
      (n : LayoutNode W) (w : W) (cs ds : Children W) (target : ℕ) (hint : Option ℕ)
      → RemovesIn target cs ds hint
      → RemovesIn target (cons n w cs) (cons n w ds) hint
  unfolding pane_ids
  RemovesIn-later n w cs ds target hint r = record {
    ids = Without-behind (pane_ids n) r.ids;
    same = ap suc r.same;
    grown = λ d t. (IsGrown-of_IsTiled n t.1, r.grown d t.2);
    hinted = λ d t.
        let (h, e, within) = r.hinted d t.2 in
        (h, e, omega (arith, count-append h (pane_ids n) (children_ids ds), within));
  }

  not_leaf_of :
      (n : LayoutNode W) (target : ℕ)
      → is_leaf_of n target ≡ false
      → contains n target ≡ true
      → is_leaf n ≡ false
  unfolding contains
  not_leaf_of (leaf id) target h k = absurd (ground arith)
  not_leaf_of (container d cs) target h k = refl

elsewhere :
    {W : Type 0} (n : LayoutNode W) (target : ℕ)
    → contains n target ≡ false
    → is_leaf_of n target ≡ false
unfolding contains
elsewhere (leaf id) target h = h
elsewhere (container d cs) target h = refl

mutual
  unfolding remove_leaf contains

  pub absent :
      {W : Type 0} ⦃f : F32 W⦄ (t : LayoutNode W) (target : ℕ)
      → contains t target ≡ false
      → remove_leaf t target ≡ not_found
  absent (leaf _) target h = refl
  absent (container d cs) target h = ground (arith, absent_in cs target h)

  absent_in :
      {W : Type 0} ⦃f : F32 W⦄ (cs : Children W) (target : ℕ)
      → any_contains cs target ≡ false
      → (position_leaf cs target ≡ none) × (remove_in cs target ≡ not_found)
  absent_in nil target h = (refl, refl)
  absent_in (cons n w cs) target h =
      let (later, gone) = absent_in cs target (ground arith) in
      let first = absent n target (ground arith) in
      (ground (arith, elsewhere n target (ground arith), later), ground (arith, first, gone))

mutual
  unfolding remove_leaf contains

  pub present :
      {W : Type 0} ⦃f : F32 W⦄ (t : LayoutNode W) (target : ℕ)
      → contains t target ≡ true
      → is_leaf t ≡ false
      → (hint : Option ℕ) × (u : LayoutNode W) × (remove_leaf t target ≡ found hint u)
        × Removes target t u hint
  present (leaf _) target h k = absurd (ground arith)
  present (container d cs) target h k = elim (Option-cases (position_leaf cs target)) [
    | inr (i, at) ↦ (
      hint_at cs i,
      container d (renormalize (remove_child cs i)),
      ground arith,
      Removes-here d cs target i at,
    )
    | inl nowhere ↦
        let (hint, ds, gone, good) = present_in cs target h nowhere in
        (hint, container d ds, ground arith, Removes-inside d cs ds target hint good)
  ]

  present_in :
      {W : Type 0} ⦃f : F32 W⦄ (cs : Children W) (target : ℕ)
      → any_contains cs target ≡ true
      → position_leaf cs target ≡ none
      → (hint : Option ℕ) × (ds : Children W) × (remove_in cs target ≡ found hint ds)
        × RemovesIn target cs ds hint
  present_in nil target h k = absurd (ground arith)
  present_in (cons n w cs) target h k = elim (Bool-cases (contains n target)) [
    | inl here ↦
        let branch = not_leaf_of n target (ground arith) here in
        let (hint, m, gone, good) = present n target here branch in
        (hint, cons m w cs, ground arith, RemovesIn-first n m w cs target hint good)
    | inr other ↦
        let (hint, ds, gone, good) = present_in cs target (ground arith) (ground arith) in
        (
          hint,
          cons n w ds,
          ground (arith, absent n target other),
          RemovesIn-later n w cs ds target hint good,
        )
  ]
