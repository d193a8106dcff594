-- ===== src/Mux/Ops/Indices.antt =====
-- ops.rs: reading, changing and removing a child at an index.
use oakterm.Prelude.{
  ℕ, zero, suc, ◌≡◌, refl, ap, sym, List, [], ◌∷◌, ◌++◌, append_assoc, arith, true,
}
use oakterm.Mux.Outcome.{ok}
use oakterm.Mux.Layout.{
  SplitDirection, LayoutNode, Children, leaf, container, nil, cons, size, pane_ids, children_ids,
  Apart,
}
use oakterm.Mux.Layout.Members.{IsTiled, AreTiled}
use oakterm.Mux.Geometry.{is_leaf_of, node_get}
use oakterm.Mux.Ops.{node_set, map_weights}

-- The panes of the children around the one at an index, which a change of that one leaves alone.
pub record Around {W : Type 0} (cs : Children W) (i : ℕ) (n : LayoutNode W) : Type 0 where
  pub before : List ℕ
  pub after : List ℕ
  pub here : children_ids cs ≡ before ++ (pane_ids n ++ after)
  pub there : (m : LayoutNode W) → children_ids (node_set cs i m) ≡ before ++ (pane_ids m ++ after)

module _ {W : Type 0} where
  pub Around-of_get :
      (cs : Children W) (i : ℕ) {n : LayoutNode W} → node_get cs i ≡ ok n → Around cs i n
  unfolding pane_ids
  Around-of_get nil i h = absurd (ground arith)
  Around-of_get (cons m w cs) zero {n} h = record {
    before = [];
    after = children_ids cs;
    here = let e : m ≡ n = ground arith in rw e;
    there = λ k. refl;
  }
  Around-of_get (cons m w cs) (suc i) {n} h =
      let a = Around-of_get cs i {n = n} h in
      record {
        before = pane_ids m ++ a.before;
        after = a.after;
        here = rw (a.here) (sym (append_assoc (pane_ids m) a.before _));
        there = λ k. rw (a.there k) (sym (append_assoc (pane_ids m) a.before _));
      }

  pub size-node_set :
      (cs : Children W) (i : ℕ) (m : LayoutNode W) → size (node_set cs i m) ≡ size cs
  size-node_set nil i m = refl
  size-node_set (cons n w cs) zero m = refl
  size-node_set (cons n w cs) (suc i) m = ap suc (size-node_set cs i m)

  pub AreTiled-get :
      (d : SplitDirection) (cs : Children W) (i : ℕ) {n : LayoutNode W}
      → AreTiled d cs
      → node_get cs i ≡ ok n
      → Apart d n × IsTiled n
  AreTiled-get d nil i t h = absurd (ground arith)
  AreTiled-get d (cons m w cs) zero {n} (a, b, t) h =
      let e : m ≡ n = ground arith in (rw (← e) a, rw (← e) b)
  AreTiled-get d (cons m w cs) (suc i) (a, b, t) h = AreTiled-get d cs i t h

  pub AreTiled-node_set :
      (d : SplitDirection) (cs : Children W) (i : ℕ) (m : LayoutNode W)
      → AreTiled d cs
      → Apart d m
      → IsTiled m
      → AreTiled d (node_set cs i m)
  AreTiled-node_set d nil i m t a b = tt
  AreTiled-node_set d (cons n w cs) zero m (_, _, t) a b = (a, b, t)
  AreTiled-node_set d (cons n w cs) (suc i) m (x, y, t) a b =
      (x, y, AreTiled-node_set d cs i m t a b)

  pub AreTiled-map_weights :
      (d : SplitDirection) (g : W → W) (cs : Children W)
      → AreTiled d cs
      → AreTiled d (map_weights g cs)
  AreTiled-map_weights d g nil t = tt
  AreTiled-map_weights d g (cons n w cs) (a, b, t) = (a, b, AreTiled-map_weights d g cs t)

  pub children_ids-map_weights :
      (g : W → W) (cs : Children W) → children_ids (map_weights g cs) ≡ children_ids cs
  unfolding pane_ids
  children_ids-map_weights g nil = refl
  children_ids-map_weights g (cons n w cs) =
      ap (λ l. pane_ids n ++ l) (children_ids-map_weights g cs)

  pub size-map_weights : (g : W → W) (cs : Children W) → size (map_weights g cs) ≡ size cs
  size-map_weights g nil = refl
  size-map_weights g (cons n w cs) = ap suc (size-map_weights g cs)

  -- The leaf that `position_leaf` finds.
  pub pane_ids_of_leaf : (n : LayoutNode W) (p : ℕ) → is_leaf_of n p ≡ true → pane_ids n ≡ p ∷ []
  unfolding pane_ids
  pane_ids_of_leaf (leaf id) p h = ap (λ x. x ∷ []) (ground arith)
  pane_ids_of_leaf (container d cs) p h = absurd (ground arith)
