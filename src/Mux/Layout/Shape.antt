-- ===== src/Mux/Layout/Shape.antt =====
-- The layout tree without its weights: what the operations on weights leave as it is.
use oakterm.Prelude.{suc, ◌≡◌, refl, ap, subst, arith}
use oakterm.Mux.Layout.{
  SplitDirection, LayoutNode, Children, leaf, container, nil, cons, size, pane_ids, children_ids,
  Apart,
}
use oakterm.Mux.Layout.Members.{IsTiled, AreTiled}

-- Every weight replaced by the one value of `Unit`.
unfoldable mutual
  pub shape : {W : Type 0} → LayoutNode W → LayoutNode (Unit {0})
  shape (leaf id) = leaf id
  shape (container d cs) = container d (shapes cs)

  pub shapes : {W : Type 0} → Children W → Children (Unit {0})
  shapes nil = nil
  shapes (cons n _ cs) = cons (shape n) tt (shapes cs)

mutual
  unfolding shape pane_ids

  ids : {W : Type 0} (t : LayoutNode W) → pane_ids (shape t) ≡ pane_ids t
  ids (leaf id) = refl
  ids (container d cs) = ids_in cs

  ids_in : {W : Type 0} (cs : Children W) → children_ids (shapes cs) ≡ children_ids cs
  ids_in nil = refl
  ids_in (cons n _ cs) = rw (ids n, ids_in cs)

size-shapes : {W : Type 0} (cs : Children W) → size (shapes cs) ≡ size cs
unfolding shape
size-shapes nil = refl
size-shapes (cons _ _ cs) = ap suc (size-shapes cs)

Apart-shape : {W : Type 0} (d : SplitDirection) (t : LayoutNode W) → Apart d t → Apart d (shape t)
unfolding shape
Apart-shape d (leaf _) h = tt
Apart-shape d (container e cs) h = h

Apart-of_shape :
    {W : Type 0} (d : SplitDirection) (t : LayoutNode W) → Apart d (shape t) → Apart d t
unfolding shape
Apart-of_shape d (leaf _) h = tt
Apart-of_shape d (container e cs) h = h

mutual
  unfolding shape

  tiled : {W : Type 0} (t : LayoutNode W) → IsTiled t → IsTiled (shape t)
  tiled (leaf _) h = tt
  tiled (container d cs) h = (rw (size-shapes cs) h.0, tiled_in d cs h.1)

  tiled_in :
      {W : Type 0} (d : SplitDirection) (cs : Children W) → AreTiled d cs → AreTiled d (shapes cs)
  tiled_in d nil h = tt
  tiled_in d (cons n _ cs) h = (Apart-shape d n h.0, tiled n h.1, tiled_in d cs h.2)

mutual
  unfolding shape

  untiled : {W : Type 0} (t : LayoutNode W) → IsTiled (shape t) → IsTiled t
  untiled (leaf _) h = tt
  untiled (container d cs) h = (omega (arith, size-shapes cs, h.0), untiled_in d cs h.1)

  untiled_in :
      {W : Type 0} (d : SplitDirection) (cs : Children W) → AreTiled d (shapes cs) → AreTiled d cs
  untiled_in d nil h = tt
  untiled_in d (cons n _ cs) h = (Apart-of_shape d n h.0, untiled n h.1, untiled_in d cs h.2)

module _ {W : Type 0} (t u : LayoutNode W) (same : shape t ≡ shape u) where
  pub pane_ids_of_shape : pane_ids t ≡ pane_ids u
  pane_ids_of_shape = rw (← ids t, ← ids u) (ap pane_ids same)

  pub IsTiled-of_shape : IsTiled t → IsTiled u
  IsTiled-of_shape h = untiled u (subst IsTiled same (tiled t h))
