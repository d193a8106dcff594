-- ===== src/Mux/Layout/Tiled.antt =====
-- `flatten` of layout.rs on a tree that lost a leaf: where no container is empty, the result has at
-- least two children in every container.
use oakterm.Prelude.{
  ℕ, suc, ◌+◌, ◌≤◌, ◌≡◌, refl, subst, List, [], ◌∷◌, ◌++◌, some, head?, last?, arith, Bool-cases,
  inl, inr,
}
use oakterm.F32.{F32}
use oakterm.Mux.Layout.{
  SplitDirection, LayoutNode, Children, leaf, container, nil, cons, same_direction, size, join,
  scale, push_flat, collapse, pane_ids, children_ids, flatten, flatten_children,
}
use oakterm.Mux.Layout.Flatten.{same_direction-eq}
use oakterm.Mux.Layout.Members.{IsTiled, AreTiled}

-- No container is empty.
abbrev mutual
  pub IsGrown : {W : Type 0} → LayoutNode W → Type 0
  IsGrown (leaf _) = Unit {0}
  IsGrown (container d cs) = (1 ≤ size cs) × AreGrown cs

  pub AreGrown : {W : Type 0} → Children W → Type 0
  AreGrown nil = Unit {0}
  AreGrown (cons n _ cs) = IsGrown n × AreGrown cs

mutual
  pub IsGrown-of_IsTiled : {W : Type 0} (t : LayoutNode W) → IsTiled t → IsGrown t
  IsGrown-of_IsTiled (leaf _) h = tt
  IsGrown-of_IsTiled (container d cs) h = (omega (arith, h.0), AreGrown-of_AreTiled d cs h.1)

  pub AreGrown-of_AreTiled :
      {W : Type 0} (d : SplitDirection) (cs : Children W) → AreTiled d cs → AreGrown cs
  AreGrown-of_AreTiled d nil h = tt
  AreGrown-of_AreTiled d (cons n w cs) h = (IsGrown-of_IsTiled n h.1, AreGrown-of_AreTiled d cs h.2)

mutual
  unfolding pane_ids

  pub pane_ids-cons :
      {W : Type 0} (t : LayoutNode W) → IsGrown t → (x : ℕ) × (xs : List ℕ) × (pane_ids t ≡ x ∷ xs)
  pane_ids-cons (leaf id) h = (id, [], refl)
  pane_ids-cons (container d cs) h = children_ids-cons cs h.0 h.1

  children_ids-cons :
      {W : Type 0} (cs : Children W)
      → 1 ≤ size cs
      → AreGrown cs
      → (x : ℕ) × (xs : List ℕ) × (children_ids cs ≡ x ∷ xs)
  children_ids-cons nil h k = absurd (omega arith)
  children_ids-cons (cons n w cs) h k =
      let (x, xs, e) = pane_ids-cons n k.0 in (x, xs ++ children_ids cs, rw e)

last?-cons : (x : ℕ) (xs : List ℕ) → (y : ℕ) × (last? (x ∷ xs) ≡ some y)
last?-cons x [] = (x, refl)
last?-cons x (y ∷ xs) = last?-cons y xs

module _ {W : Type 0} (t : LayoutNode W) (grown : IsGrown t) where
  pub head?-pane_ids : (x : ℕ) × (head? (pane_ids t) ≡ some x)
  head?-pane_ids = let (x, xs, e) = pane_ids-cons t grown in (x, rw e)

  pub last?-pane_ids : (x : ℕ) × (last? (pane_ids t) ≡ some x)
  last?-pane_ids =
      let (x, xs, e) = pane_ids-cons t grown in let (y, at) = last?-cons x xs in (y, rw e at)

module _ {W : Type 0} ⦃f : F32 W⦄ where
  AreTiled-join :
      (d : SplitDirection) (w : W) (cs ds : Children W)
      → AreTiled d cs
      → AreTiled d ds
      → AreTiled d (join (scale w cs) ds)
  AreTiled-join d w nil ds h k = k
  AreTiled-join d w (cons n v cs) ds (a, b, h) k = (a, b, AreTiled-join d w cs ds h k)

  size-join : (w : W) (cs ds : Children W) → size (join (scale w cs) ds) ≡ size cs + size ds
  size-join w nil ds = omega arith
  size-join w (cons n v cs) ds = omega (arith, size-join w cs ds)

  push_flat-AreTiled :
      (d : SplitDirection) (n : LayoutNode W) (w : W) (cs : Children W)
      → IsTiled n
      → AreTiled d cs
      → AreTiled d (push_flat d n w cs) × (suc (size cs) ≤ size (push_flat d n w cs))
  push_flat-AreTiled d (leaf id) w cs h k = ((tt, tt, k), omega arith)
  push_flat-AreTiled d (container e inner) w cs (many, h) k =
      elim (Bool-cases (same_direction e d)) [
        | inl same ↦ rw same (
          AreTiled-join d w inner cs (subst (λ x. AreTiled x inner) (same_direction-eq e d same) h)
              k,
          omega (arith, size-join w inner cs),
        )
        | inr other ↦ rw other ((other, (many, h), k), omega arith)
      ]

  collapse-IsTiled :
      (d : SplitDirection) (cs : Children W) → 1 ≤ size cs → AreTiled d cs → IsTiled (collapse d cs)
  collapse-IsTiled d nil h k = absurd (omega arith)
  collapse-IsTiled d (cons n w nil) h k = k.1
  collapse-IsTiled d (cons n w (cons m v cs)) h k = (omega arith, k)

mutual
  unfolding flatten

  tiles : {W : Type 0} ⦃f : F32 W⦄ (t : LayoutNode W) → IsGrown t → IsTiled (flatten t)
  tiles (leaf id) h = tt
  tiles (container d cs) h =
      let (k, more) = tiles_children d cs h.1 in
      collapse-IsTiled d (flatten_children d cs) (omega (arith, h.0, more)) k

  tiles_children :
      {W : Type 0} ⦃f : F32 W⦄ (d : SplitDirection) (cs : Children W)
      → AreGrown cs
      → AreTiled d (flatten_children d cs) × (size cs ≤ size (flatten_children d cs))
  tiles_children d nil h = (tt, omega arith)
  tiles_children d (cons n w cs) h =
      let (k, more) = tiles_children d cs h.1 in
      let (a, b) = push_flat-AreTiled d (flatten n) w (flatten_children d cs) (tiles n h.0) k in
      (a, omega (arith, more, b))

-- On a tree with no empty container, `flatten` leaves at least two children in every container and
-- no container directly inside one of its own direction.
pub flatten-IsTiled : {W : Type 0} ⦃f : F32 W⦄ (t : LayoutNode W) → IsGrown t → IsTiled (flatten t)
flatten-IsTiled t h = tiles t h
