-- ===== src/Mux/Layout/Flatten.antt =====
-- `flatten` of layout.rs: what it restores and what it keeps.
use oakterm.Prelude.{
  ◌≡◌, refl, ap, sym, subst, ◌∙◌, ◌++◌, append_assoc, append-nil, arith, Bool-cases, inl, inr, true,
  ◌≢◌,
}
use oakterm.F32.{F32}
use oakterm.Mux.Layout.{
  SplitDirection, LayoutNode, Children, leaf, container, nil, cons, same_direction, size, join,
  scale, push_flat, collapse, pane_ids, children_ids, flatten, flatten_children, Apart, IsFlat,
  AreFlat,
}

pub same_direction-eq : (d e : SplitDirection) → same_direction d e ≡ true → d ≡ e
same_direction-eq d e h = ground arith

module _ {W : Type 0} where
  pub children_ids-join :
      (cs ds : Children W) → children_ids (join cs ds) ≡ children_ids cs ++ children_ids ds
  unfolding pane_ids
  children_ids-join nil ds = refl
  children_ids-join (cons n w cs) ds = simp (children_ids-join cs ds, append_assoc)

  AreFlat-join :
      (d : SplitDirection) (cs ds : Children W)
      → AreFlat d cs
      → AreFlat d ds
      → AreFlat d (join cs ds)
  AreFlat-join d nil ds h k = k
  AreFlat-join d (cons n w cs) ds (a, b, h) k = (a, b, AreFlat-join d cs ds h k)

module _ {W : Type 0} ⦃f : F32 W⦄ where
  children_ids-scale : (w : W) (cs : Children W) → children_ids (scale w cs) ≡ children_ids cs
  unfolding pane_ids
  children_ids-scale w nil = refl
  children_ids-scale w (cons n v cs) = ap (λ l. pane_ids n ++ l) (children_ids-scale w cs)

  AreFlat-scale :
      (d : SplitDirection) (w : W) (cs : Children W) → AreFlat d cs → AreFlat d (scale w cs)
  AreFlat-scale d w nil h = tt
  AreFlat-scale d w (cons n v cs) (a, b, h) = (a, b, AreFlat-scale d w cs h)

  children_ids-push_flat :
      (d : SplitDirection) (n : LayoutNode W) (w : W) (cs : Children W)
      → children_ids (push_flat d n w cs) ≡ pane_ids n ++ children_ids cs
  unfolding pane_ids
  children_ids-push_flat d (leaf id) w cs = refl
  children_ids-push_flat d (container e inner) w cs = elim (Bool-cases (same_direction e d)) [
    | inl same ↦ rw same (simp (children_ids-join (scale w inner) cs, children_ids-scale))
    | inr other ↦ rw other
  ]

  AreFlat-push_flat :
      (d : SplitDirection) (n : LayoutNode W) (w : W) (cs : Children W)
      → IsFlat n
      → AreFlat d cs
      → AreFlat d (push_flat d n w cs)
  AreFlat-push_flat d (leaf id) w cs h k = (tt, tt, k)
  AreFlat-push_flat d (container e inner) w cs (many, h) k =
      elim (Bool-cases (same_direction e d)) [
        | inl same ↦ rw same (
            AreFlat-join d (scale w inner) cs
              (AreFlat-scale d w inner
                (subst (λ x. AreFlat x inner) (same_direction-eq e d same) h))
              k)
        | inr other ↦ rw other (other, (many, h), k)
      ]

  pane_ids-collapse :
      (d : SplitDirection) (cs : Children W) → pane_ids (collapse d cs) ≡ children_ids cs
  unfolding pane_ids
  pane_ids-collapse d nil = refl
  pane_ids-collapse d (cons n w nil) = sym (append-nil (pane_ids n))
  pane_ids-collapse d (cons n w (cons m v cs)) = refl

  IsFlat-collapse : (d : SplitDirection) (cs : Children W) → AreFlat d cs → IsFlat (collapse d cs)
  IsFlat-collapse d nil h = (omega arith, tt)
  IsFlat-collapse d (cons n w nil) (_, h, _) = h
  IsFlat-collapse d (cons n w (cons m v cs)) h = (omega arith, h)

mutual
  unfolding flatten pane_ids

  ids-flatten : {W : Type 0} ⦃f : F32 W⦄ (t : LayoutNode W) → pane_ids (flatten t) ≡ pane_ids t
  ids-flatten (leaf id) = refl
  ids-flatten (container d cs) =
      pane_ids-collapse d (flatten_children d cs) ∙ ids-flatten_children d cs

  ids-flatten_children :
      {W : Type 0} ⦃f : F32 W⦄ (d : SplitDirection) (cs : Children W)
      → children_ids (flatten_children d cs) ≡ children_ids cs
  ids-flatten_children d nil = refl
  ids-flatten_children d (cons n w cs) =
      simp (children_ids-push_flat d, ids-flatten n, ids-flatten_children d cs)

mutual
  unfolding flatten

  restores : {W : Type 0} ⦃f : F32 W⦄ (t : LayoutNode W) → IsFlat (flatten t)
  restores (leaf id) = tt
  restores (container d cs) = IsFlat-collapse d (flatten_children d cs) (restores_children d cs)

  restores_children :
      {W : Type 0} ⦃f : F32 W⦄ (d : SplitDirection) (cs : Children W)
      → AreFlat d (flatten_children d cs)
  restores_children d nil = tt
  restores_children d (cons n w cs) =
      AreFlat-push_flat d (flatten n) w (flatten_children d cs) (restores n)
        (restores_children d cs)

module _ {W : Type 0} ⦃f : F32 W⦄ where
  collapse_many :
      (d : SplitDirection) (cs : Children W) → size cs ≢ 1 → collapse d cs ≡ container d cs
  collapse_many d nil h = refl
  collapse_many d (cons n w nil) h = absurd (h refl)
  collapse_many d (cons n w (cons m v cs)) h = refl

  push_flat-Apart :
      (d : SplitDirection) (n : LayoutNode W) (w : W) (cs : Children W)
      → Apart d n
      → push_flat d n w cs ≡ cons n w cs
  push_flat-Apart d (leaf id) w cs h = refl
  push_flat-Apart d (container e inner) w cs h = rw h

mutual
  unfolding flatten

  keeps : {W : Type 0} ⦃f : F32 W⦄ (t : LayoutNode W) → IsFlat t → flatten t ≡ t
  keeps (leaf id) h = refl
  keeps (container d cs) h = rw (keeps_children d cs h.1) (collapse_many d cs h.0)

  keeps_children :
      {W : Type 0} ⦃f : F32 W⦄ (d : SplitDirection) (cs : Children W)
      → AreFlat d cs
      → flatten_children d cs ≡ cs
  keeps_children d nil h = refl
  keeps_children d (cons n w cs) h =
      rw (keeps n h.1, keeps_children d cs h.2) (push_flat-Apart d n w cs h.0)

module _ {W : Type 0} ⦃f : F32 W⦄ (t : LayoutNode W) where
  -- Flattening keeps every pane, in its place in the left-to-right order.
  pub pane_ids-flatten : pane_ids (flatten t) ≡ pane_ids t
  pane_ids-flatten = ids-flatten t

  -- The flattened tree is in the structural canonical form: no container in it has exactly one
  -- child, and none is a direct child of a container of its own direction.
  pub flatten-IsFlat : IsFlat (flatten t)
  flatten-IsFlat = restores t

  -- On a tree that is in the structural canonical form, flattening changes nothing, the weights
  -- included.
  pub flatten_of_IsFlat : IsFlat t → flatten t ≡ t
  flatten_of_IsFlat h = keeps t h

  -- Flattening twice is flattening once.
  pub flatten-flatten : flatten (flatten t) ≡ flatten t
  flatten-flatten = keeps (flatten t) (restores t)
