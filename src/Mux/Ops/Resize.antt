-- ===== src/Mux/Ops/Resize.antt =====
-- crates/oakterm-mux/src/ops.rs: resize.
use oakterm.Prelude.{
  ℕ, zero, suc, ◌≡◌, refl, ap, ◌∙◌, ◌⊎◌, inl, inr, true, false, not, ◌&&◌, ◌||◌, List, [], ◌∷◌,
  if◌then◌else◌, Bool-cases, arith,
}
use oakterm.F32.{F32}
use oakterm.Mux.Outcome.{
  Outcome, ok, err, panicked, LayoutError, pane_not_found, not_adjacent_siblings,
  invalid_resize_param, ◌>>=◌, >>=-eq-ok, if-eq-ok,
}
use oakterm.Mux.Layout.{SplitDirection, LayoutNode, Children, leaf, container, nil, cons, contains}
use oakterm.Mux.Layout.Shape.{shape, shapes}
use oakterm.Mux.Geometry.{node_get, weight_get}
use oakterm.Mux.Geometry.Borders.{BorderExtents, along, locate_border, border_extents}
use oakterm.Mux.Geometry.Borders.Acceptance.{
  Lands, locate_border_total, extent_total, weight_of_lt, pane_rect_of_contains,
}
use oakterm.Mux.Ops.{change_at, renormalize, sum_from, map_weights, node_set}

module _ {W : Type 0} where
  -- `children[i].weight = w`
  abbrev pub weight_set : Children W → ℕ → W → Children W
  weight_set nil i v = nil
  weight_set (cons n w cs) zero v = cons n v cs
  weight_set (cons n w cs) (suc i) v = cons n w (weight_set cs i v)

module _ {W : Type 0} ⦃f : F32 W⦄ where
  open f use {of_ℕ, literal, add, sub, neg, lt, le, is_finite, maximum}

  abbrev pub min_sibling_weight : W
  min_sibling_weight = literal 1 4

  abbrev pub clamped : W → W → W → W
  clamped x lo hi = let y = if lt x lo then lo else x in if lt hi y then hi else y

  -- `f32::clamp`, which panics unless `lo <= hi`.
  abbrev pub clamp : W → W → W → Outcome W
  clamp x lo hi = if le lo hi then ok (clamped x lo hi) else panicked

  -- The two weights moved and all of them scaled again.
  abbrev pub adjust : SplitDirection → Children W → ℕ → ℕ → W → W → W → LayoutNode W
  adjust d cs pane_idx neighbor_idx grow shrink applied =
      let first = weight_set cs pane_idx (add grow applied) in
      container d (renormalize (weight_set first neighbor_idx (sub shrink applied)))

  abbrev pub room : W → W → W
  room weight floor = maximum (sub weight floor) (of_ℕ 0)

  abbrev pub move_border : W → W → ℕ → ℕ → LayoutNode W → Outcome (LayoutNode W)
  move_border delta min_weight pane_idx neighbor_idx (leaf _) = panicked
  move_border delta min_weight pane_idx neighbor_idx (container d cs) =
      let floor = maximum min_weight min_sibling_weight in
      weight_get cs pane_idx >>= λ grow. weight_get cs neighbor_idx >>= λ shrink.
      clamp delta (neg (room grow floor)) (room shrink floor) >>= λ applied.
      ok (adjust d cs pane_idx neighbor_idx grow shrink applied)

  abbrev pub resize_at_border : LayoutNode W → ℕ → ℕ → W → W → Outcome (LayoutNode W)
  resize_at_border t pane neighbor delta min_weight = locate_border t pane neighbor >>= λ b.
      change_at t b.path (move_border delta min_weight b.pane_idx b.neighbor_idx)

  unfoldable pub resize : LayoutNode W → ℕ → ℕ → W → W → Outcome (LayoutNode W)
  resize t pane neighbor delta min_weight =
      if not (is_finite delta) || not (is_finite min_weight) || lt min_weight (of_ℕ 0)
      then err invalid_resize_param
      else if not (contains t pane)
      then err (pane_not_found pane)
      else if not (contains t neighbor)
      then err (pane_not_found neighbor)
      else resize_at_border t pane neighbor delta min_weight

-- What IEEE arithmetic gives, whatever the two numbers are: `max` against zero drops a NaN and
-- leaves nothing negative, so the lower end of the clamp is not above its upper end.
abbrev pub ClampOrder : (W : Type 0) ⦃f : F32 W⦄ → Type 0
ClampOrder W ⦃f⦄ = (x y : W) → f.le (f.neg (f.maximum x (f.of_ℕ 0))) (f.maximum y (f.of_ℕ 0)) ≡ true

module _ {W : Type 0} where
  shapes-weight_set : (cs : Children W) (i : ℕ) (w : W) → shapes (weight_set cs i w) ≡ shapes cs
  unfolding shape
  shapes-weight_set nil i w = refl
  shapes-weight_set (cons n v cs) zero w = refl
  shapes-weight_set (cons n v cs) (suc i) w = ap (cons (shape n) tt) (shapes-weight_set cs i w)

  shapes-map_weights : (g : W → W) (cs : Children W) → shapes (map_weights g cs) ≡ shapes cs
  unfolding shape
  shapes-map_weights g nil = refl
  shapes-map_weights g (cons n v cs) = ap (cons (shape n) tt) (shapes-map_weights g cs)

  shapes-node_set :
      (cs : Children W) (i : ℕ) (n m : LayoutNode W)
      → node_get cs i ≡ ok n
      → shape m ≡ shape n
      → shapes (node_set cs i m) ≡ shapes cs
  unfolding shape
  shapes-node_set nil i n m at e = refl
  shapes-node_set (cons x v cs) zero n m at e = let same : x ≡ n = ground arith in rw (same, e)
  shapes-node_set (cons x v cs) (suc i) n m at e =
      ap (cons (shape x) tt) (shapes-node_set cs i n m at e)

module _ {W : Type 0} ⦃f : F32 W⦄ where
  shapes-renormalize : (cs : Children W) → shapes (renormalize cs) ≡ shapes cs
  unfolding renormalize
  shapes-renormalize cs =
      elim (Bool-cases
        (f.is_finite (sum_from (f.of_ℕ 0) cs) && f.lt (f.of_ℕ 0) (sum_from (f.of_ℕ 0) cs))) [
          | inl good ↦ rw good (shapes-map_weights _ cs)
          | inr bad ↦ rw bad (shapes-map_weights _ cs)
        ]

  shape-adjust :
      (d : SplitDirection) (cs : Children W) (i j : ℕ) (grow shrink applied : W)
      → shape (adjust d cs i j grow shrink applied) ≡ shape (container d cs)
  unfolding shape
  shape-adjust d cs i j grow shrink applied =
      let first = weight_set cs i (f.add grow applied) in
      ap (container d) (
        shapes-renormalize (weight_set first j (f.sub shrink applied))
        ∙ shapes-weight_set first j (f.sub shrink applied)
        ∙ shapes-weight_set cs i (f.add grow applied))

  module _ (order : ClampOrder W) (delta min_weight : W) where
    moves :
        (i j : ℕ) (t : LayoutNode W)
        → Lands [] i j t
        → (u : LayoutNode W) × (move_border delta min_weight i j t ≡ ok u) × (shape u ≡ shape t)
    unfolding shape
    moves i j (leaf _) h = absurd h
    moves i j (container d cs) h =
        let floor = f.maximum min_weight min_sibling_weight in
        let (grow, first) = weight_of_lt cs i h.0 in
        let (shrink, second) = weight_of_lt cs j h.1 in
        let applied = clamped delta (f.neg (room grow floor)) (room shrink floor) in
        (
          adjust d cs i j grow shrink applied,
          rw (first, second, order (f.sub grow floor) (f.sub shrink floor)),
          shape-adjust d cs i j grow shrink applied,
        )

    changes :
        (path : List ℕ) (i j : ℕ) (t : LayoutNode W)
        → Lands path i j t
        → (u : LayoutNode W) × (change_at t path (move_border delta min_weight i j) ≡ ok u)
          × (shape u ≡ shape t)
    unfolding change_at shape
    changes [] i j t h = moves i j t h
    changes (k ∷ path) i j (leaf _) h = absurd h
    changes (k ∷ path) i j (container d cs) (n, at, h) =
        let (m, done, same) = changes path i j n h in
        (
          container d (node_set cs k m),
          rw (at, done),
          ap (container d) (shapes-node_set cs k n m at same),
        )

    -- The parameters that `resize` accepts.
    abbrev IsResizeParam : Type 0
    IsResizeParam =
        (f.is_finite delta ≡ true)
        × (f.is_finite min_weight ≡ true)
        × (f.lt min_weight (f.of_ℕ 0) ≡ false)

    resize-located :
        (t : LayoutNode W) (p q : ℕ)
        → IsResizeParam
        → contains t p ≡ true
        → contains t q ≡ true
        → ((u : LayoutNode W) × (b : BorderExtents W) × (resize t p q delta min_weight ≡ ok u)
            × (border_extents t p q ≡ ok b)
            × (shape u ≡ shape t))
          ⊎ ((resize t p q delta min_weight ≡ err (not_adjacent_siblings p q))
              × (border_extents t p q ≡ err (not_adjacent_siblings p q)))
    unfolding resize border_extents
    resize-located t p q (a, b, c) h k = elim (locate_border_total t p q h k) [
      | inr away ↦ inr (rw (a, b, c, h, k, away), rw (h, k, away))
      | inl (border, at, lands) ↦
          let (u, done, same) = changes border.path border.pane_idx border.neighbor_idx t lands in
          let (e, extent) =
            extent_total border.path t border.pane_idx border.neighbor_idx (f.of_ℕ 1) (f.of_ℕ 1)
              lands in
          let (r, rect) = pane_rect_of_contains t p h in
          inl (
            u,
            record {
              axis = e.0;
              pane_extent = along e.0 (f.sub r.x1 r.x0) (f.sub r.y1 r.y0);
              container_extent = e.1;
            },
            rw (a, b, c, h, k, at) done,
            rw (h, k, at, extent, rect),
            same,
          )
    ]

    -- `resize` and `border_extents` accept the same pairs of panes and give the same error for the
    -- others, for parameters that `resize` accepts and weights in which the ends of the clamp are in
    -- order: neither panics. A resize that succeeds changes weights only.
    pub resize-border_extents :
        (t : LayoutNode W) (p q : ℕ)
        → IsResizeParam
        → ((u : LayoutNode W) × (b : BorderExtents W) × (resize t p q delta min_weight ≡ ok u)
            × (border_extents t p q ≡ ok b)
            × (shape u ≡ shape t))
          ⊎ ((e : LayoutError) × (resize t p q delta min_weight ≡ err e)
              × (border_extents t p q ≡ err e))
    unfolding resize border_extents
    resize-border_extents t p q (a, b, c) = elim (Bool-cases (contains t p)) [
      | inr gone ↦ inr (pane_not_found p, rw (a, b, c, gone), rw gone)
      | inl h ↦ elim (Bool-cases (contains t q)) [
        | inr gone ↦ inr (pane_not_found q, rw (a, b, c, h, gone), rw (h, gone))
        | inl k ↦ elim (resize-located t p q (a, b, c) h k) [
          | inl good ↦ inl good
          | inr (x, y) ↦ inr (not_adjacent_siblings p q, x, y)
        ]
      ]
    ]

module _ {W : Type 0} ⦃f : F32 W⦄ (delta min_weight : W) where
  move-shape :
      (i j : ℕ) (t : LayoutNode W) {u : LayoutNode W}
      → move_border delta min_weight i j t ≡ ok u
      → shape u ≡ shape t
  unfolding shape
  move-shape i j (leaf _) h = absurd (ground arith)
  move-shape i j (container d cs) {u} h =
      let (grow, first, h₁) = >>=-eq-ok (weight_get cs i) _ h in
      let (shrink, second, h₂) = >>=-eq-ok (weight_get cs j) _ h₁ in
      let floor = f.maximum min_weight min_sibling_weight in
      let (applied, third, h₃) =
        >>=-eq-ok (clamp delta (f.neg (room grow floor)) (room shrink floor))
          (λ (x : W). ok (adjust d cs i j grow shrink x)) h₂ in
      let e : adjust d cs i j grow shrink applied ≡ u = ground arith in
      rw (← e) (shape-adjust d cs i j grow shrink applied)

  change-shape :
      (path : List ℕ) (i j : ℕ) (t : LayoutNode W) {u : LayoutNode W}
      → change_at t path (move_border delta min_weight i j) ≡ ok u
      → shape u ≡ shape t
  unfolding change_at shape
  change-shape [] i j t h = move-shape i j t h
  change-shape (k ∷ path) i j (leaf _) h = absurd (ground arith)
  change-shape (k ∷ path) i j (container d cs) {u} h =
      let (n, at, h₁) = >>=-eq-ok (node_get cs k) _ h in
      let (m, done, h₂) = >>=-eq-ok (change_at n path (move_border delta min_weight i j)) _ h₁ in
      let e : container d (node_set cs k m) ≡ u = ground arith in
      rw (← e) (ap (container d) (shapes-node_set cs k n m at (change-shape path i j n done)))

  -- A resize that succeeds changes weights only, whatever its parameters.
  pub resize-shape :
      (t : LayoutNode W) (p q : ℕ) {u : LayoutNode W}
      → resize t p q delta min_weight ≡ ok u
      → shape u ≡ shape t
  unfolding resize
  resize-shape t p q {u} h =
      let located : resize_at_border t p q delta min_weight ≡ ok u =
        if-eq-ok (not (contains t q)) (pane_not_found q) (
          if-eq-ok (not (contains t p)) (pane_not_found p) (
            if-eq-ok
              (not (f.is_finite delta)
                || not (f.is_finite min_weight)
                || f.lt min_weight (f.of_ℕ 0))
              invalid_resize_param h)) in
      let (b, at, h₁) = >>=-eq-ok (locate_border t p q) _ located in
      change-shape b.path b.pane_idx b.neighbor_idx t h₁
