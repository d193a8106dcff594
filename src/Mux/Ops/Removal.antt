-- ===== src/Mux/Ops/Removal.antt =====
-- crates/oakterm-mux/src/ops.rs: the removal of a leaf child and the focus hint that goes with it.
use oakterm.Prelude.{
  list_laws, ℕ, zero, suc, ◌+◌, ◌≤◌, ◌≡◌, refl, ap, List, [], ◌∷◌, ◌++◌, arith, inl, inr,
  Bool-cases, Option, some, Option-cases,
}
use oakterm.Prelude.Counts.{Has, count, single, count-append, head?-Has, last?-Has}
use oakterm.Mux.Layout.{LayoutNode, Children, nil, cons, size, pane_ids, children_ids}
use oakterm.Mux.Layout.Tiled.{IsGrown, AreGrown, head?-pane_ids, last?-pane_ids}
use oakterm.Mux.Geometry.{is_leaf_of, position_leaf}
use oakterm.Mux.Ops.{remove_child, map_weights, hint_at, hint_from}
use oakterm.Mux.Ops.Indices.{pane_ids_of_leaf}

-- The second list is the first without one occurrence of the target.
pub record Without (target : ℕ) (old result : List ℕ) : Type 0 where
  pub before : List ℕ
  pub after : List ℕ
  pub was : old ≡ before ++ target ∷ after
  pub now : result ≡ before ++ after

module _ {target : ℕ} where
  pub Without-behind :
      (xs : List ℕ) {old result : List ℕ}
      → Without target old result
      → Without target (xs ++ old) (xs ++ result)
  Without-behind xs h = record {
    before = xs ++ h.before;
    after = h.after;
    was = rw (h.was) (simp list_laws);
    now = rw (h.now) (simp list_laws);
  }

  pub Without-before :
      (ys : List ℕ) {old result : List ℕ}
      → Without target old result
      → Without target (old ++ ys) (result ++ ys)
  Without-before ys h = record {
    before = h.before;
    after = h.after ++ ys;
    was = rw (h.was) (simp list_laws);
    now = rw (h.now) (simp list_laws);
  }

  pub count-Without :
      {old result : List ℕ} (p : ℕ)
      → Without target old result
      → count p old ≡ single p target + count p result
  count-Without p h =
      rw (h.was, h.now)
        (omega (arith, count-append p h.before (target ∷ h.after), count-append p h.before h.after))

-- A hint that names a pane of the list.
abbrev pub HintIn : Option ℕ → List ℕ → Type 0
HintIn hint xs = (h : ℕ) × (hint ≡ some h) × Has h xs

module _ {W : Type 0} where
  pub AreGrown-map_weights :
      (g : W → W) (cs : Children W) → AreGrown cs → AreGrown (map_weights g cs)
  AreGrown-map_weights g nil h = tt
  AreGrown-map_weights g (cons n w cs) h = (h.0, AreGrown-map_weights g cs h.1)

  pub Without-remove_child :
      (cs : Children W) (target i : ℕ)
      → position_leaf cs target ≡ some i
      → Without target (children_ids cs) (children_ids (remove_child cs i))
        × (size cs ≡ suc (size (remove_child cs i)))
        × (AreGrown cs → AreGrown (remove_child cs i))
  unfolding pane_ids
  Without-remove_child nil target i h = absurd (ground arith)
  Without-remove_child (cons n w cs) target i h = elim (Bool-cases (is_leaf_of n target)) [
    | inl here ↦
        let e : 0 ≡ i = ground arith in
        rw (← e) (
          rw (pane_ids_of_leaf n target here)
              (record { before = []; after = children_ids cs; was = refl; now = refl }),
          refl,
          λ g. g.1,
        )
    | inr other ↦ elim (Option-cases (position_leaf cs target)) [
      | inl nowhere ↦ absurd (ground arith)
      | inr (j, at) ↦
          let e : suc j ≡ i = ground arith in
          let (out, less, grown) = Without-remove_child cs target j at in
          rw (← e) (Without-behind (pane_ids n) out, ap suc less, λ g. (g.0, grown g.1))
    ]
  ]

  HintIn-hint_from :
      (prev : LayoutNode W) (cs : Children W) (i : ℕ)
      → IsGrown prev
      → AreGrown cs
      → suc i ≤ size cs
      → HintIn (hint_from prev cs i) (pane_ids prev ++ children_ids (remove_child cs i))
  unfolding pane_ids
  HintIn-hint_from prev nil i g h k = absurd (omega arith)
  HintIn-hint_from prev (cons n w cs) zero g h k =
      let (x, at) = last?-pane_ids prev g in
      (
        x,
        at,
        omega (
          arith,
          count-append x (pane_ids prev) (children_ids cs),
          last?-Has x (pane_ids prev) at,
        ),
      )
  HintIn-hint_from prev (cons n w cs) (suc i) g h k =
      let (x, at, within) = HintIn-hint_from n cs i h.0 h.1 (omega arith) in
      let rest = pane_ids n ++ children_ids (remove_child cs i) in
      (x, at, omega (arith, count-append x (pane_ids prev) rest, within))

  pub HintIn-hint_at :
      (cs : Children W) (i : ℕ)
      → AreGrown cs
      → 2 ≤ size cs
      → suc i ≤ size cs
      → HintIn (hint_at cs i) (children_ids (remove_child cs i))
  unfolding pane_ids
  HintIn-hint_at nil i g h k = absurd (omega arith)
  HintIn-hint_at (cons n w nil) zero g h k = absurd (omega arith)
  HintIn-hint_at (cons n w (cons m v cs)) zero g h k =
      let (x, at) = head?-pane_ids m g.1.0 in
      (
        x,
        at,
        omega (arith, count-append x (pane_ids m) (children_ids cs), head?-Has x (pane_ids m) at),
      )
  HintIn-hint_at (cons n w cs) (suc i) g h k = HintIn-hint_from n cs i g.0 g.1 (omega arith)

  pub position_leaf-lt :
      (cs : Children W) (target i : ℕ) → position_leaf cs target ≡ some i → suc i ≤ size cs
  position_leaf-lt nil target i h = absurd (ground arith)
  position_leaf-lt (cons n w cs) target zero h = omega arith
  position_leaf-lt (cons n w cs) target (suc i) h = ground (arith, position_leaf-lt cs target i)
