-- ===== src/Mux/Geometry/Borders/Acceptance.antt =====
-- Which pairs of panes share a border, and that the search for it ends well.
use oakterm.Prelude.{
  ℕ, zero, suc, ◌<◌, ◌≡◌, refl, ◌⊎◌, inl, inr, Bool, true, false, not, ◌||◌, some, is_some, List,
  [], ◌∷◌, arith, Bool-cases, Option-cases, ◌==◌, ltb, subst,
}
use native.Mathlib.Numerals.{add-one}
use oakterm.F32.{F32}
use oakterm.Mux.Outcome.{Outcome, ok, err, not_adjacent_siblings}
use oakterm.Mux.Layout.{
  SplitDirection, LayoutNode, Children, leaf, container, nil, cons, size, contains, any_contains,
}
use oakterm.Mux.Geometry.{
  UnitRect, Edge, position_contains, node_get, weight_get, touches_edge, pane_rect, pane_rect_from,
}
use oakterm.Mux.Geometry.Borders.{
  BorderPath, shares_border_in_order, panes_share_border, adjacent, border_here, descend_border,
  locate_border, locate_border_at, extent_from, along, grow_width, grow_height,
  border_overlap_epsilon, cross_overlap,
}

mutual
  unfolding pane_rect contains

  rect-contains :
      {W : Type 0} ⦃f : F32 W⦄ (t : LayoutNode W) (p : ℕ) → is_some (pane_rect t p) ≡ contains t p
  rect-contains (leaf id) p = ground arith
  rect-contains ⦃f⦄ (container d cs) p = rect_from-contains d (f.of_ℕ 0) cs p

  rect_from-contains :
      {W : Type 0} ⦃f : F32 W⦄ (d : SplitDirection) (start : W) (cs : Children W) (p : ℕ)
      → is_some (pane_rect_from d start cs p) ≡ any_contains cs p
  rect_from-contains d start nil p = refl
  rect_from-contains ⦃f⦄ d start (cons n w cs) p =
      ground (arith, rect-contains n p, rect_from-contains d (f.add start w) cs p)

module _ {W : Type 0} where
  -- The child that holds a pane.
  record Holds (cs : Children W) (p i : ℕ) : Type 0 where
    child : LayoutNode W
    at : node_get cs i ≡ ok child
    holds : contains child p ≡ true
    within : i < size cs

  Holds-of_position : (cs : Children W) (p i : ℕ) → position_contains cs p ≡ some i → Holds cs p i
  Holds-of_position nil p i h = absurd (ground arith)
  Holds-of_position (cons n w cs) p i h = elim (Bool-cases (contains n p)) [
    | inl here ↦
        let e : 0 ≡ i = ground arith in
        rw (← e) (record { child = n; at = refl; holds = here; within = omega arith })
    | inr other ↦ elim (Option-cases (position_contains cs p)) [
      | inl nowhere ↦ absurd (ground arith)
      | inr (j, at) ↦
          let e : suc j ≡ i = ground arith in
          let r = Holds-of_position cs p j at in
          rw (← e) (record {
            child = r.child;
            at = r.at;
            holds = r.holds;
            within = omega (arith, r.within);
          })
    ]
  ]

  position_of_any :
      (cs : Children W) (p : ℕ)
      → any_contains cs p ≡ true
      → (i : ℕ) × (position_contains cs p ≡ some i)
  unfolding contains
  position_of_any nil p h = absurd (ground arith)
  position_of_any (cons n w cs) p h = elim (Bool-cases (contains n p)) [
    | inl here ↦ (0, ground arith)
    | inr other ↦ let (i, at) = position_of_any cs p (ground arith) in (suc i, ground arith)
  ]

  -- The path leads to a container that has children at both indices.
  abbrev pub Lands : List ℕ → ℕ → ℕ → LayoutNode W → Type 0
  Lands [] i j (leaf _) = ⊥
  Lands [] i j (container d cs) = (i < size cs) × (j < size cs)
  Lands (k ∷ path) i j (leaf _) = ⊥
  Lands (k ∷ path) i j (container d cs) =
      (n : LayoutNode W) × (node_get cs k ≡ ok n) × Lands path i j n

module _ {W : Type 0} ⦃f : F32 W⦄ where
  pub pane_rect_of_contains :
      (t : LayoutNode W) (p : ℕ) → contains t p ≡ true → (r : UnitRect W) × (pane_rect t p ≡ some r)
  pane_rect_of_contains t p h = elim (Option-cases (pane_rect t p)) [
    | inl nowhere ↦ absurd (ground (arith, rect-contains t p))
    | inr found ↦ found
  ]

  -- The test for a shared border answers: its indices are in range and both panes have a rectangle.
  shares_answers :
      (d : SplitDirection) (cs : Children W) (i p q : ℕ)
      → Holds cs p i
      → Holds cs q (suc i)
      → (b : Bool) × (shares_border_in_order d cs i p q ≡ ok b)
  shares_answers d cs i p q a b =
      let (r, first) = pane_rect_of_contains a.child p a.holds in
      let (s, second) = pane_rect_of_contains b.child q b.holds in
      elim (Bool-cases (
        not (touches_edge a.child p d Edge.trailing)
        || not (touches_edge b.child q d Edge.leading))) [
          | inl apart ↦ (false, rw (add-one, a.at, b.at, apart))
          | inr touching ↦ (
            f.lt border_overlap_epsilon (cross_overlap d r s),
            rw (add-one, a.at, b.at, touching, first, second),
          )
        ]

  panes_answer :
      (d : SplitDirection) (cs : Children W) (i p j q : ℕ)
      → Holds cs p i
      → Holds cs q j
      → adjacent i j ≡ true
      → (b : Bool) × (panes_share_border d cs i p j q ≡ ok b)
  unfolding panes_share_border
  panes_answer d cs i p j q a b near = elim (Bool-cases (ltb i j)) [
    | inl lower ↦
        let e : j ≡ suc i = ground arith in
        let (r, done) = shares_answers d cs i p q a (subst (Holds cs q) e b) in (r, rw lower done)
    | inr higher ↦
        let e : i ≡ suc j = ground arith in
        let (r, done) = shares_answers d cs j q p b (subst (Holds cs p) e a) in (r, rw higher done)
  ]

  here_answers :
      (d : SplitDirection) (cs : Children W) (i p j q : ℕ)
      → Holds cs p i
      → Holds cs q j
      → (border_here d cs i p j q ≡ ok (record { path = []; pane_idx = i; neighbor_idx = j }))
        ⊎ (border_here d cs i p j q ≡ err (not_adjacent_siblings p q))
  here_answers d cs i p j q a b = elim (Bool-cases (adjacent i j)) [
    | inr far ↦ inr (rw far)
    | inl near ↦
        let (r, done) = panes_answer d cs i p j q a b near in
        elim (Bool-cases r) [
          | inl shared ↦ inl (rw (near, done, shared))
          | inr apart ↦ inr (rw (near, done, apart))
        ]
  ]

  -- The search ends at a container with both children, or says that there is no border.
  abbrev pub Answers : ℕ → ℕ → LayoutNode W → Outcome BorderPath → Type 0
  Answers p q t r =
      ((b : BorderPath) × (r ≡ ok b) × Lands b.path b.pane_idx b.neighbor_idx t)
      ⊎ (r ≡ err (not_adjacent_siblings p q))

  Answers-inside :
      (d : SplitDirection) (cs : Children W) (i p q : ℕ) (n : LayoutNode W) (r : Outcome BorderPath)
      → node_get cs i ≡ ok n
      → Answers p q n r
      → Answers p q (container d cs) (descend_border i r)
  Answers-inside d cs i p q n r at (inl (b, e, lands)) =
      inl (record b { path = i ∷ b.path }, rw e, (n, at, lands))
  Answers-inside d cs i p q n r at (inr e) = inr (rw e)

  border-here :
      (d : SplitDirection) (cs : Children W) (i p j q : ℕ)
      → position_contains cs p ≡ some i
      → position_contains cs q ≡ some j
      → (i == j) ≡ false
      → locate_border (container d cs) p q ≡ border_here d cs i p j q
  unfolding locate_border
  border-here d cs i p j q a b h = ground arith

  border-inside :
      (d : SplitDirection) (cs : Children W) (i p q : ℕ)
      → position_contains cs p ≡ some i
      → position_contains cs q ≡ some i
      → locate_border (container d cs) p q ≡ descend_border i (locate_border_at cs i p q)
  unfolding locate_border
  border-inside d cs i p q a b = ground arith

mutual
  unfolding contains locate_border

  answers :
      {W : Type 0} ⦃f : F32 W⦄ (t : LayoutNode W) (p q : ℕ)
      → contains t p ≡ true
      → contains t q ≡ true
      → Answers p q t (locate_border t p q)
  answers (leaf id) p q h k = inr refl
  answers (container d cs) p q h k =
      let (i, at) = position_of_any cs p h in
      let (j, at') = position_of_any cs q k in
      let a = Holds-of_position cs p i at in
      let b = Holds-of_position cs q j at' in
      elim (Bool-cases (i == j)) [
        | inr apart ↦
            rw (border-here d cs i p j q at at' apart) (elim (here_answers d cs i p j q a b) [
              | inl found ↦ inl (_, found, (a.within, b.within))
              | inr away ↦ inr away
            ])
        | inl same ↦
            let e : j ≡ i = ground arith in
            let b' : Holds cs q i = subst (Holds cs q) e b in
            let one : b'.child ≡ a.child = ground (arith, a.at, b'.at) in
            rw (border-inside d cs i p q at (rw (← e) at')) (
              Answers-inside d cs i p q a.child _ a.at
                (Answers-at cs i p q a.child a.at a.holds (rw (← one) b'.holds)))
      ]

  Answers-at :
      {W : Type 0} ⦃f : F32 W⦄ (cs : Children W) (i p q : ℕ) (n : LayoutNode W)
      → node_get cs i ≡ ok n
      → contains n p ≡ true
      → contains n q ≡ true
      → Answers p q n (locate_border_at cs i p q)
  Answers-at nil i p q n at h k = absurd (ground arith)
  Answers-at (cons m w cs) zero p q n at h k =
      let e : n ≡ m = ground arith in rw e (answers m p q (rw (← e) h) (rw (← e) k))
  Answers-at (cons m w cs) (suc i) p q n at h k = Answers-at cs i p q n at h k

module _ {W : Type 0} ⦃f : F32 W⦄ where
  -- The search for the border between two panes of the tree never panics: it ends at a container
  -- that has both children, or with the error for panes that share no border.
  pub locate_border_total :
      (t : LayoutNode W) (p q : ℕ)
      → contains t p ≡ true
      → contains t q ≡ true
      → Answers p q t (locate_border t p q)
  locate_border_total = answers

  pub weight_of_lt : (cs : Children W) (i : ℕ) → i < size cs → (w : W) × (weight_get cs i ≡ ok w)
  weight_of_lt nil i h = absurd (omega arith)
  weight_of_lt (cons n w cs) zero h = (w, refl)
  weight_of_lt (cons n w cs) (suc i) h = weight_of_lt cs i (omega arith)

  lt_of_node : (cs : Children W) (i : ℕ) {n : LayoutNode W} → node_get cs i ≡ ok n → i < size cs
  lt_of_node nil i h = absurd (ground arith)
  lt_of_node (cons n w cs) zero h = omega arith
  lt_of_node (cons n w cs) (suc i) h = omega (arith, lt_of_node cs i h)

  -- The extent of the container that a border path leads to is always computed.
  pub extent_total :
      (path : List ℕ) (t : LayoutNode W) (i j : ℕ) (width height : W)
      → Lands path i j t
      → (e : SplitDirection × W) × (extent_from t path width height ≡ ok e)
  unfolding extent_from
  extent_total [] (leaf _) i j width height h = absurd h
  extent_total [] (container d cs) i j width height h = ((d, along d width height), refl)
  extent_total (k ∷ path) (leaf _) i j width height h = absurd h
  extent_total (k ∷ path) (container d cs) i j width height (n, at, h) =
      let (w, weight) = weight_of_lt cs k (lt_of_node cs k at) in
      let (e, done) = extent_total path n i j (grow_width d width w) (grow_height d height w) h in
      (e, rw (weight, at) done)
