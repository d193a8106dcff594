-- ===== src/Mux/Geometry/Preview/Answers.antt =====
-- geometry.rs: every outcome of `split_preview`.
use oakterm.Prelude.{
  ℕ, suc, ◌+◌, ◌≤◌, ◌≡◌, refl, ap, ◌⊎◌, inl, inr, true, false, Bool-cases, none, some, Option-cases,
  List, [], ◌++◌, arith,
}
use oakterm.Prelude.Counts.{count, single, count-append}
use oakterm.F32.{F32}
use oakterm.Mux.Outcome.{Outcome, ok, err, pane_not_found, ◌>>=◌}
use oakterm.Mux.Layout.{
  SplitDirection, LayoutNode, Children, leaf, container, nil, cons, size, pane_ids, children_ids,
  contains,
}
use oakterm.Mux.Geometry.{
  SplitSite, sibling, halve, descend, map_site, site_here, position_leaf, position_contains,
  node_get, weight_get, node_at, is_leaf_of, locate_split_site, locate_split_at,
}
use oakterm.Mux.Geometry.Preview.{SplitPreview, ids_except, preview_at, split_preview}
use oakterm.Mux.Ops.Indices.{Around-of_get, pane_ids_of_leaf}
use oakterm.Mux.Ops.Split.{position_of_contains}

-- The listed panes stand in the other list beside the target.
abbrev pub Beside : ℕ → List ℕ → List ℕ → Type 0
Beside target listed all = (q : ℕ) → count q listed + single q target ≤ count q all

module _ {W : Type 0} ⦃f : F32 W⦄ (target : ℕ) (d : SplitDirection) where
  sibling_leaf :
      (cs : Children W) (pos : ℕ)
      → position_leaf cs target ≡ some pos
      → (w : W) × (weight_get cs pos ≡ ok w) × Beside target (ids_except cs pos) (children_ids cs)
  unfolding pane_ids
  sibling_leaf nil pos h = absurd (ground arith)
  sibling_leaf (cons n w cs) pos h = elim (Bool-cases (is_leaf_of n target)) [
    | inl here ↦
        let e : 0 ≡ pos = ground arith in
        (w, rw (← e) refl, rw (← e) (λ q. rw (pane_ids_of_leaf n target here) (omega arith)))
    | inr other ↦ elim (Option-cases (position_leaf cs target)) [
      | inl nowhere ↦ absurd (ground arith)
      | inr (i, at) ↦
          let e : suc i ≡ pos = ground arith in
          let (v, got, beside) = sibling_leaf cs i at in
          (
            v,
            rw (← e) got,
            rw (← e) (λ q. omega (
              arith,
              beside q,
              count-append q (pane_ids n) (ids_except cs i),
              count-append q (pane_ids n) (children_ids cs),
            )),
          )
    ]
  ]

  preview-sibling :
      (e : SplitDirection) (cs : Children W) (pos : ℕ)
      → position_leaf cs target ≡ some pos
      → (p : SplitPreview W) × (preview_at (container e cs) (sibling [] pos) ≡ ok p)
        × Beside target p.shrunk_siblings (children_ids cs)
  unfolding node_at
  preview-sibling e cs pos h =
      let (w, got, beside) = sibling_leaf cs pos h in
      let n = f.of_ℕ (size cs) in
      let n+1 = f.add n (f.of_ℕ 1) in
      (
        record {
          new_pane_fraction = f.div (f.of_ℕ 1) (f.mul n+1 w);
          target_fraction = f.div n n+1;
          shrunk_siblings = ids_except cs pos;
        },
        rw got refl,
        beside,
      )

  preview-descend :
      (e : SplitDirection) (cs : Children W) (i : ℕ) {n : LayoutNode W} (s : SplitSite)
      → node_get cs i ≡ ok n
      → preview_at (container e cs) (descend i s) ≡ preview_at n s
  unfolding node_at
  preview-descend e cs i (sibling path pos) at = rw at refl
  preview-descend e cs i (halve path) at = refl

  preview-map_site :
      (e : SplitDirection) (cs : Children W) (i : ℕ) {n : LayoutNode W} {p : SplitPreview W}
      (r : Outcome SplitSite)
      → node_get cs i ≡ ok n
      → (r >>= preview_at n) ≡ ok p
      → (map_site (descend i) r >>= preview_at (container e cs)) ≡ ok p
  preview-map_site e cs i (ok s) at h = rw (preview-descend e cs i s at) h
  preview-map_site e cs i (Outcome.err x) at h = absurd (ground arith)
  preview-map_site e cs i Outcome.panicked at h = absurd (ground arith)

  site-sibling :
      (e : SplitDirection) (cs : Children W) (pos : ℕ)
      → site_here e d cs target ≡ some pos
      → locate_split_site (container e cs) target d ≡ ok (sibling [] pos)
  unfolding locate_split_site
  site-sibling e cs pos h = ground arith

  site-inside :
      (e : SplitDirection) (cs : Children W) (i : ℕ)
      → site_here e d cs target ≡ none
      → position_contains cs target ≡ some i
      → locate_split_site (container e cs) target d
        ≡ map_site (descend i) (locate_split_at cs i target d)
  unfolding locate_split_site
  site-inside e cs i h at = ground arith

  Beside-inside :
      (cs : Children W) (i : ℕ) (n : LayoutNode W) (listed : List ℕ)
      → node_get cs i ≡ ok n
      → Beside target listed (pane_ids n)
      → Beside target listed (children_ids cs)
  Beside-inside cs i n listed at h q =
      let a = Around-of_get cs i at in
      omega (
        arith,
        h q,
        ap (count q) a.here,
        count-append q a.before (pane_ids n ++ a.after),
        count-append q (pane_ids n) a.after,
      )

mutual
  unfolding locate_split_site contains pane_ids node_at

  previews :
      {W : Type 0} ⦃f : F32 W⦄ (t : LayoutNode W) (target : ℕ) (d : SplitDirection)
      → contains t target ≡ true
      → (p : SplitPreview W) × ((locate_split_site t target d >>= preview_at t) ≡ ok p)
        × Beside target p.shrunk_siblings (pane_ids t)
  previews (leaf id) target d h = (_, refl, λ q. ground arith)
  previews (container e cs) target d h = elim (Option-cases (site_here e d cs target)) [
    | inr (pos, at) ↦
        let (p, done, beside) = preview-sibling target d e cs pos (ground arith) in
        (p, rw (site-sibling target d e cs pos at) done, beside)
    | inl nowhere ↦
        let (i, at) = position_of_contains cs target h in
        let (n, p, got, done, beside) = previews_at cs target d i at in
        (
          p,
          rw (site-inside target d e cs i nowhere at)
              (preview-map_site target d e cs i (locate_split_at cs i target d) got done),
          Beside-inside target d cs i n p.shrunk_siblings got beside,
        )
  ]

  previews_at :
      {W : Type 0} ⦃f : F32 W⦄ (cs : Children W) (target : ℕ) (d : SplitDirection) (i : ℕ)
      → position_contains cs target ≡ some i
      → (n : LayoutNode W) × (p : SplitPreview W) × (node_get cs i ≡ ok n)
        × ((locate_split_at cs i target d >>= preview_at n) ≡ ok p)
        × Beside target p.shrunk_siblings (pane_ids n)
  previews_at nil target d i h = absurd (ground arith)
  previews_at (cons n w cs) target d i h = elim (Bool-cases (contains n target)) [
    | inl here ↦
        let (p, done, beside) = previews n target d here in
        let e : 0 ≡ i = ground arith in (n, p, rw (← e) refl, rw (← e) done, beside)
    | inr other ↦ elim (Option-cases (position_contains cs target)) [
      | inl nowhere ↦ absurd (ground arith)
      | inr (j, at) ↦
          let (x, p, got, done, beside) = previews_at cs target d j at in
          let e : suc j ≡ i = ground arith in (x, p, rw (← e) got, rw (← e) done, beside)
    ]
  ]

-- `split_preview` never panics. A pane that the tree does not hold is an error. For any other pane
-- there is a preview, and the siblings that it lists as shrunk are other panes of the tree.
pub split_preview_lem :
    {W : Type 0} ⦃f : F32 W⦄ (t : LayoutNode W) (target : ℕ) (d : SplitDirection)
    → ((contains t target ≡ false) × (split_preview t target d ≡ err (pane_not_found target)))
      ⊎ ((contains t target ≡ true)
          × ((p : SplitPreview W) × (split_preview t target d ≡ ok p)
              × Beside target p.shrunk_siblings (pane_ids t)))
unfolding split_preview
split_preview_lem t target d = elim (Bool-cases (contains t target)) [
  | inr gone ↦ inl (gone, rw gone refl)
  | inl here ↦
      let (p, done, beside) = previews t target d here in inr (here, (p, rw here done, beside))
]
