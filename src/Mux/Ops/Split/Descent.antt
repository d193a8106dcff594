-- ===== src/Mux/Ops/Split/Descent.antt =====
-- ops.rs: the split along the path from the root to its site.
use oakterm.Prelude.{
  ℕ, suc, ◌≡◌, refl, [], arith, true, false, inl, inr, Bool-cases, some, none, Option-cases,
}
use native.Mathlib.Numerals.{add-one}
use oakterm.F32.{F32}
use oakterm.Mux.Outcome.{Outcome, ok, ◌>>=◌}
use oakterm.Mux.Layout.{
  SplitDirection, LayoutNode, Children, leaf, container, nil, cons, same_direction, size, pane_ids,
  contains, is_leaf,
}
use oakterm.Mux.Geometry.{
  SplitSite, sibling, halve, descend, map_site, position_leaf, position_contains, site_here,
  node_get, locate_split_site, locate_split_at,
}
use oakterm.Mux.Ops.{node_set, change_at, split_at, insert_sibling, halved}
use oakterm.Mux.Ops.Indices.{Around-of_get, size-node_set, AreTiled-get, AreTiled-node_set}
use oakterm.Mux.Ops.Split.Inserting.{
  InsertedAfter-within, Splits, insert_behind, position_of_contains, no_leaf,
}

module _ {W : Type 0} ⦃f : F32 W⦄ (target new_pane : ℕ) (d : SplitDirection) where
  split_at-descend :
      (e : SplitDirection) (cs : Children W) (i : ℕ) (s : SplitSite)
      → split_at (container e cs) target new_pane d (descend i s) ≡ (
          node_get cs i >>= λ n.
          split_at n target new_pane d s >>= λ m. ok (container e (node_set cs i m)))
  unfolding change_at
  split_at-descend e cs i (sibling path pos) = refl
  split_at-descend e cs i (halve path) = refl

  split_at-map_site :
      (e : SplitDirection) (cs : Children W) (i : ℕ) {n m : LayoutNode W} (r : Outcome SplitSite)
      → node_get cs i ≡ ok n
      → (r >>= split_at n target new_pane d) ≡ ok m
      → (map_site (descend i) r >>= split_at (container e cs) target new_pane d)
        ≡ ok (container e (node_set cs i m))
  split_at-map_site e cs i (ok s) at h = rw (split_at-descend e cs i s, at, h)
  split_at-map_site e cs i (Outcome.err x) at h = absurd (ground arith)
  split_at-map_site e cs i Outcome.panicked at h = absurd (ground arith)

  Splits-halved :
      (id : ℕ)
      → contains {W = W} (leaf id) target ≡ true
      → Splits {W = W} target new_pane d (leaf id) (halved d target new_pane)
  unfolding contains pane_ids
  Splits-halved id h =
      let e : id ≡ target = ground arith in
      record {
        ids = rw e (record { before = []; after = []; was = refl; now = refl });
        tiled = λ _. (omega arith, (tt, tt, (tt, tt, tt)));
        apart = λ x k a. k refl;
      }

  Splits-sibling :
      (e : SplitDirection) (cs : Children W) (pos : ℕ)
      → position_leaf cs target ≡ some pos
      → (u : LayoutNode W) × (insert_sibling pos new_pane (container e cs) ≡ ok u)
        × Splits target new_pane d (container e cs) u
  unfolding pane_ids
  Splits-sibling e cs pos at =
      let n = f.of_ℕ (size cs) in
      let n+1 = f.add n (f.of_ℕ 1) in
      let (ds, inserted, good) =
        insert_behind target new_pane e (λ w. f.mul w (f.div n n+1)) (f.div (f.of_ℕ 1) n+1) cs pos
          at in
      (
        container e ds,
        rw (add-one, inserted),
        record {
          ids = good.ids;
          tiled = λ t. (omega (arith, good.grown, t.0), good.tiled t.1);
          apart = λ x k a. a;
        },
      )

  -- The change of the child at `i` is a change of the container around it.
  Splits-inside :
      (e : SplitDirection) (cs : Children W) (i : ℕ) (n m : LayoutNode W)
      → node_get cs i ≡ ok n
      → (is_leaf n ≡ true → same_direction d e ≡ false)
      → Splits target new_pane d n m
      → Splits target new_pane d (container e cs) (container e (node_set cs i m))
  unfolding pane_ids
  Splits-inside e cs i n m at k good =
      let a = Around-of_get cs i at in
      record {
        ids = rw (a.here, a.there m) (InsertedAfter-within a.before a.after good.ids);
        tiled = λ t.
            let (x, y) = AreTiled-get e cs i t.1 at in
            (
              rw (size-node_set cs i m) t.0,
              AreTiled-node_set e cs i m t.1 (good.apart e k x) (good.tiled y),
            );
        apart = λ x l b. b;
      }

  locate-sibling :
      (e : SplitDirection) (cs : Children W) (pos : ℕ)
      → site_here e d cs target ≡ some pos
      → locate_split_site (container e cs) target d ≡ ok (sibling [] pos)
  unfolding locate_split_site
  locate-sibling e cs pos h = ground arith

  locate-inside :
      (e : SplitDirection) (cs : Children W) (i : ℕ)
      → site_here e d cs target ≡ none
      → position_contains cs target ≡ some i
      → locate_split_site (container e cs) target d
        ≡ map_site (descend i) (locate_split_at cs i target d)
  unfolding locate_split_site
  locate-inside e cs i h at = ground arith

  -- A leaf is split in place only under a container of the other direction.
  leaf_elsewhere :
      (e : SplitDirection) (cs : Children W) (i : ℕ) (n : LayoutNode W)
      → site_here e d cs target ≡ none
      → node_get cs i ≡ ok n
      → contains n target ≡ true
      → is_leaf n ≡ true
      → same_direction d e ≡ false
  leaf_elsewhere e cs i n h at inside is = elim (Bool-cases (same_direction d e)) [
    | inr other ↦ other
    | inl same ↦
        let leafless : position_leaf cs target ≡ none = ground arith in
        absurd (ground (arith, no_leaf cs target i leafless at inside))
  ]

mutual
  unfolding locate_split_site contains change_at

  pub splits :
      {W : Type 0} ⦃f : F32 W⦄ (t : LayoutNode W) (target new_pane : ℕ) (d : SplitDirection)
      → contains t target ≡ true
      → (u : LayoutNode W) × ((locate_split_site t target d >>= split_at t target new_pane d)
          ≡ ok u)
        × Splits target new_pane d t u
  splits (leaf id) target new_pane d h =
      (halved d target new_pane, refl, Splits-halved target new_pane d id h)
  splits (container e cs) target new_pane d h = elim (Option-cases (site_here e d cs target)) [
    | inr (pos, at) ↦
        let (u, done, good) = Splits-sibling target new_pane d e cs pos (ground arith) in
        (u, rw (locate-sibling target new_pane d e cs pos at) done, good)
    | inl nowhere ↦
        let (i, at) = position_of_contains cs target h in
        let (n, m, got, inside, done, good) = Splits-at cs target new_pane d i at in
        (
          container e (node_set cs i m),
          rw (locate-inside target new_pane d e cs i nowhere at)
              (split_at-map_site target new_pane d e cs i _ got done),
          Splits-inside target new_pane d e cs i n m got
              (leaf_elsewhere target new_pane d e cs i n nowhere got inside) good,
        )
  ]

  Splits-at :
      {W : Type 0} ⦃f : F32 W⦄ (cs : Children W) (target new_pane : ℕ) (d : SplitDirection) (i : ℕ)
      → position_contains cs target ≡ some i
      → (n m : LayoutNode W) × (node_get cs i ≡ ok n)
        × (contains n target ≡ true)
        × ((locate_split_at cs i target d >>= split_at n target new_pane d) ≡ ok m)
        × Splits target new_pane d n m
  Splits-at nil target new_pane d i h = absurd (ground arith)
  Splits-at (cons n w cs) target new_pane d i h = elim (Bool-cases (contains n target)) [
    | inl here ↦
        let (m, done, good) = splits n target new_pane d here in
        let e : 0 ≡ i = ground arith in (n, m, rw (← e), here, rw (← e) done, good)
    | inr other ↦ elim (Option-cases (position_contains cs target)) [
      | inl nowhere ↦ absurd (ground arith)
      | inr (j, at) ↦
          let (x, y, got, inside, done, good) = Splits-at cs target new_pane d j at in
          let e : suc j ≡ i = ground arith in (x, y, rw (← e) got, inside, rw (← e) done, good)
    ]
  ]
