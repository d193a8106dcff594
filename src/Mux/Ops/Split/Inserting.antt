-- ===== src/Mux/Ops/Split/Inserting.antt =====
-- ops.rs: a pane inserted behind another, in the list of panes and in the children of a container.
use oakterm.Prelude.{
  list_laws, ℕ, zero, suc, ◌+◌, ◌≡◌, refl, ap, List, [], ◌∷◌, ◌++◌, arith, true, false, inl, inr,
  Bool-cases, some, none, Option-cases,
}
use oakterm.Prelude.Counts.{count, single, count-append}
use oakterm.Mux.Outcome.{ok}
use oakterm.Mux.Layout.{
  SplitDirection, LayoutNode, Children, leaf, container, nil, cons, same_direction, size, pane_ids,
  children_ids, contains, any_contains, is_leaf, Apart,
}
use oakterm.Mux.Layout.Members.{IsTiled, AreTiled}
use oakterm.Mux.Geometry.{position_leaf, position_contains, node_get, is_leaf_of}
use oakterm.Mux.Ops.{insert_child, map_weights}
use oakterm.Mux.Ops.Indices.{
  AreTiled-map_weights, size-map_weights, children_ids-map_weights, pane_ids_of_leaf,
}

-- The second list is the first with the new pane directly behind an occurrence of the target.
pub record InsertedAfter (target new_pane : ℕ) (old result : List ℕ) : Type 0 where
  pub before : List ℕ
  pub after : List ℕ
  pub was : old ≡ before ++ target ∷ after
  pub now : result ≡ before ++ target ∷ new_pane ∷ after

module _ {target new_pane : ℕ} where
  pub InsertedAfter-within :
      (xs ys : List ℕ) {old result : List ℕ}
      → InsertedAfter target new_pane old result
      → InsertedAfter target new_pane (xs ++ (old ++ ys)) (xs ++ (result ++ ys))
  InsertedAfter-within xs ys h = record {
    before = xs ++ h.before;
    after = h.after ++ ys;
    was = rw (h.was) (simp list_laws);
    now = rw (h.now) (simp list_laws);
  }

  pub count-InsertedAfter :
      {old result : List ℕ} (p : ℕ)
      → InsertedAfter target new_pane old result
      → count p result ≡ single p new_pane + count p old
  count-InsertedAfter p h =
      rw (h.was, h.now)
        (omega (
          arith,
          count-append p h.before (target ∷ h.after),
          count-append p h.before (target ∷ new_pane ∷ h.after),
        ))

-- What a split promises of the node that it changes.
pub record Splits {W : Type 0} (target new_pane : ℕ) (d : SplitDirection) (t u : LayoutNode W)
    : Type 0 where
  pub ids : InsertedAfter target new_pane (pane_ids t) (pane_ids u)
  pub tiled : IsTiled t → IsTiled u
  pub apart :
      (e : SplitDirection) → (is_leaf t ≡ true → same_direction d e ≡ false) → Apart e t → Apart e u

module _ {W : Type 0} (target new_pane : ℕ) where
  pub record Inserts (d : SplitDirection) (cs ds : Children W) : Type 0 where
    pub ids : InsertedAfter target new_pane (children_ids cs) (children_ids ds)
    pub grown : size ds ≡ suc (size cs)
    pub tiled : AreTiled d cs → AreTiled d ds

  pub insert_behind :
      (d : SplitDirection) (g : W → W) (v : W) (cs : Children W) (pos : ℕ)
      → position_leaf cs target ≡ some pos
      → (ds : Children W) × (insert_child (map_weights g cs) (suc pos) (leaf new_pane) v ≡ ok ds)
        × Inserts d cs ds
  unfolding pane_ids
  insert_behind d g v nil pos h = absurd (ground arith)
  insert_behind d g v (cons n w cs) pos h = elim (Bool-cases (is_leaf_of n target)) [
    | inl here ↦
        let e : 0 ≡ pos = ground arith in
        (
          cons n (g w) (cons (leaf new_pane) v (map_weights g cs)),
          rw (← e),
          record {
            ids =
                rw (pane_ids_of_leaf n target here, children_ids-map_weights g cs)
                  (record { before = []; after = children_ids cs; was = refl; now = refl });
            grown = ap suc (ap suc (size-map_weights g cs));
            tiled = λ t. (t.0, t.1, (tt, tt, AreTiled-map_weights d g cs t.2));
          },
        )
    | inr other ↦ elim (Option-cases (position_leaf cs target)) [
      | inl nowhere ↦ absurd (ground arith)
      | inr (q, at) ↦
          let e : suc q ≡ pos = ground arith in
          let (ds, inserted, good) = insert_behind d g v cs q at in
          (
            cons n (g w) ds,
            rw (← e) (rw inserted),
            record {
              ids = record {
                before = pane_ids n ++ good.ids.before;
                after = good.ids.after;
                was = rw (good.ids.was) (simp list_laws);
                now = rw (good.ids.now) (simp list_laws);
              };
              grown = ap suc good.grown;
              tiled = λ t. (t.0, t.1, good.tiled t.2);
            },
          )
    ]
  ]

module _ {W : Type 0} where
  pub position_of_contains :
      (cs : Children W) (p : ℕ)
      → any_contains cs p ≡ true
      → (i : ℕ) × (position_contains cs p ≡ some i)
  unfolding contains
  position_of_contains nil p h = absurd (ground arith)
  position_of_contains (cons n w cs) p h = elim (Bool-cases (contains n p)) [
    | inl here ↦ (0, ground arith)
    | inr other ↦ let (i, at) = position_of_contains cs p (ground arith) in (suc i, ground arith)
  ]

  pub no_leaf :
      (cs : Children W) (p i : ℕ) {n : LayoutNode W}
      → position_leaf cs p ≡ none
      → node_get cs i ≡ ok n
      → contains n p ≡ true
      → is_leaf n ≡ false
  unfolding contains
  no_leaf nil p i h at k = absurd (ground arith)
  no_leaf (cons (leaf id) w cs) p zero {n} h at k =
      let e : leaf id ≡ n = ground arith in absurd (ground (arith, rw (← e) at k))
  no_leaf (cons (container d ds) w cs) p zero {n} h at k =
      let e : container d ds ≡ n = ground arith in rw (← e)
  no_leaf (cons m w cs) p (suc i) h at k = no_leaf cs p i (ground arith) at k
