-- ===== src/Mux/Ops/Swap/Trades.antt =====
-- crates/oakterm-mux/src/ops.rs: every outcome of `swap`.
use oakterm.Prelude.{
  ℕ, zero, suc, ◌==◌, ◌≡◌, refl, ap, List, [], ◌∷◌, map, get_elem?, some, ◌⊎◌, ◌↔◌, inl, inr,
  Bool-cases, arith,
}
use oakterm.Prelude.Counts.{Has}
use oakterm.Mux.Outcome.{ok, err, pane_not_found}
use oakterm.Mux.Layout.{LayoutNode, Children, leaf, container, nil, cons, pane_ids, contains}
use oakterm.Mux.Layout.Members.{contains_iff, not_contains}
use oakterm.Mux.Ops.Swap.{exchange, swap_leaves, swap_in, swap, ids-swap, swap-swap}

-- Two lists that differ in that `a` and `b` stand in each other's places.
pub record Trades (a b : ℕ) (xs ys : List ℕ) : Type 0 where
  pub first : (i : ℕ) → get_elem? ys i ≡ some a ↔ get_elem? xs i ≡ some b
  pub second : (i : ℕ) → get_elem? ys i ≡ some b ↔ get_elem? xs i ≡ some a
  pub others : (p i : ℕ) → (p ≡ a) ⊎ (p ≡ b) ⊎ (get_elem? ys i ≡ some p ↔ get_elem? xs i ≡ some p)

first-exchange :
    (a b : ℕ) (xs : List ℕ) (i : ℕ)
    → get_elem? (map (exchange a b) xs) i ≡ some a ↔ get_elem? xs i ≡ some b
first-exchange a b [] i = (λ h. absurd (ground arith), λ h. absurd (ground arith))
first-exchange a b (x ∷ xs) zero = (λ h. ground arith, λ h. ground arith)
first-exchange a b (x ∷ xs) (suc i) = first-exchange a b xs i

second-exchange :
    (a b : ℕ) (xs : List ℕ) (i : ℕ)
    → get_elem? (map (exchange a b) xs) i ≡ some b ↔ get_elem? xs i ≡ some a
second-exchange a b [] i = (λ h. absurd (ground arith), λ h. absurd (ground arith))
second-exchange a b (x ∷ xs) zero = (λ h. ground arith, λ h. ground arith)
second-exchange a b (x ∷ xs) (suc i) = second-exchange a b xs i

others-exchange :
    (a b : ℕ) (xs : List ℕ) (p i : ℕ)
    → (p ≡ a) ⊎ (p ≡ b) ⊎ (get_elem? (map (exchange a b) xs) i ≡ some p ↔ get_elem? xs i ≡ some p)
others-exchange a b [] p i = inr (inr (λ h. absurd (ground arith), λ h. absurd (ground arith)))
others-exchange a b (x ∷ xs) p (suc i) = others-exchange a b xs p i
others-exchange a b (x ∷ xs) p zero = elim (Bool-cases (p == a)) [
  | inl is_a ↦ inl (ground arith)
  | inr not_a ↦ elim (Bool-cases (p == b)) [
    | inl is_b ↦ inr (inl (ground arith))
    | inr not_b ↦ inr (inr (λ h. ground arith, λ h. ground arith))
  ]
]

-- A tree with all its panes blanked out: its containers, their directions and the weights.
abbrev mutual
  pub blank : {W : Type 0} → LayoutNode W → LayoutNode W
  blank (leaf _) = leaf 0
  blank (container d cs) = container d (blank_in cs)

  pub blank_in : {W : Type 0} → Children W → Children W
  blank_in nil = nil
  blank_in (cons n w cs) = cons (blank n) w (blank_in cs)

mutual
  unfolding swap_leaves

  blank-swap : {W : Type 0} (t : LayoutNode W) (a b : ℕ) → blank (swap_leaves t a b) ≡ blank t
  blank-swap (leaf id) a b = refl
  blank-swap (container d cs) a b = ap (container d) (blank-swap_in cs a b)

  blank-swap_in : {W : Type 0} (cs : Children W) (a b : ℕ) → blank_in (swap_in cs a b) ≡ blank_in cs
  blank-swap_in nil a b = refl
  blank-swap_in (cons n w cs) a b = rw (blank-swap n a b, blank-swap_in cs a b)

module _ {W : Type 0} (t : LayoutNode W) (a b : ℕ) where
  -- A swap never panics. It is refused for a first pane that the tree does not hold, and then for a
  -- second one. Otherwise it succeeds: each of the two panes stands in the places of the other in
  -- the left-to-right order, every other pane stands where it was, the containers, their directions
  -- and the weights are as before, and the same swap once more gives back the tree.
  pub swap_lem :
      ((¬ Has a (pane_ids t)) × (swap t a b ≡ err (pane_not_found a)))
      ⊎ (Has a (pane_ids t) × (¬ Has b (pane_ids t)) × (swap t a b ≡ err (pane_not_found b)))
      ⊎ (Has a (pane_ids t)
          × Has b (pane_ids t)
          × ((u : LayoutNode W) × (swap t a b ≡ ok u)
              × Trades a b (pane_ids t) (pane_ids u)
              × (blank u ≡ blank t)
              × (swap u a b ≡ ok t)))
  unfolding swap
  swap_lem = elim (Bool-cases (contains t a)) [
    | inr nowhere ↦ inl (λ h. omega (arith, not_contains t a nowhere), rw nowhere)
    | inl first ↦
        let has_a = (contains_iff t a).0 first in
        elim (Bool-cases (contains t b)) [
          | inr nowhere ↦
              inr (inl (has_a, λ h. omega (arith, not_contains t b nowhere), rw (first, nowhere)))
          | inl second ↦
              let done : swap t a b ≡ ok (swap_leaves t a b) = rw (first, second) in
              inr (
                inr (
                  has_a,
                  (contains_iff t b).0 second,
                  (
                    swap_leaves t a b,
                    done,
                    Trades-swap_leaves,
                    blank-swap t a b,
                    swap-swap t a b done,
                  ),
                ))
        ]
  ]
    where
      Trades-swap_leaves : Trades a b (pane_ids t) (pane_ids (swap_leaves t a b))
      Trades-swap_leaves = rw (ids-swap t a b) (record {
        first = first-exchange a b (pane_ids t);
        second = second-exchange a b (pane_ids t);
        others = others-exchange a b (pane_ids t);
      })
