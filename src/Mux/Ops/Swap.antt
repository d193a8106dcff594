-- ===== src/Mux/Ops/Swap.antt =====
-- crates/oakterm-mux/src/ops.rs: swap.
pub mod Trades
use oakterm.Prelude.{
  ℕ, zero, suc, some, ◌⊎◌, ◌↔◌, get_elem?, not, if◌then◌else◌, ◌==◌, ◌≡◌, refl, ap, sym, List, [],
  ◌∷◌, map, map-append, Bool-cases, inl, inr, true, arith,
}
use oakterm.Prelude.Counts.{count, Has, IsUnique}
use oakterm.Mux.Outcome.{Outcome, ok, err, pane_not_found}
use oakterm.Mux.Layout.{
  SplitDirection, LayoutNode, Children, leaf, container, nil, cons, size, pane_ids, children_ids,
  contains, Apart,
}
use oakterm.Mux.Layout.Members.{IsTiled, AreTiled, contains_iff, not_contains}

abbrev pub exchange : ℕ → ℕ → ℕ → ℕ
exchange a b id = if id == a then b else if id == b then a else id

unfoldable mutual
  pub swap_leaves : {W : Type 0} → LayoutNode W → ℕ → ℕ → LayoutNode W
  swap_leaves (leaf id) a b = leaf (exchange a b id)
  swap_leaves (container d cs) a b = container d (swap_in cs a b)

  pub swap_in : {W : Type 0} → Children W → ℕ → ℕ → Children W
  swap_in nil a b = nil
  swap_in (cons n w cs) a b = cons (swap_leaves n a b) w (swap_in cs a b)

unfoldable pub swap : {W : Type 0} → LayoutNode W → ℕ → ℕ → Outcome (LayoutNode W)
swap t a b =
    if not (contains t a)
    then err (pane_not_found a)
    else if not (contains t b)
    then err (pane_not_found b)
    else ok (swap_leaves t a b)

module _ (a b : ℕ) where
  exchange-exchange : (id : ℕ) → exchange a b (exchange a b id) ≡ id
  exchange-exchange id = ground arith

mutual
  unfolding swap_leaves pane_ids

  pub ids-swap :
      {W : Type 0} (t : LayoutNode W) (a b : ℕ)
      → pane_ids (swap_leaves t a b) ≡ map (exchange a b) (pane_ids t)
  ids-swap (leaf id) a b = refl
  ids-swap (container d cs) a b = ids-swap_in cs a b

  ids-swap_in :
      {W : Type 0} (cs : Children W) (a b : ℕ)
      → children_ids (swap_in cs a b) ≡ map (exchange a b) (children_ids cs)
  ids-swap_in nil a b = refl
  ids-swap_in (cons n w cs) a b =
      rw (ids-swap n a b, ids-swap_in cs a b)
        (sym (map-append (exchange a b) (pane_ids n) (children_ids cs)))

mutual
  unfolding swap_leaves

  twice : {W : Type 0} (t : LayoutNode W) (a b : ℕ) → swap_leaves (swap_leaves t a b) a b ≡ t
  twice (leaf id) a b = ap leaf (exchange-exchange a b id)
  twice (container d cs) a b = ap (container d) (twice_in cs a b)

  twice_in : {W : Type 0} (cs : Children W) (a b : ℕ) → swap_in (swap_in cs a b) a b ≡ cs
  twice_in nil a b = refl
  twice_in (cons n w cs) a b = rw (twice n a b, twice_in cs a b)

Apart-swap :
    {W : Type 0} (d : SplitDirection) (t : LayoutNode W) (a b : ℕ)
    → Apart d t
    → Apart d (swap_leaves t a b)
unfolding swap_leaves
Apart-swap d (leaf id) a b h = tt
Apart-swap d (container e cs) a b h = h

size-swap_in : {W : Type 0} (cs : Children W) (a b : ℕ) → size (swap_in cs a b) ≡ size cs
unfolding swap_leaves
size-swap_in nil a b = refl
size-swap_in (cons n w cs) a b = ap suc (size-swap_in cs a b)

mutual
  unfolding swap_leaves

  IsTiled-leaves :
      {W : Type 0} (t : LayoutNode W) (a b : ℕ) → IsTiled t → IsTiled (swap_leaves t a b)
  IsTiled-leaves (leaf id) a b h = tt
  IsTiled-leaves (container d cs) a b h = (rw (size-swap_in cs a b) h.0, tiled-swap_in d cs a b h.1)

  tiled-swap_in :
      {W : Type 0} (d : SplitDirection) (cs : Children W) (a b : ℕ)
      → AreTiled d cs
      → AreTiled d (swap_in cs a b)
  tiled-swap_in d nil a b h = tt
  tiled-swap_in d (cons n w cs) a b h =
      (Apart-swap d n a b h.0, IsTiled-leaves n a b h.1, tiled-swap_in d cs a b h.2)

count-exchange :
    (a b p : ℕ) (xs : List ℕ) → count p (map (exchange a b) xs) ≡ count (exchange a b p) xs
count-exchange a b p [] = refl
count-exchange a b p (x ∷ xs) = ground (arith, count-exchange a b p xs)

module _ {W : Type 0} (t : LayoutNode W) (a b : ℕ) {u : LayoutNode W}
    (done : swap t a b ≡ ok u) where
  swap_both : (contains t a ≡ true) × (contains t b ≡ true) × (u ≡ swap_leaves t a b)
  unfolding swap
  swap_both = elim (Bool-cases (contains t a)) [
    | inr nowhere ↦ absurd (ground arith)
    | inl first ↦ elim (Bool-cases (contains t b)) [
      | inr nowhere ↦ absurd (ground arith)
      | inl second ↦ (first, second, ground arith)
    ]
  ]

  pub swap-Has : Has a (pane_ids t) × Has b (pane_ids t)
  swap-Has = let (x, y, _) = swap_both in ((contains_iff t a).0 x, (contains_iff t b).0 y)

  pane_ids-swap : pane_ids u ≡ map (exchange a b) (pane_ids t)
  pane_ids-swap = let (_, _, e) = swap_both in rw e (ids-swap t a b)

  count-swap_any : (p : ℕ) → count p (pane_ids u) ≡ count (exchange a b p) (pane_ids t)
  count-swap_any p = rw pane_ids-swap (count-exchange a b p (pane_ids t))

  -- In a tree without duplicates a swap that succeeds keeps each pane, as often as before.
  pub count-swap : IsUnique (pane_ids t) → (p : ℕ) → count p (pane_ids u) ≡ count p (pane_ids t)
  count-swap distinct p =
      ground (arith, count-swap_any p, swap-Has.0, swap-Has.1, distinct a, distinct b)

  swap_again : (contains u a ≡ true) × (contains u b ≡ true)
  swap_again = (
    (contains_iff u a).1 (ground (arith, count-swap_any a, swap-Has.1)),
    (contains_iff u b).1 (ground (arith, count-swap_any b, swap-Has.0)),
  )

  -- Swapping the same two panes once more succeeds and gives back the tree, weights included.
  pub swap-swap : swap u a b ≡ ok t
  unfolding swap
  swap-swap =
      let (_, _, e) = swap_both in rw (swap_again.0, swap_again.1) (ap ok (rw e (twice t a b)))

  pub swap-IsTiled : IsTiled t → IsTiled u
  swap-IsTiled h = let (_, _, e) = swap_both in rw e (IsTiled-leaves t a b h)
