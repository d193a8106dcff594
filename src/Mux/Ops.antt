-- ===== src/Mux/Ops.antt =====
-- crates/oakterm-mux/src/ops.rs: split, close and what the operations share. The code mutates the tree in place;
-- here each operation returns the new tree, and an error leaves the caller with the old one.
pub mod Indices
pub mod Split
pub mod Removal
pub mod Close
pub mod Resize
pub mod Swap
use oakterm.Prelude.{
  ℕ, zero, suc, ◌+◌, not, ◌&&◌, Option, none, some, List, [], ◌∷◌, if◌then◌else◌, ◌==◌, head?,
  last?,
}
use oakterm.F32.{F32}
use oakterm.Mux.Outcome.{Outcome, ok, err, panicked, pane_not_found, pane_already_present, ◌>>=◌}
use oakterm.Mux.Layout.{
  SplitDirection, LayoutNode, Children, leaf, container, nil, cons, size, pane_ids, contains,
  flatten,
}
use oakterm.Mux.Geometry.{SplitSite, sibling, halve, position_leaf, node_get, locate_split_site}

module _ {W : Type 0} where
  -- `children[i].node = n`
  abbrev pub node_set : Children W → ℕ → LayoutNode W → Children W
  node_set nil i m = nil
  node_set (cons n w cs) zero m = cons m w cs
  node_set (cons n w cs) (suc i) m = cons n w (node_set cs i m)

  -- `Vec::insert`, which panics past the end.
  abbrev pub insert_child : Children W → ℕ → LayoutNode W → W → Outcome (Children W)
  insert_child cs zero m v = ok (cons m v cs)
  insert_child nil (suc i) m v = panicked
  insert_child (cons n w cs) (suc i) m v = insert_child cs i m v >>= λ ds. ok (cons n w ds)

  -- `Vec::remove` of an index in range.
  abbrev pub remove_child : Children W → ℕ → Children W
  remove_child nil i = nil
  remove_child (cons n w cs) zero = cs
  remove_child (cons n w cs) (suc i) = cons n w (remove_child cs i)

  abbrev pub map_weights : (W → W) → Children W → Children W
  map_weights g nil = nil
  map_weights g (cons n w cs) = cons n (g w) (map_weights g cs)

  -- `*node_at_mut(node, path) = g(..)`: the change `g` at the end of the path.
  unfoldable pub change_at :
      LayoutNode W → List ℕ → (LayoutNode W → Outcome (LayoutNode W)) → Outcome (LayoutNode W)
  change_at n [] g = g n
  change_at (leaf _) (i ∷ path) g = panicked
  change_at (container d cs) (i ∷ path) g =
      node_get cs i >>= λ n. change_at n path g >>= λ m. ok (container d (node_set cs i m))

  abbrev pub ids_head : LayoutNode W → Option ℕ
  ids_head n = head? (pane_ids n)

  -- The pane nearest to the vacated slot: the last of the sibling before it, or the first of the
  -- one behind it.
  abbrev pub hint_behind : Children W → Option ℕ
  hint_behind nil = none
  hint_behind (cons n _ _) = ids_head n

  abbrev pub hint_from : LayoutNode W → Children W → ℕ → Option ℕ
  hint_from prev nil i = none
  hint_from prev (cons n _ cs) zero = last? (pane_ids prev)
  hint_from prev (cons n _ cs) (suc i) = hint_from n cs i

  abbrev pub hint_at : Children W → ℕ → Option ℕ
  hint_at nil i = none
  hint_at (cons _ _ cs) zero = hint_behind cs
  hint_at (cons n _ cs) (suc i) = hint_from n cs i

pub data CloseOutcome : Type 0 where
  last_pane : CloseOutcome
  removed : ℕ → CloseOutcome

-- Beside the hint, the removal returns the container that `remove_leaf` changes in place.
pub data LeafRemoval (N : Type 0) : Type 0 where
  not_found : LeafRemoval N
  found : Option ℕ → N → LeafRemoval N

abbrev pub map_found : {A B : Type 0} → (A → B) → LeafRemoval A → LeafRemoval B
map_found g not_found = not_found
map_found g (found hint a) = found hint (g a)

module _ {W : Type 0} ⦃f : F32 W⦄ where
  open f use {of_ℕ, literal, add, mul, div, lt, is_finite}

  abbrev pub insert_sibling : ℕ → ℕ → LayoutNode W → Outcome (LayoutNode W)
  insert_sibling target_pos new_pane (leaf _) = panicked
  insert_sibling target_pos new_pane (container d cs) =
      let n = of_ℕ (size cs) in
      let ratio = div n (add n (of_ℕ 1)) in
      insert_child (map_weights (λ w. mul w ratio) cs) (target_pos + 1) (leaf new_pane)
        (div (of_ℕ 1) (add n (of_ℕ 1)))
      >>= λ ds. ok (container d ds)

  abbrev pub halved : SplitDirection → ℕ → ℕ → LayoutNode W
  halved d target new_pane =
      container d (cons (leaf target) (literal 5 1) (cons (leaf new_pane) (literal 5 1) nil))

  abbrev pub split_at : LayoutNode W → ℕ → ℕ → SplitDirection → SplitSite → Outcome (LayoutNode W)
  split_at t target new_pane d (sibling path target_pos) =
      change_at t path (insert_sibling target_pos new_pane)
  split_at t target new_pane d (halve path) = change_at t path (λ _. ok (halved d target new_pane))

  unfoldable pub split_in : LayoutNode W → ℕ → ℕ → SplitDirection → Outcome (LayoutNode W)
  split_in t target new_pane d = locate_split_site t target d >>= split_at t target new_pane d

  unfoldable pub split : LayoutNode W → ℕ → ℕ → SplitDirection → Outcome (LayoutNode W)
  split t target new_pane d =
      if contains t new_pane
      then err (pane_already_present new_pane)
      else if not (contains t target)
      then err (pane_not_found target)
      else split_in t target new_pane d

  -- `iter().sum::<f32>()`
  abbrev pub sum_from : W → Children W → W
  sum_from acc nil = acc
  sum_from acc (cons _ w cs) = sum_from (add acc w) cs

  unfoldable pub renormalize : Children W → Children W
  renormalize cs =
      let sum = sum_from (of_ℕ 0) cs in
      if is_finite sum && lt (of_ℕ 0) sum
      then map_weights (λ w. div w sum) cs
      else map_weights (λ _. div (of_ℕ 1) (of_ℕ (size cs))) cs

unfoldable mutual
  pub remove_leaf : {W : Type 0} ⦃f : F32 W⦄ → LayoutNode W → ℕ → LeafRemoval (LayoutNode W)
  remove_leaf (leaf _) target = not_found
  remove_leaf (container d cs) target = elim (position_leaf cs target) [
    | some i ↦ found (hint_at cs i) (container d (renormalize (remove_child cs i)))
    | none ↦ map_found (container d) (remove_in cs target)
  ]

  pub remove_in : {W : Type 0} ⦃f : F32 W⦄ → Children W → ℕ → LeafRemoval (Children W)
  remove_in nil target = not_found
  remove_in (cons n w cs) target = elim (remove_leaf n target) [
    | found hint m ↦ found hint (cons m w cs)
    | not_found ↦ map_found (cons n w) (remove_in cs target)
  ]

abbrev pub or_some : {A : Type 0} → Option A → Option A → Option A
or_some (some a) o = some a
or_some none o = o

abbrev pub unwrap_or : {A : Type 0} → Option A → A → A
unwrap_or (some a) b = a
unwrap_or none b = b

module _ {W : Type 0} ⦃f : F32 W⦄ where
  abbrev pub finish_close : ℕ → LeafRemoval (LayoutNode W) → Outcome (LayoutNode W × CloseOutcome)
  finish_close target not_found = err (pane_not_found target)
  finish_close target (found hint n) =
      let t = flatten n in ok (t, removed (unwrap_or (or_some hint (ids_head t)) target))

  unfoldable pub close : LayoutNode W → ℕ → Outcome (LayoutNode W × CloseOutcome)
  close (leaf id) target =
      if id == target then ok (leaf id, last_pane) else err (pane_not_found target)
  close (container d cs) target = finish_close target (remove_leaf (container d cs) target)
