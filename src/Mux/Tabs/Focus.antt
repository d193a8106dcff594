-- ===== src/Mux/Tabs/Focus.antt =====
-- state.rs: the operations of a tab keep its tree tiled and its focus on one of its panes.
use oakterm.Prelude.{
  ℕ, ◌+◌, ◌-◌, ◌≡◌, sym, ap, subst, ◌∙◌, refl, append-nil, inl, inr, Bool-cases, ◌==◌, arith,
}
use oakterm.Prelude.Counts.{Has, IsUnique, count, single}
use oakterm.F32.{F32}
use oakterm.Mux.Outcome.{ok, >>=-eq-ok, if-eq-ok, pane_already_present}
use oakterm.Mux.Layout.{SplitDirection, LayoutNode, pane_ids, contains}
use oakterm.Mux.Layout.Members.{IsTiled}
use oakterm.Mux.Layout.Shape.{shape, pane_ids_of_shape, IsTiled-of_shape}
use oakterm.Mux.Ops.{last_pane, removed, split, close}
use oakterm.Mux.Ops.Split.{count-InsertedAfter, split-eq-ok}
use oakterm.Mux.Ops.Close.{Closed, close-eq-ok}
use oakterm.Mux.Ops.Removal.{Without, count-Without}
use oakterm.Mux.Ops.Resize.{resize, resize-shape}
use oakterm.Mux.Ops.Swap.{swap, count-swap, swap-IsTiled}
use oakterm.Mux.Tabs.{
  Tab, IsTab, new_tab_around, tab_pane_ids, tab_contains, tab_split, tab_swap, tab_resize,
  tab_close_pane, refocus,
}

module _ {W : Type 0} where
  pub tab_panes : (t : Tab W) → IsTab t → tab_pane_ids t ≡ pane_ids t.layout
  tab_panes t h = rw (h.grounded) (append-nil (pane_ids t.layout))

  pub new_tab_around-IsTab : (id pane : ℕ) → IsTab {W = W} (new_tab_around id pane)
  unfolding pane_ids
  new_tab_around-IsTab id pane = record { tiled = tt; focused = ground arith; grounded = refl }

  pub tab_contains_iff : (t : Tab W) (p : ℕ) → IsTab t → tab_contains t p ≡ contains t.layout p
  tab_contains_iff t p h = rw (h.grounded) (ground arith)

  -- A new tree for the tab, with at least the focused pane.
  with_layout :
      (t : Tab W) (l : LayoutNode W)
      → IsTab t
      → IsTiled l
      → Has t.focused_pane (pane_ids l)
      → IsTab (record t { layout = l })
  with_layout t l h tiled focused = record {
    tiled = tiled;
    focused = focused;
    grounded = h.grounded;
  }

  -- What a tab's operation may do: the invariant and the id stay, and the panes change by `change`.
  pub record Keeps (change : ℕ → ℕ → ℕ) (t u : Tab W) : Type 0 where
    pub same_id : u.id ≡ t.id
    pub valid : IsTab u
    pub panes : (p : ℕ) → count p (tab_pane_ids u) ≡ change p (count p (tab_pane_ids t))

  pub tab_swap-Keeps :
      (t : Tab W) (a b : ℕ) {u : Tab W}
      → IsTab t
      → IsUnique (tab_pane_ids t)
      → tab_swap t a b ≡ ok u
      → Keeps (λ _ n. n) t u
  tab_swap-Keeps t a b {u} h distinct e =
      let (l, done, r) = >>=-eq-ok (swap t.layout a b) _ e in
      let same : record t { layout = l } ≡ u = ground arith in
      let ids = tab_panes t h in
      let kept = count-swap t.layout a b done (rw ids at distinct) in
      let valid : IsTab (record t { layout = l }) =
        with_layout t l h (swap-IsTiled t.layout a b done h.tiled)
          (omega (arith, kept t.focused_pane, h.focused)) in
      rw (← same) (record {
        same_id = refl;
        valid = valid;
        panes = λ p. rw (ids, tab_panes (record t { layout = l }) valid) (kept p);
      })

module _ {W : Type 0} where
  refocused-Keeps :
      (t : Tab W) (target : ℕ) (l : LayoutNode W) (focus hint : ℕ)
      → IsTab t
      → Without target (pane_ids t.layout) (pane_ids l)
      → IsTiled l
      → Has focus (pane_ids l)
      → Has hint (pane_ids l)
      → let u = record t { layout = l; focused_pane = focus } in
        Keeps (λ p n. n - single p target) t u × Has hint (tab_pane_ids u)
  refocused-Keeps t target l focus hint h out tiled focused within =
      let u : Tab W = record t { layout = l; focused_pane = focus } in
      let valid : IsTab u = record { tiled = tiled; focused = focused; grounded = h.grounded } in
      (
        record {
          same_id = refl;
          valid = valid;
          panes = λ p. rw (tab_panes u valid, tab_panes t h) (omega (arith, count-Without p out));
        },
        rw (tab_panes u valid) within,
      )

module _ {W : Type 0} ⦃f : F32 W⦄ where
  pub tab_split-Keeps :
      (t : Tab W) (target new_pane : ℕ) (d : SplitDirection) {u : Tab W}
      → IsTab t
      → tab_split t target new_pane d ≡ ok u
      → Keeps (λ p n. single p new_pane + n) t u
  tab_split-Keeps t target new_pane d {u} h e =
      let passed = if-eq-ok (tab_contains t new_pane) (pane_already_present new_pane) e in
      let (l, done, r) = >>=-eq-ok (split t.layout target new_pane d) _ passed in
      let same : record t { layout = l } ≡ u = ground arith in
      let ids = tab_panes t h in
      let (inserted, tiled) = split-eq-ok t.layout target new_pane d done in
      let valid : IsTab (record t { layout = l }) =
        with_layout t l h (tiled h.tiled)
          (omega (arith, count-InsertedAfter t.focused_pane inserted, h.focused)) in
      rw (← same) (record {
        same_id = refl;
        valid = valid;
        panes = λ p.
            rw (ids, tab_panes (record t { layout = l }) valid) (count-InsertedAfter p inserted);
      })

  pub tab_resize-Keeps :
      (t : Tab W) (pane neighbor : ℕ) (delta min_weight : W) {u : Tab W}
      → IsTab t
      → tab_resize t pane neighbor delta min_weight ≡ ok u
      → Keeps (λ _ n. n) t u
  tab_resize-Keeps t pane neighbor delta min_weight {u} h e =
      let (l, done, r) = >>=-eq-ok (resize t.layout pane neighbor delta min_weight) _ e in
      let same : record t { layout = l } ≡ u = ground arith in
      let shapes : shape l ≡ shape t.layout =
        resize-shape delta min_weight t.layout pane neighbor done in
      let ids = pane_ids_of_shape l t.layout shapes in
      let valid : IsTab (record t { layout = l }) =
        with_layout t l h (IsTiled-of_shape t.layout l (sym shapes) h.tiled) (rw ids (h.focused)) in
      rw (← same) (record {
        same_id = refl;
        valid = valid;
        panes = λ p. rw (tab_panes (record t { layout = l }) valid, tab_panes t h) (rw ids);
      })

  refocus-Keeps :
      (t : Tab W) (target : ℕ) (l : LayoutNode W) (hint : ℕ)
      → IsTab t
      → Without target (pane_ids t.layout) (pane_ids l)
      → IsTiled l
      → Has hint (pane_ids l)
      → Keeps
          (λ p n. n - single p target)
          t
          (refocus (record t { layout = l }) target (removed hint))
        × Has hint (tab_pane_ids (refocus (record t { layout = l }) target (removed hint)))
  refocus-Keeps t target l hint h out tiled within = elim (Bool-cases (t.focused_pane == target)) [
    | inl moved ↦ rw moved (refocused-Keeps t target l hint hint h out tiled within within)
    | inr stays ↦ rw stays (
        refocused-Keeps t target l t.focused_pane hint h out tiled
          (ground (arith, count-Without t.focused_pane out, h.focused)) within)
  ]

  -- A close that leaves panes in the tab.
  pub tab_close-Keeps :
      (t : Tab W) (target : ℕ) {u : Tab W} {hint : ℕ}
      → IsTab t
      → tab_close_pane t target ≡ ok (u, removed hint)
      → Keeps (λ p n. n - single p target) t u × Has hint (tab_pane_ids u)
  tab_close-Keeps t target {u} {hint} h e =
      let (r, done, rest) = >>=-eq-ok (close t.layout target) _ e in
      let o : r.1 ≡ removed hint = ground arith in
      let same : refocus (record t { layout = r.0 }) target r.1 ≡ u = ground arith in
      let (out, kept) = subst (Closed t.layout target r.0) o (close-eq-ok t.layout target done) in
      let (tiled, within) = kept h.tiled in
      let good = refocus-Keeps t target r.0 hint h out tiled within in
      subst (λ x. Keeps (λ p n. n - single p target) t x × Has hint (tab_pane_ids x))
        (ap (refocus (record t { layout = r.0 }) target) (sym o) ∙ same) good

  -- A close of the tab's only pane leaves the tab as it was.
  pub tab_close-last_pane :
      (t : Tab W) (target : ℕ) {u : Tab W}
      → IsTab t
      → tab_close_pane t target ≡ ok (u, last_pane)
      → (u ≡ t) × ((p : ℕ) → count p (tab_pane_ids t) ≡ single p target)
  unfolding pane_ids
  tab_close-last_pane t target {u} h e =
      let (r, done, rest) = >>=-eq-ok (close t.layout target) _ e in
      let o : r.1 ≡ last_pane = ground arith in
      let same : refocus (record t { layout = r.0 }) target r.1 ≡ u = ground arith in
      let (kept, single_leaf) =
        subst (Closed t.layout target r.0) o (close-eq-ok t.layout target done) in
      (
        sym same
            ∙ ap (refocus (record t { layout = r.0 }) target) o
            ∙ ap (λ l. record t { layout = l }) kept,
        λ p. rw (tab_panes t h, single_leaf) (omega arith),
      )
