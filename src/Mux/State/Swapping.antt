-- ===== src/Mux/State/Swapping.antt =====
-- state.rs: every outcome of `swap_panes`.
use oakterm.Prelude.{
  ℕ, Bool, ◌≡◌, refl, ◌⊎◌, inl, inr, Bool-cases, true, false, Option-cases, arith,
}
use oakterm.Mux.Outcome.{ok, err, pane_not_found}
use oakterm.Mux.Layout.{contains}
use oakterm.Mux.Ops.Swap.{swap, swap_leaves}
use oakterm.Mux.Tabs.{Tab, tab_contains, tab_swap}
use oakterm.Mux.Tabs.Focus.{tab_contains_iff}
use oakterm.Mux.State.{MultiplexerState, locate, put_workspace, put_tab, swap_panes}
use oakterm.Mux.State.Valid.{tracked, IsValid, Found, Found_of_locate, locate-none}
use oakterm.Mux.State.Changes.{swap_panes-IsValid}
use oakterm.Mux.State.Focus.{Found-IsTab}

-- A tab that holds the pane, and whether it holds a second one.
abbrev pub Together : {W : Type 0} → MultiplexerState W → ℕ → ℕ → Bool → Type 0
Together {W} s a b answer =
    (place : ℕ × ℕ) × (r : Found s.workspaces (λ (t : Tab W). tab_contains t a) place)
    × (tab_contains r.tab b ≡ answer)

module _ {W : Type 0} (a b : ℕ) where
  tab_swap-runs :
      (t : Tab W)
      → contains t.layout a ≡ true
      → ((contains t.layout b ≡ false) × (tab_swap t a b ≡ err (pane_not_found b)))
        ⊎ ((contains t.layout b ≡ true) × ((u : Tab W) × (tab_swap t a b ≡ ok u)))
  unfolding swap
  tab_swap-runs t here = elim (Bool-cases (contains t.layout b)) [
    | inr gone ↦ inl (gone, rw (here, gone) refl)
    | inl there ↦
        inr (there, (record t { layout = swap_leaves t.layout a b }, rw (here, there) refl))
  ]

  -- `swap_panes` in a valid state has three outcomes, and a panic is none of them: the error for a
  -- first pane that no tab holds, the error for a second pane that is not in the tab of the first,
  -- and otherwise a swap that keeps the invariant and every pane.
  pub swap_panes_lem :
      (s : MultiplexerState W) (v : IsValid s)
      → ((tracked s a ≡ 0) × (swap_panes s a b ≡ err (pane_not_found a)))
        ⊎ (Together s a b false × (swap_panes s a b ≡ err (pane_not_found b)))
        ⊎ ((s' : MultiplexerState W) × (swap_panes s a b ≡ ok s')
            × Together s a b true
            × IsValid s'
            × ((p : ℕ) → tracked s' p ≡ tracked s p))
  unfolding swap_panes
  swap_panes_lem s v = elim (Option-cases (locate s a)) [
    | inl gone ↦ inl (locate-none s a gone, ground arith)
    | inr (place, at) ↦
        let test = λ (t : Tab W). tab_contains t a in
        let r = Found_of_locate test s.workspaces at in
        let (_, h) = Found-IsTab s place test r v in
        elim (tab_swap-runs r.tab (rw (← tab_contains_iff r.tab a h) r.passes)) [
          | inl (apart, e) ↦ inr (
              inl (
                (place, r, rw (tab_contains_iff r.tab b h) apart),
                ground (arith, at, r.at_workspace, r.at_tab, e),
              ))
          | inr (there, (u, done)) ↦
              let s' = put_workspace s place.0 (put_tab r.workspace place.1 u) in
              let run : swap_panes s a b ≡ ok s' =
                ground (arith, at, r.at_workspace, r.at_tab, done) in
              let (valid, same) = swap_panes-IsValid s v a b run in
              inr (inr (s', run, (place, r, rw (tab_contains_iff r.tab b h) there), valid, same))
        ]
  ]
