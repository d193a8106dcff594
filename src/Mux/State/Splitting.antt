-- ===== src/Mux/State/Splitting.antt =====
-- state.rs: every outcome of `split_pane`.
use oakterm.Prelude.{ℕ, ◌+◌, ◌<◌, ◌≡◌, refl, ◌⊎◌, inl, inr, true, false, Option-cases, arith}
use oakterm.Prelude.Counts.{single}
use oakterm.F32.{F32}
use oakterm.Mux.Outcome.{ok, err, pane_not_found, pane_already_present}
use oakterm.Mux.Layout.{SplitDirection}
use oakterm.Mux.Ops.Split.{split_lem}
use oakterm.Mux.Tabs.{Tab, tab_contains, tab_split, IsTab}
use oakterm.Mux.Tabs.Focus.{tab_contains_iff}
use oakterm.Mux.State.{MultiplexerState, locate, put_workspace, put_tab, note_external_pane_id}
use oakterm.Mux.State.Operations.{split_pane}
use oakterm.Mux.State.Valid.{tracked, IsValid, Found_of_locate, locate-none, tab_contains-count}
use oakterm.Mux.State.Changes.{split_pane-IsValid, pane_count-le}
use oakterm.Mux.State.Focus.{Found-IsTab}

module _ {W : Type 0} ⦃f : F32 W⦄ (target new_pane : ℕ) (d : SplitDirection) where
  tab_split-runs :
      (t : Tab W)
      → IsTab t
      → tab_contains t target ≡ true
      → tab_contains t new_pane ≡ false
      → (u : Tab W) × (tab_split t target new_pane d ≡ ok u)
  tab_split-runs t h here gone =
      let (l, done, _, _) =
        split_lem t.layout target new_pane d (rw (← tab_contains_iff t new_pane h) gone)
          (rw (← tab_contains_iff t target h) here) in
      (record t { layout = l }, rw (gone, done) refl)

  -- `split_pane` in a valid state has three outcomes, and a panic is none of them. A new pane that
  -- some tab holds is refused first, then a target that none holds. Otherwise the split succeeds,
  -- keeps the invariant and adds exactly the new pane.
  pub split_pane_lem :
      (s : MultiplexerState W) (v : IsValid s)
      → ((0 < tracked s new_pane)
          × (split_pane s target new_pane d ≡ err (pane_already_present new_pane)))
        ⊎ ((tracked s new_pane ≡ 0)
            × (tracked s target ≡ 0)
            × (split_pane s target new_pane d ≡ err (pane_not_found target)))
        ⊎ ((s' : MultiplexerState W) × (split_pane s target new_pane d ≡ ok s')
            × IsValid s'
            × (tracked s new_pane ≡ 0)
            × ((p : ℕ) → tracked s' p ≡ single p new_pane + tracked s p))
  unfolding split_pane
  split_pane_lem s v = elim (Option-cases (locate s new_pane)) [
    | inr (place, at) ↦
        let r = Found_of_locate (λ t. tab_contains t new_pane) s.workspaces at in
        let held : 0 < tracked s new_pane = ground (
          arith,
          tab_contains-count r.tab new_pane,
          r.passes,
          pane_count-le s place (λ t. tab_contains t new_pane) r new_pane,
        ) in
        inl (held, rw at refl)
    | inl fresh ↦ elim (Option-cases (locate s target)) [
      | inl gone ↦ inr (inl (locate-none s new_pane fresh, locate-none s target gone, ground arith))
      | inr (place, at) ↦
          let test = λ (t : Tab W). tab_contains t target in
          let r = Found_of_locate test s.workspaces at in
          let (_, h) = Found-IsTab s place test r v in
          let none_here : tab_contains r.tab new_pane ≡ false = ground (
            arith,
            tab_contains-count r.tab new_pane,
            locate-none s new_pane fresh,
            pane_count-le s place test r new_pane,
          ) in
          let (u, done) = tab_split-runs r.tab h r.passes none_here in
          let s' =
            note_external_pane_id (put_workspace s place.0 (put_tab r.workspace place.1 u))
              new_pane in
          let run : split_pane s target new_pane d ≡ ok s' =
            ground (arith, fresh, at, r.at_workspace, r.at_tab, done) in
          let (valid, new, grown) = split_pane-IsValid s v target new_pane d run in
          inr (inr (s', run, valid, new, grown))
    ]
  ]
