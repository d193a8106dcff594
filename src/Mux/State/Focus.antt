-- ===== src/Mux/State/Focus.antt =====
-- state.rs: `focus_pane` and the renamings keep the invariant, and what is focused then.
use oakterm.Prelude.{
  ℕ, ◌<◌, ◌≡◌, refl, ap, sym, ◌∙◌, Bool, true, false, Option, none, some, inl, inr, ◌⊎◌,
  Option-cases, length, get_elem?, arith, length-set,
}
use oakterm.Prelude.Counts.{single}
use oakterm.Prelude.Totals.{All-get, All-set, total-set, lt_of_get, get_elem?-set_self}
use oakterm.Mux.Outcome.{ok}
use oakterm.Mux.Layout.Members.{contains_iff}
use oakterm.Mux.Tabs.{Tab, IsTab, tab_contains}
use oakterm.Mux.Tabs.Focus.{tab_contains_iff}
use oakterm.Mux.State.{MultiplexerState, Workspace, locate, put_workspace, put_tab, focus_pane}
use oakterm.Mux.State.Valid.{
  OnceBelow-le, pane_bound, pane_count, tab_id_count, workspace_count, tracked, IsWorkspace,
  IsValid, Found, Found_of_locate, locate-none,
}
use oakterm.Mux.State.Changes.{put_workspace-IsValid, tracked_of_locate}

module _ {W : Type 0} where
  -- `active_workspace().map(Workspace::active_tab)`, and its focused pane.
  abbrev pub active_tab : MultiplexerState W → Option (Tab W)
  active_tab s = elim (get_elem? s.workspaces s.active_workspace) [
    | none ↦ none
    | some ws ↦ get_elem? ws.tabs ws.active_tab
  ]

  abbrev pub focused : MultiplexerState W → Option ℕ
  focused s = elim (active_tab s) [ none ↦ none | some t ↦ some t.focused_pane ]

  -- The state after the focus moved to a pane that was found.
  abbrev focused_at :
      (s : MultiplexerState W) (pane : ℕ) (place : ℕ × ℕ)
      → Found s.workspaces (λ t. tab_contains t pane) place
      → MultiplexerState W
  focused_at s pane place r =
      record (put_workspace s place.0
        (record (put_tab r.workspace place.1 (record (r.tab) { focused_pane = pane })) {
          active_tab = place.1;
        })) { active_workspace = place.0 }

  focus-runs :
      (s : MultiplexerState W) (pane : ℕ) {place : ℕ × ℕ} (at : locate s pane ≡ some place)
      → let r = Found_of_locate (λ t. tab_contains t pane) s.workspaces at in
        focus_pane s pane ≡ ok (focused_at s pane place r, true)
  unfolding focus_pane
  focus-runs s pane at =
      let r = Found_of_locate (λ t. tab_contains t pane) s.workspaces at in
      ground (arith, r.at_workspace, r.at_tab, r.passes)

  -- A workspace replaced by one with the same id, tab ids and panes.
  pub same_totals :
      (s : MultiplexerState W) (wi : ℕ) (ws ws' : Workspace W)
      → IsValid s
      → get_elem? s.workspaces wi ≡ some ws
      → IsWorkspace ws'
      → ws'.id ≡ ws.id
      → ((i : ℕ) → workspace_count (tab_id_count i) ws' ≡ workspace_count (tab_id_count i) ws)
      → ((p : ℕ) → workspace_count (pane_count p) ws' ≡ workspace_count (pane_count p) ws)
      → IsValid (put_workspace s wi ws')
        × ((p : ℕ) → tracked (put_workspace s wi ws') p ≡ tracked s p)
  same_totals s wi ws ws' v got w id tabs panes =
      let s' = put_workspace s wi ws' in
      let same : (p : ℕ) → tracked s' p ≡ tracked s p = λ p.
        omega
          (arith, panes p, total-set (workspace_count (pane_count p)) s.workspaces wi ws' got) in
      (
        put_workspace-IsValid s wi ws ws' got s.next_pane_id v w id (λ i. omega (arith, tabs i))
            (OnceBelow-le (tracked s) (tracked s') pane_bound s.next_pane_id s.next_pane_id v.panes
              (omega arith) (λ p. omega (arith, same p))),
        same,
      )

  -- A tab replaced by one with the same id and panes, under an active index in range.
  pub same_panes :
      (s : MultiplexerState W) (place : ℕ × ℕ) (test : Tab W → Bool)
      (r : Found s.workspaces test place) (t' : Tab W) (active : ℕ)
      → let s' =
          put_workspace s place.0
            (record (put_tab r.workspace place.1 t') { active_tab = active }) in
        IsValid s
        → active < length r.workspace.tabs
        → IsTab t'
        → t'.id ≡ (r.tab).id
        → ((p : ℕ) → pane_count p t' ≡ pane_count p r.tab)
        → IsValid s' × ((p : ℕ) → tracked s' p ≡ tracked s p)
  same_panes s place test r t' active v within h id panes =
      let ws = r.workspace in
      let w = All-get IsWorkspace s.workspaces place.0 v.sound r.at_workspace in
      same_totals s place.0 ws (record (put_tab ws place.1 t') { active_tab = active }) v
        r.at_workspace
        (record {
          tabs = All-set IsTab ws.tabs place.1 t' w.tabs h;
          active = rw (length-set ws.tabs place.1 t') within;
        })
        refl
        (λ i.
          let e : single i t'.id ≡ single i (r.tab).id = ap (single i) id in
          omega (arith, e, total-set (tab_id_count i) ws.tabs place.1 t' r.at_tab))
        (λ p. omega (arith, panes p, total-set (pane_count p) ws.tabs place.1 t' r.at_tab))

  pub Found-IsTab :
      (s : MultiplexerState W) (place : ℕ × ℕ) (test : Tab W → Bool)
      (r : Found s.workspaces test place)
      → IsValid s
      → IsWorkspace r.workspace × IsTab r.tab
  Found-IsTab s place test r v =
      let w = All-get IsWorkspace s.workspaces place.0 v.sound r.at_workspace in
      (w, All-get IsTab r.workspace.tabs place.1 w.tabs r.at_tab)

  focused_at-IsValid :
      (s : MultiplexerState W) (pane : ℕ) (place : ℕ × ℕ)
      (r : Found s.workspaces (λ t. tab_contains t pane) place)
      → IsValid s
      → IsValid (focused_at s pane place r)
        × ((p : ℕ) → tracked (focused_at s pane place r) p ≡ tracked s p)
        × (focused (focused_at s pane place r) ≡ some pane)
  focused_at-IsValid s pane place r v =
      let (w, h) = Found-IsTab s place (λ t. tab_contains t pane) r v in
      let t' : Tab W = record (r.tab) { focused_pane = pane } in
      let good : IsTab t' = record {
        tiled = h.tiled;
        focused =
            (contains_iff (r.tab).layout pane).0 (sym (tab_contains_iff r.tab pane h) ∙ r.passes);
        grounded = h.grounded;
      } in
      let within = lt_of_get r.workspace.tabs place.1 r.at_tab in
      let (u, same) = same_panes s place _ r t' place.1 v within good refl (λ p. refl) in
      let ws' = record (put_tab r.workspace place.1 t') { active_tab = place.1 } in
      let here = lt_of_get s.workspaces place.0 r.at_workspace in
      (
        record {
          sound = u.sound;
          active = rw (length-set s.workspaces place.0 ws') (omega (arith, here));
          panes = u.panes;
          tabs = u.tabs;
          ids = u.ids;
        },
        same,
        ground (
          arith,
          get_elem?-set_self s.workspaces place.0 ws' here,
          get_elem?-set_self r.workspace.tabs place.1 t' within,
        ),
      )

module _ {W : Type 0} (s : MultiplexerState W) (v : IsValid s) (pane : ℕ) where
  -- `focus_pane` never panics. A pane that the state tracks becomes the focused pane of the active
  -- tab of the active workspace, with the invariant and all panes kept; for any other pane nothing
  -- changes and the answer is `false`.
  pub focus_pane-focused :
      ((0 < tracked s pane)
        × ((s' : MultiplexerState W) × (focus_pane s pane ≡ ok (s', true))
            × IsValid s'
            × (focused s' ≡ some pane)
            × ((p : ℕ) → tracked s' p ≡ tracked s p)))
      ⊎ ((tracked s pane ≡ 0) × (focus_pane s pane ≡ ok (s, false)))
  unfolding focus_pane
  focus_pane-focused = elim (Option-cases (locate s pane)) [
    | inl gone ↦ inr (locate-none s pane gone, ground arith)
    | inr (place, at) ↦
        let r = Found_of_locate (λ t. tab_contains t pane) s.workspaces at in
        let (valid, same, here) = focused_at-IsValid s pane place r v in
        inl (
          tracked_of_locate s pane at,
          (focused_at s pane place r, focus-runs s pane at, valid, here, same),
        )
  ]
