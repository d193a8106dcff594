-- ===== src/Mux/State/ClosePane.antt =====
-- state.rs: `close_pane`, with the cascade to the tab and the workspace.
use oakterm.Prelude.{
  ℕ, ◌+◌, ◌-◌, ◌≤◌, ◌<◌, ◌≡◌, refl, ap, true, none, some, List, [], ◌∷◌, inl, inr, ◌⊎◌,
  Option-cases, ◌==◌, length, get_elem?, set, erase_idx, position, arith,
}
use oakterm.Prelude.Counts.{single, single_self}
use oakterm.Prelude.Totals.{
  total, All-get, All-erase_idx, total-set, total-erase_idx, total-get, lt_of_get, length-erase_idx,
  get_elem?-set_self,
}
use oakterm.F32.{F32}
use oakterm.Mux.Outcome.{ok, err, pane_not_found}
use oakterm.Mux.Ops.{CloseOutcome, last_pane}
use oakterm.Mux.Ops.Close.{close-total}
use oakterm.Mux.Tabs.{Tab, IsTab, tab_contains, tab_close_pane, refocus}
use oakterm.Mux.Tabs.Focus.{tab_close-Keeps, tab_close-last_pane, tab_contains_iff}
use oakterm.Mux.State.{
  MultiplexerState, Workspace, PaneCloseOutcome, removed, tab_closed, clamp_active_after_remove,
  locate, put_workspace, put_tab,
}
use oakterm.Mux.State.Operations.{close_workspace_at, cascade, after_close, close_pane}
use oakterm.Mux.State.Valid.{
  OnceBelow-le, pane_bound, pane_count, tab_id_count, workspace_count, tracked, tabs_with,
  workspaces_with, IsWorkspace, IsValid, Found, Found_of_locate, locate-none, tab_contains-count,
}
use oakterm.Mux.State.Changes.{put_workspace-IsValid, tracked-at_place, at_place}
use oakterm.Mux.State.Focus.{Found-IsTab}
use oakterm.Mux.State.Closing.{clamp-lt, close_workspace_at-IsValid, position_unique, erase_idx-set}

-- The state after a pane is closed tracks it no longer and all others as before.
abbrev pub Loses : {W : Type 0} → MultiplexerState W → MultiplexerState W → ℕ → Type 0
Loses s s' pane = (p : ℕ) → tracked s p ≡ tracked s' p + single p pane

-- What the outcome says of the new state: the hint is a pane of it, a closed tab and a closed
-- workspace are gone.
abbrev pub Tells : {W : Type 0} → MultiplexerState W → PaneCloseOutcome → Type 0
Tells s' (removed hint) = 0 < tracked s' hint
Tells s' (tab_closed tab none) = tabs_with s' tab ≡ 0
Tells s' (tab_closed tab (some ws)) = (tabs_with s' tab ≡ 0) × (workspaces_with s' ws ≡ 0)

abbrev OutcomeOf :
    {W : Type 0} → MultiplexerState W → ℕ → MultiplexerState W × PaneCloseOutcome → Type 0
OutcomeOf s pane r = IsValid (r.0) × Loses s (r.0) pane × Tells (r.0) (r.1)

module _ {W : Type 0} where
  cascade-tab :
      (s : MultiplexerState W) (wi : ℕ) (ws : Workspace W) (ti : ℕ) (i : ℕ) (x : Tab W)
      (rest : List (Tab W))
      → position (λ t. t.id == i) ws.tabs ≡ some ti
      → erase_idx ws.tabs ti ≡ x ∷ rest
      → let left = erase_idx ws.tabs ti in
        let ws' = record ws {
          tabs = left;
          active_tab = clamp_active_after_remove ws.active_tab ti (length left);
        } in
        cascade s wi ws i ≡ (put_workspace s wi ws', tab_closed i none)
  cascade-tab s wi ws ti i x rest at e = ground arith

  cascade-workspace :
      (s : MultiplexerState W) (wi : ℕ) (ws : Workspace W) (ti : ℕ) (i : ℕ)
      → position (λ t. t.id == i) ws.tabs ≡ some ti
      → erase_idx ws.tabs ti ≡ []
      → cascade s wi ws i ≡ (close_workspace_at s wi, tab_closed i (some ws.id))
  cascade-workspace s wi ws ti i at e =
      let left = erase_idx ws.tabs ti in
      let ws' = record ws {
        tabs = left;
        active_tab = clamp_active_after_remove ws.active_tab ti (length left);
      } in
      ground (arith, erase_idx-set s.workspaces wi ws')

  -- The state when the workspace has another tab.
  tab_gone :
      (s : MultiplexerState W) (wi : ℕ) (ws : Workspace W) (ti : ℕ) (t : Tab W) (pane : ℕ)
      → let left = erase_idx ws.tabs ti in
        let ws' = record ws {
          tabs = left;
          active_tab = clamp_active_after_remove ws.active_tab ti (length left);
        } in
        IsValid s
        → get_elem? s.workspaces wi ≡ some ws
        → get_elem? ws.tabs ti ≡ some t
        → ((p : ℕ) → pane_count p t ≡ single p pane)
        → 0 < length left
        → OutcomeOf s pane (put_workspace s wi ws', tab_closed t.id none)
  tab_gone s wi ws ti t pane v got at only more =
      let w = All-get IsWorkspace s.workspaces wi v.sound got in
      let left = erase_idx ws.tabs ti in
      let shorter = length-erase_idx ws.tabs ti at in
      let ws' = record ws {
        tabs = left;
        active_tab = clamp_active_after_remove ws.active_tab ti (length left);
      } in
      let s' = put_workspace s wi ws' in
      let good : IsWorkspace ws' = record {
        tabs = All-erase_idx IsTab ws.tabs ti w.tabs;
        active =
            clamp-lt ws.active_tab ti (length left) (omega (arith, shorter, w.active))
              (omega (arith, shorter, lt_of_get ws.tabs ti at)) more;
      } in
      let loses : Loses s s' pane = λ p. omega (
        arith,
        only p,
        total-erase_idx (pane_count p) ws.tabs ti at,
        total-set (workspace_count (pane_count p)) s.workspaces wi ws' got,
      ) in
      let tabs : (i : ℕ) → tabs_with s i ≡ tabs_with s' i + single i t.id = λ i. omega (
        arith,
        total-erase_idx (tab_id_count i) ws.tabs ti at,
        total-set (workspace_count (tab_id_count i)) s.workspaces wi ws' got,
      ) in
      (
        put_workspace-IsValid s wi ws ws' got s.next_pane_id v good refl
            (λ i. omega (arith, total-erase_idx (tab_id_count i) ws.tabs ti at))
            (OnceBelow-le (tracked s) (tracked s') pane_bound s.next_pane_id s.next_pane_id v.panes
              (omega arith) (λ p. omega (arith, loses p))),
        loses,
        omega (arith, tabs t.id, (v.tabs t.id).0, single_self t.id),
      )

  -- The state when the tab was the workspace's last.
  workspace_gone :
      (s : MultiplexerState W) (wi : ℕ) (ws : Workspace W) (ti : ℕ) (t : Tab W) (pane : ℕ)
      → IsValid s
      → get_elem? s.workspaces wi ≡ some ws
      → get_elem? ws.tabs ti ≡ some t
      → ((p : ℕ) → pane_count p t ≡ single p pane)
      → erase_idx ws.tabs ti ≡ []
      → OutcomeOf s pane (close_workspace_at s wi, tab_closed t.id (some ws.id))
  workspace_gone s wi ws ti t pane v got at only none_left =
      let (valid, panes, ids) = close_workspace_at-IsValid s wi v got in
      let empty : (g : Tab W → ℕ) → total g ws.tabs ≡ g t =
        λ g. omega (arith, total-erase_idx g ws.tabs ti at, ap (total g) none_left) in
      (
        valid,
        (λ p. omega (arith, panes p, empty (pane_count p), only p)),
        (
          omega (
            arith,
            empty (tab_id_count t.id),
            (v.tabs t.id).0,
            single_self t.id,
            total-erase_idx (workspace_count (tab_id_count t.id)) s.workspaces wi got,
          ),
          omega (arith, ids ws.id, (v.ids ws.id).0, single_self ws.id),
        ),
      )

  found_at :
      (s : MultiplexerState W) (wi : ℕ) (ws : Workspace W) (ti : ℕ) (t : Tab W)
      → IsValid s
      → get_elem? s.workspaces wi ≡ some ws
      → get_elem? ws.tabs ti ≡ some t
      → position (λ x. x.id == t.id) ws.tabs ≡ some ti
  found_at s wi ws ti t v got at =
      position_unique t.id ws.tabs ti
        (omega (
          arith,
          (v.tabs t.id).0,
          total-get (workspace_count (tab_id_count t.id)) s.workspaces wi got,
        ))
        at refl

  cascade-here :
      (s : MultiplexerState W) (wi : ℕ) (ws : Workspace W) (ti : ℕ) (t : Tab W) (pane : ℕ)
      → IsValid s
      → get_elem? s.workspaces wi ≡ some ws
      → get_elem? ws.tabs ti ≡ some t
      → ((p : ℕ) → pane_count p t ≡ single p pane)
      → (left : List (Tab W)) → erase_idx ws.tabs ti ≡ left
      → OutcomeOf s pane (cascade s wi ws t.id)
  cascade-here s wi ws ti t pane v got at only [] e =
      rw (cascade-workspace s wi ws ti t.id (found_at s wi ws ti t v got at) e)
        (workspace_gone s wi ws ti t pane v got at only e)
  cascade-here s wi ws ti t pane v got at only (x ∷ left) e =
      rw (cascade-tab s wi ws ti t.id x left (found_at s wi ws ti t v got at) e)
        (tab_gone s wi ws ti t pane v got at only (rw e (omega arith)))

module _ {W : Type 0} ⦃f : F32 W⦄ (s : MultiplexerState W) (v : IsValid s) (pane : ℕ) where
  after_close-Outcome :
      (place : ℕ × ℕ) (r : Found s.workspaces (λ t. tab_contains t pane) place) (u : Tab W)
      (outcome : CloseOutcome)
      → tab_close_pane r.tab pane ≡ ok (u, outcome)
      → OutcomeOf s pane (after_close s place.0 r.workspace place.1 u outcome)
  after_close-Outcome place r u (CloseOutcome.removed hint) e =
      let (w, h) = Found-IsTab s place (λ t. tab_contains t pane) r v in
      let (k, within) = tab_close-Keeps r.tab pane h e in
      let change = λ (p n : ℕ). n - single p pane in
      let s' = put_workspace s place.0 (put_tab r.workspace place.1 u) in
      let here : 0 < pane_count pane r.tab =
        ground (arith, tab_contains-count r.tab pane, r.passes) in
      let loses : Loses s s' pane = λ p.
        let once : single p pane ≤ pane_count p r.tab = ground (arith, here) in
        omega (arith, once, tracked-at_place change s place (λ t. tab_contains t pane) r u k p) in
      (
        at_place change s place (λ t. tab_contains t pane) r u s.next_pane_id v k
            (OnceBelow-le (tracked s) (tracked s') pane_bound s.next_pane_id s.next_pane_id v.panes
              (omega arith) (λ p. omega (arith, loses p))),
        loses,
        omega (
          arith,
          within,
          total-get (pane_count hint) (set r.workspace.tabs place.1 u) place.1 (
              get_elem?-set_self r.workspace.tabs place.1 u
                (lt_of_get r.workspace.tabs place.1 r.at_tab)),
          total-get (workspace_count (pane_count hint))
              (set s.workspaces place.0 (put_tab r.workspace place.1 u)) place.0
              (get_elem?-set_self s.workspaces place.0 (put_tab r.workspace place.1 u)
                (lt_of_get s.workspaces place.0 r.at_workspace)),
        ),
      )
  after_close-Outcome place r u last_pane e =
      let (w, h) = Found-IsTab s place (λ t. tab_contains t pane) r v in
      let (same, only) = tab_close-last_pane r.tab pane h e in
      rw (ap (λ x. x.id) same) (
        cascade-here s place.0 r.workspace place.1 r.tab pane v r.at_workspace r.at_tab only
          (erase_idx r.workspace.tabs place.1) refl)

  tab_close-total :
      (t : Tab W)
      → IsTab t
      → tab_contains t pane ≡ true
      → (r : Tab W × CloseOutcome) × (tab_close_pane t pane ≡ ok r)
  tab_close-total t h here =
      let (r, done) = close-total t.layout pane (rw (← tab_contains_iff t pane h) here) in
      ((refocus (record t { layout = r.0 }) pane r.1, r.1), rw done)

  -- `close_pane` never panics. A pane that the state does not track is an error. Otherwise the pane,
  -- and only it, is tracked no longer and the invariant holds; the focus hint is a pane that is
  -- left, or else the tab reported as closed is gone, with the workspace reported with it.
  pub close_pane_lem :
      ((tracked s pane ≡ 0) × (close_pane s pane ≡ err (pane_not_found pane)))
      ⊎ ((s' : MultiplexerState W) × (outcome : PaneCloseOutcome) × (close_pane s pane
            ≡ ok (s', outcome))
          × IsValid s'
          × Loses s s' pane
          × Tells s' outcome)
  unfolding close_pane
  close_pane_lem = elim (Option-cases (locate s pane)) [
    | inl gone ↦ inl (locate-none s pane gone, ground arith)
    | inr (place, at) ↦
        let r = Found_of_locate (λ t. tab_contains t pane) s.workspaces at in
        let (w, h) = Found-IsTab s place (λ t. tab_contains t pane) r v in
        let (x, done) = tab_close-total r.tab h r.passes in
        let y = after_close s place.0 r.workspace place.1 (x.0) (x.1) in
        let (valid, loses, tells) = after_close-Outcome place r (x.0) (x.1) done in
        inr (y.0, y.1, ground (arith, r.at_workspace, r.at_tab, done), valid, loses, tells)
  ]
