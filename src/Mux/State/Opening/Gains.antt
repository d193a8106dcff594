-- ===== src/Mux/State/Opening/Gains.antt =====
-- state.rs: what a state gains when a tab or a workspace is opened for a pane.
use oakterm.Prelude.{
  ℕ, ◌+◌, ◌≡◌, refl, ap, ◌∙◌, some, [], ◌∷◌, String, ◌⊎◌, get_elem?, get-append_behind, arith,
}
use oakterm.Prelude.Counts.{single}
use oakterm.Prelude.Totals.{total-set, total-append, lt_of_get, get_elem?-set_self}
use oakterm.Mux.Outcome.{Outcome, ok, panicked}
use oakterm.Mux.Layout.{pane_ids}
use oakterm.Mux.Tabs.{Tab, tab_pane_ids, new_tab_around}
use oakterm.Mux.State.{MultiplexerState, Workspace, new_workspace_with, push_tab}
use oakterm.Mux.State.Valid.{tracked, workspaces_with, workspace_id_count, IsValid}
use oakterm.Mux.State.Focus.{active_tab}
use oakterm.Mux.State.Opening.Adding.{
  Adds, with_tab, with_tab-IsValid, with_workspace, with_workspace-IsValid,
}

module _ {W : Type 0} where
  -- The state `s'` has one pane, one tab and the given workspaces more than `s`: the pane alone in
  -- the new tab, which has the next tab id, is the active tab, and has its focus on the pane.
  pub record Gains (s s' : MultiplexerState W) (pane : ℕ) (ids : ℕ → ℕ) : Type 0 where
    pub valid : IsValid s'
    pub adds : Adds s s' pane
    pub workspaces : (i : ℕ) → workspaces_with s' i ≡ ids i + workspaces_with s i
    pub tab : Tab W
    pub active : active_tab s' ≡ some tab
    pub id : tab.id ≡ s.next_tab_id
    pub alone : tab_pane_ids tab ≡ pane ∷ []
    pub focus : tab.focused_pane ≡ pane

  -- The three ways in which an operation that opens a tab can end: it refuses and changes nothing,
  -- it panics because an allocator is exhausted, or it opens the tab.
  abbrev pub Opens :
      {R : Type 0}
      → MultiplexerState W
      → Outcome (MultiplexerState W × R)
      → Type 0
      → Type 0
      → ℕ
      → R
      → R
      → (ℕ → ℕ)
      → Type 0
  Opens s run refused full pane refusal answer ids =
      (refused × (run ≡ ok (s, refusal)))
      ⊎ ((¬ refused) × full × (run ≡ panicked))
      ⊎ ((¬ refused)
          × (¬ full)
          × ((s' : MultiplexerState W) × (run ≡ ok (s', answer)) × Gains s s' pane ids))

  pub with_tab-Gains :
      (s : MultiplexerState W) (ws : Workspace W) (pane : ℕ)
      → IsValid s
      → get_elem? s.workspaces s.active_workspace ≡ some ws
      → tracked s pane ≡ 0
      → Gains s (with_tab s ws pane) pane (λ _. 0)
  unfolding pane_ids
  with_tab-Gains s ws pane v got fresh =
      let t : Tab W = new_tab_around s.next_tab_id pane in
      let ws' = push_tab ws t in
      let (valid, adds) = with_tab-IsValid s ws pane v got fresh in
      let last : get_elem? (ws'.tabs) ws'.active_tab ≡ some t =
        ap (get_elem? ws'.tabs) (omega arith) ∙ get-append_behind ws.tabs (t ∷ []) 0 in
      let here =
        get_elem?-set_self s.workspaces s.active_workspace ws'
          (lt_of_get s.workspaces s.active_workspace got) in
      record {
        valid = valid;
        adds = adds;
        workspaces = λ i.
            omega (arith, total-set (workspace_id_count i) s.workspaces s.active_workspace ws' got);
        tab = t;
        active = ground (arith, here, last);
        id = refl;
        alone = refl;
        focus = refl;
      }

  pub with_workspace-Gains :
      (s : MultiplexerState W) (name : String) (pane : ℕ)
      → IsValid s
      → tracked s pane ≡ 0
      → Gains s (with_workspace s name pane) pane (λ i. single i s.next_workspace_id)
  unfolding pane_ids
  with_workspace-Gains s name pane v fresh =
      let t : Tab W = new_tab_around s.next_tab_id pane in
      let ws : Workspace W = new_workspace_with s.next_workspace_id name t in
      let (valid, adds) = with_workspace-IsValid s name pane v fresh in
      let s' = with_workspace s name pane in
      let last : get_elem? s'.workspaces s'.active_workspace ≡ some ws =
        ap (get_elem? s'.workspaces) (omega arith) ∙ get-append_behind s.workspaces (ws ∷ []) 0 in
      record {
        valid = valid;
        adds = adds;
        workspaces = λ i. omega (arith, total-append (workspace_id_count i) s.workspaces (ws ∷ []));
        tab = t;
        active = ground (arith, last);
        id = refl;
        alone = refl;
        focus = refl;
      }
