-- ===== src/Mux/State/Operations.antt =====
-- crates/oakterm-mux/src/state.rs: the operations on panes, tabs and workspaces that exist.
use oakterm.Prelude.{
  ℕ, ◌-◌, min, Bool, true, false, Option, none, some, List, [], ◌∷◌, ◌++◌, String, if◌then◌else◌,
  ◌==◌, length, erase_idx, insert_idx, position, is_some,
}
use oakterm.F32.{F32}
use oakterm.Mux.Outcome.{Outcome, ok, err, pane_not_found, pane_already_present, ◌>>=◌}
use oakterm.Mux.Layout.{SplitDirection}
use oakterm.Mux.Ops.{CloseOutcome, last_pane}
use oakterm.Mux.Tabs.{Tab, tab_pane_ids, set_tab_name, tab_split, tab_close_pane, tab_resize}
use oakterm.Mux.State.{
  MultiplexerState, Workspace, PaneCloseOutcome, removed, tab_closed, clamp_active_after_remove,
  close_tab, locate, locate_tab, workspace_at, put_workspace, tab_at, put_tab, at_located, at_tab,
  note_external_pane_id,
}

abbrev pub unwrap_index : Option ℕ → ℕ → ℕ
unwrap_index (some i) d = i
unwrap_index none d = d

module _ {W : Type 0} where
  -- `flat_map(Tab::pane_ids)`
  abbrev pub panes_of_tabs : List (Tab W) → List ℕ
  panes_of_tabs [] = []
  panes_of_tabs (t ∷ ts) = tab_pane_ids t ++ panes_of_tabs ts

  abbrev pub close_workspace_at : MultiplexerState W → ℕ → MultiplexerState W
  close_workspace_at s wi =
      let left = erase_idx s.workspaces wi in
      record s {
        workspaces = left;
        active_workspace = clamp_active_after_remove s.active_workspace wi (length left);
      }

  unfoldable pub rename_tab : MultiplexerState W → ℕ → String → Outcome (MultiplexerState W × Bool)
  rename_tab s tab name = elim (locate_tab s tab) [
    | none ↦ ok (s, false)
    | some place ↦ at_tab s place (λ t. ok (set_tab_name t name)) >>= λ s'. ok (s', true)
  ]

  unfoldable pub rename_workspace :
      MultiplexerState W → ℕ → String → Outcome (MultiplexerState W × Bool)
  rename_workspace s id name = elim (position (λ w. w.id == id) s.workspaces) [
    | none ↦ ok (s, false)
    | some wi ↦
        workspace_at s wi >>= λ ws. ok (put_workspace s wi (record ws { name = name }), true)
  ]

  -- A tab taken out and put back; the active index follows the id of the active tab.
  abbrev pub reorder : Workspace W → ℕ → ℕ → ℕ → Tab W → Workspace W
  reorder ws active_id source to moved =
      let tabs = insert_idx (erase_idx ws.tabs source) to moved in
      record ws {
        tabs = tabs;
        active_tab = unwrap_index (position (λ t. t.id == active_id) tabs) ws.active_tab;
      }

  unfoldable pub move_tab : MultiplexerState W → ℕ → ℕ → Outcome (MultiplexerState W × Bool)
  move_tab s tab new_index = elim (locate_tab s tab) [
    | none ↦ ok (s, false)
    | some (wi, source) ↦ workspace_at s wi >>= λ ws. tab_at ws ws.active_tab >>= λ active.
        tab_at ws source >>= λ moved.
        let to = min new_index (length ws.tabs - 1) in
        if to == source
        then ok (s, true)
        else ok (put_workspace s wi (reorder ws active.id source to moved), true)
  ]

  unfoldable pub close_workspace :
      MultiplexerState W → ℕ → Outcome (MultiplexerState W × Option (List ℕ))
  close_workspace s id = elim (position (λ w. w.id == id) s.workspaces) [
    | none ↦ ok (s, none)
    | some wi ↦
        workspace_at s wi >>= λ ws. ok (close_workspace_at s wi, some (panes_of_tabs ws.tabs))
  ]

  -- The last pane closes its tab, and the last tab its workspace.
  abbrev pub cascade :
      MultiplexerState W → ℕ → Workspace W → ℕ → MultiplexerState W × PaneCloseOutcome
  cascade s wi ws tab =
      let (ws', emptied) = close_tab ws tab in
      let s' = put_workspace s wi ws' in
      if emptied
      then (close_workspace_at s' wi, tab_closed tab (some ws.id))
      else (s', tab_closed tab none)

  abbrev pub after_close :
      MultiplexerState W
      → ℕ
      → Workspace W
      → ℕ
      → Tab W
      → CloseOutcome
      → MultiplexerState W × PaneCloseOutcome
  after_close s wi ws ti t (CloseOutcome.removed hint) =
      (put_workspace s wi (put_tab ws ti t), removed hint)
  after_close s wi ws ti t last_pane = cascade s wi ws t.id

module _ {W : Type 0} ⦃f : F32 W⦄ where
  unfoldable pub split_pane :
      MultiplexerState W → ℕ → ℕ → SplitDirection → Outcome (MultiplexerState W)
  split_pane s target new_pane d =
      if is_some (locate s new_pane)
      then err (pane_already_present new_pane)
      else (at_located s target (λ t. tab_split t target new_pane d) >>= λ s'.
          ok (note_external_pane_id s' new_pane))

  unfoldable pub resize_pane : MultiplexerState W → ℕ → ℕ → W → W → Outcome (MultiplexerState W)
  resize_pane s pane neighbor delta min_weight =
      at_located s pane (λ t. tab_resize t pane neighbor delta min_weight)

  unfoldable pub close_pane :
      MultiplexerState W → ℕ → Outcome (MultiplexerState W × PaneCloseOutcome)
  close_pane s pane = elim (locate s pane) [
    | none ↦ err (pane_not_found pane)
    | some (wi, ti) ↦ workspace_at s wi >>= λ ws.
        tab_at ws ti >>= λ t. tab_close_pane t pane >>= λ r. ok (after_close s wi ws ti r.0 r.1)
  ]
