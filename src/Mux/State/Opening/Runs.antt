-- ===== src/Mux/State/Opening/Runs.antt =====
-- state.rs: the branches of `new_tab`, `new_workspace` and `seed`.
use oakterm.Prelude.{
  ℕ, ◌≡◌, true, false, none, some, List, [], ◌∷◌, inl, inr, Bool-cases, ltb, get_elem?, arith, ◌⊎◌,
  String, is_some,
}
use oakterm.Mux.Outcome.{ok, panicked}
use oakterm.Mux.State.{MultiplexerState, Workspace, u32_max, locate, seed, new_tab, new_workspace}
use oakterm.Mux.State.Opening.Adding.{with_tab, with_workspace}

module _ {W : Type 0} (s : MultiplexerState W) (pane : ℕ) where
  pub new_tab-runs :
      (ws : Workspace W)
      → get_elem? s.workspaces s.active_workspace ≡ some ws
      → locate s pane ≡ none
      → ltb s.next_tab_id u32_max ≡ true
      → new_tab s pane ≡ ok (with_tab s ws pane, some s.next_tab_id)
  unfolding new_tab
  new_tab-runs ws got gone room = ground arith

  pub new_tab-full :
      (ws : Workspace W)
      → get_elem? s.workspaces s.active_workspace ≡ some ws
      → locate s pane ≡ none
      → ltb s.next_tab_id u32_max ≡ false
      → new_tab s pane ≡ panicked
  unfolding new_tab
  new_tab-full ws got gone room = ground arith

  pub new_tab-refuses :
      (get_elem? s.workspaces s.active_workspace ≡ none) ⊎ (is_some (locate s pane) ≡ true)
      → new_tab s pane ≡ ok (s, none)
  unfolding new_tab
  new_tab-refuses (inl empty) = ground arith
  new_tab-refuses (inr old) = ground arith

  pub new_workspace-runs :
      (name : String)
      → locate s pane ≡ none
      → ltb s.next_tab_id u32_max ≡ true
      → ltb s.next_workspace_id u32_max ≡ true
      → new_workspace s name pane ≡ ok (with_workspace s name pane, some s.next_workspace_id)
  unfolding new_workspace
  new_workspace-runs name gone room more = rw (gone, room, more)

  pub new_workspace-full :
      (name : String)
      → locate s pane ≡ none
      → (ltb s.next_tab_id u32_max ≡ false) ⊎ (ltb s.next_workspace_id u32_max ≡ false)
      → new_workspace s name pane ≡ panicked
  unfolding new_workspace
  new_workspace-full name gone (inl room) = rw (gone, room)
  new_workspace-full name gone (inr more) = elim (Bool-cases (ltb s.next_tab_id u32_max)) [
    | inl room ↦ rw (gone, room, more)
    | inr room ↦ rw (gone, room)
  ]

  pub new_workspace-refuses :
      (name : String) → is_some (locate s pane) ≡ true → new_workspace s name pane ≡ ok (s, none)
  unfolding new_workspace
  new_workspace-refuses name old = rw old

  pub seed-runs :
      s.workspaces ≡ []
      → ltb s.next_tab_id u32_max ≡ true
      → ltb s.next_workspace_id u32_max ≡ true
      → seed s pane ≡ ok (with_workspace s "default" pane, true)
  unfolding seed
  seed-runs empty room more = ground arith

  pub seed-full :
      s.workspaces ≡ []
      → (ltb s.next_tab_id u32_max ≡ false) ⊎ (ltb s.next_workspace_id u32_max ≡ false)
      → seed s pane ≡ panicked
  unfolding seed
  seed-full empty (inl room) = ground arith
  seed-full empty (inr more) = ground arith

  pub seed-refuses :
      {ws : Workspace W} {wss : List (Workspace W)}
      → s.workspaces ≡ ws ∷ wss
      → seed s pane ≡ ok (s, false)
  unfolding seed
  seed-refuses some_workspace = ground arith
