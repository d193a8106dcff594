-- ===== src/Mux/State/Opening/Adding.antt =====
-- state.rs: the states after a tab or a workspace was added.
use oakterm.Prelude.{
  ℕ, zero, suc, ◌+◌, ◌<◌, min, max, ◌≡◌, refl, some, [], ◌∷◌, ◌++◌, length, get_elem?, arith,
  length-set, length-append, String,
}
use oakterm.Prelude.Counts.{single}
use oakterm.Prelude.Totals.{All-get, All-set, All-append, total-set, total-append}
use oakterm.Mux.Layout.{pane_ids}
use oakterm.Mux.Tabs.{Tab, IsTab, new_tab_around}
use oakterm.Mux.Tabs.Focus.{new_tab_around-IsTab}
use oakterm.Mux.State.{
  MultiplexerState, Workspace, u32_max, put_workspace, push_tab, new_workspace_with,
}
use oakterm.Mux.State.Valid.{
  OnceBelow, OnceBelow-le, OnceBelow-add, pane_bound, pane_count, tab_id_count, workspace_count,
  workspace_id_count, tracked, tabs_with, workspaces_with, IsWorkspace, IsValid,
}

pub zero_of_not : (n : ℕ) → ¬ (0 < n) → n ≡ 0
zero_of_not zero h = refl
zero_of_not (suc n) h = absurd (h (omega arith))

pub fresh_id : (c : ℕ → ℕ) (n : ℕ) → OnceBelow c suc n → c n ≡ 0
fresh_id c n h = zero_of_not (c n) (λ x. omega (arith, (h n).1 x))

pane_count-new_tab :
    (W : Type 0) (p id pane : ℕ) → pane_count {W = W} p (new_tab_around id pane) ≡ single p pane
unfolding pane_ids
pane_count-new_tab W p id pane = omega arith

module _ {W : Type 0} where
  -- A pane added by an operation that opens a tab for it.
  pub record Adds (s s' : MultiplexerState W) (pane : ℕ) : Type 0 where
    pub fresh : tracked s pane ≡ 0
    pub grown : (p : ℕ) → tracked s' p ≡ single p pane + tracked s p

  push_tab-IsWorkspace :
      (ws : Workspace W) (t : Tab W) → IsWorkspace ws → IsTab t → IsWorkspace (push_tab ws t)
  push_tab-IsWorkspace ws t w h = record {
    tabs = All-append IsTab ws.tabs (t ∷ []) w.tabs (h, tt);
    active = omega (arith, length-append ws.tabs (t ∷ []));
  }

  -- The state after `new_tab`.
  abbrev pub with_tab : MultiplexerState W → Workspace W → ℕ → MultiplexerState W
  with_tab s ws pane =
      record (put_workspace s s.active_workspace
        (push_tab ws (new_tab_around s.next_tab_id pane))) {
          next_pane_id = max s.next_pane_id (min (pane + 1) u32_max);
          next_tab_id = s.next_tab_id + 1;
        }

  pub with_tab-IsValid :
      (s : MultiplexerState W) (ws : Workspace W) (pane : ℕ)
      → IsValid s
      → get_elem? s.workspaces s.active_workspace ≡ some ws
      → tracked s pane ≡ 0
      → IsValid (with_tab s ws pane) × Adds s (with_tab s ws pane) pane
  with_tab-IsValid s ws pane v got fresh =
      let t : Tab W = new_tab_around s.next_tab_id pane in
      let s' = with_tab s ws pane in
      let ws' = push_tab ws t in
      let w = All-get IsWorkspace s.workspaces s.active_workspace v.sound got in
      let grown : (p : ℕ) → tracked s' p ≡ single p pane + tracked s p = λ p. omega (
        arith,
        pane_count-new_tab W p s.next_tab_id pane,
        total-append (pane_count p) ws.tabs (t ∷ []),
        total-set (workspace_count (pane_count p)) s.workspaces s.active_workspace ws' got,
      ) in
      let tabs : (i : ℕ) → tabs_with s' i ≡ single i s.next_tab_id + tabs_with s i = λ i. omega (
        arith,
        total-append (tab_id_count i) ws.tabs (t ∷ []),
        total-set (workspace_count (tab_id_count i)) s.workspaces s.active_workspace ws' got,
      ) in
      let ids : (i : ℕ) → workspaces_with s' i ≡ workspaces_with s i = λ i.
        omega (arith, total-set (workspace_id_count i) s.workspaces s.active_workspace ws' got) in
      (
        record {
          sound =
              All-set IsWorkspace s.workspaces s.active_workspace ws' v.sound
                (push_tab-IsWorkspace ws t w (new_tab_around-IsTab s.next_tab_id pane));
          active = rw (length-set s.workspaces s.active_workspace ws') v.active;
          panes =
              OnceBelow-add (tracked s) (tracked s') pane_bound s.next_pane_id s'.next_pane_id
                v.panes (omega arith) pane fresh (λ p. omega (arith, grown p)) (omega arith);
          tabs =
              OnceBelow-add (tabs_with s) (tabs_with s') suc s.next_tab_id s'.next_tab_id v.tabs
                (omega arith) s.next_tab_id (fresh_id (tabs_with s) s.next_tab_id v.tabs)
                (λ i. omega (arith, tabs i)) (omega arith);
          ids =
              OnceBelow-le (workspaces_with s) (workspaces_with s') suc s.next_workspace_id
                s.next_workspace_id v.ids (omega arith) (λ i. omega (arith, ids i));
        },
        record { fresh = fresh; grown = grown },
      )

  -- The state after `new_workspace`, and after `seed` on the empty state.
  abbrev pub with_workspace : MultiplexerState W → String → ℕ → MultiplexerState W
  with_workspace s name pane = record {
    workspaces =
        s.workspaces
        ++ new_workspace_with s.next_workspace_id name (new_tab_around s.next_tab_id pane) ∷ [];
    active_workspace = length s.workspaces;
    next_pane_id = max s.next_pane_id (min (pane + 1) u32_max);
    next_tab_id = s.next_tab_id + 1;
    next_workspace_id = s.next_workspace_id + 1;
  }

  pub with_workspace-IsValid :
      (s : MultiplexerState W) (name : String) (pane : ℕ)
      → IsValid s
      → tracked s pane ≡ 0
      → IsValid (with_workspace s name pane) × Adds s (with_workspace s name pane) pane
  with_workspace-IsValid s name pane v fresh =
      let t : Tab W = new_tab_around s.next_tab_id pane in
      let s' = with_workspace s name pane in
      let ws : Workspace W = new_workspace_with s.next_workspace_id name t in
      let grown : (p : ℕ) → tracked s' p ≡ single p pane + tracked s p = λ p. omega (
        arith,
        pane_count-new_tab W p s.next_tab_id pane,
        total-append (workspace_count (pane_count p)) s.workspaces (ws ∷ []),
      ) in
      let tabs : (i : ℕ) → tabs_with s' i ≡ single i s.next_tab_id + tabs_with s i = λ i.
        omega (arith, total-append (workspace_count (tab_id_count i)) s.workspaces (ws ∷ [])) in
      let ids : (i : ℕ)
          → workspaces_with s' i ≡ single i s.next_workspace_id + workspaces_with s i =
        λ i. omega (arith, total-append (workspace_id_count i) s.workspaces (ws ∷ [])) in
      (
        record {
          sound = All-append IsWorkspace s.workspaces (ws ∷ []) v.sound (
            record { tabs = (new_tab_around-IsTab s.next_tab_id pane, tt); active = omega arith },
            tt,
          );
          active = omega (arith, length-append s.workspaces (ws ∷ []));
          panes =
              OnceBelow-add (tracked s) (tracked s') pane_bound s.next_pane_id s'.next_pane_id
                v.panes (omega arith) pane fresh (λ p. omega (arith, grown p)) (omega arith);
          tabs =
              OnceBelow-add (tabs_with s) (tabs_with s') suc s.next_tab_id s'.next_tab_id v.tabs
                (omega arith) s.next_tab_id (fresh_id (tabs_with s) s.next_tab_id v.tabs)
                (λ i. omega (arith, tabs i)) (omega arith);
          ids =
              OnceBelow-add (workspaces_with s) (workspaces_with s') suc s.next_workspace_id
                s'.next_workspace_id v.ids (omega arith) s.next_workspace_id
                (fresh_id (workspaces_with s) s.next_workspace_id v.ids) (λ i. omega (arith, ids i))
                (omega arith);
        },
        record { fresh = fresh; grown = grown },
      )
