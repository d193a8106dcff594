-- ===== src/Mux/State/Moving.antt =====
-- state.rs: renaming tabs and workspaces, and moving a tab.
use oakterm.Prelude.{
  ℕ, suc, ◌-◌, ◌<◌, min, ◌≡◌, refl, sym, ◌∙◌, subst, Bool, true, false, Option, none, some, List,
  [], ◌∷◌, inl, inr, ◌⊎◌, Bool-cases, Option-cases, ◌==◌, ==_iff, length, get_elem?, erase_idx,
  insert_idx, position, arith, String,
}
use oakterm.Prelude.Totals.{
  total, All-get, All-erase_idx, All-insert_idx, total-erase_idx, total-insert_idx, lt_of_get,
  get-position, length-erase_idx, length-insert_idx, get_of_lt, get_elem?-set_self,
  get_elem?-set_ne, get_elem?-insert_idx,
}
use oakterm.Mux.Outcome.{Outcome, ok}
use oakterm.Mux.Tabs.{Tab, IsTab, set_tab_name}
use oakterm.Mux.State.{MultiplexerState, Workspace, locate_tab, put_workspace, put_tab}
use oakterm.Mux.State.Operations.{rename_tab, rename_workspace, move_tab, reorder}
use oakterm.Mux.State.Valid.{
  pane_count, tab_id_count, tracked, IsWorkspace, IsValid, Found_of_locate, tabs_with,
  locate_tab-none,
}
use oakterm.Mux.State.Focus.{active_tab, same_totals, same_panes, Found-IsTab}

-- An operation that always answers, keeps the invariant, and neither adds nor drops a pane.
abbrev pub Quiet : {W : Type 0} → MultiplexerState W → Outcome (MultiplexerState W × Bool) → Type 0
Quiet {W} s r =
    (s' : MultiplexerState W) × (flag : Bool) × (r ≡ ok (s', flag))
    × IsValid s'
    × ((p : ℕ) → tracked s' p ≡ tracked s p)

module _ {W : Type 0} (s : MultiplexerState W) (v : IsValid s) where
  -- `rename_tab` never panics; it keeps the invariant and every pane.
  pub rename_tab-Quiet : (tab : ℕ) (name : String) → Quiet s (rename_tab s tab name)
  unfolding rename_tab
  rename_tab-Quiet tab name = elim (Option-cases (locate_tab s tab)) [
    | inl gone ↦ (s, false, ground arith, v, λ p. refl)
    | inr (place, at) ↦
        let test = λ (t : Tab W). t.id == tab in
        let r = Found_of_locate test s.workspaces at in
        let (w, h) = Found-IsTab s place test r v in
        let t' = set_tab_name r.tab name in
        let (valid, same) =
          same_panes s place test r t' r.workspace.active_tab v w.active
            (record { tiled = h.tiled; focused = h.focused; grounded = h.grounded }) refl
            (λ p. refl) in
        (
          put_workspace s place.0 (put_tab r.workspace place.1 t'),
          true,
          ground (arith, r.at_workspace, r.at_tab),
          valid,
          same,
        )
  ]

  -- `rename_workspace` never panics; it keeps the invariant and every pane.
  pub rename_workspace-Quiet : (id : ℕ) (name : String) → Quiet s (rename_workspace s id name)
  unfolding rename_workspace
  rename_workspace-Quiet id name = elim (Option-cases (position (λ w. w.id == id) s.workspaces)) [
    | inl gone ↦ (s, false, ground arith, v, λ p. refl)
    | inr (wi, at) ↦
        let (ws, got, _) = get-position (λ (w : Workspace W). w.id == id) s.workspaces at in
        let w = All-get IsWorkspace s.workspaces wi v.sound got in
        let (valid, same) =
          same_totals s wi ws (record ws { name = name }) v got
            (record { tabs = w.tabs; active = w.active }) refl (λ i. refl) (λ p. refl) in
        (put_workspace s wi (record ws { name = name }), true, ground (arith, got), valid, same)
  ]

module _ {W : Type 0} where
  -- A position that a list with a match has.
  position_of_total :
      (i : ℕ) (ts : List (Tab W))
      → 0 < total (tab_id_count i) ts
      → (j : ℕ) × (position (λ t. t.id == i) ts ≡ some j)
  position_of_total i [] h = absurd (omega arith)
  position_of_total i (t ∷ ts) h = elim (Bool-cases (t.id == i)) [
    | inl here ↦ (0, ground arith)
    | inr other ↦ let (j, at) = position_of_total i ts (ground arith) in (suc j, ground arith)
  ]

  module _ (ws : Workspace W) (w : IsWorkspace ws) (source to : ℕ) (moved active : Tab W)
      (at : get_elem? ws.tabs source ≡ some moved)
      (current : get_elem? ws.tabs ws.active_tab ≡ some active) where
    reordered_total :
        (g : Tab W → ℕ) → total g (reorder ws active.id source to moved).tabs ≡ total g ws.tabs
    reordered_total g = omega (
      arith,
      total-insert_idx g (erase_idx ws.tabs source) to moved,
      total-erase_idx g ws.tabs source at,
    )

    -- The active index follows the active tab's id.
    reorder_follows :
        IsWorkspace (reorder ws active.id source to moved)
        × ((t : Tab W) × (get_elem?
                (reorder ws active.id source to moved).tabs
                (reorder ws active.id source to moved).active_tab
              ≡ some t)
            × (t.id ≡ active.id))
    reorder_follows =
        let ts = insert_idx (erase_idx ws.tabs source) to moved in
        let one : 0 < total (tab_id_count active.id) ts = ground (
          arith,
          reordered_total (tab_id_count active.id),
          total-erase_idx (tab_id_count active.id) ws.tabs ws.active_tab current,
        ) in
        let (j, found) = position_of_total active.id ts one in
        let (t, got, same) = get-position (λ (t : Tab W). t.id == active.id) ts found in
        let index : (reorder ws active.id source to moved).active_tab ≡ j = rw found in
        (
          record {
            tabs =
                All-insert_idx IsTab (erase_idx ws.tabs source) to moved
                  (All-erase_idx IsTab ws.tabs source w.tabs)
                  (All-get IsTab ws.tabs source w.tabs at);
            active = rw index (lt_of_get ts j got);
          },
          (t, rw index got, ground arith),
        )

module _ {W : Type 0} where
  -- The id of the active tab of the active workspace.
  abbrev pub active_id : MultiplexerState W → Option ℕ
  active_id s = elim (active_tab s) [ none ↦ none | some t ↦ some t.id ]

  -- The tab with the id stands at the index, clamped to the tabs of its workspace.
  abbrev pub StandsAt : MultiplexerState W → ℕ → ℕ → Type 0
  StandsAt s tab index =
      (wi : ℕ) × (ws : Workspace W) × (t : Tab W) × (get_elem? s.workspaces wi ≡ some ws)
      × (get_elem? ws.tabs (min index (length ws.tabs - 1)) ≡ some t)
      × (t.id ≡ tab)

  active_id-put_workspace :
      (s : MultiplexerState W) (wi : ℕ) (ws ws' : Workspace W) (t t' : Tab W)
      → get_elem? s.workspaces wi ≡ some ws
      → get_elem? ws.tabs ws.active_tab ≡ some t
      → get_elem? ws'.tabs ws'.active_tab ≡ some t'
      → t'.id ≡ t.id
      → active_id (put_workspace s wi ws') ≡ active_id s
  active_id-put_workspace s wi ws ws' t t' got old new same =
      elim (Bool-cases (wi == s.active_workspace)) [
        | inr other ↦ ground (arith, get_elem?-set_ne s.workspaces wi s.active_workspace ws' other)
        | inl here ↦
            let e : wi ≡ s.active_workspace = ground arith in
            let set' = get_elem?-set_self s.workspaces wi ws' (lt_of_get s.workspaces wi got) in
            ground (arith, set', got)
      ]

  -- `move_tab` never panics. An id of no tab changes nothing and is answered by `false`. Otherwise
  -- the tab stands at the new index, clamped to its workspace's tabs; the invariant holds, every pane
  -- is kept, and the active tab is the tab with the same id as before.
  pub move_tab_lem :
      (s : MultiplexerState W) (v : IsValid s) (tab new_index : ℕ)
      → ((tabs_with s tab ≡ 0) × (move_tab s tab new_index ≡ ok (s, false)))
        ⊎ ((s' : MultiplexerState W) × (move_tab s tab new_index ≡ ok (s', true))
            × IsValid s'
            × ((p : ℕ) → tracked s' p ≡ tracked s p)
            × (active_id s' ≡ active_id s)
            × StandsAt s' tab new_index)
  unfolding move_tab
  move_tab_lem s v tab new_index = elim (Option-cases (locate_tab s tab)) [
    | inl gone ↦ inl (locate_tab-none s tab gone, ground arith)
    | inr (place, at) ↦
        let test = λ (t : Tab W). t.id == tab in
        let r = Found_of_locate test s.workspaces at in
        let ws = r.workspace in
        let w = (Found-IsTab s place test r v).0 in
        let (active, current) = get_of_lt ws.tabs ws.active_tab w.active in
        let to = min new_index (length ws.tabs - 1) in
        let known : (r.tab).id ≡ tab = (==_iff _ _).0 r.passes in
        elim (Bool-cases (to == place.1)) [
          | inl stays ↦ inr (
            s,
            ground (arith, r.at_workspace, r.at_tab, current),
            v,
            (λ p. refl),
            refl,
            (
              place.0,
              ws,
              r.tab,
              r.at_workspace,
              subst (λ i. get_elem? ws.tabs i ≡ some r.tab) (sym ((==_iff to place.1).0 stays))
                  r.at_tab,
              known,
            ),
          )
          | inr moves ↦
              let ws' = reorder ws active.id place.1 to r.tab in
              let (good, rest) = reorder_follows ws w place.1 to r.tab active r.at_tab current in
              let (t, follows, same) = rest in
              let left = erase_idx ws.tabs place.1 in
              let shorter = length-erase_idx ws.tabs place.1 r.at_tab in
              let as_long : length ws.tabs ≡ length ws'.tabs =
                shorter ∙ sym (length-insert_idx left to r.tab) in
              let total' = reordered_total ws w place.1 to r.tab active r.at_tab current in
              let (valid, panes) =
                same_totals s place.0 ws ws' v r.at_workspace good refl
                  (λ i. total' (tab_id_count i)) (λ p. total' (pane_count p)) in
              inr (
                put_workspace s place.0 ws',
                ground (arith, r.at_workspace, r.at_tab, current),
                valid,
                panes,
                active_id-put_workspace s place.0 ws ws' active t r.at_workspace current follows
                    same,
                (
                  place.0,
                  ws',
                  r.tab,
                  get_elem?-set_self s.workspaces place.0 ws'
                      (lt_of_get s.workspaces place.0 r.at_workspace),
                  subst (λ n. get_elem? ws'.tabs (min new_index (n - 1)) ≡ some r.tab) as_long
                      (get_elem?-insert_idx left to r.tab (omega (arith, shorter))),
                  known,
                ),
              )
        ]
  ]
