-- ===== src/Mux/State/Reach.antt =====
-- state.rs: every state that the public operations lead to from the empty one.
use oakterm.Prelude.{
  ℕ, ◌<◌, ◌≡◌, ap, sym, ◌∙◌, subst, Bool, true, false, Option, some, List, inl, inr, String, arith,
  map, length, is_some,
}
use oakterm.Prelude.Totals.{All-get, get_of_lt, total-get}
use oakterm.Prelude.Counts.{count-append}
use oakterm.F32.{F32}
use oakterm.Mux.Outcome.{Outcome, ok, ok-injective}
use oakterm.Mux.Layout.{SplitDirection, pane_ids}
use oakterm.Mux.Tabs.{IsTab}
use oakterm.Mux.State.{
  MultiplexerState, PaneCloseOutcome, initial, allocate_pane_id, seed, new_tab, new_workspace,
  focus_pane, swap_panes,
}
use oakterm.Mux.State.Operations.{
  split_pane, resize_pane, close_pane, close_workspace, rename_tab, rename_workspace, move_tab,
}
use oakterm.Mux.State.Valid.{tracked, IsValid, IsWorkspace, pane_count, workspace_count}
use oakterm.Mux.State.Changes.{swap_panes-IsValid, resize_pane-IsValid, split_pane-IsValid}
use oakterm.Mux.State.Opening.{
  initial-IsValid, allocate_pane_id-fresh, Opened, seed-Opened, new_tab-Opened,
  new_workspace-Opened,
}
use oakterm.Mux.State.Focus.{focus_pane-focused, focused}
use oakterm.Mux.State.Moving.{rename_tab-Quiet, rename_workspace-Quiet, move_tab_lem}
use oakterm.Mux.State.Closing.{close_workspace_lem}
use oakterm.Mux.State.ClosePane.{close_pane_lem}

module _ {W : Type 0} ⦃f : F32 W⦄ where
  -- One call of a public operation that returns, whatever it answers.
  pub data Step (s s' : MultiplexerState W) : Type 0 where
    allocates : (id : ℕ) → allocate_pane_id s ≡ ok (s', id) → Step s s'
    seeds : (pane : ℕ) (flag : Bool) → seed s pane ≡ ok (s', flag) → Step s s'
    opens_tab : (pane : ℕ) (r : Option ℕ) → new_tab s pane ≡ ok (s', r) → Step s s'
    opens_workspace :
        (name : String) (pane : ℕ) (r : Option ℕ)
        → new_workspace s name pane ≡ ok (s', r)
        → Step s s'
    splits :
        (target new_pane : ℕ) (d : SplitDirection)
        → split_pane s target new_pane d ≡ ok s'
        → Step s s'
    resizes :
        (pane neighbor : ℕ) (delta min_weight : W)
        → resize_pane s pane neighbor delta min_weight ≡ ok s'
        → Step s s'
    swaps : (a b : ℕ) → swap_panes s a b ≡ ok s' → Step s s'
    focuses : (pane : ℕ) (flag : Bool) → focus_pane s pane ≡ ok (s', flag) → Step s s'
    renames_tab :
        (tab : ℕ) (name : String) (flag : Bool) → rename_tab s tab name ≡ ok (s', flag) → Step s s'
    renames_workspace :
        (id : ℕ) (name : String) (flag : Bool)
        → rename_workspace s id name ≡ ok (s', flag)
        → Step s s'
    moves_tab : (tab index : ℕ) (flag : Bool) → move_tab s tab index ≡ ok (s', flag) → Step s s'
    closes_workspace :
        (id : ℕ) (r : Option (List ℕ)) → close_workspace s id ≡ ok (s', r) → Step s s'
    closes_pane : (pane : ℕ) (r : PaneCloseOutcome) → close_pane s pane ≡ ok (s', r) → Step s s'

  pub data Reach : MultiplexerState W → Type 0 where
    start : Reach initial
    next : {s s' : MultiplexerState W} → Reach s → Step s s' → Reach s'

  -- Of two results of one call, the states agree.
  same_state :
      {A : Type 0} {r : Outcome (MultiplexerState W × A)} {s s' : MultiplexerState W} {a b : A}
      → r ≡ ok (s, a)
      → r ≡ ok (s', b)
      → s ≡ s'
  same_state h k = ap (λ x. x.0) (ok-injective (sym h ∙ k))

  Opened-IsValid :
      (s s' : MultiplexerState W) (pane : ℕ) (flag : Bool)
      → IsValid s
      → Opened s s' pane flag
      → IsValid s'
  Opened-IsValid s s' pane true v o = o.0
  Opened-IsValid s s' pane false v o = rw o v

  Step-IsValid : (s s' : MultiplexerState W) → IsValid s → Step s s' → IsValid s'
  Step-IsValid s s' v (allocates id h) = (allocate_pane_id-fresh s v h).1
  Step-IsValid s s' v (seeds pane flag h) = Opened-IsValid s s' pane flag v (seed-Opened s v pane h)
  Step-IsValid s s' v (opens_tab pane r h) =
      Opened-IsValid s s' pane (is_some r) v (new_tab-Opened s v pane h)
  Step-IsValid s s' v (opens_workspace name pane r h) =
      Opened-IsValid s s' pane (is_some r) v (new_workspace-Opened s v pane name h)
  Step-IsValid s s' v (splits target new_pane d h) = (split_pane-IsValid s v target new_pane d h).0
  Step-IsValid s s' v (resizes pane neighbor delta min_weight h) =
      (resize_pane-IsValid s v pane neighbor delta min_weight h).0
  Step-IsValid s s' v (swaps a b h) = (swap_panes-IsValid s v a b h).0
  Step-IsValid s s' v (focuses pane flag h) = elim (focus_pane-focused s v pane) [
    | inl (_, (u, k, valid, _, _)) ↦ subst IsValid (same_state k h) valid
    | inr (_, k) ↦ subst IsValid (same_state k h) v
  ]
  Step-IsValid s s' v (renames_tab tab name flag h) =
      let (u, x, k, valid, _) = rename_tab-Quiet s v tab name in
      subst IsValid (same_state k h) valid
  Step-IsValid s s' v (renames_workspace id name flag h) =
      let (u, x, k, valid, _) = rename_workspace-Quiet s v id name in
      subst IsValid (same_state k h) valid
  Step-IsValid s s' v (moves_tab tab index flag h) = elim (move_tab_lem s v tab index) [
    | inl (_, k) ↦ subst IsValid (same_state k h) v
    | inr (u, k, valid, _, _, _) ↦ subst IsValid (same_state k h) valid
  ]
  Step-IsValid s s' v (closes_workspace id r h) = elim (close_workspace_lem s v id) [
    | inl (_, k) ↦ subst IsValid (same_state k h) v
    | inr (u, panes, k, valid, _, _) ↦ subst IsValid (same_state k h) valid
  ]
  Step-IsValid s s' v (closes_pane pane r h) = elim (close_pane_lem s v pane) [
    | inl (_, k) ↦ absurd (ground arith)
    | inr (u, outcome, k, valid, _, _) ↦ subst IsValid (same_state k h) valid
  ]

  -- Every state that a sequence of calls leads to from the empty state satisfies the invariant:
  -- sound workspaces and tabs with a focus among their panes, active indices in range, and pane,
  -- tab and workspace ids that are used once and lie behind their allocators.
  pub Reach-IsValid : {s : MultiplexerState W} → Reach s → IsValid s
  Reach-IsValid start = initial-IsValid
  Reach-IsValid (next {s} {s'} r step) = Step-IsValid s s' (Reach-IsValid r) step

  -- In a state that the operations lead to, if there is a workspace, then there is an active tab,
  -- and its focused pane is one of the panes that the state tracks.
  pub Reach-focused :
      {s : MultiplexerState W}
      → Reach s
      → 0 < length s.workspaces
      → (pane : ℕ) × (focused s ≡ some pane) × (0 < tracked s pane)
  Reach-focused {s} r h =
      let v = Reach-IsValid r in
      let (ws, got) = get_of_lt s.workspaces s.active_workspace (omega (arith, v.active)) in
      let w = All-get IsWorkspace s.workspaces s.active_workspace v.sound got in
      let (t, at) = get_of_lt ws.tabs ws.active_tab w.active in
      let k = All-get IsTab ws.tabs ws.active_tab w.tabs at in
      (
        t.focused_pane,
        ground (arith, got, at),
        omega (
          arith,
          k.focused,
          count-append t.focused_pane (pane_ids t.layout) (map (λ x. x.pane_id) t.floating),
          total-get (pane_count t.focused_pane) ws.tabs ws.active_tab at,
          total-get (workspace_count (pane_count t.focused_pane)) s.workspaces s.active_workspace
              got,
        ),
      )
