-- ===== src/Mux/State.antt =====
-- crates/oakterm-mux/src/state.rs: workspaces and the multiplexer's state. An operation returns the
-- new state with its result; `panicked` is an exhausted id space or an index out of range. The
-- `debug_assert!(false, ..)` lines are left out, as in a release build.
pub mod Operations
pub mod Valid
pub mod Changes
pub mod Opening
pub mod Focus
pub mod Moving
pub mod Closing
pub mod ClosePane
pub mod Splitting
pub mod Swapping
pub mod Reach
use oakterm.Prelude.{
  ℕ, zero, suc, ◌+◌, ◌-◌, ◌^◌, min, max, Bool, true, false, ◌||◌, Option, none, some, List, [], ◌∷◌,
  ◌++◌, String, if◌then◌else◌, ◌==◌, ltb, leb, length, get_elem?, set, erase_idx, insert_idx,
  position, is_some,
}
use mathlib.Core.Option
use oakterm.F32.{F32}
use oakterm.Mux.Outcome.{
  Outcome, ok, err, panicked, pane_not_found, pane_already_present, ◌>>=◌, expect,
}
use oakterm.Mux.Layout.{SplitDirection}
use oakterm.Mux.Ops.{CloseOutcome, last_pane}
use oakterm.Mux.Ops as Ops
use oakterm.Mux.Tabs.{
  Tab, new_tab_around, tab_contains, tab_pane_ids, set_tab_name, tab_focus_pane, tab_swap,
  tab_split, tab_close_pane, tab_resize,
}

abbrev pub u32_max : ℕ
u32_max = 4294967295

pub data PaneCloseOutcome : Type 0 where
  removed : ℕ → PaneCloseOutcome
  tab_closed : ℕ → Option ℕ → PaneCloseOutcome

pub record Workspace (W : Type 0) : Type 0 where
  pub id : ℕ
  pub name : String
  pub tabs : List (Tab W)
  pub active_tab : ℕ

pub record MultiplexerState (W : Type 0) : Type 0 where
  pub workspaces : List (Workspace W)
  pub active_workspace : ℕ
  pub next_pane_id : ℕ
  pub next_tab_id : ℕ
  pub next_workspace_id : ℕ

-- `saturating_sub(1)` is the truncated subtraction.
abbrev pub clamp_active_after_remove : ℕ → ℕ → ℕ → ℕ
clamp_active_after_remove active gone new_len =
    if ltb gone active || leb new_len active then active - 1 else active

-- `checked_add(1).expect(..)`
abbrev pub next_id : ℕ → Outcome ℕ
next_id n = if ltb n u32_max then ok (n + 1) else panicked

module _ {W : Type 0} where
  abbrev pub new_workspace_with : ℕ → String → Tab W → Workspace W
  new_workspace_with id name tab = record { id = id; name = name; tabs = tab ∷ []; active_tab = 0 }

  abbrev is_empty : List (Tab W) → Bool
  is_empty [] = true
  is_empty (_ ∷ _) = false

  abbrev pub close_tab : Workspace W → ℕ → Workspace W × Bool
  close_tab ws tab = elim (position (λ t. t.id == tab) ws.tabs) [
    | none ↦ (ws, false)
    | some index ↦
        let tabs = erase_idx ws.tabs index in
        (
          record ws {
            tabs = tabs;
            active_tab = clamp_active_after_remove ws.active_tab index (length tabs);
          },
          is_empty tabs,
        )
  ]

  abbrev pub initial : MultiplexerState W
  initial = record {
    workspaces = [];
    active_workspace = 0;
    next_pane_id = 0;
    next_tab_id = 0;
    next_workspace_id = 0;
  }

  unfoldable pub allocate_pane_id : MultiplexerState W → Outcome (MultiplexerState W × ℕ)
  allocate_pane_id s =
      next_id s.next_pane_id >>= λ n. ok (record s { next_pane_id = n }, s.next_pane_id)

  abbrev pub note_external_pane_id : MultiplexerState W → ℕ → MultiplexerState W
  note_external_pane_id s pane = record s {
    next_pane_id = max s.next_pane_id (min (pane + 1) u32_max);
  }

  abbrev pub allocate_tab_id : MultiplexerState W → Outcome (MultiplexerState W × ℕ)
  allocate_tab_id s =
      next_id s.next_tab_id >>= λ n. ok (record s { next_tab_id = n }, s.next_tab_id)

  abbrev pub allocate_workspace_id : MultiplexerState W → Outcome (MultiplexerState W × ℕ)
  allocate_workspace_id s = next_id s.next_workspace_id >>= λ n.
      ok (record s { next_workspace_id = n }, s.next_workspace_id)

  -- The first tab that passes the test, over the workspaces in order.
  abbrev pub locate_by : (Tab W → Bool) → List (Workspace W) → Option (ℕ × ℕ)
  locate_by p [] = none
  locate_by p (ws ∷ wss) = elim (position p ws.tabs) [
    | some ti ↦ some (0, ti)
    | none ↦ Option.map (λ r. (suc r.0, r.1)) (locate_by p wss)
  ]

  abbrev pub locate : MultiplexerState W → ℕ → Option (ℕ × ℕ)
  locate s pane = locate_by (λ t. tab_contains t pane) s.workspaces

  abbrev pub locate_tab : MultiplexerState W → ℕ → Option (ℕ × ℕ)
  locate_tab s tab = locate_by (λ t. t.id == tab) s.workspaces

  -- `workspaces[wi]`, and a change of it in place.
  abbrev pub workspace_at : MultiplexerState W → ℕ → Outcome (Workspace W)
  workspace_at s wi = expect (get_elem? s.workspaces wi)

  abbrev pub put_workspace : MultiplexerState W → ℕ → Workspace W → MultiplexerState W
  put_workspace s wi ws = record s { workspaces = set s.workspaces wi ws }

  abbrev pub tab_at : Workspace W → ℕ → Outcome (Tab W)
  tab_at ws ti = expect (get_elem? ws.tabs ti)

  abbrev pub put_tab : Workspace W → ℕ → Tab W → Workspace W
  put_tab ws ti t = record ws { tabs = set ws.tabs ti t }

  -- `workspaces[wi].tabs[ti]`, changed in place.
  abbrev pub at_tab :
      MultiplexerState W → ℕ × ℕ → (Tab W → Outcome (Tab W)) → Outcome (MultiplexerState W)
  at_tab s place g = workspace_at s place.0 >>= λ ws.
      tab_at ws place.1 >>= λ t. g t >>= λ t'. ok (put_workspace s place.0 (put_tab ws place.1 t'))

  abbrev pub at_located :
      MultiplexerState W → ℕ → (Tab W → Outcome (Tab W)) → Outcome (MultiplexerState W)
  at_located s pane g = elim (locate s pane) [
    | none ↦ err (pane_not_found pane)
    | some place ↦ at_tab s place g
  ]

  unfoldable pub swap_panes : MultiplexerState W → ℕ → ℕ → Outcome (MultiplexerState W)
  swap_panes s a b = at_located s a (λ t. tab_swap t a b)

  -- The flag is `false` if the state was seeded before; then nothing changes.
  unfoldable pub seed : MultiplexerState W → ℕ → Outcome (MultiplexerState W × Bool)
  seed s pane = elim s.workspaces [
    | _ ∷ _ ↦ ok (s, false)
    | [] ↦ allocate_tab_id (note_external_pane_id s pane) >>= λ r.
        allocate_workspace_id r.0 >>= λ q. ok (
          record (q.0) {
            workspaces = new_workspace_with q.1 "default" (new_tab_around r.1 pane) ∷ [];
            active_workspace = 0;
          },
          true,
        )
  ]

  abbrev pub push_tab : Workspace W → Tab W → Workspace W
  push_tab ws t = record ws { tabs = ws.tabs ++ t ∷ []; active_tab = length ws.tabs }

  unfoldable pub new_tab : MultiplexerState W → ℕ → Outcome (MultiplexerState W × Option ℕ)
  new_tab s pane = elim (get_elem? s.workspaces s.active_workspace) [
    | none ↦ ok (s, none)
    | some ws ↦
        if is_some (locate s pane)
        then ok (s, none)
        else (allocate_tab_id (note_external_pane_id s pane) >>= λ r.
            let s' = put_workspace r.0 s.active_workspace (push_tab ws (new_tab_around r.1 pane)) in
            ok (s', some r.1))
  ]

  unfoldable pub new_workspace :
      MultiplexerState W → String → ℕ → Outcome (MultiplexerState W × Option ℕ)
  new_workspace s name pane =
      if is_some (locate s pane)
      then ok (s, none)
      else (allocate_tab_id (note_external_pane_id s pane) >>= λ r.
          allocate_workspace_id r.0 >>= λ q.
          let added = new_workspace_with q.1 name (new_tab_around r.1 pane) in
          ok (
            record (q.0) {
              workspaces = s.workspaces ++ added ∷ [];
              active_workspace = length s.workspaces;
            },
            some q.1,
          ))

  unfoldable pub focus_pane : MultiplexerState W → ℕ → Outcome (MultiplexerState W × Bool)
  focus_pane s pane = elim (locate s pane) [
    | none ↦ ok (s, false)
    | some (wi, ti) ↦ workspace_at s wi >>= λ ws. tab_at ws ti >>= λ t.
        let (t', done) = tab_focus_pane t pane in
        if done
        then ok (
          record (put_workspace s wi (record (put_tab ws ti t') { active_tab = ti })) {
            active_workspace = wi;
          },
          true,
        )
        else ok (s, false)
  ]
