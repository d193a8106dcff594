-- ===== src/Mux/Examples/States.antt =====
-- A run of the multiplexer of state.rs, and the theorems about its operations at states of the run.
use oakterm.Prelude.{
  ℕ, ◌+◌, ◌≤◌, ◌<◌, ◌≡◌, length, refl, ◌⊎◌, true, false, List, [], ◌∷◌, none, some, arith,
}
use oakterm.Prelude.Counts.{single, count}
use oakterm.Mux.Outcome.{ok, err, pane_not_found, pane_already_present}
use oakterm.Mux.Layout.{
  LayoutNode, horizontal, leaf, container, cons, nil, pane_ids, contains, flatten,
}
use oakterm.Mux.Geometry.{locate_split_site, node_at, pane_rect, touches_edge}
use oakterm.Mux.Geometry.Borders.{border_extents, locate_border, extent_from, panes_share_border}
use oakterm.Mux.Ops.{close, split, split_in, remove_leaf, renormalize, change_at}
use oakterm.Mux.Ops.Resize.{resize}
use oakterm.Mux.Ops.Swap.{swap, swap_leaves}
use oakterm.Mux.Tabs.{Tab, new_tab_around}
use oakterm.Mux.State.{
  MultiplexerState, PaneCloseOutcome, u32_max, initial, allocate_pane_id, seed, new_tab,
  new_workspace, focus_pane, swap_panes,
}
use oakterm.Mux.State.Operations.{
  split_pane, resize_pane, close_pane, close_workspace, rename_tab, rename_workspace, move_tab,
}
use oakterm.Mux.State.Valid.{tracked, tabs_with, workspaces_with, IsValid}
use oakterm.Mux.State.Opening as Opening
use oakterm.Mux.State.Opening.Outcomes as Outcomes
use oakterm.Mux.State.Opening.Gains.{Opens}
use oakterm.Mux.State.Focus as Focus
use oakterm.Mux.State.Focus.{focused}
use oakterm.Mux.State.Moving as Moving
use oakterm.Mux.State.Moving.{Quiet, active_id, StandsAt}
use oakterm.Mux.State.Closing as Closing
use oakterm.Mux.State.ClosePane as ClosePane
use oakterm.Mux.State.ClosePane.{Loses, Tells}
use oakterm.Mux.State.Splitting as Splitting
use oakterm.Mux.State.Swapping as Swapping
use oakterm.Mux.State.Swapping.{Together}
use oakterm.Mux.State.Reach as Reach
use oakterm.Mux.State.Reach.{Reach, start, next, seeds, splits, opens_tab, allocates}
use oakterm.Mux.Examples.Fixed.{Fixed, plus, fixed}

program : Unit {0}
unfolding pane_ids contains flatten locate_split_site node_at pane_rect touches_edge border_extents
    locate_border extent_from panes_share_border close split split_in remove_leaf renormalize
    change_at resize swap swap_leaves allocate_pane_id seed new_tab new_workspace focus_pane
    swap_panes split_pane resize_pane close_pane close_workspace rename_tab rename_workspace
    move_tab
program = tt

abbrev State : Type 0
State = MultiplexerState Fixed

abbrev with_tabs : List (Tab Fixed) → ℕ → ℕ → State
with_tabs tabs pane tab = record {
  workspaces = record { id = 0; name = "default"; tabs = tabs; active_tab = 0 } ∷ [];
  active_workspace = 0;
  next_pane_id = pane;
  next_tab_id = tab;
  next_workspace_id = 1;
}

-- The pane 0, and then the pane 1 beside it.
abbrev seeded : State
seeded = with_tabs (new_tab_around 0 0 ∷ []) 1 1

abbrev beside : LayoutNode Fixed
beside = container horizontal (cons (leaf 0) (plus 500000) (cons (leaf 1) (plus 500000) nil))

abbrev halves : State
halves = with_tabs (record (new_tab_around 0 0) { layout = beside } ∷ []) 2 1

seed-0 : seed (initial {W = Fixed}) 0 ≡ ok (seeded, true)
unfolding program
seed-0 = refl

split-1 : split_pane seeded 0 1 horizontal ≡ ok halves
unfolding program
split-1 = refl

seeded-Reach : Reach seeded
seeded-Reach = next start (seeds 0 true seed-0)

halves-Reach : Reach halves
halves-Reach = next seeded-Reach (splits 0 1 horizontal split-1)

halves-IsValid : IsValid halves
halves-IsValid = Reach.Reach-IsValid halves-Reach

Reach-IsValid_example : IsValid halves
Reach-IsValid_example = Reach.Reach-IsValid halves-Reach

Reach-focused_example : (pane : ℕ) × (focused halves ≡ some pane) × (0 < tracked halves pane)
Reach-focused_example = Reach.Reach-focused halves-Reach (omega arith)

close_pane_lem_example :
    ((tracked halves 0 ≡ 0) × (close_pane halves 0 ≡ err (pane_not_found 0)))
    ⊎ ((s' : State) × (outcome : PaneCloseOutcome) × (close_pane halves 0 ≡ ok (s', outcome))
        × IsValid s'
        × Loses halves s' 0
        × Tells s' outcome)
close_pane_lem_example = ClosePane.close_pane_lem halves halves-IsValid 0

split_pane_lem_example :
    ((0 < tracked seeded 1) × (split_pane seeded 0 1 horizontal ≡ err (pane_already_present 1)))
    ⊎ ((tracked seeded 1 ≡ 0)
        × (tracked seeded 0 ≡ 0)
        × (split_pane seeded 0 1 horizontal ≡ err (pane_not_found 0)))
    ⊎ ((s' : State) × (split_pane seeded 0 1 horizontal ≡ ok s')
        × IsValid s'
        × (tracked seeded 1 ≡ 0)
        × ((p : ℕ) → tracked s' p ≡ single p 1 + tracked seeded p))
split_pane_lem_example =
    Splitting.split_pane_lem 0 1 horizontal seeded (Reach.Reach-IsValid seeded-Reach)

allocated : allocate_pane_id halves ≡ ok (record halves { next_pane_id = 3 }, 2)
unfolding program
allocated = refl

allocate_pane_id-fresh_example :
    (tracked halves 2 ≡ 0) × IsValid (record halves { next_pane_id = 3 }) × (3 ≡ 2 + 1)
allocate_pane_id-fresh_example = Opening.allocate_pane_id-fresh halves halves-IsValid allocated

swap_panes_lem_example :
    ((tracked halves 0 ≡ 0) × (swap_panes halves 0 1 ≡ err (pane_not_found 0)))
    ⊎ (Together halves 0 1 false × (swap_panes halves 0 1 ≡ err (pane_not_found 1)))
    ⊎ ((s' : State) × (swap_panes halves 0 1 ≡ ok s')
        × Together halves 0 1 true
        × IsValid s'
        × ((p : ℕ) → tracked s' p ≡ tracked halves p))
swap_panes_lem_example = Swapping.swap_panes_lem 0 1 halves halves-IsValid

abbrev widened : LayoutNode Fixed
widened = container horizontal (cons (leaf 0) (plus 600000) (cons (leaf 1) (plus 400000) nil))

abbrev resized : State
resized = with_tabs (record (new_tab_around 0 0) { layout = widened } ∷ []) 2 1

resize-0-1 : resize_pane halves 0 1 (plus 100000) (plus 50000) ≡ ok resized
unfolding program
resize-0-1 = refl

-- A second tab around the pane 2.
abbrev two_tabs : State
two_tabs =
    record (with_tabs (record (new_tab_around 0 0) { layout = beside } ∷ new_tab_around 1 2 ∷ []) 3
      2) {
        workspaces =
            record {
              id = 0;
              name = "default";
              tabs = record (new_tab_around 0 0) { layout = beside } ∷ new_tab_around 1 2 ∷ [];
              active_tab = 1;
            }
            ∷ [];
      }

opens-2 : new_tab halves 2 ≡ ok (two_tabs, some 1)
unfolding program
opens-2 = refl

two_tabs-IsValid : IsValid two_tabs
two_tabs-IsValid = Reach.Reach-IsValid (next halves-Reach (opens_tab 2 (some 1) opens-2))

abbrev two_workspaces : State
two_workspaces = record {
  workspaces =
      record { id = 0; name = "default"; tabs = new_tab_around 0 0 ∷ []; active_tab = 0 }
      ∷ record { id = 1; name = "logs"; tabs = new_tab_around 1 1 ∷ []; active_tab = 0 }
      ∷ [];
  active_workspace = 1;
  next_pane_id = 2;
  next_tab_id = 2;
  next_workspace_id = 2;
}

opens-1 : new_workspace seeded "logs" 1 ≡ ok (two_workspaces, some 1)
unfolding program
opens-1 = refl

focus_pane-focused_example :
    ((0 < tracked two_tabs 1)
      × ((s' : State) × (focus_pane two_tabs 1 ≡ ok (s', true))
          × IsValid s'
          × (focused s' ≡ some 1)
          × ((p : ℕ) → tracked s' p ≡ tracked two_tabs p)))
    ⊎ ((tracked two_tabs 1 ≡ 0) × (focus_pane two_tabs 1 ≡ ok (two_tabs, false)))
focus_pane-focused_example = Focus.focus_pane-focused two_tabs two_tabs-IsValid 1

move_tab_lem_example :
    ((tabs_with two_tabs 1 ≡ 0) × (move_tab two_tabs 1 0 ≡ ok (two_tabs, false)))
    ⊎ ((s' : State) × (move_tab two_tabs 1 0 ≡ ok (s', true))
        × IsValid s'
        × ((p : ℕ) → tracked s' p ≡ tracked two_tabs p)
        × (active_id s' ≡ active_id two_tabs)
        × StandsAt s' 1 0)
move_tab_lem_example = Moving.move_tab_lem two_tabs two_tabs-IsValid 1 0

close_workspace_lem_example :
    ((workspaces_with two_tabs 0 ≡ 0) × (close_workspace two_tabs 0 ≡ ok (two_tabs, none)))
    ⊎ ((s' : State) × (panes : List ℕ) × (close_workspace two_tabs 0 ≡ ok (s', some panes))
        × IsValid s'
        × (workspaces_with s' 0 ≡ 0)
        × ((p : ℕ) → tracked two_tabs p ≡ tracked s' p + count p panes))
close_workspace_lem_example = Closing.close_workspace_lem two_tabs two_tabs-IsValid 0

abbrev tab_ids : List ℕ
tab_ids = 5 ∷ 6 ∷ 7 ∷ []

opening_lem_example :
    Opens two_tabs
      (new_tab two_tabs 3)
      ((length two_tabs.workspaces ≡ 0) ⊎ (0 < tracked two_tabs 3))
      (u32_max ≤ two_tabs.next_tab_id)
      3
      none
      (some two_tabs.next_tab_id)
      (λ _. 0)
    × Opens two_tabs
        (new_workspace two_tabs "logs" 3)
        (0 < tracked two_tabs 3)
        ((u32_max ≤ two_tabs.next_tab_id) ⊎ (u32_max ≤ two_tabs.next_workspace_id))
        3
        none
        (some two_tabs.next_workspace_id)
        (λ i. single i two_tabs.next_workspace_id)
    × Opens two_tabs
        (seed two_tabs 3)
        (0 < length two_tabs.workspaces)
        ((u32_max ≤ two_tabs.next_tab_id) ⊎ (u32_max ≤ two_tabs.next_workspace_id))
        3
        false
        true
        (λ i. single i two_tabs.next_workspace_id)
opening_lem_example = Outcomes.opening_lem two_tabs two_tabs-IsValid 3 "logs"
