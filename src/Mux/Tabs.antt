-- ===== src/Mux/Tabs.antt =====
-- crates/oakterm-mux/src/state.rs: a tab, its layout tree and its focus.
pub mod Focus
use oakterm.Prelude.{
  ℕ, Bool, true, false, ◌||◌, List, [], ◌∷◌, ◌++◌, map, String, if◌then◌else◌, ◌==◌, ◌≡◌,
}
use oakterm.Prelude.Counts.{Has}
use oakterm.F32.{F32}
use oakterm.Mux.Outcome.{Outcome, ok, err, pane_already_present, ◌>>=◌}
use oakterm.Mux.Layout.{SplitDirection, LayoutNode, leaf, pane_ids, contains}
use oakterm.Mux.Layout.Members.{IsTiled}
use oakterm.Mux.Ops.{CloseOutcome, last_pane, removed, split, close}
use oakterm.Mux.Ops.Resize.{resize}
use oakterm.Mux.Ops.Swap.{swap}

pub record FloatingPane (W : Type 0) : Type 0 where
  pub pane_id : ℕ
  pub x : W
  pub y : W
  pub width : W
  pub height : W
  pub visible : Bool

pub record Tab (W : Type 0) : Type 0 where
  pub id : ℕ
  pub name : String
  pub layout : LayoutNode W
  pub floating : List (FloatingPane W)
  pub focused_pane : ℕ

module _ {W : Type 0} where
  abbrev pub new_tab_around : ℕ → ℕ → Tab W
  new_tab_around id pane = record {
    id = id;
    name = "";
    layout = leaf pane;
    floating = [];
    focused_pane = pane;
  }

  abbrev pub any_floating : List (FloatingPane W) → ℕ → Bool
  any_floating [] pane = false
  any_floating (p ∷ ps) pane = p.pane_id == pane || any_floating ps pane

  abbrev pub tab_contains : Tab W → ℕ → Bool
  tab_contains t pane = contains t.layout pane || any_floating t.floating pane

  abbrev pub tab_pane_ids : Tab W → List ℕ
  tab_pane_ids t = pane_ids t.layout ++ map (λ p. p.pane_id) t.floating

  abbrev pub set_tab_name : Tab W → String → Tab W
  set_tab_name t name = record t { name = name }

  -- The pane takes the focus if it is in the tab; the flag says whether it is.
  abbrev pub tab_focus_pane : Tab W → ℕ → Tab W × Bool
  tab_focus_pane t pane =
      if tab_contains t pane then (record t { focused_pane = pane }, true) else (t, false)

  abbrev pub tab_swap : Tab W → ℕ → ℕ → Outcome (Tab W)
  tab_swap t a b = swap t.layout a b >>= λ l. ok (record t { layout = l })

module _ {W : Type 0} ⦃f : F32 W⦄ where
  abbrev pub tab_split : Tab W → ℕ → ℕ → SplitDirection → Outcome (Tab W)
  tab_split t target new_pane d =
      if tab_contains t new_pane
      then err (pane_already_present new_pane)
      else (split t.layout target new_pane d >>= λ l. ok (record t { layout = l }))

  abbrev pub refocus : Tab W → ℕ → CloseOutcome → Tab W
  refocus t target last_pane = t
  refocus t target (removed focus_hint) =
      if t.focused_pane == target then record t { focused_pane = focus_hint } else t

  abbrev pub tab_close_pane : Tab W → ℕ → Outcome (Tab W × CloseOutcome)
  tab_close_pane t target =
      close t.layout target >>= λ r. ok (refocus (record t { layout = r.0 }) target r.1, r.1)

  abbrev pub tab_resize : Tab W → ℕ → ℕ → W → W → Outcome (Tab W)
  tab_resize t pane neighbor delta min_weight =
      resize t.layout pane neighbor delta min_weight >>= λ l. ok (record t { layout = l })

-- A tab as the operations keep it: its tree is tiled, its focus is one of its panes, and, since no
-- operation adds one, it has no floating pane.
pub record IsTab {W : Type 0} (t : Tab W) : Type 0 where
  pub tiled : IsTiled t.layout
  pub focused : Has t.focused_pane (pane_ids t.layout)
  pub grounded : t.floating ≡ []
