-- ===== src/Mux/State/Opening.antt =====
-- state.rs: new tabs and workspaces, and the allocation of ids.
mod Runs
mod Adding
pub mod Gains
pub mod Outcomes
use oakterm.Prelude.{
  ℕ, zero, suc, ◌+◌, ◌<◌, min, max, ◌≡◌, refl, ap, sym, ◌∙◌, subst, Bool, true, false, Option, none,
  some, List, [], ◌∷◌, ◌++◌, inl, inr, Bool-cases, Option-cases, ltb, length, get_elem?, arith,
  length-set, ◌⊎◌, length-append, String, is_some,
}
use oakterm.Prelude.Counts.{single}
use oakterm.Prelude.Totals.{All-get, All-set, All-append, total-set, total-append}
use oakterm.Mux.Outcome.{ok, panicked, >>=-eq-ok, ok-injective}
use oakterm.Mux.Layout.{pane_ids}
use oakterm.Mux.Tabs.{Tab, IsTab, new_tab_around}
use oakterm.Mux.Tabs.Focus.{new_tab_around-IsTab}
use oakterm.Mux.State.{
  MultiplexerState, Workspace, u32_max, next_id, initial, allocate_pane_id, locate, put_workspace,
  push_tab, new_workspace_with, seed, new_tab, new_workspace,
}
use oakterm.Mux.State.Valid.{
  OnceBelow, OnceBelow-le, OnceBelow-add, pane_bound, pane_count, tab_id_count, workspace_count,
  workspace_id_count, tracked, tabs_with, workspaces_with, IsWorkspace, IsValid, locate-none,
}
use oakterm.Mux.State.Opening.Adding.{
  Adds, fresh_id, zero_of_not, with_tab, with_tab-IsValid, with_workspace, with_workspace-IsValid,
}
use oakterm.Mux.State.Opening.Runs.{
  new_tab-runs, new_tab-full, new_tab-refuses, new_workspace-runs, new_workspace-full,
  new_workspace-refuses, seed-runs, seed-full, seed-refuses,
}

next_id-eq-ok : (n : ℕ) {m : ℕ} → next_id n ≡ ok m → (n < u32_max) × (m ≡ n + 1)
next_id-eq-ok n h = (ground arith, ground arith)

module _ {W : Type 0} where
  -- The empty state that the daemon starts from satisfies the invariant.
  pub initial-IsValid : IsValid {W = W} initial
  initial-IsValid = record {
    sound = tt;
    active = omega arith;
    panes = λ p. (omega arith, λ h. absurd (omega arith));
    tabs = λ p. (omega arith, λ h. absurd (omega arith));
    ids = λ p. (omega arith, λ h. absurd (omega arith));
  }

  -- An allocated pane id is new: no pane of the state has it, not even after an id from outside
  -- was noted, and the invariant stays.
  pub allocate_pane_id-fresh :
      (s : MultiplexerState W) {s' : MultiplexerState W} {id : ℕ}
      → IsValid s
      → allocate_pane_id s ≡ ok (s', id)
      → (tracked s id ≡ 0) × IsValid s' × (s'.next_pane_id ≡ id + 1)
  unfolding allocate_pane_id
  allocate_pane_id-fresh s {s'} {id} v h =
      let (n, e, k) =
        >>=-eq-ok (next_id s.next_pane_id)
          (λ (m : ℕ). ok (record s { next_pane_id = m }, s.next_pane_id)) h in
      let (room, next) = next_id-eq-ok s.next_pane_id e in
      let pair = ok-injective k in
      let same : record s { next_pane_id = n } ≡ s' = ap (λ x. x.0) pair in
      let number : s.next_pane_id ≡ id = ap (λ x. x.1) pair in
      let fresh : tracked s s.next_pane_id ≡ 0 =
        zero_of_not _ (λ x. omega (arith, (v.panes s.next_pane_id).1 x)) in
      let panes =
        OnceBelow-le (tracked s) (tracked s) pane_bound s.next_pane_id n v.panes (omega arith)
          (λ p. omega arith) in
      (
        subst (λ x. tracked s x ≡ 0) number fresh,
        subst IsValid same (record {
          sound = v.sound;
          active = v.active;
          panes = panes;
          tabs = v.tabs;
          ids = v.ids;
        }),
        ap (λ x. x.next_pane_id) (sym same) ∙ next ∙ ap (λ x. x + 1) number,
      )

  -- What an operation that opens a tab may have done: added the pane, or nothing.
  abbrev pub Opened : MultiplexerState W → MultiplexerState W → ℕ → Bool → Type 0
  Opened s s' pane true = IsValid s' × Adds s s' pane
  Opened s s' pane false = s' ≡ s

  Opened-of_run :
      (s u s' : MultiplexerState W) (pane : ℕ) (flag : Bool)
      → IsValid u × Adds s u pane
      → ◌≡◌ {A = MultiplexerState W × Bool} (u, true) (s', flag)
      → Opened s s' pane flag
  Opened-of_run s u s' pane flag h e = subst (λ x. Opened s x.0 pane x.1) e h

  Opened-of_refusal :
      (s s' : MultiplexerState W) (pane : ℕ) (flag : Bool)
      → ◌≡◌ {A = MultiplexerState W × Bool} (s, false) (s', flag)
      → Opened s s' pane flag
  Opened-of_refusal s s' pane flag e = subst (λ x. Opened s x.0 pane x.1) e refl

module _ {W : Type 0} (s : MultiplexerState W) (v : IsValid s) (pane : ℕ)
    {s' : MultiplexerState W} where
  -- `new_tab` either adds its pane, which the state did not track before, in a tab of its own and
  -- keeps the invariant, or returns `None` and changes nothing.
  pub new_tab-Opened : {r : Option ℕ} → new_tab s pane ≡ ok (s', r) → Opened s s' pane (is_some r)
  new_tab-Opened {r} h = elim (Option-cases (get_elem? s.workspaces s.active_workspace)) [
    | inl empty ↦
        Opened-of_refusal s s' pane (is_some r)
          (ap flagged (ok-injective (sym (new_tab-refuses s pane (inl empty)) ∙ h)))
    | inr (ws, got) ↦ elim (Option-cases (locate s pane)) [
      | inr (place, at) ↦
          Opened-of_refusal s s' pane (is_some r)
            (ap flagged (ok-injective (sym (new_tab-refuses s pane (inr (ground arith))) ∙ h)))
      | inl gone ↦ elim (Bool-cases (ltb s.next_tab_id u32_max)) [
        | inr full ↦ absurd (ground (arith, new_tab-full s pane ws got gone full))
        | inl room ↦
            Opened-of_run s (with_tab s ws pane) s' pane (is_some r)
              (with_tab-IsValid s ws pane v got (locate-none s pane gone))
              (ap flagged (ok-injective (sym (new_tab-runs s pane ws got gone room) ∙ h)))
      ]
    ]
  ]
    where
      flagged : MultiplexerState W × Option ℕ → MultiplexerState W × Bool
      flagged x = (x.0, is_some x.1)

  -- `new_workspace` either adds its pane, which the state did not track before, in a workspace of
  -- its own and keeps the invariant, or returns `None` and changes nothing.
  pub new_workspace-Opened :
      (name : String) {r : Option ℕ}
      → new_workspace s name pane ≡ ok (s', r)
      → Opened s s' pane (is_some r)
  new_workspace-Opened name {r} h = elim (Option-cases (locate s pane)) [
    | inr (place, at) ↦
        Opened-of_refusal s s' pane (is_some r)
          (ap flagged (ok-injective (sym (new_workspace-refuses s pane name (ground arith)) ∙ h)))
    | inl gone ↦ elim (Bool-cases (ltb s.next_tab_id u32_max)) [
      | inr full ↦ absurd (ground (arith, new_workspace-full s pane name gone (inl full)))
      | inl room ↦ elim (Bool-cases (ltb s.next_workspace_id u32_max)) [
        | inr full ↦ absurd (ground (arith, new_workspace-full s pane name gone (inr full)))
        | inl more ↦
            Opened-of_run s (with_workspace s name pane) s' pane (is_some r)
              (with_workspace-IsValid s name pane v (locate-none s pane gone))
              (ap flagged (ok-injective (sym (new_workspace-runs s pane name gone room more) ∙ h)))
      ]
    ]
  ]
    where
      flagged : MultiplexerState W × Option ℕ → MultiplexerState W × Bool
      flagged x = (x.0, is_some x.1)

  -- `seed` either adds its pane to the empty state and keeps the invariant, or returns `false` and
  -- changes nothing.
  pub seed-Opened : {flag : Bool} → seed s pane ≡ ok (s', flag) → Opened s s' pane flag
  seed-Opened {flag} h = by_workspaces s.workspaces refl
    where
      by_workspaces : (wss : List (Workspace W)) → s.workspaces ≡ wss → Opened s s' pane flag
      by_workspaces (ws ∷ wss) e =
          Opened-of_refusal s s' pane flag (ok-injective (sym (seed-refuses s pane e) ∙ h))
      by_workspaces [] e = elim (Bool-cases (ltb s.next_tab_id u32_max)) [
        | inr full ↦ absurd (ground (arith, seed-full s pane e (inl full)))
        | inl room ↦ elim (Bool-cases (ltb s.next_workspace_id u32_max)) [
          | inr full ↦ absurd (ground (arith, seed-full s pane e (inr full)))
          | inl more ↦
              Opened-of_run s (with_workspace s "default" pane) s' pane flag
                (with_workspace-IsValid s "default" pane v (rw e))
                (ok-injective (sym (seed-runs s pane e room more) ∙ h))
        ]
      ]
