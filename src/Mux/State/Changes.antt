-- ===== src/Mux/State/Changes.antt =====
-- state.rs: operations that change one tab or one workspace in place keep the invariant.
use oakterm.Prelude.{
  ℕ, suc, ◌+◌, ◌≤◌, ◌<◌, min, max, ◌≡◌, refl, ap, ◌∙◌, subst, Bool, some, inl, inr, Bool-cases,
  Option-cases, get_elem?, arith, length-set, is_some,
}
use oakterm.Prelude.Counts.{single, IsUnique}
use oakterm.Prelude.Totals.{All-get, All-set, total-set, total-get}
use oakterm.F32.{F32}
use oakterm.Mux.Outcome.{
  Outcome, ok, ◌>>=◌, >>=-eq-ok, if-eq-ok, ok-injective, pane_already_present,
}
use oakterm.Mux.Layout.{SplitDirection}
use oakterm.Mux.Tabs.{Tab, IsTab, tab_contains, tab_pane_ids, tab_swap, tab_split, tab_resize}
use oakterm.Mux.Tabs.Focus.{Keeps, tab_swap-Keeps, tab_split-Keeps, tab_resize-Keeps}
use oakterm.Mux.State.{
  MultiplexerState, Workspace, u32_max, locate, put_workspace, put_tab, at_tab, at_located,
  swap_panes, note_external_pane_id,
}
use oakterm.Mux.State.Operations.{split_pane, resize_pane}
use oakterm.Mux.State.Valid.{
  OnceBelow, OnceBelow-le, OnceBelow-add, pane_bound, pane_count, tab_id_count, workspace_count,
  workspace_id_count, tracked, tabs_with, workspaces_with, IsWorkspace, IsValid, Found,
  Found_of_locate, locate-none, tab_contains-count,
}

module _ {W : Type 0} (s : MultiplexerState W) (wi : ℕ) (ws ws' : Workspace W)
    (got : get_elem? s.workspaces wi ≡ some ws) where
  -- A workspace replaced by one with the same id, no new tab id, and panes that the allocator is
  -- ahead of.
  pub put_workspace-IsValid :
      (next : ℕ)
      → IsValid s
      → IsWorkspace ws'
      → ws'.id ≡ ws.id
      → ((i : ℕ) → workspace_count (tab_id_count i) ws' ≤ workspace_count (tab_id_count i) ws)
      → OnceBelow (tracked (put_workspace s wi ws')) pane_bound next
      → IsValid (record (put_workspace s wi ws') { next_pane_id = next })
  put_workspace-IsValid next v good same tabs panes = record {
    sound = All-set IsWorkspace s.workspaces wi ws' v.sound good;
    active = rw (length-set s.workspaces wi ws') v.active;
    panes = panes;
    tabs =
        OnceBelow-le (tabs_with s) (tabs_with (put_workspace s wi ws')) suc s.next_tab_id
          s.next_tab_id v.tabs (omega arith)
          (λ i.
            omega (
              arith,
              tabs i,
              total-set (workspace_count (tab_id_count i)) s.workspaces wi ws' got,
            ));
    ids =
        OnceBelow-le (workspaces_with s) (workspaces_with (put_workspace s wi ws')) suc
          s.next_workspace_id s.next_workspace_id v.ids (omega arith)
          (λ i.
            let e : single i ws'.id ≡ single i ws.id = ap (single i) same in
            omega (arith, e, total-set (workspace_id_count i) s.workspaces wi ws' got));
  }

module _ {W : Type 0} where
  -- A tab changed at its place by an operation that keeps it a tab with its id.
  pub at_place :
      (change : ℕ → ℕ → ℕ) (s : MultiplexerState W) (place : ℕ × ℕ) (test : Tab W → Bool)
      (r : Found s.workspaces test place) (t' : Tab W) (next : ℕ)
      → let s' = put_workspace s place.0 (put_tab r.workspace place.1 t') in
        IsValid s
        → Keeps change r.tab t'
        → OnceBelow (tracked s') pane_bound next
        → IsValid (record s' { next_pane_id = next })
  at_place change s place test r t' next v k panes =
      let ws = r.workspace in
      let w = All-get IsWorkspace s.workspaces place.0 v.sound r.at_workspace in
      put_workspace-IsValid s place.0 ws (put_tab ws place.1 t') r.at_workspace next v
        (record {
          tabs = All-set IsTab ws.tabs place.1 t' w.tabs k.valid;
          active = rw (length-set ws.tabs place.1 t') w.active;
        })
        refl
        (λ i.
          let e : single i t'.id ≡ single i (r.tab).id = ap (single i) k.same_id in
          omega (arith, e, total-set (tab_id_count i) ws.tabs place.1 t' r.at_tab))
        panes

  -- The panes after the change.
  pub tracked-at_place :
      (change : ℕ → ℕ → ℕ) (s : MultiplexerState W) (place : ℕ × ℕ) (test : Tab W → Bool)
      (r : Found s.workspaces test place) (t' : Tab W)
      → Keeps change r.tab t'
      → (p : ℕ)
      → tracked (put_workspace s place.0 (put_tab r.workspace place.1 t')) p + pane_count p r.tab
        ≡ tracked s p + change p (pane_count p r.tab)
  tracked-at_place change s place test r t' k p = omega (
    arith,
    k.panes p,
    total-set (workspace_count (pane_count p)) s.workspaces place.0 (put_tab r.workspace place.1 t')
        r.at_workspace,
    total-set (pane_count p) r.workspace.tabs place.1 t' r.at_tab,
  )

  -- The parts of a change of a located tab that succeeds.
  record Located (s s' : MultiplexerState W) (pane : ℕ) (g : Tab W → Outcome (Tab W)) : Type 0 where
    place : ℕ × ℕ
    found : Found s.workspaces (λ t. tab_contains t pane) place
    tab' : Tab W
    changed : g found.tab ≡ ok tab'
    result : put_workspace s place.0 (put_tab found.workspace place.1 tab') ≡ s'

  Located-of_ok :
      (s : MultiplexerState W) (pane : ℕ) (g : Tab W → Outcome (Tab W)) {s' : MultiplexerState W}
      → at_located s pane g ≡ ok s'
      → Located s s' pane g
  Located-of_ok s pane g {s'} h = elim (Option-cases (locate s pane)) [
    | inl nowhere ↦ absurd (ground arith)
    | inr (place, at) ↦
        let r = Found_of_locate (λ t. tab_contains t pane) s.workspaces at in
        let run : at_tab s place g ≡ ok s' = ground arith in
        let run' : (g r.tab >>= λ t'. ok (put_workspace s place.0 (put_tab r.workspace place.1 t')))
            ≡ ok s' =
          ground (arith, r.at_workspace, r.at_tab) in
        let (t', done, e) =
          >>=-eq-ok (g r.tab)
            (λ (t' : Tab W). ok (put_workspace s place.0 (put_tab r.workspace place.1 t'))) run' in
        record { place = place; found = r; tab' = t'; changed = done; result = ground arith }
  ]

  -- A located tab changed by an operation that keeps its panes.
  Keeps-panes :
      (s s' : MultiplexerState W) (pane : ℕ) (g : Tab W → Outcome (Tab W)) (l : Located s s' pane g)
      → IsValid s
      → Keeps (λ _ n. n) l.found.tab l.tab'
      → IsValid s' × ((p : ℕ) → tracked s' p ≡ tracked s p)
  Keeps-panes s s' pane g l v k =
      let u = put_workspace s l.place.0 (put_tab l.found.workspace l.place.1 l.tab') in
      let test = λ (t : Tab W). tab_contains t pane in
      let same : (p : ℕ) → tracked u p ≡ tracked s p =
        λ p. omega (arith, tracked-at_place (λ _ n. n) s l.place test l.found l.tab' k p) in
      let panes =
        OnceBelow-le (tracked s) (tracked u) pane_bound s.next_pane_id s.next_pane_id v.panes
          (omega arith) (λ p. omega (arith, same p)) in
      subst (λ x. IsValid x × ((p : ℕ) → tracked x p ≡ tracked s p)) l.result
        (at_place (λ _ n. n) s l.place test l.found l.tab' s.next_pane_id v k panes, same)

  pub pane_count-le :
      (s : MultiplexerState W) (place : ℕ × ℕ) (test : Tab W → Bool)
      (r : Found s.workspaces test place) (p : ℕ)
      → pane_count p r.tab ≤ tracked s p
  pane_count-le s place test r p = omega (
    arith,
    total-get (pane_count p) r.workspace.tabs place.1 r.at_tab,
    total-get (workspace_count (pane_count p)) s.workspaces place.0 r.at_workspace,
  )

module _ {W : Type 0} where
  -- A pane that `locate` finds is tracked.
  pub tracked_of_locate :
      (s : MultiplexerState W) (pane : ℕ) {place : ℕ × ℕ}
      → locate s pane ≡ some place
      → 0 < tracked s pane
  tracked_of_locate s pane {place} at =
      let test = λ (t : Tab W). tab_contains t pane in
      let r = Found_of_locate test s.workspaces at in
      ground (arith, tab_contains-count r.tab pane, r.passes, pane_count-le s place test r pane)

module _ {W : Type 0} (s : MultiplexerState W) {s' : MultiplexerState W} (v : IsValid s) where
  -- A swap of two panes that succeeds keeps the invariant and every pane.
  pub swap_panes-IsValid :
      (a b : ℕ) → swap_panes s a b ≡ ok s' → IsValid s' × ((p : ℕ) → tracked s' p ≡ tracked s p)
  unfolding swap_panes
  swap_panes-IsValid a b h =
      let l = Located-of_ok s a (λ t. tab_swap t a b) h in
      let r = l.found in
      let w = All-get IsWorkspace s.workspaces l.place.0 v.sound r.at_workspace in
      let t = All-get IsTab r.workspace.tabs l.place.1 w.tabs r.at_tab in
      let distinct : IsUnique (tab_pane_ids r.tab) =
        λ p. omega (arith, pane_count-le s l.place _ r p, (v.panes p).0) in
      Keeps-panes s s' a (λ t. tab_swap t a b) l v (tab_swap-Keeps r.tab a b t distinct l.changed)

module _ {W : Type 0} ⦃f : F32 W⦄ (s : MultiplexerState W) {s' : MultiplexerState W}
    (v : IsValid s) where
  -- A resize that succeeds keeps the invariant and every pane.
  pub resize_pane-IsValid :
      (pane neighbor : ℕ) (delta min_weight : W)
      → resize_pane s pane neighbor delta min_weight ≡ ok s'
      → IsValid s' × ((p : ℕ) → tracked s' p ≡ tracked s p)
  unfolding resize_pane
  resize_pane-IsValid pane neighbor delta min_weight h =
      let l = Located-of_ok s pane (λ t. tab_resize t pane neighbor delta min_weight) h in
      let r = l.found in
      let w = All-get IsWorkspace s.workspaces l.place.0 v.sound r.at_workspace in
      let t = All-get IsTab r.workspace.tabs l.place.1 w.tabs r.at_tab in
      Keeps-panes s s' pane (λ t. tab_resize t pane neighbor delta min_weight) l v
        (tab_resize-Keeps r.tab pane neighbor delta min_weight t l.changed)

  -- A split that succeeds keeps the invariant and adds exactly the new pane, which the state did
  -- not track before.
  pub split_pane-IsValid :
      (target new_pane : ℕ) (d : SplitDirection)
      → split_pane s target new_pane d ≡ ok s'
      → IsValid s'
        × (tracked s new_pane ≡ 0)
        × ((p : ℕ) → tracked s' p ≡ single p new_pane + tracked s p)
  unfolding split_pane
  split_pane-IsValid target new_pane d h = elim (Bool-cases (is_some (locate s new_pane))) [
    | inl old ↦ absurd (ground arith)
    | inr new ↦
        let fresh = locate-none s new_pane (ground arith) in
        let g = λ (t : Tab W). tab_split t target new_pane d in
        let passed = if-eq-ok (is_some (locate s new_pane)) (pane_already_present new_pane) h in
        let (u, done, e) = >>=-eq-ok (at_located s target g) _ passed in
        let l = Located-of_ok s target g done in
        let r = l.found in
        let w = All-get IsWorkspace s.workspaces l.place.0 v.sound r.at_workspace in
        let t = All-get IsTab r.workspace.tabs l.place.1 w.tabs r.at_tab in
        let k = tab_split-Keeps r.tab target new_pane d t l.changed in
        let change = λ (p n : ℕ). single p new_pane + n in
        let x = put_workspace s l.place.0 (put_tab r.workspace l.place.1 l.tab') in
        let grown : (p : ℕ) → tracked x p ≡ single p new_pane + tracked s p =
          λ p. omega (arith, tracked-at_place change s l.place _ r l.tab' k p) in
        let next = max s.next_pane_id (min (new_pane + 1) u32_max) in
        let panes =
          OnceBelow-add (tracked s) (tracked x) pane_bound s.next_pane_id next v.panes (omega arith)
            new_pane fresh (λ p. omega (arith, grown p)) (omega arith) in
        let valid = at_place change s l.place _ r l.tab' next v k panes in
        let same : record x { next_pane_id = next } ≡ s' =
          ap (λ y. note_external_pane_id y new_pane) l.result ∙ ok-injective e in
        subst
          (λ y.
            IsValid y
            × (tracked s new_pane ≡ 0)
            × ((p : ℕ) → tracked y p ≡ single p new_pane + tracked s p))
          same (valid, fresh, grown)
  ]
