-- ===== src/Mux/State/Valid.antt =====
-- state.rs: the invariant of the multiplexer's state, and the search for a pane or a tab.
use oakterm.Prelude.{
  ℕ, suc, ◌+◌, ◌-◌, ◌≤◌, ◌<◌, min, ◌≡◌, refl, subst, Bool, true, false, none, some, List, [], ◌∷◌,
  map, inl, inr, Bool-cases, Option-cases, ◌==◌, ltb, length, get_elem?, position, arith,
}
use oakterm.Prelude.Counts.{single, count, count-append}
use oakterm.Prelude.Totals.{total, All, total-position-none, get-position}
use oakterm.Mux.Layout.{pane_ids}
use oakterm.Mux.Layout.Members.{by_count}
use oakterm.Mux.Tabs.{Tab, FloatingPane, any_floating, tab_contains, tab_pane_ids, IsTab}
use oakterm.Mux.State.{MultiplexerState, Workspace, u32_max, locate_by, locate, locate_tab}

-- Each number is counted once at most, and what is counted is within the bound.
abbrev pub OnceBelow : (ℕ → ℕ) → (ℕ → ℕ) → ℕ → Type 0
OnceBelow c bound next = (p : ℕ) → (c p ≤ 1) × (0 < c p → bound p ≤ next)

module _ (c c' bound : ℕ → ℕ) (next next' : ℕ) (h : OnceBelow c bound next)
    (later : next ≤ next') where
  pub OnceBelow-le : ((p : ℕ) → c' p ≤ c p) → OnceBelow c' bound next'
  OnceBelow-le k p = (omega (arith, (h p).0, k p), λ x. omega (arith, (h p).1 (omega (arith, k p))))

  pub OnceBelow-add :
      (n : ℕ)
      → c n ≡ 0
      → ((p : ℕ) → c' p ≤ single p n + c p)
      → bound n ≤ next'
      → OnceBelow c' bound next'
  OnceBelow-add n fresh k b p = (
    ground (arith, (h p).0, k p),
    λ x. elim (Bool-cases (n == p)) [
      | inl same ↦ let e : n ≡ p = ground arith in rw (← e) b
      | inr other ↦ let pos : 0 < c p = ground (arith, k p) in omega (arith, (h p).1 pos)
    ],
  )

-- The bound on a pane id: `saturating_add(1)`.
abbrev pub pane_bound : ℕ → ℕ
pane_bound p = min (p + 1) u32_max

module _ {W : Type 0} where
  abbrev pub pane_count : ℕ → Tab W → ℕ
  pane_count p t = count p (tab_pane_ids t)

  abbrev pub tab_id_count : ℕ → Tab W → ℕ
  tab_id_count i t = single i t.id

  abbrev pub workspace_count : (Tab W → ℕ) → Workspace W → ℕ
  workspace_count g ws = total g ws.tabs

  abbrev pub workspace_id_count : ℕ → Workspace W → ℕ
  workspace_id_count i ws = single i ws.id

  -- How often a pane stands in the state, and how many tabs and workspaces have an id.
  abbrev pub tracked : MultiplexerState W → ℕ → ℕ
  tracked s p = total (workspace_count (pane_count p)) s.workspaces

  abbrev pub tabs_with : MultiplexerState W → ℕ → ℕ
  tabs_with s i = total (workspace_count (tab_id_count i)) s.workspaces

  abbrev pub workspaces_with : MultiplexerState W → ℕ → ℕ
  workspaces_with s i = total (workspace_id_count i) s.workspaces

  -- A workspace has a tab, and its active index is that of one.
  pub record IsWorkspace (ws : Workspace W) : Type 0 where
    pub tabs : All IsTab ws.tabs
    pub active : ws.active_tab < length ws.tabs

  -- All workspaces are sound and the active one exists, unless there is none. Every pane, tab and
  -- workspace id is used once at most and lies behind its allocator.
  pub record IsValid (s : MultiplexerState W) : Type 0 where
    pub sound : All IsWorkspace s.workspaces
    pub active : s.active_workspace ≤ length s.workspaces - 1
    pub panes : OnceBelow (tracked s) pane_bound s.next_pane_id
    pub tabs : OnceBelow (tabs_with s) suc s.next_tab_id
    pub ids : OnceBelow (workspaces_with s) suc s.next_workspace_id

  floating_count :
      (ps : List (FloatingPane W)) (p : ℕ)
      → any_floating ps p ≡ ltb 0 (count p (map (λ x. x.pane_id) ps))
  floating_count [] p = refl
  floating_count (x ∷ ps) p = ground (arith, floating_count ps p)

  pub tab_contains-count : (t : Tab W) (p : ℕ) → tab_contains t p ≡ ltb 0 (pane_count p t)
  tab_contains-count t p = ground (
    arith,
    by_count t.layout p,
    floating_count t.floating p,
    count-append p (pane_ids t.layout) (map (λ x. x.pane_id) t.floating),
  )

  -- A tab found at a place.
  pub record Found (wss : List (Workspace W)) (test : Tab W → Bool) (place : ℕ × ℕ) : Type 0 where
    pub workspace : Workspace W
    pub tab : Tab W
    pub at_workspace : get_elem? wss place.0 ≡ some workspace
    pub at_tab : get_elem? workspace.tabs place.1 ≡ some tab
    pub passes : test tab ≡ true

  pub Found_of_locate :
      (test : Tab W → Bool) (wss : List (Workspace W)) {place : ℕ × ℕ}
      → locate_by test wss ≡ some place
      → Found wss test place
  Found_of_locate test [] h = absurd (ground arith)
  Found_of_locate test (ws ∷ wss) {place} h = elim (Option-cases (position test ws.tabs)) [
    | inr (ti, at) ↦
        let e : (0, ti) ≡ place = ground arith in
        let (t, got, good) = get-position test ws.tabs at in
        subst (Found (ws ∷ wss) test) e
          (record { workspace = ws; tab = t; at_workspace = refl; at_tab = got; passes = good })
    | inl nowhere ↦ elim (Option-cases (locate_by test wss)) [
      | inl gone ↦ absurd (ground arith)
      | inr (q, at) ↦
          let e : (suc q.0, q.1) ≡ place = ground arith in
          let r = Found_of_locate test wss at in
          subst (Found (ws ∷ wss) test) e (record {
            workspace = r.workspace;
            tab = r.tab;
            at_workspace = r.at_workspace;
            at_tab = r.at_tab;
            passes = r.passes;
          })
    ]
  ]

  pub locate_by-none :
      (test : Tab W → Bool) (g : Tab W → ℕ) (wss : List (Workspace W))
      → ((t : Tab W) → test t ≡ false → g t ≡ 0)
      → locate_by test wss ≡ none
      → total (workspace_count g) wss ≡ 0
  locate_by-none test g [] k h = refl
  locate_by-none test g (ws ∷ wss) k h =
      let nowhere : position test ws.tabs ≡ none = ground arith in
      let gone : locate_by test wss ≡ none = ground arith in
      omega (arith, total-position-none test g ws.tabs k nowhere, locate_by-none test g wss k gone)

  -- A pane that `locate` does not find is not tracked.
  pub locate-none : (s : MultiplexerState W) (p : ℕ) → locate s p ≡ none → tracked s p ≡ 0
  locate-none s p h =
      locate_by-none (λ t. tab_contains t p) (pane_count p) s.workspaces
        (λ t k. ground (arith, tab_contains-count t p)) h

  -- An id that `locate_tab` does not find is no tab's.
  pub locate_tab-none : (s : MultiplexerState W) (i : ℕ) → locate_tab s i ≡ none → tabs_with s i ≡ 0
  locate_tab-none s i h =
      locate_by-none (λ t. t.id == i) (tab_id_count i) s.workspaces (λ t k. ground arith) h
