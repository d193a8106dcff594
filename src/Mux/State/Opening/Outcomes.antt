-- ===== src/Mux/State/Opening/Outcomes.antt =====
-- state.rs: every outcome of `new_tab`, `new_workspace` and `seed`.
use oakterm.Prelude.{
  ℕ, ◌≤◌, ◌<◌, ◌≡◌, refl, true, false, none, some, List, [], ◌∷◌, String, inl, inr, ◌⊎◌, Bool-cases,
  Option-cases, ltb, length, get_elem?, arith,
}
use oakterm.Prelude.Counts.{single}
use oakterm.Prelude.Totals.{lt_of_get, get_of_lt}
use oakterm.Mux.State.{MultiplexerState, Workspace, u32_max, locate, seed, new_tab, new_workspace}
use oakterm.Mux.State.Valid.{tracked, IsValid, locate-none}
use oakterm.Mux.State.Opening.Adding.{with_tab, with_workspace}
use oakterm.Mux.State.Opening.Runs.{
  new_tab-runs, new_tab-full, new_tab-refuses, new_workspace-runs, new_workspace-full,
  new_workspace-refuses, seed-runs, seed-full, seed-refuses,
}
use oakterm.Mux.State.Changes.{tracked_of_locate}
use oakterm.Mux.State.Opening.Gains.{Opens, with_tab-Gains, with_workspace-Gains}

module _ {W : Type 0} (s : MultiplexerState W) (v : IsValid s) (pane : ℕ) where
  new_tab-Opens :
      Opens s
        (new_tab s pane)
        ((length s.workspaces ≡ 0) ⊎ (0 < tracked s pane))
        (u32_max ≤ s.next_tab_id)
        pane
        none
        (some s.next_tab_id)
        (λ _. 0)
  new_tab-Opens = elim (Option-cases (get_elem? s.workspaces s.active_workspace)) [
    | inl nowhere ↦ inl (inl (no_workspace nowhere), new_tab-refuses s pane (inl nowhere))
    | inr (ws, got) ↦
        let some_workspace = lt_of_get s.workspaces s.active_workspace got in
        elim (Option-cases (locate s pane)) [
          | inr (place, at) ↦
              inl (inr (tracked_of_locate s pane at), new_tab-refuses s pane (inr (ground arith)))
          | inl gone ↦
              let fresh = locate-none s pane gone in
              let accepted : ¬ ((length s.workspaces ≡ 0) ⊎ (0 < tracked s pane)) =
                λ h. elim h [ inl e ↦ omega arith | inr e ↦ omega arith ] in
              elim (Bool-cases (ltb s.next_tab_id u32_max)) [
                | inr full ↦
                    inr (inl (accepted, ground arith, new_tab-full s pane ws got gone full))
                | inl room ↦ inr (
                    inr (
                      accepted,
                      λ h. ground arith,
                      (
                        with_tab s ws pane,
                        new_tab-runs s pane ws got gone room,
                        with_tab-Gains s ws pane v got fresh,
                      ),
                    ))
              ]
        ]
  ]
    where
      no_workspace : get_elem? s.workspaces s.active_workspace ≡ none → length s.workspaces ≡ 0
      no_workspace nowhere = elim (Bool-cases (ltb 0 (length s.workspaces))) [
        | inr e ↦ ground arith
        | inl e ↦
            let inside : 0 < length s.workspaces = ground arith in
            let (ws, got) = get_of_lt s.workspaces s.active_workspace (omega (arith, v.active)) in
            absurd (ground (arith, got, nowhere))
      ]

  -- The two allocators of `new_workspace` and `seed`.
  room_or_full :
      ((ltb s.next_tab_id u32_max ≡ true) × (ltb s.next_workspace_id u32_max ≡ true))
      ⊎ ((ltb s.next_tab_id u32_max ≡ false) ⊎ (ltb s.next_workspace_id u32_max ≡ false))
  room_or_full = elim (Bool-cases (ltb s.next_tab_id u32_max)) [
    | inr full ↦ inr (inl full)
    | inl room ↦ elim (Bool-cases (ltb s.next_workspace_id u32_max)) [
      | inr full ↦ inr (inr full)
      | inl more ↦ inl (room, more)
    ]
  ]

  abbrev Exhausted : Type 0
  Exhausted = (u32_max ≤ s.next_tab_id) ⊎ (u32_max ≤ s.next_workspace_id)

  exhausted :
      (ltb s.next_tab_id u32_max ≡ false) ⊎ (ltb s.next_workspace_id u32_max ≡ false) → Exhausted
  exhausted (inl h) = inl (ground arith)
  exhausted (inr h) = inr (ground arith)

  not_exhausted :
      ltb s.next_tab_id u32_max ≡ true → ltb s.next_workspace_id u32_max ≡ true → ¬ Exhausted
  not_exhausted room more h = elim h [ inl e ↦ ground arith | inr e ↦ ground arith ]

  new_workspace-Opens :
      (name : String)
      → Opens s
          (new_workspace s name pane)
          (0 < tracked s pane)
          Exhausted
          pane
          none
          (some s.next_workspace_id)
          (λ i. single i s.next_workspace_id)
  new_workspace-Opens name = elim (Option-cases (locate s pane)) [
    | inr (place, at) ↦
        inl (tracked_of_locate s pane at, new_workspace-refuses s pane name (ground arith))
    | inl gone ↦
        let fresh = locate-none s pane gone in
        let accepted : ¬ (0 < tracked s pane) = λ h. omega arith in
        elim room_or_full [
          | inr full ↦
              inr (inl (accepted, exhausted full, new_workspace-full s pane name gone full))
          | inl (room, more) ↦ inr (
              inr (
                accepted,
                not_exhausted room more,
                (
                  with_workspace s name pane,
                  new_workspace-runs s pane name gone room more,
                  with_workspace-Gains s name pane v fresh,
                ),
              ))
        ]
  ]

  seed-Opens :
      Opens s
        (seed s pane)
        (0 < length s.workspaces)
        Exhausted
        pane
        false
        true
        (λ i. single i s.next_workspace_id)
  seed-Opens = by_workspaces s.workspaces refl
    where
      by_workspaces :
          (wss : List (Workspace W))
          → s.workspaces ≡ wss
          → Opens s
              (seed s pane)
              (0 < length s.workspaces)
              Exhausted
              pane
              false
              true
              (λ i. single i s.next_workspace_id)
      by_workspaces (ws ∷ wss) e = inl (rw e (omega arith), seed-refuses s pane e)
      by_workspaces [] e =
          let accepted : ¬ (0 < length s.workspaces) = rw e (λ h. omega arith) in
          elim room_or_full [
            | inr full ↦ inr (inl (accepted, exhausted full, seed-full s pane e full))
            | inl (room, more) ↦ inr (
                inr (
                  accepted,
                  not_exhausted room more,
                  (
                    with_workspace s "default" pane,
                    seed-runs s pane e room more,
                    with_workspace-Gains s "default" pane v (rw e),
                  ),
                ))
          ]

  -- In a valid state `new_tab`, `new_workspace` and `seed` each end in one of three ways. They
  -- refuse, with the state unchanged, exactly if the state tracks the pane already (`new_tab` and
  -- `new_workspace`), has no workspace (`new_tab`) or has one (`seed`). Otherwise they panic exactly
  -- if an allocator that they use has reached `u32::MAX`. Otherwise they return the id that was next
  -- (`seed`: `true`) with a valid state, which has the pane, a tab and, but for `new_tab`, a
  -- workspace more: the pane is alone in the tab, and that tab is the active one.
  pub opening_lem :
      (name : String)
      → Opens s
          (new_tab s pane)
          ((length s.workspaces ≡ 0) ⊎ (0 < tracked s pane))
          (u32_max ≤ s.next_tab_id)
          pane
          none
          (some s.next_tab_id)
          (λ _. 0)
        × Opens s
            (new_workspace s name pane)
            (0 < tracked s pane)
            ((u32_max ≤ s.next_tab_id) ⊎ (u32_max ≤ s.next_workspace_id))
            pane
            none
            (some s.next_workspace_id)
            (λ i. single i s.next_workspace_id)
        × Opens s
            (seed s pane)
            (0 < length s.workspaces)
            ((u32_max ≤ s.next_tab_id) ⊎ (u32_max ≤ s.next_workspace_id))
            pane
            false
            true
            (λ i. single i s.next_workspace_id)
  opening_lem name = (new_tab-Opens, new_workspace-Opens name, seed-Opens)
