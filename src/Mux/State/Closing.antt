-- ===== src/Mux/State/Closing.antt =====
-- state.rs: closing panes and workspaces.
use oakterm.Prelude.{
  ℕ, zero, suc, ◌+◌, ◌-◌, ◌≤◌, ◌<◌, ◌≡◌, refl, ap, sym, ◌∙◌, false, none, some, List, [], ◌∷◌, inl,
  inr, ◌⊎◌, Bool-cases, Option-cases, ◌==◌, ltb, length, get_elem?, set, erase_idx, position, arith,
}
use oakterm.Prelude.Counts.{single, count, count-append}
use oakterm.Prelude.Totals.{
  total, All-erase_idx, total-erase_idx, get-position, length-erase_idx, total-get,
}
use oakterm.Mux.Outcome.{ok}
use oakterm.Mux.Tabs.{Tab, tab_pane_ids}
use oakterm.Mux.State.{MultiplexerState, Workspace, clamp_active_after_remove}
use oakterm.Mux.State.Operations.{panes_of_tabs, close_workspace_at, close_workspace}
use oakterm.Mux.State.Valid.{
  OnceBelow-le, pane_bound, pane_count, tab_id_count, workspace_count, workspace_id_count, tracked,
  tabs_with, workspaces_with, IsWorkspace, IsValid,
}

pub clamp-lt :
    (active gone n : ℕ)
    → active < suc n
    → gone < suc n
    → 0 < n
    → clamp_active_after_remove active gone n < n
clamp-lt active gone n h k pos = ground arith

clamp-le : (active gone n : ℕ) → active ≤ n → clamp_active_after_remove active gone n ≤ n - 1
clamp-le active gone n h = ground arith

module _ {A : Type 0} where
  get-erase_before :
      (xs : List A) (i gone : ℕ) → i < gone → get_elem? (erase_idx xs gone) i ≡ get_elem? xs i
  get-erase_before [] i gone h = refl
  get-erase_before (x ∷ xs) i zero h = absurd (omega arith)
  get-erase_before (x ∷ xs) zero (suc gone) h = refl
  get-erase_before (x ∷ xs) (suc i) (suc gone) h = get-erase_before xs i gone (omega arith)

  get-erase_behind :
      (xs : List A) (i gone : ℕ) → gone ≤ i → get_elem? (erase_idx xs gone) i ≡ get_elem? xs (suc i)
  get-erase_behind [] i gone h = refl
  get-erase_behind (x ∷ xs) i zero h = refl
  get-erase_behind (x ∷ xs) zero (suc gone) h = absurd (omega arith)
  get-erase_behind (x ∷ xs) (suc i) (suc gone) h = get-erase_behind xs i gone (omega arith)

  pub erase_idx-set : (xs : List A) (i : ℕ) (y : A) → erase_idx (set xs i y) i ≡ erase_idx xs i
  erase_idx-set [] i y = refl
  erase_idx-set (x ∷ xs) zero y = refl
  erase_idx-set (x ∷ xs) (suc i) y = ap (◌∷◌ x) (erase_idx-set xs i y)

  -- After a removal the element that was active stays so, unless it is the one removed.
  pub clamp_follows :
      (xs : List A) (active gone n : ℕ)
      → active < suc n
      → gone < suc n
      → (active == gone) ≡ false
      → get_elem? (erase_idx xs gone) (clamp_active_after_remove active gone n)
        ≡ get_elem? xs active
  clamp_follows xs active gone n h k ne = elim (Bool-cases (ltb gone active)) [
    | inl behind ↦
        let e : active ≡ suc (active - 1) = ground arith in
        rw behind (get-erase_behind xs (active - 1) gone (ground arith) ∙ ap (get_elem? xs) (sym e))
    | inr before ↦
        let lower : active < gone = ground arith in
        let kept : clamp_active_after_remove active gone n ≡ active = ground arith in
        ap (get_elem? (erase_idx xs gone)) kept ∙ get-erase_before xs active gone lower
  ]

module _ {W : Type 0} where
  -- A workspace removed from the list: what is left is sound, and only its panes are gone.
  pub close_workspace_at-IsValid :
      (s : MultiplexerState W) (wi : ℕ) {ws : Workspace W}
      → IsValid s
      → get_elem? s.workspaces wi ≡ some ws
      → IsValid (close_workspace_at s wi)
        × ((p : ℕ)
            → tracked s p ≡ tracked (close_workspace_at s wi) p + total (pane_count p) ws.tabs)
        × ((i : ℕ)
            → workspaces_with s i ≡ workspaces_with (close_workspace_at s wi) i + single i ws.id)
  close_workspace_at-IsValid s wi {ws} v got =
      let s' = close_workspace_at s wi in
      let panes : (p : ℕ) → tracked s p ≡ tracked s' p + total (pane_count p) ws.tabs =
        λ p. total-erase_idx (workspace_count (pane_count p)) s.workspaces wi got in
      let ids : (i : ℕ) → workspaces_with s i ≡ workspaces_with s' i + single i ws.id =
        λ i. total-erase_idx (workspace_id_count i) s.workspaces wi got in
      let shorter = length-erase_idx s.workspaces wi got in
      let left = length (erase_idx s.workspaces wi) in
      let bound : s.active_workspace ≤ left = omega (arith, shorter, v.active) in
      (
        record {
          sound = All-erase_idx IsWorkspace s.workspaces wi v.sound;
          active = clamp-le s.active_workspace wi left bound;
          panes =
              OnceBelow-le (tracked s) (tracked s') pane_bound s.next_pane_id s.next_pane_id v.panes
                (omega arith) (λ p. omega (arith, panes p));
          tabs =
              OnceBelow-le (tabs_with s) (tabs_with s') suc s.next_tab_id s.next_tab_id v.tabs
                (omega arith)
                (λ i.
                  omega (
                    arith,
                    total-erase_idx (workspace_count (tab_id_count i)) s.workspaces wi got,
                  ));
          ids =
              OnceBelow-le (workspaces_with s) (workspaces_with s') suc s.next_workspace_id
                s.next_workspace_id v.ids (omega arith) (λ i. omega (arith, ids i));
        },
        panes,
        ids,
      )

  count-panes_of_tabs :
      (p : ℕ) (ts : List (Tab W)) → count p (panes_of_tabs ts) ≡ total (pane_count p) ts
  count-panes_of_tabs p [] = refl
  count-panes_of_tabs p (t ∷ ts) =
      omega (arith, count-append p (tab_pane_ids t) (panes_of_tabs ts), count-panes_of_tabs p ts)

  pub position_unique :
      (i : ℕ) (ts : List (Tab W)) (ti : ℕ) {t : Tab W}
      → total (tab_id_count i) ts ≤ 1
      → get_elem? ts ti ≡ some t
      → t.id ≡ i
      → position (λ x. x.id == i) ts ≡ some ti
  position_unique i [] ti h at e = absurd (ground arith)
  position_unique i (x ∷ ts) zero h at e = ground arith
  position_unique i (x ∷ ts) (suc ti) h at e =
      ground
        (arith, total-get (tab_id_count i) ts ti at, position_unique i ts ti (omega arith) at e)

  pub workspace_index :
      (i : ℕ) (wss : List (Workspace W))
      → position (λ w. w.id == i) wss ≡ none
      → total (workspace_id_count i) wss ≡ 0
  workspace_index i [] h = refl
  workspace_index i (w ∷ wss) h = ground (arith, workspace_index i wss)

  -- `close_workspace` never panics. An id of no workspace changes nothing and is answered by `None`.
  -- Otherwise the workspace is gone, the panes returned are exactly those that the state tracks no
  -- longer, and the invariant holds.
  pub close_workspace_lem :
      (s : MultiplexerState W) (v : IsValid s) (id : ℕ)
      → ((workspaces_with s id ≡ 0) × (close_workspace s id ≡ ok (s, none)))
        ⊎ ((s' : MultiplexerState W) × (panes : List ℕ) × (close_workspace s id
              ≡ ok (s', some panes))
            × IsValid s'
            × (workspaces_with s' id ≡ 0)
            × ((p : ℕ) → tracked s p ≡ tracked s' p + count p panes))
  unfolding close_workspace
  close_workspace_lem s v id = elim (Option-cases (position (λ w. w.id == id) s.workspaces)) [
    | inl gone ↦ inl (workspace_index id s.workspaces gone, ground arith)
    | inr (wi, at) ↦
        let (ws, got, same) = get-position (λ (w : Workspace W). w.id == id) s.workspaces at in
        let (valid, panes, ids) = close_workspace_at-IsValid s wi v got in
        inr (
          close_workspace_at s wi,
          panes_of_tabs ws.tabs,
          ground (arith, got),
          valid,
          ground (arith, ids id, (v.ids id).0),
          (λ p. omega (arith, panes p, count-panes_of_tabs p ws.tabs)),
        )
  ]
