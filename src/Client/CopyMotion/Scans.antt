-- ===== src/Client/CopyMotion/Scans.antt =====
-- copy_motion.rs: the loops of a scan end, and stay in the region.
use oakterm.Prelude.{
  ℕ, zero, suc, ◌≤◌, ◌<◌, ◌≡◌, Option, some, arith, Bool-cases, Option-cases, inl, inr,
  if◌then◌else◌,
}
use oakterm.Client.CopyMotion.{
  Scan, Walk, refused, arrived, exhausted, Unicode, RowText, MotionBounds, Class, class, same_class,
  skip, run_end, then_walk, word_by, forward_word, forward,
}

-- A walk that did not run out of fuel, and that stands where `P` holds if it arrived.
abbrev pub Ends : (Scan → Type 0) → Walk → Type 0
Ends P refused = Unit {0}
Ends P (arrived s) = P s
Ends P exhausted = ⊥

Ends-map : (P Q : Scan → Type 0) (w : Walk) → ((s : Scan) → P s → Q s) → Ends P w → Ends Q w
Ends-map P Q refused f h = tt
Ends-map P Q (arrived s) f h = f s h
Ends-map P Q exhausted f h = h

module _ (unicode : Unicode) (rows : RowText) (b : MotionBounds) where
  then_walk-Ends :
      (P Q : Scan → Type 0) (w : Walk) (k : Scan → Walk)
      → Ends P w
      → ((s : Scan) → P s → Ends Q (k s))
      → Ends Q (then_walk unicode rows b w k)
  then_walk-Ends P Q refused k h next = tt
  then_walk-Ends P Q (arrived s) k h next = next s h
  then_walk-Ends P Q exhausted k h next = absurd h

  -- A step that keeps `P` and makes the measure smaller.
  module _ (step : Scan → Option Scan) (P : Scan → Type 0) (left : Scan → ℕ)
      (kept : (s s' : Scan) → P s → step s ≡ some s' → P s' × (left s' < left s)) where
    -- Fewer cells are left than there is fuel, and not more than `n`.
    abbrev Within : ℕ → Scan → Type 0
    Within n s = P s × (left s ≤ n)

    skip-Ends :
        (k : Class) (fuel : ℕ) (s : Scan) (n : ℕ)
        → Within n s
        → left s < fuel
        → Ends (Within n) (skip unicode rows b step k fuel s)
    unfolding skip
    skip-Ends k zero s n h more = absurd (omega (arith, more))
    skip-Ends k (suc fuel) s n h more = elim (Bool-cases (same_class (class unicode rows b s) k)) [
      | inr other ↦ rw other h
      | inl same ↦ elim (Option-cases (step s)) [
        | inl stop ↦ rw (same, stop) tt
        | inr (s', goes) ↦
            let (good, less) = kept s s' h.0 goes in
            rw (same, goes)
              (skip-Ends k fuel s' n (good, omega (arith, less, h.1)) (omega (arith, less, more)))
      ]
    ]

    run_end-Ends :
        (k : Class) (fuel : ℕ) (s : Scan)
        → P s
        → left s < fuel
        → Ends P (run_end unicode rows b step k fuel s)
    unfolding run_end
    run_end-Ends k zero s h more = absurd (omega (arith, more))
    run_end-Ends k (suc fuel) s h more = elim (Option-cases (step s)) [
      | inl stop ↦ rw (Ends, stop) h
      | inr (s', goes) ↦
          let (good, less) = kept s s' h goes in
          elim (Bool-cases (same_class (class unicode rows b s') k)) [
            | inr other ↦ rw (Ends, goes, other) h
            | inl same ↦
                rw (Ends, goes, same) (run_end-Ends k fuel s' good (omega (arith, less, more)))
          ]
    ]

    pub word_by-Ends :
        (fuel : ℕ) (s : Scan) → P s → left s < fuel → Ends P (word_by unicode rows b step fuel s)
    word_by-Ends fuel s h more = elim (Option-cases (step s)) [
      | inl stop ↦ rw (Ends, stop) tt
      | inr (s', goes) ↦
          let (good, less) = kept s s' h goes in
          rw (Ends, goes)
            (then_walk-Ends (Within (left s)) P _ _
              (skip-Ends Class.blank fuel s' (left s) (good, omega (arith, less))
                (omega (arith, less, more)))
              λ t (fine, near).
                run_end-Ends (class unicode rows b t) fuel t fine (omega (arith, near, more)))
    ]

  module _ (P : Scan → Type 0) (left : Scan → ℕ)
      (kept : (s s' : Scan)
        → P s
        → forward unicode rows b s ≡ some s'
        → P s' × (left s' < left s)) where
    pub forward_word-Ends :
        (fuel : ℕ) (s : Scan) → P s → left s < fuel → Ends P (forward_word unicode rows b fuel s)
    forward_word-Ends fuel s h more =
        let step = forward unicode rows b in
        let off : Ends (λ t. P t × (left t ≤ left s))
            (if same_class (class unicode rows b s) Class.blank
              then arrived s
              else skip unicode rows b step (class unicode rows b s) fuel s) =
          elim (Bool-cases (same_class (class unicode rows b s) Class.blank)) [
            | inl gap ↦ rw gap (h, omega arith)
            | inr run ↦ rw run (
                skip-Ends step P left kept (class unicode rows b s) fuel s (left s) (h, omega arith)
                  more)
          ] in
        then_walk-Ends (λ t. P t × (left t ≤ left s)) P _ _ off
          λ t (fine, near).
            Ends-map (λ u. P u × (left u ≤ left s)) P _ (λ u good. good.0)
              (skip-Ends step P left kept Class.blank fuel t (left s) (fine, near)
                (omega (arith, near, more)))
