-- ===== src/Client/CopyMotion/Words.antt =====
-- copy_motion.rs: a word motion lands on a character of a word.
use oakterm.Prelude.{
  ℕ, zero, suc, ◌≡◌, refl, sym, subst, ◌∙◌, true, false, Option, none, some, ◌⊎◌, inl, inr, List,
  ltb, arith, Bool-cases, Option-cases, if◌then◌else◌, ◌-◌, ◌+◌,
}
use oakterm.Prelude.Integers.{ℤ, pos, negsuc, ltb_ℤ, add_wrapping, i64_half}
use oakterm.Client.CopyMotion.{
  Motion, MotionBounds, last_col, Scan, Walk, refused, arrived, exhausted, Unicode, RowText, Class,
  class, same_class, row_chars, enter_row, forward, backward, skip, run_end, then_walk,
  forward_word, word_by, landed, scan, resolve,
}
use oakterm.Client.CopyMotion.Bounds.{some_injective}

-- What holds of the scan if the walk arrived.
abbrev Arrives : (Scan → Type 0) → Walk → Type 0
Arrives P refused = Unit {0}
Arrives P (arrived s) = P s
Arrives P exhausted = Unit {0}

same_class_self : (k : Class) → same_class k k ≡ true
same_class_self Class.blank = refl
same_class_self Class.word = refl
same_class_self Class.punct = refl

-- A class that is that of a run is blank only if the run is.
run_not_blank :
    (k run : Class)
    → same_class k run ≡ true
    → same_class run Class.blank ≡ false
    → same_class k Class.blank ≡ false
run_not_blank Class.blank Class.blank e f = f
run_not_blank Class.blank Class.word e f = absurd (ground arith)
run_not_blank Class.blank Class.punct e f = absurd (ground arith)
run_not_blank Class.word run e f = refl
run_not_blank Class.punct run e f = refl

Arrives-map :
    (P Q : Scan → Type 0) (w : Walk) → ((s : Scan) → P s → Q s) → Arrives P w → Arrives Q w
Arrives-map P Q refused f h = tt
Arrives-map P Q (arrived s) f h = f s h
Arrives-map P Q exhausted f h = tt

module _ (unicode : Unicode) (rows : RowText) (b : MotionBounds) where
  then_walk-Arrives :
      (P Q : Scan → Type 0) (w : Walk) (k : Scan → Walk)
      → Arrives P w
      → ((s : Scan) → P s → Arrives Q (k s))
      → Arrives Q (then_walk unicode rows b w k)
  then_walk-Arrives P Q refused k h next = tt
  then_walk-Arrives P Q (arrived s) k h next = next s h
  then_walk-Arrives P Q exhausted k h next = tt

  -- The characters are those of the row.
  abbrev Reads : Scan → Type 0
  Reads s = s.chars ≡ row_chars rows s.row

  abbrev IsWord : Scan → Type 0
  IsWord s = same_class (class unicode rows b s) Class.blank ≡ false

  module _ (step : Scan → Option Scan)
      (kept : (s s' : Scan) → Reads s → step s ≡ some s' → Reads s') where
    -- Behind the loop over a class stands another one.
    skip-Arrives :
        (k : Class) (fuel : ℕ) (s : Scan)
        → Reads s
        → Arrives
            (λ t. Reads t × (same_class (class unicode rows b t) k ≡ false))
            (skip unicode rows b step k fuel s)
    unfolding skip
    skip-Arrives k zero s h = tt
    skip-Arrives k (suc fuel) s h = elim (Bool-cases (same_class (class unicode rows b s) k)) [
      | inr other ↦ rw (Arrives, other) (h, other)
      | inl same ↦ elim (Option-cases (step s)) [
        | inl stop ↦ rw (Arrives, same, stop) tt
        | inr (s', goes) ↦ rw (Arrives, same, goes) (skip-Arrives k fuel s' (kept s s' h goes))
      ]
    ]

    run_end-Arrives :
        (run : Class) (fuel : ℕ) (s : Scan)
        → Reads s
        → same_class (class unicode rows b s) run ≡ true
        → Arrives
            (λ t. Reads t × (same_class (class unicode rows b t) run ≡ true))
            (run_end unicode rows b step run fuel s)
    unfolding run_end
    run_end-Arrives run zero s h on = tt
    run_end-Arrives run (suc fuel) s h on = elim (Option-cases (step s)) [
      | inl stop ↦ rw (Arrives, stop) (h, on)
      | inr (s', goes) ↦ elim (Bool-cases (same_class (class unicode rows b s') run)) [
        | inr other ↦ rw (Arrives, goes, other) (h, on)
        | inl same ↦ rw (Arrives, goes, same) (run_end-Arrives run fuel s' (kept s s' h goes) same)
      ]
    ]

    word_by-Arrives :
        (fuel : ℕ) (s : Scan)
        → Reads s
        → Arrives (λ t. Reads t × IsWord t) (word_by unicode rows b step fuel s)
    word_by-Arrives fuel s h = elim (Option-cases (step s)) [
      | inl stop ↦ rw (Arrives, stop) tt
      | inr (s', goes) ↦
          rw (Arrives, goes)
            (then_walk-Arrives (λ t. Reads t × IsWord t) (λ t. Reads t × IsWord t) _ _
              (skip-Arrives Class.blank fuel s' (kept s s' h goes))
              λ t (fine, on_word).
                let run = class unicode rows b t in
                Arrives-map (λ u. Reads u × (same_class (class unicode rows b u) run ≡ true)) _ _
                  (λ u (reads, in_run).
                    (reads, run_not_blank (class unicode rows b u) run in_run on_word))
                  (run_end-Arrives run fuel t fine (same_class_self run)))
    ]

  entered-Reads :
      (row : ℤ) (col : ℕ) (s : Scan) → enter_row unicode rows b row col ≡ some s → Reads s
  entered-Reads row col s e = elim (Option-cases (rows row)) [
    | inl nothing ↦ absurd (ground arith)
    | inr (chars, found) ↦
        let t : Scan = record { row = row; col = col; chars = chars } in
        let made : enter_row unicode rows b row col ≡ some t = rw (enter_row, found) refl in
        let own : Reads t = rw (row_chars, found) refl in
        subst Reads (some_injective t s (sym made ∙ e)) own
  ]

  forward-Reads : (s s' : Scan) → Reads s → forward unicode rows b s ≡ some s' → Reads s'
  forward-Reads s s' h e = elim (Bool-cases (ltb s.col (last_col b))) [
    | inl room ↦
        let t : Scan = record s { col = s.col + 1 } in
        let made : forward unicode rows b s ≡ some t = rw (forward, room) refl in
        subst Reads (some_injective t s' (sym made ∙ e)) h
    | inr full ↦ elim (Bool-cases (ltb_ℤ s.row b.last_row)) [
      | inr end ↦ absurd (ground arith)
      | inl more ↦
          let row = add_wrapping i64_half s.row (pos 1) in
          let made : forward unicode rows b s ≡ enter_row unicode rows b row 0 =
            rw (forward, full, more) refl in
          entered-Reads row 0 s' (sym made ∙ e)
    ]
  ]

  backward-Reads : (s s' : Scan) → Reads s → backward unicode rows b s ≡ some s' → Reads s'
  backward-Reads s s' h e = elim (Bool-cases (ltb 0 s.col)) [
    | inl room ↦
        let t : Scan = record s { col = s.col - 1 } in
        let made : backward unicode rows b s ≡ some t = rw (backward, room) refl in
        subst Reads (some_injective t s' (sym made ∙ e)) h
    | inr full ↦ elim (Bool-cases (ltb_ℤ b.first_row s.row)) [
      | inr end ↦ absurd (ground arith)
      | inl more ↦
          let row = add_wrapping i64_half s.row (negsuc 0) in
          let made : backward unicode rows b s ≡ enter_row unicode rows b row (last_col b) =
            rw (backward, full, more) refl in
          entered-Reads row (last_col b) s' (sym made ∙ e)
    ]
  ]

  forward_word-Arrives :
      (fuel : ℕ) (s : Scan)
      → Reads s
      → Arrives (λ t. Reads t × IsWord t) (forward_word unicode rows b fuel s)
  forward_word-Arrives fuel s h =
      let step = forward unicode rows b in
      let off : Arrives Reads (
          if same_class (class unicode rows b s) Class.blank
          then arrived s
          else skip unicode rows b step (class unicode rows b s) fuel s) =
        elim (Bool-cases (same_class (class unicode rows b s) Class.blank)) [
          | inl gap ↦ rw (Arrives, gap) h
          | inr run ↦ rw run (
              Arrives-map _ Reads _ (λ t good. good.0)
                (skip-Arrives step forward-Reads (class unicode rows b s) fuel s h))
        ] in
      then_walk-Arrives Reads (λ t. Reads t × IsWord t) _ _ off
        λ t fine. skip-Arrives step forward-Reads Class.blank fuel t fine

  -- Where a word motion ends: at the cursor, or at a cell whose character is not blank.
  abbrev OnWord : ℤ × ℕ → ℤ × ℕ → Type 0
  OnWord cursor c =
      (cursor ≡ c) ⊎ (same_class (class unicode rows b (scan unicode rows b c)) Class.blank ≡ false)

  abbrev pub LandsOnWord : ℤ × ℕ → Option (ℤ × ℕ) → Type 0
  LandsOnWord cursor none = Unit {0}
  LandsOnWord cursor (some c) = OnWord cursor c

  landed-LandsOnWord :
      (cursor : ℤ × ℕ) (w : Walk)
      → Arrives (λ t. Reads t × IsWord t) w
      → LandsOnWord cursor (landed unicode rows b cursor w)
  landed-LandsOnWord cursor refused h = inl refl
  landed-LandsOnWord cursor (arrived s) h =
      let at : List ℕ → Scan = λ chars. record { row = s.row; col = s.col; chars = chars } in
      inr
        (subst (λ chars. same_class (class unicode rows b (at chars)) Class.blank ≡ false) h.0 h.1)
  landed-LandsOnWord cursor exhausted h = tt

  -- Each of the word motions that returns leaves the cursor where it was, or puts it on a cell whose
  -- character is not blank.
  pub resolve-LandsOnWord :
      (fuel : ℕ) (cursor : ℤ × ℕ)
      → LandsOnWord cursor (resolve unicode rows b fuel Motion.word_forward cursor)
        × LandsOnWord cursor (resolve unicode rows b fuel Motion.word_backward cursor)
        × LandsOnWord cursor (resolve unicode rows b fuel Motion.word_end cursor)
  unfolding resolve
  resolve-LandsOnWord fuel cursor =
      let s = scan unicode rows b cursor in
      (
        landed-LandsOnWord cursor _ (forward_word-Arrives fuel s refl),
        landed-LandsOnWord cursor _
            (word_by-Arrives (backward unicode rows b) backward-Reads fuel s refl),
        landed-LandsOnWord cursor _
            (word_by-Arrives (forward unicode rows b) forward-Reads fuel s refl),
      )
