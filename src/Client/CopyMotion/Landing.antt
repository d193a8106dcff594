-- ===== src/Client/CopyMotion/Landing.antt =====
-- copy_motion.rs: every motion ends, and lands inside the region.
use oakterm.Prelude.{
  ℕ, ◌+◌, ◌-◌, ◌*◌, ◌%◌, ◌≤◌, ◌<◌, ◌≡◌, refl, ap, Bool, not, Option, none, some, List, [], ◌∷◌, ltb,
  min, length, position, arith, Bool-cases, Option-cases, inl, inr,
}
use oakterm.Prelude.Totals.{get-position, lt_of_get}
use oakterm.Prelude.Integers.{ℤ, pos, negsuc, IsI64, i64_half, rank, to_twos, add_wrapping, negated}
use oakterm.Client.CopyMotion.{
  Motion, MotionBounds, last_col, Unicode, RowText, Walk, refused, arrived, exhausted, forward,
  backward, rposition, column_or_zero, row_chars, last_non_blank_at, first_non_blank_at, landed,
  scan, vertical, resolve, page, half_page,
}
use oakterm.Client.CopyMotion.Bounds.{
  AreBounds, IsInside, clamp_row-IsInside, ahead, behind, forward-Inside, backward-Inside,
}
use oakterm.Client.CopyMotion.Scans.{Ends, word_by-Ends, forward_word-Ends}

-- A motion that returned, with a cell of the region.
abbrev pub Lands : MotionBounds → Option (ℤ × ℕ) → Type 0
Lands b none = ⊥
Lands b (some cursor) = IsInside b cursor.0 cursor.1

-- The number of cells of the region.
abbrev pub cells : MotionBounds → ℕ
cells b = (rank i64_half b.last_row - rank i64_half b.first_row + 1) * (last_col b + 1)

-- Every row that the client holds is at most as wide as the pane.
abbrev pub AreNarrow : RowText → MotionBounds → Type 0
AreNarrow rows b = (row : ℤ) (chars : List ℕ) → rows row ≡ some chars → length chars ≤ b.cols

add_wrapping-IsI64 : (y z : ℤ) → IsI64 (add_wrapping i64_half y z)
add_wrapping-IsI64 y z =
    let n = (to_twos i64_half y + to_twos i64_half z) % (i64_half + i64_half) in
    let small : n < i64_half + i64_half = omega arith in
    elim (Bool-cases (ltb n i64_half)) [
      | inl low ↦ rw low (ground (arith, low))
      | inr high ↦
          let big : i64_half ≤ n = ground (arith, high) in rw high (omega (arith, small, big))
    ]

fewer : (d e w x : ℕ) → x ≤ w → d * (w + 1) + x < (d + e + 1) * (w + 1)
fewer d e w x h =
    let sum : (d + e + 1) * (w + 1) ≡ d * (w + 1) + e * (w + 1) + (w + 1) = grind arith in
    omega (arith, sum, h)

rposition-lt : (p : ℕ → Bool) (cs : List ℕ) (i : ℕ) → rposition p cs ≡ some i → i < length cs
rposition-lt p [] i e = absurd (ground arith)
rposition-lt p (c ∷ cs) i e = elim (Option-cases (rposition p cs)) [
  | inl nowhere ↦ ground (arith, nowhere)
  | inr (j, at) ↦ ground (arith, at, rposition-lt p cs j at)
]

position-lt : (p : ℕ → Bool) (cs : List ℕ) (i : ℕ) → position p cs ≡ some i → i < length cs
position-lt p cs i e = let (c, got, _) = get-position p cs e in lt_of_get cs i got

column-le : (o : Option ℕ) (n : ℕ) → ((i : ℕ) → o ≡ some i → i < n) → column_or_zero o ≤ n - 1
column-le none n h = omega arith
column-le (some i) n h = elim (Bool-cases (ltb i 65536)) [
  | inl small ↦ rw small (omega (arith, h i refl))
  | inr large ↦ rw large (omega arith)
]

module _ (unicode : Unicode) (rows : RowText) (b : MotionBounds) (h : AreBounds b)
    (narrow : AreNarrow rows b) where
  row_chars-narrow : (row : ℤ) → length (row_chars rows row) ≤ b.cols
  row_chars-narrow row = elim (Option-cases (rows row)) [
    | inl nothing ↦ rw (row_chars, nothing) (omega arith)
    | inr (chars, found) ↦ rw (row_chars, found) (narrow row chars found)
  ]

  last_non_blank_at-le : (row : ℤ) → last_non_blank_at unicode rows row ≤ last_col b
  last_non_blank_at-le row =
      let chars = row_chars rows row in
      let p : ℕ → Bool = λ c. not (unicode.is_whitespace c) in
      column-le (rposition p chars) b.cols
        (λ i e. omega (arith, rposition-lt p chars i e, row_chars-narrow row))

  first_non_blank_at-le : (row : ℤ) → first_non_blank_at unicode rows row ≤ last_col b
  first_non_blank_at-le row =
      let chars = row_chars rows row in
      let p : ℕ → Bool = λ c. not (unicode.is_whitespace c) in
      column-le (position p chars) b.cols
        (λ i e. omega (arith, position-lt p chars i e, row_chars-narrow row))

  module _ (cursor : ℤ × ℕ) (k : IsInside b cursor.0 cursor.1) where
    in_row : (col : ℕ) → col ≤ last_col b → IsInside b cursor.0 col
    in_row col w = record {
      signed = k.signed;
      from_first = k.from_first;
      to_last = k.to_last;
      within = w;
    }

    vertical-Lands : (delta : ℤ) → Lands b (vertical unicode rows b cursor delta)
    vertical-Lands delta =
        clamp_row-IsInside b h (add_wrapping i64_half cursor.0 delta) (min cursor.1 (last_col b))
          (add_wrapping-IsI64 cursor.0 delta) (omega arith)

    landed-Lands :
        (w : Walk) → Ends (λ s. IsInside b s.row s.col) w → Lands b (landed unicode rows b cursor w)
    landed-Lands refused e = k
    landed-Lands (arrived s) e = e
    landed-Lands exhausted e = e

    module _ (fuel : ℕ) (enough : cells b ≤ fuel) where
      ahead-lt : ahead b h (scan unicode rows b cursor) < fuel
      ahead-lt =
          let r = rank i64_half cursor.0 in
          let d = rank i64_half b.last_row - r in
          let e = r - rank i64_half b.first_row in
          let all : rank i64_half b.last_row - rank i64_half b.first_row ≡ d + e =
            omega (arith, k.from_first, k.to_last) in
          let less = fewer d e (last_col b) (last_col b - cursor.1) (omega arith) in
          omega (arith, enough, ap (λ n. (n + 1) * (last_col b + 1)) all, less)

      behind-lt : behind b h (scan unicode rows b cursor) < fuel
      behind-lt =
          let r = rank i64_half cursor.0 in
          let d = r - rank i64_half b.first_row in
          let e = rank i64_half b.last_row - r in
          let all : rank i64_half b.last_row - rank i64_half b.first_row ≡ d + e =
            omega (arith, k.from_first, k.to_last) in
          let less = fewer d e (last_col b) cursor.1 k.within in
          omega (arith, enough, ap (λ n. (n + 1) * (last_col b + 1)) all, less)

      -- With fuel for every cell of the region, a motion from a cell of the region returns, and
      -- lands on a cell of the region, if the rows that the client holds are no wider than the
      -- pane. A sum of rows that wraps is clamped like any other.
      pub resolve-Lands : (motion : Motion) → Lands b (resolve unicode rows b fuel motion cursor)
      unfolding resolve
      resolve-Lands Motion.left = in_row (cursor.1 - 1) (omega (arith, k.within))
      resolve-Lands Motion.right =
          in_row (min (min (cursor.1 + 1) 65535) (last_col b)) (omega arith)
      resolve-Lands Motion.down = vertical-Lands (pos 1)
      resolve-Lands Motion.up = vertical-Lands (negsuc 0)
      resolve-Lands Motion.half_page_down = vertical-Lands (half_page unicode rows b)
      resolve-Lands Motion.half_page_up = vertical-Lands (negated (half_page unicode rows b))
      resolve-Lands Motion.page_down = vertical-Lands (page unicode rows b)
      resolve-Lands Motion.page_up = vertical-Lands (negated (page unicode rows b))
      resolve-Lands Motion.line_start = in_row 0 (omega arith)
      resolve-Lands Motion.line_end =
          in_row (last_non_blank_at unicode rows cursor.0) (last_non_blank_at-le cursor.0)
      resolve-Lands Motion.first_non_blank =
          in_row (first_non_blank_at unicode rows cursor.0) (first_non_blank_at-le cursor.0)
      resolve-Lands Motion.top = record {
        signed = h.first;
        from_first = omega arith;
        to_last = h.ordered;
        within = omega arith;
      }
      resolve-Lands Motion.bottom = record {
        signed = h.last;
        from_first = h.ordered;
        to_last = omega arith;
        within = omega arith;
      }
      resolve-Lands Motion.word_forward = landed-Lands _ (
          forward_word-Ends unicode rows b (λ s. IsInside b s.row s.col) (ahead b h)
            (forward-Inside b h unicode rows) fuel (scan unicode rows b cursor) k ahead-lt)
      resolve-Lands Motion.word_backward = landed-Lands _ (
          word_by-Ends unicode rows b (backward unicode rows b) (λ s. IsInside b s.row s.col)
            (behind b h) (backward-Inside b h unicode rows) fuel (scan unicode rows b cursor) k
            behind-lt)
      resolve-Lands Motion.word_end = landed-Lands _ (
          word_by-Ends unicode rows b (forward unicode rows b) (λ s. IsInside b s.row s.col)
            (ahead b h) (forward-Inside b h unicode rows) fuel (scan unicode rows b cursor) k
            ahead-lt)
