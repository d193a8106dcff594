-- ===== src/Client/CopyMotion.antt =====
-- crates/oakterm/src/copy_motion.rs: where a motion of copy mode puts the cursor. A row is an `i64`,
-- a column a `u16`, a character its code point. The tables of Unicode and the rows that the client
-- holds are parameters. A loop takes fuel, and `exhausted` is what it answers without any.
pub mod Bounds
pub mod Scans
pub mod Landing
pub mod Words
use oakterm.Prelude.{
  ℕ, zero, suc, ◌+◌, ◌-◌, ◌*◌, ◌/◌, min, max, Bool, true, false, not, ◌||◌, Option, none, some,
  List, [], ◌∷◌, if◌then◌else◌, ◌==◌, ltb, get_elem?, position,
}
use oakterm.Prelude.Integers.{ℤ, pos, negsuc, ltb_ℤ, add_wrapping, negated, i64_half}

pub record Unicode : Type 0 where
  pub is_whitespace : ℕ → Bool
  pub is_alphanumeric : ℕ → Bool

-- `RowText`
abbrev pub RowText : Type 0
RowText = ℤ → Option (List ℕ)

pub data Motion : Type 0 where
  left down up right word_forward word_backward word_end line_start line_end first_non_blank top
        bottom half_page_down half_page_up page_down page_up :
      Motion

pub record MotionBounds : Type 0 where
  pub first_row : ℤ
  pub last_row : ℤ
  pub cols : ℕ
  pub visible_rows : ℕ

abbrev pub last_col : MotionBounds → ℕ
last_col b = b.cols - 1

abbrev pub min_ℤ : ℤ → ℤ → ℤ
min_ℤ a b = if ltb_ℤ b a then b else a

abbrev pub max_ℤ : ℤ → ℤ → ℤ
max_ℤ a b = if ltb_ℤ b a then a else b

abbrev pub clamp : ℤ → ℤ → ℤ → ℤ
clamp z low high = if ltb_ℤ z low then low else if ltb_ℤ high z then high else z

abbrev pub clamp_row : MotionBounds → ℤ → ℤ
clamp_row b row = clamp row (min_ℤ b.first_row b.last_row) (max_ℤ b.last_row b.first_row)

pub data Class : Type 0 where
  blank word punct : Class

abbrev pub same_class : Class → Class → Bool
same_class Class.blank Class.blank = true
same_class Class.word Class.word = true
same_class Class.punct Class.punct = true
same_class _ _ = false

-- `rows.row(row).unwrap_or_default()`
abbrev pub row_chars : RowText → ℤ → List ℕ
row_chars rows row = elim (rows row) [ none ↦ [] | some chars ↦ chars ]

-- `iter().rposition(..)`
abbrev pub rposition : (ℕ → Bool) → List ℕ → Option ℕ
rposition p [] = none
rposition p (c ∷ cs) = elim (rposition p cs) [
  | none ↦ if p c then some 0 else none
  | some i ↦ some (suc i)
]

-- `u16::try_from(index).ok()`, and `unwrap_or(0)` on the whole.
abbrev pub column_or_zero : Option ℕ → ℕ
column_or_zero none = 0
column_or_zero (some i) = if ltb i 65536 then i else 0

module _ (unicode : Unicode) where
  abbrev pub class_of : ℕ → Class
  class_of c =
      if unicode.is_whitespace c
      then Class.blank
      else if unicode.is_alphanumeric c || (c == 95)
      then Class.word
      else Class.punct

  abbrev pub last_non_blank_at : RowText → ℤ → ℕ
  last_non_blank_at rows row =
      column_or_zero (rposition (λ c. not (unicode.is_whitespace c)) (row_chars rows row))

  abbrev pub first_non_blank_at : RowText → ℤ → ℕ
  first_non_blank_at rows row =
      column_or_zero (position (λ c. not (unicode.is_whitespace c)) (row_chars rows row))

-- The row and the column that the scan is at, and the characters of the row.
pub record Scan : Type 0 where
  pub row : ℤ
  pub col : ℕ
  pub chars : List ℕ

-- What a loop answers: it met the end of the served region, stands where its test fails, or had no
-- fuel left.
pub data Walk : Type 0 where
  refused : Walk
  arrived : Scan → Walk
  exhausted : Walk

abbrev pub here : Scan → Option (ℤ × ℕ)
here s = some (s.row, s.col)

module _ (unicode : Unicode) (rows : RowText) (b : MotionBounds) where
  abbrev pub class : Scan → Class
  class s = elim (get_elem? s.chars s.col) [ none ↦ Class.blank | some c ↦ class_of unicode c ]

  abbrev pub enter_row : ℤ → ℕ → Option Scan
  enter_row row col = elim (rows row) [
    | none ↦ none
    | some chars ↦ some (record { row = row; col = col; chars = chars })
  ]

  -- `none` is `false`, and leaves the scan where it was.
  abbrev pub forward : Scan → Option Scan
  forward s =
      if ltb s.col (last_col b)
      then some (record s { col = s.col + 1 })
      else if not (ltb_ℤ s.row b.last_row)
      then none
      else enter_row (add_wrapping i64_half s.row (pos 1)) 0

  abbrev pub backward : Scan → Option Scan
  backward s =
      if ltb 0 s.col
      then some (record s { col = s.col - 1 })
      else if not (ltb_ℤ b.first_row s.row)
      then none
      else enter_row (add_wrapping i64_half s.row (negsuc 0)) (last_col b)

  -- `while self.class() == k { if !step() { return .. } }`
  unfoldable pub skip : (Scan → Option Scan) → Class → ℕ → Scan → Walk
  skip step k zero s = exhausted
  skip step k (suc fuel) s =
      if same_class (class s) k
      then elim (step s) [ none ↦ refused | some s' ↦ skip step k fuel s' ]
      else arrived s

  -- The loop to the last cell of a run: where it stands when the step refuses, or before the step
  -- that leaves the run.
  unfoldable pub run_end : (Scan → Option Scan) → Class → ℕ → Scan → Walk
  run_end step run zero s = exhausted
  run_end step run (suc fuel) s = elim (step s) [
    | none ↦ arrived s
    | some s' ↦ if not (same_class (class s') run) then arrived s else run_end step run fuel s'
  ]

  -- What a loop returns to its caller: the origin when it was refused.
  abbrev pub landed : ℤ × ℕ → Walk → Option (ℤ × ℕ)
  landed origin refused = some origin
  landed origin (arrived s) = here s
  landed origin exhausted = none

  abbrev pub then_walk : Walk → (Scan → Walk) → Walk
  then_walk refused k = refused
  then_walk (arrived s) k = k s
  then_walk exhausted k = exhausted

  abbrev pub forward_word : ℕ → Scan → Walk
  forward_word fuel s =
      let off =
        if same_class (class s) Class.blank then arrived s else skip forward (class s) fuel s in
      then_walk off (λ s'. skip forward Class.blank fuel s')

  -- `word_forward` of the scan is `forward_word`; `word_backward` steps backward, `word_end` forward.
  abbrev pub word_by : (Scan → Option Scan) → ℕ → Scan → Walk
  word_by step fuel s = elim (step s) [
    | none ↦ refused
    | some s' ↦ then_walk (skip step Class.blank fuel s') (λ s''. run_end step (class s'') fuel s'')
  ]

  abbrev pub vertical : ℤ × ℕ → ℤ → Option (ℤ × ℕ)
  vertical cursor delta =
      some (clamp_row b (add_wrapping i64_half cursor.0 delta), min cursor.1 (last_col b))

  abbrev pub page : ℤ
  page = pos (max b.visible_rows 1)

  abbrev pub half_page : ℤ
  half_page = pos (max (max b.visible_rows 1 / 2) 1)

  -- `Scan::new`
  abbrev pub scan : ℤ × ℕ → Scan
  scan cursor = record { row = cursor.0; col = cursor.1; chars = row_chars rows cursor.0 }

  unfoldable pub resolve : ℕ → Motion → ℤ × ℕ → Option (ℤ × ℕ)
  resolve fuel Motion.left cursor = some (cursor.0, cursor.1 - 1)
  resolve fuel Motion.right cursor = some (cursor.0, min (min (cursor.1 + 1) 65535) (last_col b))
  resolve fuel Motion.down cursor = vertical cursor (pos 1)
  resolve fuel Motion.up cursor = vertical cursor (negsuc 0)
  resolve fuel Motion.half_page_down cursor = vertical cursor half_page
  resolve fuel Motion.half_page_up cursor = vertical cursor (negated half_page)
  resolve fuel Motion.page_down cursor = vertical cursor page
  resolve fuel Motion.page_up cursor = vertical cursor (negated page)
  resolve fuel Motion.line_start cursor = some (cursor.0, 0)
  resolve fuel Motion.line_end cursor = some (cursor.0, last_non_blank_at unicode rows cursor.0)
  resolve fuel Motion.first_non_blank cursor =
      some (cursor.0, first_non_blank_at unicode rows cursor.0)
  resolve fuel Motion.top cursor = some (b.first_row, 0)
  resolve fuel Motion.bottom cursor = some (b.last_row, 0)
  resolve fuel Motion.word_forward cursor = landed cursor (forward_word fuel (scan cursor))
  resolve fuel Motion.word_backward cursor = landed cursor (word_by backward fuel (scan cursor))
  resolve fuel Motion.word_end cursor = landed cursor (word_by forward fuel (scan cursor))
