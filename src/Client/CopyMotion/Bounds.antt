-- ===== src/Client/CopyMotion/Bounds.antt =====
-- copy_motion.rs: the cells that a cursor may stand on, and the steps of a scan.
use oakterm.Prelude.{
  ℕ, ◌+◌, ◌-◌, ◌*◌, ◌≤◌, ◌<◌, ◌≡◌, refl, sym, ap, subst, ◌∙◌, false, none, some, ltb, arith,
  Bool-cases, Option-cases, inl, inr,
}
use oakterm.Prelude.Integers.{
  ℤ, pos, negsuc, IsI64, i64_half, rank, ltb_ℤ, ltb_ℤ-rank, add_wrapping, add_one, sub_one,
}
use oakterm.Client.CopyMotion.{
  MotionBounds, last_col, clamp_row, min_ℤ, max_ℤ, Scan, Unicode, RowText, forward, backward,
  enter_row,
}

-- The rows are in order, and the sizes fit their types.
pub record AreBounds (b : MotionBounds) : Type 0 where
  pub first : IsI64 b.first_row
  pub last : IsI64 b.last_row
  pub ordered : rank i64_half b.first_row ≤ rank i64_half b.last_row
  pub cols : b.cols < 65536

-- A cell of the addressable region.
pub record IsInside (b : MotionBounds) (row : ℤ) (col : ℕ) : Type 0 where
  pub signed : IsI64 row
  pub from_first : rank i64_half b.first_row ≤ rank i64_half row
  pub to_last : rank i64_half row ≤ rank i64_half b.last_row
  pub within : col ≤ last_col b

rank_small : (z : ℤ) → IsI64 z → rank i64_half z < i64_half + i64_half
rank_small (pos n) h = omega (arith, h)
rank_small (negsuc n) h = omega (arith, h)

rank_injective : (y z : ℤ) → IsI64 y → IsI64 z → rank i64_half y ≡ rank i64_half z → y ≡ z
rank_injective (pos m) (pos n) h k e = ap pos (omega (arith, e))
rank_injective (pos m) (negsuc n) h k e = absurd (omega (arith, e, k))
rank_injective (negsuc m) (pos n) h k e = absurd (omega (arith, e, h))
rank_injective (negsuc m) (negsuc n) h k e = ap negsuc (omega (arith, e, h, k))

-- One row less is fewer cells, whatever the columns.
row_less : (d w x y : ℕ) → x ≤ w → d * (w + 1) + x < (d + 1) * (w + 1) + y
row_less d w x y h =
    let sum : (d + 1) * (w + 1) ≡ d * (w + 1) + (w + 1) = grind arith in omega (arith, sum, h)

pub some_injective : {A : Type 0} (x y : A) → some x ≡ some y → x ≡ y
some_injective x y e = ap (λ o. elim o [ none ↦ x | some z ↦ z ]) e

module _ (b : MotionBounds) (h : AreBounds b) where
  min-first : min_ℤ b.first_row b.last_row ≡ b.first_row
  min-first =
      let e = ltb_ℤ-rank i64_half b.last_row b.first_row h.last h.first in
      let f : ltb_ℤ b.last_row b.first_row ≡ false = ground (arith, e, h.ordered) in rw f refl

  max-last : max_ℤ b.last_row b.first_row ≡ b.last_row
  max-last = elim (Bool-cases (ltb_ℤ b.first_row b.last_row)) [
    | inl above ↦ rw (max_ℤ, above) refl
    | inr level ↦
        let e = ltb_ℤ-rank i64_half b.first_row b.last_row h.first h.last in
        let f : rank i64_half b.first_row ≡ rank i64_half b.last_row =
          ground (arith, e, level, h.ordered) in
        rw (max_ℤ, level) (rank_injective b.first_row b.last_row h.first h.last f)
  ]

  -- The clamped row lies in the region, whatever the sum wrapped to.
  pub clamp_row-IsInside :
      (z : ℤ) (col : ℕ) → IsI64 z → col ≤ last_col b → IsInside b (clamp_row b z) col
  clamp_row-IsInside z col k c =
      let low = ltb_ℤ-rank i64_half z b.first_row k h.first in
      let high = ltb_ℤ-rank i64_half b.last_row z h.last k in
      rw (min-first, max-last)
        (elim (Bool-cases (ltb_ℤ z b.first_row)) [
          | inl under ↦ rw under (record {
            signed = h.first;
            from_first = omega arith;
            to_last = h.ordered;
            within = c;
          })
          | inr over ↦ elim (Bool-cases (ltb_ℤ b.last_row z)) [
            | inl past ↦
                rw (over, past)
                  (record {
                    signed = h.last;
                    from_first = h.ordered;
                    to_last = omega arith;
                    within = c;
                  })
            | inr inside ↦
                rw (over, inside)
                  (record {
                    signed = k;
                    from_first = ground (arith, low);
                    to_last = ground (arith, high);
                    within = c;
                  })
          ]
        ])

  abbrev Inside : Scan → Type 0
  Inside s = IsInside b s.row s.col

  -- The cells from the scan on to the end of the region, and back to its start.
  abbrev pub ahead : Scan → ℕ
  ahead s =
      (rank i64_half b.last_row - rank i64_half s.row) * (last_col b + 1) + (last_col b - s.col)

  abbrev pub behind : Scan → ℕ
  behind s = (rank i64_half s.row - rank i64_half b.first_row) * (last_col b + 1) + s.col

  module _ (unicode : Unicode) (rows : RowText) where
    entered :
        (row : ℤ) (col : ℕ) (s : Scan)
        → enter_row unicode rows b row col ≡ some s
        → (s.row ≡ row) × (s.col ≡ col)
    entered row col s e = elim (Option-cases (rows row)) [
      | inl nothing ↦ absurd (ground arith)
      | inr (chars, found) ↦
          let t : Scan = record { row = row; col = col; chars = chars } in
          let made : enter_row unicode rows b row col ≡ some t = rw (enter_row, found) refl in
          let same : t ≡ s = some_injective t s (sym made ∙ e) in
          (ap (λ u. u.row) (sym same), ap (λ u. u.col) (sym same))
    ]

    pub forward-Inside :
        (s s' : Scan)
        → Inside s
        → forward unicode rows b s ≡ some s'
        → Inside s' × (ahead s' < ahead s)
    forward-Inside s s' k e = elim (Bool-cases (ltb s.col (last_col b))) [
      | inl room ↦
          let t : Scan = record s { col = s.col + 1 } in
          let made : forward unicode rows b s ≡ some t = rw (forward, room) refl in
          let same : t ≡ s' = some_injective t s' (sym made ∙ e) in
          subst (λ u. Inside u × (ahead u < ahead s)) same
            (
              record {
                signed = k.signed;
                from_first = k.from_first;
                to_last = k.to_last;
                within = ground (arith, room);
              },
              ground (arith, room),
            )
      | inr full ↦ elim (Bool-cases (ltb_ℤ s.row b.last_row)) [
        | inr end ↦ absurd (ground arith)
        | inl more ↦
            let row = add_wrapping i64_half s.row (pos 1) in
            let made : forward unicode rows b s ≡ enter_row unicode rows b row 0 =
              rw (forward, full, more) refl in
            let below = ltb_ℤ-rank i64_half s.row b.last_row k.signed h.last in
            let under : rank i64_half s.row < rank i64_half b.last_row =
              ground (arith, below, more) in
            let next =
              add_one s.row k.signed (omega (arith, under, rank_small b.last_row h.last)) in
            let (at_row, at_col) = entered row 0 s' (sym made ∙ e) in
            let d = rank i64_half b.last_row - (rank i64_half s.row + 1) in
            let one : rank i64_half b.last_row - rank i64_half s.row ≡ d + 1 =
              omega (arith, under) in
            (
              record {
                signed = rw at_row next.0;
                from_first = rw (at_row, next.1) (omega (arith, k.from_first));
                to_last = rw (at_row, next.1) (omega (arith, under));
                within = rw at_col (omega arith);
              },
              rw (at_row, at_col, next.1, one)
                  (row_less d (last_col b) (last_col b - 0) (last_col b - s.col) (omega arith)),
            )
      ]
    ]

    pub backward-Inside :
        (s s' : Scan)
        → Inside s
        → backward unicode rows b s ≡ some s'
        → Inside s' × (behind s' < behind s)
    backward-Inside s s' k e = elim (Bool-cases (ltb 0 s.col)) [
      | inl room ↦
          let t : Scan = record s { col = s.col - 1 } in
          let made : backward unicode rows b s ≡ some t = rw (backward, room) refl in
          let same : t ≡ s' = some_injective t s' (sym made ∙ e) in
          subst (λ u. Inside u × (behind u < behind s)) same
            (
              record {
                signed = k.signed;
                from_first = k.from_first;
                to_last = k.to_last;
                within = omega (arith, k.within);
              },
              ground (arith, room),
            )
      | inr full ↦ elim (Bool-cases (ltb_ℤ b.first_row s.row)) [
        | inr end ↦ absurd (ground arith)
        | inl more ↦
            let row = add_wrapping i64_half s.row (negsuc 0) in
            let made : backward unicode rows b s ≡ enter_row unicode rows b row (last_col b) =
              rw (backward, full, more) refl in
            let above = ltb_ℤ-rank i64_half b.first_row s.row h.first k.signed in
            let over : rank i64_half b.first_row < rank i64_half s.row =
              ground (arith, above, more) in
            let next = sub_one s.row k.signed (omega (arith, over)) in
            let (at_row, at_col) = entered row (last_col b) s' (sym made ∙ e) in
            let d = rank i64_half row - rank i64_half b.first_row in
            let one : rank i64_half s.row - rank i64_half b.first_row ≡ d + 1 =
              omega (arith, over, next.1) in
            (
              record {
                signed = rw at_row next.0;
                from_first = rw at_row (omega (arith, next.1, over));
                to_last = rw at_row (omega (arith, next.1, k.to_last));
                within = rw at_col (omega arith);
              },
              rw (at_row, at_col, one) (row_less d (last_col b) (last_col b) s.col (omega arith)),
            )
      ]
    ]
