-- ===== src/Terminal/HotBuffer/Pruning.antt =====
-- hot_buffer.rs: the byte budget, and which rows leave the buffer.
use oakterm.Prelude.{
  ℕ, ◌+◌, ◌-◌, ◌*◌, ◌/◌, ◌%◌, ◌^◌, ◌≤◌, ◌<◌, ◌⊎◌, Option, some, ◌≡◌, refl, sym, ap, ◌∙◌, inl, inr,
  Bool-cases, List, [], ◌∷◌, ◌++◌, ltb, leb, length, get_elem?, get-append_behind, get-append_front,
  length-append, arith,
}
use oakterm.Prelude.Totals.{total, total-append}
use oakterm.Terminal.HotBuffer.{
  Row, HotBuffer, get, first_index, prune_target, row_byte_size, prune, prune_if_needed, push,
  set_max_bytes,
}

nil-append : {A : Type 0} (before : List A) (last : A) → ¬ ([] ≡ before ++ last ∷ [])
nil-append [] last e = ground arith
nil-append (x ∷ before) last e = ground arith

module _ {A : Type 0} (row_size cell_size : ℕ) where
  abbrev pub bytes_of : List (Row A) → ℕ
  bytes_of rows = total (row_byte_size row_size cell_size) rows

  -- The buffer counts the bytes of its rows, keeps to its limit, and has pushed what it holds.
  pub record IsBuffer (b : HotBuffer A) : Type 0 where
    pub counted : b.used_bytes ≡ bytes_of b.rows
    pub bounded : b.used_bytes ≤ b.max_bytes
    pub known : length b.rows ≤ b.pushed

  -- Pruning takes rows from the front, as few as it needs to.
  pub record Prunes (target : ℕ) (rows left pruned : List (Row A)) : Type 0 where
    pub split : rows ≡ pruned ++ left
    pub fits : bytes_of left ≤ target
    pub needed :
        (before : List (Row A)) (last : Row A)
        → pruned ≡ before ++ last ∷ []
        → target < row_byte_size row_size cell_size last + bytes_of left

  Prunes-more :
      (target : ℕ) (row : Row A) (rows left pruned : List (Row A))
      → target < row_byte_size row_size cell_size row + bytes_of rows
      → Prunes target rows left pruned
      → Prunes target (row ∷ rows) left (row ∷ pruned)
  Prunes-more target row rows left pruned over h = record {
    split = ap (◌∷◌ row) h.split;
    fits = h.fits;
    needed = last_needed;
  }
    where
      last_needed :
          (before : List (Row A)) (last : Row A)
          → row ∷ pruned ≡ before ++ last ∷ []
          → target < row_byte_size row_size cell_size last + bytes_of left
      last_needed [] last e =
          let same : row ≡ last = ground arith in
          let nothing : pruned ≡ [] = ground arith in
          let all : rows ≡ left = h.split ∙ ap (λ xs. xs ++ left) nothing in rw (← same, ← all) over
      last_needed (x ∷ before) last e = h.needed before last (ground arith)

  prune-Prunes :
      (target : ℕ) (rows : List (Row A))
      → let r = prune row_size cell_size target rows (bytes_of rows) in
        Prunes target rows r.0 r.1 × (r.2 ≡ bytes_of r.0)
  unfolding prune
  prune-Prunes target [] = (
    record {
      split = refl;
      fits = omega arith;
      needed = λ before last e. absurd (nil-append before last e);
    },
    refl,
  )
  prune-Prunes target (row ∷ rows) =
      let size = row_byte_size row_size cell_size row in
      let less : size + bytes_of rows - size ≡ bytes_of rows = omega arith in
      let (h, bytes) = prune-Prunes target rows in
      elim (Bool-cases (ltb target (size + bytes_of rows))) [
        | inl over ↦ rw (over, less) (Prunes-more target row rows _ _ (ground arith) h, bytes)
        | inr within ↦ rw within (
          record {
            split = refl;
            fits = ground arith;
            needed = λ before last e. absurd (nil-append before last e);
          },
          refl,
        )
      ]

  -- A buffer settled within its limit: the rows that were pruned and those that are left are the
  -- rows as they were, the absolute index of each row is the same as before, and if rows were
  -- pruned, then at most nine tenths of the limit are used, and with one row less pruned more
  -- would be.
  pub record Settles (b b' : HotBuffer A) (pruned : List (Row A)) : Type 0 where
    pub valid : IsBuffer b'
    pub rows : b.rows ≡ pruned ++ b'.rows
    pub max_bytes : b'.max_bytes ≡ b.max_bytes
    pub pushed : b'.pushed ≡ b.pushed
    pub first : first_index b' ≡ first_index b + length pruned
    pub low :
        (pruned ≡ [])
        ⊎ ((b'.used_bytes ≤ b.max_bytes * 9 / 10)
            × ((before : List (Row A)) (last : Row A)
                → pruned ≡ before ++ last ∷ []
                → b.max_bytes * 9 / 10 < row_byte_size row_size cell_size last + b'.used_bytes))

  prune_if_needed-Settles :
      (b : HotBuffer A)
      → b.used_bytes ≡ bytes_of b.rows
      → length b.rows ≤ b.pushed
      → b.max_bytes * 9 < 2 ^ 64
      → let r = prune_if_needed row_size cell_size b in Settles b r.0 r.1
  prune_if_needed-Settles b counted known room = elim (Bool-cases (leb b.used_bytes b.max_bytes)) [
    | inl within ↦ rw within (record {
      valid = record { counted = counted; bounded = ground arith; known = known };
      rows = refl;
      max_bytes = refl;
      pushed = refl;
      first = omega arith;
      low = inl refl;
    })
    | inr over ↦
        let target : prune_target b.max_bytes ≡ b.max_bytes * 9 / 10 = omega (arith, room) in
        let (h, bytes) = prune-Prunes (prune_target b.max_bytes) b.rows in
        let r = prune row_size cell_size (prune_target b.max_bytes) b.rows (bytes_of b.rows) in
        let lengths : length b.rows ≡ length r.1 + length r.0 =
          ap length h.split ∙ length-append r.1 r.0 in
        rw (over, counted)
          (record {
            valid = record {
              counted = bytes;
              bounded = omega (arith, bytes, h.fits, target);
              known = omega (arith, lengths, known);
            };
            rows = h.split;
            max_bytes = refl;
            pushed = refl;
            first = omega (arith, lengths, known);
            low = inr (
              omega (arith, bytes, h.fits, target),
              λ before last e. omega (arith, h.needed before last e, target, bytes),
            );
          })
  ]

  -- The sums that a push computes stay within 64 bits.
  pub record Fits (b : HotBuffer A) (row : Row A) : Type 0 where
    pub bytes : b.used_bytes + row_byte_size row_size cell_size row < 2 ^ 64
    pub target : b.max_bytes * 9 < 2 ^ 64
    pub pushed : b.pushed + 1 < 2 ^ 64

  abbrev pub with_row : HotBuffer A → Row A → HotBuffer A
  with_row b row = record b {
    used_bytes = b.used_bytes + row_byte_size row_size cell_size row;
    rows = b.rows ++ row ∷ [];
    pushed = b.pushed + 1;
  }

  -- A push whose sums do not overflow settles the buffer with the new row at its end: the buffer
  -- counts its bytes, keeps to its limit, prunes the oldest rows, returns them in order, and prunes
  -- as few as bring it to nine tenths of the limit. Every row keeps its absolute index.
  pub push-Settles :
      (b : HotBuffer A) (row : Row A)
      → IsBuffer b
      → Fits b row
      → let r = push row_size cell_size b row in Settles (with_row b row) r.0 r.1
  unfolding push
  push-Settles b row v fits =
      let size = row_byte_size row_size cell_size row in
      let sum : (b.used_bytes + size) % 2 ^ 64 ≡ b.used_bytes + size = omega (arith, fits.bytes) in
      let next : (b.pushed + 1) % 2 ^ 64 ≡ b.pushed + 1 = omega (arith, fits.pushed) in
      rw (sum, next)
        (prune_if_needed-Settles (with_row b row)
          (omega
            (arith, v.counted, total-append (row_byte_size row_size cell_size) b.rows (row ∷ [])))
          (omega (arith, v.known, length-append b.rows (row ∷ []))) fits.target)

  -- A new limit settles the buffer in the same way.
  pub set_max_bytes-Settles :
      (b : HotBuffer A) (max_bytes : ℕ)
      → IsBuffer b
      → max_bytes * 9 < 2 ^ 64
      → let r = set_max_bytes row_size cell_size b max_bytes in
        Settles (record b { max_bytes = max_bytes }) r.0 r.1
  unfolding set_max_bytes
  set_max_bytes-Settles b max_bytes v room =
      prune_if_needed-Settles (record b { max_bytes = max_bytes }) v.counted v.known room

  -- The row at an absolute index of all history.
  abbrev pub row_at : HotBuffer A → ℕ → Option (Row A)
  row_at b index = get b (index - first_index b)

  -- After a push every row that the buffer still holds is found at the absolute index that it had
  -- before, and the new row at the index that follows the last one.
  pub push-row_at :
      (b : HotBuffer A) (row : Row A) (index : ℕ)
      → IsBuffer b
      → Fits b row
      → let b' = (push row_size cell_size b row).0 in
        first_index b' ≤ index
        → (index < b.pushed → row_at b' index ≡ row_at b index)
          × (index ≡ b.pushed → row_at b' index ≡ some row)
  push-row_at b row index v fits h =
      let r = push row_size cell_size b row in
      let x = push-Settles b row v fits in
      let place : length r.1 + (index - first_index r.0) ≡ index - first_index b =
        omega (arith, x.first, h, v.known, length-append b.rows (row ∷ [])) in
      let found : row_at r.0 index ≡ get_elem? (b.rows ++ row ∷ []) (index - first_index b) =
        sym (get-append_behind r.1 (r.0).rows (index - first_index r.0))
        ∙ ap (λ rows. get_elem? rows (length r.1 + (index - first_index r.0))) (sym x.rows)
        ∙ ap (get_elem? (b.rows ++ row ∷ [])) place in
      (
        λ old.
            found
            ∙ get-append_front b.rows (row ∷ []) (index - first_index b)
                (omega (arith, v.known, old, x.first, h, length-append b.rows (row ∷ []))),
        λ last.
            let end : index - first_index b ≡ length b.rows + 0 = omega (arith, v.known, last) in
            found ∙ ap (get_elem? (b.rows ++ row ∷ [])) end ∙ get-append_behind b.rows (row ∷ []) 0,
      )
