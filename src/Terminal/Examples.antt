-- ===== src/Terminal/Examples.antt =====
-- A small scrollback buffer that a push overflows, and the theorems about it.
use oakterm.Prelude.{ℕ, ◌<◌, ◌≤◌, ◌≡◌, refl, [], ◌∷◌, some, arith}
use oakterm.Terminal.HotBuffer.{Row, HotBuffer, first_index, push, set_max_bytes}
use oakterm.Terminal.HotBuffer.Pruning as Pruning
use oakterm.Terminal.HotBuffer.Pruning.{IsBuffer, Fits, Settles, with_row, row_at}

abbrev row_of : ℕ → Row ℕ
row_of n = record { content = n; capacity = 4 }

-- Three rows of 28 bytes each, within 100 bytes; the fourth is too many.
abbrev full : HotBuffer ℕ
full = record {
  rows = row_of 5 ∷ row_of 6 ∷ row_of 7 ∷ [];
  max_bytes = 100;
  used_bytes = 84;
  pushed = 8;
}

full-IsBuffer : IsBuffer 12 4 full
full-IsBuffer = record { counted = refl; bounded = omega arith; known = omega arith }

full-Fits : Fits 12 4 full (row_of 8)
full-Fits = record { bytes = omega arith; target = omega arith; pushed = omega arith }

push-Settles_example :
    Settles 12 4
      (with_row 12 4 full (row_of 8))
      (push 12 4 full (row_of 8)).0
      (push 12 4 full (row_of 8)).1
push-Settles_example = Pruning.push-Settles 12 4 full (row_of 8) full-IsBuffer full-Fits

abbrev place : ℕ
place = 7

kept : first_index (push 12 4 full (row_of 8)).0 ≤ place
unfolding push oakterm.Terminal.HotBuffer.prune
kept = omega arith

push-row_at_example :
    (place < 8 → row_at 12 4 (push 12 4 full (row_of 8)).0 place ≡ row_at 12 4 full place)
    × (place ≡ 8 → row_at 12 4 (push 12 4 full (row_of 8)).0 place ≡ some (row_of 8))
push-row_at_example = Pruning.push-row_at 12 4 full (row_of 8) place full-IsBuffer full-Fits kept
