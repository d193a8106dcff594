-- ===== src/Terminal/HotBuffer.antt =====
-- crates/oakterm-terminal/src/scroll/hot_buffer.rs: the recent rows of the scrollback, bounded by
-- their bytes. `usize` and `u64` have 64 bits and wrap, as in a release build. The sizes of the
-- structs `Row` and `Cell` are the compiler's: `row_size` and `cell_size`. Of a row the buffer
-- reads only the capacity of its vector of cells; what else it holds is `A`.
pub mod Pruning
use oakterm.Prelude.{
  ℕ, ◌+◌, ◌-◌, ◌*◌, ◌/◌, ◌%◌, ◌^◌, Bool, true, false, Option, List, [], ◌∷◌, ◌++◌, if◌then◌else◌,
  ltb, leb, length, get_elem?,
}

pub record Row (A : Type 0) : Type 0 where
  pub content : A
  pub capacity : ℕ

pub record HotBuffer (A : Type 0) : Type 0 where
  pub rows : List (Row A)
  pub max_bytes : ℕ
  pub used_bytes : ℕ
  pub pushed : ℕ

-- What 64 bits keep of a number.
abbrev pub wrap : ℕ → ℕ
wrap n = n % 2 ^ 64

abbrev pub default_max_bytes : ℕ
default_max_bytes = 50 * 1024 * 1024

-- `max_bytes * 9 / 10`
abbrev pub prune_target : ℕ → ℕ
prune_target max_bytes = wrap (max_bytes * 9) / 10

module _ {A : Type 0} where
  abbrev pub new : ℕ → HotBuffer A
  new max_bytes = record { rows = []; max_bytes = max_bytes; used_bytes = 0; pushed = 0 }

  abbrev pub get : HotBuffer A → ℕ → Option (Row A)
  get b index = get_elem? b.rows index

  abbrev pub first_index : HotBuffer A → ℕ
  first_index b = b.pushed - length b.rows

  module _ (row_size cell_size : ℕ) where
    abbrev pub row_byte_size : Row A → ℕ
    row_byte_size row = row_size + row.capacity * cell_size

    -- The loop of `prune_if_needed`: the rows left, the rows pruned, and the bytes left. The
    -- subtraction saturates.
    unfoldable pub prune : ℕ → List (Row A) → ℕ → List (Row A) × List (Row A) × ℕ
    prune target [] used = ([], [], used)
    prune target (row ∷ rows) used =
        let (left, pruned, bytes) = prune target rows (used - row_byte_size row) in
        if ltb target used then (left, row ∷ pruned, bytes) else (row ∷ rows, [], used)

    abbrev pub prune_if_needed : HotBuffer A → HotBuffer A × List (Row A)
    prune_if_needed b =
        if leb b.used_bytes b.max_bytes
        then (b, [])
        else let (left, pruned, bytes) = prune (prune_target b.max_bytes) b.rows b.used_bytes in
          (record b { rows = left; used_bytes = bytes }, pruned)

    unfoldable pub push : HotBuffer A → Row A → HotBuffer A × List (Row A)
    push b row = prune_if_needed (record b {
      used_bytes = wrap (b.used_bytes + row_byte_size row);
      rows = b.rows ++ row ∷ [];
      pushed = wrap (b.pushed + 1);
    })

    unfoldable pub set_max_bytes : HotBuffer A → ℕ → HotBuffer A × List (Row A)
    set_max_bytes b max_bytes = prune_if_needed (record b { max_bytes = max_bytes })
