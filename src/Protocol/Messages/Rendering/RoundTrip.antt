-- ===== src/Protocol/Messages/Rendering/RoundTrip.antt =====
-- render.rs, message.rs: rows of cells that were sent are what is decoded.
use oakterm.Prelude.{
  append_assoc, ℕ, ◌+◌, ◌<◌, ◌≡◌, refl, ap, ◌∙◌, false, List, ◌∷◌, ◌++◌, ltb, length, drop,
  length-append, arith,
}
use oakterm.Prelude.Totals.{All, All-all}
use oakterm.Protocol.Bytes.{to_le, from_le-two, from_le-four}
use oakterm.Protocol.Frame.{ok}
use oakterm.Protocol.Frame.RoundTrip.{take-append}
use oakterm.Protocol.Wire.{at_least}
use oakterm.Protocol.Wire.Offsets.{slice-front}
use oakterm.Protocol.Wire.Behind.{
  u16_at-behind, byte_at-here, slice-behind, ltb-behind, u16_len-ok, drop-past,
}
use oakterm.Protocol.Wire.Sequences.{Carried, wires, encode_each-wires, decode_each-wires}
use oakterm.Protocol.Messages.Rendering.{
  WireCell, encode_wire_cell, decode_wire_cell, DirtyRow, encode_dirty_row, decode_dirty_row,
}

pub record FitsWireCell (m : WireCell) : Type 0 where
  pub codepoint : m.codepoint < 4294967296
  pub flags : m.flags < 65536
  pub extra : length m.extra < 65536

abbrev wire_cell_fixed : WireCell → List ℕ
wire_cell_fixed m =
    to_le 4 m.codepoint
    ++ m.fg_r ∷ m.fg_g ∷ m.fg_b ∷ m.fg_type ∷ m.bg_r ∷ m.bg_g ∷ m.bg_b ∷ m.bg_type ∷ to_le 2 m.flags
    ++ to_le 2 (length m.extra)

abbrev wire_cell_sent : WireCell → List ℕ
wire_cell_sent m = wire_cell_fixed m ++ m.extra

wire_cell-Carried :
    (m : WireCell) → FitsWireCell m → Carried encode_wire_cell decode_wire_cell wire_cell_sent m
unfolding encode_wire_cell decode_wire_cell
wire_cell-Carried m h = record {
  written = rw (u16_len-ok m.extra h.extra) refl;
  taken = λ rest.
      let bytes = wire_cell_fixed m ++ (m.extra ++ rest) in
      let fixed : ltb (length bytes) 16 ≡ false = ground arith in
      let all : ltb (length bytes) (16 + length m.extra) ≡ false =
        ground (arith, length-append m.extra rest) in
      let size : 16 + length m.extra ≡ length (wire_cell_sent m) = omega arith in
      rw
        (
          at_least,
          fixed,
          from_le-four m.codepoint h.codepoint,
          from_le-two m.flags h.flags,
          from_le-two (length m.extra) h.extra,
          all,
          take-append m.extra rest,
        )
        (ap (λ k. ok (m, k)) size);
}

pub record FitsDirtyRow (m : DirtyRow) : Type 0 where
  pub row_index : m.row_index < 65536
  pub count : length m.cells < 65536
  pub cells : All FitsWireCell m.cells
  pub mark_metadata : length m.mark_metadata < 65536

cells-Carried :
    (ms : List WireCell)
    → All FitsWireCell ms
    → All (Carried encode_wire_cell decode_wire_cell wire_cell_sent) ms
cells-Carried ms h = All-all ms wire_cell-Carried h

abbrev mark : DirtyRow → List ℕ
mark m = m.semantic_mark ∷ to_le 2 (length m.mark_metadata)

abbrev pub dirty_row_sent : DirtyRow → List ℕ
dirty_row_sent m =
    to_le 2 m.row_index
    ++ to_le 2 (length m.cells)
    ++ (wires wire_cell_sent m.cells ++ (mark m ++ m.mark_metadata))

module _ (m : DirtyRow) (h : FitsDirtyRow m) where
  carried : All (Carried encode_wire_cell decode_wire_cell wire_cell_sent) m.cells
  carried = cells-Carried m.cells h.cells

  encode_dirty_row-sent : encode_dirty_row m ≡ ok (dirty_row_sent m)
  unfolding encode_dirty_row
  encode_dirty_row-sent =
      rw
        (
          u16_len-ok m.cells h.count,
          u16_len-ok m.mark_metadata h.mark_metadata,
          encode_each-wires encode_wire_cell decode_wire_cell wire_cell_sent m.cells carried,
        )
        refl

  decode_dirty_row-sent :
      (rest : List ℕ)
      → decode_dirty_row (dirty_row_sent m ++ rest) ≡ ok (m, length (dirty_row_sent m))
  unfolding decode_dirty_row
  decode_dirty_row-sent rest =
      let n = length m.mark_metadata in
      let row = wires wire_cell_sent m.cells in
      let o = 4 + length row in
      let pre = to_le 2 m.row_index ++ to_le 2 (length m.cells) in
      let ys = mark m ++ (m.mark_metadata ++ rest) in
      let bytes = pre ++ (row ++ ys) in
      let same : dirty_row_sent m ++ rest ≡ bytes =
        ap (λ b. pre ++ b)
          (append_assoc row (mark m ++ m.mark_metadata) rest
            ∙ ap (λ b. row ++ b) (append_assoc (mark m) m.mark_metadata rest)) in
      let behind : drop o bytes ≡ ys = drop-past pre row ys in
      let four : ltb (length bytes) 4 ≡ false = ground arith in
      let all =
        decode_each-wires encode_wire_cell decode_wire_cell wire_cell_sent m.cells bytes 4 ys
          carried (omega arith) refl in
      let sum : o + 3 + n ≡ o + (3 + n) = omega arith in
      let size : o + (3 + n) ≡ length (dirty_row_sent m) =
        omega (arith, length-append row (mark m ++ m.mark_metadata)) in
      ap decode_dirty_row same
      ∙ rw
          (
            at_least,
            four,
            from_le-two m.row_index h.row_index,
            from_le-two (length m.cells) h.count,
            all,
            ltb-behind bytes o ys behind 3 (omega arith) (omega arith),
            byte_at-here bytes o ys behind,
            u16_at-behind bytes o ys behind 1,
            from_le-two n h.mark_metadata,
            slice-behind bytes o ys behind 3 n (omega arith),
            slice-front (mark m) m.mark_metadata rest,
            sum,
            ltb-behind bytes o ys behind (3 + n) (omega arith)
                (omega (arith, length-append m.mark_metadata rest)),
          )
          (ap (λ k. ok (m, k)) size)

  dirty_row-Carried : Carried encode_dirty_row decode_dirty_row dirty_row_sent m
  dirty_row-Carried = record { written = encode_dirty_row-sent; taken = decode_dirty_row-sent }

pub rows-Carried :
    (ms : List DirtyRow)
    → All FitsDirtyRow ms
    → All (Carried encode_dirty_row decode_dirty_row dirty_row_sent) ms
rows-Carried ms h = All-all ms dirty_row-Carried h
