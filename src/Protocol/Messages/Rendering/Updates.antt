-- ===== src/Protocol/Messages/Rendering/Updates.antt =====
-- render.rs, message.rs: the messages that carry rows.
use oakterm.Prelude.{
  append-nil, if◌then◌else◌, ◌<◌, ◌≡◌, refl, sym, false, [], ◌∷◌, ◌++◌, ltb, length, arith,
}
use oakterm.Prelude.Integers.{IsSigned}
use oakterm.Prelude.Totals.{All}
use oakterm.Protocol.Bytes.{to_le, from_le-two, from_le-four}
use oakterm.Protocol.Frame.{err, ErrorKind, ok, ◌>>=◌}
use oakterm.Protocol.Wire.{at_least, i64_le, bool_byte}
use oakterm.Protocol.Wire.Laws.{from_le-eight, i64-back, bool-back}
use oakterm.Protocol.Wire.Behind.{u16_len-ok, u32_len-ok}
use oakterm.Protocol.Wire.Sequences.{wires, encode_each-wires, decode_each-wires}
use oakterm.Protocol.Messages.Rendering.{
  encode_dirty_row, decode_dirty_row, RenderUpdate, encode_render_update, decode_render_update,
  ScrollbackData, encode_scrollback_data, decode_scrollback_data,
}
use oakterm.Protocol.Messages.Rendering.RoundTrip.{FitsDirtyRow, dirty_row_sent, rows-Carried}

pub record FitsRenderUpdate (m : RenderUpdate) : Type 0 where
  pub pane_id : m.pane_id < 4294967296
  pub seqno : m.seqno < 18446744073709551616
  pub cursor_x : m.cursor_x < 65536
  pub cursor_y : m.cursor_y < 65536
  pub history_len : m.history_len < 18446744073709551616
  pub count : length m.dirty_rows < 65536
  pub dirty_rows : All FitsDirtyRow m.dirty_rows

-- What is sent of an update is what is decoded, whatever rows of cells it carries, if the fields
-- and the lengths fit their types.
pub decode_render_update-encode_render_update :
    (m : RenderUpdate)
    → FitsRenderUpdate m
    → (encode_render_update m >>= decode_render_update) ≡ ok m
unfolding encode_render_update decode_render_update
decode_render_update-encode_render_update m h =
    let listed = wires dirty_row_sent m.dirty_rows in
    let bytes =
      to_le 4 m.pane_id
      ++ to_le 8 m.seqno
      ++ to_le 2 m.cursor_x
      ++ to_le 2 m.cursor_y
      ++ m.cursor_style
        ∷ bool_byte m.cursor_visible
        ∷ m.bg_r
        ∷ m.bg_g
        ∷ m.bg_b
        ∷ bool_byte m.bracketed_paste
        ∷ bool_byte m.alt_screen
        ∷ m.input_flags
        ∷ m.kitty_kbd_flags
        ∷ to_le 8 m.history_len
      ++ to_le 2 (length m.dirty_rows)
      ++ listed in
    let fixed : ltb (length bytes) 35 ≡ false = ground arith in
    let carried = rows-Carried m.dirty_rows h.dirty_rows in
    let written =
      encode_each-wires encode_dirty_row decode_dirty_row dirty_row_sent m.dirty_rows carried in
    let all =
      decode_each-wires encode_dirty_row decode_dirty_row dirty_row_sent m.dirty_rows bytes 35 []
        carried (omega arith) (sym (append-nil listed)) in
    rw
      (
        u16_len-ok m.dirty_rows h.count,
        written,
        at_least,
        fixed,
        from_le-four m.pane_id h.pane_id,
        from_le-eight m.seqno h.seqno,
        from_le-two m.cursor_x h.cursor_x,
        from_le-two m.cursor_y h.cursor_y,
        bool-back m.cursor_visible,
        bool-back m.bracketed_paste,
        bool-back m.alt_screen,
        from_le-eight m.history_len h.history_len,
        from_le-two (length m.dirty_rows) h.count,
        all,
      )
      refl

pub record FitsScrollbackData (m : ScrollbackData) : Type 0 where
  pub pane_id : m.pane_id < 4294967296
  pub start_row : IsSigned 9223372036854775808 m.start_row
  pub total_rows : m.total_rows < 4294967296
  pub base : m.base < 18446744073709551616
  pub count : length m.rows < 4294967296
  pub rows : All FitsDirtyRow m.rows

-- What is sent of the scrollback is what is decoded if it has at most 10,000 rows, and is refused as
-- malformed if it has more, for fields and lengths that fit their types.
pub decode_scrollback_data-encode_scrollback_data :
    (m : ScrollbackData)
    → FitsScrollbackData m
    → (encode_scrollback_data m >>= decode_scrollback_data)
      ≡ (if ltb 10000 (length m.rows) then err ErrorKind.invalid_data else ok m)
unfolding encode_scrollback_data decode_scrollback_data
decode_scrollback_data-encode_scrollback_data m h =
    let listed = wires dirty_row_sent m.rows in
    let bytes =
      to_le 4 m.pane_id
      ++ i64_le m.start_row
      ++ bool_byte m.has_more ∷ to_le 4 m.total_rows
      ++ to_le 8 m.base
      ++ to_le 4 (length m.rows)
      ++ listed in
    let fixed : ltb (length bytes) 29 ≡ false = ground arith in
    let carried = rows-Carried m.rows h.rows in
    let written =
      encode_each-wires encode_dirty_row decode_dirty_row dirty_row_sent m.rows carried in
    let all =
      decode_each-wires encode_dirty_row decode_dirty_row dirty_row_sent m.rows bytes 29 [] carried
        (omega arith) (sym (append-nil listed)) in
    rw
      (
        u32_len-ok m.rows h.count,
        written,
        at_least,
        fixed,
        from_le-four m.pane_id h.pane_id,
        i64-back m.start_row h.start_row,
        bool-back m.has_more,
        from_le-four m.total_rows h.total_rows,
        from_le-eight m.base h.base,
        from_le-four (length m.rows) h.count,
        all,
      )
      refl
