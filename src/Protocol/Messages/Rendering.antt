-- ===== src/Protocol/Messages/Rendering.antt =====
-- crates/oakterm-protocol/src/render.rs and message.rs: cells, rows, and what carries them.
pub mod RoundTrip
pub mod Updates
pub mod Safety
use oakterm.Prelude.{
  zero, suc, Option, none, some, if◌then◌else◌, ◌==◌, ℕ, ◌+◌, ◌≤◌, ◌<◌, ◌≡◌, refl, sym, ◌∙◌, Bool,
  false, List, [], ◌∷◌, ◌++◌, ltb, length, arith,
}
use oakterm.Prelude.Integers.{ℤ, pos, IsSigned}
use oakterm.Protocol.Bytes.{to_le, from_le-two, from_le-four}
use oakterm.Protocol.Delivery.{receive, receive-new, receive-encoded}
use oakterm.Protocol.Frame.{
  Frame, IoResult, ErrorKind, ok, err, ◌>>=◌, byte_at, u16_at, u32_at, new,
}
use oakterm.Protocol.Wire.{
  u16_len, u32_len, slice, from_utf8, text_in, encode_each, decode_each, Text, at_least, encode_str,
  decode_str, u64_at, i16_at, i32_at, i64_at, i16_le, i32_le, i64_le, bool_byte, bool_at,
}
use oakterm.Protocol.Wire.Laws.{IsText, from_le-eight, i16-back, i32-back, i64-back, bool-back}
use oakterm.Protocol.Wire.Offsets.{
  encode_str-ok, decode_str-then, decode_str-last, encode_str-second, decode_str-second,
}
use oakterm.Protocol.Wire.Safety.{
  AnswersWith, Answers, bind-Answers, found-Answers, at_least-Answers, byte_at-found, u16_at-found,
  u32_at-found, u64_at-found, i16_at-found, i32_at-found, i64_at-found, bool_at-found,
  decode_str-Answers,
}

pub record WireCell : Type 0 where
  pub codepoint : ℕ
  pub fg_r : ℕ
  pub fg_g : ℕ
  pub fg_b : ℕ
  pub fg_type : ℕ
  pub bg_r : ℕ
  pub bg_g : ℕ
  pub bg_b : ℕ
  pub bg_type : ℕ
  pub flags : ℕ
  pub extra : List ℕ

abbrev fixed_size : ℕ
fixed_size = 16

unfoldable pub encode_wire_cell : WireCell → IoResult (List ℕ)
encode_wire_cell m = u16_len m.extra >>= λ extra_len. ok (
    to_le 4 m.codepoint
    ++ m.fg_r ∷ m.fg_g ∷ m.fg_b ∷ m.fg_type ∷ m.bg_r ∷ m.bg_g ∷ m.bg_b ∷ m.bg_type ∷ to_le 2 m.flags
    ++ to_le 2 extra_len
    ++ m.extra)

unfoldable pub decode_wire_cell : List ℕ → IoResult (WireCell × ℕ)
decode_wire_cell bytes = at_least fixed_size bytes (
    u32_at bytes 0 >>= λ codepoint. u16_at bytes 12 >>= λ flags. u16_at bytes 14 >>= λ extra_len.
    at_least (fixed_size + extra_len) bytes (
      byte_at bytes 4 >>= λ fg_r. byte_at bytes 5 >>= λ fg_g. byte_at bytes 6 >>= λ fg_b.
      byte_at bytes 7 >>= λ fg_type. byte_at bytes 8 >>= λ bg_r. byte_at bytes 9 >>= λ bg_g.
      byte_at bytes 10 >>= λ bg_b. byte_at bytes 11 >>= λ bg_type.
      slice bytes fixed_size extra_len >>= λ extra. ok (
        record {
          codepoint = codepoint;
          fg_r = fg_r;
          fg_g = fg_g;
          fg_b = fg_b;
          fg_type = fg_type;
          bg_r = bg_r;
          bg_g = bg_g;
          bg_b = bg_b;
          bg_type = bg_type;
          flags = flags;
          extra = extra;
        },
        fixed_size + extra_len,
      )))

pub record DirtyRow : Type 0 where
  pub row_index : ℕ
  pub cells : List WireCell
  pub semantic_mark : ℕ
  pub mark_metadata : List ℕ

unfoldable pub encode_dirty_row : DirtyRow → IoResult (List ℕ)
encode_dirty_row m = u16_len m.cells >>= λ cell_count. u16_len m.mark_metadata >>= λ meta_len.
    encode_each encode_wire_cell m.cells >>= λ listed. ok (
      to_le 2 m.row_index
      ++ to_le 2 cell_count
      ++ (listed ++ (m.semantic_mark ∷ to_le 2 meta_len ++ m.mark_metadata)))

unfoldable pub decode_dirty_row : List ℕ → IoResult (DirtyRow × ℕ)
decode_dirty_row bytes = at_least 4 bytes (
    u16_at bytes 0 >>= λ row_index. u16_at bytes 2 >>= λ cell_count.
    decode_each decode_wire_cell cell_count bytes 4 >>= λ listed. at_least (listed.1 + 3) bytes (
      byte_at bytes listed.1 >>= λ semantic_mark. u16_at bytes (listed.1 + 1) >>= λ meta_len.
      at_least (listed.1 + 3 + meta_len) bytes (
        slice bytes (listed.1 + 3) meta_len >>= λ mark_metadata. ok (
          record {
            row_index = row_index;
            cells = listed.0;
            semantic_mark = semantic_mark;
            mark_metadata = mark_metadata;
          },
          listed.1 + 3 + meta_len,
        ))))

pub record RenderUpdate : Type 0 where
  pub pane_id : ℕ
  pub seqno : ℕ
  pub cursor_x : ℕ
  pub cursor_y : ℕ
  pub cursor_style : ℕ
  pub cursor_visible : Bool
  pub bg_r : ℕ
  pub bg_g : ℕ
  pub bg_b : ℕ
  pub bracketed_paste : Bool
  pub alt_screen : Bool
  pub input_flags : ℕ
  pub kitty_kbd_flags : ℕ
  pub history_len : ℕ
  pub dirty_rows : List DirtyRow

unfoldable pub encode_render_update : RenderUpdate → IoResult (List ℕ)
encode_render_update m = u16_len m.dirty_rows >>= λ row_count.
    encode_each encode_dirty_row m.dirty_rows >>= λ listed. ok (
      to_le 4 m.pane_id
      ++ to_le 8 m.seqno
      ++ to_le 2 m.cursor_x
      ++ to_le 2 m.cursor_y
      ++ m.cursor_style
        ∷ bool_byte m.cursor_visible
        ∷ m.bg_r
        ∷ m.bg_g
        ∷ m.bg_b
        ∷ bool_byte m.bracketed_paste
        ∷ bool_byte m.alt_screen
        ∷ m.input_flags
        ∷ m.kitty_kbd_flags
        ∷ to_le 8 m.history_len
      ++ to_le 2 row_count
      ++ listed)

unfoldable pub decode_render_update : List ℕ → IoResult RenderUpdate
decode_render_update bytes = at_least 35 bytes (
    u32_at bytes 0 >>= λ pane_id. u64_at bytes 4 >>= λ seqno. u16_at bytes 12 >>= λ cursor_x.
    u16_at bytes 14 >>= λ cursor_y. byte_at bytes 16 >>= λ cursor_style.
    bool_at bytes 17 >>= λ cursor_visible. byte_at bytes 18 >>= λ bg_r. byte_at bytes 19 >>= λ bg_g.
    byte_at bytes 20 >>= λ bg_b. bool_at bytes 21 >>= λ bracketed_paste.
    bool_at bytes 22 >>= λ alt_screen. byte_at bytes 23 >>= λ input_flags.
    byte_at bytes 24 >>= λ kitty_kbd_flags. u64_at bytes 25 >>= λ history_len.
    u16_at bytes 33 >>= λ dirty_row_count.
    decode_each decode_dirty_row dirty_row_count bytes 35 >>= λ listed. ok (record {
      pane_id = pane_id;
      seqno = seqno;
      cursor_x = cursor_x;
      cursor_y = cursor_y;
      cursor_style = cursor_style;
      cursor_visible = cursor_visible;
      bg_r = bg_r;
      bg_g = bg_g;
      bg_b = bg_b;
      bracketed_paste = bracketed_paste;
      alt_screen = alt_screen;
      input_flags = input_flags;
      kitty_kbd_flags = kitty_kbd_flags;
      history_len = history_len;
      dirty_rows = listed.0;
    }))

pub record ScrollbackData : Type 0 where
  pub pane_id : ℕ
  pub start_row : ℤ
  pub has_more : Bool
  pub total_rows : ℕ
  pub base : ℕ
  pub rows : List DirtyRow

unfoldable pub encode_scrollback_data : ScrollbackData → IoResult (List ℕ)
encode_scrollback_data m = u32_len m.rows >>= λ row_count.
    encode_each encode_dirty_row m.rows >>= λ listed. ok (
      to_le 4 m.pane_id
      ++ i64_le m.start_row
      ++ bool_byte m.has_more ∷ to_le 4 m.total_rows
      ++ to_le 8 m.base
      ++ to_le 4 row_count
      ++ listed)

unfoldable pub decode_scrollback_data : List ℕ → IoResult ScrollbackData
decode_scrollback_data bytes = at_least 29 bytes (
    u32_at bytes 0 >>= λ pane_id. i64_at bytes 4 >>= λ start_row. bool_at bytes 12 >>= λ has_more.
    u32_at bytes 13 >>= λ total_rows. u64_at bytes 17 >>= λ base. u32_at bytes 25 >>= λ row_count.
    if ltb 10000 row_count
    then err ErrorKind.invalid_data
    else (decode_each decode_dirty_row row_count bytes 29 >>= λ listed. ok (record {
      pane_id = pane_id;
      start_row = start_row;
      has_more = has_more;
      total_rows = total_rows;
      base = base;
      rows = listed.0;
    })))
