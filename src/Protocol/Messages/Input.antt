-- ===== src/Protocol/Messages/Input.antt =====
-- crates/oakterm-protocol/src/input.rs: the sizes, the mouse, and the end of a session.
pub mod RoundTrip
pub mod Safety
use oakterm.Prelude.{
  ℕ, ◌+◌, ◌≤◌, ◌<◌, ◌≡◌, refl, sym, ◌∙◌, Bool, false, List, [], ◌∷◌, ◌++◌, ltb, length, arith,
}
use oakterm.Prelude.Integers.{ℤ, IsSigned}
use oakterm.Protocol.Bytes.{to_le, from_le-two, from_le-four}
use oakterm.Protocol.Delivery.{receive, receive-new, receive-encoded}
use oakterm.Protocol.Frame.{Frame, IoResult, ok, ◌>>=◌, byte_at, u16_at, u32_at, new}
use oakterm.Protocol.Kinds.{msg_resize, msg_mouse_input, msg_detach}
use oakterm.Protocol.Wire.{
  Text, at_least, encode_str, decode_str, u64_at, i16_at, i32_at, i64_at, i16_le, i32_le, i64_le,
  bool_byte, bool_at,
}
use oakterm.Protocol.Wire.Laws.{IsText, from_le-eight, i16-back, i32-back, i64-back, bool-back}
use oakterm.Protocol.Wire.Offsets.{
  encode_str-ok, decode_str-then, decode_str-last, encode_str-second, decode_str-second,
}
use oakterm.Protocol.Wire.Safety.{
  AnswersWith, Answers, bind-Answers, found-Answers, at_least-Answers, byte_at-found, u16_at-found,
  u32_at-found, u64_at-found, i16_at-found, i32_at-found, i64_at-found, bool_at-found,
  decode_str-Answers,
}

pub record Resize : Type 0 where
  pub pane_id : ℕ
  pub cols : ℕ
  pub rows : ℕ
  pub pixel_width : ℕ
  pub pixel_height : ℕ

unfoldable pub encode_resize : Resize → List ℕ
encode_resize m =
    to_le 4 m.pane_id
    ++ to_le 2 m.cols
    ++ to_le 2 m.rows
    ++ to_le 2 m.pixel_width
    ++ to_le 2 m.pixel_height

unfoldable pub decode_resize : List ℕ → IoResult Resize
decode_resize bytes = at_least 12 bytes (
    u32_at bytes 0 >>= λ pane_id. u16_at bytes 4 >>= λ cols. u16_at bytes 6 >>= λ rows.
    u16_at bytes 8 >>= λ pixel_width. u16_at bytes 10 >>= λ pixel_height. ok (record {
      pane_id = pane_id;
      cols = cols;
      rows = rows;
      pixel_width = pixel_width;
      pixel_height = pixel_height;
    }))

unfoldable pub frame_resize : Resize → IoResult Frame
frame_resize m = new msg_resize 0 (encode_resize m)

pub record MouseInput : Type 0 where
  pub pane_id : ℕ
  pub event_type : ℕ
  pub x : ℕ
  pub y : ℕ
  pub modifiers : ℕ
  pub button : ℕ

unfoldable pub encode_mouse_input : MouseInput → List ℕ
encode_mouse_input m =
    to_le 4 m.pane_id
    ++ m.event_type ∷ []
    ++ to_le 2 m.x
    ++ to_le 2 m.y
    ++ m.modifiers ∷ []
    ++ m.button ∷ []

unfoldable pub decode_mouse_input : List ℕ → IoResult MouseInput
decode_mouse_input bytes = at_least 11 bytes (
    u32_at bytes 0 >>= λ pane_id. byte_at bytes 4 >>= λ event_type. u16_at bytes 5 >>= λ x.
    u16_at bytes 7 >>= λ y. byte_at bytes 9 >>= λ modifiers. byte_at bytes 10 >>= λ button.
    ok (record {
      pane_id = pane_id;
      event_type = event_type;
      x = x;
      y = y;
      modifiers = modifiers;
      button = button;
    }))

unfoldable pub frame_mouse_input : MouseInput → IoResult Frame
frame_mouse_input m = new msg_mouse_input 0 (encode_mouse_input m)

pub data Detach : Type 0 where
  detach : Detach

unfoldable pub encode_detach : Detach → List ℕ
encode_detach m = []

unfoldable pub decode_detach : List ℕ → IoResult Detach
decode_detach bytes = ok detach

unfoldable pub frame_detach : Detach → IoResult Frame
frame_detach m = new msg_detach 0 (encode_detach m)
