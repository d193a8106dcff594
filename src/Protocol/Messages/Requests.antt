-- ===== src/Protocol/Messages/Requests.antt =====
-- message.rs: requests about one pane, with their answer of fixed size.
pub mod RoundTrip
pub mod Safety
use oakterm.Prelude.{
  ℕ, ◌+◌, ◌≤◌, ◌<◌, ◌≡◌, refl, sym, ◌∙◌, Bool, false, List, [], ◌∷◌, ◌++◌, ltb, length, arith,
}
use oakterm.Prelude.Integers.{ℤ, IsSigned}
use oakterm.Protocol.Bytes.{to_le, from_le-two, from_le-four}
use oakterm.Protocol.Delivery.{receive, receive-new, receive-encoded}
use oakterm.Protocol.Frame.{Frame, IoResult, ok, ◌>>=◌, byte_at, u16_at, u32_at, new}
use oakterm.Protocol.Kinds.{msg_create_pane_response}
use oakterm.Protocol.Wire.{
  Text, at_least, encode_str, decode_str, u64_at, i16_at, i32_at, i64_at, i16_le, i32_le, i64_le,
  bool_byte, bool_at,
}
use oakterm.Protocol.Wire.Laws.{IsText, from_le-eight, i16-back, i32-back, i64-back, bool-back}
use oakterm.Protocol.Wire.Offsets.{
  encode_str-ok, decode_str-then, decode_str-last, encode_str-second, decode_str-second,
}
use oakterm.Protocol.Wire.Safety.{
  AnswersWith, Answers, bind-Answers, found-Answers, at_least-Answers, byte_at-found, u16_at-found,
  u32_at-found, u64_at-found, i16_at-found, i32_at-found, i64_at-found, bool_at-found,
  decode_str-Answers,
}

pub record GetScrollback : Type 0 where
  pub pane_id : ℕ
  pub start_row : ℤ
  pub count : ℕ

unfoldable pub encode_get_scrollback : GetScrollback → List ℕ
encode_get_scrollback m = to_le 4 m.pane_id ++ i64_le m.start_row ++ to_le 4 m.count

unfoldable pub decode_get_scrollback : List ℕ → IoResult GetScrollback
decode_get_scrollback bytes = at_least 16 bytes (
    u32_at bytes 0 >>= λ pane_id. i64_at bytes 4 >>= λ start_row. u32_at bytes 12 >>= λ count.
    ok (record { pane_id = pane_id; start_row = start_row; count = count }))

pub record CreatePaneResponse : Type 0 where
  pub pane_id : ℕ

unfoldable pub encode_create_pane_response : CreatePaneResponse → List ℕ
encode_create_pane_response m = to_le 4 m.pane_id

unfoldable pub decode_create_pane_response : List ℕ → IoResult CreatePaneResponse
decode_create_pane_response bytes =
    at_least 4 bytes (u32_at bytes 0 >>= λ pane_id. ok (record { pane_id = pane_id }))

unfoldable pub frame_create_pane_response : CreatePaneResponse → ℕ → IoResult Frame
frame_create_pane_response m serial =
    new msg_create_pane_response serial (encode_create_pane_response m)

pub record ClosePane : Type 0 where
  pub pane_id : ℕ

unfoldable pub encode_close_pane : ClosePane → List ℕ
encode_close_pane m = to_le 4 m.pane_id

unfoldable pub decode_close_pane : List ℕ → IoResult ClosePane
decode_close_pane bytes =
    at_least 4 bytes (u32_at bytes 0 >>= λ pane_id. ok (record { pane_id = pane_id }))

pub record FocusPane : Type 0 where
  pub pane_id : ℕ

unfoldable pub encode_focus_pane : FocusPane → List ℕ
encode_focus_pane m = to_le 4 m.pane_id

unfoldable pub decode_focus_pane : List ℕ → IoResult FocusPane
decode_focus_pane bytes =
    at_least 4 bytes (u32_at bytes 0 >>= λ pane_id. ok (record { pane_id = pane_id }))
