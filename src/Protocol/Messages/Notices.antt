-- ===== src/Protocol/Messages/Notices.antt =====
-- message.rs, render.rs: what the daemon pushes about a pane, and the request for its rows.
pub mod RoundTrip
pub mod Safety
use oakterm.Prelude.{
  ℕ, ◌+◌, ◌≤◌, ◌<◌, ◌≡◌, refl, sym, ◌∙◌, Bool, false, List, [], ◌∷◌, ◌++◌, ltb, length, arith,
}
use oakterm.Prelude.Integers.{ℤ, IsSigned}
use oakterm.Protocol.Bytes.{to_le, from_le-two, from_le-four}
use oakterm.Protocol.Delivery.{receive, receive-new, receive-encoded}
use oakterm.Protocol.Frame.{Frame, IoResult, ok, ◌>>=◌, byte_at, u16_at, u32_at, new}
use oakterm.Protocol.Kinds.{msg_title_changed, msg_pane_exited, msg_bell}
use oakterm.Protocol.Wire.{
  Text, at_least, encode_str, decode_str, u64_at, i16_at, i32_at, i64_at, i16_le, i32_le, i64_le,
  bool_byte, bool_at,
}
use oakterm.Protocol.Wire.Laws.{IsText, from_le-eight, i16-back, i32-back, i64-back, bool-back}
use oakterm.Protocol.Wire.Offsets.{
  encode_str-ok, decode_str-then, decode_str-last, encode_str-second, decode_str-second,
}
use oakterm.Protocol.Wire.Safety.{
  AnswersWith, Answers, bind-Answers, found-Answers, at_least-Answers, byte_at-found, u16_at-found,
  u32_at-found, u64_at-found, i16_at-found, i32_at-found, i64_at-found, bool_at-found,
  decode_str-Answers,
}

pub record TitleChanged : Type 0 where
  pub pane_id : ℕ
  pub title : Text

unfoldable pub encode_title_changed : TitleChanged → IoResult (List ℕ)
encode_title_changed m = encode_str (to_le 4 m.pane_id) m.title

unfoldable pub decode_title_changed : List ℕ → IoResult TitleChanged
decode_title_changed bytes = at_least 4 bytes (
    u32_at bytes 0 >>= λ pane_id.
    decode_str bytes 4 >>= λ title. ok (record { pane_id = pane_id; title = title.0 }))

unfoldable pub frame_title_changed : TitleChanged → IoResult Frame
frame_title_changed m = encode_title_changed m >>= new msg_title_changed 0

pub record PaneExited : Type 0 where
  pub pane_id : ℕ
  pub exit_code : ℤ

unfoldable pub encode_pane_exited : PaneExited → List ℕ
encode_pane_exited m = to_le 4 m.pane_id ++ i32_le m.exit_code

unfoldable pub decode_pane_exited : List ℕ → IoResult PaneExited
decode_pane_exited bytes = at_least 8 bytes (
    u32_at bytes 0 >>= λ pane_id.
    i32_at bytes 4 >>= λ exit_code. ok (record { pane_id = pane_id; exit_code = exit_code }))

unfoldable pub frame_pane_exited : PaneExited → IoResult Frame
frame_pane_exited m = new msg_pane_exited 0 (encode_pane_exited m)

pub record Bell : Type 0 where
  pub pane_id : ℕ

unfoldable pub encode_bell : Bell → List ℕ
encode_bell m = to_le 4 m.pane_id

unfoldable pub decode_bell : List ℕ → IoResult Bell
decode_bell bytes =
    at_least 4 bytes (u32_at bytes 0 >>= λ pane_id. ok (record { pane_id = pane_id }))

unfoldable pub frame_bell : Bell → IoResult Frame
frame_bell m = new msg_bell 0 (encode_bell m)

pub record DirtyNotify : Type 0 where
  pub pane_id : ℕ

unfoldable pub encode_dirty_notify : DirtyNotify → List ℕ
encode_dirty_notify m = to_le 4 m.pane_id

unfoldable pub decode_dirty_notify : List ℕ → IoResult DirtyNotify
decode_dirty_notify bytes =
    at_least 4 bytes (u32_at bytes 0 >>= λ pane_id. ok (record { pane_id = pane_id }))

pub record GetRenderUpdate : Type 0 where
  pub pane_id : ℕ
  pub since_seqno : ℕ

unfoldable pub encode_get_render_update : GetRenderUpdate → List ℕ
encode_get_render_update m = to_le 4 m.pane_id ++ to_le 8 m.since_seqno

unfoldable pub decode_get_render_update : List ℕ → IoResult GetRenderUpdate
decode_get_render_update bytes = at_least 12 bytes (
    u32_at bytes 0 >>= λ pane_id.
    u64_at bytes 4 >>= λ since_seqno. ok (record { pane_id = pane_id; since_seqno = since_seqno }))
