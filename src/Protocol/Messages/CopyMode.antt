-- ===== src/Protocol/Messages/CopyMode.antt =====
-- message.rs: the messages of copy mode, but for the text that is yanked.
pub mod RoundTrip
pub mod Safety
use oakterm.Prelude.{
  ℕ, ◌+◌, ◌≤◌, ◌<◌, ◌≡◌, refl, sym, ◌∙◌, Bool, false, List, [], ◌∷◌, ◌++◌, ltb, length, arith,
}
use oakterm.Prelude.Integers.{ℤ, IsSigned}
use oakterm.Protocol.Bytes.{to_le, from_le-two, from_le-four}
use oakterm.Protocol.Delivery.{receive, receive-new, receive-encoded}
use oakterm.Protocol.Frame.{Frame, IoResult, ok, ◌>>=◌, byte_at, u16_at, u32_at, new}
use oakterm.Protocol.Kinds.{
  msg_enter_copy_mode, msg_enter_copy_mode_ack, msg_exit_copy_mode, msg_copy_mode_invalidated,
  msg_yank_selection,
}
use oakterm.Protocol.Wire.{
  Text, at_least, encode_str, decode_str, u64_at, i16_at, i32_at, i64_at, i16_le, i32_le, i64_le,
  bool_byte, bool_at,
}
use oakterm.Protocol.Wire.Laws.{IsText, from_le-eight, i16-back, i32-back, i64-back, bool-back}
use oakterm.Protocol.Wire.Offsets.{
  encode_str-ok, decode_str-then, decode_str-last, encode_str-second, decode_str-second,
}
use oakterm.Protocol.Wire.Safety.{
  AnswersWith, Answers, bind-Answers, found-Answers, at_least-Answers, byte_at-found, u16_at-found,
  u32_at-found, u64_at-found, i16_at-found, i32_at-found, i64_at-found, bool_at-found,
  decode_str-Answers,
}
use oakterm.Protocol.Wire.Enums.{
  CopySelectionType, copy_selection_type_code, copy_selection_type_of, copy_selection_type_of-code,
}
use oakterm.Protocol.Wire.Enums.Answers.{copy_selection_type_of-Answers}

pub record EnterCopyMode : Type 0 where
  pub pane_id : ℕ
  pub base : ℕ

unfoldable pub encode_enter_copy_mode : EnterCopyMode → List ℕ
encode_enter_copy_mode m = to_le 4 m.pane_id ++ to_le 8 m.base

unfoldable pub decode_enter_copy_mode : List ℕ → IoResult EnterCopyMode
decode_enter_copy_mode bytes = at_least 12 bytes (
    u32_at bytes 0 >>= λ pane_id.
    u64_at bytes 4 >>= λ base. ok (record { pane_id = pane_id; base = base }))

unfoldable pub frame_enter_copy_mode : EnterCopyMode → ℕ → IoResult Frame
frame_enter_copy_mode m serial = new msg_enter_copy_mode serial (encode_enter_copy_mode m)

pub record EnterCopyModeAck : Type 0 where
  pub pane_id : ℕ
  pub base : ℕ

unfoldable pub encode_enter_copy_mode_ack : EnterCopyModeAck → List ℕ
encode_enter_copy_mode_ack m = to_le 4 m.pane_id ++ to_le 8 m.base

unfoldable pub decode_enter_copy_mode_ack : List ℕ → IoResult EnterCopyModeAck
decode_enter_copy_mode_ack bytes = at_least 12 bytes (
    u32_at bytes 0 >>= λ pane_id.
    u64_at bytes 4 >>= λ base. ok (record { pane_id = pane_id; base = base }))

unfoldable pub frame_enter_copy_mode_ack : EnterCopyModeAck → ℕ → IoResult Frame
frame_enter_copy_mode_ack m serial =
    new msg_enter_copy_mode_ack serial (encode_enter_copy_mode_ack m)

pub record ExitCopyMode : Type 0 where
  pub pane_id : ℕ

unfoldable pub encode_exit_copy_mode : ExitCopyMode → List ℕ
encode_exit_copy_mode m = to_le 4 m.pane_id

unfoldable pub decode_exit_copy_mode : List ℕ → IoResult ExitCopyMode
decode_exit_copy_mode bytes =
    at_least 4 bytes (u32_at bytes 0 >>= λ pane_id. ok (record { pane_id = pane_id }))

unfoldable pub frame_exit_copy_mode : ExitCopyMode → IoResult Frame
frame_exit_copy_mode m = new msg_exit_copy_mode 0 (encode_exit_copy_mode m)

pub record CopyModeInvalidated : Type 0 where
  pub pane_id : ℕ

unfoldable pub encode_copy_mode_invalidated : CopyModeInvalidated → List ℕ
encode_copy_mode_invalidated m = to_le 4 m.pane_id

unfoldable pub decode_copy_mode_invalidated : List ℕ → IoResult CopyModeInvalidated
decode_copy_mode_invalidated bytes =
    at_least 4 bytes (u32_at bytes 0 >>= λ pane_id. ok (record { pane_id = pane_id }))

unfoldable pub frame_copy_mode_invalidated : CopyModeInvalidated → IoResult Frame
frame_copy_mode_invalidated m = new msg_copy_mode_invalidated 0 (encode_copy_mode_invalidated m)

pub record YankSelection : Type 0 where
  pub pane_id : ℕ
  pub start_row : ℤ
  pub start_col : ℕ
  pub end_row : ℤ
  pub end_col : ℕ
  pub selection_type : CopySelectionType

unfoldable pub encode_yank_selection : YankSelection → List ℕ
encode_yank_selection m =
    to_le 4 m.pane_id
    ++ i64_le m.start_row
    ++ to_le 2 m.start_col
    ++ i64_le m.end_row
    ++ to_le 2 m.end_col
    ++ copy_selection_type_code m.selection_type ∷ []

unfoldable pub decode_yank_selection : List ℕ → IoResult YankSelection
decode_yank_selection bytes = at_least 25 bytes (
    u32_at bytes 0 >>= λ pane_id. i64_at bytes 4 >>= λ start_row. u16_at bytes 12 >>= λ start_col.
    i64_at bytes 14 >>= λ end_row. u16_at bytes 22 >>= λ end_col.
    byte_at bytes 24 >>= copy_selection_type_of >>= λ selection_type. ok (record {
      pane_id = pane_id;
      start_row = start_row;
      start_col = start_col;
      end_row = end_row;
      end_col = end_col;
      selection_type = selection_type;
    }))

unfoldable pub frame_yank_selection : YankSelection → ℕ → IoResult Frame
frame_yank_selection m serial = new msg_yank_selection serial (encode_yank_selection m)
