-- ===== src/Protocol/Messages/Tabs.antt =====
-- message.rs: the messages about tabs.
pub mod RoundTrip
pub mod Safety
use oakterm.Prelude.{
  ℕ, ◌+◌, ◌≤◌, ◌<◌, ◌≡◌, refl, sym, ◌∙◌, Bool, false, List, [], ◌∷◌, ◌++◌, ltb, length, arith,
}
use oakterm.Prelude.Integers.{ℤ, IsSigned}
use oakterm.Protocol.Bytes.{to_le, from_le-two, from_le-four}
use oakterm.Protocol.Delivery.{receive, receive-new, receive-encoded}
use oakterm.Protocol.Frame.{Frame, IoResult, ok, ◌>>=◌, byte_at, u16_at, u32_at, new}
use oakterm.Protocol.Kinds.{msg_new_tab_response, msg_close_tab_response}
use oakterm.Protocol.Wire.{
  Text, at_least, encode_str, decode_str, u64_at, i16_at, i32_at, i64_at, i16_le, i32_le, i64_le,
  bool_byte, bool_at,
}
use oakterm.Protocol.Wire.Laws.{IsText, from_le-eight, i16-back, i32-back, i64-back, bool-back}
use oakterm.Protocol.Wire.Offsets.{
  encode_str-ok, decode_str-then, decode_str-last, encode_str-second, decode_str-second,
}
use oakterm.Protocol.Wire.Safety.{
  AnswersWith, Answers, bind-Answers, found-Answers, at_least-Answers, byte_at-found, u16_at-found,
  u32_at-found, u64_at-found, i16_at-found, i32_at-found, i64_at-found, bool_at-found,
  decode_str-Answers,
}

pub record NewTab : Type 0 where
  pub workspace_id : ℕ
  pub command : Text
  pub cwd : Text

unfoldable pub encode_new_tab : NewTab → IoResult (List ℕ)
encode_new_tab m = encode_str (to_le 4 m.workspace_id) m.command >>= λ buf. encode_str buf m.cwd

unfoldable pub decode_new_tab : List ℕ → IoResult NewTab
decode_new_tab bytes = at_least 4 bytes (
    u32_at bytes 0 >>= λ workspace_id. decode_str bytes 4 >>= λ command.
    decode_str bytes (4 + command.1) >>= λ cwd.
    ok (record { workspace_id = workspace_id; command = command.0; cwd = cwd.0 }))

pub record NewTabResponse : Type 0 where
  pub tab_id : ℕ
  pub pane_id : ℕ

unfoldable pub encode_new_tab_response : NewTabResponse → List ℕ
encode_new_tab_response m = to_le 4 m.tab_id ++ to_le 4 m.pane_id

unfoldable pub decode_new_tab_response : List ℕ → IoResult NewTabResponse
decode_new_tab_response bytes = at_least 8 bytes (
    u32_at bytes 0 >>= λ tab_id.
    u32_at bytes 4 >>= λ pane_id. ok (record { tab_id = tab_id; pane_id = pane_id }))

unfoldable pub frame_new_tab_response : NewTabResponse → ℕ → IoResult Frame
frame_new_tab_response m serial = new msg_new_tab_response serial (encode_new_tab_response m)

pub record CloseTab : Type 0 where
  pub tab_id : ℕ

unfoldable pub encode_close_tab : CloseTab → List ℕ
encode_close_tab m = to_le 4 m.tab_id

unfoldable pub decode_close_tab : List ℕ → IoResult CloseTab
decode_close_tab bytes =
    at_least 4 bytes (u32_at bytes 0 >>= λ tab_id. ok (record { tab_id = tab_id }))

pub data CloseTabResponse : Type 0 where
  close_tab_response : CloseTabResponse

unfoldable pub decode_close_tab_response : List ℕ → IoResult CloseTabResponse
decode_close_tab_response bytes = ok close_tab_response

unfoldable pub frame_close_tab_response : CloseTabResponse → ℕ → IoResult Frame
frame_close_tab_response m serial = new msg_close_tab_response serial []

pub record SwitchTab : Type 0 where
  pub tab_id : ℕ

unfoldable pub encode_switch_tab : SwitchTab → List ℕ
encode_switch_tab m = to_le 4 m.tab_id

unfoldable pub decode_switch_tab : List ℕ → IoResult SwitchTab
decode_switch_tab bytes =
    at_least 4 bytes (u32_at bytes 0 >>= λ tab_id. ok (record { tab_id = tab_id }))

pub record MoveTab : Type 0 where
  pub tab_id : ℕ
  pub new_index : ℕ

unfoldable pub encode_move_tab : MoveTab → List ℕ
encode_move_tab m = to_le 4 m.tab_id ++ to_le 4 m.new_index

unfoldable pub decode_move_tab : List ℕ → IoResult MoveTab
decode_move_tab bytes = at_least 8 bytes (
    u32_at bytes 0 >>= λ tab_id.
    u32_at bytes 4 >>= λ new_index. ok (record { tab_id = tab_id; new_index = new_index }))

pub record RenameTab : Type 0 where
  pub tab_id : ℕ
  pub name : Text

unfoldable pub encode_rename_tab : RenameTab → IoResult (List ℕ)
encode_rename_tab m = encode_str (to_le 4 m.tab_id) m.name

unfoldable pub decode_rename_tab : List ℕ → IoResult RenameTab
decode_rename_tab bytes = at_least 4 bytes (
    u32_at bytes 0 >>= λ tab_id.
    decode_str bytes 4 >>= λ name. ok (record { tab_id = tab_id; name = name.0 }))
