-- ===== src/Protocol/Messages/Workspaces.antt =====
-- message.rs: the messages about workspaces.
pub mod RoundTrip
pub mod Safety
use oakterm.Prelude.{
  ℕ, ◌+◌, ◌≤◌, ◌<◌, ◌≡◌, refl, sym, ◌∙◌, Bool, false, List, [], ◌∷◌, ◌++◌, ltb, length, arith,
}
use oakterm.Prelude.Integers.{ℤ, IsSigned}
use oakterm.Protocol.Bytes.{to_le, from_le-two, from_le-four}
use oakterm.Protocol.Delivery.{receive, receive-new, receive-encoded}
use oakterm.Protocol.Frame.{Frame, IoResult, ok, ◌>>=◌, byte_at, u16_at, u32_at, new}
use oakterm.Protocol.Kinds.{msg_new_workspace_response, msg_close_workspace_response}
use oakterm.Protocol.Wire.{
  Text, at_least, encode_str, decode_str, u64_at, i16_at, i32_at, i64_at, i16_le, i32_le, i64_le,
  bool_byte, bool_at,
}
use oakterm.Protocol.Wire.Laws.{IsText, from_le-eight, i16-back, i32-back, i64-back, bool-back}
use oakterm.Protocol.Wire.Offsets.{
  encode_str-ok, decode_str-then, decode_str-last, encode_str-second, decode_str-second,
}
use oakterm.Protocol.Wire.Safety.{
  AnswersWith, Answers, bind-Answers, found-Answers, at_least-Answers, byte_at-found, u16_at-found,
  u32_at-found, u64_at-found, i16_at-found, i32_at-found, i64_at-found, bool_at-found,
  decode_str-Answers,
}

pub record NewWorkspace : Type 0 where
  pub name : Text

unfoldable pub encode_new_workspace : NewWorkspace → IoResult (List ℕ)
encode_new_workspace m = encode_str ([]) m.name

unfoldable pub decode_new_workspace : List ℕ → IoResult NewWorkspace
decode_new_workspace bytes = (decode_str bytes 0 >>= λ name. ok (record { name = name.0 }))

pub record NewWorkspaceResponse : Type 0 where
  pub workspace_id : ℕ
  pub tab_id : ℕ
  pub pane_id : ℕ

unfoldable pub encode_new_workspace_response : NewWorkspaceResponse → List ℕ
encode_new_workspace_response m = to_le 4 m.workspace_id ++ to_le 4 m.tab_id ++ to_le 4 m.pane_id

unfoldable pub decode_new_workspace_response : List ℕ → IoResult NewWorkspaceResponse
decode_new_workspace_response bytes = at_least 12 bytes (
    u32_at bytes 0 >>= λ workspace_id. u32_at bytes 4 >>= λ tab_id. u32_at bytes 8 >>= λ pane_id.
    ok (record { workspace_id = workspace_id; tab_id = tab_id; pane_id = pane_id }))

unfoldable pub frame_new_workspace_response : NewWorkspaceResponse → ℕ → IoResult Frame
frame_new_workspace_response m serial =
    new msg_new_workspace_response serial (encode_new_workspace_response m)

pub record SwitchWorkspace : Type 0 where
  pub workspace_id : ℕ

unfoldable pub encode_switch_workspace : SwitchWorkspace → List ℕ
encode_switch_workspace m = to_le 4 m.workspace_id

unfoldable pub decode_switch_workspace : List ℕ → IoResult SwitchWorkspace
decode_switch_workspace bytes =
    at_least 4 bytes
      (u32_at bytes 0 >>= λ workspace_id. ok (record { workspace_id = workspace_id }))

pub record RenameWorkspace : Type 0 where
  pub workspace_id : ℕ
  pub name : Text

unfoldable pub encode_rename_workspace : RenameWorkspace → IoResult (List ℕ)
encode_rename_workspace m = encode_str (to_le 4 m.workspace_id) m.name

unfoldable pub decode_rename_workspace : List ℕ → IoResult RenameWorkspace
decode_rename_workspace bytes = at_least 4 bytes (
    u32_at bytes 0 >>= λ workspace_id.
    decode_str bytes 4 >>= λ name. ok (record { workspace_id = workspace_id; name = name.0 }))

pub record CloseWorkspace : Type 0 where
  pub workspace_id : ℕ

unfoldable pub encode_close_workspace : CloseWorkspace → List ℕ
encode_close_workspace m = to_le 4 m.workspace_id

unfoldable pub decode_close_workspace : List ℕ → IoResult CloseWorkspace
decode_close_workspace bytes =
    at_least 4 bytes
      (u32_at bytes 0 >>= λ workspace_id. ok (record { workspace_id = workspace_id }))

pub data CloseWorkspaceResponse : Type 0 where
  close_workspace_response : CloseWorkspaceResponse

unfoldable pub decode_close_workspace_response : List ℕ → IoResult CloseWorkspaceResponse
decode_close_workspace_response bytes = ok close_workspace_response

unfoldable pub frame_close_workspace_response : CloseWorkspaceResponse → ℕ → IoResult Frame
frame_close_workspace_response m serial = new msg_close_workspace_response serial []
