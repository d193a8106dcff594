-- ===== src/Protocol/Messages/Workspaces/RoundTrip.antt =====
-- message.rs: what was sent is what is decoded.
use oakterm.Prelude.{ℕ, ◌<◌, ◌≡◌, refl, ◌∙◌, false, [], ◌++◌, ltb, length, arith}
use oakterm.Protocol.Bytes.{to_le, from_le-four}
use oakterm.Protocol.Delivery.{receive, receive-new}
use oakterm.Protocol.Frame.{ok, ◌>>=◌}
use oakterm.Protocol.Kinds.{msg_new_workspace_response, msg_close_workspace_response}
use oakterm.Protocol.Wire.{at_least}
use oakterm.Protocol.Wire.Laws.{IsText}
use oakterm.Protocol.Wire.Offsets.{encode_str-ok, decode_str-last}
use oakterm.Protocol.Messages.Workspaces.{
  NewWorkspace, encode_new_workspace, decode_new_workspace, NewWorkspaceResponse,
  encode_new_workspace_response, decode_new_workspace_response, frame_new_workspace_response,
  SwitchWorkspace, encode_switch_workspace, decode_switch_workspace, RenameWorkspace,
  encode_rename_workspace, decode_rename_workspace, CloseWorkspace, encode_close_workspace,
  decode_close_workspace, CloseWorkspaceResponse, decode_close_workspace_response,
  frame_close_workspace_response, close_workspace_response,
}

pub record FitsNewWorkspace (m : NewWorkspace) : Type 0 where
  pub name : IsText m.name

pub decode_new_workspace-encode_new_workspace :
    (m : NewWorkspace)
    → FitsNewWorkspace m
    → (encode_new_workspace m >>= decode_new_workspace) ≡ ok m
unfolding encode_new_workspace decode_new_workspace
decode_new_workspace-encode_new_workspace m h =
    let pre = [] in rw (encode_str-ok pre m.name h.name, decode_str-last pre m.name h.name) refl

pub record FitsNewWorkspaceResponse (m : NewWorkspaceResponse) : Type 0 where
  pub workspace_id : m.workspace_id < 4294967296
  pub tab_id : m.tab_id < 4294967296
  pub pane_id : m.pane_id < 4294967296

pub decode_new_workspace_response-encode_new_workspace_response :
    (m : NewWorkspaceResponse)
    → FitsNewWorkspaceResponse m
    → decode_new_workspace_response (encode_new_workspace_response m) ≡ ok m
unfolding encode_new_workspace_response decode_new_workspace_response
decode_new_workspace_response-encode_new_workspace_response m h =
    rw
      (
        from_le-four m.workspace_id h.workspace_id,
        from_le-four m.tab_id h.tab_id,
        from_le-four m.pane_id h.pane_id,
      )
      refl

pub frame_new_workspace_response-received :
    (m : NewWorkspaceResponse)
    → (serial : ℕ) → serial < 4294967296
    → FitsNewWorkspaceResponse m
    → (frame_new_workspace_response m serial >>= receive decode_new_workspace_response) ≡ ok m
unfolding frame_new_workspace_response encode_new_workspace_response
frame_new_workspace_response-received m serial numbered h =
    receive-new decode_new_workspace_response msg_new_workspace_response serial
      (encode_new_workspace_response m) (omega arith) numbered (omega arith)
    ∙ decode_new_workspace_response-encode_new_workspace_response m h

pub record FitsSwitchWorkspace (m : SwitchWorkspace) : Type 0 where
  pub workspace_id : m.workspace_id < 4294967296

pub decode_switch_workspace-encode_switch_workspace :
    (m : SwitchWorkspace)
    → FitsSwitchWorkspace m
    → decode_switch_workspace (encode_switch_workspace m) ≡ ok m
unfolding encode_switch_workspace decode_switch_workspace
decode_switch_workspace-encode_switch_workspace m h =
    rw (from_le-four m.workspace_id h.workspace_id) refl

pub record FitsRenameWorkspace (m : RenameWorkspace) : Type 0 where
  pub workspace_id : m.workspace_id < 4294967296
  pub name : IsText m.name

pub decode_rename_workspace-encode_rename_workspace :
    (m : RenameWorkspace)
    → FitsRenameWorkspace m
    → (encode_rename_workspace m >>= decode_rename_workspace) ≡ ok m
unfolding encode_rename_workspace decode_rename_workspace
decode_rename_workspace-encode_rename_workspace m h =
    let pre = to_le 4 m.workspace_id in
    let size : ltb (length (pre ++ (to_le 2 (length m.name) ++ m.name))) 4 ≡ false = ground arith in
    rw
      (
        encode_str-ok pre m.name h.name,
        at_least,
        size,
        from_le-four m.workspace_id h.workspace_id,
        decode_str-last pre m.name h.name,
      )
      refl

pub record FitsCloseWorkspace (m : CloseWorkspace) : Type 0 where
  pub workspace_id : m.workspace_id < 4294967296

pub decode_close_workspace-encode_close_workspace :
    (m : CloseWorkspace)
    → FitsCloseWorkspace m
    → decode_close_workspace (encode_close_workspace m) ≡ ok m
unfolding encode_close_workspace decode_close_workspace
decode_close_workspace-encode_close_workspace m h =
    rw (from_le-four m.workspace_id h.workspace_id) refl

pub frame_close_workspace_response-received :
    (m : CloseWorkspaceResponse)
    → (serial : ℕ) → serial < 4294967296
    → (frame_close_workspace_response m serial >>= receive decode_close_workspace_response) ≡ ok m
unfolding frame_close_workspace_response decode_close_workspace_response
frame_close_workspace_response-received close_workspace_response serial numbered =
    receive-new decode_close_workspace_response msg_close_workspace_response serial [] (omega arith)
      numbered (omega arith)
