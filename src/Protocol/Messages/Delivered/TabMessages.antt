-- ===== src/Protocol/Messages/Delivered/TabMessages.antt =====
-- message.rs, input.rs, render.rs: what was sent is received, for the messages about tabs and workspaces.
use oakterm.Prelude.{ℕ, ◌<◌, ◌≡◌}
use oakterm.Protocol.Delivery.{receive}
use oakterm.Protocol.Frame.{ok, ◌>>=◌}
use oakterm.Protocol.Messages.Tabs.{
  NewTab, encode_new_tab, decode_new_tab, NewTabResponse, decode_new_tab_response,
  frame_new_tab_response, CloseTab, encode_close_tab, decode_close_tab, CloseTabResponse,
  decode_close_tab_response, frame_close_tab_response, SwitchTab, encode_switch_tab,
  decode_switch_tab, MoveTab, encode_move_tab, decode_move_tab, RenameTab, encode_rename_tab,
  decode_rename_tab,
}
use oakterm.Protocol.Messages.Workspaces.{
  NewWorkspace, encode_new_workspace, decode_new_workspace, NewWorkspaceResponse,
  decode_new_workspace_response, frame_new_workspace_response, SwitchWorkspace,
  encode_switch_workspace, decode_switch_workspace, RenameWorkspace, encode_rename_workspace,
  decode_rename_workspace, CloseWorkspace, encode_close_workspace, decode_close_workspace,
  CloseWorkspaceResponse, decode_close_workspace_response, frame_close_workspace_response,
}
use oakterm.Protocol.Messages.Tabs.RoundTrip.{
  FitsNewTab, FitsNewTabResponse, FitsCloseTab, FitsSwitchTab, FitsMoveTab, FitsRenameTab,
  decode_new_tab-encode_new_tab, frame_new_tab_response-received, decode_close_tab-encode_close_tab,
  frame_close_tab_response-received, decode_switch_tab-encode_switch_tab,
  decode_move_tab-encode_move_tab, decode_rename_tab-encode_rename_tab,
}
use oakterm.Protocol.Messages.Workspaces.RoundTrip.{
  FitsNewWorkspace, FitsNewWorkspaceResponse, FitsSwitchWorkspace, FitsRenameWorkspace,
  FitsCloseWorkspace, decode_new_workspace-encode_new_workspace,
  frame_new_workspace_response-received, decode_switch_workspace-encode_switch_workspace,
  decode_rename_workspace-encode_rename_workspace, decode_close_workspace-encode_close_workspace,
  frame_close_workspace_response-received,
}

-- Each message about tabs and workspaces whose fields fit their integer types, and whose texts are
-- UTF-8 and shorter than 65,536 bytes, is what the receiver decodes.
pub receive-tab_messages :
    (serial : ℕ)
    → serial < 4294967296
    → (a : NewTab) (b : NewTabResponse) (c : CloseTab) (d : CloseTabResponse) (e : SwitchTab)
      (f : MoveTab) (g : RenameTab) (j : NewWorkspace) (k : NewWorkspaceResponse)
      (l : SwitchWorkspace) (m : RenameWorkspace) (n : CloseWorkspace) (o : CloseWorkspaceResponse)
    → FitsNewTab a
    → FitsNewTabResponse b
    → FitsCloseTab c
    → FitsSwitchTab e
    → FitsMoveTab f
    → FitsRenameTab g
    → FitsNewWorkspace j
    → FitsNewWorkspaceResponse k
    → FitsSwitchWorkspace l
    → FitsRenameWorkspace m
    → FitsCloseWorkspace n
    → ((encode_new_tab a >>= decode_new_tab) ≡ ok a)
      × ((frame_new_tab_response b serial >>= receive decode_new_tab_response) ≡ ok b)
      × (decode_close_tab (encode_close_tab c) ≡ ok c)
      × ((frame_close_tab_response d serial >>= receive decode_close_tab_response) ≡ ok d)
      × (decode_switch_tab (encode_switch_tab e) ≡ ok e)
      × (decode_move_tab (encode_move_tab f) ≡ ok f)
      × ((encode_rename_tab g >>= decode_rename_tab) ≡ ok g)
      × ((encode_new_workspace j >>= decode_new_workspace) ≡ ok j)
      × ((frame_new_workspace_response k serial >>= receive decode_new_workspace_response) ≡ ok k)
      × (decode_switch_workspace (encode_switch_workspace l) ≡ ok l)
      × ((encode_rename_workspace m >>= decode_rename_workspace) ≡ ok m)
      × (decode_close_workspace (encode_close_workspace n) ≡ ok n)
      × ((frame_close_workspace_response o serial >>= receive decode_close_workspace_response)
          ≡ ok o)
receive-tab_messages serial numbered a b c d e f g j k l m n o ha hb hc he hf hg hj hk hl hm hn = (
  decode_new_tab-encode_new_tab a ha,
  frame_new_tab_response-received b serial numbered hb,
  decode_close_tab-encode_close_tab c hc,
  frame_close_tab_response-received d serial numbered,
  decode_switch_tab-encode_switch_tab e he,
  decode_move_tab-encode_move_tab f hf,
  decode_rename_tab-encode_rename_tab g hg,
  decode_new_workspace-encode_new_workspace j hj,
  frame_new_workspace_response-received k serial numbered hk,
  decode_switch_workspace-encode_switch_workspace l hl,
  decode_rename_workspace-encode_rename_workspace m hm,
  decode_close_workspace-encode_close_workspace n hn,
  frame_close_workspace_response-received o serial numbered,
)
