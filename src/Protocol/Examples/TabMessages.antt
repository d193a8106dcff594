-- ===== src/Protocol/Examples/TabMessages.antt =====
-- Messages about tabs and workspaces, sent and received.
use oakterm.Prelude.{◌≡◌, refl, [], ◌∷◌, arith}
use oakterm.Protocol.Delivery.{receive}
use oakterm.Protocol.Frame.{ok, ◌>>=◌}
use oakterm.Protocol.Utf8.{is_utf8}
use oakterm.Protocol.Wire.{Text}
use oakterm.Protocol.Wire.Laws.{IsText}
use oakterm.Protocol.Messages.Tabs.{
  close_tab_response, NewTab, encode_new_tab, decode_new_tab, NewTabResponse,
  decode_new_tab_response, frame_new_tab_response, CloseTab, encode_close_tab, decode_close_tab,
  decode_close_tab_response, frame_close_tab_response, SwitchTab, encode_switch_tab,
  decode_switch_tab, MoveTab, encode_move_tab, decode_move_tab, RenameTab, encode_rename_tab,
  decode_rename_tab,
}
use oakterm.Protocol.Messages.Workspaces.{
  close_workspace_response, NewWorkspace, encode_new_workspace, decode_new_workspace,
  NewWorkspaceResponse, decode_new_workspace_response, frame_new_workspace_response,
  SwitchWorkspace, encode_switch_workspace, decode_switch_workspace, RenameWorkspace,
  encode_rename_workspace, decode_rename_workspace, CloseWorkspace, encode_close_workspace,
  decode_close_workspace, decode_close_workspace_response, frame_close_workspace_response,
}
use oakterm.Protocol.Messages.Tabs.RoundTrip.{
  FitsNewTab, FitsNewTabResponse, FitsCloseTab, FitsSwitchTab, FitsMoveTab, FitsRenameTab,
}
use oakterm.Protocol.Messages.Workspaces.RoundTrip.{
  FitsNewWorkspace, FitsNewWorkspaceResponse, FitsSwitchWorkspace, FitsRenameWorkspace,
  FitsCloseWorkspace,
}
use oakterm.Protocol.Messages.Delivered.TabMessages as TabMessages

abbrev hi : Text
hi = 104 ∷ 105 ∷ 195 ∷ 169 ∷ []

hi-IsText : IsText hi
unfolding is_utf8
hi-IsText = record { size = omega arith; utf8 = refl }

abbrev new_tab_sent : NewTab
new_tab_sent = record { workspace_id = 70000; command = hi; cwd = hi }

new_tab_sent-Fits : FitsNewTab new_tab_sent
new_tab_sent-Fits = record { workspace_id = omega arith; command = hi-IsText; cwd = hi-IsText }

abbrev new_tab_response_sent : NewTabResponse
new_tab_response_sent = record { tab_id = 70000; pane_id = 70000 }

new_tab_response_sent-Fits : FitsNewTabResponse new_tab_response_sent
new_tab_response_sent-Fits = record { tab_id = omega arith; pane_id = omega arith }

abbrev close_tab_sent : CloseTab
close_tab_sent = record { tab_id = 70000 }

close_tab_sent-Fits : FitsCloseTab close_tab_sent
close_tab_sent-Fits = record { tab_id = omega arith }

abbrev switch_tab_sent : SwitchTab
switch_tab_sent = record { tab_id = 70000 }

switch_tab_sent-Fits : FitsSwitchTab switch_tab_sent
switch_tab_sent-Fits = record { tab_id = omega arith }

abbrev move_tab_sent : MoveTab
move_tab_sent = record { tab_id = 70000; new_index = 70000 }

move_tab_sent-Fits : FitsMoveTab move_tab_sent
move_tab_sent-Fits = record { tab_id = omega arith; new_index = omega arith }

abbrev rename_tab_sent : RenameTab
rename_tab_sent = record { tab_id = 70000; name = hi }

rename_tab_sent-Fits : FitsRenameTab rename_tab_sent
rename_tab_sent-Fits = record { tab_id = omega arith; name = hi-IsText }

abbrev new_workspace_sent : NewWorkspace
new_workspace_sent = record { name = hi }

new_workspace_sent-Fits : FitsNewWorkspace new_workspace_sent
new_workspace_sent-Fits = record { name = hi-IsText }

abbrev new_workspace_response_sent : NewWorkspaceResponse
new_workspace_response_sent = record { workspace_id = 70000; tab_id = 70000; pane_id = 70000 }

new_workspace_response_sent-Fits : FitsNewWorkspaceResponse new_workspace_response_sent
new_workspace_response_sent-Fits = record {
  workspace_id = omega arith;
  tab_id = omega arith;
  pane_id = omega arith;
}

abbrev switch_workspace_sent : SwitchWorkspace
switch_workspace_sent = record { workspace_id = 70000 }

switch_workspace_sent-Fits : FitsSwitchWorkspace switch_workspace_sent
switch_workspace_sent-Fits = record { workspace_id = omega arith }

abbrev rename_workspace_sent : RenameWorkspace
rename_workspace_sent = record { workspace_id = 70000; name = hi }

rename_workspace_sent-Fits : FitsRenameWorkspace rename_workspace_sent
rename_workspace_sent-Fits = record { workspace_id = omega arith; name = hi-IsText }

abbrev close_workspace_sent : CloseWorkspace
close_workspace_sent = record { workspace_id = 70000 }

close_workspace_sent-Fits : FitsCloseWorkspace close_workspace_sent
close_workspace_sent-Fits = record { workspace_id = omega arith }

receive-tab_messages_example :
    ((encode_new_tab new_tab_sent >>= decode_new_tab) ≡ ok new_tab_sent)
    × ((frame_new_tab_response new_tab_response_sent 9 >>= receive decode_new_tab_response)
        ≡ ok new_tab_response_sent)
    × (decode_close_tab (encode_close_tab close_tab_sent) ≡ ok close_tab_sent)
    × ((frame_close_tab_response close_tab_response 9 >>= receive decode_close_tab_response)
        ≡ ok close_tab_response)
    × (decode_switch_tab (encode_switch_tab switch_tab_sent) ≡ ok switch_tab_sent)
    × (decode_move_tab (encode_move_tab move_tab_sent) ≡ ok move_tab_sent)
    × ((encode_rename_tab rename_tab_sent >>= decode_rename_tab) ≡ ok rename_tab_sent)
    × ((encode_new_workspace new_workspace_sent >>= decode_new_workspace) ≡ ok new_workspace_sent)
    × ((frame_new_workspace_response new_workspace_response_sent 9
          >>= receive decode_new_workspace_response)
        ≡ ok new_workspace_response_sent)
    × (decode_switch_workspace (encode_switch_workspace switch_workspace_sent)
        ≡ ok switch_workspace_sent)
    × ((encode_rename_workspace rename_workspace_sent >>= decode_rename_workspace)
        ≡ ok rename_workspace_sent)
    × (decode_close_workspace (encode_close_workspace close_workspace_sent)
        ≡ ok close_workspace_sent)
    × ((frame_close_workspace_response close_workspace_response 9
          >>= receive decode_close_workspace_response)
        ≡ ok close_workspace_response)
receive-tab_messages_example =
    TabMessages.receive-tab_messages 9 (omega arith) new_tab_sent new_tab_response_sent
      close_tab_sent close_tab_response switch_tab_sent move_tab_sent rename_tab_sent
      new_workspace_sent new_workspace_response_sent switch_workspace_sent rename_workspace_sent
      close_workspace_sent close_workspace_response new_tab_sent-Fits new_tab_response_sent-Fits
      close_tab_sent-Fits switch_tab_sent-Fits move_tab_sent-Fits rename_tab_sent-Fits
      new_workspace_sent-Fits new_workspace_response_sent-Fits switch_workspace_sent-Fits
      rename_workspace_sent-Fits close_workspace_sent-Fits
