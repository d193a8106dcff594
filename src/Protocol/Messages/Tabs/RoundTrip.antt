-- ===== src/Protocol/Messages/Tabs/RoundTrip.antt =====
-- message.rs: what was sent is what is decoded.
use oakterm.Prelude.{ℕ, ◌<◌, ◌≡◌, refl, ◌∙◌, false, [], ◌++◌, ltb, length, arith}
use oakterm.Protocol.Bytes.{to_le, from_le-four}
use oakterm.Protocol.Delivery.{receive, receive-new}
use oakterm.Protocol.Frame.{ok, ◌>>=◌}
use oakterm.Protocol.Kinds.{msg_new_tab_response, msg_close_tab_response}
use oakterm.Protocol.Wire.{at_least}
use oakterm.Protocol.Wire.Laws.{IsText}
use oakterm.Protocol.Wire.Offsets.{
  encode_str-ok, decode_str-then, decode_str-last, encode_str-second, decode_str-second,
}
use oakterm.Protocol.Messages.Tabs.{
  NewTab, encode_new_tab, decode_new_tab, NewTabResponse, encode_new_tab_response,
  decode_new_tab_response, frame_new_tab_response, CloseTab, encode_close_tab, decode_close_tab,
  CloseTabResponse, decode_close_tab_response, frame_close_tab_response, SwitchTab,
  encode_switch_tab, decode_switch_tab, MoveTab, encode_move_tab, decode_move_tab, RenameTab,
  encode_rename_tab, decode_rename_tab, close_tab_response,
}

pub record FitsNewTab (m : NewTab) : Type 0 where
  pub workspace_id : m.workspace_id < 4294967296
  pub command : IsText m.command
  pub cwd : IsText m.cwd

pub decode_new_tab-encode_new_tab :
    (m : NewTab) → FitsNewTab m → (encode_new_tab m >>= decode_new_tab) ≡ ok m
unfolding encode_new_tab decode_new_tab
decode_new_tab-encode_new_tab m h =
    let pre = to_le 4 m.workspace_id in
    let both =
      pre ++ (to_le 2 (length m.command) ++ (m.command ++ (to_le 2 (length m.cwd) ++ m.cwd))) in
    let size : ltb (length both) 4 ≡ false = ground arith in
    rw
      (
        encode_str-ok pre m.command h.command,
        encode_str-second pre m.command m.cwd h.cwd,
        at_least,
        size,
        from_le-four m.workspace_id h.workspace_id,
        decode_str-then pre m.command h.command (to_le 2 (length m.cwd) ++ m.cwd),
        decode_str-second pre m.command m.cwd h.cwd,
      )
      refl

pub record FitsNewTabResponse (m : NewTabResponse) : Type 0 where
  pub tab_id : m.tab_id < 4294967296
  pub pane_id : m.pane_id < 4294967296

pub decode_new_tab_response-encode_new_tab_response :
    (m : NewTabResponse)
    → FitsNewTabResponse m
    → decode_new_tab_response (encode_new_tab_response m) ≡ ok m
unfolding encode_new_tab_response decode_new_tab_response
decode_new_tab_response-encode_new_tab_response m h =
    rw (from_le-four m.tab_id h.tab_id, from_le-four m.pane_id h.pane_id) refl

pub frame_new_tab_response-received :
    (m : NewTabResponse)
    → (serial : ℕ) → serial < 4294967296
    → FitsNewTabResponse m
    → (frame_new_tab_response m serial >>= receive decode_new_tab_response) ≡ ok m
unfolding frame_new_tab_response encode_new_tab_response
frame_new_tab_response-received m serial numbered h =
    receive-new decode_new_tab_response msg_new_tab_response serial (encode_new_tab_response m)
      (omega arith) numbered (omega arith)
    ∙ decode_new_tab_response-encode_new_tab_response m h

pub record FitsCloseTab (m : CloseTab) : Type 0 where
  pub tab_id : m.tab_id < 4294967296

pub decode_close_tab-encode_close_tab :
    (m : CloseTab) → FitsCloseTab m → decode_close_tab (encode_close_tab m) ≡ ok m
unfolding encode_close_tab decode_close_tab
decode_close_tab-encode_close_tab m h = rw (from_le-four m.tab_id h.tab_id) refl

pub frame_close_tab_response-received :
    (m : CloseTabResponse)
    → (serial : ℕ) → serial < 4294967296
    → (frame_close_tab_response m serial >>= receive decode_close_tab_response) ≡ ok m
unfolding frame_close_tab_response decode_close_tab_response
frame_close_tab_response-received close_tab_response serial numbered =
    receive-new decode_close_tab_response msg_close_tab_response serial [] (omega arith) numbered
      (omega arith)

pub record FitsSwitchTab (m : SwitchTab) : Type 0 where
  pub tab_id : m.tab_id < 4294967296

pub decode_switch_tab-encode_switch_tab :
    (m : SwitchTab) → FitsSwitchTab m → decode_switch_tab (encode_switch_tab m) ≡ ok m
unfolding encode_switch_tab decode_switch_tab
decode_switch_tab-encode_switch_tab m h = rw (from_le-four m.tab_id h.tab_id) refl

pub record FitsMoveTab (m : MoveTab) : Type 0 where
  pub tab_id : m.tab_id < 4294967296
  pub new_index : m.new_index < 4294967296

pub decode_move_tab-encode_move_tab :
    (m : MoveTab) → FitsMoveTab m → decode_move_tab (encode_move_tab m) ≡ ok m
unfolding encode_move_tab decode_move_tab
decode_move_tab-encode_move_tab m h =
    rw (from_le-four m.tab_id h.tab_id, from_le-four m.new_index h.new_index) refl

pub record FitsRenameTab (m : RenameTab) : Type 0 where
  pub tab_id : m.tab_id < 4294967296
  pub name : IsText m.name

pub decode_rename_tab-encode_rename_tab :
    (m : RenameTab) → FitsRenameTab m → (encode_rename_tab m >>= decode_rename_tab) ≡ ok m
unfolding encode_rename_tab decode_rename_tab
decode_rename_tab-encode_rename_tab m h =
    let pre = to_le 4 m.tab_id in
    let size : ltb (length (pre ++ (to_le 2 (length m.name) ++ m.name))) 4 ≡ false = ground arith in
    rw
      (
        encode_str-ok pre m.name h.name,
        at_least,
        size,
        from_le-four m.tab_id h.tab_id,
        decode_str-last pre m.name h.name,
      )
      refl
