-- ===== src/Protocol/Messages/Safety.antt =====
-- message.rs, input.rs, render.rs: every decoder, on any bytes.
use oakterm.Prelude.{ℕ, ◌≡◌, List}
use oakterm.F32.{F32}
use oakterm.Protocol.Frame.{ok}
use oakterm.Protocol.LayoutTree.{Json, validate, decode_layout_tree}
use oakterm.Protocol.LayoutTree.Laws.{decode_layout_tree-Answers}
use oakterm.Protocol.Wire.Safety.{Answers, AnswersWith}
use oakterm.Protocol.Messages.Session.{
  decode_shutdown, decode_request_shutdown, decode_shutdown_ack,
}
use oakterm.Protocol.Messages.Hello.{decode_client_hello, decode_server_hello, decode_error_message}
use oakterm.Protocol.Messages.Notices.{
  decode_title_changed, decode_pane_exited, decode_bell, decode_dirty_notify,
  decode_get_render_update,
}
use oakterm.Protocol.Messages.Search.{
  decode_find_prompt, decode_search_scrollback, decode_search_nav,
}
use oakterm.Protocol.Messages.Requests.{
  decode_get_scrollback, decode_create_pane_response, decode_close_pane, decode_focus_pane,
}
use oakterm.Protocol.Messages.CopyMode.{
  decode_enter_copy_mode, decode_enter_copy_mode_ack, decode_exit_copy_mode,
  decode_copy_mode_invalidated, decode_yank_selection,
}
use oakterm.Protocol.Messages.Splits.{
  decode_split_pane, decode_split_pane_response, decode_resize_pane, decode_swap_pane,
  decode_swap_pane_response, decode_get_layout_tree,
}
use oakterm.Protocol.Messages.Tabs.{
  decode_new_tab, decode_new_tab_response, decode_close_tab, decode_close_tab_response,
  decode_switch_tab, decode_move_tab, decode_rename_tab,
}
use oakterm.Protocol.Messages.Workspaces.{
  decode_new_workspace, decode_new_workspace_response, decode_switch_workspace,
  decode_rename_workspace, decode_close_workspace, decode_close_workspace_response,
}
use oakterm.Protocol.Messages.Input.{decode_resize, decode_mouse_input, decode_detach}
use oakterm.Protocol.Messages.Prefixed.{decode_create_pane, decode_yank_response, decode_key_input}
use oakterm.Protocol.Messages.Panes.{decode_list_panes_response}
use oakterm.Protocol.Messages.TabList.{decode_tab_list}
use oakterm.Protocol.Messages.Results.{decode_prompt_position, decode_search_results}
use oakterm.Protocol.Messages.Rendering.{decode_render_update, decode_scrollback_data}
use oakterm.Protocol.Messages.Session.Safety.{
  decode_shutdown-Answers, decode_request_shutdown-Answers, decode_shutdown_ack-Answers,
}
use oakterm.Protocol.Messages.Hello.Safety.{
  decode_client_hello-Answers, decode_server_hello-Answers, decode_error_message-Answers,
}
use oakterm.Protocol.Messages.Notices.Safety.{
  decode_title_changed-Answers, decode_pane_exited-Answers, decode_bell-Answers,
  decode_dirty_notify-Answers, decode_get_render_update-Answers,
}
use oakterm.Protocol.Messages.Search.Safety.{
  decode_find_prompt-Answers, decode_search_scrollback-Answers, decode_search_nav-Answers,
}
use oakterm.Protocol.Messages.Requests.Safety.{
  decode_get_scrollback-Answers, decode_create_pane_response-Answers, decode_close_pane-Answers,
  decode_focus_pane-Answers,
}
use oakterm.Protocol.Messages.CopyMode.Safety.{
  decode_enter_copy_mode-Answers, decode_enter_copy_mode_ack-Answers, decode_exit_copy_mode-Answers,
  decode_copy_mode_invalidated-Answers, decode_yank_selection-Answers,
}
use oakterm.Protocol.Messages.Splits.Safety.{
  decode_split_pane-Answers, decode_split_pane_response-Answers, decode_resize_pane-Answers,
  decode_swap_pane-Answers, decode_swap_pane_response-Answers, decode_get_layout_tree-Answers,
}
use oakterm.Protocol.Messages.Tabs.Safety.{
  decode_new_tab-Answers, decode_new_tab_response-Answers, decode_close_tab-Answers,
  decode_close_tab_response-Answers, decode_switch_tab-Answers, decode_move_tab-Answers,
  decode_rename_tab-Answers,
}
use oakterm.Protocol.Messages.Workspaces.Safety.{
  decode_new_workspace-Answers, decode_new_workspace_response-Answers,
  decode_switch_workspace-Answers, decode_rename_workspace-Answers, decode_close_workspace-Answers,
  decode_close_workspace_response-Answers,
}
use oakterm.Protocol.Messages.Input.Safety.{
  decode_resize-Answers, decode_mouse_input-Answers, decode_detach-Answers,
}
use oakterm.Protocol.Messages.Prefixed.Safety.{
  decode_create_pane-Answers, decode_yank_response-Answers, decode_key_input-Answers,
}
use oakterm.Protocol.Messages.Panes.Safety.{decode_list_panes_response-Answers}
use oakterm.Protocol.Messages.TabList.Safety.{decode_tab_list-Answers}
use oakterm.Protocol.Messages.Results.Safety.{
  decode_prompt_position-Answers, decode_search_results-Answers,
}
use oakterm.Protocol.Messages.Rendering.Safety.{
  decode_render_update-Answers, decode_scrollback_data-Answers,
}

-- The answers of all the decoders for the same bytes.
abbrev pub DecodersAnswer : {W : Type 0} ⦃f : F32 W⦄ → Json W → List ℕ → Type 0
DecodersAnswer json bytes =
    AnswersWith (λ t. validate t ≡ ok tt) (decode_layout_tree json bytes)
    × Answers (decode_shutdown bytes)
    × Answers (decode_request_shutdown bytes)
    × Answers (decode_shutdown_ack bytes)
    × Answers (decode_client_hello bytes)
    × Answers (decode_server_hello bytes)
    × Answers (decode_error_message bytes)
    × Answers (decode_title_changed bytes)
    × Answers (decode_pane_exited bytes)
    × Answers (decode_bell bytes)
    × Answers (decode_dirty_notify bytes)
    × Answers (decode_get_render_update bytes)
    × Answers (decode_find_prompt bytes)
    × Answers (decode_search_scrollback bytes)
    × Answers (decode_search_nav bytes)
    × Answers (decode_get_scrollback bytes)
    × Answers (decode_create_pane_response bytes)
    × Answers (decode_close_pane bytes)
    × Answers (decode_focus_pane bytes)
    × Answers (decode_enter_copy_mode bytes)
    × Answers (decode_enter_copy_mode_ack bytes)
    × Answers (decode_exit_copy_mode bytes)
    × Answers (decode_copy_mode_invalidated bytes)
    × Answers (decode_yank_selection bytes)
    × Answers (decode_split_pane bytes)
    × Answers (decode_split_pane_response bytes)
    × Answers (decode_resize_pane bytes)
    × Answers (decode_swap_pane bytes)
    × Answers (decode_swap_pane_response bytes)
    × Answers (decode_get_layout_tree bytes)
    × Answers (decode_new_tab bytes)
    × Answers (decode_new_tab_response bytes)
    × Answers (decode_close_tab bytes)
    × Answers (decode_close_tab_response bytes)
    × Answers (decode_switch_tab bytes)
    × Answers (decode_move_tab bytes)
    × Answers (decode_rename_tab bytes)
    × Answers (decode_new_workspace bytes)
    × Answers (decode_new_workspace_response bytes)
    × Answers (decode_switch_workspace bytes)
    × Answers (decode_rename_workspace bytes)
    × Answers (decode_close_workspace bytes)
    × Answers (decode_close_workspace_response bytes)
    × Answers (decode_resize bytes)
    × Answers (decode_mouse_input bytes)
    × Answers (decode_detach bytes)
    × Answers (decode_create_pane bytes)
    × Answers (decode_yank_response bytes)
    × Answers (decode_key_input bytes)
    × Answers (decode_list_panes_response bytes)
    × Answers (decode_tab_list bytes)
    × Answers (decode_prompt_position bytes)
    × Answers (decode_search_results bytes)
    × Answers (decode_render_update bytes)
    × Answers (decode_scrollback_data bytes)

-- Every decoder of a payload answers on any bytes: with a message, or with the error for malformed
-- or for missing bytes. None indexes out of range. A layout tree that is returned is one that
-- `validate` accepts, whatever the JSON library does.
pub decoders-Answer :
    {W : Type 0} ⦃f : F32 W⦄ (json : Json W) (bytes : List ℕ) → DecodersAnswer json bytes
decoders-Answer json bytes = (
  decode_layout_tree-Answers json bytes,
  decode_shutdown-Answers bytes,
  decode_request_shutdown-Answers bytes,
  decode_shutdown_ack-Answers bytes,
  decode_client_hello-Answers bytes,
  decode_server_hello-Answers bytes,
  decode_error_message-Answers bytes,
  decode_title_changed-Answers bytes,
  decode_pane_exited-Answers bytes,
  decode_bell-Answers bytes,
  decode_dirty_notify-Answers bytes,
  decode_get_render_update-Answers bytes,
  decode_find_prompt-Answers bytes,
  decode_search_scrollback-Answers bytes,
  decode_search_nav-Answers bytes,
  decode_get_scrollback-Answers bytes,
  decode_create_pane_response-Answers bytes,
  decode_close_pane-Answers bytes,
  decode_focus_pane-Answers bytes,
  decode_enter_copy_mode-Answers bytes,
  decode_enter_copy_mode_ack-Answers bytes,
  decode_exit_copy_mode-Answers bytes,
  decode_copy_mode_invalidated-Answers bytes,
  decode_yank_selection-Answers bytes,
  decode_split_pane-Answers bytes,
  decode_split_pane_response-Answers bytes,
  decode_resize_pane-Answers bytes,
  decode_swap_pane-Answers bytes,
  decode_swap_pane_response-Answers bytes,
  decode_get_layout_tree-Answers bytes,
  decode_new_tab-Answers bytes,
  decode_new_tab_response-Answers bytes,
  decode_close_tab-Answers bytes,
  decode_close_tab_response-Answers bytes,
  decode_switch_tab-Answers bytes,
  decode_move_tab-Answers bytes,
  decode_rename_tab-Answers bytes,
  decode_new_workspace-Answers bytes,
  decode_new_workspace_response-Answers bytes,
  decode_switch_workspace-Answers bytes,
  decode_rename_workspace-Answers bytes,
  decode_close_workspace-Answers bytes,
  decode_close_workspace_response-Answers bytes,
  decode_resize-Answers bytes,
  decode_mouse_input-Answers bytes,
  decode_detach-Answers bytes,
  decode_create_pane-Answers bytes,
  decode_yank_response-Answers bytes,
  decode_key_input-Answers bytes,
  decode_list_panes_response-Answers bytes,
  decode_tab_list-Answers bytes,
  decode_prompt_position-Answers bytes,
  decode_search_results-Answers bytes,
  decode_render_update-Answers bytes,
  decode_scrollback_data-Answers bytes,
)
