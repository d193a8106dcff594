-- ===== src/Protocol/Kinds.antt =====
-- message.rs: the numbers of the kinds of message, and the minor versions that a client asks for.
use oakterm.Prelude.{ℕ}

abbrev pub msg_client_hello : ℕ
msg_client_hello = 1

abbrev pub msg_server_hello : ℕ
msg_server_hello = 2

abbrev msg_ping : ℕ
msg_ping = 3

abbrev msg_pong : ℕ
msg_pong = 4

abbrev pub msg_error : ℕ
msg_error = 5

abbrev pub msg_shutdown : ℕ
msg_shutdown = 6

abbrev pub msg_request_shutdown : ℕ
msg_request_shutdown = 7

abbrev pub msg_shutdown_ack : ℕ
msg_shutdown_ack = 8

abbrev pub msg_key_input : ℕ
msg_key_input = 100

abbrev pub msg_mouse_input : ℕ
msg_mouse_input = 101

abbrev pub msg_resize : ℕ
msg_resize = 102

abbrev pub msg_detach : ℕ
msg_detach = 103

abbrev msg_dirty_notify : ℕ
msg_dirty_notify = 112

abbrev msg_get_render_update : ℕ
msg_get_render_update = 113

abbrev msg_render_update : ℕ
msg_render_update = 114

abbrev msg_get_scrollback : ℕ
msg_get_scrollback = 115

abbrev msg_scrollback_data : ℕ
msg_scrollback_data = 116

abbrev msg_find_prompt : ℕ
msg_find_prompt = 117

abbrev pub msg_prompt_position : ℕ
msg_prompt_position = 118

abbrev msg_search_scrollback : ℕ
msg_search_scrollback = 119

abbrev pub msg_search_results : ℕ
msg_search_results = 120

abbrev msg_search_next : ℕ
msg_search_next = 121

abbrev msg_search_prev : ℕ
msg_search_prev = 122

abbrev msg_search_close : ℕ
msg_search_close = 123

abbrev pub msg_title_changed : ℕ
msg_title_changed = 128

abbrev msg_set_clipboard : ℕ
msg_set_clipboard = 129

abbrev pub msg_bell : ℕ
msg_bell = 130

abbrev pub msg_pane_exited : ℕ
msg_pane_exited = 131

abbrev msg_config_changed : ℕ
msg_config_changed = 132

abbrev msg_create_pane : ℕ
msg_create_pane = 144

abbrev pub msg_create_pane_response : ℕ
msg_create_pane_response = 145

abbrev msg_close_pane : ℕ
msg_close_pane = 146

abbrev msg_close_pane_response : ℕ
msg_close_pane_response = 147

abbrev msg_focus_pane : ℕ
msg_focus_pane = 148

abbrev msg_list_panes : ℕ
msg_list_panes = 149

abbrev pub msg_list_panes_response : ℕ
msg_list_panes_response = 150

abbrev pub msg_enter_copy_mode : ℕ
msg_enter_copy_mode = 151

abbrev pub msg_exit_copy_mode : ℕ
msg_exit_copy_mode = 152

abbrev pub msg_enter_copy_mode_ack : ℕ
msg_enter_copy_mode_ack = 155

abbrev pub msg_copy_mode_invalidated : ℕ
msg_copy_mode_invalidated = 156

abbrev pub msg_yank_selection : ℕ
msg_yank_selection = 153

abbrev pub msg_yank_response : ℕ
msg_yank_response = 154

abbrev msg_split_pane : ℕ
msg_split_pane = 160

abbrev pub msg_split_pane_response : ℕ
msg_split_pane_response = 161

abbrev msg_resize_pane : ℕ
msg_resize_pane = 162

abbrev msg_swap_pane : ℕ
msg_swap_pane = 163

abbrev pub msg_swap_pane_response : ℕ
msg_swap_pane_response = 164

abbrev msg_get_layout_tree : ℕ
msg_get_layout_tree = 165

abbrev pub msg_layout_tree : ℕ
msg_layout_tree = 166

abbrev msg_new_tab : ℕ
msg_new_tab = 167

abbrev pub msg_new_tab_response : ℕ
msg_new_tab_response = 168

abbrev msg_close_tab : ℕ
msg_close_tab = 169

abbrev pub msg_close_tab_response : ℕ
msg_close_tab_response = 170

abbrev msg_switch_tab : ℕ
msg_switch_tab = 171

abbrev msg_new_workspace : ℕ
msg_new_workspace = 172

abbrev pub msg_new_workspace_response : ℕ
msg_new_workspace_response = 173

abbrev msg_switch_workspace : ℕ
msg_switch_workspace = 174

abbrev msg_list_tabs : ℕ
msg_list_tabs = 175

abbrev pub msg_tab_list : ℕ
msg_tab_list = 176

abbrev msg_move_tab : ℕ
msg_move_tab = 177

abbrev msg_rename_tab : ℕ
msg_rename_tab = 178

abbrev msg_rename_workspace : ℕ
msg_rename_workspace = 179

abbrev msg_close_workspace : ℕ
msg_close_workspace = 180

abbrev pub msg_close_workspace_response : ℕ
msg_close_workspace_response = 181

abbrev list_tabs_min_minor : ℕ
list_tabs_min_minor = 2

abbrev tab_ops_min_minor : ℕ
tab_ops_min_minor = 3

abbrev copy_mode_min_minor : ℕ
copy_mode_min_minor = 5

abbrev msg_ctl_command : ℕ
msg_ctl_command = 200

abbrev msg_ctl_response : ℕ
msg_ctl_response = 201
