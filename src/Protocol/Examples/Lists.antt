-- ===== src/Protocol/Examples/Lists.antt =====
-- Messages that carry lists, sent and received.
use oakterm.Prelude.{if◌then◌else◌, ltb, length, ◌≡◌, refl, true, none, some, [], ◌∷◌, arith}
use oakterm.Prelude.Integers.{negsuc}
use oakterm.Protocol.Delivery.{receive}
use oakterm.Protocol.Frame.{err, ErrorKind, ok, ◌>>=◌}
use oakterm.Protocol.Utf8.{is_utf8}
use oakterm.Protocol.Wire.{Text}
use oakterm.Protocol.Wire.Laws.{IsText}
use oakterm.Protocol.Messages.Panes.{
  PaneInfo, ListPanesResponse, frame_list_panes_response, decode_list_panes_response,
}
use oakterm.Protocol.Messages.Panes.RoundTrip as Panes
use oakterm.Protocol.Messages.Panes.RoundTrip.{FitsPaneInfo}
use oakterm.Protocol.Messages.TabList.{TabList, frame_tab_list, decode_tab_list}
use oakterm.Protocol.Messages.TabList.RoundTrip as Tabs
use oakterm.Protocol.Messages.TabList.RoundTrip.{FitsTabEntry, FitsTabList}
use oakterm.Protocol.Messages.Results.{
  PromptPosition, SearchResults, frame_prompt_position, decode_prompt_position,
  frame_search_results, decode_search_results,
}
use oakterm.Protocol.Messages.Results.RoundTrip as Results
use oakterm.Protocol.Messages.Results.RoundTrip.{
  FitsPromptPosition, FitsVisibleMatch, FitsSearchResults,
}
use oakterm.Protocol.Messages.Rendering.{
  WireCell, DirtyRow, RenderUpdate, encode_render_update, decode_render_update, ScrollbackData,
  encode_scrollback_data, decode_scrollback_data,
}
use oakterm.Protocol.Messages.Rendering.RoundTrip.{FitsWireCell, FitsDirtyRow}
use oakterm.Protocol.Messages.Rendering.Updates as Updates
use oakterm.Protocol.Messages.Rendering.Updates.{FitsRenderUpdate, FitsScrollbackData}

abbrev hi : Text
hi = 104 ∷ 105 ∷ []

hi-IsText : IsText hi
unfolding is_utf8
hi-IsText = record { size = omega arith; utf8 = refl }

abbrev shell : PaneInfo
shell = record {
  pane_id = 4;
  title = hi;
  cols = 80;
  rows = 24;
  pid = 9000;
  exit_code = negsuc 0;
  cwd = [];
}

empty-IsText : IsText []
unfolding is_utf8
empty-IsText = record { size = omega arith; utf8 = refl }

shell-Fits : FitsPaneInfo shell
shell-Fits = record {
  pane_id = omega arith;
  title = hi-IsText;
  cols = omega arith;
  rows = omega arith;
  pid = omega arith;
  exit_code = omega arith;
  cwd = empty-IsText;
}

abbrev panes : ListPanesResponse
panes = record { panes = shell ∷ shell ∷ [] }

receive-list_panes_response_example :
    (frame_list_panes_response panes 3 >>= receive decode_list_panes_response) ≡ ok panes
receive-list_panes_response_example =
    Panes.receive-list_panes_response panes 3 (omega arith) (omega arith)
      (shell-Fits, (shell-Fits, tt)) (omega arith)

abbrev tabs : TabList
tabs = record {
  workspace_id = 2;
  workspace_name = hi;
  active_tab = 7;
  tabs = record { tab_id = 7; focused_pane = 4; name = hi } ∷ [];
}

tabs-Fits : FitsTabList tabs
tabs-Fits = record {
  workspace_id = omega arith;
  workspace_name = hi-IsText;
  active_tab = omega arith;
  count = omega arith;
  tabs = (record { tab_id = omega arith; focused_pane = omega arith; name = hi-IsText }, tt);
}

receive-tab_list_example : (frame_tab_list tabs 3 >>= receive decode_tab_list) ≡ ok tabs
receive-tab_list_example = Tabs.receive-tab_list tabs tabs-Fits 3 (omega arith) (omega arith)

abbrev prompt : PromptPosition
prompt = record { pane_id = 4; offset = some (negsuc 11) }

prompt-Fits : FitsPromptPosition prompt
prompt-Fits = record { pane_id = omega arith; offset = omega arith }

abbrev results : SearchResults
results = record {
  pane_id = 4;
  total_matches = 1;
  active_index = none;
  active_row_offset = negsuc 11;
  capped = true;
  visible_matches = record { row = 3; col_start = 5; col_end = 9; is_active = true } ∷ [];
}

results-Fits : FitsSearchResults results
results-Fits = record {
  pane_id = omega arith;
  total_matches = omega arith;
  active_index = tt;
  active_row_offset = omega arith;
  count = omega arith;
  visible_matches =
      (record { row = omega arith; col_start = omega arith; col_end = omega arith }, tt);
}

receive-results_example :
    ((frame_prompt_position prompt 3 >>= receive decode_prompt_position) ≡ ok prompt)
    × ((frame_search_results results 3 >>= receive decode_search_results) ≡ ok results)
receive-results_example =
    Results.receive-results prompt results 3 (omega arith) prompt-Fits results-Fits

abbrev cell : WireCell
cell = record {
  codepoint = 65;
  fg_r = 1;
  fg_g = 2;
  fg_b = 3;
  fg_type = 0;
  bg_r = 4;
  bg_g = 5;
  bg_b = 6;
  bg_type = 0;
  flags = 1;
  extra = 204 ∷ 129 ∷ [];
}

abbrev row : DirtyRow
row = record { row_index = 3; cells = cell ∷ cell ∷ []; semantic_mark = 1; mark_metadata = 9 ∷ [] }

row-Fits : FitsDirtyRow row
row-Fits =
    let fits : FitsWireCell cell = record {
      codepoint = omega arith;
      flags = omega arith;
      extra = omega arith;
    } in
    record {
      row_index = omega arith;
      count = omega arith;
      cells = (fits, (fits, tt));
      mark_metadata = omega arith;
    }

abbrev update : RenderUpdate
update = record {
  pane_id = 4;
  seqno = 100;
  cursor_x = 2;
  cursor_y = 3;
  cursor_style = 1;
  cursor_visible = true;
  bg_r = 0;
  bg_g = 0;
  bg_b = 0;
  bracketed_paste = true;
  alt_screen = true;
  input_flags = 5;
  kitty_kbd_flags = 1;
  history_len = 5000;
  dirty_rows = row ∷ [];
}

update-Fits : FitsRenderUpdate update
update-Fits = record {
  pane_id = omega arith;
  seqno = omega arith;
  cursor_x = omega arith;
  cursor_y = omega arith;
  history_len = omega arith;
  count = omega arith;
  dirty_rows = (row-Fits, tt);
}

decode_render_update-encode_render_update_example :
    (encode_render_update update >>= decode_render_update) ≡ ok update
decode_render_update-encode_render_update_example =
    Updates.decode_render_update-encode_render_update update update-Fits

abbrev scrollback : ScrollbackData
scrollback = record {
  pane_id = 4;
  start_row = negsuc 99;
  has_more = true;
  total_rows = 900;
  base = 5000;
  rows = row ∷ row ∷ [];
}

scrollback-Fits : FitsScrollbackData scrollback
scrollback-Fits = record {
  pane_id = omega arith;
  start_row = omega arith;
  total_rows = omega arith;
  base = omega arith;
  count = omega arith;
  rows = (row-Fits, (row-Fits, tt));
}

decode_scrollback_data-encode_scrollback_data_example :
    (encode_scrollback_data scrollback >>= decode_scrollback_data)
    ≡ (if ltb 10000 (length scrollback.rows) then err ErrorKind.invalid_data else ok scrollback)
decode_scrollback_data-encode_scrollback_data_example =
    Updates.decode_scrollback_data-encode_scrollback_data scrollback scrollback-Fits
