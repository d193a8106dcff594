-- ===== src/Protocol/Examples/PaneMessages.antt =====
-- Messages that is pushed about a pane or asks about one, sent and received.
use oakterm.Prelude.{◌≡◌, refl, [], ◌∷◌, arith}
use oakterm.Prelude.Integers.{negsuc}
use oakterm.Protocol.Delivery.{receive}
use oakterm.Protocol.Frame.{ok, ◌>>=◌}
use oakterm.Protocol.Utf8.{is_utf8}
use oakterm.Protocol.Wire.{Text}
use oakterm.Protocol.Wire.Laws.{IsText}
use oakterm.Protocol.Wire.Enums.{SearchDirection}
use oakterm.Protocol.Messages.Notices.{
  TitleChanged, decode_title_changed, frame_title_changed, PaneExited, decode_pane_exited,
  frame_pane_exited, Bell, decode_bell, frame_bell, DirtyNotify, encode_dirty_notify,
  decode_dirty_notify, GetRenderUpdate, encode_get_render_update, decode_get_render_update,
}
use oakterm.Protocol.Messages.Requests.{
  GetScrollback, encode_get_scrollback, decode_get_scrollback, CreatePaneResponse,
  decode_create_pane_response, frame_create_pane_response, ClosePane, encode_close_pane,
  decode_close_pane, FocusPane, encode_focus_pane, decode_focus_pane,
}
use oakterm.Protocol.Messages.Search.{
  FindPrompt, encode_find_prompt, decode_find_prompt, SearchScrollback, encode_search_scrollback,
  decode_search_scrollback, SearchNav, encode_search_nav, decode_search_nav,
}
use oakterm.Protocol.Messages.Notices.RoundTrip.{
  FitsTitleChanged, FitsPaneExited, FitsBell, FitsDirtyNotify, FitsGetRenderUpdate,
}
use oakterm.Protocol.Messages.Requests.RoundTrip.{
  FitsGetScrollback, FitsCreatePaneResponse, FitsClosePane, FitsFocusPane,
}
use oakterm.Protocol.Messages.Search.RoundTrip.{FitsFindPrompt, FitsSearchScrollback, FitsSearchNav}
use oakterm.Protocol.Messages.Delivered.PaneMessages as PaneMessages

abbrev hi : Text
hi = 104 ∷ 105 ∷ 195 ∷ 169 ∷ []

hi-IsText : IsText hi
unfolding is_utf8
hi-IsText = record { size = omega arith; utf8 = refl }

abbrev title_changed_sent : TitleChanged
title_changed_sent = record { pane_id = 70000; title = hi }

title_changed_sent-Fits : FitsTitleChanged title_changed_sent
title_changed_sent-Fits = record { pane_id = omega arith; title = hi-IsText }

abbrev pane_exited_sent : PaneExited
pane_exited_sent = record { pane_id = 70000; exit_code = negsuc 0 }

pane_exited_sent-Fits : FitsPaneExited pane_exited_sent
pane_exited_sent-Fits = record { pane_id = omega arith; exit_code = omega arith }

abbrev bell_sent : Bell
bell_sent = record { pane_id = 70000 }

bell_sent-Fits : FitsBell bell_sent
bell_sent-Fits = record { pane_id = omega arith }

abbrev dirty_notify_sent : DirtyNotify
dirty_notify_sent = record { pane_id = 70000 }

dirty_notify_sent-Fits : FitsDirtyNotify dirty_notify_sent
dirty_notify_sent-Fits = record { pane_id = omega arith }

abbrev get_render_update_sent : GetRenderUpdate
get_render_update_sent = record { pane_id = 70000; since_seqno = 5000000000 }

get_render_update_sent-Fits : FitsGetRenderUpdate get_render_update_sent
get_render_update_sent-Fits = record { pane_id = omega arith; since_seqno = omega arith }

abbrev get_scrollback_sent : GetScrollback
get_scrollback_sent = record { pane_id = 70000; start_row = negsuc 299; count = 70000 }

get_scrollback_sent-Fits : FitsGetScrollback get_scrollback_sent
get_scrollback_sent-Fits = record {
  pane_id = omega arith;
  start_row = omega arith;
  count = omega arith;
}

abbrev create_pane_response_sent : CreatePaneResponse
create_pane_response_sent = record { pane_id = 70000 }

create_pane_response_sent-Fits : FitsCreatePaneResponse create_pane_response_sent
create_pane_response_sent-Fits = record { pane_id = omega arith }

abbrev close_pane_sent : ClosePane
close_pane_sent = record { pane_id = 70000 }

close_pane_sent-Fits : FitsClosePane close_pane_sent
close_pane_sent-Fits = record { pane_id = omega arith }

abbrev focus_pane_sent : FocusPane
focus_pane_sent = record { pane_id = 70000 }

focus_pane_sent-Fits : FitsFocusPane focus_pane_sent
focus_pane_sent-Fits = record { pane_id = omega arith }

abbrev find_prompt_sent : FindPrompt
find_prompt_sent = record {
  pane_id = 70000;
  from_offset = negsuc 299;
  direction = SearchDirection.older;
}

find_prompt_sent-Fits : FitsFindPrompt find_prompt_sent
find_prompt_sent-Fits = record { pane_id = omega arith; from_offset = omega arith }

abbrev search_scrollback_sent : SearchScrollback
search_scrollback_sent = record { pane_id = 70000; flags = 3; query = hi }

search_scrollback_sent-Fits : FitsSearchScrollback search_scrollback_sent
search_scrollback_sent-Fits = record { pane_id = omega arith; query = hi-IsText }

abbrev search_nav_sent : SearchNav
search_nav_sent = record { pane_id = 70000 }

search_nav_sent-Fits : FitsSearchNav search_nav_sent
search_nav_sent-Fits = record { pane_id = omega arith }

receive-pane_messages_example :
    ((frame_title_changed title_changed_sent >>= receive decode_title_changed)
      ≡ ok title_changed_sent)
    × ((frame_pane_exited pane_exited_sent >>= receive decode_pane_exited) ≡ ok pane_exited_sent)
    × ((frame_bell bell_sent >>= receive decode_bell) ≡ ok bell_sent)
    × (decode_dirty_notify (encode_dirty_notify dirty_notify_sent) ≡ ok dirty_notify_sent)
    × (decode_get_render_update (encode_get_render_update get_render_update_sent)
        ≡ ok get_render_update_sent)
    × (decode_get_scrollback (encode_get_scrollback get_scrollback_sent) ≡ ok get_scrollback_sent)
    × ((frame_create_pane_response create_pane_response_sent 9
          >>= receive decode_create_pane_response)
        ≡ ok create_pane_response_sent)
    × (decode_close_pane (encode_close_pane close_pane_sent) ≡ ok close_pane_sent)
    × (decode_focus_pane (encode_focus_pane focus_pane_sent) ≡ ok focus_pane_sent)
    × (decode_find_prompt (encode_find_prompt find_prompt_sent) ≡ ok find_prompt_sent)
    × ((encode_search_scrollback search_scrollback_sent >>= decode_search_scrollback)
        ≡ ok search_scrollback_sent)
    × (decode_search_nav (encode_search_nav search_nav_sent) ≡ ok search_nav_sent)
receive-pane_messages_example =
    PaneMessages.receive-pane_messages 9 (omega arith) title_changed_sent pane_exited_sent bell_sent
      dirty_notify_sent get_render_update_sent get_scrollback_sent create_pane_response_sent
      close_pane_sent focus_pane_sent find_prompt_sent search_scrollback_sent search_nav_sent
      title_changed_sent-Fits pane_exited_sent-Fits bell_sent-Fits dirty_notify_sent-Fits
      get_render_update_sent-Fits get_scrollback_sent-Fits create_pane_response_sent-Fits
      close_pane_sent-Fits focus_pane_sent-Fits find_prompt_sent-Fits search_scrollback_sent-Fits
      search_nav_sent-Fits
