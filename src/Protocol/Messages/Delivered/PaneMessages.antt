-- ===== src/Protocol/Messages/Delivered/PaneMessages.antt =====
-- message.rs, input.rs, render.rs: what was sent is received, for the messages that is pushed about a pane or asks about one.
use oakterm.Prelude.{ℕ, ◌<◌, ◌≡◌}
use oakterm.Protocol.Delivery.{receive}
use oakterm.Protocol.Frame.{ok, ◌>>=◌}
use oakterm.Protocol.Messages.Notices.{
  TitleChanged, decode_title_changed, frame_title_changed, PaneExited, decode_pane_exited,
  frame_pane_exited, Bell, decode_bell, frame_bell, DirtyNotify, encode_dirty_notify,
  decode_dirty_notify, GetRenderUpdate, encode_get_render_update, decode_get_render_update,
}
use oakterm.Protocol.Messages.Requests.{
  GetScrollback, encode_get_scrollback, decode_get_scrollback, CreatePaneResponse,
  decode_create_pane_response, frame_create_pane_response, ClosePane, encode_close_pane,
  decode_close_pane, FocusPane, encode_focus_pane, decode_focus_pane,
}
use oakterm.Protocol.Messages.Search.{
  FindPrompt, encode_find_prompt, decode_find_prompt, SearchScrollback, encode_search_scrollback,
  decode_search_scrollback, SearchNav, encode_search_nav, decode_search_nav,
}
use oakterm.Protocol.Messages.Notices.RoundTrip.{
  FitsTitleChanged, FitsPaneExited, FitsBell, FitsDirtyNotify, FitsGetRenderUpdate,
  frame_title_changed-received, frame_pane_exited-received, frame_bell-received,
  decode_dirty_notify-encode_dirty_notify, decode_get_render_update-encode_get_render_update,
}
use oakterm.Protocol.Messages.Requests.RoundTrip.{
  FitsGetScrollback, FitsCreatePaneResponse, FitsClosePane, FitsFocusPane,
  decode_get_scrollback-encode_get_scrollback, frame_create_pane_response-received,
  decode_close_pane-encode_close_pane, decode_focus_pane-encode_focus_pane,
}
use oakterm.Protocol.Messages.Search.RoundTrip.{
  FitsFindPrompt, FitsSearchScrollback, FitsSearchNav, decode_find_prompt-encode_find_prompt,
  decode_search_scrollback-encode_search_scrollback, decode_search_nav-encode_search_nav,
}

-- Each message that is pushed about a pane or asks about one whose fields fit their integer types,
-- and whose texts are UTF-8 and shorter than 65,536 bytes, is what the receiver decodes.
pub receive-pane_messages :
    (serial : ℕ)
    → serial < 4294967296
    → (a : TitleChanged) (b : PaneExited) (c : Bell) (d : DirtyNotify) (e : GetRenderUpdate)
      (f : GetScrollback) (g : CreatePaneResponse) (j : ClosePane) (k : FocusPane) (l : FindPrompt)
      (m : SearchScrollback) (n : SearchNav)
    → FitsTitleChanged a
    → FitsPaneExited b
    → FitsBell c
    → FitsDirtyNotify d
    → FitsGetRenderUpdate e
    → FitsGetScrollback f
    → FitsCreatePaneResponse g
    → FitsClosePane j
    → FitsFocusPane k
    → FitsFindPrompt l
    → FitsSearchScrollback m
    → FitsSearchNav n
    → ((frame_title_changed a >>= receive decode_title_changed) ≡ ok a)
      × ((frame_pane_exited b >>= receive decode_pane_exited) ≡ ok b)
      × ((frame_bell c >>= receive decode_bell) ≡ ok c)
      × (decode_dirty_notify (encode_dirty_notify d) ≡ ok d)
      × (decode_get_render_update (encode_get_render_update e) ≡ ok e)
      × (decode_get_scrollback (encode_get_scrollback f) ≡ ok f)
      × ((frame_create_pane_response g serial >>= receive decode_create_pane_response) ≡ ok g)
      × (decode_close_pane (encode_close_pane j) ≡ ok j)
      × (decode_focus_pane (encode_focus_pane k) ≡ ok k)
      × (decode_find_prompt (encode_find_prompt l) ≡ ok l)
      × ((encode_search_scrollback m >>= decode_search_scrollback) ≡ ok m)
      × (decode_search_nav (encode_search_nav n) ≡ ok n)
receive-pane_messages serial numbered a b c d e f g j k l m n ha hb hc hd he hf hg hj hk hl hm hn =
    (
      frame_title_changed-received a ha,
      frame_pane_exited-received b hb,
      frame_bell-received c hc,
      decode_dirty_notify-encode_dirty_notify d hd,
      decode_get_render_update-encode_get_render_update e he,
      decode_get_scrollback-encode_get_scrollback f hf,
      frame_create_pane_response-received g serial numbered hg,
      decode_close_pane-encode_close_pane j hj,
      decode_focus_pane-encode_focus_pane k hk,
      decode_find_prompt-encode_find_prompt l hl,
      decode_search_scrollback-encode_search_scrollback m hm,
      decode_search_nav-encode_search_nav n hn,
    )
