-- ===== src/Protocol/Messages/Requests/RoundTrip.antt =====
-- message.rs: what was sent is what is decoded.
use oakterm.Prelude.{ℕ, ◌<◌, ◌≡◌, refl, ◌∙◌, arith}
use oakterm.Prelude.Integers.{IsSigned}
use oakterm.Protocol.Bytes.{from_le-four}
use oakterm.Protocol.Delivery.{receive, receive-new}
use oakterm.Protocol.Frame.{ok, ◌>>=◌}
use oakterm.Protocol.Kinds.{msg_create_pane_response}
use oakterm.Protocol.Wire.Laws.{i64-back}
use oakterm.Protocol.Messages.Requests.{
  GetScrollback, encode_get_scrollback, decode_get_scrollback, CreatePaneResponse,
  encode_create_pane_response, decode_create_pane_response, frame_create_pane_response, ClosePane,
  encode_close_pane, decode_close_pane, FocusPane, encode_focus_pane, decode_focus_pane,
}

pub record FitsGetScrollback (m : GetScrollback) : Type 0 where
  pub pane_id : m.pane_id < 4294967296
  pub start_row : IsSigned 9223372036854775808 m.start_row
  pub count : m.count < 4294967296

pub decode_get_scrollback-encode_get_scrollback :
    (m : GetScrollback)
    → FitsGetScrollback m
    → decode_get_scrollback (encode_get_scrollback m) ≡ ok m
unfolding encode_get_scrollback decode_get_scrollback
decode_get_scrollback-encode_get_scrollback m h =
    rw
      (
        from_le-four m.pane_id h.pane_id,
        i64-back m.start_row h.start_row,
        from_le-four m.count h.count,
      )
      refl

pub record FitsCreatePaneResponse (m : CreatePaneResponse) : Type 0 where
  pub pane_id : m.pane_id < 4294967296

pub decode_create_pane_response-encode_create_pane_response :
    (m : CreatePaneResponse)
    → FitsCreatePaneResponse m
    → decode_create_pane_response (encode_create_pane_response m) ≡ ok m
unfolding encode_create_pane_response decode_create_pane_response
decode_create_pane_response-encode_create_pane_response m h =
    rw (from_le-four m.pane_id h.pane_id) refl

pub frame_create_pane_response-received :
    (m : CreatePaneResponse)
    → (serial : ℕ) → serial < 4294967296
    → FitsCreatePaneResponse m
    → (frame_create_pane_response m serial >>= receive decode_create_pane_response) ≡ ok m
unfolding frame_create_pane_response encode_create_pane_response
frame_create_pane_response-received m serial numbered h =
    receive-new decode_create_pane_response msg_create_pane_response serial
      (encode_create_pane_response m) (omega arith) numbered (omega arith)
    ∙ decode_create_pane_response-encode_create_pane_response m h

pub record FitsClosePane (m : ClosePane) : Type 0 where
  pub pane_id : m.pane_id < 4294967296

pub decode_close_pane-encode_close_pane :
    (m : ClosePane) → FitsClosePane m → decode_close_pane (encode_close_pane m) ≡ ok m
unfolding encode_close_pane decode_close_pane
decode_close_pane-encode_close_pane m h = rw (from_le-four m.pane_id h.pane_id) refl

pub record FitsFocusPane (m : FocusPane) : Type 0 where
  pub pane_id : m.pane_id < 4294967296

pub decode_focus_pane-encode_focus_pane :
    (m : FocusPane) → FitsFocusPane m → decode_focus_pane (encode_focus_pane m) ≡ ok m
unfolding encode_focus_pane decode_focus_pane
decode_focus_pane-encode_focus_pane m h = rw (from_le-four m.pane_id h.pane_id) refl
