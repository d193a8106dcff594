-- ===== src/Protocol/Messages/Delivered/InputMessages.antt =====
-- message.rs, input.rs, render.rs: what was sent is received, for the messages of input, each request for a pane and each yanked text.
use oakterm.Prelude.{ℕ, ◌<◌, ◌≡◌}
use oakterm.Protocol.Delivery.{receive}
use oakterm.Protocol.Frame.{ok, ◌>>=◌}
use oakterm.Protocol.Messages.Input.{
  Resize, decode_resize, frame_resize, MouseInput, decode_mouse_input, frame_mouse_input, Detach,
  decode_detach, frame_detach,
}
use oakterm.Protocol.Messages.Prefixed.{
  KeyInput, frame_key_input, decode_key_input, CreatePane, encode_create_pane, decode_create_pane,
  YankResponse, frame_yank_response, decode_yank_response,
}
use oakterm.Protocol.Messages.Input.RoundTrip.{
  FitsResize, FitsMouseInput, frame_resize-received, frame_mouse_input-received,
  frame_detach-received,
}
use oakterm.Protocol.Messages.Prefixed.RoundTrip.{
  FitsKeyInput, FitsCreatePane, FitsYankResponse, frame_key_input-received,
  decode_create_pane-encode_create_pane, frame_yank_response-received,
}

-- Each message of input, each request for a pane and each yanked text whose fields and lengths fit
-- their types, whose texts are UTF-8, and that fits a frame, is what the receiver decodes.
pub receive-input_messages :
    (serial : ℕ)
    → serial < 4294967296
    → (a : Resize) (b : MouseInput) (c : Detach) (d : KeyInput) (e : CreatePane) (f : YankResponse)
    → FitsResize a
    → FitsMouseInput b
    → FitsKeyInput d
    → FitsCreatePane e
    → FitsYankResponse f
    → ((frame_resize a >>= receive decode_resize) ≡ ok a)
      × ((frame_mouse_input b >>= receive decode_mouse_input) ≡ ok b)
      × ((frame_detach c >>= receive decode_detach) ≡ ok c)
      × ((frame_key_input d >>= receive decode_key_input) ≡ ok d)
      × ((encode_create_pane e >>= decode_create_pane) ≡ ok e)
      × ((frame_yank_response f serial >>= receive decode_yank_response) ≡ ok f)
receive-input_messages serial numbered a b c d e f ha hb hd he hf = (
  frame_resize-received a ha,
  frame_mouse_input-received b hb,
  frame_detach-received c,
  frame_key_input-received d hd,
  decode_create_pane-encode_create_pane e he,
  frame_yank_response-received f serial numbered hf,
)
