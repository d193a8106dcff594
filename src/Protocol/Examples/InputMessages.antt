-- ===== src/Protocol/Examples/InputMessages.antt =====
-- Messages of input, each request for a pane and each yanked text, sent and received.
use oakterm.Prelude.{◌≡◌, refl, [], ◌∷◌, arith}
use oakterm.Protocol.Delivery.{receive}
use oakterm.Protocol.Frame.{ok, ◌>>=◌}
use oakterm.Protocol.Utf8.{is_utf8}
use oakterm.Protocol.Wire.{Text}
use oakterm.Protocol.Wire.Laws.{IsText}
use oakterm.Protocol.Messages.Input.{
  detach, Resize, decode_resize, frame_resize, MouseInput, decode_mouse_input, frame_mouse_input,
  decode_detach, frame_detach,
}
use oakterm.Protocol.Messages.Prefixed.{
  KeyInput, frame_key_input, decode_key_input, CreatePane, encode_create_pane, decode_create_pane,
  YankResponse, frame_yank_response, decode_yank_response,
}
use oakterm.Protocol.Messages.Input.RoundTrip.{FitsResize, FitsMouseInput}
use oakterm.Protocol.Messages.Prefixed.RoundTrip.{FitsKeyInput, FitsCreatePane, FitsYankResponse}
use oakterm.Protocol.Messages.Delivered.InputMessages as InputMessages

abbrev hi : Text
hi = 104 ∷ 105 ∷ 195 ∷ 169 ∷ []

hi-IsText : IsText hi
unfolding is_utf8
hi-IsText = record { size = omega arith; utf8 = refl }

abbrev resize_sent : Resize
resize_sent = record {
  pane_id = 70000;
  cols = 300;
  rows = 300;
  pixel_width = 300;
  pixel_height = 300;
}

resize_sent-Fits : FitsResize resize_sent
resize_sent-Fits = record {
  pane_id = omega arith;
  cols = omega arith;
  rows = omega arith;
  pixel_width = omega arith;
  pixel_height = omega arith;
}

abbrev mouse_input_sent : MouseInput
mouse_input_sent = record {
  pane_id = 70000;
  event_type = 3;
  x = 300;
  y = 300;
  modifiers = 3;
  button = 3;
}

mouse_input_sent-Fits : FitsMouseInput mouse_input_sent
mouse_input_sent-Fits = record { pane_id = omega arith; x = omega arith; y = omega arith }

abbrev key_input_sent : KeyInput
key_input_sent = record { pane_id = 70000; key_data = (27 ∷ 91 ∷ []) }

key_input_sent-Fits : FitsKeyInput key_input_sent
key_input_sent-Fits = record { pane_id = omega arith; key_data = omega arith }

abbrev create_pane_sent : CreatePane
create_pane_sent = record { command = hi; cwd = hi }

create_pane_sent-Fits : FitsCreatePane create_pane_sent
create_pane_sent-Fits = record { command = hi-IsText; cwd = hi-IsText }

abbrev yank_response_sent : YankResponse
yank_response_sent = record { text = hi }

yank_response_sent-Fits : FitsYankResponse yank_response_sent
yank_response_sent-Fits = record { size = omega arith; utf8 = hi-IsText.utf8 }

receive-input_messages_example :
    ((frame_resize resize_sent >>= receive decode_resize) ≡ ok resize_sent)
    × ((frame_mouse_input mouse_input_sent >>= receive decode_mouse_input) ≡ ok mouse_input_sent)
    × ((frame_detach detach >>= receive decode_detach) ≡ ok detach)
    × ((frame_key_input key_input_sent >>= receive decode_key_input) ≡ ok key_input_sent)
    × ((encode_create_pane create_pane_sent >>= decode_create_pane) ≡ ok create_pane_sent)
    × ((frame_yank_response yank_response_sent 9 >>= receive decode_yank_response)
        ≡ ok yank_response_sent)
receive-input_messages_example =
    InputMessages.receive-input_messages 9 (omega arith) resize_sent mouse_input_sent detach
      key_input_sent create_pane_sent yank_response_sent resize_sent-Fits mouse_input_sent-Fits
      key_input_sent-Fits create_pane_sent-Fits yank_response_sent-Fits
