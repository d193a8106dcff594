-- ===== src/Protocol/Messages/Input/RoundTrip.antt =====
-- crates/oakterm-protocol/src/input.rs: what was sent is what is decoded.
use oakterm.Prelude.{◌<◌, ◌≡◌, refl, ◌∙◌, [], arith}
use oakterm.Protocol.Bytes.{from_le-two, from_le-four}
use oakterm.Protocol.Delivery.{receive, receive-new}
use oakterm.Protocol.Frame.{ok, ◌>>=◌}
use oakterm.Protocol.Kinds.{msg_resize, msg_mouse_input, msg_detach}
use oakterm.Protocol.Messages.Input.{
  Resize, encode_resize, decode_resize, frame_resize, MouseInput, encode_mouse_input,
  decode_mouse_input, frame_mouse_input, Detach, encode_detach, decode_detach, frame_detach, detach,
}

pub record FitsResize (m : Resize) : Type 0 where
  pub pane_id : m.pane_id < 4294967296
  pub cols : m.cols < 65536
  pub rows : m.rows < 65536
  pub pixel_width : m.pixel_width < 65536
  pub pixel_height : m.pixel_height < 65536

pub decode_resize-encode_resize :
    (m : Resize) → FitsResize m → decode_resize (encode_resize m) ≡ ok m
unfolding encode_resize decode_resize
decode_resize-encode_resize m h =
    rw
      (
        from_le-four m.pane_id h.pane_id,
        from_le-two m.cols h.cols,
        from_le-two m.rows h.rows,
        from_le-two m.pixel_width h.pixel_width,
        from_le-two m.pixel_height h.pixel_height,
      )
      refl

pub frame_resize-received :
    (m : Resize) → FitsResize m → (frame_resize m >>= receive decode_resize) ≡ ok m
unfolding frame_resize encode_resize
frame_resize-received m h =
    receive-new decode_resize msg_resize 0 (encode_resize m) (omega arith) (omega arith)
      (omega arith)
    ∙ decode_resize-encode_resize m h

pub record FitsMouseInput (m : MouseInput) : Type 0 where
  pub pane_id : m.pane_id < 4294967296
  pub x : m.x < 65536
  pub y : m.y < 65536

pub decode_mouse_input-encode_mouse_input :
    (m : MouseInput) → FitsMouseInput m → decode_mouse_input (encode_mouse_input m) ≡ ok m
unfolding encode_mouse_input decode_mouse_input
decode_mouse_input-encode_mouse_input m h =
    rw (from_le-four m.pane_id h.pane_id, from_le-two m.x h.x, from_le-two m.y h.y) refl

pub frame_mouse_input-received :
    (m : MouseInput)
    → FitsMouseInput m
    → (frame_mouse_input m >>= receive decode_mouse_input) ≡ ok m
unfolding frame_mouse_input encode_mouse_input
frame_mouse_input-received m h =
    receive-new decode_mouse_input msg_mouse_input 0 (encode_mouse_input m) (omega arith)
      (omega arith) (omega arith)
    ∙ decode_mouse_input-encode_mouse_input m h

pub frame_detach-received : (m : Detach) → (frame_detach m >>= receive decode_detach) ≡ ok m
unfolding frame_detach encode_detach decode_detach
frame_detach-received detach =
    receive-new decode_detach msg_detach 0 [] (omega arith) (omega arith) (omega arith)
