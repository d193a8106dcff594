-- ===== src/Protocol/Messages/Delivered/Infrastructure.antt =====
-- message.rs, input.rs, render.rs: what was sent is received, for the messages of a shutdown and of the handshake, and each error response.
use oakterm.Prelude.{ℕ, ◌<◌, ◌≡◌}
use oakterm.Protocol.Delivery.{receive}
use oakterm.Protocol.Frame.{ok, ◌>>=◌}
use oakterm.Protocol.Messages.Session.{
  Shutdown, decode_shutdown, frame_shutdown, RequestShutdown, decode_request_shutdown,
  frame_request_shutdown, ShutdownAck, decode_shutdown_ack, frame_shutdown_ack,
}
use oakterm.Protocol.Messages.Hello.{
  ClientHello, decode_client_hello, frame_client_hello, ServerHello, decode_server_hello,
  frame_server_hello, ErrorMessage, decode_error_message, frame_error_message,
}
use oakterm.Protocol.Messages.Session.RoundTrip.{
  frame_shutdown-received, frame_request_shutdown-received, frame_shutdown_ack-received,
}
use oakterm.Protocol.Messages.Hello.RoundTrip.{
  FitsClientHello, FitsServerHello, FitsErrorMessage, frame_client_hello-received,
  frame_server_hello-received, frame_error_message-received,
}

-- Each message of a shutdown and of the handshake, and each error response, whose fields fit their
-- integer types, and whose texts are UTF-8 and shorter than 65,536 bytes, is what the receiver
-- decodes.
pub receive-infrastructure :
    (serial : ℕ)
    → serial < 4294967296
    → (a : Shutdown) (b : RequestShutdown) (c : ShutdownAck) (d : ClientHello) (e : ServerHello)
      (f : ErrorMessage)
    → FitsClientHello d
    → FitsServerHello e
    → FitsErrorMessage f
    → ((frame_shutdown a >>= receive decode_shutdown) ≡ ok a)
      × ((frame_request_shutdown b serial >>= receive decode_request_shutdown) ≡ ok b)
      × ((frame_shutdown_ack c serial >>= receive decode_shutdown_ack) ≡ ok c)
      × ((frame_client_hello d serial >>= receive decode_client_hello) ≡ ok d)
      × ((frame_server_hello e serial >>= receive decode_server_hello) ≡ ok e)
      × ((frame_error_message f serial >>= receive decode_error_message) ≡ ok f)
receive-infrastructure serial numbered a b c d e f hd he hf = (
  frame_shutdown-received a,
  frame_request_shutdown-received b serial numbered,
  frame_shutdown_ack-received c serial numbered,
  frame_client_hello-received d serial numbered hd,
  frame_server_hello-received e serial numbered he,
  frame_error_message-received f serial numbered hf,
)
