-- ===== src/Protocol/Examples/Infrastructure.antt =====
-- Messages of a shutdown and of the handshake, and each error response, sent and received.
use oakterm.Prelude.{◌≡◌, refl, [], ◌∷◌, arith}
use oakterm.Protocol.Delivery.{receive}
use oakterm.Protocol.Frame.{ok, ◌>>=◌}
use oakterm.Protocol.Utf8.{is_utf8}
use oakterm.Protocol.Wire.{Text}
use oakterm.Protocol.Wire.Laws.{IsText}
use oakterm.Protocol.Wire.Enums.{
  ShutdownReason, RequestShutdownReason, ShutdownAckStatus, ClientType, HandshakeStatus,
}
use oakterm.Protocol.Messages.Session.{
  Shutdown, decode_shutdown, frame_shutdown, RequestShutdown, decode_request_shutdown,
  frame_request_shutdown, ShutdownAck, decode_shutdown_ack, frame_shutdown_ack,
}
use oakterm.Protocol.Messages.Hello.{
  ClientHello, decode_client_hello, frame_client_hello, ServerHello, decode_server_hello,
  frame_server_hello, ErrorMessage, decode_error_message, frame_error_message,
}
use oakterm.Protocol.Messages.Hello.RoundTrip.{FitsClientHello, FitsServerHello, FitsErrorMessage}
use oakterm.Protocol.Messages.Delivered.Infrastructure as Infrastructure

abbrev hi : Text
hi = 104 ∷ 105 ∷ 195 ∷ 169 ∷ []

hi-IsText : IsText hi
unfolding is_utf8
hi-IsText = record { size = omega arith; utf8 = refl }

abbrev shutdown_sent : Shutdown
shutdown_sent = record { reason = ShutdownReason.upgrade }

abbrev request_shutdown_sent : RequestShutdown
request_shutdown_sent = record { reason = RequestShutdownReason.upgrade }

abbrev shutdown_ack_sent : ShutdownAck
shutdown_ack_sent = record { status = ShutdownAckStatus.save_failed }

abbrev client_hello_sent : ClientHello
client_hello_sent = record {
  protocol_version_major = 300;
  protocol_version_minor = 300;
  client_type = ClientType.control;
  client_name = hi;
}

client_hello_sent-Fits : FitsClientHello client_hello_sent
client_hello_sent-Fits = record {
  protocol_version_major = omega arith;
  protocol_version_minor = omega arith;
  client_name = hi-IsText;
}

abbrev server_hello_sent : ServerHello
server_hello_sent = record {
  status = HandshakeStatus.server_full;
  protocol_version_major = 300;
  protocol_version_minor = 300;
  server_version = hi;
}

server_hello_sent-Fits : FitsServerHello server_hello_sent
server_hello_sent-Fits = record {
  protocol_version_major = omega arith;
  protocol_version_minor = omega arith;
  server_version = hi-IsText;
}

abbrev error_message_sent : ErrorMessage
error_message_sent = record { code = 70000; message = hi }

error_message_sent-Fits : FitsErrorMessage error_message_sent
error_message_sent-Fits = record { code = omega arith; message = hi-IsText }

receive-infrastructure_example :
    ((frame_shutdown shutdown_sent >>= receive decode_shutdown) ≡ ok shutdown_sent)
    × ((frame_request_shutdown request_shutdown_sent 9 >>= receive decode_request_shutdown)
        ≡ ok request_shutdown_sent)
    × ((frame_shutdown_ack shutdown_ack_sent 9 >>= receive decode_shutdown_ack)
        ≡ ok shutdown_ack_sent)
    × ((frame_client_hello client_hello_sent 9 >>= receive decode_client_hello)
        ≡ ok client_hello_sent)
    × ((frame_server_hello server_hello_sent 9 >>= receive decode_server_hello)
        ≡ ok server_hello_sent)
    × ((frame_error_message error_message_sent 9 >>= receive decode_error_message)
        ≡ ok error_message_sent)
receive-infrastructure_example =
    Infrastructure.receive-infrastructure 9 (omega arith) shutdown_sent request_shutdown_sent
      shutdown_ack_sent client_hello_sent server_hello_sent error_message_sent
      client_hello_sent-Fits server_hello_sent-Fits error_message_sent-Fits
