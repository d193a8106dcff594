-- ===== src/Protocol/Messages/Session/RoundTrip.antt =====
-- message.rs: what was sent is what is decoded.
use oakterm.Prelude.{ℕ, ◌<◌, ◌≡◌, refl, ◌∙◌, arith}
use oakterm.Protocol.Delivery.{receive, receive-new}
use oakterm.Protocol.Frame.{ok, ◌>>=◌}
use oakterm.Protocol.Kinds.{msg_shutdown, msg_request_shutdown, msg_shutdown_ack}
use oakterm.Protocol.Wire.Enums.{
  shutdown_reason_of-code, request_shutdown_reason_of-code, shutdown_ack_status_of-code,
}
use oakterm.Protocol.Messages.Session.{
  Shutdown, encode_shutdown, decode_shutdown, frame_shutdown, RequestShutdown,
  encode_request_shutdown, decode_request_shutdown, frame_request_shutdown, ShutdownAck,
  encode_shutdown_ack, decode_shutdown_ack, frame_shutdown_ack,
}

decode_shutdown-encode_shutdown : (m : Shutdown) → decode_shutdown (encode_shutdown m) ≡ ok m
unfolding encode_shutdown decode_shutdown
decode_shutdown-encode_shutdown m = rw (shutdown_reason_of-code m.reason) refl

pub frame_shutdown-received : (m : Shutdown) → (frame_shutdown m >>= receive decode_shutdown) ≡ ok m
unfolding frame_shutdown encode_shutdown
frame_shutdown-received m =
    receive-new decode_shutdown msg_shutdown 0 (encode_shutdown m) (omega arith) (omega arith)
      (omega arith)
    ∙ decode_shutdown-encode_shutdown m

decode_request_shutdown-encode_request_shutdown :
    (m : RequestShutdown) → decode_request_shutdown (encode_request_shutdown m) ≡ ok m
unfolding encode_request_shutdown decode_request_shutdown
decode_request_shutdown-encode_request_shutdown m =
    rw (request_shutdown_reason_of-code m.reason) refl

pub frame_request_shutdown-received :
    (m : RequestShutdown)
    → (serial : ℕ) → serial < 4294967296
    → (frame_request_shutdown m serial >>= receive decode_request_shutdown) ≡ ok m
unfolding frame_request_shutdown encode_request_shutdown
frame_request_shutdown-received m serial numbered =
    receive-new decode_request_shutdown msg_request_shutdown serial (encode_request_shutdown m)
      (omega arith) numbered (omega arith)
    ∙ decode_request_shutdown-encode_request_shutdown m

decode_shutdown_ack-encode_shutdown_ack :
    (m : ShutdownAck) → decode_shutdown_ack (encode_shutdown_ack m) ≡ ok m
unfolding encode_shutdown_ack decode_shutdown_ack
decode_shutdown_ack-encode_shutdown_ack m = rw (shutdown_ack_status_of-code m.status) refl

pub frame_shutdown_ack-received :
    (m : ShutdownAck)
    → (serial : ℕ) → serial < 4294967296
    → (frame_shutdown_ack m serial >>= receive decode_shutdown_ack) ≡ ok m
unfolding frame_shutdown_ack encode_shutdown_ack
frame_shutdown_ack-received m serial numbered =
    receive-new decode_shutdown_ack msg_shutdown_ack serial (encode_shutdown_ack m) (omega arith)
      numbered (omega arith)
    ∙ decode_shutdown_ack-encode_shutdown_ack m
