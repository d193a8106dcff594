-- ===== src/Protocol/Messages/Session.antt =====
-- message.rs: how the daemon is shut down.
pub mod RoundTrip
pub mod Safety
use oakterm.Prelude.{
  ℕ, ◌+◌, ◌≤◌, ◌<◌, ◌≡◌, refl, sym, ◌∙◌, Bool, false, List, [], ◌∷◌, ◌++◌, ltb, length, arith,
}
use oakterm.Prelude.Integers.{ℤ, IsSigned}
use oakterm.Protocol.Bytes.{to_le, from_le-two, from_le-four}
use oakterm.Protocol.Delivery.{receive, receive-new, receive-encoded}
use oakterm.Protocol.Frame.{Frame, IoResult, ok, ◌>>=◌, byte_at, u16_at, u32_at, new}
use oakterm.Protocol.Kinds.{msg_shutdown, msg_request_shutdown, msg_shutdown_ack}
use oakterm.Protocol.Wire.{
  Text, at_least, encode_str, decode_str, u64_at, i16_at, i32_at, i64_at, i16_le, i32_le, i64_le,
  bool_byte, bool_at,
}
use oakterm.Protocol.Wire.Laws.{IsText, from_le-eight, i16-back, i32-back, i64-back, bool-back}
use oakterm.Protocol.Wire.Offsets.{
  encode_str-ok, decode_str-then, decode_str-last, encode_str-second, decode_str-second,
}
use oakterm.Protocol.Wire.Safety.{
  AnswersWith, Answers, bind-Answers, found-Answers, at_least-Answers, byte_at-found, u16_at-found,
  u32_at-found, u64_at-found, i16_at-found, i32_at-found, i64_at-found, bool_at-found,
  decode_str-Answers,
}
use oakterm.Protocol.Wire.Enums.{
  ShutdownReason, shutdown_reason_code, shutdown_reason_of, shutdown_reason_of-code,
  RequestShutdownReason, request_shutdown_reason_code, request_shutdown_reason_of,
  request_shutdown_reason_of-code, ShutdownAckStatus, shutdown_ack_status_code,
  shutdown_ack_status_of, shutdown_ack_status_of-code,
}
use oakterm.Protocol.Wire.Enums.Answers.{
  shutdown_reason_of-Answers, request_shutdown_reason_of-Answers, shutdown_ack_status_of-Answers,
}

pub record Shutdown : Type 0 where
  pub reason : ShutdownReason

unfoldable pub encode_shutdown : Shutdown → List ℕ
encode_shutdown m = shutdown_reason_code m.reason ∷ []

unfoldable pub decode_shutdown : List ℕ → IoResult Shutdown
decode_shutdown bytes =
    at_least 1 bytes
      (byte_at bytes 0 >>= shutdown_reason_of >>= λ reason. ok (record { reason = reason }))

unfoldable pub frame_shutdown : Shutdown → IoResult Frame
frame_shutdown m = new msg_shutdown 0 (encode_shutdown m)

pub record RequestShutdown : Type 0 where
  pub reason : RequestShutdownReason

unfoldable pub encode_request_shutdown : RequestShutdown → List ℕ
encode_request_shutdown m = request_shutdown_reason_code m.reason ∷ []

unfoldable pub decode_request_shutdown : List ℕ → IoResult RequestShutdown
decode_request_shutdown bytes =
    at_least 1 bytes
      (byte_at bytes 0 >>= request_shutdown_reason_of >>= λ reason. ok (record { reason = reason }))

unfoldable pub frame_request_shutdown : RequestShutdown → ℕ → IoResult Frame
frame_request_shutdown m serial = new msg_request_shutdown serial (encode_request_shutdown m)

pub record ShutdownAck : Type 0 where
  pub status : ShutdownAckStatus

unfoldable pub encode_shutdown_ack : ShutdownAck → List ℕ
encode_shutdown_ack m = shutdown_ack_status_code m.status ∷ []

unfoldable pub decode_shutdown_ack : List ℕ → IoResult ShutdownAck
decode_shutdown_ack bytes =
    at_least 1 bytes
      (byte_at bytes 0 >>= shutdown_ack_status_of >>= λ status. ok (record { status = status }))

unfoldable pub frame_shutdown_ack : ShutdownAck → ℕ → IoResult Frame
frame_shutdown_ack m serial = new msg_shutdown_ack serial (encode_shutdown_ack m)
