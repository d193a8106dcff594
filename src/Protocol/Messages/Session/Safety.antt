-- ===== src/Protocol/Messages/Session/Safety.antt =====
-- message.rs: the decoders answer on any bytes.
use oakterm.Prelude.{ℕ, List, arith}
use oakterm.Protocol.Wire.Safety.{
  Answers, bind-Answers, found-Answers, at_least-Answers, byte_at-found,
}
use oakterm.Protocol.Wire.Enums.Answers.{
  shutdown_reason_of-Answers, request_shutdown_reason_of-Answers, shutdown_ack_status_of-Answers,
}
use oakterm.Protocol.Messages.Session.{
  decode_shutdown, decode_request_shutdown, decode_shutdown_ack,
}

pub decode_shutdown-Answers : (bytes : List ℕ) → Answers (decode_shutdown bytes)
unfolding decode_shutdown
decode_shutdown-Answers bytes = at_least-Answers bytes _ 1 _ λ h.
    bind-Answers _ (λ _. Unit {0}) _ _
      (found-Answers _ _ (byte_at-found bytes 0 (omega (arith, h)))
        λ b. shutdown_reason_of-Answers b)
      λ reason _. tt

pub decode_request_shutdown-Answers : (bytes : List ℕ) → Answers (decode_request_shutdown bytes)
unfolding decode_request_shutdown
decode_request_shutdown-Answers bytes = at_least-Answers bytes _ 1 _ λ h.
    bind-Answers _ (λ _. Unit {0}) _ _
      (found-Answers _ _ (byte_at-found bytes 0 (omega (arith, h)))
        λ b. request_shutdown_reason_of-Answers b)
      λ reason _. tt

pub decode_shutdown_ack-Answers : (bytes : List ℕ) → Answers (decode_shutdown_ack bytes)
unfolding decode_shutdown_ack
decode_shutdown_ack-Answers bytes = at_least-Answers bytes _ 1 _ λ h.
    bind-Answers _ (λ _. Unit {0}) _ _
      (found-Answers _ _ (byte_at-found bytes 0 (omega (arith, h)))
        λ b. shutdown_ack_status_of-Answers b)
      λ status _. tt
