-- ===== src/Protocol/Messages/Hello/Safety.antt =====
-- message.rs: the decoders answer on any bytes.
use oakterm.Prelude.{ℕ, ◌+◌, ◌≤◌, List, length, arith}
use oakterm.Protocol.Wire.Safety.{
  Answers, bind-Answers, found-Answers, at_least-Answers, byte_at-found, u16_at-found, u32_at-found,
  decode_str-Answers,
}
use oakterm.Protocol.Wire.Enums.Answers.{client_type_of-Answers, handshake_status_of-Answers}
use oakterm.Protocol.Messages.Hello.{decode_client_hello, decode_server_hello, decode_error_message}

pub decode_client_hello-Answers : (bytes : List ℕ) → Answers (decode_client_hello bytes)
unfolding decode_client_hello
decode_client_hello-Answers bytes = at_least-Answers bytes _ 5 _ λ h.
    found-Answers _ _ (u16_at-found bytes 0 (omega (arith, h))) λ protocol_version_major.
      found-Answers _ _ (u16_at-found bytes 2 (omega (arith, h))) λ protocol_version_minor.
        bind-Answers _ (λ _. Unit {0}) _ _
          (found-Answers _ _ (byte_at-found bytes 4 (omega (arith, h)))
            λ b. client_type_of-Answers b)
          λ client_type _.
            bind-Answers _ (λ q. 5 + q.1 ≤ length bytes) _ _ (decode_str-Answers bytes 5)
              λ client_name _. tt

pub decode_server_hello-Answers : (bytes : List ℕ) → Answers (decode_server_hello bytes)
unfolding decode_server_hello
decode_server_hello-Answers bytes = at_least-Answers bytes _ 5 _ λ h.
    bind-Answers _ (λ _. Unit {0}) _ _
      (found-Answers _ _ (byte_at-found bytes 0 (omega (arith, h)))
        λ b. handshake_status_of-Answers b)
      λ status _.
        found-Answers _ _ (u16_at-found bytes 1 (omega (arith, h))) λ protocol_version_major.
          found-Answers _ _ (u16_at-found bytes 3 (omega (arith, h))) λ protocol_version_minor.
            bind-Answers _ (λ q. 5 + q.1 ≤ length bytes) _ _ (decode_str-Answers bytes 5)
              λ server_version _. tt

pub decode_error_message-Answers : (bytes : List ℕ) → Answers (decode_error_message bytes)
unfolding decode_error_message
decode_error_message-Answers bytes = at_least-Answers bytes _ 4 _ λ h.
    found-Answers _ _ (u32_at-found bytes 0 (omega (arith, h))) λ code.
      bind-Answers _ (λ q. 4 + q.1 ≤ length bytes) _ _ (decode_str-Answers bytes 4) λ message _. tt
