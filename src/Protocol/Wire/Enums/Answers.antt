-- ===== src/Protocol/Wire/Enums/Answers.antt =====
-- message.rs: the bytes of the enums that `TryFrom` takes or refuses.
use oakterm.Prelude.{ℕ, arith}
use oakterm.Protocol.Wire.Safety.{Answers}
use oakterm.Protocol.Wire.Enums.{
  client_type_of, handshake_status_of, error_code_of, shutdown_reason_of,
  request_shutdown_reason_of, shutdown_ack_status_of, search_direction_of, copy_selection_type_of,
  split_direction_of,
}

pub client_type_of-Answers : (v : ℕ) → Answers (client_type_of v)
client_type_of-Answers v = ground arith

pub handshake_status_of-Answers : (v : ℕ) → Answers (handshake_status_of v)
handshake_status_of-Answers v = ground arith

pub error_code_of-Answers : (v : ℕ) → Answers (error_code_of v)
error_code_of-Answers v = ground arith

pub shutdown_reason_of-Answers : (v : ℕ) → Answers (shutdown_reason_of v)
shutdown_reason_of-Answers v = ground arith

pub request_shutdown_reason_of-Answers : (v : ℕ) → Answers (request_shutdown_reason_of v)
request_shutdown_reason_of-Answers v = ground arith

pub shutdown_ack_status_of-Answers : (v : ℕ) → Answers (shutdown_ack_status_of v)
shutdown_ack_status_of-Answers v = ground arith

pub search_direction_of-Answers : (v : ℕ) → Answers (search_direction_of v)
search_direction_of-Answers v = ground arith

pub copy_selection_type_of-Answers : (v : ℕ) → Answers (copy_selection_type_of v)
copy_selection_type_of-Answers v = ground arith

pub split_direction_of-Answers : (v : ℕ) → Answers (split_direction_of v)
split_direction_of-Answers v = ground arith
