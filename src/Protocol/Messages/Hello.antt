-- ===== src/Protocol/Messages/Hello.antt =====
-- message.rs: the handshake, and the error response.
pub mod RoundTrip
pub mod Safety
use oakterm.Prelude.{
  ℕ, ◌+◌, ◌≤◌, ◌<◌, ◌≡◌, refl, sym, ◌∙◌, Bool, false, List, [], ◌∷◌, ◌++◌, ltb, length, arith,
}
use oakterm.Prelude.Integers.{ℤ, IsSigned}
use oakterm.Protocol.Bytes.{to_le, from_le-two, from_le-four}
use oakterm.Protocol.Delivery.{receive, receive-new, receive-encoded}
use oakterm.Protocol.Frame.{Frame, IoResult, ok, ◌>>=◌, byte_at, u16_at, u32_at, new}
use oakterm.Protocol.Kinds.{msg_client_hello, msg_server_hello, msg_error}
use oakterm.Protocol.Wire.{
  Text, at_least, encode_str, decode_str, u64_at, i16_at, i32_at, i64_at, i16_le, i32_le, i64_le,
  bool_byte, bool_at,
}
use oakterm.Protocol.Wire.Laws.{IsText, from_le-eight, i16-back, i32-back, i64-back, bool-back}
use oakterm.Protocol.Wire.Offsets.{
  encode_str-ok, decode_str-then, decode_str-last, encode_str-second, decode_str-second,
}
use oakterm.Protocol.Wire.Safety.{
  AnswersWith, Answers, bind-Answers, found-Answers, at_least-Answers, byte_at-found, u16_at-found,
  u32_at-found, u64_at-found, i16_at-found, i32_at-found, i64_at-found, bool_at-found,
  decode_str-Answers,
}
use oakterm.Protocol.Wire.Enums.{
  ClientType, client_type_code, client_type_of, client_type_of-code, HandshakeStatus,
  handshake_status_code, handshake_status_of, handshake_status_of-code,
}
use oakterm.Protocol.Wire.Enums.Answers.{client_type_of-Answers, handshake_status_of-Answers}

pub record ClientHello : Type 0 where
  pub protocol_version_major : ℕ
  pub protocol_version_minor : ℕ
  pub client_type : ClientType
  pub client_name : Text

unfoldable pub encode_client_hello : ClientHello → IoResult (List ℕ)
encode_client_hello m =
    encode_str
      (to_le 2 m.protocol_version_major
        ++ to_le 2 m.protocol_version_minor
        ++ client_type_code m.client_type ∷ [])
      m.client_name

unfoldable pub decode_client_hello : List ℕ → IoResult ClientHello
decode_client_hello bytes = at_least 5 bytes (
    u16_at bytes 0 >>= λ protocol_version_major. u16_at bytes 2 >>= λ protocol_version_minor.
    byte_at bytes 4 >>= client_type_of >>= λ client_type. decode_str bytes 5 >>= λ client_name.
    ok (record {
      protocol_version_major = protocol_version_major;
      protocol_version_minor = protocol_version_minor;
      client_type = client_type;
      client_name = client_name.0;
    }))

unfoldable pub frame_client_hello : ClientHello → ℕ → IoResult Frame
frame_client_hello m serial = encode_client_hello m >>= new msg_client_hello serial

pub record ServerHello : Type 0 where
  pub status : HandshakeStatus
  pub protocol_version_major : ℕ
  pub protocol_version_minor : ℕ
  pub server_version : Text

unfoldable pub encode_server_hello : ServerHello → IoResult (List ℕ)
encode_server_hello m =
    encode_str
      (handshake_status_code m.status ∷ []
        ++ to_le 2 m.protocol_version_major
        ++ to_le 2 m.protocol_version_minor)
      m.server_version

unfoldable pub decode_server_hello : List ℕ → IoResult ServerHello
decode_server_hello bytes = at_least 5 bytes (
    byte_at bytes 0 >>= handshake_status_of >>= λ status.
    u16_at bytes 1 >>= λ protocol_version_major. u16_at bytes 3 >>= λ protocol_version_minor.
    decode_str bytes 5 >>= λ server_version. ok (record {
      status = status;
      protocol_version_major = protocol_version_major;
      protocol_version_minor = protocol_version_minor;
      server_version = server_version.0;
    }))

unfoldable pub frame_server_hello : ServerHello → ℕ → IoResult Frame
frame_server_hello m serial = encode_server_hello m >>= new msg_server_hello serial

pub record ErrorMessage : Type 0 where
  pub code : ℕ
  pub message : Text

unfoldable pub encode_error_message : ErrorMessage → IoResult (List ℕ)
encode_error_message m = encode_str (to_le 4 m.code) m.message

unfoldable pub decode_error_message : List ℕ → IoResult ErrorMessage
decode_error_message bytes = at_least 4 bytes (
    u32_at bytes 0 >>= λ code.
    decode_str bytes 4 >>= λ message. ok (record { code = code; message = message.0 }))

unfoldable pub frame_error_message : ErrorMessage → ℕ → IoResult Frame
frame_error_message m serial = encode_error_message m >>= new msg_error serial
