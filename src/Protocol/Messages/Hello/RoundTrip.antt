-- ===== src/Protocol/Messages/Hello/RoundTrip.antt =====
-- message.rs: what was sent is what is decoded.
use oakterm.Prelude.{ℕ, ◌<◌, ◌≡◌, refl, ◌∙◌, false, [], ◌∷◌, ◌++◌, ltb, length, arith}
use oakterm.Protocol.Bytes.{to_le, from_le-two, from_le-four}
use oakterm.Protocol.Delivery.{receive, receive-encoded}
use oakterm.Protocol.Frame.{ok, ◌>>=◌}
use oakterm.Protocol.Kinds.{msg_client_hello, msg_server_hello, msg_error}
use oakterm.Protocol.Wire.{at_least}
use oakterm.Protocol.Wire.Laws.{IsText}
use oakterm.Protocol.Wire.Offsets.{encode_str-ok, decode_str-last}
use oakterm.Protocol.Wire.Enums.{
  client_type_code, client_type_of-code, handshake_status_code, handshake_status_of-code,
}
use oakterm.Protocol.Messages.Hello.{
  ClientHello, encode_client_hello, decode_client_hello, frame_client_hello, ServerHello,
  encode_server_hello, decode_server_hello, frame_server_hello, ErrorMessage, encode_error_message,
  decode_error_message, frame_error_message,
}

pub record FitsClientHello (m : ClientHello) : Type 0 where
  pub protocol_version_major : m.protocol_version_major < 65536
  pub protocol_version_minor : m.protocol_version_minor < 65536
  pub client_name : IsText m.client_name

pub decode_client_hello-encode_client_hello :
    (m : ClientHello) → FitsClientHello m → (encode_client_hello m >>= decode_client_hello) ≡ ok m
unfolding encode_client_hello decode_client_hello
decode_client_hello-encode_client_hello m h =
    let pre =
      to_le 2 m.protocol_version_major
      ++ to_le 2 m.protocol_version_minor
      ++ client_type_code m.client_type ∷ [] in
    let size : ltb (length (pre ++ (to_le 2 (length m.client_name) ++ m.client_name))) 5 ≡ false =
      ground arith in
    rw
      (
        encode_str-ok pre m.client_name h.client_name,
        at_least,
        size,
        from_le-two m.protocol_version_major h.protocol_version_major,
        from_le-two m.protocol_version_minor h.protocol_version_minor,
        client_type_of-code m.client_type,
        decode_str-last pre m.client_name h.client_name,
      )
      refl

pub frame_client_hello-received :
    (m : ClientHello)
    → (serial : ℕ) → serial < 4294967296
    → FitsClientHello m
    → (frame_client_hello m serial >>= receive decode_client_hello) ≡ ok m
unfolding frame_client_hello encode_client_hello
frame_client_hello-received m serial numbered h =
    let pre =
      to_le 2 m.protocol_version_major
      ++ to_le 2 m.protocol_version_minor
      ++ client_type_code m.client_type ∷ [] in
    receive-encoded decode_client_hello msg_client_hello serial
      (pre ++ (to_le 2 (length m.client_name) ++ m.client_name)) (omega arith) numbered
      (omega (arith, h.client_name.size)) (encode_client_hello m)
      (encode_str-ok pre m.client_name h.client_name)
    ∙ decode_client_hello-encode_client_hello m h

pub record FitsServerHello (m : ServerHello) : Type 0 where
  pub protocol_version_major : m.protocol_version_major < 65536
  pub protocol_version_minor : m.protocol_version_minor < 65536
  pub server_version : IsText m.server_version

pub decode_server_hello-encode_server_hello :
    (m : ServerHello) → FitsServerHello m → (encode_server_hello m >>= decode_server_hello) ≡ ok m
unfolding encode_server_hello decode_server_hello
decode_server_hello-encode_server_hello m h =
    let pre =
      handshake_status_code m.status ∷ []
      ++ to_le 2 m.protocol_version_major
      ++ to_le 2 m.protocol_version_minor in
    let size : ltb (length (pre ++ (to_le 2 (length m.server_version) ++ m.server_version))) 5
        ≡ false =
      ground arith in
    rw
      (
        encode_str-ok pre m.server_version h.server_version,
        at_least,
        size,
        handshake_status_of-code m.status,
        from_le-two m.protocol_version_major h.protocol_version_major,
        from_le-two m.protocol_version_minor h.protocol_version_minor,
        decode_str-last pre m.server_version h.server_version,
      )
      refl

pub frame_server_hello-received :
    (m : ServerHello)
    → (serial : ℕ) → serial < 4294967296
    → FitsServerHello m
    → (frame_server_hello m serial >>= receive decode_server_hello) ≡ ok m
unfolding frame_server_hello encode_server_hello
frame_server_hello-received m serial numbered h =
    let pre =
      handshake_status_code m.status ∷ []
      ++ to_le 2 m.protocol_version_major
      ++ to_le 2 m.protocol_version_minor in
    receive-encoded decode_server_hello msg_server_hello serial
      (pre ++ (to_le 2 (length m.server_version) ++ m.server_version)) (omega arith) numbered
      (omega (arith, h.server_version.size)) (encode_server_hello m)
      (encode_str-ok pre m.server_version h.server_version)
    ∙ decode_server_hello-encode_server_hello m h

pub record FitsErrorMessage (m : ErrorMessage) : Type 0 where
  pub code : m.code < 4294967296
  pub message : IsText m.message

pub decode_error_message-encode_error_message :
    (m : ErrorMessage)
    → FitsErrorMessage m
    → (encode_error_message m >>= decode_error_message) ≡ ok m
unfolding encode_error_message decode_error_message
decode_error_message-encode_error_message m h =
    let pre = to_le 4 m.code in
    let size : ltb (length (pre ++ (to_le 2 (length m.message) ++ m.message))) 4 ≡ false =
      ground arith in
    rw
      (
        encode_str-ok pre m.message h.message,
        at_least,
        size,
        from_le-four m.code h.code,
        decode_str-last pre m.message h.message,
      )
      refl

pub frame_error_message-received :
    (m : ErrorMessage)
    → (serial : ℕ) → serial < 4294967296
    → FitsErrorMessage m
    → (frame_error_message m serial >>= receive decode_error_message) ≡ ok m
unfolding frame_error_message encode_error_message
frame_error_message-received m serial numbered h =
    let pre = to_le 4 m.code in
    receive-encoded decode_error_message msg_error serial
      (pre ++ (to_le 2 (length m.message) ++ m.message)) (omega arith) numbered
      (omega (arith, h.message.size)) (encode_error_message m)
      (encode_str-ok pre m.message h.message)
    ∙ decode_error_message-encode_error_message m h
