-- ===== src/Protocol/Messages/Prefixed.antt =====
-- message.rs, input.rs: payloads with lengths in front of their bytes.
pub mod RoundTrip
pub mod Safety
use oakterm.Prelude.{
  zero, suc, Option, none, some, if◌then◌else◌, ◌==◌, ℕ, ◌+◌, ◌≤◌, ◌<◌, ◌≡◌, refl, sym, ◌∙◌, Bool,
  false, List, [], ◌∷◌, ◌++◌, ltb, length, arith,
}
use oakterm.Prelude.Integers.{ℤ, pos, IsSigned}
use oakterm.Protocol.Bytes.{to_le, from_le-two, from_le-four}
use oakterm.Protocol.Delivery.{receive, receive-new, receive-encoded}
use oakterm.Protocol.Frame.{
  Frame, IoResult, ErrorKind, ok, err, ◌>>=◌, byte_at, u16_at, u32_at, new,
}
use oakterm.Protocol.Kinds.{msg_key_input, msg_yank_response}
use oakterm.Protocol.Wire.{
  u16_len, u32_len, slice, from_utf8, text_in, encode_each, decode_each, Text, at_least, encode_str,
  decode_str, u64_at, i16_at, i32_at, i64_at, i16_le, i32_le, i64_le, bool_byte, bool_at,
}
use oakterm.Protocol.Wire.Laws.{IsText, from_le-eight, i16-back, i32-back, i64-back, bool-back}
use oakterm.Protocol.Wire.Offsets.{
  encode_str-ok, decode_str-then, decode_str-last, encode_str-second, decode_str-second,
}
use oakterm.Protocol.Wire.Safety.{
  AnswersWith, Answers, bind-Answers, found-Answers, at_least-Answers, byte_at-found, u16_at-found,
  u32_at-found, u64_at-found, i16_at-found, i32_at-found, i64_at-found, bool_at-found,
  decode_str-Answers,
}

pub record CreatePane : Type 0 where
  pub command : Text
  pub cwd : Text

unfoldable pub encode_create_pane : CreatePane → IoResult (List ℕ)
encode_create_pane m = u16_len m.command >>= λ cmd_len.
    u16_len m.cwd >>= λ cwd_len. ok (to_le 2 cmd_len ++ (m.command ++ (to_le 2 cwd_len ++ m.cwd)))

unfoldable pub decode_create_pane : List ℕ → IoResult CreatePane
decode_create_pane bytes = at_least 4 bytes (
    u16_at bytes 0 >>= λ cmd_len. at_least (2 + cmd_len + 2) bytes (
      slice bytes 2 cmd_len >>= from_utf8 >>= λ command. u16_at bytes (2 + cmd_len) >>= λ cwd_len.
      text_in bytes (2 + cmd_len + 2) cwd_len >>= λ cwd.
      ok (record { command = command; cwd = cwd })))

pub record YankResponse : Type 0 where
  pub text : Text

unfoldable pub encode_yank_response : YankResponse → IoResult (List ℕ)
encode_yank_response m = u32_len m.text >>= λ len. ok (to_le 4 len ++ m.text)

-- `4usize.checked_add(len)` does not overflow for a `u32`.
unfoldable pub decode_yank_response : List ℕ → IoResult YankResponse
decode_yank_response bytes =
    at_least 4 bytes
      (u32_at bytes 0 >>= λ len. text_in bytes 4 len >>= λ text. ok (record { text = text }))

unfoldable pub frame_yank_response : YankResponse → ℕ → IoResult Frame
frame_yank_response m serial = encode_yank_response m >>= new msg_yank_response serial

pub record KeyInput : Type 0 where
  pub pane_id : ℕ
  pub key_data : List ℕ

unfoldable pub encode_key_input : KeyInput → IoResult (List ℕ)
encode_key_input m =
    u16_len m.key_data >>= λ len. ok (to_le 4 m.pane_id ++ to_le 2 len ++ m.key_data)

unfoldable pub decode_key_input : List ℕ → IoResult KeyInput
decode_key_input bytes = at_least 6 bytes (
    u32_at bytes 0 >>= λ pane_id. u16_at bytes 4 >>= λ key_data_len.
    at_least (6 + key_data_len) bytes (
      slice bytes 6 key_data_len >>= λ key_data.
      ok (record { pane_id = pane_id; key_data = key_data })))

unfoldable pub frame_key_input : KeyInput → IoResult Frame
frame_key_input m = encode_key_input m >>= new msg_key_input 0
