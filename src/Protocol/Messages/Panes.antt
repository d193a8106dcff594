-- ===== src/Protocol/Messages/Panes.antt =====
-- message.rs: the list of panes.
pub mod RoundTrip
pub mod Safety
use oakterm.Prelude.{
  zero, suc, Option, none, some, if◌then◌else◌, ◌==◌, ℕ, ◌+◌, ◌≤◌, ◌<◌, ◌≡◌, refl, sym, ◌∙◌, Bool,
  false, List, [], ◌∷◌, ◌++◌, ltb, length, arith,
}
use oakterm.Prelude.Integers.{ℤ, pos, IsSigned}
use oakterm.Protocol.Bytes.{to_le, from_le-two, from_le-four}
use oakterm.Protocol.Delivery.{receive, receive-new, receive-encoded}
use oakterm.Protocol.Frame.{
  Frame, IoResult, ErrorKind, ok, err, ◌>>=◌, byte_at, u16_at, u32_at, new,
}
use oakterm.Protocol.Kinds.{msg_list_panes_response}
use oakterm.Protocol.Wire.{
  u16_len, u32_len, slice, from_utf8, text_in, encode_each, decode_each, Text, at_least, encode_str,
  decode_str, u64_at, i16_at, i32_at, i64_at, i16_le, i32_le, i64_le, bool_byte, bool_at,
}
use oakterm.Protocol.Wire.Laws.{IsText, from_le-eight, i16-back, i32-back, i64-back, bool-back}
use oakterm.Protocol.Wire.Offsets.{
  encode_str-ok, decode_str-then, decode_str-last, encode_str-second, decode_str-second,
}
use oakterm.Protocol.Wire.Safety.{
  AnswersWith, Answers, bind-Answers, found-Answers, at_least-Answers, byte_at-found, u16_at-found,
  u32_at-found, u64_at-found, i16_at-found, i32_at-found, i64_at-found, bool_at-found,
  decode_str-Answers,
}

pub record PaneInfo : Type 0 where
  pub pane_id : ℕ
  pub title : Text
  pub cols : ℕ
  pub rows : ℕ
  pub pid : ℕ
  pub exit_code : ℤ
  pub cwd : Text

unfoldable pub encode_pane_info : PaneInfo → IoResult (List ℕ)
encode_pane_info m = u16_len m.title >>= λ tlen. u16_len m.cwd >>= λ cwdlen. ok (
    to_le 4 m.pane_id
    ++ to_le 2 tlen
    ++ (m.title
        ++ (to_le 2 m.cols
            ++ to_le 2 m.rows
            ++ to_le 4 m.pid
            ++ i32_le m.exit_code
            ++ to_le 2 cwdlen
            ++ m.cwd)))

unfoldable pub decode_pane_info : List ℕ → IoResult (PaneInfo × ℕ)
decode_pane_info bytes = at_least 6 bytes (
    u32_at bytes 0 >>= λ pane_id. u16_at bytes 4 >>= λ tlen. at_least (6 + tlen + 12) bytes (
      slice bytes 6 tlen >>= from_utf8 >>= λ title. u16_at bytes (6 + tlen) >>= λ cols.
      u16_at bytes (6 + tlen + 2) >>= λ rows. u32_at bytes (6 + tlen + 4) >>= λ pid.
      i32_at bytes (6 + tlen + 8) >>= λ exit_code. at_least (6 + tlen + 12 + 2) bytes (
        u16_at bytes (6 + tlen + 12) >>= λ cwdlen.
        text_in bytes (6 + tlen + 12 + 2) cwdlen >>= λ cwd. ok (
          record {
            pane_id = pane_id;
            title = title;
            cols = cols;
            rows = rows;
            pid = pid;
            exit_code = exit_code;
            cwd = cwd;
          },
          6 + tlen + 12 + 2 + cwdlen,
        ))))

pub record ListPanesResponse : Type 0 where
  pub panes : List PaneInfo

unfoldable pub encode_list_panes_response : ListPanesResponse → IoResult (List ℕ)
encode_list_panes_response m = u16_len m.panes >>= λ count.
    encode_each encode_pane_info m.panes >>= λ listed. ok (to_le 2 count ++ listed)

unfoldable pub decode_list_panes_response : List ℕ → IoResult ListPanesResponse
decode_list_panes_response bytes = at_least 2 bytes (
    u16_at bytes 0 >>= λ count.
    decode_each decode_pane_info count bytes 2 >>= λ listed. ok (record { panes = listed.0 }))

unfoldable pub frame_list_panes_response : ListPanesResponse → ℕ → IoResult Frame
frame_list_panes_response m serial =
    encode_list_panes_response m >>= new msg_list_panes_response serial
