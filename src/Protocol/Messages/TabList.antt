-- ===== src/Protocol/Messages/TabList.antt =====
-- message.rs: the tabs of a workspace.
pub mod RoundTrip
pub mod Safety
use oakterm.Prelude.{
  zero, suc, Option, none, some, if◌then◌else◌, ◌==◌, ℕ, ◌+◌, ◌≤◌, ◌<◌, ◌≡◌, refl, sym, ◌∙◌, Bool,
  false, List, [], ◌∷◌, ◌++◌, ltb, length, arith,
}
use oakterm.Prelude.Integers.{ℤ, pos, IsSigned}
use oakterm.Protocol.Bytes.{to_le, from_le-two, from_le-four}
use oakterm.Protocol.Delivery.{receive, receive-new, receive-encoded}
use oakterm.Protocol.Frame.{
  Frame, IoResult, ErrorKind, ok, err, ◌>>=◌, byte_at, u16_at, u32_at, new,
}
use oakterm.Protocol.Kinds.{msg_tab_list}
use oakterm.Protocol.Wire.{
  u16_len, u32_len, slice, from_utf8, text_in, encode_each, decode_each, Text, at_least, encode_str,
  decode_str, u64_at, i16_at, i32_at, i64_at, i16_le, i32_le, i64_le, bool_byte, bool_at,
}
use oakterm.Protocol.Wire.Laws.{IsText, from_le-eight, i16-back, i32-back, i64-back, bool-back}
use oakterm.Protocol.Wire.Offsets.{
  encode_str-ok, decode_str-then, decode_str-last, encode_str-second, decode_str-second,
}
use oakterm.Protocol.Wire.Safety.{
  AnswersWith, Answers, bind-Answers, found-Answers, at_least-Answers, byte_at-found, u16_at-found,
  u32_at-found, u64_at-found, i16_at-found, i32_at-found, i64_at-found, bool_at-found,
  decode_str-Answers,
}

pub record TabEntry : Type 0 where
  pub tab_id : ℕ
  pub focused_pane : ℕ
  pub name : Text

unfoldable pub encode_tab_entry : TabEntry → IoResult (List ℕ)
encode_tab_entry m = u16_len m.name >>= λ nlen.
    ok (to_le 4 m.tab_id ++ to_le 4 m.focused_pane ++ to_le 2 nlen ++ m.name)

unfoldable pub decode_tab_entry : List ℕ → IoResult (TabEntry × ℕ)
decode_tab_entry bytes = at_least 10 bytes (
    u32_at bytes 0 >>= λ tab_id. u32_at bytes 4 >>= λ focused_pane. u16_at bytes 8 >>= λ nlen.
    text_in bytes 10 nlen >>= λ name.
    ok (record { tab_id = tab_id; focused_pane = focused_pane; name = name }, 10 + nlen))

pub record TabList : Type 0 where
  pub workspace_id : ℕ
  pub workspace_name : Text
  pub active_tab : ℕ
  pub tabs : List TabEntry

unfoldable pub encode_tab_list : TabList → IoResult (List ℕ)
encode_tab_list m = u16_len m.workspace_name >>= λ wlen. u16_len m.tabs >>= λ count.
    encode_each encode_tab_entry m.tabs >>= λ listed. ok (
      to_le 4 m.workspace_id
      ++ to_le 2 wlen
      ++ (m.workspace_name ++ (to_le 4 m.active_tab ++ to_le 2 count ++ listed)))

unfoldable pub decode_tab_list : List ℕ → IoResult TabList
decode_tab_list bytes = at_least 6 bytes (
    u32_at bytes 0 >>= λ workspace_id. u16_at bytes 4 >>= λ wlen. at_least (6 + wlen + 6) bytes (
      slice bytes 6 wlen >>= from_utf8 >>= λ workspace_name.
      u32_at bytes (6 + wlen) >>= λ active_tab. u16_at bytes (6 + wlen + 4) >>= λ count.
      decode_each decode_tab_entry count bytes (6 + wlen + 6) >>= λ listed. ok (record {
        workspace_id = workspace_id;
        workspace_name = workspace_name;
        active_tab = active_tab;
        tabs = listed.0;
      })))

unfoldable pub frame_tab_list : TabList → ℕ → IoResult Frame
frame_tab_list m serial = encode_tab_list m >>= new msg_tab_list serial
