-- ===== src/Protocol/Messages/Splits.antt =====
-- message.rs: the messages that change the layout of a tab.
pub mod RoundTrip
pub mod Safety
use oakterm.Prelude.{
  ℕ, ◌+◌, ◌≤◌, ◌<◌, ◌≡◌, refl, sym, ◌∙◌, Bool, false, List, [], ◌∷◌, ◌++◌, ltb, length, arith,
}
use oakterm.Prelude.Integers.{ℤ, IsSigned}
use oakterm.Protocol.Bytes.{to_le, from_le-two, from_le-four}
use oakterm.Protocol.Delivery.{receive, receive-new, receive-encoded}
use oakterm.Protocol.Frame.{Frame, IoResult, ok, ◌>>=◌, byte_at, u16_at, u32_at, new}
use oakterm.Protocol.Kinds.{msg_split_pane_response, msg_swap_pane_response}
use oakterm.Protocol.Wire.{
  Text, at_least, encode_str, decode_str, u64_at, i16_at, i32_at, i64_at, i16_le, i32_le, i64_le,
  bool_byte, bool_at,
}
use oakterm.Protocol.Wire.Laws.{IsText, from_le-eight, i16-back, i32-back, i64-back, bool-back}
use oakterm.Protocol.Wire.Offsets.{
  encode_str-ok, decode_str-then, decode_str-last, encode_str-second, decode_str-second,
}
use oakterm.Protocol.Wire.Safety.{
  AnswersWith, Answers, bind-Answers, found-Answers, at_least-Answers, byte_at-found, u16_at-found,
  u32_at-found, u64_at-found, i16_at-found, i32_at-found, i64_at-found, bool_at-found,
  decode_str-Answers,
}
use oakterm.Protocol.Wire.Enums.{
  SplitDirection, split_direction_code, split_direction_of, split_direction_of-code,
}
use oakterm.Protocol.Wire.Enums.Answers.{split_direction_of-Answers}

pub record SplitPane : Type 0 where
  pub pane_id : ℕ
  pub direction : SplitDirection
  pub command : Text
  pub cwd : Text

unfoldable pub encode_split_pane : SplitPane → IoResult (List ℕ)
encode_split_pane m =
    encode_str (to_le 4 m.pane_id ++ split_direction_code m.direction ∷ []) m.command >>= λ buf.
    encode_str buf m.cwd

unfoldable pub decode_split_pane : List ℕ → IoResult SplitPane
decode_split_pane bytes = at_least 5 bytes (
    u32_at bytes 0 >>= λ pane_id. byte_at bytes 4 >>= split_direction_of >>= λ direction.
    decode_str bytes 5 >>= λ command. decode_str bytes (5 + command.1) >>= λ cwd.
    ok (record { pane_id = pane_id; direction = direction; command = command.0; cwd = cwd.0 }))

pub record SplitPaneResponse : Type 0 where
  pub new_pane_id : ℕ

unfoldable pub encode_split_pane_response : SplitPaneResponse → List ℕ
encode_split_pane_response m = to_le 4 m.new_pane_id

unfoldable pub decode_split_pane_response : List ℕ → IoResult SplitPaneResponse
decode_split_pane_response bytes =
    at_least 4 bytes (u32_at bytes 0 >>= λ new_pane_id. ok (record { new_pane_id = new_pane_id }))

unfoldable pub frame_split_pane_response : SplitPaneResponse → ℕ → IoResult Frame
frame_split_pane_response m serial =
    new msg_split_pane_response serial (encode_split_pane_response m)

pub record ResizePane : Type 0 where
  pub pane_id : ℕ
  pub neighbor_pane_id : ℕ
  pub delta : ℤ

unfoldable pub encode_resize_pane : ResizePane → List ℕ
encode_resize_pane m = to_le 4 m.pane_id ++ to_le 4 m.neighbor_pane_id ++ i16_le m.delta

unfoldable pub decode_resize_pane : List ℕ → IoResult ResizePane
decode_resize_pane bytes = at_least 10 bytes (
    u32_at bytes 0 >>= λ pane_id. u32_at bytes 4 >>= λ neighbor_pane_id. i16_at bytes 8 >>= λ delta.
    ok (record { pane_id = pane_id; neighbor_pane_id = neighbor_pane_id; delta = delta }))

pub record SwapPane : Type 0 where
  pub pane_id_a : ℕ
  pub pane_id_b : ℕ

unfoldable pub encode_swap_pane : SwapPane → List ℕ
encode_swap_pane m = to_le 4 m.pane_id_a ++ to_le 4 m.pane_id_b

unfoldable pub decode_swap_pane : List ℕ → IoResult SwapPane
decode_swap_pane bytes = at_least 8 bytes (
    u32_at bytes 0 >>= λ pane_id_a.
    u32_at bytes 4 >>= λ pane_id_b. ok (record { pane_id_a = pane_id_a; pane_id_b = pane_id_b }))

pub data SwapPaneResponse : Type 0 where
  swap_pane_response : SwapPaneResponse

unfoldable pub decode_swap_pane_response : List ℕ → IoResult SwapPaneResponse
decode_swap_pane_response bytes = ok swap_pane_response

unfoldable pub frame_swap_pane_response : SwapPaneResponse → ℕ → IoResult Frame
frame_swap_pane_response m serial = new msg_swap_pane_response serial []

pub record GetLayoutTree : Type 0 where
  pub workspace_id : ℕ
  pub tab_id : ℕ

unfoldable pub encode_get_layout_tree : GetLayoutTree → List ℕ
encode_get_layout_tree m = to_le 4 m.workspace_id ++ to_le 4 m.tab_id

unfoldable pub decode_get_layout_tree : List ℕ → IoResult GetLayoutTree
decode_get_layout_tree bytes = at_least 8 bytes (
    u32_at bytes 0 >>= λ workspace_id.
    u32_at bytes 4 >>= λ tab_id. ok (record { workspace_id = workspace_id; tab_id = tab_id }))
