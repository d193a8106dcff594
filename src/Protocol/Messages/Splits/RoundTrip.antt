-- ===== src/Protocol/Messages/Splits/RoundTrip.antt =====
-- message.rs: what was sent is what is decoded.
use oakterm.Prelude.{ℕ, ◌<◌, ◌≡◌, refl, ◌∙◌, false, [], ◌∷◌, ◌++◌, ltb, length, arith}
use oakterm.Prelude.Integers.{IsSigned}
use oakterm.Protocol.Bytes.{to_le, from_le-four}
use oakterm.Protocol.Delivery.{receive, receive-new}
use oakterm.Protocol.Frame.{ok, ◌>>=◌}
use oakterm.Protocol.Kinds.{msg_split_pane_response, msg_swap_pane_response}
use oakterm.Protocol.Wire.{at_least}
use oakterm.Protocol.Wire.Laws.{IsText, i16-back}
use oakterm.Protocol.Wire.Offsets.{
  encode_str-ok, decode_str-then, encode_str-second, decode_str-second,
}
use oakterm.Protocol.Wire.Enums.{split_direction_code, split_direction_of-code}
use oakterm.Protocol.Messages.Splits.{
  SplitPane, encode_split_pane, decode_split_pane, SplitPaneResponse, encode_split_pane_response,
  decode_split_pane_response, frame_split_pane_response, ResizePane, encode_resize_pane,
  decode_resize_pane, SwapPane, encode_swap_pane, decode_swap_pane, SwapPaneResponse,
  decode_swap_pane_response, frame_swap_pane_response, GetLayoutTree, encode_get_layout_tree,
  decode_get_layout_tree, swap_pane_response,
}

pub record FitsSplitPane (m : SplitPane) : Type 0 where
  pub pane_id : m.pane_id < 4294967296
  pub command : IsText m.command
  pub cwd : IsText m.cwd

pub decode_split_pane-encode_split_pane :
    (m : SplitPane) → FitsSplitPane m → (encode_split_pane m >>= decode_split_pane) ≡ ok m
unfolding encode_split_pane decode_split_pane
decode_split_pane-encode_split_pane m h =
    let pre = to_le 4 m.pane_id ++ split_direction_code m.direction ∷ [] in
    let both =
      pre ++ (to_le 2 (length m.command) ++ (m.command ++ (to_le 2 (length m.cwd) ++ m.cwd))) in
    let size : ltb (length both) 5 ≡ false = ground arith in
    rw
      (
        encode_str-ok pre m.command h.command,
        encode_str-second pre m.command m.cwd h.cwd,
        at_least,
        size,
        from_le-four m.pane_id h.pane_id,
        split_direction_of-code m.direction,
        decode_str-then pre m.command h.command (to_le 2 (length m.cwd) ++ m.cwd),
        decode_str-second pre m.command m.cwd h.cwd,
      )
      refl

pub record FitsSplitPaneResponse (m : SplitPaneResponse) : Type 0 where
  pub new_pane_id : m.new_pane_id < 4294967296

pub decode_split_pane_response-encode_split_pane_response :
    (m : SplitPaneResponse)
    → FitsSplitPaneResponse m
    → decode_split_pane_response (encode_split_pane_response m) ≡ ok m
unfolding encode_split_pane_response decode_split_pane_response
decode_split_pane_response-encode_split_pane_response m h =
    rw (from_le-four m.new_pane_id h.new_pane_id) refl

pub frame_split_pane_response-received :
    (m : SplitPaneResponse)
    → (serial : ℕ) → serial < 4294967296
    → FitsSplitPaneResponse m
    → (frame_split_pane_response m serial >>= receive decode_split_pane_response) ≡ ok m
unfolding frame_split_pane_response encode_split_pane_response
frame_split_pane_response-received m serial numbered h =
    receive-new decode_split_pane_response msg_split_pane_response serial
      (encode_split_pane_response m) (omega arith) numbered (omega arith)
    ∙ decode_split_pane_response-encode_split_pane_response m h

pub record FitsResizePane (m : ResizePane) : Type 0 where
  pub pane_id : m.pane_id < 4294967296
  pub neighbor_pane_id : m.neighbor_pane_id < 4294967296
  pub delta : IsSigned 32768 m.delta

pub decode_resize_pane-encode_resize_pane :
    (m : ResizePane) → FitsResizePane m → decode_resize_pane (encode_resize_pane m) ≡ ok m
unfolding encode_resize_pane decode_resize_pane
decode_resize_pane-encode_resize_pane m h =
    rw
      (
        from_le-four m.pane_id h.pane_id,
        from_le-four m.neighbor_pane_id h.neighbor_pane_id,
        i16-back m.delta h.delta,
      )
      refl

pub record FitsSwapPane (m : SwapPane) : Type 0 where
  pub pane_id_a : m.pane_id_a < 4294967296
  pub pane_id_b : m.pane_id_b < 4294967296

pub decode_swap_pane-encode_swap_pane :
    (m : SwapPane) → FitsSwapPane m → decode_swap_pane (encode_swap_pane m) ≡ ok m
unfolding encode_swap_pane decode_swap_pane
decode_swap_pane-encode_swap_pane m h =
    rw (from_le-four m.pane_id_a h.pane_id_a, from_le-four m.pane_id_b h.pane_id_b) refl

pub frame_swap_pane_response-received :
    (m : SwapPaneResponse)
    → (serial : ℕ) → serial < 4294967296
    → (frame_swap_pane_response m serial >>= receive decode_swap_pane_response) ≡ ok m
unfolding frame_swap_pane_response decode_swap_pane_response
frame_swap_pane_response-received swap_pane_response serial numbered =
    receive-new decode_swap_pane_response msg_swap_pane_response serial [] (omega arith) numbered
      (omega arith)

pub record FitsGetLayoutTree (m : GetLayoutTree) : Type 0 where
  pub workspace_id : m.workspace_id < 4294967296
  pub tab_id : m.tab_id < 4294967296

pub decode_get_layout_tree-encode_get_layout_tree :
    (m : GetLayoutTree)
    → FitsGetLayoutTree m
    → decode_get_layout_tree (encode_get_layout_tree m) ≡ ok m
unfolding encode_get_layout_tree decode_get_layout_tree
decode_get_layout_tree-encode_get_layout_tree m h =
    rw (from_le-four m.workspace_id h.workspace_id, from_le-four m.tab_id h.tab_id) refl
