-- ===== src/Protocol/Messages/Delivered/SplitMessages.antt =====
-- message.rs, input.rs, render.rs: what was sent is received, for the messages about the layout of a tab.
use oakterm.Prelude.{ℕ, ◌<◌, ◌≡◌}
use oakterm.Protocol.Delivery.{receive}
use oakterm.Protocol.Frame.{ok, ◌>>=◌}
use oakterm.Protocol.Messages.Splits.{
  SplitPane, encode_split_pane, decode_split_pane, SplitPaneResponse, decode_split_pane_response,
  frame_split_pane_response, ResizePane, encode_resize_pane, decode_resize_pane, SwapPane,
  encode_swap_pane, decode_swap_pane, SwapPaneResponse, decode_swap_pane_response,
  frame_swap_pane_response, GetLayoutTree, encode_get_layout_tree, decode_get_layout_tree,
}
use oakterm.Protocol.Messages.Splits.RoundTrip.{
  FitsSplitPane, FitsSplitPaneResponse, FitsResizePane, FitsSwapPane, FitsGetLayoutTree,
  decode_split_pane-encode_split_pane, frame_split_pane_response-received,
  decode_resize_pane-encode_resize_pane, decode_swap_pane-encode_swap_pane,
  frame_swap_pane_response-received, decode_get_layout_tree-encode_get_layout_tree,
}

-- Each message about the layout of a tab whose fields fit their integer types, and whose texts are
-- UTF-8 and shorter than 65,536 bytes, is what the receiver decodes.
pub receive-split_messages :
    (serial : ℕ)
    → serial < 4294967296
    → (a : SplitPane) (b : SplitPaneResponse) (c : ResizePane) (d : SwapPane) (e : SwapPaneResponse)
      (f : GetLayoutTree)
    → FitsSplitPane a
    → FitsSplitPaneResponse b
    → FitsResizePane c
    → FitsSwapPane d
    → FitsGetLayoutTree f
    → ((encode_split_pane a >>= decode_split_pane) ≡ ok a)
      × ((frame_split_pane_response b serial >>= receive decode_split_pane_response) ≡ ok b)
      × (decode_resize_pane (encode_resize_pane c) ≡ ok c)
      × (decode_swap_pane (encode_swap_pane d) ≡ ok d)
      × ((frame_swap_pane_response e serial >>= receive decode_swap_pane_response) ≡ ok e)
      × (decode_get_layout_tree (encode_get_layout_tree f) ≡ ok f)
receive-split_messages serial numbered a b c d e f ha hb hc hd hf = (
  decode_split_pane-encode_split_pane a ha,
  frame_split_pane_response-received b serial numbered hb,
  decode_resize_pane-encode_resize_pane c hc,
  decode_swap_pane-encode_swap_pane d hd,
  frame_swap_pane_response-received e serial numbered,
  decode_get_layout_tree-encode_get_layout_tree f hf,
)
