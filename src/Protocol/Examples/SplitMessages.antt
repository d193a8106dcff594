-- ===== src/Protocol/Examples/SplitMessages.antt =====
-- Messages about the layout of a tab, sent and received.
use oakterm.Prelude.{◌≡◌, refl, [], ◌∷◌, arith}
use oakterm.Prelude.Integers.{negsuc}
use oakterm.Protocol.Delivery.{receive}
use oakterm.Protocol.Frame.{ok, ◌>>=◌}
use oakterm.Protocol.Utf8.{is_utf8}
use oakterm.Protocol.Wire.{Text}
use oakterm.Protocol.Wire.Laws.{IsText}
use oakterm.Protocol.Wire.Enums.{SplitDirection}
use oakterm.Protocol.Messages.Splits.{
  swap_pane_response, SplitPane, encode_split_pane, decode_split_pane, SplitPaneResponse,
  decode_split_pane_response, frame_split_pane_response, ResizePane, encode_resize_pane,
  decode_resize_pane, SwapPane, encode_swap_pane, decode_swap_pane, decode_swap_pane_response,
  frame_swap_pane_response, GetLayoutTree, encode_get_layout_tree, decode_get_layout_tree,
}
use oakterm.Protocol.Messages.Splits.RoundTrip.{
  FitsSplitPane, FitsSplitPaneResponse, FitsResizePane, FitsSwapPane, FitsGetLayoutTree,
}
use oakterm.Protocol.Messages.Delivered.SplitMessages as SplitMessages

abbrev hi : Text
hi = 104 ∷ 105 ∷ 195 ∷ 169 ∷ []

hi-IsText : IsText hi
unfolding is_utf8
hi-IsText = record { size = omega arith; utf8 = refl }

abbrev split_pane_sent : SplitPane
split_pane_sent = record {
  pane_id = 70000;
  direction = SplitDirection.vertical;
  command = hi;
  cwd = hi;
}

split_pane_sent-Fits : FitsSplitPane split_pane_sent
split_pane_sent-Fits = record { pane_id = omega arith; command = hi-IsText; cwd = hi-IsText }

abbrev split_pane_response_sent : SplitPaneResponse
split_pane_response_sent = record { new_pane_id = 70000 }

split_pane_response_sent-Fits : FitsSplitPaneResponse split_pane_response_sent
split_pane_response_sent-Fits = record { new_pane_id = omega arith }

abbrev resize_pane_sent : ResizePane
resize_pane_sent = record { pane_id = 70000; neighbor_pane_id = 70000; delta = negsuc 4 }

resize_pane_sent-Fits : FitsResizePane resize_pane_sent
resize_pane_sent-Fits = record {
  pane_id = omega arith;
  neighbor_pane_id = omega arith;
  delta = omega arith;
}

abbrev swap_pane_sent : SwapPane
swap_pane_sent = record { pane_id_a = 70000; pane_id_b = 70000 }

swap_pane_sent-Fits : FitsSwapPane swap_pane_sent
swap_pane_sent-Fits = record { pane_id_a = omega arith; pane_id_b = omega arith }

abbrev get_layout_tree_sent : GetLayoutTree
get_layout_tree_sent = record { workspace_id = 70000; tab_id = 70000 }

get_layout_tree_sent-Fits : FitsGetLayoutTree get_layout_tree_sent
get_layout_tree_sent-Fits = record { workspace_id = omega arith; tab_id = omega arith }

receive-split_messages_example :
    ((encode_split_pane split_pane_sent >>= decode_split_pane) ≡ ok split_pane_sent)
    × ((frame_split_pane_response split_pane_response_sent 9 >>= receive decode_split_pane_response)
        ≡ ok split_pane_response_sent)
    × (decode_resize_pane (encode_resize_pane resize_pane_sent) ≡ ok resize_pane_sent)
    × (decode_swap_pane (encode_swap_pane swap_pane_sent) ≡ ok swap_pane_sent)
    × ((frame_swap_pane_response swap_pane_response 9 >>= receive decode_swap_pane_response)
        ≡ ok swap_pane_response)
    × (decode_get_layout_tree (encode_get_layout_tree get_layout_tree_sent)
        ≡ ok get_layout_tree_sent)
receive-split_messages_example =
    SplitMessages.receive-split_messages 9 (omega arith) split_pane_sent split_pane_response_sent
      resize_pane_sent swap_pane_sent swap_pane_response get_layout_tree_sent split_pane_sent-Fits
      split_pane_response_sent-Fits resize_pane_sent-Fits swap_pane_sent-Fits
      get_layout_tree_sent-Fits
