-- ===== src/Protocol/Messages/Delivered/CopyModeMessages.antt =====
-- message.rs, input.rs, render.rs: what was sent is received, for the messages of copy mode with a fixed size.
use oakterm.Prelude.{ℕ, ◌<◌, ◌≡◌}
use oakterm.Protocol.Delivery.{receive}
use oakterm.Protocol.Frame.{ok, ◌>>=◌}
use oakterm.Protocol.Messages.CopyMode.{
  EnterCopyMode, decode_enter_copy_mode, frame_enter_copy_mode, EnterCopyModeAck,
  decode_enter_copy_mode_ack, frame_enter_copy_mode_ack, ExitCopyMode, decode_exit_copy_mode,
  frame_exit_copy_mode, CopyModeInvalidated, decode_copy_mode_invalidated,
  frame_copy_mode_invalidated, YankSelection, decode_yank_selection, frame_yank_selection,
}
use oakterm.Protocol.Messages.CopyMode.RoundTrip.{
  FitsEnterCopyMode, FitsEnterCopyModeAck, FitsExitCopyMode, FitsCopyModeInvalidated,
  FitsYankSelection, frame_enter_copy_mode-received, frame_enter_copy_mode_ack-received,
  frame_exit_copy_mode-received, frame_copy_mode_invalidated-received,
  frame_yank_selection-received,
}

-- Each message of copy mode with a fixed size whose fields fit their integer types, and whose
-- texts are UTF-8 and shorter than 65,536 bytes, is what the receiver decodes.
pub receive-copy_mode_messages :
    (serial : ℕ)
    → serial < 4294967296
    → (a : EnterCopyMode) (b : EnterCopyModeAck) (c : ExitCopyMode) (d : CopyModeInvalidated)
      (e : YankSelection)
    → FitsEnterCopyMode a
    → FitsEnterCopyModeAck b
    → FitsExitCopyMode c
    → FitsCopyModeInvalidated d
    → FitsYankSelection e
    → ((frame_enter_copy_mode a serial >>= receive decode_enter_copy_mode) ≡ ok a)
      × ((frame_enter_copy_mode_ack b serial >>= receive decode_enter_copy_mode_ack) ≡ ok b)
      × ((frame_exit_copy_mode c >>= receive decode_exit_copy_mode) ≡ ok c)
      × ((frame_copy_mode_invalidated d >>= receive decode_copy_mode_invalidated) ≡ ok d)
      × ((frame_yank_selection e serial >>= receive decode_yank_selection) ≡ ok e)
receive-copy_mode_messages serial numbered a b c d e ha hb hc hd he = (
  frame_enter_copy_mode-received a serial numbered ha,
  frame_enter_copy_mode_ack-received b serial numbered hb,
  frame_exit_copy_mode-received c hc,
  frame_copy_mode_invalidated-received d hd,
  frame_yank_selection-received e serial numbered he,
)
