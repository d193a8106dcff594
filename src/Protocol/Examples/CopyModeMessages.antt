-- ===== src/Protocol/Examples/CopyModeMessages.antt =====
-- Messages of copy mode with a fixed size, sent and received.
use oakterm.Prelude.{◌≡◌, arith}
use oakterm.Prelude.Integers.{negsuc}
use oakterm.Protocol.Delivery.{receive}
use oakterm.Protocol.Frame.{ok, ◌>>=◌}
use oakterm.Protocol.Wire.Enums.{CopySelectionType}
use oakterm.Protocol.Messages.CopyMode.{
  EnterCopyMode, decode_enter_copy_mode, frame_enter_copy_mode, EnterCopyModeAck,
  decode_enter_copy_mode_ack, frame_enter_copy_mode_ack, ExitCopyMode, decode_exit_copy_mode,
  frame_exit_copy_mode, CopyModeInvalidated, decode_copy_mode_invalidated,
  frame_copy_mode_invalidated, YankSelection, decode_yank_selection, frame_yank_selection,
}
use oakterm.Protocol.Messages.CopyMode.RoundTrip.{
  FitsEnterCopyMode, FitsEnterCopyModeAck, FitsExitCopyMode, FitsCopyModeInvalidated,
  FitsYankSelection,
}
use oakterm.Protocol.Messages.Delivered.CopyModeMessages as CopyModeMessages

abbrev enter_copy_mode_sent : EnterCopyMode
enter_copy_mode_sent = record { pane_id = 70000; base = 5000000000 }

enter_copy_mode_sent-Fits : FitsEnterCopyMode enter_copy_mode_sent
enter_copy_mode_sent-Fits = record { pane_id = omega arith; base = omega arith }

abbrev enter_copy_mode_ack_sent : EnterCopyModeAck
enter_copy_mode_ack_sent = record { pane_id = 70000; base = 5000000000 }

enter_copy_mode_ack_sent-Fits : FitsEnterCopyModeAck enter_copy_mode_ack_sent
enter_copy_mode_ack_sent-Fits = record { pane_id = omega arith; base = omega arith }

abbrev exit_copy_mode_sent : ExitCopyMode
exit_copy_mode_sent = record { pane_id = 70000 }

exit_copy_mode_sent-Fits : FitsExitCopyMode exit_copy_mode_sent
exit_copy_mode_sent-Fits = record { pane_id = omega arith }

abbrev copy_mode_invalidated_sent : CopyModeInvalidated
copy_mode_invalidated_sent = record { pane_id = 70000 }

copy_mode_invalidated_sent-Fits : FitsCopyModeInvalidated copy_mode_invalidated_sent
copy_mode_invalidated_sent-Fits = record { pane_id = omega arith }

abbrev yank_selection_sent : YankSelection
yank_selection_sent = record {
  pane_id = 70000;
  start_row = negsuc 299;
  start_col = 300;
  end_row = negsuc 299;
  end_col = 300;
  selection_type = CopySelectionType.block;
}

yank_selection_sent-Fits : FitsYankSelection yank_selection_sent
yank_selection_sent-Fits = record {
  pane_id = omega arith;
  start_row = omega arith;
  start_col = omega arith;
  end_row = omega arith;
  end_col = omega arith;
}

receive-copy_mode_messages_example :
    ((frame_enter_copy_mode enter_copy_mode_sent 9 >>= receive decode_enter_copy_mode)
      ≡ ok enter_copy_mode_sent)
    × ((frame_enter_copy_mode_ack enter_copy_mode_ack_sent 9 >>= receive decode_enter_copy_mode_ack)
        ≡ ok enter_copy_mode_ack_sent)
    × ((frame_exit_copy_mode exit_copy_mode_sent >>= receive decode_exit_copy_mode)
        ≡ ok exit_copy_mode_sent)
    × ((frame_copy_mode_invalidated copy_mode_invalidated_sent
          >>= receive decode_copy_mode_invalidated)
        ≡ ok copy_mode_invalidated_sent)
    × ((frame_yank_selection yank_selection_sent 9 >>= receive decode_yank_selection)
        ≡ ok yank_selection_sent)
receive-copy_mode_messages_example =
    CopyModeMessages.receive-copy_mode_messages 9 (omega arith) enter_copy_mode_sent
      enter_copy_mode_ack_sent exit_copy_mode_sent copy_mode_invalidated_sent yank_selection_sent
      enter_copy_mode_sent-Fits enter_copy_mode_ack_sent-Fits exit_copy_mode_sent-Fits
      copy_mode_invalidated_sent-Fits yank_selection_sent-Fits
