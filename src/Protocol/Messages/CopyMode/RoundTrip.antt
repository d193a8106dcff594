-- ===== src/Protocol/Messages/CopyMode/RoundTrip.antt =====
-- message.rs: what was sent is what is decoded.
use oakterm.Prelude.{ℕ, ◌<◌, ◌≡◌, refl, ◌∙◌, arith}
use oakterm.Prelude.Integers.{IsSigned}
use oakterm.Protocol.Bytes.{from_le-two, from_le-four}
use oakterm.Protocol.Delivery.{receive, receive-new}
use oakterm.Protocol.Frame.{ok, ◌>>=◌}
use oakterm.Protocol.Kinds.{
  msg_enter_copy_mode, msg_enter_copy_mode_ack, msg_exit_copy_mode, msg_copy_mode_invalidated,
  msg_yank_selection,
}
use oakterm.Protocol.Wire.Laws.{from_le-eight, i64-back}
use oakterm.Protocol.Wire.Enums.{copy_selection_type_of-code}
use oakterm.Protocol.Messages.CopyMode.{
  EnterCopyMode, encode_enter_copy_mode, decode_enter_copy_mode, frame_enter_copy_mode,
  EnterCopyModeAck, encode_enter_copy_mode_ack, decode_enter_copy_mode_ack,
  frame_enter_copy_mode_ack, ExitCopyMode, encode_exit_copy_mode, decode_exit_copy_mode,
  frame_exit_copy_mode, CopyModeInvalidated, encode_copy_mode_invalidated,
  decode_copy_mode_invalidated, frame_copy_mode_invalidated, YankSelection, encode_yank_selection,
  decode_yank_selection, frame_yank_selection,
}

pub record FitsEnterCopyMode (m : EnterCopyMode) : Type 0 where
  pub pane_id : m.pane_id < 4294967296
  pub base : m.base < 18446744073709551616

pub decode_enter_copy_mode-encode_enter_copy_mode :
    (m : EnterCopyMode)
    → FitsEnterCopyMode m
    → decode_enter_copy_mode (encode_enter_copy_mode m) ≡ ok m
unfolding encode_enter_copy_mode decode_enter_copy_mode
decode_enter_copy_mode-encode_enter_copy_mode m h =
    rw (from_le-four m.pane_id h.pane_id, from_le-eight m.base h.base) refl

pub frame_enter_copy_mode-received :
    (m : EnterCopyMode)
    → (serial : ℕ) → serial < 4294967296
    → FitsEnterCopyMode m
    → (frame_enter_copy_mode m serial >>= receive decode_enter_copy_mode) ≡ ok m
unfolding frame_enter_copy_mode encode_enter_copy_mode
frame_enter_copy_mode-received m serial numbered h =
    receive-new decode_enter_copy_mode msg_enter_copy_mode serial (encode_enter_copy_mode m)
      (omega arith) numbered (omega arith)
    ∙ decode_enter_copy_mode-encode_enter_copy_mode m h

pub record FitsEnterCopyModeAck (m : EnterCopyModeAck) : Type 0 where
  pub pane_id : m.pane_id < 4294967296
  pub base : m.base < 18446744073709551616

pub decode_enter_copy_mode_ack-encode_enter_copy_mode_ack :
    (m : EnterCopyModeAck)
    → FitsEnterCopyModeAck m
    → decode_enter_copy_mode_ack (encode_enter_copy_mode_ack m) ≡ ok m
unfolding encode_enter_copy_mode_ack decode_enter_copy_mode_ack
decode_enter_copy_mode_ack-encode_enter_copy_mode_ack m h =
    rw (from_le-four m.pane_id h.pane_id, from_le-eight m.base h.base) refl

pub frame_enter_copy_mode_ack-received :
    (m : EnterCopyModeAck)
    → (serial : ℕ) → serial < 4294967296
    → FitsEnterCopyModeAck m
    → (frame_enter_copy_mode_ack m serial >>= receive decode_enter_copy_mode_ack) ≡ ok m
unfolding frame_enter_copy_mode_ack encode_enter_copy_mode_ack
frame_enter_copy_mode_ack-received m serial numbered h =
    receive-new decode_enter_copy_mode_ack msg_enter_copy_mode_ack serial
      (encode_enter_copy_mode_ack m) (omega arith) numbered (omega arith)
    ∙ decode_enter_copy_mode_ack-encode_enter_copy_mode_ack m h

pub record FitsExitCopyMode (m : ExitCopyMode) : Type 0 where
  pub pane_id : m.pane_id < 4294967296

pub decode_exit_copy_mode-encode_exit_copy_mode :
    (m : ExitCopyMode) → FitsExitCopyMode m → decode_exit_copy_mode (encode_exit_copy_mode m) ≡ ok m
unfolding encode_exit_copy_mode decode_exit_copy_mode
decode_exit_copy_mode-encode_exit_copy_mode m h = rw (from_le-four m.pane_id h.pane_id) refl

pub frame_exit_copy_mode-received :
    (m : ExitCopyMode)
    → FitsExitCopyMode m
    → (frame_exit_copy_mode m >>= receive decode_exit_copy_mode) ≡ ok m
unfolding frame_exit_copy_mode encode_exit_copy_mode
frame_exit_copy_mode-received m h =
    receive-new decode_exit_copy_mode msg_exit_copy_mode 0 (encode_exit_copy_mode m) (omega arith)
      (omega arith) (omega arith)
    ∙ decode_exit_copy_mode-encode_exit_copy_mode m h

pub record FitsCopyModeInvalidated (m : CopyModeInvalidated) : Type 0 where
  pub pane_id : m.pane_id < 4294967296

pub decode_copy_mode_invalidated-encode_copy_mode_invalidated :
    (m : CopyModeInvalidated)
    → FitsCopyModeInvalidated m
    → decode_copy_mode_invalidated (encode_copy_mode_invalidated m) ≡ ok m
unfolding encode_copy_mode_invalidated decode_copy_mode_invalidated
decode_copy_mode_invalidated-encode_copy_mode_invalidated m h =
    rw (from_le-four m.pane_id h.pane_id) refl

pub frame_copy_mode_invalidated-received :
    (m : CopyModeInvalidated)
    → FitsCopyModeInvalidated m
    → (frame_copy_mode_invalidated m >>= receive decode_copy_mode_invalidated) ≡ ok m
unfolding frame_copy_mode_invalidated encode_copy_mode_invalidated
frame_copy_mode_invalidated-received m h =
    receive-new decode_copy_mode_invalidated msg_copy_mode_invalidated 0
      (encode_copy_mode_invalidated m) (omega arith) (omega arith) (omega arith)
    ∙ decode_copy_mode_invalidated-encode_copy_mode_invalidated m h

pub record FitsYankSelection (m : YankSelection) : Type 0 where
  pub pane_id : m.pane_id < 4294967296
  pub start_row : IsSigned 9223372036854775808 m.start_row
  pub start_col : m.start_col < 65536
  pub end_row : IsSigned 9223372036854775808 m.end_row
  pub end_col : m.end_col < 65536

pub decode_yank_selection-encode_yank_selection :
    (m : YankSelection)
    → FitsYankSelection m
    → decode_yank_selection (encode_yank_selection m) ≡ ok m
unfolding encode_yank_selection decode_yank_selection
decode_yank_selection-encode_yank_selection m h =
    rw
      (
        from_le-four m.pane_id h.pane_id,
        i64-back m.start_row h.start_row,
        from_le-two m.start_col h.start_col,
        i64-back m.end_row h.end_row,
        from_le-two m.end_col h.end_col,
        copy_selection_type_of-code m.selection_type,
      )
      refl

pub frame_yank_selection-received :
    (m : YankSelection)
    → (serial : ℕ) → serial < 4294967296
    → FitsYankSelection m
    → (frame_yank_selection m serial >>= receive decode_yank_selection) ≡ ok m
unfolding frame_yank_selection encode_yank_selection
frame_yank_selection-received m serial numbered h =
    receive-new decode_yank_selection msg_yank_selection serial (encode_yank_selection m)
      (omega arith) numbered (omega arith)
    ∙ decode_yank_selection-encode_yank_selection m h
