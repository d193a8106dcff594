-- ===== src/Protocol/Messages/CopyMode/Safety.antt =====
-- message.rs: the decoders answer on any bytes.
use oakterm.Prelude.{ℕ, List, arith}
use oakterm.Protocol.Wire.Safety.{
  Answers, bind-Answers, found-Answers, at_least-Answers, byte_at-found, u16_at-found, u32_at-found,
  u64_at-found, i64_at-found,
}
use oakterm.Protocol.Wire.Enums.Answers.{copy_selection_type_of-Answers}
use oakterm.Protocol.Messages.CopyMode.{
  decode_enter_copy_mode, decode_enter_copy_mode_ack, decode_exit_copy_mode,
  decode_copy_mode_invalidated, decode_yank_selection,
}

pub decode_enter_copy_mode-Answers : (bytes : List ℕ) → Answers (decode_enter_copy_mode bytes)
unfolding decode_enter_copy_mode
decode_enter_copy_mode-Answers bytes = at_least-Answers bytes _ 12 _ λ h.
    found-Answers _ _ (u32_at-found bytes 0 (omega (arith, h)))
      λ pane_id. found-Answers _ _ (u64_at-found bytes 4 (omega (arith, h))) λ base. tt

pub decode_enter_copy_mode_ack-Answers :
    (bytes : List ℕ) → Answers (decode_enter_copy_mode_ack bytes)
unfolding decode_enter_copy_mode_ack
decode_enter_copy_mode_ack-Answers bytes = at_least-Answers bytes _ 12 _ λ h.
    found-Answers _ _ (u32_at-found bytes 0 (omega (arith, h)))
      λ pane_id. found-Answers _ _ (u64_at-found bytes 4 (omega (arith, h))) λ base. tt

pub decode_exit_copy_mode-Answers : (bytes : List ℕ) → Answers (decode_exit_copy_mode bytes)
unfolding decode_exit_copy_mode
decode_exit_copy_mode-Answers bytes =
    at_least-Answers bytes _ 4 _
      λ h. found-Answers _ _ (u32_at-found bytes 0 (omega (arith, h))) λ pane_id. tt

pub decode_copy_mode_invalidated-Answers :
    (bytes : List ℕ) → Answers (decode_copy_mode_invalidated bytes)
unfolding decode_copy_mode_invalidated
decode_copy_mode_invalidated-Answers bytes =
    at_least-Answers bytes _ 4 _
      λ h. found-Answers _ _ (u32_at-found bytes 0 (omega (arith, h))) λ pane_id. tt

pub decode_yank_selection-Answers : (bytes : List ℕ) → Answers (decode_yank_selection bytes)
unfolding decode_yank_selection
decode_yank_selection-Answers bytes = at_least-Answers bytes _ 25 _ λ h.
    found-Answers _ _ (u32_at-found bytes 0 (omega (arith, h))) λ pane_id.
      found-Answers _ _ (i64_at-found bytes 4 (omega (arith, h))) λ start_row.
        found-Answers _ _ (u16_at-found bytes 12 (omega (arith, h))) λ start_col.
          found-Answers _ _ (i64_at-found bytes 14 (omega (arith, h))) λ end_row.
            found-Answers _ _ (u16_at-found bytes 22 (omega (arith, h))) λ end_col.
              bind-Answers _ (λ _. Unit {0}) _ _
                (found-Answers _ _ (byte_at-found bytes 24 (omega (arith, h)))
                  λ b. copy_selection_type_of-Answers b)
                λ selection_type _. tt
