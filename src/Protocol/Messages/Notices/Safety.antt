-- ===== src/Protocol/Messages/Notices/Safety.antt =====
-- message.rs, render.rs: the decoders answer on any bytes.
use oakterm.Prelude.{ℕ, ◌+◌, ◌≤◌, List, length, arith}
use oakterm.Protocol.Wire.Safety.{
  Answers, bind-Answers, found-Answers, at_least-Answers, u32_at-found, u64_at-found, i32_at-found,
  decode_str-Answers,
}
use oakterm.Protocol.Messages.Notices.{
  decode_title_changed, decode_pane_exited, decode_bell, decode_dirty_notify,
  decode_get_render_update,
}

pub decode_title_changed-Answers : (bytes : List ℕ) → Answers (decode_title_changed bytes)
unfolding decode_title_changed
decode_title_changed-Answers bytes = at_least-Answers bytes _ 4 _ λ h.
    found-Answers _ _ (u32_at-found bytes 0 (omega (arith, h))) λ pane_id.
      bind-Answers _ (λ q. 4 + q.1 ≤ length bytes) _ _ (decode_str-Answers bytes 4) λ title _. tt

pub decode_pane_exited-Answers : (bytes : List ℕ) → Answers (decode_pane_exited bytes)
unfolding decode_pane_exited
decode_pane_exited-Answers bytes = at_least-Answers bytes _ 8 _ λ h.
    found-Answers _ _ (u32_at-found bytes 0 (omega (arith, h)))
      λ pane_id. found-Answers _ _ (i32_at-found bytes 4 (omega (arith, h))) λ exit_code. tt

pub decode_bell-Answers : (bytes : List ℕ) → Answers (decode_bell bytes)
unfolding decode_bell
decode_bell-Answers bytes =
    at_least-Answers bytes _ 4 _
      λ h. found-Answers _ _ (u32_at-found bytes 0 (omega (arith, h))) λ pane_id. tt

pub decode_dirty_notify-Answers : (bytes : List ℕ) → Answers (decode_dirty_notify bytes)
unfolding decode_dirty_notify
decode_dirty_notify-Answers bytes =
    at_least-Answers bytes _ 4 _
      λ h. found-Answers _ _ (u32_at-found bytes 0 (omega (arith, h))) λ pane_id. tt

pub decode_get_render_update-Answers : (bytes : List ℕ) → Answers (decode_get_render_update bytes)
unfolding decode_get_render_update
decode_get_render_update-Answers bytes = at_least-Answers bytes _ 12 _ λ h.
    found-Answers _ _ (u32_at-found bytes 0 (omega (arith, h)))
      λ pane_id. found-Answers _ _ (u64_at-found bytes 4 (omega (arith, h))) λ since_seqno. tt
