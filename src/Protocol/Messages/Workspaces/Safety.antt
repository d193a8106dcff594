-- ===== src/Protocol/Messages/Workspaces/Safety.antt =====
-- message.rs: the decoders answer on any bytes.
use oakterm.Prelude.{ℕ, ◌+◌, ◌≤◌, List, length, arith}
use oakterm.Protocol.Wire.Safety.{
  Answers, bind-Answers, found-Answers, at_least-Answers, u32_at-found, decode_str-Answers,
}
use oakterm.Protocol.Messages.Workspaces.{
  decode_new_workspace, decode_new_workspace_response, decode_switch_workspace,
  decode_rename_workspace, decode_close_workspace, decode_close_workspace_response,
}

pub decode_new_workspace-Answers : (bytes : List ℕ) → Answers (decode_new_workspace bytes)
unfolding decode_new_workspace
decode_new_workspace-Answers bytes =
    bind-Answers _ (λ q. 0 + q.1 ≤ length bytes) _ _ (decode_str-Answers bytes 0) λ name _. tt

pub decode_new_workspace_response-Answers :
    (bytes : List ℕ) → Answers (decode_new_workspace_response bytes)
unfolding decode_new_workspace_response
decode_new_workspace_response-Answers bytes = at_least-Answers bytes _ 12 _ λ h.
    found-Answers _ _ (u32_at-found bytes 0 (omega (arith, h))) λ workspace_id.
      found-Answers _ _ (u32_at-found bytes 4 (omega (arith, h)))
        λ tab_id. found-Answers _ _ (u32_at-found bytes 8 (omega (arith, h))) λ pane_id. tt

pub decode_switch_workspace-Answers : (bytes : List ℕ) → Answers (decode_switch_workspace bytes)
unfolding decode_switch_workspace
decode_switch_workspace-Answers bytes =
    at_least-Answers bytes _ 4 _
      λ h. found-Answers _ _ (u32_at-found bytes 0 (omega (arith, h))) λ workspace_id. tt

pub decode_rename_workspace-Answers : (bytes : List ℕ) → Answers (decode_rename_workspace bytes)
unfolding decode_rename_workspace
decode_rename_workspace-Answers bytes = at_least-Answers bytes _ 4 _ λ h.
    found-Answers _ _ (u32_at-found bytes 0 (omega (arith, h))) λ workspace_id.
      bind-Answers _ (λ q. 4 + q.1 ≤ length bytes) _ _ (decode_str-Answers bytes 4) λ name _. tt

pub decode_close_workspace-Answers : (bytes : List ℕ) → Answers (decode_close_workspace bytes)
unfolding decode_close_workspace
decode_close_workspace-Answers bytes =
    at_least-Answers bytes _ 4 _
      λ h. found-Answers _ _ (u32_at-found bytes 0 (omega (arith, h))) λ workspace_id. tt

pub decode_close_workspace_response-Answers :
    (bytes : List ℕ) → Answers (decode_close_workspace_response bytes)
unfolding decode_close_workspace_response
decode_close_workspace_response-Answers bytes = tt
