-- ===== src/Protocol/Messages/Tabs/Safety.antt =====
-- message.rs: the decoders answer on any bytes.
use oakterm.Prelude.{ℕ, ◌+◌, ◌≤◌, List, length, arith}
use oakterm.Protocol.Wire.Safety.{
  Answers, bind-Answers, found-Answers, at_least-Answers, u32_at-found, decode_str-Answers,
}
use oakterm.Protocol.Messages.Tabs.{
  decode_new_tab, decode_new_tab_response, decode_close_tab, decode_close_tab_response,
  decode_switch_tab, decode_move_tab, decode_rename_tab,
}

pub decode_new_tab-Answers : (bytes : List ℕ) → Answers (decode_new_tab bytes)
unfolding decode_new_tab
decode_new_tab-Answers bytes = at_least-Answers bytes _ 4 _ λ h.
    found-Answers _ _ (u32_at-found bytes 0 (omega (arith, h))) λ workspace_id.
      bind-Answers _ (λ q. 4 + q.1 ≤ length bytes) _ _ (decode_str-Answers bytes 4)
        λ command _.
          bind-Answers _ (λ q. 4 + command.1 + q.1 ≤ length bytes) _ _
            (decode_str-Answers bytes (4 + command.1)) λ cwd _. tt

pub decode_new_tab_response-Answers : (bytes : List ℕ) → Answers (decode_new_tab_response bytes)
unfolding decode_new_tab_response
decode_new_tab_response-Answers bytes = at_least-Answers bytes _ 8 _ λ h.
    found-Answers _ _ (u32_at-found bytes 0 (omega (arith, h)))
      λ tab_id. found-Answers _ _ (u32_at-found bytes 4 (omega (arith, h))) λ pane_id. tt

pub decode_close_tab-Answers : (bytes : List ℕ) → Answers (decode_close_tab bytes)
unfolding decode_close_tab
decode_close_tab-Answers bytes =
    at_least-Answers bytes _ 4 _
      λ h. found-Answers _ _ (u32_at-found bytes 0 (omega (arith, h))) λ tab_id. tt

pub decode_close_tab_response-Answers : (bytes : List ℕ) → Answers (decode_close_tab_response bytes)
unfolding decode_close_tab_response
decode_close_tab_response-Answers bytes = tt

pub decode_switch_tab-Answers : (bytes : List ℕ) → Answers (decode_switch_tab bytes)
unfolding decode_switch_tab
decode_switch_tab-Answers bytes =
    at_least-Answers bytes _ 4 _
      λ h. found-Answers _ _ (u32_at-found bytes 0 (omega (arith, h))) λ tab_id. tt

pub decode_move_tab-Answers : (bytes : List ℕ) → Answers (decode_move_tab bytes)
unfolding decode_move_tab
decode_move_tab-Answers bytes = at_least-Answers bytes _ 8 _ λ h.
    found-Answers _ _ (u32_at-found bytes 0 (omega (arith, h)))
      λ tab_id. found-Answers _ _ (u32_at-found bytes 4 (omega (arith, h))) λ new_index. tt

pub decode_rename_tab-Answers : (bytes : List ℕ) → Answers (decode_rename_tab bytes)
unfolding decode_rename_tab
decode_rename_tab-Answers bytes = at_least-Answers bytes _ 4 _ λ h.
    found-Answers _ _ (u32_at-found bytes 0 (omega (arith, h))) λ tab_id.
      bind-Answers _ (λ q. 4 + q.1 ≤ length bytes) _ _ (decode_str-Answers bytes 4) λ name _. tt
