-- ===== src/Protocol/Messages/Requests/Safety.antt =====
-- message.rs: the decoders answer on any bytes.
use oakterm.Prelude.{ℕ, List, arith}
use oakterm.Protocol.Wire.Safety.{
  Answers, found-Answers, at_least-Answers, u32_at-found, i64_at-found,
}
use oakterm.Protocol.Messages.Requests.{
  decode_get_scrollback, decode_create_pane_response, decode_close_pane, decode_focus_pane,
}

pub decode_get_scrollback-Answers : (bytes : List ℕ) → Answers (decode_get_scrollback bytes)
unfolding decode_get_scrollback
decode_get_scrollback-Answers bytes = at_least-Answers bytes _ 16 _ λ h.
    found-Answers _ _ (u32_at-found bytes 0 (omega (arith, h))) λ pane_id.
      found-Answers _ _ (i64_at-found bytes 4 (omega (arith, h)))
        λ start_row. found-Answers _ _ (u32_at-found bytes 12 (omega (arith, h))) λ count. tt

pub decode_create_pane_response-Answers :
    (bytes : List ℕ) → Answers (decode_create_pane_response bytes)
unfolding decode_create_pane_response
decode_create_pane_response-Answers bytes =
    at_least-Answers bytes _ 4 _
      λ h. found-Answers _ _ (u32_at-found bytes 0 (omega (arith, h))) λ pane_id. tt

pub decode_close_pane-Answers : (bytes : List ℕ) → Answers (decode_close_pane bytes)
unfolding decode_close_pane
decode_close_pane-Answers bytes =
    at_least-Answers bytes _ 4 _
      λ h. found-Answers _ _ (u32_at-found bytes 0 (omega (arith, h))) λ pane_id. tt

pub decode_focus_pane-Answers : (bytes : List ℕ) → Answers (decode_focus_pane bytes)
unfolding decode_focus_pane
decode_focus_pane-Answers bytes =
    at_least-Answers bytes _ 4 _
      λ h. found-Answers _ _ (u32_at-found bytes 0 (omega (arith, h))) λ pane_id. tt
